-- ===== src/Core/Retry.antt =====
-- crates/novbot-core/src/retry.rs: the spool of reports that could not be sent. The state is the
-- text of its file, if there is one; file operations succeed, and the file is UTF-8. `encode` and
-- `decode` stand for `serde_json::to_string` and `serde_json::from_str`.
pub mod RoundTrip
use novbot.Common.{
  ℕ, Bool, true, false, List, [], ◌∷◌, ◌++◌, Option, none, some, ltb, if◌then◌else◌, is_empty,
}
use novbot.Text.{Str, codes, split, trim}

pub record PendingReport : Type 0 where
  pub node_id : Str
  pub run_id : Str
  pub spec_id : Str
  pub status : Str
  pub payload_json : Str
  pub observed_at_unix_ms : ℕ
  pub attempts : ℕ

-- The sign of `observed_at_unix_ms` is kept in its bit pattern.
abbrev pub Spool : Type 0
Spool = Option Str

abbrev pub newline : ℕ
newline = 10

abbrev pub content : Spool → Str
content none = []
content (some text) = text

-- `item.attempts.max(1)`.
unfoldable pub counted : PendingReport → PendingReport
counted item = record item { attempts = if ltb item.attempts 1 then 1 else item.attempts }

unfoldable pub enqueue : (PendingReport → Str) → Spool → PendingReport → Spool
enqueue encode spool item = some (content spool ++ (encode (counted item) ++ newline ∷ []))

-- The loop of `drain` over the lines; a line that does not decode is skipped.
unfoldable pub decode_lines : (Str → Option PendingReport) → List Str → List PendingReport
decode_lines decode [] = []
decode_lines decode (line ∷ lines) =
    let rest = decode_lines decode lines in
    let kept : List PendingReport = elim (decode (trim line)) [
      | some item ↦ item ∷ rest
      | none ↦ rest
    ] in
    if is_empty (trim line) then rest else kept

-- The reports, and the spool that is left.
unfoldable pub drain : (Str → Option PendingReport) → Spool → List PendingReport × Spool
drain decode none = ([], none)
drain decode (some text) = (decode_lines decode (split text newline), some [])
