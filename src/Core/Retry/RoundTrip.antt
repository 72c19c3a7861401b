-- ===== src/Core/Retry/RoundTrip.antt =====
-- crates/novbot-core/src/retry.rs: `enqueue` followed by `drain`.
use mathlib.Core.Path.{◌≡◌, refl, sym, ap, ◌∙◌}
use novbot.Common.{
  false, List, [], ◌∷◌, ◌++◌, map, Option, some, is_empty, ◌≢◌, append_assoc, append-nil, All,
  arith,
}
use novbot.Text.{Str, split, join, trim}
use novbot.Text.Parts.{Lacks, split-append}
use novbot.Core.Retry.{PendingReport, Spool, newline, counted, enqueue, decode_lines, drain}

-- What `serde_json` promises of a report: its text is one line, without white space at its ends,
-- that reads back as the report.
pub record IsWritten (encode : PendingReport → Str) (decode : Str → Option PendingReport)
    (item : PendingReport) : Type 0 where
  pub reads_back : decode (encode item) ≡ some item
  pub one_line : Lacks newline (encode item)
  pub trimmed : trim (encode item) ≡ encode item
  pub filled : encode item ≢ []

-- The reports are put into the spool one after the other.
unfoldable pub enqueue_all : (PendingReport → Str) → Spool → List PendingReport → Spool
enqueue_all encode spool [] = spool
enqueue_all encode spool (item ∷ items) = enqueue_all encode (enqueue encode spool item) items

split_line :
    (line rest : Str)
    → Lacks newline line
    → split (line ++ newline ∷ rest) newline ≡ line ∷ split rest newline
unfolding join
split_line line rest lacks = split-append (line ∷ []) rest newline (λ e. cc) (lacks, tt)

filled_text : (s : Str) → s ≢ [] → is_empty s ≡ false
filled_text [] ne = absurd (ne refl)
filled_text (c ∷ s) ne = refl

module _ (encode : PendingReport → Str) (decode : Str → Option PendingReport) where
  spool_text : List PendingReport → Str
  spool_text [] = []
  spool_text (item ∷ items) = encode (counted item) ++ newline ∷ spool_text items

  enqueue_all-text :
      (items : List PendingReport) (text : Str)
      → enqueue_all encode (some text) items ≡ some (text ++ spool_text items)
  unfolding enqueue_all enqueue spool_text
  enqueue_all-text [] text = ap some (sym (append-nil text))
  enqueue_all-text (item ∷ items) text =
      enqueue_all-text items (text ++ (encode (counted item) ++ newline ∷ [])) ∙ simp (append_assoc)

  decode_line :
      (item : PendingReport) (lines : List Str)
      → IsWritten encode decode item
      → decode_lines decode (encode item ∷ lines) ≡ item ∷ decode_lines decode lines
  unfolding decode_lines
  decode_line item lines w =
      ground (arith, w.reads_back, w.trimmed, filled_text (encode item) w.filled)

  decode-spool_text :
      (items : List PendingReport)
      → All (λ item. IsWritten encode decode (counted item)) items
      → decode_lines decode (split (spool_text items) newline) ≡ map counted items
  unfolding spool_text
  decode-spool_text [] h = unfold split decode_lines trim in refl
  decode-spool_text (item ∷ items) (w, h) =
      ap (decode_lines decode) (split_line (encode (counted item)) (spool_text items) w.one_line)
      ∙ decode_line (counted item) (split (spool_text items) newline) w
      ∙ ap (λ l. counted item ∷ l) (decode-spool_text items h)

  -- If every report is written as one line that reads back, the reports put into an emptied spool
  -- are drained once, all of them, in their order and with at least one attempt counted, and the
  -- spool is empty again.
  pub drain-enqueue_all :
      (items : List PendingReport)
      → All (λ item. IsWritten encode decode (counted item)) items
      → drain decode (enqueue_all encode (some []) items) ≡ (map counted items, some [])
  unfolding drain
  drain-enqueue_all items h =
      ap (drain decode) (enqueue_all-text items [])
      ∙ ap (λ l. (l, some [])) (decode-spool_text items h)
