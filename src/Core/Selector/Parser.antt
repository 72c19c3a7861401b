-- ===== src/Core/Selector/Parser.antt =====
-- crates/novbot-core/src/tags.rs: the parser of selectors. A position counts bytes of UTF-8. The
-- loops run on the number of values or requirements that they may still read.
use novbot.Common.{
  ℕ, suc, zero, ◌+◌, Bool, true, not, ◌||◌, List, [], ◌∷◌, ◌++◌, Option, none, some, ltb, ◌==◌,
  if◌then◌else◌, Result, ok, err, ◌>>=◌, ◌>>◌, fail_if, length, is_empty,
}
use novbot.Text.{Str, codes, starts_with, strip_prefix, is_lower, is_digit, is_ascii_whitespace}
use novbot.Core.Tags.{is_tag_char, key_ok, value_ok}
use novbot.Core.Selector.{
  Requirement, eq, not_eq, is_in, not_in, exists, not_exists, SelectorError, max_set_values,
}

-- `rest` is the input from byte `i` on.
pub record Parser : Type 0 where
  pub rest : Str
  pub i : ℕ

abbrev pub Parse : Type 0 → Type 0
Parse A = Result (A × Parser) SelectorError

pub record ParsedReq : Type 0 where
  pub start : ℕ
  pub req : Requirement

unfoldable pub len_utf8 : ℕ → ℕ
len_utf8 c = if ltb c 0x80 then 1 else if ltb c 0x800 then 2 else if ltb c 0x10000 then 3 else 4

abbrev pub eof : Parser → Bool
eof p = is_empty p.rest

abbrev pub fail : Parser → Str → SelectorError
fail p message = record { message = message; position = p.i }

-- The loop of `skip_ws`, which `trim_start_index` runs from byte 0.
unfoldable pub skip_ws_from : Str → ℕ → Parser
skip_ws_from [] i = record { rest = []; i = i }
skip_ws_from (c ∷ s) i =
    let more = skip_ws_from s (i + len_utf8 c) in
    if is_ascii_whitespace c then more else record { rest = c ∷ s; i = i }

unfoldable pub skip_ws : Parser → Parser
skip_ws p = skip_ws_from p.rest p.i

-- `eat(byte)`, for an ASCII byte: the parser behind it, if it comes first.
unfoldable pub eat : ℕ → Parser → Option Parser
eat byte p = elim (strip_prefix p.rest (byte ∷ [])) [
  | none ↦ none
  | some s ↦ some (record { rest = s; i = p.i + 1 })
]

-- The character behind a word does not continue it.
abbrev pub ends_word : Str → Bool
ends_word [] = true
ends_word (c ∷ s) = not (is_lower c || is_digit c || c == b'_' || c == b'.')

-- `eat_word(word)`, for an ASCII word.
unfoldable pub eat_word : Str → Parser → Option Parser
eat_word word p = elim (strip_prefix p.rest word) [
  | none ↦ none
  | some s ↦ if ends_word s then some (record { rest = s; i = p.i + length word }) else none
]

-- The loop of `token`: the longest run of accepted characters, its end, and the rest.
unfoldable pub scan : (ℕ → Bool) → Str → ℕ → Str × Parser
scan accept [] i = ([], record { rest = []; i = i })
scan accept (c ∷ s) i =
    let (raw, p) = scan accept s (i + len_utf8 c) in
    if accept c then (c ∷ raw, p) else ([], record { rest = c ∷ s; i = i })

unfoldable pub token : (ℕ → Bool) → Parser → Parse Str
token accept p =
    let scanned = scan accept p.rest p.i in
    if is_empty (scanned.0) then err (fail p (codes "expected a token")) else ok scanned

-- `key` and `value`.
unfoldable pub checked : (Str → Bool) → Str → Parser → Parse Str
checked good what p = do
  (raw, q) ← token is_tag_char p
  fail_if (not (good raw))
      (fail p (codes "invalid selector " ++ what ++ codes " `" ++ raw ++ codes "`"))
  ok (raw, q)

unfoldable pub key : Parser → Parse Str
key p = checked key_ok (codes "key") p

unfoldable pub value : Parser → Parse Str
value p = checked value_ok (codes "value") p

-- The loop of `value_set` when it may still read `n` values, from the first to the last one.
unfoldable pub values_from : ℕ → Parser → Parse (List Str)
values_from zero p = err (fail (skip_ws p) (codes "value set exceeds 32 values"))
values_from (suc n) p = do
  (v, q) ← value (skip_ws p)
  let r = skip_ws q
  elim (eat b',' r) [
    | some s ↦ values_from n s >>= λ (vs, t). ok (v ∷ vs, t)
    | none ↦ elim (eat b')' r) [
      | some s ↦ ok (v ∷ [], s)
      | none ↦ err (fail r (codes "expected ',' or ')'"))
    ]
  ]

unfoldable pub value_set : Parser → Parse (List Str)
value_set p = elim (eat b'(' (skip_ws p)) [
  | none ↦ err (fail (skip_ws p) (codes "expected '('"))
  | some q ↦ do
    (vs, r) ← values_from max_set_values q
    fail_if (is_empty vs) (fail r (codes "value set is empty"))
    ok (vs, r)
]

-- `requirement` behind the key, from its `!=`, `=`, `notin` and `in` on.
unfoldable pub operator : Str → Parser → Parse Requirement
operator k p = elim (strip_prefix p.rest (codes "!=")) [
  | some s ↦ do (v, q) ← value (skip_ws (record { rest = s; i = p.i + 2 })); ok (not_eq k v, q)
  | none ↦ elim (eat b'=' p) [
    | some s ↦ do (v, q) ← value (skip_ws s); ok (eq k v, q)
    | none ↦ elim (eat_word (codes "notin") p) [
      | some s ↦ do (vs, q) ← value_set s; ok (not_in k vs, q)
      | none ↦ elim (eat_word (codes "in") p) [
        | some s ↦ do (vs, q) ← value_set s; ok (is_in k vs, q)
        | none ↦ err (fail p (codes "expected '=', '!=', 'in', 'notin', or end of requirement"))
      ]
    ]
  ]
]

-- `requirement` behind the white space before it.
unfoldable pub requirement_here : Parser → Parse Requirement
requirement_here p = elim (eat b'!' p) [
  | some s ↦ do (k, q) ← key (skip_ws s); ok (not_exists k, q)
  | none ↦ do
    (k, q) ← key p
    let r = skip_ws q
    if eof r || starts_with r.rest (codes ",") then ok (exists k, r) else operator k r
]

unfoldable pub requirement : Parser → Parse ParsedReq
requirement p =
    let q = skip_ws p in
    let found = requirement_here q >>= λ (req, r). ok (record { start = q.i; req = req }, r) in
    if eof q then err (fail q (codes "expected a requirement")) else found

-- The loop of `parse_selector` when it may still read `n` requirements.
unfoldable pub requirements_from : ℕ → Parser → Result (List ParsedReq) SelectorError
requirements_from zero p = err (fail p (codes "selector exceeds 16 requirements"))
requirements_from (suc n) p = do
  (req, q) ← requirement p
  let r = skip_ws q
  if eof r then ok (req ∷ []) else elim (eat b',' r) [
    | none ↦ err (fail p (codes "expected ',' or end of selector"))
    | some s ↦
        let t = skip_ws s in
        let more = requirements_from n t >>= λ reqs. ok (req ∷ reqs) in
        if eof t then err (fail t (codes "trailing comma")) else more
  ]
