-- ===== src/Core/Selector/Parsed.antt =====
-- crates/novbot-core/src/tags.rs: the requirements that the parser reads.
use mathlib.Core.Path.{◌≡◌, subst}
use novbot.Common.{
  ℕ, suc, zero, ◌≤◌, Bool, true, ◌||◌, List, [], ◌∷◌, ok, length, Bool-cases, Option-cases, inl,
  inr, All, >>=-eq-ok, arith,
}
use novbot.Text.{Str, codes, strip_prefix, starts_with}
use novbot.Core.Tags.{is_tag_char, key_ok, value_ok}
use novbot.Core.Tags.Rules.{IsKey, IsValue, key_ok_iff, value_ok_iff}
use novbot.Core.Selector.{Requirement, eq, not_eq, is_in, not_in, exists, not_exists}
use novbot.Core.Selector.Parser.{
  Parser, ParsedReq, token, checked, key, value, values_from, value_set, operator, requirement_here,
  requirement, requirements_from, skip_ws, eat, eat_word, eof,
}

-- A value set has 1 to 32 valid values.
abbrev pub IsValueSet : List Str → Type 0
IsValueSet vs = (1 ≤ length vs) × ((length vs ≤ 32) × All IsValue vs)

abbrev pub IsRequirement : Requirement → Type 0
IsRequirement (eq k v) = IsKey k × IsValue v
IsRequirement (not_eq k v) = IsKey k × IsValue v
IsRequirement (is_in k vs) = IsKey k × IsValueSet vs
IsRequirement (not_in k vs) = IsKey k × IsValueSet vs
IsRequirement (exists k) = IsKey k
IsRequirement (not_exists k) = IsKey k

checked-good :
    (good : Str → Bool) (what : Str) (p : Parser) {raw : Str} {q : Parser}
    → checked good what p ≡ ok (raw, q)
    → good raw ≡ true
unfolding checked
checked-good good what p h =
    let ((r, s), got, rest) = >>=-eq-ok (token is_tag_char p) _ h in ground arith

key-IsKey : (p : Parser) {k : Str} {q : Parser} → key p ≡ ok (k, q) → IsKey k
unfolding key
key-IsKey p {k} h = (key_ok_iff k).0 (checked-good key_ok (codes "key") p h)

value-IsValue : (p : Parser) {v : Str} {q : Parser} → value p ≡ ok (v, q) → IsValue v
unfolding value
value-IsValue p {v} h = (value_ok_iff v).0 (checked-good value_ok (codes "value") p h)

values_from-All :
    (n : ℕ) (p : Parser) {vs : List Str} {q : Parser}
    → values_from n p ≡ ok (vs, q)
    → (1 ≤ length vs) × ((length vs ≤ n) × All IsValue vs)
unfolding values_from
values_from-All zero p {vs} {q} h = absurd cc
values_from-All (suc n) p {vs} {q} h =
    let ((v, r), got, rest) = >>=-eq-ok (value (skip_ws p)) _ h in
    let good = value-IsValue (skip_ws p) got in
    elim (Option-cases (eat b',' (skip_ws r))) [
      | inr (s, comma) ↦
          let ((ws, t), more, same) = >>=-eq-ok (values_from n s) _ (rw comma at rest) in
          let (low, (high, goods)) = values_from-All n s more in
          let eqn : v ∷ ws ≡ vs = cc in
          subst (λ l. (1 ≤ length l) × ((length l ≤ suc n) × All IsValue l)) eqn
            (omega arith, (omega arith, (good, goods)))
      | inl no_comma ↦ elim (Option-cases (eat b')' (skip_ws r))) [
        | inr (s, close) ↦
            let eqn : v ∷ [] ≡ vs = ground arith in
            subst (λ l. (1 ≤ length l) × ((length l ≤ suc n) × All IsValue l)) eqn
              (omega arith, (omega arith, (good, tt)))
        | inl no_close ↦ absurd (ground arith)
      ]
    ]

value_set-IsValueSet :
    (p : Parser) {vs : List Str} {q : Parser} → value_set p ≡ ok (vs, q) → IsValueSet vs
unfolding value_set
value_set-IsValueSet p {vs} {q} h = elim (Option-cases (eat b'(' (skip_ws p))) [
  | inl missing ↦ absurd (ground arith)
  | inr (s, bracket) ↦
      let ((ws, t), got, rest) = >>=-eq-ok (values_from 32 s) _ (rw (bracket, value_set) at h) in
      let same : ws ≡ vs = ground arith in subst IsValueSet same (values_from-All 32 s got)
]

operator-IsRequirement :
    (k : Str) (p : Parser) {req : Requirement} {q : Parser}
    → IsKey k
    → operator k p ≡ ok (req, q)
    → IsRequirement req
unfolding operator strip_prefix
operator-IsRequirement k p {req} {q} good h =
    elim (Option-cases (strip_prefix p.rest (codes "!="))) [
      | inr (s, e1) ↦
          let ((v, r), got, rest) = >>=-eq-ok (value _) _ (rw e1 at h) in
          let same : not_eq k v ≡ req = cc in subst IsRequirement same (good, value-IsValue _ got)
      | inl n1 ↦ elim (Option-cases (eat b'=' p)) [
        | inr (s, e2) ↦
            let ((v, r), got, rest) = >>=-eq-ok (value _) _ (rw (n1, e2) at h) in
            let same : eq k v ≡ req = cc in subst IsRequirement same (good, value-IsValue _ got)
        | inl n2 ↦ elim (Option-cases (eat_word (codes "notin") p)) [
          | inr (s, e3) ↦
              let ((vs, r), got, rest) = >>=-eq-ok (value_set s) _ (rw (n1, n2, e3) at h) in
              let same : not_in k vs ≡ req = cc in
              subst IsRequirement same (good, value_set-IsValueSet s got)
          | inl n3 ↦ elim (Option-cases (eat_word (codes "in") p)) [
            | inr (s, e4) ↦
                let ((vs, r), got, rest) = >>=-eq-ok (value_set s) _ (rw (n1, n2, n3, e4) at h) in
                let same : is_in k vs ≡ req = cc in
                subst IsRequirement same (good, value_set-IsValueSet s got)
            | inl n4 ↦ absurd (ground arith)
          ]
        ]
      ]
    ]

requirement_here-IsRequirement :
    (p : Parser) {req : Requirement} {q : Parser}
    → requirement_here p ≡ ok (req, q)
    → IsRequirement req
unfolding requirement_here
requirement_here-IsRequirement p {req} {q} h = elim (Option-cases (eat b'!' p)) [
  | inr (s, bang) ↦
      let ((k, r), got, rest) = >>=-eq-ok (key (skip_ws s)) _ (rw (bang, requirement_here) at h) in
      let same : not_exists k ≡ req = cc in subst IsRequirement same (key-IsKey (skip_ws s) got)
  | inl no_bang ↦
      let ((k, r), got, rest) = >>=-eq-ok (key p) _ (rw (no_bang, requirement_here) at h) in
      let good = key-IsKey p got in
      elim (Bool-cases (eof (skip_ws r) || starts_with (skip_ws r).rest (codes ","))) [
        | inl alone ↦ let same : exists k ≡ req = ground arith in subst IsRequirement same good
        | inr more ↦ operator-IsRequirement k (skip_ws r) {req = req} {q = q} good (ground arith)
      ]
]

requirement-IsRequirement :
    (p : Parser) {parsed : ParsedReq} {q : Parser}
    → requirement p ≡ ok (parsed, q)
    → IsRequirement parsed.req
unfolding requirement
requirement-IsRequirement p {parsed} {q} h = elim (Bool-cases (eof (skip_ws p))) [
  | inl ended ↦ absurd (ground arith)
  | inr more ↦
      let ((req, r), got, rest) =
        >>=-eq-ok (requirement_here (skip_ws p)) _ (rw (more, requirement) at h) in
      let same : req ≡ parsed.req = ground arith in
      subst IsRequirement same (requirement_here-IsRequirement (skip_ws p) got)
]

pub requirements_from-All :
    (n : ℕ) (p : Parser) {reqs : List ParsedReq}
    → requirements_from n p ≡ ok reqs
    → (1 ≤ length reqs) × ((length reqs ≤ n) × All (λ r. IsRequirement r.req) reqs)
unfolding requirements_from
requirements_from-All zero p {reqs} h = absurd cc
requirements_from-All (suc n) p {reqs} h =
    let ((first, q), got, rest) = >>=-eq-ok (requirement p) _ h in
    let good = requirement-IsRequirement p got in
    elim (Bool-cases (eof (skip_ws q))) [
      | inl ended ↦
          let same : first ∷ [] ≡ reqs = ground arith in
          subst (λ l. (1 ≤ length l) × ((length l ≤ suc n) × All (λ r. IsRequirement r.req) l)) same
            (omega arith, (omega arith, (good, tt)))
      | inr more ↦ elim (Option-cases (eat b',' (skip_ws q))) [
        | inl no_comma ↦ absurd (ground arith)
        | inr (s, comma) ↦ elim (Bool-cases (eof (skip_ws s))) [
          | inl trailing ↦ absurd (ground arith)
          | inr left ↦
              let (tail, got_tail, whole) =
                >>=-eq-ok (requirements_from n (skip_ws s)) (λ l. ok (first ∷ l)) {b = reqs}
                  (rw (more, comma, left) at rest) in
              let (low, (high, goods)) = requirements_from-All n (skip_ws s) got_tail in
              let same : first ∷ tail ≡ reqs = cc in
              subst (λ l. (1 ≤ length l) × ((length l ≤ suc n) × All (λ r. IsRequirement r.req) l))
                same (omega arith, (omega arith, (good, goods)))
        ]
      ]
    ]
