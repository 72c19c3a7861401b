-- ===== src/Core/Selector/Limits.antt =====
-- crates/novbot-core/src/tags.rs: the selectors that `parse_selector` gives.
use mathlib.Core.Path.{◌≡◌, refl, ap, subst}
use novbot.Common.{
  suc, ◌≤◌, List, [], ◌∷◌, map, ok, ◌>>=◌, length, Bool-cases, inl, inr, All, any, >>=-eq-ok, arith,
}
use novbot.Text.{Str, str_eq}
use novbot.Core.Selector.{
  Requirement, eq, not_eq, is_in, not_in, exists, not_exists, Selector, filter,
}
use novbot.Core.Selector.Parser.{ParsedReq, requirements_from, skip_ws_from}
use novbot.Core.Selector.Canonical.{
  first_equalities, reject_conflicting_equality, finish, parse_selector, reject, eq_values,
  canonical_of,
}
use novbot.Core.Selector.Parsed.{IsRequirement, requirements_from-All}

first_equalities-All :
    (seen : List Str) (reqs : List Requirement)
    → All IsRequirement reqs
    → All IsRequirement (first_equalities seen reqs)
unfolding first_equalities
first_equalities-All seen [] h = tt
first_equalities-All seen (eq k v ∷ reqs) (p, h) = elim (Bool-cases (any (str_eq k) seen)) [
  | inl old ↦ rw old (first_equalities-All seen reqs h)
  | inr new ↦ rw new (p, first_equalities-All (k ∷ seen) reqs h)
]
first_equalities-All seen (not_eq k v ∷ reqs) (p, h) = (p, first_equalities-All seen reqs h)
first_equalities-All seen (is_in k vs ∷ reqs) (p, h) = (p, first_equalities-All seen reqs h)
first_equalities-All seen (not_in k vs ∷ reqs) (p, h) = (p, first_equalities-All seen reqs h)
first_equalities-All seen (exists k ∷ reqs) (p, h) = (p, first_equalities-All seen reqs h)
first_equalities-All seen (not_exists k ∷ reqs) (p, h) = (p, first_equalities-All seen reqs h)

length-first_equalities :
    (seen : List Str) (reqs : List Requirement) → length (first_equalities seen reqs) ≤ length reqs
unfolding first_equalities
length-first_equalities seen [] = omega arith
length-first_equalities seen (eq k v ∷ reqs) = elim (Bool-cases (any (str_eq k) seen)) [
  | inl old ↦ ground (arith, length-first_equalities seen reqs)
  | inr new ↦ ground (arith, length-first_equalities (k ∷ seen) reqs)
]
length-first_equalities seen (not_eq k v ∷ reqs) = omega (arith, length-first_equalities seen reqs)
length-first_equalities seen (is_in k vs ∷ reqs) = omega (arith, length-first_equalities seen reqs)
length-first_equalities seen (not_in k vs ∷ reqs) = omega (arith, length-first_equalities seen reqs)
length-first_equalities seen (exists k ∷ reqs) = omega (arith, length-first_equalities seen reqs)
length-first_equalities seen (not_exists k ∷ reqs) =
    omega (arith, length-first_equalities seen reqs)

first_equalities-nonempty :
    (reqs : List Requirement) → 1 ≤ length reqs → 1 ≤ length (first_equalities [] reqs)
unfolding first_equalities
first_equalities-nonempty [] h = h
first_equalities-nonempty (eq k v ∷ reqs) h = omega arith
first_equalities-nonempty (not_eq k v ∷ reqs) h = omega arith
first_equalities-nonempty (is_in k vs ∷ reqs) h = omega arith
first_equalities-nonempty (not_in k vs ∷ reqs) h = omega arith
first_equalities-nonempty (exists k ∷ reqs) h = omega arith
first_equalities-nonempty (not_exists k ∷ reqs) h = omega arith

requirements_of :
    (reqs : List ParsedReq)
    → All (λ r. IsRequirement r.req) reqs
    → (length (map (λ r. r.req) reqs) ≡ length reqs) × All IsRequirement (map (λ r. r.req) reqs)
requirements_of [] h = (refl, tt)
requirements_of (r ∷ reqs) (p, h) =
    let (len, rest) = requirements_of reqs h in (ap suc len, (p, rest))

-- A selector within its limits: 1 to 16 requirements with valid keys, values and value sets, and
-- the canonical form of these requirements.
abbrev pub IsSelector : Selector → Type 0
IsSelector selector =
    (1 ≤ length selector.requirements)
    × ((length selector.requirements ≤ 16)
        × (All IsRequirement selector.requirements
            × (selector.canonical ≡ canonical_of selector.requirements)))

finish-IsSelector :
    (reqs : List ParsedReq) {selector : Selector}
    → 1 ≤ length reqs
    → length reqs ≤ 16
    → All (λ r. IsRequirement r.req) reqs
    → finish reqs ≡ ok (filter selector)
    → IsSelector selector
unfolding finish reject_conflicting_equality
finish-IsSelector reqs {selector} low high h e =
    let (found, kept, whole) =
      >>=-eq-ok (reject_conflicting_equality reqs) _ {b = filter selector} e in
    let (accepted, checked_all, rest) =
      >>=-eq-ok (reject reqs (eq_values [] (map (λ r. r.req) reqs))) _ {b = found} kept in
    let plain = map (λ r. r.req) reqs in
    let (len, goods) = requirements_of reqs h in
    let same : first_equalities [] plain ≡ found = cc in
    let good : All IsRequirement found =
      subst (All IsRequirement) same (first_equalities-All [] plain goods) in
    let few : length found ≤ 16 =
      subst (λ l. length l ≤ 16) same (omega (arith, length-first_equalities [] plain, len)) in
    let some_left : 1 ≤ length found =
      subst (λ l. 1 ≤ length l) same
        (omega (arith, first_equalities-nonempty plain (omega (arith, len)))) in
    let here_is : record { requirements = found; canonical = canonical_of found } ≡ selector = cc in
    subst IsSelector here_is (some_left, (few, (good, refl)))

-- A text that parse_selector turns into a filter gives 1 to 16 requirements; every key and value
-- in them is valid, every value set has 1 to 32 values, and the selector carries their canonical
-- form.
pub parse_selector-IsSelector :
    (input : Str) (selector : Selector)
    → parse_selector input ≡ ok (filter selector)
    → IsSelector selector
unfolding parse_selector
parse_selector-IsSelector input selector h =
    let start = skip_ws_from input 0 in
    let run : (requirements_from 16 start >>= finish) ≡ ok (filter selector) = ground arith in
    let (reqs, got, rest) =
      >>=-eq-ok (requirements_from 16 start) finish {b = filter selector} run in
    let (low, (high, goods)) = requirements_from-All 16 start got in
    finish-IsSelector reqs low high goods rest
