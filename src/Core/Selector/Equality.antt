-- ===== src/Core/Selector/Equality.antt =====
-- crates/novbot-core/src/tags.rs: `reject_conflicting_equality` and the meaning of a selector.
use mathlib.Core.Path.{◌≡◌, refl, sym, ◌∙◌, subst}
use novbot.Common.{
  ◌≤◌, true, List, [], ◌∷◌, map, ltb, any, all, length, Bool-cases, Bool-ext, inl, inr, All,
  All-map, Any, here, there, ok, arith, >>=-eq-ok,
}
use novbot.Text.{Str, str_eq}
use novbot.Text.Laws.{str_eq_iff}
use novbot.Core.Tags.Ordering.{str_lt, insert_by, sort_by, dedup, sorted_unique}
use novbot.Core.Selector.{
  Requirement, eq, not_eq, is_in, not_in, exists, not_exists, Tags, requirement_matches,
}
use novbot.Core.Selector.Parser.{ParsedReq}
use novbot.Core.Selector.Canonical.{
  eq_values, reject, first_equalities, reject_conflicting_equality,
}
use novbot.Core.Selector.Grouping.{
  str_lt_irrefl, Above, Ordered, Holds, eq_values-Ordered, eq_values-Holds,
}

dedup_nonempty : (x : Str) (xs : List Str) → 1 ≤ length (dedup (x ∷ xs))
unfolding dedup
dedup_nonempty x [] = omega arith
dedup_nonempty x (y ∷ ys) = elim (Bool-cases (str_eq x y)) [
  | inl same ↦ rw same (dedup_nonempty y ys)
  | inr other ↦ rw other (omega arith)
]

dedup_single : (x : Str) (xs : List Str) → length (dedup (x ∷ xs)) ≤ 1 → All (λ y. y ≡ x) xs
unfolding dedup
dedup_single x [] h = tt
dedup_single x (y ∷ ys) h = elim (Bool-cases (str_eq x y)) [
  | inl same ↦
      let at : x ≡ y = (str_eq_iff x y).0 same in
      (sym at, All-map ys (λ z e. e ∙ sym at) (dedup_single y ys (rw same at h)))
  | inr other ↦ absurd (ground (arith, dedup_nonempty y ys))
]

member_equal : (x v : Str) (xs : List Str) → All (λ y. y ≡ x) xs → Any (λ y. y ≡ v) xs → x ≡ v
member_equal x v [] h m = elim m [ ]
member_equal x v (y ∷ ys) (p, h) (here e) = sym p ∙ e
member_equal x v (y ∷ ys) (p, h) (there m) = member_equal x v ys h m

all_equal :
    (xs : List Str) (v w : Str)
    → length (dedup xs) ≤ 1
    → Any (λ y. y ≡ v) xs
    → Any (λ y. y ≡ w) xs
    → v ≡ w
all_equal [] v w h m n = elim m [ ]
all_equal (x ∷ xs) v w h m n =
    let same = dedup_single x xs h in
    sym (member_equal x v (x ∷ xs) (refl, same) m) ∙ member_equal x w (x ∷ xs) (refl, same) n

insert_by-member :
    (v x : Str) (ys : List Str)
    → Any (λ y. y ≡ v) (x ∷ ys)
    → Any (λ y. y ≡ v) (insert_by str_lt x ys)
unfolding insert_by
insert_by-member v x [] h = h
insert_by-member v x (y ∷ ys) h = elim (Bool-cases (str_lt y x)) [
  | inr not_less ↦ rw not_less h
  | inl less ↦ rw less (placed (λ m. insert_by-member v x ys m) h)
]
  where
    placed :
        (Any (λ u. u ≡ v) (x ∷ ys) → Any (λ u. u ≡ v) (insert_by str_lt x ys))
        → Any (λ u. u ≡ v) (x ∷ y ∷ ys)
        → Any (λ u. u ≡ v) (y ∷ insert_by str_lt x ys)
    placed f (here e) = there (f (here e))
    placed f (there (here e)) = here e
    placed f (there (there m)) = there (f (there m))

sort_by-member :
    (v : Str) (xs : List Str) → Any (λ y. y ≡ v) xs → Any (λ y. y ≡ v) (sort_by str_lt xs)
unfolding sort_by
sort_by-member v [] h = h
sort_by-member v (x ∷ xs) (here e) = insert_by-member v x (sort_by str_lt xs) (here e)
sort_by-member v (x ∷ xs) (there h) =
    insert_by-member v x (sort_by str_lt xs) (there (sort_by-member v xs h))

one_value :
    (vs : List Str) (v w : Str)
    → length (sorted_unique vs) ≤ 1
    → Any (λ y. y ≡ v) vs
    → Any (λ y. y ≡ w) vs
    → v ≡ w
unfolding sorted_unique
one_value vs v w h m n =
    all_equal (sort_by str_lt vs) v w h (sort_by-member v vs m) (sort_by-member w vs n)

abbrev IsSingle : Str × List Str → Type 0
IsSingle entry = length (sorted_unique entry.1) ≤ 1

reject-IsSingle :
    (reqs : List ParsedReq) (m : List (Str × List Str)) → reject reqs m ≡ ok tt → All IsSingle m
unfolding reject
reject-IsSingle reqs [] h = tt
reject-IsSingle reqs ((k, vs) ∷ m) h = elim (Bool-cases (ltb 1 (length (sorted_unique vs)))) [
  | inl many ↦ absurd (ground arith)
  | inr few ↦ (ground arith, reject-IsSingle reqs m (ground arith))
]

not-Above : (k w : Str) (m : List (Str × List Str)) → Above k m → Holds k w m → str_lt k k ≡ true
not-Above k w [] a h = elim h [ ]
not-Above k w ((j, vs) ∷ m) (less, a) (here (e, p)) = subst (λ i. str_lt k i ≡ true) e less
not-Above k w ((j, vs) ∷ m) (less, a) (there h) = not-Above k w m a h

-- In an ordered map of single values, a key has one value.
held_once :
    (k v w : Str) (m : List (Str × List Str))
    → Ordered m
    → All IsSingle m
    → Holds k v m
    → Holds k w m
    → v ≡ w
held_once k v w [] o s g h = elim g [ ]
held_once k v w ((j, vs) ∷ m) (a, o) (one, s) (here (e, p)) (here (e', q)) =
    one_value vs v w one p q
held_once k v w ((j, vs) ∷ m) (a, o) (one, s) (there g) (there h) = held_once k v w m o s g h
held_once k v w ((j, vs) ∷ m) (a, o) (one, s) (here (e, p)) (there h) =
    let less = not-Above k w m (subst (λ i. Above i m) e a) h in
    absurd (ground (arith, str_lt_irrefl k))
held_once k v w ((j, vs) ∷ m) (a, o) (one, s) (there g) (here (e, p)) =
    let less = not-Above k v m (subst (λ i. Above i m) e a) g in
    absurd (ground (arith, str_lt_irrefl k))

-- An equality that is dropped holds if those kept so far do.
weaker :
    (tags : Tags) (seen : List Str) (reqs : List Requirement)
    → all (requirement_matches tags) reqs ≡ true
    → all (requirement_matches tags) (first_equalities seen reqs) ≡ true
unfolding first_equalities
weaker tags seen [] h = refl
weaker tags seen (eq k v ∷ reqs) h = elim (Bool-cases (any (str_eq k) seen)) [
  | inl old ↦ rw old (weaker tags seen reqs (ground arith))
  | inr new ↦ ground (arith, weaker tags (k ∷ seen) reqs)
]
weaker tags seen (not_eq k v ∷ reqs) h = ground (arith, weaker tags seen reqs)
weaker tags seen (is_in k vs ∷ reqs) h = ground (arith, weaker tags seen reqs)
weaker tags seen (not_in k vs ∷ reqs) h = ground (arith, weaker tags seen reqs)
weaker tags seen (exists k ∷ reqs) h = ground (arith, weaker tags seen reqs)
weaker tags seen (not_exists k ∷ reqs) h = ground (arith, weaker tags seen reqs)

abbrev Agree : List Requirement → Type 0
Agree reqs = (k v w : Str) → Any (λ r. r ≡ eq k v) reqs → Any (λ r. r ≡ eq k w) reqs → v ≡ w

abbrev Settled : Tags → List Str → List Requirement → Type 0
Settled tags seen reqs =
    (k v : Str)
    → Any (λ r. r ≡ eq k v) reqs
    → any (str_eq k) seen ≡ true
    → requirement_matches tags (eq k v) ≡ true

stronger :
    (tags : Tags) (seen : List Str) (reqs : List Requirement)
    → Agree reqs
    → Settled tags seen reqs
    → all (requirement_matches tags) (first_equalities seen reqs) ≡ true
    → all (requirement_matches tags) reqs ≡ true
unfolding first_equalities
stronger tags seen [] c s h = refl
stronger tags seen (eq k v ∷ reqs) c s h = elim (Bool-cases (any (str_eq k) seen)) [
  | inl old ↦
      let holds = s k v (here refl) old in
      let rest =
        stronger tags seen reqs (λ j u w m n. c j u w (there m) (there n))
          (λ j u m. s j u (there m)) (rw old at h) in
      ground arith
  | inr new ↦
      let kept = rw new at h in
      let holds : requirement_matches tags (eq k v) ≡ true = ground arith in
      let rest =
        stronger tags (k ∷ seen) reqs (λ j u w m n. c j u w (there m) (there n))
          (λ j u m old. elim (Bool-cases (str_eq j k)) [
            | inl same ↦
                let at : j ≡ k = (str_eq_iff j k).0 same in
                let value : u ≡ v =
                  c k u v (there (subst (λ i. Any (λ r. r ≡ eq i u) reqs) at m)) (here refl) in
                subst (λ i. requirement_matches tags (eq i u) ≡ true) (sym at)
                  (subst (λ i. requirement_matches tags (eq k i) ≡ true) (sym value) holds)
            | inr other ↦ s j u (there m) (ground arith)
          ])
          (ground arith) in
      ground arith
]
stronger tags seen (not_eq k v ∷ reqs) c s h = ground (
  arith,
  stronger tags seen reqs (λ j u w m n. c j u w (there m) (there n)) (λ j u m. s j u (there m)),
)
stronger tags seen (is_in k vs ∷ reqs) c s h = ground (
  arith,
  stronger tags seen reqs (λ j u w m n. c j u w (there m) (there n)) (λ j u m. s j u (there m)),
)
stronger tags seen (not_in k vs ∷ reqs) c s h = ground (
  arith,
  stronger tags seen reqs (λ j u w m n. c j u w (there m) (there n)) (λ j u m. s j u (there m)),
)
stronger tags seen (exists k ∷ reqs) c s h = ground (
  arith,
  stronger tags seen reqs (λ j u w m n. c j u w (there m) (there n)) (λ j u m. s j u (there m)),
)
stronger tags seen (not_exists k ∷ reqs) c s h = ground (
  arith,
  stronger tags seen reqs (λ j u w m n. c j u w (there m) (there n)) (λ j u m. s j u (there m)),
)

-- If reject_conflicting_equality accepts a list of requirements, what it keeps matches the same
-- tags as the whole list: dropping repeated equalities keeps the meaning.
pub reject_conflicting_equality-matches :
    (reqs : List ParsedReq) (kept : List Requirement) (tags : Tags)
    → reject_conflicting_equality reqs ≡ ok kept
    → all (requirement_matches tags) kept
      ≡ all (requirement_matches tags) (map (λ parsed. parsed.req) reqs)
unfolding reject_conflicting_equality
reject_conflicting_equality-matches reqs kept tags h =
    let plain = map (λ parsed. parsed.req) reqs in
    let held = eq_values [] plain in
    let (accepted, passed, rest) = >>=-eq-ok (reject reqs held) _ {b = kept} h in
    let single = reject-IsSingle reqs held passed in
    let order = eq_values-Ordered [] plain tt in
    let same : first_equalities [] plain ≡ kept = cc in
    let agree : Agree plain = λ k v w m n.
      held_once k v w held order single (eq_values-Holds k v [] plain (inr m))
        (eq_values-Holds k w [] plain (inr n)) in
    subst (λ l. all (requirement_matches tags) l ≡ all (requirement_matches tags) plain) same
      (Bool-ext (all (requirement_matches tags) (first_equalities [] plain))
        (all (requirement_matches tags) plain) (stronger tags [] plain agree (λ k v m e. absurd cc))
        (weaker tags [] plain))
