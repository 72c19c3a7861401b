-- ===== src/Core/Selector/Grouping.antt =====
-- crates/novbot-core/src/tags.rs: the map from keys to the values of their equalities, which
-- `reject_conflicting_equality` builds.
use mathlib.Core.Path.{◌≡◌, refl, sym, subst}
use novbot.Common.{
  true, false, List, [], ◌∷◌, ◌++◌, Bool-cases, inl, inr, ◌⊎◌, All, All-map, Any, here, there,
  Any-append_left, Any-append_right, arith,
}
use novbot.Text.{Str, str_eq}
use novbot.Text.Laws.{str_eq_iff}
use novbot.Core.Tags.Ordering.{str_lt}
use novbot.Core.Selector.{Requirement, eq, not_eq, is_in, not_in, exists, not_exists}
use novbot.Core.Selector.Canonical.{push_value, eq_values}

-- The order of texts is a strict total order.
str_lt_trans : (a b c : Str) → str_lt a b ≡ true → str_lt b c ≡ true → str_lt a c ≡ true
unfolding str_lt
str_lt_trans [] [] c h k = cc
str_lt_trans [] (y ∷ b) [] h k = k
str_lt_trans [] (y ∷ b) (z ∷ c) h k = refl
str_lt_trans (x ∷ a) [] c h k = cc
str_lt_trans (x ∷ a) (y ∷ b) [] h k = cc
str_lt_trans (x ∷ a) (y ∷ b) (z ∷ c) h k = ground (arith, str_lt_trans a b c)

str_lt_total : (a b : Str) → str_lt a b ≡ false → str_eq a b ≡ false → str_lt b a ≡ true
unfolding str_lt str_eq
str_lt_total [] [] h k = cc
str_lt_total [] (y ∷ b) h k = cc
str_lt_total (x ∷ a) [] h k = refl
str_lt_total (x ∷ a) (y ∷ b) h k = ground (arith, str_lt_total a b)

pub str_lt_irrefl : (a : Str) → str_lt a a ≡ false
unfolding str_lt
str_lt_irrefl [] = refl
str_lt_irrefl (x ∷ a) = ground (arith, str_lt_irrefl a)

-- The keys of a map, in their order.
abbrev pub Above : Str → List (Str × List Str) → Type 0
Above k = All (λ entry. str_lt k entry.0 ≡ true)

abbrev pub Ordered : List (Str × List Str) → Type 0
Ordered [] = Unit
Ordered ((k, vs) ∷ m) = Above k m × Ordered m

push_value-Above :
    (j k v : Str) (m : List (Str × List Str))
    → str_lt j k ≡ true
    → Above j m
    → Above j (push_value k v m)
unfolding push_value
push_value-Above j k v [] h a = (h, tt)
push_value-Above j k v ((i, vs) ∷ m) h (p, a) = elim (Bool-cases (str_lt k i)) [
  | inl less ↦ rw less (h, (p, a))
  | inr more ↦ elim (Bool-cases (str_eq k i)) [
    | inl same ↦ rw (more, same) (p, a)
    | inr other ↦ rw (more, other) (p, push_value-Above j k v m h a)
  ]
]

push_value-Ordered :
    (k v : Str) (m : List (Str × List Str)) → Ordered m → Ordered (push_value k v m)
unfolding push_value
push_value-Ordered k v [] h = (tt, tt)
push_value-Ordered k v ((j, vs) ∷ m) (above, h) = elim (Bool-cases (str_lt k j)) [
  | inl less ↦
      rw less (((less, All-map m (λ entry p. str_lt_trans k j entry.0 less p) above), (above, h)))
  | inr more ↦ elim (Bool-cases (str_eq k j)) [
    | inl same ↦ rw (more, same) (above, h)
    | inr other ↦
        rw (more, other)
          ((
            push_value-Above j k v m (str_lt_total k j more other) above,
            push_value-Ordered k v m h,
          ))
  ]
]

-- An entry of a map under a key, with a value among its values.
abbrev pub Holds : Str → Str → List (Str × List Str) → Type 0
Holds k v = Any (λ entry. (entry.0 ≡ k) × Any (λ w. w ≡ v) entry.1)

push_value-new : (k v : Str) (m : List (Str × List Str)) → Holds k v (push_value k v m)
unfolding push_value
push_value-new k v [] = here (refl, here refl)
push_value-new k v ((j, vs) ∷ m) = elim (Bool-cases (str_lt k j)) [
  | inl less ↦ rw less (here (refl, here refl))
  | inr more ↦ elim (Bool-cases (str_eq k j)) [
    | inl same ↦
        rw (more, same)
          (here
            (sym ((str_eq_iff k j).0 same), Any-append_right (λ w. w ≡ v) vs (v ∷ []) (here refl)))
    | inr other ↦ rw (more, other) (there (push_value-new k v m))
  ]
]

push_value-old :
    (k v i w : Str) (m : List (Str × List Str)) → Holds i w m → Holds i w (push_value k v m)
unfolding push_value
push_value-old k v i w [] h = elim h [ ]
push_value-old k v i w ((j, vs) ∷ m) h = elim (Bool-cases (str_lt k j)) [
  | inl less ↦ rw less (there h)
  | inr more ↦ elim (Bool-cases (str_eq k j)) [
    | inl same ↦ rw (more, same) (grown h)
    | inr other ↦ rw (more, other) (later h (push_value-old k v i w m))
  ]
]
  where
    grown : Holds i w ((j, vs) ∷ m) → Holds i w ((j, vs ++ v ∷ []) ∷ m)
    grown (here (e, p)) = here (e, Any-append_left (λ u. u ≡ w) vs (v ∷ []) p)
    grown (there p) = there p

    later :
        {m' : List (Str × List Str)}
        → Holds i w ((j, vs) ∷ m)
        → (Holds i w m → Holds i w m')
        → Holds i w ((j, vs) ∷ m')
    later (here p) f = here p
    later (there p) f = there (f p)

-- Every equality that was read is held, and what was held stays.
pub eq_values-Ordered :
    (m : List (Str × List Str)) (reqs : List Requirement) → Ordered m → Ordered (eq_values m reqs)
unfolding eq_values
eq_values-Ordered m [] h = h
eq_values-Ordered m (eq k v ∷ reqs) h =
    eq_values-Ordered (push_value k v m) reqs (push_value-Ordered k v m h)
eq_values-Ordered m (not_eq k v ∷ reqs) h = eq_values-Ordered m reqs h
eq_values-Ordered m (is_in k vs ∷ reqs) h = eq_values-Ordered m reqs h
eq_values-Ordered m (not_in k vs ∷ reqs) h = eq_values-Ordered m reqs h
eq_values-Ordered m (exists k ∷ reqs) h = eq_values-Ordered m reqs h
eq_values-Ordered m (not_exists k ∷ reqs) h = eq_values-Ordered m reqs h

pub eq_values-Holds :
    (i w : Str) (m : List (Str × List Str)) (reqs : List Requirement)
    → Holds i w m ⊎ Any (λ r. r ≡ eq i w) reqs
    → Holds i w (eq_values m reqs)
unfolding eq_values
eq_values-Holds i w m [] (inl h) = h
eq_values-Holds i w m [] (inr h) = elim h [ ]
eq_values-Holds i w m (eq k v ∷ reqs) (inl h) =
    eq_values-Holds i w (push_value k v m) reqs (inl (push_value-old k v i w m h))
eq_values-Holds i w m (eq k v ∷ reqs) (inr (there h)) =
    eq_values-Holds i w (push_value k v m) reqs (inr h)
eq_values-Holds i w m (eq k v ∷ reqs) (inr (here e)) =
    let key : k ≡ i = cc in
    let value : v ≡ w = cc in
    let new : Holds i w (push_value k v m) =
      subst (λ j. Holds j w (push_value k v m)) key
        (subst (λ u. Holds k u (push_value k v m)) value (push_value-new k v m)) in
    eq_values-Holds i w (push_value k v m) reqs (inl new)
eq_values-Holds i w m (not_eq k v ∷ reqs) (inl h) = eq_values-Holds i w m reqs (inl h)
eq_values-Holds i w m (not_eq k v ∷ reqs) (inr (there h)) = eq_values-Holds i w m reqs (inr h)
eq_values-Holds i w m (not_eq k v ∷ reqs) (inr (here e)) = absurd cc
eq_values-Holds i w m (is_in k vs ∷ reqs) (inl h) = eq_values-Holds i w m reqs (inl h)
eq_values-Holds i w m (is_in k vs ∷ reqs) (inr (there h)) = eq_values-Holds i w m reqs (inr h)
eq_values-Holds i w m (is_in k vs ∷ reqs) (inr (here e)) = absurd cc
eq_values-Holds i w m (not_in k vs ∷ reqs) (inl h) = eq_values-Holds i w m reqs (inl h)
eq_values-Holds i w m (not_in k vs ∷ reqs) (inr (there h)) = eq_values-Holds i w m reqs (inr h)
eq_values-Holds i w m (not_in k vs ∷ reqs) (inr (here e)) = absurd cc
eq_values-Holds i w m (exists k ∷ reqs) (inl h) = eq_values-Holds i w m reqs (inl h)
eq_values-Holds i w m (exists k ∷ reqs) (inr (there h)) = eq_values-Holds i w m reqs (inr h)
eq_values-Holds i w m (exists k ∷ reqs) (inr (here e)) = absurd cc
eq_values-Holds i w m (not_exists k ∷ reqs) (inl h) = eq_values-Holds i w m reqs (inl h)
eq_values-Holds i w m (not_exists k ∷ reqs) (inr (there h)) = eq_values-Holds i w m reqs (inr h)
eq_values-Holds i w m (not_exists k ∷ reqs) (inr (here e)) = absurd cc
