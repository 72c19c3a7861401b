-- ===== src/Text/Laws.antt =====
-- Laws of the string operations, over every text.
use novbot.Common.{
  ◌≡◌, refl, ap, true, false, Bool-cases, ◌↔◌, inl, inr, [], ◌∷◌, ◌++◌, some, arith, Option-cases,
  ||-eq-true, ◌||◌, ◌⊎◌, is_empty,
}
use novbot.Text.{Str, str_eq, strip_prefix, starts_with, ends_with, contains}

pub str_eq_refl : (s : Str) → str_eq s s ≡ true
unfolding str_eq
str_eq_refl [] = refl
str_eq_refl (c ∷ s) = ground (arith, str_eq_refl s)

pub str_eq→eq : (s t : Str) → str_eq s t ≡ true → s ≡ t
unfolding str_eq
str_eq→eq [] [] h = refl
str_eq→eq [] (d ∷ t) h = cc
str_eq→eq (c ∷ s) [] h = cc
str_eq→eq (c ∷ s) (d ∷ t) h = ground (arith, str_eq→eq s t)

pub str_eq_iff : (s t : Str) → (str_eq s t ≡ true) ↔ (s ≡ t)
str_eq_iff s t = (str_eq→eq s t, λ e. rw e (str_eq_refl t))

empty_or_eq→either : (s t : Str) → (is_empty s || str_eq s t) ≡ true → (s ≡ []) ⊎ (s ≡ t)
empty_or_eq→either [] t h = inl refl
empty_or_eq→either (c ∷ s) t h = inr (str_eq→eq (c ∷ s) t (ground arith))

either→empty_or_eq : (s t : Str) → (s ≡ []) ⊎ (s ≡ t) → (is_empty s || str_eq s t) ≡ true
either→empty_or_eq s t (inl e) = rw e
either→empty_or_eq s t (inr e) = ground (arith, (str_eq_iff s t).1 e)

pub empty_or_eq_iff : (s t : Str) → ((is_empty s || str_eq s t) ≡ true) ↔ ((s ≡ []) ⊎ (s ≡ t))
empty_or_eq_iff s t = (empty_or_eq→either s t, either→empty_or_eq s t)

pub strip_prefix-append : (p r : Str) → strip_prefix (p ++ r) p ≡ some r
unfolding strip_prefix
strip_prefix-append [] r = refl
strip_prefix-append (c ∷ p) r = ground (arith, strip_prefix-append p r)

pub strip_prefix-eq-some : (s p : Str) {r : Str} → strip_prefix s p ≡ some r → s ≡ p ++ r
unfolding strip_prefix
strip_prefix-eq-some s [] h = ground arith
strip_prefix-eq-some [] (d ∷ p) h = cc
strip_prefix-eq-some (c ∷ s) (d ∷ p) {r} h = ground (arith, strip_prefix-eq-some s p {r = r})

pub starts_with→some :
    (s p : Str) → starts_with s p ≡ true → (r : Str) × (strip_prefix s p ≡ some r)
unfolding starts_with
starts_with→some s p h = elim (Option-cases (strip_prefix s p)) [
  | inl e ↦ cc (rw (e, starts_with) at h)
  | inr found ↦ found
]

pub some→starts_with : (s p r : Str) → strip_prefix s p ≡ some r → starts_with s p ≡ true
unfolding starts_with
some→starts_with s p r h = rw (h, starts_with)

-- `s.starts_with(p)`: the text is `p` and a rest.
pub starts_with_iff : (s p : Str) → (starts_with s p ≡ true) ↔ ((r : Str) × (s ≡ p ++ r))
starts_with_iff s p = (
  λ h. let (r, e) = starts_with→some s p h in (r, strip_prefix-eq-some s p e),
  λ (r, e). rw e (some→starts_with (p ++ r) p r (strip_prefix-append p r)),
)

ends_with_sound : (s p : Str) → ends_with s p ≡ true → (a : Str) × (s ≡ a ++ p)
unfolding ends_with
ends_with_sound [] p h = ([], str_eq→eq [] p h)
ends_with_sound (c ∷ s) p h = elim (||-eq-true (str_eq (c ∷ s) p) (ends_with s p) h) [
  | inl e ↦ ([], str_eq→eq (c ∷ s) p e)
  | inr e ↦ let (a, k) = ends_with_sound s p e in (c ∷ a, ap (λ t. c ∷ t) k)
]

ends_with-append : (a p : Str) → ends_with (a ++ p) p ≡ true
unfolding ends_with
ends_with-append [] [] = unfold str_eq in refl
ends_with-append [] (c ∷ p) = rw (str_eq_refl (c ∷ p))
ends_with-append (d ∷ a) p = ground (arith, ends_with-append a p)

-- `s.ends_with(p)`: the text is something and `p`.
pub ends_with_iff : (s p : Str) → (ends_with s p ≡ true) ↔ ((a : Str) × (s ≡ a ++ p))
ends_with_iff s p = (ends_with_sound s p, λ (a, e). rw e (ends_with-append a p))

contains_sound : (s p : Str) → contains s p ≡ true → (a r : Str) × (s ≡ a ++ (p ++ r))
unfolding contains
contains_sound [] p h = let (r, e) = (starts_with_iff [] p).0 h in ([], r, e)
contains_sound (c ∷ s) p h = elim (||-eq-true (starts_with (c ∷ s) p) (contains s p) h) [
  | inl k ↦ let (r, e) = (starts_with_iff (c ∷ s) p).0 k in ([], r, e)
  | inr k ↦ let (a, r, e) = contains_sound s p k in (c ∷ a, r, ap (λ t. c ∷ t) e)
]

contains-append : (a p r : Str) → contains (a ++ (p ++ r)) p ≡ true
unfolding contains
contains-append [] p r = contains_now (p ++ r) p ((starts_with_iff (p ++ r) p).1 (r, refl))
  where
    contains_now : (s q : Str) → starts_with s q ≡ true → contains s q ≡ true
    contains_now [] q h = h
    contains_now (c ∷ s) q h = rw h
contains-append (c ∷ a) p r = ground (arith, contains-append a p r)

-- `s.contains(p)`: the text has `p` somewhere.
pub contains_iff : (s p : Str) → (contains s p ≡ true) ↔ ((a r : Str) × (s ≡ a ++ (p ++ r)))
contains_iff s p = (contains_sound s p, λ (a, r, e). rw e (contains-append a p r))

-- Two texts that differ, read from the other side.
pub str_eq_flip : (s t : Str) → str_eq s t ≡ false → str_eq t s ≡ false
str_eq_flip s t h = elim (Bool-cases (str_eq t s)) [
  | inl same ↦ let key : t ≡ s = (str_eq_iff t s).0 same in absurd cc
  | inr other ↦ other
]
