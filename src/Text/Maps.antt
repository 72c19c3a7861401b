-- ===== src/Text/Maps.antt =====
-- Rust's `BTreeMap<String, V>`: an association list in the order of its keys.
use mathlib.Core.Path.{◌≡◌, subst}
use novbot.Common.{
  Bool, true, false, List, [], ◌∷◌, Option, none, some, if◌then◌else◌, Bool-cases, inl, inr, All,
  any, arith,
}
use novbot.Text.{Str, str_eq}
use novbot.Text.Laws.{str_eq_iff, str_eq_refl}
use novbot.Core.Tags.Ordering.{str_lt}

module _ {V : Type 0} where
  -- `get`, and `contains_key`.
  abbrev pub find : Str → List (Str × V) → Option V
  find k [] = none
  find k ((j, v) ∷ m) = if str_eq j k then some v else find k m

  abbrev pub has : Str → List (Str × V) → Bool
  has k m = elim (find k m) [ none ↦ false | some _ ↦ true ]

  -- `insert`.
  abbrev pub put : Str → V → List (Str × V) → List (Str × V)
  put k v [] = (k, v) ∷ []
  put k v ((j, w) ∷ m) =
      if str_lt k j
      then (k, v) ∷ (j, w) ∷ m
      else if str_eq j k
      then (k, v) ∷ m
      else (j, w) ∷ put k v m

  pub find-put : (k : Str) (v : V) (m : List (Str × V)) → find k (put k v m) ≡ some v
  find-put k v [] = ground (arith, str_eq_refl k)
  find-put k v ((j, w) ∷ m) = ground (arith, str_eq_refl k, find-put k v m)

  pub find-put_other :
      (k : Str) (v : V) (i : Str) (m : List (Str × V))
      → str_eq k i ≡ false
      → find i (put k v m) ≡ find i m
  find-put_other k v i [] h = ground arith
  find-put_other k v i ((j, w) ∷ m) h = ground (arith, str_eq_iff j k, find-put_other k v i m)

  pub All-put :
      (P : Str × V → Type 0) (k : Str) (v : V) (m : List (Str × V))
      → P (k, v)
      → All P m
      → All P (put k v m)
  All-put P k v [] p h = (p, tt)
  All-put P k v ((j, w) ∷ m) p (q, h) = elim (Bool-cases (str_lt k j)) [
    | inl less ↦ rw less (p, (q, h))
    | inr more ↦ elim (Bool-cases (str_eq j k)) [
      | inl same ↦ rw (more, same) (p, h)
      | inr other ↦ rw (more, other) (q, All-put P k v m p h)
    ]
  ]

  pub All-find :
      (P : Str × V → Type 0) (k : Str) (v : V) (m : List (Str × V))
      → All P m
      → find k m ≡ some v
      → P (k, v)
  All-find P k v [] h e = absurd cc
  All-find P k v ((j, w) ∷ m) (p, h) e = elim (Bool-cases (str_eq j k)) [
    | inl same ↦
        let key : j ≡ k = (str_eq_iff j k).0 same in
        let value : w ≡ v = ground arith in
        subst (λ i. P (i, v)) key (subst (λ u. P (j, u)) value p)
    | inr other ↦ All-find P k v m h (rw other at e)
  ]

  pub any-find :
      (p : Str × V → Bool) (k : Str) (v : V) (m : List (Str × V))
      → find k m ≡ some v
      → any p m ≡ false
      → p (k, v) ≡ false
  any-find p k v [] e h = absurd cc
  any-find p k v ((j, w) ∷ m) e h = elim (Bool-cases (str_eq j k)) [
    | inl same ↦
        let key : j ≡ k = (str_eq_iff j k).0 same in
        let value : w ≡ v = ground arith in
        subst (λ i. p (i, v) ≡ false) key (subst (λ u. p (j, u) ≡ false) value (ground arith))
    | inr other ↦ any-find p k v m (rw other at e) (ground arith)
  ]
