-- ===== src/Node/Skills/Install/Kept.antt =====
-- crates/novbot-node/src/skills/mod.rs: the store of packages, and the parts of an installation
-- that leave it alone.
use novbot.Common.{
  ◌≡◌, refl, ap, ◌∙◌, true, false, List, [], ◌∷◌, none, Result, ok, err, Bool-cases, inl, inr,
  arith,
}
use novbot.Text.{Str, str_eq}
use novbot.Text.Laws.{str_eq_iff}
use novbot.Text.Maps.{find}
use novbot.Node.Package.{InstallError}
use novbot.Node.Skills.World.{World, Outside, forget, marked, store_verified, remove_store}
use novbot.Node.Skills.Install.{Action, and_then}

module _ {V : Type 0} where
  pub find-forget : (k : Str) (m : List (Str × V)) → find k (forget k m) ≡ none
  find-forget k [] = refl
  find-forget k ((j, v) ∷ m) = ground (arith, find-forget k m)

  pub find-forget_other :
      (k i : Str) (m : List (Str × V)) → str_eq k i ≡ false → find i (forget k m) ≡ find i m
  find-forget_other k i [] h = refl
  find-forget_other k i ((j, v) ∷ m) h = ground (arith, str_eq_iff j k, find-forget_other k i m h)

-- What holds of a chain: `Q` of the first part's value, and `R` of every end.
module _ {A B : Type 0} (Q : A → World → Type 0) (R : Result B InstallError × World → Type 0) where
  abbrev pub Passes : Result A InstallError × World → Type 0
  Passes (ok a, w) = Q a w
  Passes (err e, w) = R (err e, w)

  pub and_then-Passes :
      (r : Result A InstallError × World) (onward : A → Action B)
      → Passes r
      → ((a : A) (w : World) → Q a w → R (onward a w))
      → R (and_then r onward)
  and_then-Passes (ok a, w) onward h next = next a w h
  and_then-Passes (err e, w) onward h next = h

module _ (out : Outside) where
  abbrev pub Verified : World → Str → Type 0
  Verified w sha256 = store_verified out w.disk sha256 ≡ true

  -- What was verified in the store stays so.
  abbrev pub Keeps : World → World → Type 0
  Keeps w w' = (sha256 : Str) → Verified w sha256 → Verified w' sha256

  pub same_store :
      (w w' : World) (sha256 : Str)
      → w'.disk.store ≡ w.disk.store
      → store_verified out w'.disk sha256 ≡ store_verified out w.disk sha256
  unfolding store_verified
  same_store w w' sha256 e = ap (λ store. marked out sha256 (find sha256 store)) e

  pub same_store-Keeps : (w w' : World) → w'.disk.store ≡ w.disk.store → Keeps w w'
  same_store-Keeps w w' e sha256 v = same_store w w' sha256 e ∙ v

  pub remove_store-other :
      (w : World) (k i : Str) → str_eq k i ≡ false → Verified w i → Verified (remove_store k w) i
  unfolding store_verified remove_store
  remove_store-other w k i ne v = ap (marked out i) (find-forget_other k i w.disk.store ne) ∙ v

  -- Removing a directory that is not verified loses nothing.
  pub remove_store-Keeps :
      (w : World) (k : Str) → store_verified out w.disk k ≡ false → Keeps w (remove_store k w)
  remove_store-Keeps w k bad i v = elim (Bool-cases (str_eq k i)) [
    | inl same ↦ let key : k ≡ i = (str_eq_iff k i).0 same in absurd cc
    | inr other ↦ remove_store-other w k i other v
  ]
