-- ===== src/Common/Results.antt =====
-- Rust's `Result`, its chaining by `?`, and the inversion of a chain that succeeds.
use mathlib.Core.Path.{◌≡◌, refl}
use mathlib.Core.Bool.{Bool, true, false}
use mathlib.Core.Logic.{◌⊎◌, inl, inr}

pub data Result {ℓ κ} (A : Type ℓ) (E : Type κ) : Type (ℓ ⊔ κ) where
  ok : A → Result A E
  err : E → Result A E

module _ {ℓ κ μ} {A : Type ℓ} {B : Type κ} {E : Type μ} where
  infixl 5 ◌>>=◌
  abbrev pub ◌>>=◌ : Result A E → (A → Result B E) → Result B E
  err e >>= onward = err e
  ok a >>= onward = onward a

  -- What `?` needs to go on: the first part gave a value, and the rest took it.
  pub >>=-eq-ok :
      (first : Result A E) (onward : A → Result B E) {b : B}
      → (first >>= onward) ≡ ok b
      → (a : A) × (first ≡ ok a) × (onward a ≡ ok b)
  >>=-eq-ok (err e) onward eqn = cc
  >>=-eq-ok (ok a) onward eqn = (a, refl, eqn)

-- `if bad { return Err(e) }`.
abbrev pub fail_if {μ} : {E : Type μ} → Bool → E → Result (Unit {0}) E
fail_if false e = ok tt
fail_if true e = err e

-- A statement with `?` whose value is not used.
infixl 5 ◌>>◌
abbrev pub ◌>>◌ {ℓ μ} : {B : Type ℓ} {E : Type μ} → Result (Unit {0}) E → Result B E → Result B E
guard_part >> rest = guard_part >>= λ done. rest

module _ {ℓ κ} {A : Type ℓ} {E : Type κ} where
  -- A guard that let the rest run.
  pub guard-eq-ok :
      (bad : Bool) (e : E) (rest : Result A E) {a : A}
      → (fail_if bad e >> rest) ≡ ok a
      → (bad ≡ false) × (rest ≡ ok a)
  guard-eq-ok true e rest h = absurd cc
  guard-eq-ok false e rest h = (refl, h)

  pub ok-injective : {a b : A} → ◌≡◌ {A = Result A E} (ok a) (ok b) → a ≡ b
  ok-injective e = cc

  pub err-injective : {d e : E} → ◌≡◌ {A = Result A E} (err d) (err e) → d ≡ e
  err-injective e = cc

  pub Result-cases : (r : Result A E) → ((a : A) × (r ≡ ok a)) ⊎ ((e : E) × (r ≡ err e))
  Result-cases (ok a) = inl (a, refl)
  Result-cases (err e) = inr (e, refl)
