-- ===== src/Node/Skills/Install/Rounds.antt =====
-- crates/novbot-node/src/skills/mod.rs: the attempts of an installation, and the time between them.
use mathlib.Core.Path.{subst}
use novbot.Common.{
  ◌≡◌, sym, err-injective, ℕ, zero, suc, ◌+◌, ◌-◌, ◌*◌, ◌/◌, ◌^◌, ◌≤◌, true, false, not, ◌||◌,
  if◌then◌else◌, if-elim, ltb, ◌==◌, Result, ok, err, Bool-cases, inl, inr, arith,
}
use novbot.Node.Package.{InstallError}
use novbot.Node.Skills.{
  retryable, InstallLimits, DesiredSkill, SkillPolicy, ActiveSkill, Active, smaller, at_least_one,
  backoff,
}
use novbot.Node.Skills.World.{World, Outside}
use novbot.Node.Skills.Install.{called}
use novbot.Node.Skills.Install.Attempt.{
  Installation, duration_max, after_attempt, try_install, install_rounds, install_skill,
}

-- The attempts that a result names.
abbrev pub attempts_of : Installation → ℕ
attempts_of (ok (installed, n), w) = n
attempts_of (err (e, n), w) = n

-- A result within a budget of attempts, which is spent when a retryable error is reported.
abbrev EndsIn : ℕ → Installation → Type 0
EndsIn budget (ok (installed, n), w) = (1 ≤ n) × (n ≤ budget)
EndsIn budget (err (e, n), w) = (1 ≤ n) × (n ≤ budget) × (retryable e.reason ≡ true → n ≡ budget)

after_attempt-EndsIn :
    (out : Outside) (limits : InstallLimits) (budget left attempts : ℕ)
    (onward : InstallError → World → Installation) (r : Result ActiveSkill InstallError × World)
    → 1 ≤ attempts
    → left + attempts ≡ budget
    → ((e : InstallError) (w : World) → (left == 0) ≡ false → EndsIn budget (onward e w))
    → EndsIn budget (after_attempt out limits (left == 0) attempts onward r)
unfolding after_attempt retryable
after_attempt-EndsIn out limits budget left attempts onward (ok a, w) started total rest =
    (started, omega arith)
after_attempt-EndsIn out limits budget left attempts onward (err e, w) started total rest =
    if-elim (EndsIn budget) (not (retryable e.reason) || (left == 0))
      (λ stop. (started, omega arith, λ again. ground arith))
      (λ go_on.
        elim (Bool-cases (
          ltb limits.max_elapsed
            (smaller (out.elapsed w.calls + backoff attempts limits) duration_max))) [
              | inl late ↦ rw late (started, omega arith, λ again. absurd cc)
              | inr early ↦ rw early (rest e (called w) (ground arith))
            ])

module _ (out : Outside) (limits : InstallLimits) (skill : DesiredSkill) (policy : SkillPolicy)
    (active : Active) where
  install_rounds-EndsIn :
      (budget left attempts : ℕ) (last : InstallError) (w : World)
      → 1 ≤ left
      → left + attempts ≡ budget
      → EndsIn budget (install_rounds out limits skill policy active left attempts last w)
  unfolding install_rounds retryable
  install_rounds-EndsIn budget zero attempts last w more total = absurd (omega arith)
  install_rounds-EndsIn budget (suc left) attempts last w more total =
      if-elim (EndsIn budget) (ltb limits.max_elapsed (out.elapsed w.calls))
        (λ late. (ground arith, ground arith, λ again. absurd cc))
        (λ early.
          after_attempt-EndsIn out limits budget left (suc attempts)
            (install_rounds out limits skill policy active left (suc attempts))
            (try_install out skill policy active (called w)) (omega arith) (omega arith)
            (λ e w' others.
              install_rounds-EndsIn budget left (suc attempts) e w' (ground arith) (omega arith)))

  install_skill-EndsIn :
      (w : World)
      → EndsIn (at_least_one limits.max_attempts) (install_skill out limits skill policy active w)
  unfolding install_skill
  install_skill-EndsIn w =
      install_rounds-EndsIn (at_least_one limits.max_attempts) (at_least_one limits.max_attempts) 0
        _ w (ground arith) (omega arith)

EndsIn-attempts :
    (budget : ℕ) (r : Installation)
    → EndsIn budget r
    → (1 ≤ attempts_of r) × (attempts_of r ≤ budget)
EndsIn-attempts budget (ok (a, n), w) h = h
EndsIn-attempts budget (err (e, n), w) (least, most, _) = (least, most)

EndsIn-retryable :
    (budget : ℕ) (r : Installation) (e : InstallError) (n : ℕ)
    → EndsIn budget r
    → r.0 ≡ err (e, n)
    → retryable e.reason ≡ true
    → n ≡ budget
EndsIn-retryable budget (ok (a, m), w) e n h same again = absurd cc
EndsIn-retryable budget (err (d, m), w) e n (_, _, spent) same again =
    let pair : (d, m) ≡ (e, n) = err-injective same in
    subst (λ q. q.1 ≡ budget) pair
      (spent (subst (λ q. retryable q.0.reason ≡ true) (sym pair) again))

-- An installation reports at least one attempt and at most the larger of one and max_attempts,
-- however it ends.
pub install_skill-attempts :
    (out : Outside) (limits : InstallLimits) (skill : DesiredSkill) (policy : SkillPolicy)
    (active : Active) (w : World)
    → (1 ≤ attempts_of (install_skill out limits skill policy active w))
      × (attempts_of (install_skill out limits skill policy active w)
          ≤ at_least_one limits.max_attempts)
install_skill-attempts out limits skill policy active w =
    EndsIn-attempts _ (install_skill out limits skill policy active w)
      (install_skill-EndsIn out limits skill policy active w)

-- If install_skill ends with an error that may be retried, it has spent all the attempts of its
-- budget.
pub install_skill-retries :
    (out : Outside) (limits : InstallLimits) (skill : DesiredSkill) (policy : SkillPolicy)
    (active : Active) (w : World) (e : InstallError) (n : ℕ)
    → (install_skill out limits skill policy active w).0 ≡ err (e, n)
    → retryable e.reason ≡ true
    → n ≡ at_least_one limits.max_attempts
install_skill-retries out limits skill policy active w e n =
    EndsIn-retryable _ (install_skill out limits skill policy active w) e n
      (install_skill-EndsIn out limits skill policy active w)

in_millis :
    (capped top jitter : ℕ)
    → capped ≤ top
    → (smaller (capped / 1000000) (2 ^ 64 - 1) - jitter) * 1000000 ≤ top
in_millis capped top jitter h = ground arith

-- The wait between two attempts.
pub backoff-le :
    (attempt : ℕ) (limits : InstallLimits) → backoff attempt limits ≤ limits.max_backoff
unfolding backoff
backoff-le attempt limits =
    let base = limits.min_backoff * 2 ^ smaller (attempt - 1) 8 in
    if-elim (λ (delay : ℕ). delay ≤ limits.max_backoff)
      (limits.max_backoff == 0 || limits.min_backoff == 0) (λ none_. omega arith)
      (λ some_.
        in_millis (if ltb limits.max_backoff base then limits.max_backoff else base)
          limits.max_backoff _ (ground arith))
