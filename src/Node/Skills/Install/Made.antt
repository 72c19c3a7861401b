-- ===== src/Node/Skills/Install/Made.antt =====
-- crates/novbot-node/src/skills/mod.rs: the skill that an installation returns.
use novbot.Common.{
  ◌≡◌, refl, ℕ, zero, suc, ◌+◌, ◌==◌, Bool, not, ◌||◌, Result, ok, err, if-elim, ltb, Bool-cases,
  inl, inr,
}
use novbot.Text.{str_eq}
use novbot.Node.Package.{InstallError, abi}
use novbot.Node.Skills.{
  retryable, InstallLimits, DesiredSkill, SkillPolicy, ActiveSkill, Active, smaller, backoff,
}
use novbot.Node.Skills.World.{World, Outside, store_has_room}
use novbot.Node.Skills.Install.{Action, and_then, called, ensure_cache}
use novbot.Node.Skills.Install.Attempt.{
  obtain, module_bytes, manifest_limits, seal_new, activate, try_install, Installation,
  duration_max, after_attempt, install_rounds,
}

module _ (out : Outside) (skill : DesiredSkill) (active : Active) where
  -- An active skill with the digest and the version of the desired one.
  abbrev pub IsMadeFor : ActiveSkill → Type 0
  IsMadeFor a = (a.sha256 ≡ skill.sha256) × (a.version ≡ skill.version)

  abbrev Makes : Result ActiveSkill InstallError × World → Type 0
  Makes (ok a, w) = IsMadeFor a
  Makes (err e, w) = Unit {0}

  abbrev pub MakesIn : Installation → Type 0
  MakesIn (ok (a, n), w) = IsMadeFor a
  MakesIn (err (e, n), w) = Unit {0}

  -- The end of a chain decides.
  by_end :
      {A : Type 0} (r : Result A InstallError × World) (onward : A → Action ActiveSkill)
      → ((a : A) (w : World) → Makes (onward a w))
      → Makes (and_then r onward)
  by_end (ok a, w) onward h = h a w
  by_end (err e, w) onward h = tt

  try_install-Makes :
      (policy : SkillPolicy) (w : World) → Makes (try_install out skill policy active w)
  unfolding try_install activate
  try_install-Makes policy w =
      if-elim Makes (not (str_eq skill.skill_abi abi)) (λ foreign. tt)
        (λ native.
          if-elim Makes
            (not (store_has_room out w.disk skill.sha256 skill.size_bytes policy.store_quota_bytes))
            (λ full. tt)
            (λ room. by_end (obtain out skill w) _ (λ pkg w1.
              by_end (module_bytes out skill pkg w1) _ (λ wasm w2.
                by_end (manifest_limits out skill pkg w2) _ (λ limits w3.
                  by_end (ensure_cache out skill.sha256 wasm w3) _ (λ done w4.
                    by_end (seal_new out skill pkg w4) _ (λ done' w5. (refl, refl))))))))

  after_attempt-MakesIn :
      (limits : InstallLimits) (spent : Bool) (attempts : ℕ)
      (onward : InstallError → World → Installation) (r : Result ActiveSkill InstallError × World)
      → Makes r
      → ((e : InstallError) (w : World) → MakesIn (onward e w))
      → MakesIn (after_attempt out limits spent attempts onward r)
  unfolding after_attempt
  after_attempt-MakesIn limits spent attempts onward (ok a, w) made rest = made
  after_attempt-MakesIn limits spent attempts onward (err e, w) made rest =
      if-elim MakesIn (not (retryable e.reason) || spent) (λ stop. tt)
        (λ go_on.
          elim (Bool-cases (
            ltb limits.max_elapsed
              (smaller (out.elapsed w.calls + backoff attempts limits) duration_max))) [
                | inl late ↦ rw late tt
                | inr early ↦ rw early (rest e (called w))
              ])

  pub install_rounds-MakesIn :
      (limits : InstallLimits) (policy : SkillPolicy) (left attempts : ℕ) (last : InstallError)
      (w : World)
      → MakesIn (install_rounds out limits skill policy active left attempts last w)
  unfolding install_rounds
  install_rounds-MakesIn limits policy zero attempts last w =
      if-elim MakesIn (ltb limits.max_elapsed (out.elapsed w.calls)) (λ late. tt) (λ spent. tt)
  install_rounds-MakesIn limits policy (suc left) attempts last w =
      if-elim MakesIn (ltb limits.max_elapsed (out.elapsed w.calls)) (λ late. tt)
        (λ early.
          after_attempt-MakesIn limits (left == 0) (suc attempts)
            (install_rounds out limits skill policy active left (suc attempts))
            (try_install out skill policy active (called w)) (try_install-Makes policy (called w))
            (install_rounds-MakesIn limits policy left (suc attempts)))
