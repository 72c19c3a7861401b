-- ===== src/Node/Skills/Install/Trusted.antt =====
-- crates/novbot-node/src/skills/mod.rs: installations in a store whose markers tell the truth.
use novbot.Common.{
  ◌≡◌, refl, ℕ, zero, suc, ◌+◌, ◌==◌, Bool, true, false, not, ◌||◌, List, [], ◌∷◌, Option, none,
  some, Result, ok, err, if-elim, ltb, Bool-cases, inl, inr,
}
use novbot.Text.{Str, str_eq}
use novbot.Node.Package.{Bytes, Package, InstallError, abi}
use novbot.Node.Package.Opening.{open_package}
use novbot.Node.Package.Runnable.{IsRunnable, open_package-IsRunnable}
use novbot.Node.Skills.{
  retryable, InstallLimits, DesiredSkill, SkillPolicy, ActiveSkill, Active, smaller, backoff,
  sha_referenced,
}
use novbot.Node.Skills.World.{
  SealIo, sealed, staging_failed, rename_failed, chmod_failed, World, Outside, store_verified,
  store_has_room,
}
use novbot.Node.Skills.Install.{
  Action, pure, and_then, lift, refuse_if, called, fetch_package, ensure_cache, end_seal,
  seal_store,
}
use novbot.Node.Skills.Install.Attempt.{
  obtain, module_bytes, manifest_limits, seal_new, remove_dropped, activate, try_install,
  Installation, duration_max, after_attempt, install_rounds,
}
use novbot.Node.Skills.Install.Kept.{Passes, and_then-Passes}
use novbot.Node.Skills.Install.Sealing.{Obtains, obtain-Obtains, ensure_cache-SameStore}
use novbot.Node.Skills.Install.Honest.{
  IsTrusted, put-IsHonest, sealed-IsHonest, same_store-IsTrusted, remove_store-IsTrusted,
}

module _ (out : Outside) (skill : DesiredSkill) where
  -- The package at hand is one that `open_package` accepted.
  abbrev IsOpened : Option Package → Type 0
  IsOpened none = Unit {0}
  IsOpened (some pkg) = IsRunnable out.codecs pkg

  end_seal-IsTrusted :
      (pkg : Package) (io : SealIo) (w : World)
      → IsRunnable out.codecs pkg
      → IsTrusted out w
      → IsTrusted out (end_seal out skill pkg io w).1
  end_seal-IsTrusted pkg (staging_failed detail) w r trusted = trusted
  end_seal-IsTrusted pkg (rename_failed detail) w r trusted =
      remove_store-IsTrusted out skill.sha256 w trusted
  end_seal-IsTrusted pkg (chmod_failed detail) w r trusted =
      remove_store-IsTrusted out skill.sha256 w trusted
  end_seal-IsTrusted pkg sealed w r trusted = λ sha256.
      put-IsHonest out skill.sha256 _ sha256 w.disk.store
        (sealed-IsHonest out pkg skill.sha256 skill.signature_envelope
          (some (out.write_marker skill.sha256 skill.name skill.version)) r)
        (trusted sha256)

  seal_new-IsTrusted :
      (pkg : Option Package) (w : World)
      → IsOpened pkg
      → IsTrusted out w
      → IsTrusted out (seal_new out skill pkg w).1
  unfolding seal_store
  seal_new-IsTrusted none w r trusted = trusted
  seal_new-IsTrusted (some pkg) w r trusted =
      end_seal-IsTrusted pkg (out.seal_io w.calls) (called w) r trusted

  -- A call's end in a trusted store.
  abbrev InTrust : {A : Type 0} → Result A InstallError × World → Type 0
  InTrust r = IsTrusted out r.1

  passing :
      {A B : Type 0} (r : Result A InstallError × World) (onward : A → Action B)
      → InTrust r
      → ((a : A) (w : World) → IsTrusted out w → InTrust (onward a w))
      → InTrust (and_then r onward)
  passing (ok a, w) onward trusted rest = rest a w trusted
  passing (err e, w) onward trusted rest = trusted

  -- An obtained package is runnable.
  abbrev Opens : Result (Option Package) InstallError × World → Type 0
  Opens (ok pkg, w) = IsOpened pkg
  Opens (err e, w) = Unit {0}

  any_end : {A : Type 0} (r : Result A InstallError × World) → Passes (λ a w. Unit {0}) Opens r
  any_end (ok a, w) = tt
  any_end (err e, w) = tt

  opened_end :
      (bytes : Bytes) (r : Result Package InstallError) (w : World)
      → open_package out.codecs bytes skill.name skill.version ≡ r
      → Passes (λ pkg w'. IsRunnable out.codecs pkg) Opens (lift r w)
  opened_end bytes (ok pkg) w e =
      open_package-IsRunnable out.codecs bytes skill.name skill.version pkg e
  opened_end bytes (err x) w e = tt

  obtain-Opens : (w : World) → Opens (obtain out skill w)
  unfolding obtain
  obtain-Opens w =
      if-elim Opens (store_verified out w.disk skill.sha256) (λ verified. tt)
        (λ unverified.
          and_then-Passes (λ bytes w'. Unit {0}) Opens (fetch_package out skill w) _
            (any_end (fetch_package out skill w))
            (λ bytes w' fetched.
              and_then-Passes (λ pkg w''. IsRunnable out.codecs pkg) Opens
                (lift (open_package out.codecs bytes skill.name skill.version) w') _
                (opened_end bytes (open_package out.codecs bytes skill.name skill.version) w' refl)
                (λ pkg w'' r. refused_or_opened pkg w'' _ _ r)))
    where
      refused_or_opened :
          (pkg : Package) (w : World) (bad : Bool) (e : InstallError)
          → IsRunnable out.codecs pkg
          → Opens (and_then (refuse_if bad e w) (λ done. pure (some pkg)))
      refused_or_opened pkg w true e r = tt
      refused_or_opened pkg w false e r = r

  remove_dropped-IsTrusted :
      (active : Active) (previous dropped : List Str) (w : World)
      → IsTrusted out w
      → IsTrusted out (remove_dropped skill active previous dropped w)
  unfolding remove_dropped
  remove_dropped-IsTrusted active previous [] w trusted = trusted
  remove_dropped-IsTrusted active previous (sha256 ∷ dropped) w trusted =
      remove_dropped-IsTrusted active previous dropped _ (
        if-elim (IsTrusted out) (sha_referenced skill.sha256 sha256 skill.name active previous)
          (λ used. trusted) (λ unused. remove_store-IsTrusted out sha256 w trusted))

  module_bytes-IsTrusted :
      (pkg : Option Package) (w : World) → IsTrusted out w → InTrust (module_bytes out skill pkg w)
  unfolding module_bytes
  module_bytes-IsTrusted none w trusted = trusted
  module_bytes-IsTrusted (some pkg) w trusted = trusted

  manifest_limits-IsTrusted :
      (pkg : Option Package) (w : World)
      → IsTrusted out w
      → InTrust (manifest_limits out skill pkg w)
  manifest_limits-IsTrusted none w trusted = trusted
  manifest_limits-IsTrusted (some pkg) w trusted = trusted

module _ (out : Outside)
    (marks : (sha256 name version : Str)
      → out.marker_sha (out.write_marker sha256 name version) ≡ some sha256)
    (skill : DesiredSkill) (active : Active) where
  obtained_end :
      (w : World) (r : Result (Option Package) InstallError × World)
      → Obtains out marks skill w r
      → Opens out skill r
      → IsTrusted out w
      → Passes
          (λ pkg w'. IsOpened out skill pkg × IsTrusted out w')
          (InTrust out skill {A = ActiveSkill})
          r
  obtained_end w (ok pkg, w') h opened trusted = (opened, same_store-IsTrusted out w w' h.0 trusted)
  obtained_end w (err e, w') h opened trusted = same_store-IsTrusted out w w' h trusted

  try_install-IsTrusted :
      (policy : SkillPolicy) (w : World)
      → IsTrusted out w
      → IsTrusted out (try_install out skill policy active w).1
  unfolding try_install activate
  try_install-IsTrusted policy w trusted =
      if-elim (InTrust out skill {A = ActiveSkill}) (not (str_eq skill.skill_abi abi))
        (λ foreign. trusted)
        (λ native.
          if-elim (InTrust out skill {A = ActiveSkill})
            (not (store_has_room out w.disk skill.sha256 skill.size_bytes policy.store_quota_bytes))
            (λ full. trusted)
            (λ room.
              and_then-Passes (λ pkg w1. IsOpened out skill pkg × IsTrusted out w1)
                (InTrust out skill {A = ActiveSkill}) (obtain out skill w) _
                (obtained_end w (obtain out skill w) (obtain-Obtains out marks skill w)
                  (obtain-Opens out skill w) trusted)
                (λ pkg w1 h.
                  passing out skill (module_bytes out skill pkg w1) _
                    (module_bytes-IsTrusted out skill pkg w1 h.1)
                    (λ wasm w2 trusted2.
                      passing out skill (manifest_limits out skill pkg w2) _
                        (manifest_limits-IsTrusted out skill pkg w2 trusted2)
                        (λ limits w3 trusted3.
                          passing out skill (ensure_cache out skill.sha256 wasm w3) _
                            (same_store-IsTrusted out w3 (ensure_cache out skill.sha256 wasm w3).1
                              (ensure_cache-SameStore out marks skill skill.sha256 wasm w3)
                              trusted3)
                            (λ done w4 trusted4.
                              passing out skill (seal_new out skill pkg w4) _
                                (seal_new-IsTrusted out skill pkg w4 h.0 trusted4)
                                (λ done' w5 trusted5.
                                  remove_dropped-IsTrusted out skill active _ _ w5 trusted5)))))))

  after_attempt-IsTrusted :
      (limits : InstallLimits) (spent : Bool) (attempts : ℕ)
      (onward : InstallError → World → Installation) (r : Result ActiveSkill InstallError × World)
      → IsTrusted out r.1
      → ((e : InstallError) (w : World) → IsTrusted out w → IsTrusted out (onward e w).1)
      → IsTrusted out (after_attempt out limits spent attempts onward r).1
  unfolding after_attempt
  after_attempt-IsTrusted limits spent attempts onward (ok a, w) trusted rest = trusted
  after_attempt-IsTrusted limits spent attempts onward (err e, w) trusted rest =
      if-elim (λ (i : Installation). IsTrusted out i.1) (not (retryable e.reason) || spent)
        (λ stop. trusted)
        (λ go_on.
          elim (Bool-cases (
            ltb limits.max_elapsed
              (smaller (out.elapsed w.calls + backoff attempts limits) duration_max))) [
                | inl late ↦ rw late trusted
                | inr early ↦ rw early (rest e (called w) trusted)
              ])

  pub install_rounds-IsTrusted :
      (limits : InstallLimits) (policy : SkillPolicy) (left attempts : ℕ) (last : InstallError)
      (w : World)
      → IsTrusted out w
      → IsTrusted out (install_rounds out limits skill policy active left attempts last w).1
  unfolding install_rounds
  install_rounds-IsTrusted limits policy zero attempts last w trusted =
      if-elim (λ (i : Installation). IsTrusted out i.1)
        (ltb limits.max_elapsed (out.elapsed w.calls)) (λ late. trusted) (λ spent. trusted)
  install_rounds-IsTrusted limits policy (suc left) attempts last w trusted =
      if-elim (λ (i : Installation). IsTrusted out i.1)
        (ltb limits.max_elapsed (out.elapsed w.calls)) (λ late. trusted)
        (λ early.
          after_attempt-IsTrusted limits (left == 0) (suc attempts)
            (install_rounds out limits skill policy active left (suc attempts))
            (try_install out skill policy active (called w))
            (try_install-IsTrusted policy (called w) trusted)
            (install_rounds-IsTrusted limits policy left (suc attempts)))
