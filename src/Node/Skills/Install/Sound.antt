-- ===== src/Node/Skills/Install/Sound.antt =====
-- crates/novbot-node/src/skills/mod.rs: what an attempt to install a skill does to the store.
use novbot.Common.{
  ◌≡◌, refl, sym, ◌∙◌, ℕ, false, not, ◌&&◌, ◌||◌, List, [], ◌∷◌, Option, none, some, Result, ok,
  err, if-elim, any, arith,
}
use novbot.Text.{Str, str_eq}
use novbot.Text.Laws.{str_eq_iff, str_eq_refl}
use novbot.Text.Maps.{find, any-find}
use novbot.Node.Package.{Package, InstallError, abi}
use novbot.Node.Skills.{
  DesiredSkill, SkillPolicy, ActiveSkill, Active, sha_referenced, trim_previous,
}
use novbot.Node.Skills.World.{World, Outside, store_has_room}
use novbot.Node.Skills.Install.{Action, and_then, ensure_cache}
use novbot.Node.Skills.Install.Attempt.{
  obtain, module_bytes, manifest_limits, seal_new, previous_of, remove_dropped, activate,
  try_install,
}
use novbot.Node.Skills.Install.Kept.{
  Passes, and_then-Passes, Verified, Keeps, same_store-Keeps, remove_store-other,
}
use novbot.Node.Skills.Install.Sealing.{
  Stores, Ready, seal_new-Stores, SameStore, Ready-SameStore, ensure_cache-SameStore, unchanged,
  Obtains, obtain-Obtains,
}

module _ (out : Outside)
    (marks : (sha256 name version : Str)
      → out.marker_sha (out.write_marker sha256 name version) ≡ some sha256)
    (skill : DesiredSkill) where
  -- An active skill that a desired one asks for.
  abbrev pub IsFor : ActiveSkill → Type 0
  IsFor installed = (installed.sha256 ≡ skill.sha256) × (installed.version ≡ skill.version)

  module _ (active : Active) where
    -- The active skills of other names keep what they had.
    abbrev pub Protects : World → World → Type 0
    Protects w w' =
        (name : Str) (other : ActiveSkill)
        → find name active ≡ some other
        → str_eq name skill.name ≡ false
        → Verified out w other.sha256
        → Verified out w' other.sha256

    abbrev pub Installs : World → Result ActiveSkill InstallError × World → Type 0
    Installs w (ok installed, w') = IsFor installed × Verified out w' skill.sha256 × Protects w w'
    Installs w (err e, w') = Keeps out w w'

    remove_dropped-Verified :
        (previous dropped : List Str) (i : Str) (w : World)
        → ((sha256 : Str)
            → sha_referenced skill.sha256 sha256 skill.name active previous ≡ false
            → str_eq sha256 i ≡ false)
        → Verified out w i
        → Verified out (remove_dropped skill active previous dropped w) i
    unfolding remove_dropped
    remove_dropped-Verified previous [] i w spared v = v
    remove_dropped-Verified previous (sha256 ∷ dropped) i w spared v =
        remove_dropped-Verified previous dropped i _ spared (
          if-elim (λ w'. Verified out w' i)
            (sha_referenced skill.sha256 sha256 skill.name active previous) (λ used. v)
            (λ unused. remove_store-other out w sha256 i (spared sha256 unused) v))

    spares_desired :
        (previous : List Str) (sha256 : Str)
        → sha_referenced skill.sha256 sha256 skill.name active previous ≡ false
        → str_eq sha256 skill.sha256 ≡ false
    unfolding sha_referenced
    spares_desired previous sha256 h = ground arith

    spares_active :
        (previous : List Str) (name : Str) (other : ActiveSkill)
        → find name active ≡ some other
        → str_eq name skill.name ≡ false
        → (sha256 : Str) → sha_referenced skill.sha256 sha256 skill.name active previous ≡ false
        → str_eq sha256 other.sha256 ≡ false
    unfolding sha_referenced
    spares_active previous name other found different sha256 h =
        let unused =
          any-find
            (λ entry.
              not (str_eq entry.0 skill.name)
              && (str_eq entry.1.sha256 sha256 || any (λ sha. str_eq sha sha256) entry.1.previous))
            name other active found (ground arith) in
        ground (arith, str_eq_iff sha256 other.sha256, str_eq_refl sha256)

    activate-Installs :
        (policy : SkillPolicy) (limits : Option ℕ × Option ℕ) (w : World)
        → Verified out w skill.sha256
        → Installs w (activate skill policy active limits w)
    unfolding activate
    activate-Installs policy limits w v =
        let trimmed =
          trim_previous (previous_of skill (find skill.name active))
            policy.keep_previous_versions in
        (
          (refl, refl),
          remove_dropped-Verified trimmed.0 trimmed.1 skill.sha256 w (spares_desired trimmed.0) v,
          λ name other found different verified.
              remove_dropped-Verified trimmed.0 trimmed.1 other.sha256 w
                (spares_active trimmed.0 name other found different) verified,
        )

    -- An error of a part that left the store alone.
    refused :
        (w : World) (e : InstallError) (w' : World)
        → SameStore out marks skill w w'
        → Installs w (err e, w')
    refused w e w' same = same_store-Keeps out w w' same

    pub Installs-after :
        (w w' : World) (r : Result ActiveSkill InstallError × World)
        → Keeps out w w'
        → Installs w' r
        → Installs w r
    Installs-after w w' (ok a, w'') kept (same, verified, protects) = (
      same,
      verified,
      λ name other found different v. protects name other found different (kept other.sha256 v),
    )
    Installs-after w w' (err e, w'') kept keeps = λ sha256 v. keeps sha256 (kept sha256 v)

    after_Stores :
        (w : World) (r : Result (Unit {0}) InstallError × World)
        → Stores out marks skill w r
        → Passes (λ done w'. Keeps out w w' × Verified out w' skill.sha256) (Installs w) r
    after_Stores w (ok done, w') h = h
    after_Stores w (err e, w') h = h

    after_Obtains :
        (w : World) (r : Result (Option Package) InstallError × World)
        → Obtains out marks skill w r
        → Passes
            (λ pkg w'. SameStore out marks skill w w' × Ready out marks skill pkg w')
            (Installs w)
            r
    after_Obtains w (ok pkg, w') h = h
    after_Obtains w (err e, w') h = refused w e w' h

    module_bytes-SameStore :
        (pkg : Option Package) (w : World)
        → SameStore out marks skill w (module_bytes out skill pkg w).1
    unfolding module_bytes
    module_bytes-SameStore none w = refl
    module_bytes-SameStore (some pkg) w = refl

    manifest_limits-SameStore :
        (pkg : Option Package) (w : World)
        → SameStore out marks skill w (manifest_limits out skill pkg w).1
    manifest_limits-SameStore none w = refl
    manifest_limits-SameStore (some pkg) w = refl

    -- A part of the chain that leaves the store alone.
    passing :
        {A : Type 0} (w : World) (r : Result A InstallError × World)
        (onward : A → Action ActiveSkill)
        → SameStore out marks skill w r.1
        → ((a : A) (w' : World) → SameStore out marks skill w w' → Installs w (onward a w'))
        → Installs w (and_then r onward)
    passing w r onward same rest =
        and_then-Passes (λ a w'. SameStore out marks skill w w') (Installs w) r onward
          (unchanged out marks skill w (Installs w) r (refused w) same) rest

    module _ (policy : SkillPolicy) where
      sealing-Installs :
          (w : World) (pkg : Option Package) (limits : Option ℕ × Option ℕ) (w' : World)
          → SameStore out marks skill w w'
          → Ready out marks skill pkg w'
          → Installs w
              (and_then (seal_new out skill pkg w') (λ done. activate skill policy active limits))
      sealing-Installs w pkg limits w' same ready =
          Installs-after w w' _ (same_store-Keeps out w w' same) (
            and_then-Passes (λ done w''. Keeps out w' w'' × Verified out w'' skill.sha256)
              (Installs w') (seal_new out skill pkg w')
              (λ done. activate skill policy active limits)
              (after_Stores w' (seal_new out skill pkg w')
                (seal_new-Stores out marks skill pkg w' ready))
              (λ done w'' h. Installs-after w' w'' _ h.0 (activate-Installs policy limits w'' h.1)))

      -- The chain behind the package.
      package-Installs :
          (w : World) (pkg : Option Package) (w1 : World)
          → SameStore out marks skill w w1
          → Ready out marks skill pkg w1
          → Installs w (
              and_then (module_bytes out skill pkg w1) (λ wasm w2.
                and_then (manifest_limits out skill pkg w2) (λ limits w3.
                  and_then (ensure_cache out skill.sha256 wasm w3) (λ done w4.
                    and_then
                      (seal_new out skill pkg w4)
                      (λ done. activate skill policy active limits)))))
      package-Installs w pkg w1 kept1 ready =
          passing w (module_bytes out skill pkg w1) _ (module_bytes-SameStore pkg w1 ∙ kept1)
            (λ wasm w2 kept2.
              passing w (manifest_limits out skill pkg w2) _
                (manifest_limits-SameStore pkg w2 ∙ kept2)
                (λ limits w3 kept3.
                  passing w (ensure_cache out skill.sha256 wasm w3) _
                    (ensure_cache-SameStore out marks skill skill.sha256 wasm w3 ∙ kept3)
                    (λ done w4 kept4.
                      sealing-Installs w pkg limits w4 kept4
                        (Ready-SameStore out marks skill pkg w1 w4 (kept4 ∙ sym kept1) ready))))

      pub try_install-Installs : (w : World) → Installs w (try_install out skill policy active w)
      unfolding try_install
      try_install-Installs w =
          if-elim (Installs w) (not (str_eq skill.skill_abi abi)) (λ foreign sha256 v. v)
            (λ native.
              if-elim (Installs w)
                (not (
                  store_has_room out w.disk skill.sha256 skill.size_bytes policy.store_quota_bytes))
                (λ full sha256 v. v)
                (λ room.
                  and_then-Passes
                    (λ pkg w1. SameStore out marks skill w w1 × Ready out marks skill pkg w1)
                    (Installs w) (obtain out skill w) _
                    (after_Obtains w (obtain out skill w) (obtain-Obtains out marks skill w))
                    (λ pkg w1 obtained. package-Installs w pkg w1 obtained.0 obtained.1)))
