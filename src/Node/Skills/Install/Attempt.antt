-- ===== src/Node/Skills/Install/Attempt.antt =====
-- crates/novbot-node/src/skills/mod.rs: `try_install`, and the loop of `install_skill` on it.
use novbot.Common.{
  ℕ, suc, zero, ◌+◌, ◌-◌, ◌*◌, ◌^◌, Bool, true, false, not, ◌||◌, List, [], ◌∷◌, ◌++◌, Option, none,
  some, ltb, ◌==◌, if◌then◌else◌, Result, ok, err, any,
}
use novbot.Text.{Str, codes, str_eq}
use novbot.Text.Maps.{find}
use novbot.Node.Package.{
  Bytes, Package, InstallError, fail, abi, abi_unsupported, invalid_manifest, fetch_failed,
  install_timeout, disk_quota_exceeded, platform_unsupported,
}
use novbot.Node.Package.Opening.{open_package}
use novbot.Node.Skills.{
  retryable, InstallLimits, DesiredSkill, SkillPolicy, ActiveSkill, Active, smaller, at_least_one,
  clamp_timeout_ms, clamp_memory_bytes, trim_previous, sha_referenced, backoff,
}
use novbot.Node.Skills.World.{
  Disk, World, Outside, store_verified, store_has_room, remove_store, stored_file,
}
use novbot.Node.Skills.Install.{
  Action, pure, ◌>>=◌, ◌>>◌, lift, refuse_if, called, fetch_package, ensure_cache, seal_store,
}

-- The package to install: none when the store has it verified.
unfoldable pub obtain : Outside → DesiredSkill → Action (Option Package)
obtain out skill w =
    if store_verified out w.disk skill.sha256
    then (ok none, w)
    else (do
      bytes ← fetch_package out skill
      pkg ← lift (open_package out.codecs bytes skill.name skill.version)
      refuse_if (not (any (λ item. str_eq item out.platform) pkg.manifest.platforms)) (
          fail platform_unsupported
            (codes "platform " ++ out.platform ++ codes " is not in the manifest"))
      pure (some pkg))
        w

abbrev pub module_of : Option Bytes → InstallError → Result Bytes InstallError
module_of none e = err e
module_of (some wasm) e = ok wasm

unfoldable pub module_bytes : Outside → DesiredSkill → Option Package → Action Bytes
module_bytes out skill none w = (
  module_of (stored_file w.disk skill.sha256 (codes "module.wasm"))
      (fail fetch_failed (codes "read module.wasm: " ++ out.no_file)),
  w,
)
module_bytes out skill (some pkg) w = (
  module_of (find (codes "module.wasm") pkg.files)
      (fail invalid_manifest (codes "module.wasm is required")),
  w,
)

abbrev pub parsed_limits :
    Result (Option ℕ × Option ℕ) Str → Result (Option ℕ × Option ℕ) InstallError
parsed_limits (ok limits) = ok limits
parsed_limits (err detail) = err (fail invalid_manifest (codes "skill.toml: " ++ detail))

abbrev pub limits_of_text : Outside → Option Str → Result (Option ℕ × Option ℕ) InstallError
limits_of_text out none = err (fail invalid_manifest (codes "read skill.toml: " ++ out.not_utf8))
limits_of_text out (some text) = parsed_limits (out.limits_from_toml text)

abbrev pub limits_of_file : Outside → Option Bytes → Result (Option ℕ × Option ℕ) InstallError
limits_of_file out none = err (fail invalid_manifest (codes "read skill.toml: " ++ out.no_file))
limits_of_file out (some bytes) = limits_of_text out (out.codecs.from_utf8 bytes)

unfoldable pub read_stored_manifest :
    Outside → Disk → Str → Result (Option ℕ × Option ℕ) InstallError
read_stored_manifest out disk sha256 =
    limits_of_file out (stored_file disk sha256 (codes "skill.toml"))

-- The limits before the policy's caps.
abbrev pub manifest_limits : Outside → DesiredSkill → Option Package → Action (Option ℕ × Option ℕ)
manifest_limits out skill none w = (read_stored_manifest out w.disk skill.sha256, w)
manifest_limits out skill (some pkg) w = (ok (pkg.manifest.timeout_ms, pkg.manifest.memory_mb), w)

abbrev pub seal_new : Outside → DesiredSkill → Option Package → Action (Unit {0})
seal_new out skill none w = (ok tt, w)
seal_new out skill (some pkg) w = seal_store out skill pkg w

-- The digests before `trim_previous`.
abbrev pub previous_of : DesiredSkill → Option ActiveSkill → List Str
previous_of skill none = []
previous_of skill (some current) =
    if str_eq current.sha256 skill.sha256
    then current.previous
    else current.sha256 ∷ current.previous

-- The loop over the dropped digests.
unfoldable pub remove_dropped : DesiredSkill → Active → List Str → List Str → World → World
remove_dropped skill active previous [] w = w
remove_dropped skill active previous (sha ∷ dropped) w =
    remove_dropped skill active previous dropped
      (if sha_referenced skill.sha256 sha skill.name active previous then w else remove_store sha w)

unfoldable pub activate :
    DesiredSkill → SkillPolicy → Active → Option ℕ × Option ℕ → Action ActiveSkill
activate skill policy active limits w =
    let trimmed =
      trim_previous (previous_of skill (find skill.name active)) policy.keep_previous_versions in
    (
      ok (record {
        version = skill.version;
        sha256 = skill.sha256;
        previous = trimmed.0;
        timeout_ms = clamp_timeout_ms limits.0 policy.max_timeout_ms;
        memory_bytes = clamp_memory_bytes limits.1 policy.max_memory_mb;
      }),
      remove_dropped skill active trimmed.0 trimmed.1 w,
    )

unfoldable pub try_install : Outside → DesiredSkill → SkillPolicy → Active → Action ActiveSkill
try_install out skill policy active w =
    if not (str_eq skill.skill_abi abi)
    then (
      err (fail abi_unsupported (codes "skill abi " ++ skill.skill_abi ++ codes " is not " ++ abi)),
      w,
    )
    else if not (store_has_room out w.disk skill.sha256 skill.size_bytes policy.store_quota_bytes)
    then (
      err (
          fail disk_quota_exceeded (
            codes "store quota of "
            ++ out.show policy.store_quota_bytes
            ++ codes " bytes would be exceeded")),
      w,
    )
    else (do
      pkg ← obtain out skill
      wasm ← module_bytes out skill pkg
      limits ← manifest_limits out skill pkg
      ensure_cache out skill.sha256 wasm
      seal_new out skill pkg
      activate skill policy active limits)
        w

-- How an installation ends: the skill or the error, with the number of attempts.
abbrev pub Installation : Type 0
Installation = Result (ActiveSkill × ℕ) (InstallError × ℕ) × World

-- `Duration::MAX` in nanoseconds.
abbrev pub duration_max : ℕ
duration_max = 2 ^ 64 * 1000000000 - 1

-- The rest of a round of the loop, with the next round as an argument.
unfoldable pub after_attempt :
    Outside
    → InstallLimits
    → Bool
    → ℕ
    → (InstallError → World → Installation)
    → Result ActiveSkill InstallError × World
    → Installation
after_attempt out limits spent attempts onward (ok installed, w) = (ok (installed, attempts), w)
after_attempt out limits spent attempts onward (err e, w) =
    if not (retryable e.reason) || spent
    then (err (e, attempts), w)
    else elim (ltb limits.max_elapsed
        (smaller (out.elapsed w.calls + backoff attempts limits) duration_max)) [
          | true ↦ (err (fail install_timeout e.detail, attempts), called w)
          | false ↦ onward e (called w)
        ]

-- The loop, on the attempts that are left of the budget.
unfoldable pub install_rounds :
    Outside
    → InstallLimits
    → DesiredSkill
    → SkillPolicy
    → Active
    → ℕ
    → ℕ
    → InstallError
    → World
    → Installation
install_rounds out limits skill policy active zero attempts last w =
    if ltb limits.max_elapsed (out.elapsed w.calls)
    then (err (fail install_timeout last.detail, at_least_one attempts), called w)
    else (err (last, attempts), called w)
install_rounds out limits skill policy active (suc left) attempts last w =
    if ltb limits.max_elapsed (out.elapsed w.calls)
    then (err (fail install_timeout last.detail, at_least_one attempts), called w)
    else after_attempt out limits (left == 0) (suc attempts)
        (install_rounds out limits skill policy active left (suc attempts))
        (try_install out skill policy active (called w))

unfoldable pub install_skill :
    Outside → InstallLimits → DesiredSkill → SkillPolicy → Active → World → Installation
install_skill out limits skill policy active w =
    install_rounds out limits skill policy active (at_least_one limits.max_attempts) 0
      (fail fetch_failed (codes "install did not start")) w
