-- ===== src/Node/Skills/Install.antt =====
-- crates/novbot-node/src/skills/mod.rs: what an installation calls: the download, the cache and
-- the store. The calls work on the disk and may fail, and what they did to the disk before they failed stays done.
use novbot.Common.{
  ℕ, suc, zero, ◌+◌, ◌-◌, ◌*◌, ◌^◌, Bool, true, false, not, ◌&&◌, ◌||◌, List, [], ◌∷◌, ◌++◌, Option,
  none, some, ltb, leb, ◌==◌, if◌then◌else◌, Result, ok, err, any, length, is_empty,
}
use novbot.Text.{Str, codes, str_eq}
use novbot.Text.Maps.{find, put}
use novbot.Node.Package.{
  Bytes, Files, Codecs, Package, InstallError, Reason, fail, abi, abi_unsupported, invalid_archive,
  invalid_manifest, fetch_failed, hash_mismatch, compile_failed, install_timeout,
  disk_quota_exceeded, platform_unsupported,
}
use novbot.Node.Package.Opening.{open_package}
use novbot.Node.Skills.{
  retryable, InstallLimits, DesiredSkill, SkillPolicy, ActiveSkill, Active, smaller, at_least_one,
  clamp_timeout_ms, clamp_memory_bytes, trim_previous, sha_referenced, backoff, redact_ticket,
}
use novbot.Node.Skills.World.{
  Sealed, Disk, World, Fetched, SealIo, sealed, staging_failed, rename_failed, chmod_failed,
  Outside, forget, store_verified, store_has_room, remove_store, stored_file,
}
pub mod Attempt
pub mod Download
pub mod Kept
pub mod Sealing
pub mod Sound
pub mod Honest
pub mod Trusted
pub mod Made
pub mod Rounds

abbrev pub Action : Type 0 → Type 0
Action A = World → Result A InstallError × World

module _ {A : Type 0} where
  abbrev pub pure : A → Action A
  pure a w = (ok a, w)

  abbrev pub and_then :
      {B : Type 0} → Result A InstallError × World → (A → Action B) → Result B InstallError × World
  and_then (err e, w) onward = (err e, w)
  and_then (ok a, w) onward = onward a w

infixl 5 ◌>>=◌ ◌>>◌
abbrev pub ◌>>=◌ : {A B : Type 0} → Action A → (A → Action B) → Action B
◌>>=◌ m onward w = and_then (m w) onward

abbrev pub ◌>>◌ : {A B : Type 0} → Action A → Action B → Action B
m >> onward = m >>= λ done. onward

-- A result of a call that leaves the disk alone.
abbrev pub lift : {A : Type 0} → Result A InstallError → Action A
lift r w = (r, w)

abbrev pub refuse_if : Bool → InstallError → Action (Unit {0})
refuse_if bad e w = (if bad then err e else ok tt, w)

-- One more call of what is outside.
abbrev pub called : World → World
called w = record w { calls = suc w.calls }

abbrev pub bytes_or_empty : Option Bytes → Bytes
bytes_or_empty none = []
bytes_or_empty (some bytes) = bytes

-- The bytes of the part file. A file that is missing counts as an empty one.
abbrev pub part_of : Str → World → Bytes
part_of sha256 w = bytes_or_empty (find sha256 w.disk.parts)

abbrev pub write_part : Str → Bytes → World → World
write_part sha256 bytes w = record w {
  disk = record (w.disk) { parts = put sha256 bytes w.disk.parts };
}

abbrev pub remove_part : Str → World → World
remove_part sha256 w = record w { disk = record (w.disk) { parts = forget sha256 w.disk.parts } }

-- `fetch_package` once the bytes from the source are appended to the part.
unfoldable pub finish_download : Outside → DesiredSkill → Bytes → ℕ → Action Bytes
finish_download out skill bytes total_size w =
    let expected = if ltb 0 skill.size_bytes then skill.size_bytes else total_size in
    if ltb 0 expected && ltb (length bytes) expected
    then (
      err (fail fetch_failed (codes "download ended before the artifact size")),
      write_part skill.sha256 bytes w,
    )
    else if not (str_eq (out.codecs.sha256_hex bytes) skill.sha256)
    then (
      err (fail hash_mismatch (codes "downloaded package sha256 does not match the desired skill")),
      remove_part skill.sha256 w,
    )
    else (ok bytes, remove_part skill.sha256 w)

abbrev pub take_fetched : Outside → DesiredSkill → Bytes → Result Fetched Str → Action Bytes
take_fetched out skill part (err detail) w =
    (err (fail fetch_failed (redact_ticket detail skill.fetch_ticket)), w)
take_fetched out skill part (ok fetched) w =
    finish_download out skill (part ++ fetched.payload) fetched.total_size w

-- `fetch_package` from the call of the source on, which asks for the bytes behind the part.
unfoldable pub download : Outside → DesiredSkill → Action Bytes
download out skill w =
    let part = part_of skill.sha256 w in
    take_fetched out skill part (out.fetch w.calls skill.sha256 skill.fetch_ticket (length part))
      (called w)

unfoldable pub fetch_package : Outside → DesiredSkill → Action Bytes
fetch_package out skill w =
    let part = part_of skill.sha256 w in
    let sized = ltb 0 skill.size_bytes in
    if sized && length part == skill.size_bytes
    then if str_eq (out.codecs.sha256_hex part) skill.sha256
      then (ok part, w)
      else download out skill (remove_part skill.sha256 w)
    else if sized && ltb skill.size_bytes (length part)
    then download out skill (remove_part skill.sha256 w)
    else download out skill w

abbrev pub keep_compiled : Str → Result Bytes Str → Action (Unit {0})
keep_compiled package_sha (err detail) w = (err (fail compile_failed detail), w)
keep_compiled package_sha (ok cwasm) w =
    (ok tt, record w { disk = record (w.disk) { cache = put package_sha cwasm w.disk.cache } })

unfoldable pub ensure_cache : Outside → Str → Bytes → Action (Unit {0})
ensure_cache out package_sha module_wasm w =
    if is_empty (bytes_or_empty (find package_sha w.disk.cache))
    then keep_compiled package_sha (out.compile_cwasm module_wasm) w
    else (ok tt, w)

-- `seal_store`, from how its file operations end.
abbrev pub end_seal : Outside → DesiredSkill → Package → SealIo → Action (Unit {0})
end_seal out skill pkg (staging_failed detail) w = (err (fail invalid_archive detail), w)
end_seal out skill pkg (rename_failed detail) w =
    (err (fail invalid_archive detail), remove_store skill.sha256 w)
end_seal out skill pkg (chmod_failed detail) w =
    (err (fail invalid_archive detail), remove_store skill.sha256 w)
end_seal out skill pkg sealed w =
    let marker = out.write_marker skill.sha256 skill.name skill.version in
    let dir : Sealed = record {
      files = pkg.files;
      envelope = skill.signature_envelope;
      marker = some marker;
    } in
    (ok tt, record w { disk = record (w.disk) { store = put skill.sha256 dir w.disk.store } })

unfoldable pub seal_store : Outside → DesiredSkill → Package → Action (Unit {0})
seal_store out skill pkg w = end_seal out skill pkg (out.seal_io w.calls) (called w)
