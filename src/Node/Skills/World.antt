-- ===== src/Node/Skills/World.antt =====
-- crates/novbot-node/src/skills/mod.rs: the files under `skills/`, and what happens outside.
-- A file operation succeeds, but for those of `seal_store`, whose outcome comes from outside. What
-- changes from call to call (clock, network, seals) is a function of the number of calls so far.
use novbot.Common.{
  ℕ, Bool, true, false, not, List, [], ◌∷◌, Option, none, some, leb, if◌then◌else◌, Result, ok, err,
  length,
}
use novbot.Text.{Str, codes, str_eq}
use novbot.Text.Maps.{find}
use novbot.Node.Package.{Bytes, Files, Codecs, InstallError, fail, store_tampered}
use novbot.Node.Package.Archive.{saturating_add}
use novbot.Node.Package.Opening.{module_hash_from_toml}

-- A directory of the store: the package's files, its envelope and the file `.verified`.
pub record Sealed : Type 0 where
  pub files : Files
  pub envelope : Bytes
  pub marker : Option Bytes

pub record DiskSkill : Type 0 where
  pub sha256 : Str
  pub version : Str
  pub previous : List Str

pub record DiskState : Type 0 where
  pub generation : ℕ
  pub skills : List (Str × DiskSkill)

-- `store/`, `quarantine/`, `cache/` by the digest of the package, `downloads/` and state.json.
pub record Disk : Type 0 where
  pub store : List (Str × Sealed)
  pub quarantine : List (Str × Sealed)
  pub cache : List (Str × Bytes)
  pub parts : List (Str × Bytes)
  pub state : Option DiskState

pub record World : Type 0 where
  pub disk : Disk
  pub calls : ℕ

pub record Fetched : Type 0 where
  pub total_size : ℕ
  pub payload : Bytes

-- How the file operations of `seal_store` end: before the old directory is removed, or behind.
pub data SealIo : Type 0 where
  sealed : SealIo
  staging_failed rename_failed chmod_failed : Str → SealIo

-- The parameters: serde_json for `.verified`, toml for the limits, the compiler, the platform, the
-- messages of the system, the text of a number and of a digest with a time, and what changes from call to call.
pub record Outside : Type 0 where
  pub codecs : Codecs
  pub write_marker : Str → Str → Str → Bytes
  pub marker_sha : Bytes → Option Str
  pub limits_from_toml : Str → Result (Option ℕ × Option ℕ) Str
  pub compile_cwasm : Bytes → Result Bytes Str
  pub platform : Str
  pub no_file : Str
  pub not_utf8 : Str
  pub show : ℕ → Str
  pub stamped : ℕ → Str → Str
  pub elapsed : ℕ → ℕ
  pub fetch : ℕ → Str → Str → ℕ → Result Fetched Str
  pub seal_io : ℕ → SealIo
  pub state_written : ℕ → Bool

-- A map without a key.
abbrev pub forget {ℓ} : {V : Type ℓ} → Str → List (Str × V) → List (Str × V)
forget k [] = []
forget k ((j, v) ∷ m) = let rest = forget k m in if str_eq j k then rest else (j, v) ∷ rest

abbrev pub same_text : Option Str → Str → Bool
same_text none t = false
same_text (some s) t = str_eq s t

abbrev pub marker_of : Outside → Option Bytes → Option Str
marker_of out none = none
marker_of out (some bytes) = out.marker_sha bytes

-- `store_verified`, from what the store holds under the digest.
abbrev pub marked : Outside → Str → Option Sealed → Bool
marked out sha256 none = false
marked out sha256 (some dir) = same_text (marker_of out dir.marker) sha256

unfoldable pub store_verified : Outside → Disk → Str → Bool
store_verified out disk sha256 = marked out sha256 (find sha256 disk.store)

abbrev pub size_of_files : Files → ℕ
size_of_files [] = 0
size_of_files ((path, content) ∷ files) = saturating_add (length content) (size_of_files files)

abbrev pub size_of_marker : Option Bytes → ℕ
size_of_marker none = 0
size_of_marker (some bytes) = length bytes

-- `dir_size` of `store/`. The file of an empty envelope is not written, and adds nothing.
unfoldable pub store_size : List (Str × Sealed) → ℕ
store_size [] = 0
store_size ((sha256, dir) ∷ store) =
    saturating_add
      (saturating_add (size_of_files dir.files)
        (saturating_add (length dir.envelope) (size_of_marker dir.marker)))
      (store_size store)

unfoldable pub store_has_room : Outside → Disk → Str → ℕ → ℕ → Bool
store_has_room out disk sha256 adding quota =
    if store_verified out disk sha256
    then true
    else leb (saturating_add (store_size disk.store) adding) quota

unfoldable pub remove_store : Str → World → World
remove_store sha256 w = record w { disk = record (w.disk) { store = forget sha256 w.disk.store } }

abbrev pub files_of : Option Sealed → Files
files_of none = []
files_of (some dir) = dir.files

-- `fs::read(store_path(sha256).join(path))`.
abbrev pub stored_file : Disk → Str → Str → Option Bytes
stored_file disk sha256 path = find path (files_of (find sha256 disk.store))

abbrev pub decoded : Codecs → Option Bytes → Option Str
decoded codecs none = none
decoded codecs (some bytes) = codecs.from_utf8 bytes

-- `verify_active`, on the directory of the digest.
unfoldable pub verify_dir : Outside → Str → Option Sealed → Result (Unit {0}) InstallError
verify_dir out sha256 dir =
    if not (marked out sha256 dir)
    then err (fail store_tampered (codes "verified marker is missing"))
    else elim (decoded out.codecs (find (codes "skill.toml") (files_of dir))) [
      | none ↦ err (fail store_tampered (codes "skill.toml is missing"))
      | some text ↦ elim (module_hash_from_toml out.codecs text) [
        | err e ↦ err e
        | ok expected ↦ elim (find (codes "module.wasm") (files_of dir)) [
          | none ↦ err (fail store_tampered (codes "module.wasm is missing"))
          | some wasm ↦
              if str_eq (out.codecs.sha256_hex wasm) expected
              then ok tt
              else err (fail store_tampered (codes "module.wasm does not match the manifest hash"))
        ]
      ]
    ]

unfoldable pub verify_active : Outside → Disk → Str → Result (Unit {0}) InstallError
verify_active out disk sha256 = verify_dir out sha256 (find sha256 disk.store)
