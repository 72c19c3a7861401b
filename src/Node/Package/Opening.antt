-- ===== src/Node/Package/Opening.antt =====
-- crates/novbot-node/src/skills/package.rs: `verify_file_hashes`, the manifest and `open_package`.
use novbot.Common.{
  Bool, not, ◌&&◌, ◌||◌, List, [], ◌∷◌, ◌++◌, Option, none, some, ltb, leb, ◌==◌, if◌then◌else◌,
  Result, ok, err, ◌>>=◌, ◌>>◌, fail_if, all, any, length, is_empty,
}
use novbot.Text.{Str, codes, str_eq, split_once, join, trim, is_digit}
use novbot.Text.Maps.{find, has, put}
use novbot.Node.Package.{
  package_max, abi, catalog, InstallError, invalid_archive, invalid_manifest, abi_unsupported,
  capability_unsupported, fail, labelled, ok_or, Bytes, Files, Manifest, Package, CapabilityToml,
  Codecs, normalize_rel,
}
use novbot.Node.Package.Archive.{unpack}

unfoldable pub is_lower_hex64 : Str → Bool
is_lower_hex64 value =
    length value == 64 && all (λ c. is_digit c || (leb b'a' c && leb c b'f')) value

-- `remaining.retain(|item| *item != path)`.
unfoldable pub without : Str → List Str → List Str
without path [] = []
without path (item ∷ items) =
    let rest = without path items in if str_eq item path then rest else item ∷ rest

-- The keys that have to be declared.
unfoldable pub undeclared : Files → List Str
undeclared [] = []
undeclared ((path, content) ∷ files) =
    let rest = undeclared files in if str_eq path (codes "skill.toml") then rest else path ∷ rest

-- The checks of the loop for one declared file.
unfoldable pub verify_one : Codecs → Files → Str → Str → Result (Unit {0}) InstallError
verify_one codecs files path hash = do
  fail_if (not (is_lower_hex64 hash))
      (fail invalid_manifest (codes "file hash must be lowercase sha256 hex: " ++ path))
  content ←
      ok_or (find path files)
        (fail invalid_archive (codes "[files] entry is not in the archive: " ++ path))
  fail_if (not (str_eq (codecs.sha256_hex content) hash))
      (fail invalid_archive (codes "file hash mismatch: " ++ path))

-- The loop, with the keys that remain.
unfoldable pub verify_declared :
    Codecs → Files → List (Str × Str) → List Str → Result (List Str) InstallError
verify_declared codecs files [] remaining = ok remaining
verify_declared codecs files ((path, hash) ∷ declared) remaining =
    verify_one codecs files path hash
    >> verify_declared codecs files declared (without path remaining)

unfoldable pub verify_file_hashes :
    Codecs → Files → List (Str × Str) → Result (Unit {0}) InstallError
verify_file_hashes codecs files declared = do
  remaining ← verify_declared codecs files declared (undeclared files)
  fail_if (not (is_empty remaining)) (
      fail invalid_archive
        (codes "archive entries missing from [files]: " ++ join remaining (codes ", ")))

-- `filter(|value| !value.is_empty())`.
abbrev pub filled : Option Str → Option Str
filled none = none
filled (some value) = if is_empty value then none else some value

-- `grant_string` without a grant written out.
unfoldable pub scoped_grant : Option Str → Option Str → Result Str InstallError
scoped_grant none scope = err (fail invalid_manifest (codes "capability is missing a name"))
scoped_grant (some name) none = ok name
scoped_grant (some name) (some scope) = ok (name ++ codes ":" ++ scope)

unfoldable pub grant_string : CapabilityToml → Result Str InstallError
grant_string cap = elim (filled cap.grant) [
  | some grant ↦ ok grant
  | none ↦ scoped_grant (filled cap.name) (filled cap.scope)
]

unfoldable pub grant_strings : List CapabilityToml → Result (List Str) InstallError
grant_strings [] = ok []
grant_strings (cap ∷ caps) = do
  grant ← grant_string cap
  grants ← grant_strings caps
  ok (grant ∷ grants)

-- The loop over `raw.files`.
unfoldable pub normal_files :
    List (Str × Str) → List (Str × Str) → Result (List (Str × Str)) InstallError
normal_files files [] = ok files
normal_files files ((path, hash) ∷ raw) = do
  normalized ← normalize_rel path
  fail_if (has normalized files) (fail invalid_manifest (codes "duplicate [files] entry: " ++ path))
  normal_files (put normalized hash files) raw

unfoldable pub parse_manifest : Codecs → Str → Result Manifest InstallError
parse_manifest codecs text = do
  raw ← labelled invalid_manifest (codes "skill.toml: ") (codecs.from_toml text)
  fail_if (not (raw.schema_version == 1)) (fail invalid_manifest (codes "schema_version must be 1"))
  fail_if (not (str_eq raw.runtime_kind (codes "wasm")))
      (fail invalid_manifest (codes "runtime.kind must be wasm"))
  fail_if (is_empty (trim raw.name) || is_empty (trim raw.version))
      (fail invalid_manifest (codes "name and version are required"))
  files ← normal_files [] raw.files
  grants ← grant_strings raw.capabilities
  ok (record {
    name = raw.name;
    version = raw.version;
    manifest_abi = raw.runtime_abi;
    platforms = raw.platforms;
    timeout_ms = raw.timeout_ms;
    memory_mb = raw.memory_mb;
    files = files;
    grants = grants;
  })

unfoldable pub module_hash_from_toml : Codecs → Str → Result Str InstallError
module_hash_from_toml codecs text = do
  manifest ← parse_manifest codecs text
  ok_or (find (codes "module.wasm") manifest.files)
      (fail invalid_manifest (codes "module.wasm hash is missing"))

-- The name of a grant, before its first colon.
abbrev pub grant_name : Str → Str
grant_name grant = elim (split_once grant b':') [ none ↦ grant | some (name, scope) ↦ name ]

-- The loop over the grants.
unfoldable pub check_grants : List Str → Result (Unit {0}) InstallError
check_grants [] = ok tt
check_grants (grant ∷ grants) =
    fail_if (not (any (str_eq (grant_name grant)) catalog)) (
      fail capability_unsupported
        (codes "grant " ++ grant ++ codes " is not in this node's catalog"))
    >> check_grants grants

-- The test of the name and version, if there are expected ones.
unfoldable pub check_expected : Manifest → Option (Str × Str) → Result (Unit {0}) InstallError
check_expected manifest none = ok tt
check_expected manifest (some (name, version)) =
    fail_if (not (str_eq manifest.name name) || not (str_eq manifest.version version)) (
      fail invalid_manifest (
        codes "manifest "
        ++ manifest.name
        ++ codes "@"
        ++ manifest.version
        ++ codes " does not match desired "
        ++ name
        ++ codes "@"
        ++ version))

unfoldable pub load_package_inner :
    Codecs → Bytes → Option (Str × Str) → Result Package InstallError
load_package_inner codecs bytes expected = do
  fail_if (ltb package_max (length bytes)) (fail invalid_archive (codes "package exceeds 16 MiB"))
  files ← unpack codecs bytes
  toml_bytes ←
      ok_or (find (codes "skill.toml") files)
        (fail invalid_manifest (codes "skill.toml is required"))
  toml_text ←
      ok_or (codecs.from_utf8 toml_bytes) (fail invalid_manifest (codes "skill.toml is not utf-8"))
  manifest ← parse_manifest codecs toml_text
  check_expected manifest expected
  fail_if (not (str_eq manifest.manifest_abi abi)) (
      fail abi_unsupported
        (codes "manifest abi " ++ manifest.manifest_abi ++ codes " is not " ++ abi))
  verify_file_hashes codecs files manifest.files
  fail_if (not (has (codes "module.wasm") files))
      (fail invalid_manifest (codes "module.wasm is required"))
  check_grants manifest.grants
  ok (record { manifest = manifest; files = files })

unfoldable pub open_package : Codecs → Bytes → Str → Str → Result Package InstallError
open_package codecs bytes name version = load_package_inner codecs bytes (some (name, version))

unfoldable pub load_package : Codecs → Bytes → Result Package InstallError
load_package codecs bytes = load_package_inner codecs bytes none
