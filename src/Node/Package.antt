-- ===== src/Node/Package.antt =====
-- crates/novbot-node/src/skills/package.rs: a package is unpacked and checked before it is used.
-- A text is its list of characters, and a path is a text in UTF-8. What flate2 and tar make of an
-- archive, what toml makes of a text, the digest and the UTF-8 decoder are parameters. The child
-- Archive holds `unpack`, and Opening the manifest and `open_package`.
pub mod Archive
pub mod Opening
pub mod Paths
pub mod Unpacked
pub mod Hashes
pub mod Checked
pub mod Runnable
use novbot.Common.{
  ℕ, ◌+◌, ◌*◌, ◌^◌, Bool, true, false, not, ◌&&◌, ◌||◌, List, [], ◌∷◌, ◌++◌, map, Option, none,
  some, ltb, leb, ◌==◌, if◌then◌else◌, Result, ok, err, ◌>>=◌, ◌>>◌, fail_if, all, any, length,
  is_empty,
}
use novbot.Text.{
  Str, codes, str_eq, starts_with, ends_with, contains_char, split, split_once, join, trim,
  is_digit,
}
use novbot.Text.Maps.{find, has, put}

abbrev pub package_max : ℕ
package_max = 16 * 1024 * 1024

abbrev pub extract_max : ℕ
extract_max = 32 * 1024 * 1024

abbrev pub entry_max : ℕ
entry_max = 256

abbrev pub wasm_max : ℕ
wasm_max = 12 * 1024 * 1024

abbrev pub abi : Str
abi = codes "novbot:skill@1"

unfoldable pub catalog : List Str
catalog =
    codes "fs.read"
    ∷ codes "fs.stat"
    ∷ codes "fs.list"
    ∷ codes "net.listening_ports.read"
    ∷ codes "sys.info.read"
    ∷ codes "sys.time_sync.read"
    ∷ codes "env.read"
    ∷ codes "sys.metrics.read"
    ∷ codes "proc.list.read"
    ∷ codes "net.interfaces.read"
    ∷ []

-- The reason words of an `InstallError`.
pub data Reason : Type 0 where
  invalid_archive invalid_manifest abi_unsupported capability_unsupported : Reason
  platform_unsupported disk_quota_exceeded fetch_failed hash_mismatch : Reason
  compile_failed install_timeout store_tampered : Reason

pub record InstallError : Type 0 where
  pub reason : Reason
  pub detail : Str

abbrev pub fail : Reason → Str → InstallError
fail reason detail = record { reason = reason; detail = detail }

-- `map_err(|err| fail(reason, format!("{label}{err}")))`.
abbrev pub labelled {ℓ} : {A : Type ℓ} → Reason → Str → Result A Str → Result A InstallError
labelled reason label (ok a) = ok a
labelled reason label (err e) = err (fail reason (label ++ e))

abbrev pub ok_or {ℓ} : {A : Type ℓ} → Option A → InstallError → Result A InstallError
ok_or none e = err e
ok_or (some a) e = ok a

abbrev pub Bytes : Type 0
Bytes = List ℕ

abbrev pub Files : Type 0
Files = List (Str × Bytes)

pub record Manifest : Type 0 where
  pub name : Str
  pub version : Str
  pub manifest_abi : Str
  pub platforms : List Str
  pub timeout_ms : Option ℕ
  pub memory_mb : Option ℕ
  pub files : List (Str × Str)
  pub grants : List Str

pub record Package : Type 0 where
  pub manifest : Manifest
  pub files : Files

-- What serde reads of skill.toml: a missing field that has a default is its default.
pub record CapabilityToml : Type 0 where
  pub name : Option Str
  pub scope : Option Str
  pub grant : Option Str

pub record ManifestToml : Type 0 where
  pub schema_version : ℕ
  pub name : Str
  pub version : Str
  pub platforms : List Str
  pub runtime_kind : Str
  pub runtime_abi : Str
  pub timeout_ms : Option ℕ
  pub memory_mb : Option ℕ
  pub files : List (Str × Str)
  pub capabilities : List CapabilityToml

pub data EntryType : Type 0 where
  regular continuous directory symlink link block char_device fifo other_type : EntryType

pub record Entry : Type 0 where
  pub entry_type : EntryType
  pub path : Result Str Str
  pub size : Result ℕ Str
  pub content : Result Bytes Str

-- The crates that the checks stand on.
pub record Codecs : Type 0 where
  pub entries : Bytes → Result (List (Result Entry Str)) Str
  pub from_utf8 : Bytes → Option Str
  pub from_toml : Str → Result ManifestToml Str
  pub sha256_hex : Bytes → Str

-- The components that `Path::components` gives on Unix: `.` stands only in front.
pub data Component : Type 0 where
  normal : Str → Component
  cur_dir parent_dir root_dir : Component

abbrev pub component_of : Str → Component
component_of part =
    if str_eq part (codes ".")
    then cur_dir
    else if str_eq part (codes "..")
    then parent_dir
    else normal part

unfoldable pub later_components : List Str → List Component
later_components [] = []
later_components (part ∷ parts) =
    let rest = later_components parts in
    if is_empty part || str_eq part (codes ".") then rest else component_of part ∷ rest

abbrev pub first_components : List Str → List Component
first_components [] = []
first_components (part ∷ parts) =
    if is_empty part
    then root_dir ∷ later_components parts
    else component_of part ∷ later_components parts

unfoldable pub components : Str → List Component
components path = if is_empty path then [] else first_components (split path b'/')

unfoldable pub bad_part : Str → Bool
bad_part part =
    is_empty part
    || str_eq part (codes ".")
    || str_eq part (codes "..")
    || contains_char part b'\\'
    || contains_char part 0

-- The loop of `normalize_rel`.
unfoldable pub normal_parts : List Component → Result (List Str) InstallError
normal_parts [] = ok []
normal_parts (normal part ∷ rest) =
    fail_if (bad_part part) (fail invalid_archive (codes "archive path is invalid"))
    >> normal_parts rest
    >>= λ parts. ok (part ∷ parts)
normal_parts (cur_dir ∷ rest) = normal_parts rest
normal_parts (parent_dir ∷ rest) = err (fail invalid_archive (codes "archive path contains '..'"))
normal_parts (root_dir ∷ rest) = err (fail invalid_archive (codes "archive path is absolute"))

unfoldable pub normalize_rel : Str → Result Str InstallError
normalize_rel path = do
  fail_if (is_empty path || starts_with path (codes "/"))
      (fail invalid_archive (codes "archive path is absolute or empty"))
  parts ← normal_parts (components path)
  fail_if (is_empty parts) (fail invalid_archive (codes "archive path is empty"))
  ok (join parts (codes "/"))
