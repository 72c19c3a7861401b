-- ===== src/Node/Package/Archive.antt =====
-- crates/novbot-node/src/skills/package.rs: `unpack`. Sizes are u64; a sum stops at the largest.
use novbot.Common.{
  ℕ, ◌+◌, ◌^◌, ◌-◌, Bool, true, false, ◌&&◌, ◌||◌, List, [], ◌∷◌, ◌++◌, ltb, leb, if◌then◌else◌,
  Result, ok, err, ◌>>=◌, ◌>>◌, fail_if, length,
}
use novbot.Text.{Str, codes, str_eq, ends_with}
use novbot.Text.Maps.{has, put}
use novbot.Node.Package.{
  extract_max, entry_max, wasm_max, InstallError, invalid_archive, fail, labelled, Bytes, Files,
  Entry, EntryType, regular, continuous, directory, symlink, link, block, char_device, fifo,
  other_type, Codecs, normalize_rel,
}

abbrev pub max_u64 : ℕ
max_u64 = 2 ^ 64 - 1

abbrev pub saturating_add : ℕ → ℕ → ℕ
saturating_add a b = if leb (a + b) max_u64 then a + b else max_u64

abbrev refuse : {A : Type 0} → Str → Result A InstallError
refuse detail = err (fail invalid_archive detail)

-- The `match kind`: whether the entry is a directory.
unfoldable pub is_directory : EntryType → Result Bool InstallError
is_directory regular = ok false
is_directory continuous = ok false
is_directory directory = ok true
is_directory symlink = refuse (codes "archive contains a symbolic link or hard link")
is_directory link = refuse (codes "archive contains a symbolic link or hard link")
is_directory block = refuse (codes "archive contains a device or fifo entry")
is_directory char_device = refuse (codes "archive contains a device or fifo entry")
is_directory fifo = refuse (codes "archive contains a device or fifo entry")
is_directory other_type = refuse (codes "archive contains an unsupported entry")

-- The variables of the loop.
pub record Unpacking : Type 0 where
  pub files : Files
  pub count : ℕ
  pub total : ℕ

abbrev pub is_module : Str → Bool
is_module path = str_eq path (codes "module.wasm")

-- The round for a file, behind its path.
unfoldable pub add_file : Unpacking → Str → Entry → Result Unpacking InstallError
add_file u path entry = do
  fail_if (ends_with path (codes ".cwasm"))
      (fail invalid_archive (codes "archive contains a precompiled cwasm entry"))
  declared ← labelled invalid_archive (codes "entry size: ") entry.size
  fail_if (is_module path && ltb wasm_max declared)
      (fail invalid_archive (codes "module.wasm exceeds 12 MiB"))
  fail_if (ltb extract_max declared || ltb extract_max (saturating_add u.total declared))
      (fail invalid_archive (codes "extracted archive exceeds 32 MiB"))
  content ← labelled invalid_archive (codes "read entry: ") entry.content
  fail_if (is_module path && ltb wasm_max (length content))
      (fail invalid_archive (codes "module.wasm exceeds 12 MiB"))
  fail_if (ltb extract_max (u.total + length content))
      (fail invalid_archive (codes "extracted archive exceeds 32 MiB"))
  fail_if (has path u.files) (fail invalid_archive (codes "duplicate archive entry: " ++ path))
  ok (record u { files = put path content u.files; total = u.total + length content })

-- One round of the loop.
unfoldable pub unpack_entry : Unpacking → Result Entry Str → Result Unpacking InstallError
unpack_entry u raw = do
  entry ← labelled invalid_archive (codes "archive entry: ") raw
  fail_if (ltb entry_max (u.count + 1))
      (fail invalid_archive (codes "archive has more than 256 entries"))
  is_dir ← is_directory entry.entry_type
  raw_path ← labelled invalid_archive (codes "archive path: ") entry.path
  path ← normalize_rel raw_path
  let counted : Unpacking = record u { count = u.count + 1 }
  elim is_dir [ true ↦ ok counted | false ↦ add_file counted path entry ]

unfoldable pub unpack_entries : Unpacking → List (Result Entry Str) → Result Unpacking InstallError
unpack_entries u [] = ok u
unpack_entries u (raw ∷ rest) = unpack_entry u raw >>= λ v. unpack_entries v rest

unfoldable pub unpack : Codecs → Bytes → Result Files InstallError
unpack codecs bytes = do
  raws ← labelled invalid_archive (codes "archive: ") (codecs.entries bytes)
  u ← unpack_entries (record { files = []; count = 0; total = 0 }) raws
  ok u.files
