-- ===== src/Node/Package/Unpacked.antt =====
-- crates/novbot-node/src/skills/package.rs: what `unpack` lets through.
use mathlib.Core.Path.{◌≡◌, refl, subst}
use novbot.Common.{
  ℕ, ◌+◌, ◌*◌, ◌≤◌, suc, false, ◌&&◌, ◌||◌, List, [], ◌∷◌, ltb, Result, ok, length, Bool-cases, inl,
  inr, ◌⊎◌, All, arith, >>=-eq-ok, ok-injective, guard-eq-ok,
}
use novbot.Text.{Str, codes, str_eq, ends_with}
use novbot.Text.Maps.{has, put, All-put}
use novbot.Core.Tags.Ordering.{str_lt}
use novbot.Node.Package.{
  extract_max, entry_max, wasm_max, invalid_archive, labelled, Bytes, Files, Entry, Codecs,
  normalize_rel,
}
use novbot.Node.Package.Paths.{IsRelative, normalize_rel-IsRelative}
use novbot.Node.Package.Archive.{
  Unpacking, is_module, is_directory, add_file, unpack_entry, unpack_entries, unpack,
  saturating_add,
}

-- The bytes of all files.
abbrev pub size_of : Files → ℕ
size_of [] = 0
size_of ((path, content) ∷ files) = length content + size_of files

-- A file that may be stored: a relative path that does not end in `.cwasm`, and if it is the
-- module, at most 12 MiB.
abbrev pub IsStorable : Str × Bytes → Type 0
IsStorable (path, content) =
    IsRelative path
    × ((ends_with path (codes ".cwasm") ≡ false)
        × ((is_module path ≡ false) ⊎ (length content ≤ 12 * 1024 * 1024)))

-- The loop's invariant.
pub record IsBounded (u : Unpacking) : Type 0 where
  pub few : u.count ≤ 256
  pub counted : length u.files ≤ u.count
  pub summed : u.total ≡ size_of u.files
  pub small : u.total ≤ 32 * 1024 * 1024
  pub storable : All IsStorable u.files

size_of-put :
    (k : Str) (v : Bytes) (m : Files) → has k m ≡ false → size_of (put k v m) ≡ length v + size_of m
size_of-put k v [] h = omega arith
size_of-put k v ((j, w) ∷ m) h = elim (Bool-cases (str_lt k j)) [
  | inl less ↦ rw less refl
  | inr more ↦ elim (Bool-cases (str_eq j k)) [
    | inl same ↦ absurd (ground arith)
    | inr other ↦
        let ih = size_of-put k v m (rw (other, has) at h) in rw (more, other) (omega arith)
  ]
]

length-put : (k : Str) (v : Bytes) (m : Files) → length (put k v m) ≤ suc (length m)
length-put k v [] = omega arith
length-put k v ((j, w) ∷ m) = ground (arith, length-put k v m)

within : (m n : ℕ) → ltb m n ≡ false → n ≤ m
within m n h = ground arith

module_size :
    (path : Str) (content : Bytes)
    → (is_module path && ltb wasm_max (length content)) ≡ false
    → (is_module path ≡ false) ⊎ (length content ≤ 12 * 1024 * 1024)
module_size path content h = elim (Bool-cases (is_module path)) [
  | inr other ↦ inl other
  | inl wasm ↦ inr (within wasm_max (length content) (rw wasm at h))
]

add_file-IsBounded :
    (u v : Unpacking) (path : Str) (entry : Entry)
    → IsRelative path
    → IsBounded u
    → suc (length u.files) ≤ u.count
    → add_file u path entry ≡ ok v
    → IsBounded v
unfolding add_file
add_file-IsBounded u v path entry rel inv room e =
    let (plain, e1) = guard-eq-ok (ends_with path (codes ".cwasm")) _ _ {a = v} e in
    let (declared, has_size, e2) =
      >>=-eq-ok (labelled invalid_archive (codes "entry size: ") entry.size) _ {b = v} e1 in
    let (_, e3) = guard-eq-ok (is_module path && ltb wasm_max declared) _ _ {a = v} e2 in
    let (_, e4) =
      guard-eq-ok (ltb extract_max declared || ltb extract_max (saturating_add u.total declared)) _
        _ {a = v} e3 in
    let (content, read, e5) =
      >>=-eq-ok (labelled invalid_archive (codes "read entry: ") entry.content) _ {b = v} e4 in
    let (fits, e6) = guard-eq-ok (is_module path && ltb wasm_max (length content)) _ _ {a = v} e5 in
    let (sum_fits, e7) = guard-eq-ok (ltb extract_max (u.total + length content)) _ _ {a = v} e6 in
    let (fresh, e8) = guard-eq-ok (has path u.files) _ _ {a = v} e7 in
    let small = within extract_max (u.total + length content) sum_fits in
    let storable : IsStorable (path, content) = (rel, (plain, module_size path content fits)) in
    let summed = size_of-put path content u.files fresh in
    let longer = length-put path content u.files in
    subst IsBounded (ok-injective e8) (record {
      few = inv.few;
      counted = omega arith;
      summed = omega (arith, summed, inv.summed);
      small = small;
      storable = All-put IsStorable path content u.files storable inv.storable;
    })

unpack_entry-IsBounded :
    (u v : Unpacking) (raw : Result Entry Str)
    → IsBounded u
    → unpack_entry u raw ≡ ok v
    → IsBounded v
unfolding unpack_entry
unpack_entry-IsBounded u v raw inv e =
    let (entry, _, e1) =
      >>=-eq-ok (labelled invalid_archive (codes "archive entry: ") raw) _ {b = v} e in
    let (few, e2) = guard-eq-ok (ltb entry_max (u.count + 1)) _ _ {a = v} e1 in
    let (is_dir, _, e3) = >>=-eq-ok (is_directory entry.entry_type) _ {b = v} e2 in
    let (raw_path, _, e4) =
      >>=-eq-ok (labelled invalid_archive (codes "archive path: ") entry.path) _ {b = v} e3 in
    let (path, got, e5) = >>=-eq-ok (normalize_rel raw_path) _ {b = v} e4 in
    let counted : Unpacking = record u { count = u.count + 1 } in
    let bound = within entry_max (u.count + 1) few in
    let inv' : IsBounded counted = record {
      few = bound;
      counted = omega (arith, inv.counted);
      summed = inv.summed;
      small = inv.small;
      storable = inv.storable;
    } in
    elim (Bool-cases is_dir) [
      | inl dir ↦ subst IsBounded (ok-injective (rw dir at e5)) inv'
      | inr file ↦
          add_file-IsBounded counted v path entry (normalize_rel-IsRelative raw_path got) inv'
            (omega (arith, inv.counted)) (rw file at e5)
    ]

unpack_entries-IsBounded :
    (u v : Unpacking) (raws : List (Result Entry Str))
    → IsBounded u
    → unpack_entries u raws ≡ ok v
    → IsBounded v
unfolding unpack_entries
unpack_entries-IsBounded u v [] inv e = subst IsBounded (ok-injective e) inv
unpack_entries-IsBounded u v (raw ∷ raws) inv e =
    let (w, step, rest) = >>=-eq-ok (unpack_entry u raw) _ {b = v} e in
    unpack_entries-IsBounded w v raws (unpack_entry-IsBounded u w raw inv step) rest

pub unpack-IsStorable :
    (codecs : Codecs) (bytes : Bytes) {files : Files}
    → unpack codecs bytes ≡ ok files
    → (length files ≤ 256) × ((size_of files ≤ 32 * 1024 * 1024) × All IsStorable files)
unfolding unpack
unpack-IsStorable codecs bytes {files} e =
    let (raws, _, e1) =
      >>=-eq-ok (labelled invalid_archive (codes "archive: ") (codecs.entries bytes)) _ {b = files}
        e in
    let (u, run, last) =
      >>=-eq-ok (unpack_entries (record { files = []; count = 0; total = 0 }) raws) _ {b = files}
        e1 in
    let inv =
      unpack_entries-IsBounded (record { files = []; count = 0; total = 0 }) u raws
        (record {
          few = omega arith;
          counted = omega arith;
          summed = refl;
          small = omega arith;
          storable = tt;
        })
        run in
    let same : u.files ≡ files = ok-injective last in
    subst (λ l. (length l ≤ 256) × ((size_of l ≤ 32 * 1024 * 1024) × All IsStorable l)) same
      (omega (arith, inv.few, inv.counted), (omega (arith, inv.small, inv.summed), inv.storable))
