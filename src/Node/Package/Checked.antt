-- ===== src/Node/Package/Checked.antt =====
-- crates/novbot-node/src/skills/package.rs: what holds of a package that `open_package` returns.
use mathlib.Core.Path.{◌≡◌, sym, subst}
use novbot.Common.{
  ◌*◌, ◌≤◌, true, not, List, [], ◌∷◌, some, ok, length, ltb, Option-cases, inl, inr, ◌≢◌, All, Any,
  any, any→Any, Any-map, arith, >>=-eq-ok, ok-injective, guard-eq-ok,
}
use novbot.Text.{Str, codes, str_eq}
use novbot.Text.Laws.{str_eq_iff}
use novbot.Text.Maps.{find, has}
use novbot.Node.Package.{Bytes, Files, Codecs, Manifest, Package, abi, package_max, catalog, ok_or}
use novbot.Node.Package.Archive.{unpack}
use novbot.Node.Package.Unpacked.{size_of, IsStorable, unpack-IsStorable}
use novbot.Node.Package.Hashes.{
  ok_or-eq-ok, IsVerified, verify_file_hashes-IsVerified, verify_file_hashes-covers,
}
use novbot.Node.Package.Opening.{
  parse_manifest, check_expected, verify_file_hashes, check_grants, grant_name, load_package_inner,
  open_package,
}

-- A grant of a capability in the node's catalog.
abbrev pub IsKnownGrant : Str → Type 0
IsKnownGrant grant = Any (λ name. name ≡ grant_name grant) catalog

-- A package that the node may install under a name and a version.
pub record IsChecked (codecs : Codecs) (name version : Str) (pkg : Package) : Type 0 where
  pub named : (pkg.manifest.name ≡ name) × (pkg.manifest.version ≡ version)
  pub compatible : pkg.manifest.manifest_abi ≡ abi
  pub few_files : length pkg.files ≤ 256
  pub bounded : size_of pkg.files ≤ 32 * 1024 * 1024
  pub storable : All IsStorable pkg.files
  pub verified : All (IsVerified codecs pkg.files) pkg.manifest.files
  pub runnable : (wasm : Bytes) × (find (codes "module.wasm") pkg.files ≡ some wasm)
  pub granted : All IsKnownGrant pkg.manifest.grants

check_grants-All :
    (grants : List Str) {d : Unit {0}} → check_grants grants ≡ ok d → All IsKnownGrant grants
unfolding check_grants
check_grants-All [] h = tt
check_grants-All (grant ∷ grants) {d} h =
    let (known, rest) = guard-eq-ok (not (any (str_eq (grant_name grant)) catalog)) _ _ {a = d} h in
    (
      Any-map catalog (λ n e. sym ((str_eq_iff (grant_name grant) n).0 e))
          (any→Any (str_eq (grant_name grant)) catalog (ground arith)),
      check_grants-All grants rest,
    )

check_expected-named :
    (m : Manifest) (name version : Str) {d : Unit {0}}
    → check_expected m (some (name, version)) ≡ ok d
    → (m.name ≡ name) × (m.version ≡ version)
unfolding check_expected
check_expected-named m name version h =
    ((str_eq_iff m.name name).0 (ground arith), (str_eq_iff m.version version).0 (ground arith))

has→found : (k : Str) (files : Files) → has k files ≡ true → (v : Bytes) × (find k files ≡ some v)
has→found k files h = elim (Option-cases (find k files)) [
  | inl missing ↦ absurd (ground arith)
  | inr (v, e) ↦ (v, e)
]

-- The manifest is that of the package's skill.toml.
abbrev pub IsDescribed : Codecs → Package → Type 0
IsDescribed codecs pkg =
    (bytes : Bytes) × (find (codes "skill.toml") pkg.files ≡ some bytes)
    × (text : Str) × (codecs.from_utf8 bytes ≡ some text)
    × (parse_manifest codecs text ≡ ok pkg.manifest)

-- The parts of a run of `load_package_inner` that succeeds.
pub record Loaded (codecs : Codecs) (bytes : Bytes) (name version : Str) (pkg : Package)
    : Type 0 where
  unpacked : unpack codecs bytes ≡ ok pkg.files
  pub described : IsDescribed codecs pkg
  named : check_expected pkg.manifest (some (name, version)) ≡ ok tt
  same_abi : str_eq pkg.manifest.manifest_abi abi ≡ true
  hashed : verify_file_hashes codecs pkg.files pkg.manifest.files ≡ ok tt
  has_module : has (codes "module.wasm") pkg.files ≡ true
  grants_ok : check_grants pkg.manifest.grants ≡ ok tt
  fits : length bytes ≤ 16 * 1024 * 1024

pub open_package-Loaded :
    (codecs : Codecs) (bytes : Bytes) (name version : Str) (pkg : Package)
    → open_package codecs bytes name version ≡ ok pkg
    → Loaded codecs bytes name version pkg
unfolding open_package load_package_inner
open_package-Loaded codecs bytes name version pkg e =
    let (small, e0) = guard-eq-ok (ltb package_max (length bytes)) _ _ {a = pkg} e in
    let (files, got_files, e1) = >>=-eq-ok (unpack codecs bytes) _ {b = pkg} e0 in
    let (toml_bytes, got_toml, e2) =
      >>=-eq-ok (ok_or (find (codes "skill.toml") files) _) _ {b = pkg} e1 in
    let (text, got_text, e3) = >>=-eq-ok (ok_or (codecs.from_utf8 toml_bytes) _) _ {b = pkg} e2 in
    let (manifest, parsed, e4) = >>=-eq-ok (parse_manifest codecs text) _ {b = pkg} e3 in
    let (d1, expected, e5) =
      >>=-eq-ok (check_expected manifest (some (name, version))) _ {b = pkg} e4 in
    let (abi_ok, e6) = guard-eq-ok (not (str_eq manifest.manifest_abi abi)) _ _ {a = pkg} e5 in
    let (d2, hashed, e7) =
      >>=-eq-ok (verify_file_hashes codecs files manifest.files) _ {b = pkg} e6 in
    let (module_ok, e8) = guard-eq-ok (not (has (codes "module.wasm") files)) _ _ {a = pkg} e7 in
    let (d3, granted, e9) = >>=-eq-ok (check_grants manifest.grants) _ {b = pkg} e8 in
    let whole : record { manifest = manifest; files = files } ≡ pkg = ok-injective e9 in
    subst (Loaded codecs bytes name version) whole (record {
      unpacked = got_files;
      described = (
        toml_bytes,
        ok_or-eq-ok (find (codes "skill.toml") files) _ got_toml,
        text,
        ok_or-eq-ok (codecs.from_utf8 toml_bytes) _ got_text,
        parsed,
      );
      named = expected;
      same_abi = ground arith;
      hashed = hashed;
      has_module = ground arith;
      grants_ok = granted;
      fits = ground arith;
    })

-- A package that open_package returns has the wanted name and version and the ABI of the node, at
-- most 256 files of at most 32 MiB in all, each under a relative path of plain file names and
-- none of them precompiled, all declared files with their declared digests, a module, and only
-- grants of the catalog.
pub open_package-IsChecked :
    (codecs : Codecs) (bytes : Bytes) (name version : Str) (pkg : Package)
    → open_package codecs bytes name version ≡ ok pkg
    → IsChecked codecs name version pkg
open_package-IsChecked codecs bytes name version pkg e =
    let l = open_package-Loaded codecs bytes name version pkg e in
    let (few, (bounded, storable)) = unpack-IsStorable codecs bytes l.unpacked in
    record {
      named = check_expected-named pkg.manifest name version l.named;
      compatible = (str_eq_iff pkg.manifest.manifest_abi abi).0 l.same_abi;
      few_files = few;
      bounded = bounded;
      storable = storable;
      verified = verify_file_hashes-IsVerified codecs pkg.files pkg.manifest.files l.hashed;
      runnable = has→found (codes "module.wasm") pkg.files l.has_module;
      granted = check_grants-All pkg.manifest.grants l.grants_ok;
    }

-- Every file of a package that open_package returns, other than skill.toml, is declared in the
-- manifest with the digest of its content.
pub open_package-covers :
    (codecs : Codecs) (bytes : Bytes) (name version : Str) (pkg : Package) (path : Str)
    (content : Bytes)
    → open_package codecs bytes name version ≡ ok pkg
    → find path pkg.files ≡ some content
    → path ≢ codes "skill.toml"
    → Any (λ entry. entry ≡ (path, codecs.sha256_hex content)) pkg.manifest.files
open_package-covers codecs bytes name version pkg path content e found ne =
    verify_file_hashes-covers codecs pkg.files pkg.manifest.files path content
      (open_package-Loaded codecs bytes name version pkg e).hashed found ne
