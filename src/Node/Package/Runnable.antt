-- ===== src/Node/Package/Runnable.antt =====
-- crates/novbot-node/src/skills/package.rs: the module of a package, and the digest that its
-- skill.toml names for it.
use novbot.Common.{
  ◌≡◌, ◌≢◌, refl, sym, ap, ◌∙◌, List, [], ◌∷◌, some, ok, Any, here, there, Bool-cases, inl, inr,
  arith,
}
use novbot.Text.{Str, codes, str_eq}
use novbot.Text.Laws.{str_eq_iff}
use novbot.Text.Maps.{find, All-find}
use novbot.Node.Package.{Bytes, Codecs, Package, Manifest}
use novbot.Node.Package.Opening.{parse_manifest, module_hash_from_toml, open_package}
use novbot.Node.Package.Hashes.{IsVerified}
use novbot.Node.Package.Checked.{open_package-Loaded, open_package-IsChecked, open_package-covers}

Any-found :
    (k v : Str) (entries : List (Str × Str))
    → Any (λ entry. entry ≡ (k, v)) entries
    → (u : Str) × (find k entries ≡ some u)
Any-found k v [] h = elim h [ ]
Any-found k v ((j, u) ∷ entries) (here e) =
    let key : j ≡ k = ap (λ (entry : Str × Str). entry.0) e in (u, ground (arith, str_eq_iff j k))
Any-found k v ((j, u) ∷ entries) (there h) = elim (Bool-cases (str_eq j k)) [
  | inl same ↦ (u, ground arith)
  | inr other ↦ let found = Any-found k v entries h in (found.0, ground arith)
]

-- A package with a module that has the digest of its skill.toml.
pub record IsRunnable (codecs : Codecs) (pkg : Package) : Type 0 where
  pub toml : Bytes
  pub text : Str
  pub hash : Str
  pub wasm : Bytes
  pub has_toml : find (codes "skill.toml") pkg.files ≡ some toml
  pub readable : codecs.from_utf8 toml ≡ some text
  pub names_hash : module_hash_from_toml codecs text ≡ ok hash
  pub has_module : find (codes "module.wasm") pkg.files ≡ some wasm
  pub matches : codecs.sha256_hex wasm ≡ hash

module_apart : codes "module.wasm" ≢ codes "skill.toml"
module_apart e = absurd cc

hash_of :
    (codecs : Codecs) (text : Str) (manifest : Manifest) (hash : Str)
    → parse_manifest codecs text ≡ ok manifest
    → find (codes "module.wasm") manifest.files ≡ some hash
    → module_hash_from_toml codecs text ≡ ok hash
unfolding module_hash_from_toml
hash_of codecs text manifest hash parsed named = rw parsed (rw named refl)

pub open_package-IsRunnable :
    (codecs : Codecs) (bytes : Bytes) (name version : Str) (pkg : Package)
    → open_package codecs bytes name version ≡ ok pkg
    → IsRunnable codecs pkg
open_package-IsRunnable codecs bytes name version pkg e =
    let checked = open_package-IsChecked codecs bytes name version pkg e in
    let (toml, has_toml, text, readable, parsed) =
      (open_package-Loaded codecs bytes name version pkg e).described in
    let (wasm, has_wasm) = checked.runnable in
    let named = Any-found (codes "module.wasm") (codecs.sha256_hex wasm) pkg.manifest.files (
      open_package-covers codecs bytes name version pkg (codes "module.wasm") wasm e has_wasm
        module_apart) in
    let (content, there_, digest) =
      All-find (IsVerified codecs pkg.files) (codes "module.wasm") named.0 pkg.manifest.files
        checked.verified named.1 in
    let one : some content ≡ some wasm = sym there_ ∙ has_wasm in
    let same : content ≡ wasm = cc in
    record {
      toml = toml;
      text = text;
      hash = named.0;
      wasm = wasm;
      has_toml = has_toml;
      readable = readable;
      names_hash = hash_of codecs text pkg.manifest named.0 parsed named.1;
      has_module = has_wasm;
      matches = ap codecs.sha256_hex (sym same) ∙ digest;
    }
