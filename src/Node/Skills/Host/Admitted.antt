-- ===== src/Node/Skills/Host/Admitted.antt =====
-- crates/novbot-node/src/skills/mod.rs: the calls that `run_hub` starts the runtime for.
use mathlib.Core.Path.{subst}
use novbot.Common.{
  ◌≡◌, refl, sym, ap, ◌∙◌, ℕ, ◌<◌, ◌≤◌, ◌↔◌, true, false, not, Option, none, some, ltb, Result, ok,
  err, >>=-eq-ok, ok-injective, guard-eq-ok, Result-cases, inl, inr, arith,
}
use novbot.Text.{Str, codes}
use novbot.Text.Maps.{find}
use novbot.Node.Package.{Bytes, Codecs, Manifest}
use novbot.Node.Package.Opening.{parse_manifest}
use novbot.Node.Skills.{ActiveSkill}
use novbot.Node.Skills.World.{Disk, stored_file, decoded}
use novbot.Node.Skills.Host.{Inner}
use novbot.Node.Skills.Host.Guards.{VersionFits, ArgumentsFit, guard_ok_iff, check_arguments_iff}
use novbot.Node.Skills.Host.Run.{
  Checks, LoadedSkill, Identity, HubRun, RunRequest, given, load_installed, guard_ok,
  check_arguments, load_refused, identity_of, start_run, read_manifest,
}

given-eq-ok : {A E : Type 0} (o : Option A) (e : E) {a : A} → given o e ≡ ok a → o ≡ some a
given-eq-ok none e h = absurd cc
given-eq-ok (some a) e h = ap some (ok-injective h)

-- What stands behind a run that is started: the active skill, its files in the store, and what the
-- runtime is given of them.
pub record Admitted (checks : Checks) (codecs : Codecs) (busy : ℕ) (inner : Inner) (disk : Disk)
    (call : HubRun checks) (request : RunRequest checks) : Type 0 where
  pub skill : ActiveSkill
  pub wasm : Bytes
  pub text : Str
  pub manifest : Manifest
  pub active : find call.name inner.skills ≡ some skill
  pub version_fits : VersionFits checks skill.version call.version
  pub module_stored : stored_file disk skill.sha256 (codes "module.wasm") ≡ some wasm
  pub toml_stored : decoded codecs (stored_file disk skill.sha256 (codes "skill.toml")) ≡ some text
  pub described : parse_manifest codecs text ≡ ok manifest
  pub arguments_fit :
      ArgumentsFit checks call.arguments
        (stored_file disk skill.sha256 (codes "schema/params.json"))
  pub addressable : skill.memory_bytes ≤ checks.usize_max
  pub below : busy < inner.run_limit
  pub started_with :
      record {
        component_bytes = wasm;
        grants = manifest.grants;
        params = call.arguments;
        timeout_ms = skill.timeout_ms;
        memory_bytes = skill.memory_bytes;
      }
      ≡ request

-- The files that `load_installed` read.
record Loads (codecs : Codecs) (disk : Disk) (sha256 : Str) (loaded : LoadedSkill) : Type 0 where
  text : Str
  manifest : Manifest
  module_stored : stored_file disk sha256 (codes "module.wasm") ≡ some loaded.wasm
  toml_stored : decoded codecs (stored_file disk sha256 (codes "skill.toml")) ≡ some text
  described : parse_manifest codecs text ≡ ok manifest
  loaded_as :
      record {
        wasm = loaded.wasm;
        grants = manifest.grants;
        schema = stored_file disk sha256 (codes "schema/params.json");
      }
      ≡ loaded

read_manifest-eq-ok :
    (codecs : Codecs) (text : Str) (manifest : Manifest)
    → read_manifest codecs text ≡ ok manifest
    → parse_manifest codecs text ≡ ok manifest
read_manifest-eq-ok codecs text manifest h = elim (Result-cases (parse_manifest codecs text)) [
  | inl (m, e) ↦
      let same : ◌≡◌ {A = Result Manifest Str} (ok m) (ok manifest) = ground arith in
      e ∙ ap ok (ok-injective same)
  | inr (x, e) ↦ absurd (ground arith)
]

load_installed-Loads :
    (codecs : Codecs) (disk : Disk) (sha256 : Str) (loaded : LoadedSkill)
    → load_installed codecs disk sha256 ≡ ok loaded
    → Loads codecs disk sha256 loaded
unfolding load_installed
load_installed-Loads codecs disk sha256 loaded h =
    let (wasm, got_wasm, h1) =
      >>=-eq-ok (given (stored_file disk sha256 (codes "module.wasm")) _) _ {b = loaded} h in
    let (text, got_text, h2) =
      >>=-eq-ok (given (decoded codecs (stored_file disk sha256 (codes "skill.toml"))) _) _
        {b = loaded} h1 in
    let (manifest, read, h3) = >>=-eq-ok (read_manifest codecs text) _ {b = loaded} h2 in
    subst (Loads codecs disk sha256) (ok-injective h3) (record {
      text = text;
      manifest = manifest;
      module_stored = given-eq-ok _ _ got_wasm;
      toml_stored = given-eq-ok _ _ got_text;
      described = read_manifest-eq-ok codecs text manifest read;
      loaded_as = refl;
    })

read_manifest_ok :
    (codecs : Codecs) (text : Str) (manifest : Manifest)
    → parse_manifest codecs text ≡ ok manifest
    → read_manifest codecs text ≡ ok manifest
read_manifest_ok codecs text manifest e = rw (read_manifest, e)

started→Admitted :
    (checks : Checks) (codecs : Codecs) (busy : ℕ) (inner : Inner) (disk : Disk)
    (call : HubRun checks) (request : RunRequest checks)
    → start_run checks codecs busy inner disk call ≡ ok request
    → Admitted checks codecs busy inner disk call request
unfolding start_run
started→Admitted checks codecs busy inner disk call request h =
    let (skill, found, h1) = >>=-eq-ok (given (find call.name inner.skills) _) _ {b = request} h in
    let (guarded, h2) =
      guard-eq-ok (not (guard_ok checks skill.version call.version)) _ _ {a = request} h1 in
    let identity = identity_of checks call.name skill in
    let (loaded, got, h3) =
      >>=-eq-ok (load_refused checks identity (load_installed codecs disk skill.sha256)) _
        {b = request} h2 in
    let (done, matched, h4) =
      >>=-eq-ok (check_arguments checks identity loaded.schema call.arguments) _ {b = request} h3 in
    let (small, h5) = guard-eq-ok (ltb checks.usize_max skill.memory_bytes) _ _ {a = request} h4 in
    let (free, h6) = guard-eq-ok (not (ltb busy inner.run_limit)) _ _ {a = request} h5 in
    let loads =
      load_installed-Loads codecs disk skill.sha256 loaded
        (load_refused-eq-ok identity _ loaded got) in
    record {
      skill = skill;
      wasm = loaded.wasm;
      text = loads.text;
      manifest = loads.manifest;
      active = given-eq-ok _ _ found;
      version_fits = (guard_ok_iff checks skill.version call.version).0 (ground arith);
      module_stored = loads.module_stored;
      toml_stored = loads.toml_stored;
      described = loads.described;
      arguments_fit =
          subst (ArgumentsFit checks call.arguments) (sym (ap LoadedSkill.schema loads.loaded_as))
            ((check_arguments_iff checks identity loaded.schema call.arguments).0 matched);
      addressable = ground arith;
      below = ground arith;
      started_with =
          ap
            (λ (l : LoadedSkill). record {
              component_bytes = loaded.wasm;
              grants = l.grants;
              params = call.arguments;
              timeout_ms = skill.timeout_ms;
              memory_bytes = skill.memory_bytes;
            })
            loads.loaded_as
          ∙ ok-injective h6;
    }
  where
    load_refused-eq-ok :
        (identity : Identity) (r : Result LoadedSkill Str) (loaded : LoadedSkill)
        → load_refused checks identity r ≡ ok loaded
        → r ≡ ok loaded
    load_refused-eq-ok identity (ok l) loaded e = ap ok (ok-injective e)
    load_refused-eq-ok identity (err m) loaded e = absurd cc

Admitted→started :
    (checks : Checks) (codecs : Codecs) (busy : ℕ) (inner : Inner) (disk : Disk)
    (call : HubRun checks) (request : RunRequest checks)
    → Admitted checks codecs busy inner disk call request
    → start_run checks codecs busy inner disk call ≡ ok request
unfolding start_run load_installed
Admitted→started checks codecs busy inner disk call request a =
    let identity = identity_of checks call.name a.skill in
    let fits = (guard_ok_iff checks a.skill.version call.version).1 a.version_fits in
    let schema = stored_file disk a.skill.sha256 (codes "schema/params.json") in
    let checked = (check_arguments_iff checks identity schema call.arguments).1 a.arguments_fit in
    let small : ltb checks.usize_max a.skill.memory_bytes ≡ false = ground (arith, a.addressable) in
    let free : ltb busy inner.run_limit ≡ true = ground (arith, a.below) in
    rw
      (
        a.active,
        fits,
        a.module_stored,
        a.toml_stored,
        read_manifest_ok codecs a.text a.manifest a.described,
        checked,
        small,
        free,
      )
      (ap ok a.started_with)

-- start_run answers with a request exactly if the called skill is active, the version that the
-- call names is none, blank or *, the same as the installed one, or a range that it meets, the
-- store holds the module and a skill.toml that parses, there is no schema or one that the
-- arguments meet, the memory limit fits the process and fewer runs are busy than the limit; the
-- request then has that module, the grants of that skill.toml, the arguments of the call, and the
-- time and memory limits of the active skill.
pub start_run_iff :
    (checks : Checks) (codecs : Codecs) (busy : ℕ) (inner : Inner) (disk : Disk)
    (call : HubRun checks) (request : RunRequest checks)
    → (start_run checks codecs busy inner disk call ≡ ok request)
      ↔ Admitted checks codecs busy inner disk call request
start_run_iff checks codecs busy inner disk call request = (
  started→Admitted checks codecs busy inner disk call request,
  Admitted→started checks codecs busy inner disk call request,
)
