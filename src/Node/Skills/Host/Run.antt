-- ===== src/Node/Skills/Host/Run.antt =====
-- crates/novbot-node/src/skills/mod.rs: `run_hub` up to the start of the runtime, and how the code
-- of a run that failed is named. Versions, JSON and JSON Schema are parameters.
use novbot.Common.{
  ℕ, Bool, true, false, not, ◌||◌, List, [], ◌∷◌, ◌++◌, Option, none, some, ltb, if◌then◌else◌,
  Result, ok, err, ◌>>=◌, ◌>>◌, fail_if, any, is_empty,
}
use novbot.Text.{Str, codes, str_eq, trim}
use novbot.Text.Maps.{find}
use novbot.Core.Tags.Ordering.{str_lt}
use novbot.Node.Package.{Bytes, Codecs, Manifest}
use novbot.Node.Package.Opening.{parse_manifest}
use novbot.Node.Skills.{ActiveSkill}
use novbot.Node.Skills.World.{Disk, stored_file, decoded}
use novbot.Node.Skills.Host.{Inner}

-- semver, and jsonschema on the document without `$schema`, for a type of JSON values.
pub record Checks : Type 1 where
  pub Value : Type 0
  pub Version : Type 0
  pub Validator : Type 0
  pub as_str : Value → Option Str
  pub parse_version : Str → Option Version
  pub same_version : Version → Version → Bool
  pub requirement_matches : Str → Version → Bool
  pub build : Bytes → Option Validator
  pub is_valid : Validator → Value → Bool
  pub error_paths : Validator → Value → List Str
  pub usize_max : ℕ

pub record LoadedSkill : Type 0 where
  pub wasm : Bytes
  pub grants : List Str
  pub schema : Option Bytes

pub record Identity : Type 0 where
  pub name : Str
  pub version : Str
  pub sha256 : Str

-- The fields of the payload that `hub_error` builds.
pub record HubError : Type 0 where
  pub code : Str
  pub message : Str
  pub skill : Option Identity
  pub pointers : Option (List Str)

abbrev pub hub_error : Str → Str → Option Identity → Option (List Str) → HubError
hub_error code message skill pointers = record {
  code = code;
  message = message;
  skill = skill;
  pointers = pointers;
}

abbrev pub given : {A E : Type 0} → Option A → E → Result A E
given none e = err e
given (some a) e = ok a

abbrev pub read_manifest : Codecs → Str → Result Manifest Str
read_manifest codecs text = elim (parse_manifest codecs text) [
  | err e ↦ err (codes "installed skill.toml is invalid")
  | ok manifest ↦ ok manifest
]

unfoldable pub load_installed : Codecs → Disk → Str → Result LoadedSkill Str
load_installed codecs disk sha256 = do
  wasm ←
      given (stored_file disk sha256 (codes "module.wasm"))
        (codes "installed module.wasm is missing")
  text ←
      given (decoded codecs (stored_file disk sha256 (codes "skill.toml")))
        (codes "installed skill.toml is missing")
  manifest ← read_manifest codecs text
  ok (record {
    wasm = wasm;
    grants = manifest.grants;
    schema = stored_file disk sha256 (codes "schema/params.json");
  })

-- `guest_error` and `guest_trap` have other names towards the hub.
unfoldable pub map_run_code : Str → Str
map_run_code code =
    if str_eq code (codes "guest_error")
    then codes "skill_error"
    else if str_eq code (codes "guest_trap")
    then codes "skill_trap"
    else code

-- The round of the loop over the errors, and the loop.
unfoldable pub add_pointer : List Str → Str → List Str
add_pointer pointers path =
    let pointer = if is_empty path then codes "/" else path in
    if any (λ p. str_eq p pointer) pointers then pointers else pointers ++ pointer ∷ []

unfoldable pub add_pointers : List Str → List Str → List Str
add_pointers pointers [] = pointers
add_pointers pointers (path ∷ paths) = add_pointers (add_pointer pointers path) paths

abbrev pub insert_text : Str → List Str → List Str
insert_text s [] = s ∷ []
insert_text s (t ∷ ts) = if str_lt t s then t ∷ insert_text s ts else s ∷ t ∷ ts

unfoldable pub sort_texts : List Str → List Str
sort_texts [] = []
sort_texts (s ∷ ss) = insert_text s (sort_texts ss)

abbrev pub root_if_empty : List Str → List Str
root_if_empty [] = codes "/" ∷ []
root_if_empty (p ∷ ps) = p ∷ ps

module _ (checks : Checks) where
  pub record HubRun : Type 0 where
    pub name : Str
    pub version : Option checks.Value
    pub arguments : checks.Value

  -- What the runtime is started with, for the data directory of the call.
  pub record RunRequest : Type 0 where
    pub component_bytes : Bytes
    pub grants : List Str
    pub params : checks.Value
    pub timeout_ms : ℕ
    pub memory_bytes : ℕ

  abbrev pub exact_or_range : Str → checks.Version → Option checks.Version → Bool
  exact_or_range requirement installed (some exact) = checks.same_version installed exact
  exact_or_range requirement installed none = checks.requirement_matches requirement installed

  abbrev pub version_ok : Str → Option checks.Version → Bool
  version_ok requirement none = false
  version_ok requirement (some installed) =
      exact_or_range requirement installed (checks.parse_version requirement)

  abbrev pub requirement_ok : Str → Option Str → Bool
  requirement_ok installed none = false
  requirement_ok installed (some text) =
      if is_empty (trim text) || str_eq (trim text) (codes "*")
      then true
      else version_ok (trim text) (checks.parse_version installed)

  unfoldable pub version_guard_ok : Str → checks.Value → Bool
  version_guard_ok installed requirement = requirement_ok installed (checks.as_str requirement)

  -- No guard is asked for when the call names no version.
  abbrev pub guard_ok : Str → Option checks.Value → Bool
  guard_ok installed none = true
  guard_ok installed (some requirement) = version_guard_ok installed requirement

  abbrev pub pointers_by : Option checks.Validator → checks.Value → Option (List Str)
  pointers_by none arguments = none
  pointers_by (some validator) arguments =
      if checks.is_valid validator arguments
      then some []
      else some
          (sort_texts (root_if_empty (add_pointers [] (checks.error_paths validator arguments))))

  -- None where the source has `Err`.
  unfoldable pub argument_pointers : Bytes → checks.Value → Option (List Str)
  argument_pointers schema arguments = pointers_by (checks.build schema) arguments

  abbrev pub pointers_refused : Identity → Option (List Str) → Result (Unit {0}) HubError
  pointers_refused identity none = err (
      hub_error (codes "invalid_params") (codes "schema/params.json could not be applied")
        (some identity) (some []))
  pointers_refused identity (some []) = ok tt
  pointers_refused identity (some (p ∷ ps)) = err (
      hub_error (codes "invalid_params") (codes "arguments do not match schema/params.json")
        (some identity) (some (p ∷ ps)))

  abbrev pub check_arguments : Identity → Option Bytes → checks.Value → Result (Unit {0}) HubError
  check_arguments identity none arguments = ok tt
  check_arguments identity (some schema) arguments =
      pointers_refused identity (argument_pointers schema arguments)

  abbrev pub load_refused : Identity → Result LoadedSkill Str → Result LoadedSkill HubError
  load_refused identity (ok loaded) = ok loaded
  load_refused identity (err message) =
      err (hub_error (codes "skill_error") message (some identity) none)

  abbrev pub identity_of : Str → ActiveSkill → Identity
  identity_of name installed = record {
    name = name;
    version = installed.version;
    sha256 = installed.sha256;
  }

  -- `run_hub` up to the start, when `busy` runs hold a permit of the semaphore.
  unfoldable pub start_run : Codecs → ℕ → Inner → Disk → HubRun → Result RunRequest HubError
  start_run codecs busy inner disk run = do
    installed ←
        given (find run.name inner.skills)
          (hub_error (codes "skill_not_installed") (codes "skill is not installed") none none)
    let identity = identity_of run.name installed
    fail_if (not (guard_ok installed.version run.version)) (
        hub_error (codes "version_mismatch")
          (codes "installed version does not satisfy params.version") (some identity) none)
    loaded ← load_refused identity (load_installed codecs disk installed.sha256)
    check_arguments identity loaded.schema run.arguments
    fail_if (ltb checks.usize_max installed.memory_bytes) (
        hub_error (codes "resource_limit") (codes "installed memory cap does not fit this process")
          (some identity) none)
    fail_if (not (ltb busy inner.run_limit)) (
        hub_error (codes "resource_limit") (codes "max_concurrent_runs is busy") (some identity)
          none)
    ok (record {
      component_bytes = loaded.wasm;
      grants = loaded.grants;
      params = run.arguments;
      timeout_ms = installed.timeout_ms;
      memory_bytes = installed.memory_bytes;
    })
