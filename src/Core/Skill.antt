-- ===== src/Core/Skill.antt =====
-- crates/novbot-core/src/skill.rs: the registry of in-process skills. The operations of
-- `serde_json::Value` and the host (environment, host name file, platform) are parameters.
pub mod Sensitive
pub mod Registry
use novbot.Common.{
  ℕ, Bool, true, false, not, ◌&&◌, ◌||◌, List, [], ◌∷◌, ◌++◌, Option, none, some, if◌then◌else◌,
  is_empty, Result, ok, err, ◌>>=◌,
}
use novbot.Text.{Str, codes, str_eq, to_ascii_lowercase, contains, ends_with, trim}

-- `entries` is `as_object` with the pairs of the object.
pub record Json : Type 1 where
  pub Value : Type 0
  pub get : Value → Str → Option Value
  pub as_str : Value → Option Str
  pub entries : Value → Option (List (Str × Value))
  pub object : List (Str × Value) → Value
  pub string : Str → Value
  pub bool : Bool → Value
  pub null : Value

pub record Host : Type 0 where
  pub var : Str → Option Str
  pub hostname_file : Option Str
  pub os : Str
  pub arch : Str
  pub family : Str

-- The constructors of `ProbeError` that skills use: one.
pub data ProbeError : Type 0 where
  params : Str → ProbeError

abbrev pub and_then {ℓ κ} : {A : Type ℓ} {B : Type κ} → Option A → (A → Option B) → Option B
and_then none f = none
and_then (some a) f = f a

abbrev pub ok_or {ℓ} : {A : Type ℓ} → Option A → Str → Result A ProbeError
ok_or none message = err (params message)
ok_or (some a) message = ok a

-- The test of `skill_env_get` on a key.
unfoldable pub looks_sensitive : Str → Bool
looks_sensitive key =
    let lower = to_ascii_lowercase key in
    contains lower (codes "secret")
    || contains lower (codes "password")
    || contains lower (codes "token")
    || contains lower (codes "api_key")
    || ends_with lower (codes "_key")

unfoldable pub hostname_string : Host → Str
hostname_string host =
    let from_env : Str = elim (host.var (codes "HOSTNAME")) [
      | some h ↦ h
      | none ↦ codes "unknown"
    ] in
    elim (host.hostname_file) [
      | none ↦ from_env
      | some h ↦ if is_empty (trim h) then from_env else trim h
    ]

unfoldable pub list_skills : List Str
list_skills = codes "host_info" ∷ codes "echo" ∷ codes "env_get" ∷ []

unfoldable pub unknown_message : Str → Str
unknown_message other =
    codes "unknown skill/tool: " ++ other ++ codes " (known: host_info, echo, env_get)"

module _ (json : Json) where
  pub record ProbeOutcome : Type 0 where
    pub status : Str
    pub payload : json.Value

  abbrev pub Answer : Type 0
  Answer = Result ProbeOutcome ProbeError

  abbrev pub outcome : Str → List (Str × json.Value) → ProbeOutcome
  outcome status fields = record { status = status; payload = json.object fields }

  unfoldable pub skill_host_info : Host → ProbeOutcome
  skill_host_info host = outcome (codes "ok") (
      (codes "skill", json.string (codes "host_info"))
      ∷ (codes "hostname", json.string (hostname_string host))
      ∷ (codes "os", json.string host.os)
      ∷ (codes "arch", json.string host.arch)
      ∷ (codes "family", json.string host.family)
      ∷ [])

  unfoldable pub skill_echo : json.Value → ProbeOutcome
  skill_echo arguments =
      outcome (codes "ok")
        ((codes "skill", json.string (codes "echo")) ∷ (codes "arguments", arguments) ∷ [])

  -- The answer of `env_get` for a key, from what the environment holds under it.
  unfoldable pub env_answer : Str → Option Str → ProbeOutcome
  env_answer key none = outcome (codes "fail") (
      (codes "skill", json.string (codes "env_get"))
      ∷ (codes "key", json.string key)
      ∷ (codes "present", json.bool false)
      ∷ (codes "value", json.null)
      ∷ [])
  env_answer key (some value) = outcome (codes "ok") (
      (codes "skill", json.string (codes "env_get"))
      ∷ (codes "key", json.string key)
      ∷ (codes "present", json.bool true)
      ∷ (codes "value", json.string value)
      ∷ [])

  unfoldable pub refusal : Str → ProbeOutcome
  refusal key = outcome (codes "fail") (
      (codes "skill", json.string (codes "env_get"))
      ∷ (codes "key", json.string key)
      ∷ (codes "error", json.string (codes "refused: key looks sensitive"))
      ∷ [])

  unfoldable pub skill_env_get : Host → json.Value → Answer
  skill_env_get host arguments =
      ok_or (and_then (json.get arguments (codes "key")) json.as_str)
        (codes "env_get requires arguments.key")
      >>= λ key.
          if looks_sensitive key then ok (refusal key) else ok (env_answer key (host.var key))

  unfoldable pub invoke_skill : Host → Str → json.Value → Answer
  invoke_skill host name arguments =
      if str_eq name (codes "host_info")
      then ok (skill_host_info host)
      else if str_eq name (codes "echo")
      then ok (skill_echo arguments)
      else if str_eq name (codes "env_get")
      then skill_env_get host arguments
      else err (params (unknown_message name))

  -- `get("arguments").cloned().unwrap_or_else(|| json!({}))`.
  unfoldable pub arguments_of : json.Value → json.Value
  arguments_of value = elim (json.get value (codes "arguments")) [
    | some a ↦ a
    | none ↦ json.object []
  ]

  -- The pairs but those under `skill` and `arguments`.
  unfoldable pub other_params : List (Str × json.Value) → List (Str × json.Value)
  other_params [] = []
  other_params ((k, v) ∷ pairs) =
      let rest = other_params pairs in
      if not (str_eq k (codes "skill")) && not (str_eq k (codes "arguments"))
      then (k, v) ∷ rest
      else rest

  -- `arguments.as_object().map(|o| o.is_empty()).unwrap_or(true)`.
  abbrev pub lacks_fields : Option (List (Str × json.Value)) → Bool
  lacks_fields none = true
  lacks_fields (some pairs) = is_empty pairs

  -- The last `if let` of `skill_from_params`.
  unfoldable pub flowing : json.Value → Option (List (Str × json.Value)) → json.Value
  flowing arguments none = arguments
  flowing arguments (some pairs) =
      let others = other_params pairs in
      if lacks_fields (json.entries arguments)
      then if is_empty others then arguments else json.object others
      else arguments

  unfoldable pub skill_from_params : Bool → json.Value → Result (Str × json.Value) ProbeError
  skill_from_params true value = do
    tool ←
        ok_or (and_then (json.get value (codes "tool")) json.as_str)
          (codes "mcp_tool requires params.tool")
    ok (tool, arguments_of value)
  skill_from_params false value = do
    skill ←
        ok_or (and_then (json.get value (codes "skill")) json.as_str)
          (codes "skill requires params.skill")
    ok (skill, flowing (arguments_of value) (json.entries value))
