-- ===== src/Runtime/Grant.antt =====
-- crates/novbot-skill-runtime/src/grant.rs: the grammar of grants and the check of a host call.
-- `BTreeMap<String, Vec<Scope>>` is an association list without repeated keys.
pub mod Parsing
pub mod Access
pub mod Authority
use novbot.Common.{
  Bool, true, false, not, ◌&&◌, ◌||◌, List, [], ◌∷◌, ◌++◌, Option, none, some, any, all, is_empty,
  ◌==◌, if◌then◌else◌, Result, ok, err, ◌>>=◌,
}
use mathlib.Core.List.{reverse}
use novbot.Text.{
  Str, codes, str_eq, starts_with, ends_with, contains_char, split, split_once, is_lower, is_upper,
  is_digit,
}
use novbot.Runtime.Glob.{valid_path_glob}
use novbot.Runtime.FilePath.{PathBuf, Fs, glob_matches}
use novbot.Runtime.Deny.{Denylist, denies_fs, denies_env}

pub data DenialReason : Type 0 where
  undeclared_capability out_of_scope cap_is_disabled policy_denied : DenialReason

pub data ScopeRequirement : Type 0 where
  no_scope path_glob env_key : ScopeRequirement

pub record CapabilityDef : Type 0 where
  pub name : Str
  pub scope : ScopeRequirement

abbrev pub def : Str → ScopeRequirement → CapabilityDef
def name scope = record { name = name; scope = scope }

unfoldable pub capabilities : List CapabilityDef
capabilities =
    def (codes "fs.read") path_glob
    ∷ def (codes "fs.stat") path_glob
    ∷ def (codes "fs.list") path_glob
    ∷ def (codes "net.listening_ports.read") no_scope
    ∷ def (codes "sys.info.read") no_scope
    ∷ def (codes "sys.time_sync.read") no_scope
    ∷ def (codes "env.read") env_key
    ∷ def (codes "sys.metrics.read") no_scope
    ∷ def (codes "proc.list.read") no_scope
    ∷ def (codes "net.interfaces.read") no_scope
    ∷ []

-- `CAPABILITIES.iter().find(|def| def.name == name)`.
unfoldable pub find_def : Str → List CapabilityDef → Option CapabilityDef
find_def name [] = none
find_def name (d ∷ defs) = if str_eq d.name name then some d else find_def name defs

pub data GrantError : Type 0 where
  malformed unsupported : Str → GrantError

pub record EnvPattern : Type 0 where
  pub prefix : Str
  pub wildcard : Bool

unfoldable pub env_pattern_matches : EnvPattern → Str → Bool
env_pattern_matches p key = if p.wildcard then starts_with key p.prefix else str_eq key p.prefix

pub data Scope : Type 0 where
  path : Str → Scope
  env : EnvPattern → Scope
  bare : Scope

abbrev pub ScopeMap : Type 0
ScopeMap = List (Str × List Scope)

pub record GrantSet : Type 0 where
  pub by_name : ScopeMap

unfoldable pub valid_segment : Str → Bool
valid_segment [] = false
valid_segment (c ∷ s) =
    if is_lower c then all (λ d. is_lower d || is_digit d || d == b'_') s else false

unfoldable pub valid_cap_parts : List Str → Bool
valid_cap_parts (first ∷ second ∷ []) = valid_segment first && valid_segment second
valid_cap_parts (first ∷ second ∷ third ∷ []) =
    if not (valid_segment first) || not (valid_segment second) then false else valid_segment third
valid_cap_parts _ = false

unfoldable pub valid_cap_name : Str → Bool
valid_cap_name name = valid_cap_parts (split name b'.')

unfoldable pub named : Str → Str → Option Str → Result (Str × Option Str) GrantError
named grant name scope =
    if not (valid_cap_name name) then err (malformed grant) else ok (name, scope)

unfoldable pub split_grant : Str → Result (Str × Option Str) GrantError
split_grant grant =
    if is_empty grant || contains_char grant 0
    then err (malformed grant)
    else elim (split_once grant b':') [
      | some (name, scope) ↦
          if is_empty scope then err (malformed grant) else named grant name (some scope)
      | none ↦ named grant grant none
    ]

-- `scope.strip_suffix('*')`, of a scope that ends in `*`.
unfoldable pub without_last : Str → Str
without_last [] = []
without_last (c ∷ []) = []
without_last (c ∷ d ∷ s) = c ∷ without_last (d ∷ s)

unfoldable pub env_core_ok : Str → Bool
env_core_ok [] = false
env_core_ok (c ∷ s) =
    if is_upper c || c == b'_' then all (λ d. is_upper d || is_digit d || d == b'_') s else false

unfoldable pub parse_env_scope : Str → Option EnvPattern
parse_env_scope scope =
    let wildcard = ends_with scope (codes "*") in
    let core = if wildcard then without_last scope else scope in
    if env_core_ok core then some (record { prefix = core; wildcard = wildcard }) else none

-- The `match (def.scope, scope)` of `GrantSet::parse`.
unfoldable pub parse_scope : Str → ScopeRequirement → Option Str → Result Scope GrantError
parse_scope grant no_scope none = ok bare
parse_scope grant no_scope (some scope) = err (malformed grant)
parse_scope grant path_glob (some scope) =
    if valid_path_glob scope then ok (path scope) else err (malformed grant)
parse_scope grant path_glob none = err (malformed grant)
parse_scope grant env_key (some scope) = elim (parse_env_scope scope) [
  | none ↦ err (malformed grant)
  | some p ↦ ok (env p)
]
parse_scope grant env_key none = err (malformed grant)

unfoldable pub require_def : Str → Option CapabilityDef → Result CapabilityDef GrantError
require_def grant none = err (unsupported grant)
require_def grant (some d) = ok d

-- One round of the loop: the name and the scope that are pushed.
unfoldable pub parse_one : Str → Result (Str × Scope) GrantError
parse_one grant = do
  (name, scope) ← split_grant grant
  d ← require_def grant (find_def name capabilities)
  parsed ← parse_scope grant d.scope scope
  ok (name, parsed)

-- `by_name.entry(name).or_default().push(scope)`.
unfoldable pub push_scope : Str → Scope → ScopeMap → ScopeMap
push_scope name scope [] = (name, scope ∷ []) ∷ []
push_scope name scope ((n, scopes) ∷ m) =
    if str_eq n name then (n, scopes ++ scope ∷ []) ∷ m else (n, scopes) ∷ push_scope name scope m

unfoldable pub parse_from : ScopeMap → List Str → Result GrantSet GrantError
parse_from m [] = ok (record { by_name = m })
parse_from m (grant ∷ grants) = do
  (name, scope) ← parse_one grant
  parse_from (push_scope name scope m) grants

unfoldable pub parse : List Str → Result GrantSet GrantError
parse grants = parse_from [] grants

unfoldable pub lookup : Str → ScopeMap → Option (List Scope)
lookup name [] = none
lookup name ((n, scopes) ∷ m) = if str_eq n name then some scopes else lookup name m

-- `BTreeMap::contains_key`, from what `lookup` gives.
abbrev pub contains_key : Option (List Scope) → Bool
contains_key none = false
contains_key (some scopes) = true

unfoldable pub declares : GrantSet → Str → Bool
declares gs name = contains_key (lookup name gs.by_name)

-- `is_some_and(|scopes| scopes.iter().any(test))`.
abbrev pub any_scope : (Scope → Bool) → Option (List Scope) → Bool
any_scope test none = false
any_scope test (some scopes) = any test scopes

unfoldable pub scope_covers_path : Fs → PathBuf → Scope → Bool
scope_covers_path fs candidate (path glob) = glob_matches fs glob candidate
scope_covers_path fs candidate (env p) = false
scope_covers_path fs candidate bare = false

unfoldable pub scope_covers_key : Str → Scope → Bool
scope_covers_key key (env p) = env_pattern_matches p key
scope_covers_key key (path glob) = false
scope_covers_key key bare = false

unfoldable pub path_matches : Fs → GrantSet → Str → PathBuf → Bool
path_matches fs gs name candidate =
    any_scope (scope_covers_path fs candidate) (lookup name gs.by_name)

unfoldable pub env_matches : GrantSet → Str → Str → Bool
env_matches gs name key = any_scope (scope_covers_key key) (lookup name gs.by_name)

pub data CheckTarget : Type 0 where
  no_target : CheckTarget
  at_path : PathBuf → CheckTarget
  at_key : Str → CheckTarget

unfoldable pub cap_disabled : CapabilityDef → Bool
cap_disabled d = false

unfoldable pub check_scope :
    Fs
    → GrantSet
    → Str
    → CapabilityDef
    → ScopeRequirement
    → CheckTarget
    → Denylist
    → Result (Unit {0}) DenialReason
check_scope fs gs name d no_scope _ deny = if cap_disabled d then err cap_is_disabled else ok tt
check_scope fs gs name d path_glob (at_path candidate) deny =
    if not (path_matches fs gs name candidate)
    then err out_of_scope
    else if cap_disabled d
    then err cap_is_disabled
    else if denies_fs deny candidate
    then err policy_denied
    else ok tt
check_scope fs gs name d env_key (at_key key) deny =
    if not (env_matches gs name key)
    then err out_of_scope
    else if cap_disabled d
    then err cap_is_disabled
    else if denies_env key
    then err policy_denied
    else ok tt
check_scope fs gs name d _ _ deny = err out_of_scope

unfoldable pub check : Fs → GrantSet → Str → CheckTarget → Denylist → Result (Unit {0}) DenialReason
check fs gs name target deny = elim (find_def name capabilities) [
  | none ↦ err undeclared_capability
  | some d ↦
      if not (declares gs name)
      then err undeclared_capability
      else check_scope fs gs name d d.scope target deny
]
