-- ===== src/Node/Skills.antt =====
-- crates/novbot-node/src/skills/mod.rs: the skills that are installed on a node. The children hold
-- the disk (World), the installation of one skill (Install) and `SkillHost` (Reconcile).
-- A Duration is a number of nanoseconds. A generation is an i64, held as its distance from the
-- least one, since the code only compares generations and resets them to zero.
pub mod World
pub mod Proto
pub mod Install
pub mod Host
use novbot.Common.{
  ℕ, suc, zero, ◌+◌, ◌-◌, ◌*◌, ◌/◌, ◌%◌, ◌^◌, Bool, true, false, not, ◌&&◌, ◌||◌, List, [], ◌∷◌,
  ◌++◌, Option, none, some, ltb, leb, ◌==◌, if◌then◌else◌, any, length, take, drop, is_empty,
}
use novbot.Text.{Str, codes, str_eq, starts_with}
use novbot.Node.Package.{Bytes, Reason, hash_mismatch, fetch_failed}

abbrev pub generation_zero : ℕ
generation_zero = 2 ^ 63

unfoldable pub retryable : Reason → Bool
retryable hash_mismatch = true
retryable fetch_failed = true
retryable _ = false

pub record InstallLimits : Type 0 where
  pub max_attempts : ℕ
  pub max_elapsed : ℕ
  pub min_backoff : ℕ
  pub max_backoff : ℕ

pub record DesiredSkill : Type 0 where
  pub name : Str
  pub version : Str
  pub sha256 : Str
  pub size_bytes : ℕ
  pub skill_abi : Str
  pub signature_envelope : Bytes
  pub fetch_ticket : Str

pub record SkillPolicy : Type 0 where
  pub max_concurrent_runs : ℕ
  pub keep_previous_versions : ℕ
  pub store_quota_bytes : ℕ
  pub max_timeout_ms : ℕ
  pub max_memory_mb : ℕ

abbrev pub default_timeout_ms : ℕ
default_timeout_ms = 30000

abbrev pub default_memory_mb : ℕ
default_memory_mb = 64

unfoldable pub default_policy : SkillPolicy
default_policy = record {
  max_concurrent_runs = 4;
  keep_previous_versions = 2;
  store_quota_bytes = 256 * 1024 * 1024;
  max_timeout_ms = default_timeout_ms;
  max_memory_mb = default_memory_mb;
}

pub record DesiredSet : Type 0 where
  pub generation : ℕ
  pub skills : List DesiredSkill
  pub policy : SkillPolicy

pub record ActiveSkill : Type 0 where
  pub version : Str
  pub sha256 : Str
  pub previous : List Str
  pub timeout_ms : ℕ
  pub memory_bytes : ℕ

abbrev pub Active : Type 0
Active = List (Str × ActiveSkill)

abbrev pub smaller : ℕ → ℕ → ℕ
smaller a b = if leb a b then a else b

abbrev pub at_least_one : ℕ → ℕ
at_least_one n = if ltb n 1 then 1 else n

-- `Some(value) if value > 0 => value.min(cap), _ => cap`.
abbrev pub clamp : Option ℕ → ℕ → ℕ
clamp none cap = cap
clamp (some value) cap = if ltb 0 value then smaller value cap else cap

unfoldable pub clamp_timeout_ms : Option ℕ → ℕ → ℕ
clamp_timeout_ms manifest_ms policy_max_ms = clamp manifest_ms policy_max_ms

unfoldable pub clamp_memory_bytes : Option ℕ → ℕ → ℕ
clamp_memory_bytes manifest_mb policy_max_mb =
    smaller (clamp manifest_mb policy_max_mb * (1024 * 1024)) (2 ^ 64 - 1)

-- The versions that stay, and those that `trim_previous` splits off.
unfoldable pub trim_previous : List Str → ℕ → List Str × List Str
trim_previous previous keep =
    if leb (length previous) keep then (previous, []) else (take keep previous, drop keep previous)

unfoldable pub sha_referenced : Str → Str → Str → Active → List Str → Bool
sha_referenced active_sha candidate skill_name active previous =
    if str_eq candidate active_sha || any (λ sha. str_eq sha candidate) previous
    then true
    else any
        (λ entry.
          not (str_eq entry.0 skill_name)
          && (str_eq entry.1.sha256 candidate
              || any (λ sha. str_eq sha candidate) entry.1.previous))
        active

-- `backoff`: the doubled minimum, at most the maximum, less a jitter.
unfoldable pub backoff : ℕ → InstallLimits → ℕ
backoff attempt limits =
    let shift = smaller (attempt - 1) 8 in
    let base = limits.min_backoff * 2 ^ shift in
    let capped = if ltb limits.max_backoff base then limits.max_backoff else base in
    let millis = smaller (capped / 1000000) (2 ^ 64 - 1) in
    let jitter = smaller (millis / 5) (attempt % 7 * 10) in
    if limits.max_backoff == 0 || limits.min_backoff == 0 then 0 else (millis - jitter) * 1000000

-- `str::replace`, with the number of characters of a match that are still to skip.
unfoldable pub replace_from : Str → Str → ℕ → Str → Str
replace_from from to skip [] = []
replace_from from to (suc skip) (c ∷ s) = replace_from from to skip s
replace_from from to zero (c ∷ s) =
    let matched = replace_from from to (length from - 1) s in
    let unmatched = replace_from from to 0 s in
    if starts_with (c ∷ s) from then to ++ matched else c ∷ unmatched

unfoldable pub redact_ticket : Str → Str → Str
redact_ticket detail ticket =
    if is_empty ticket then detail else replace_from ticket (codes "[redacted]") 0 detail
