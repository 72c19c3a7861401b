-- ===== src/Node/Skills/Proto.antt =====
-- crates/novbot-node/src/skills/mod.rs: the desired set and the report as the messages of the
-- protocol hold them. The messages are records with the fields of the .proto file that are read.
use novbot.Common.{
  ℕ, suc, ◌+◌, ◌-◌, ◌*◌, ◌^◌, ◌≤◌, Bool, true, false, List, [], ◌∷◌, map, Option, none, some, ltb,
  leb, if◌then◌else◌, arith,
}
use novbot.Text.{Str, trim, to_ascii_lowercase}
use novbot.Node.Package.{Bytes, Reason}
use novbot.Node.Skills.{
  DesiredSkill, SkillPolicy, DesiredSet, default_policy, default_timeout_ms, default_memory_mb,
  clamp_timeout_ms, clamp_memory_bytes,
}
pub mod Limits

-- The i32 and i64 of the messages.
pub data ℤ : Type 0 where
  pos negsuc : ℕ → ℤ

pub record PolicyMessage : Type 0 where
  pub max_concurrent_runs : ℤ
  pub keep_previous_versions : ℤ
  pub store_quota_bytes : ℤ
  pub max_timeout_ms : ℤ
  pub max_memory_mb : ℤ

pub record SkillRef : Type 0 where
  pub name : Str
  pub version : Str
  pub sha256 : Str
  pub size_bytes : ℤ
  pub skill_abi : Str
  pub signature_envelope : Bytes
  pub fetch_ticket : Str

-- The generation is as in `DesiredSet`.
pub record DesiredSkills : Type 0 where
  pub generation : ℕ
  pub policy : Option PolicyMessage
  pub skills : List SkillRef

-- `if value <= 0 { default } else { value as u32 }`, which the quota has written out for 64 bits.
unfoldable pub nonzero_u32 : ℤ → ℕ → ℕ
nonzero_u32 (negsuc n) default = default
nonzero_u32 (pos n) default = if ltb 0 n then n else default

-- `u64::try_from(..).unwrap_or(0)`.
abbrev pub unsigned_or_zero : ℤ → ℕ
unsigned_or_zero (negsuc n) = 0
unsigned_or_zero (pos n) = n

unfoldable pub policy_from_proto : Option PolicyMessage → SkillPolicy
policy_from_proto none = default_policy
policy_from_proto (some policy) = record {
  max_concurrent_runs = nonzero_u32 policy.max_concurrent_runs default_policy.max_concurrent_runs;
  keep_previous_versions =
      nonzero_u32 policy.keep_previous_versions default_policy.keep_previous_versions;
  store_quota_bytes = nonzero_u32 policy.store_quota_bytes default_policy.store_quota_bytes;
  max_timeout_ms = nonzero_u32 policy.max_timeout_ms default_timeout_ms;
  max_memory_mb = nonzero_u32 policy.max_memory_mb default_memory_mb;
}

unfoldable pub skill_from_proto : SkillRef → DesiredSkill
skill_from_proto skill = record {
  name = skill.name;
  version = skill.version;
  sha256 = to_ascii_lowercase (trim skill.sha256);
  size_bytes = unsigned_or_zero skill.size_bytes;
  skill_abi = skill.skill_abi;
  signature_envelope = skill.signature_envelope;
  fetch_ticket = skill.fetch_ticket;
}

unfoldable pub set_from_proto : DesiredSkills → DesiredSet
set_from_proto msg = record {
  generation = msg.generation;
  skills = map skill_from_proto msg.skills;
  policy = policy_from_proto msg.policy;
}
