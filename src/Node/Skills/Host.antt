-- ===== src/Node/Skills/Host.antt =====
-- crates/novbot-node/src/skills/mod.rs: `SkillHost`, which holds the active skills of a node.
-- `reconcile` runs under its lock, so a host is a value that each call passes on.
use novbot.Common.{
  ℕ, suc, zero, ◌+◌, ◌*◌, Bool, true, false, not, ◌&&◌, ◌||◌, List, [], ◌∷◌, ◌++◌, map, Option,
  none, some, ltb, leb, ◌==◌, if◌then◌else◌, Result, ok, err, any, is_empty,
}
use novbot.Text.{Str, codes, str_eq}
use novbot.Text.Maps.{find, has, put}
use novbot.Core.Tags.Ordering.{str_lt}
use novbot.Node.Package.{InstallError, Reason, store_tampered}
use novbot.Node.Skills.{
  generation_zero, InstallLimits, DesiredSkill, SkillPolicy, DesiredSet, ActiveSkill, Active,
  default_timeout_ms, default_memory_mb, default_policy, at_least_one, redact_ticket,
}
use novbot.Node.Skills.World.{
  Sealed, DiskSkill, DiskState, Disk, World, Outside, forget, verify_active,
}
use novbot.Node.Skills.Install.{called}
pub mod Boot
pub mod Reconcile
pub mod Opened
pub mod History
pub mod Backed
pub mod Outcome
pub mod Intact
pub mod Run
pub mod Guards
pub mod Admitted
pub mod Started

pub data SkillState : Type 0 where
  installed failed : SkillState

-- An entry of a report. The reason of an installed skill is the empty text.
pub record ReportedSkill : Type 0 where
  pub name : Str
  pub version : Str
  pub sha256 : Str
  pub state : SkillState
  pub reason : Option Reason
  pub reason_detail : Str
  pub attempts : ℕ
  pub previous_sha256 : List Str

pub record SkillSnapshot : Type 0 where
  pub applied_generation : ℕ
  pub skills : List ReportedSkill

-- `Inner`, with the `run_limit` of the host around it.
pub record Inner : Type 0 where
  pub generation : ℕ
  pub seen : ℕ
  pub skills : Active
  pub last_report : Option SkillSnapshot
  pub boot_failures : List ReportedSkill
  pub policy : SkillPolicy
  pub run_limit : ℕ

-- `sort_by` on the names, which is stable.
abbrev pub insert_report : ReportedSkill → List ReportedSkill → List ReportedSkill
insert_report r [] = r ∷ []
insert_report r (q ∷ rs) = if str_lt q.name r.name then q ∷ insert_report r rs else r ∷ q ∷ rs

unfoldable pub sort_reports : List ReportedSkill → List ReportedSkill
sort_reports [] = []
sort_reports (r ∷ rs) = insert_report r (sort_reports rs)

abbrev pub with_state : DiskState → World → World
with_state state w = record w { disk = record (w.disk) { state = some state } }

-- `write_state`, which says whether it was written.
unfoldable pub write_state : Outside → DiskState → World → Bool × World
write_state out state w =
    if out.state_written w.calls then (true, with_state state (called w)) else (false, called w)

-- `resize_runs`. A semaphore for a new limit starts with all its permits.
unfoldable pub resize_runs : ℕ → Inner → Inner
resize_runs permits inner = record inner { run_limit = at_least_one permits }

unfoldable pub should_pull : Inner → ℕ → Bool
should_pull inner center_generation =
    ltb inner.generation center_generation && ltb inner.seen center_generation

unfoldable pub is_noop : Inner → DesiredSet → Bool
is_noop inner desired =
    if ltb desired.generation inner.generation
    then true
    else desired.generation == inner.generation && is_empty inner.boot_failures

unfoldable pub active_report : Str → ActiveSkill → ReportedSkill
active_report name skill = record {
  name = name;
  version = skill.version;
  sha256 = skill.sha256;
  state = installed;
  reason = none;
  reason_detail = [];
  attempts = 0;
  previous_sha256 = skill.previous;
}

abbrev pub fresh_snapshot : Inner → SkillSnapshot
fresh_snapshot inner = record {
  applied_generation = inner.generation;
  skills =
      sort_reports
        (map (λ entry. active_report entry.0 entry.1) inner.skills ++ inner.boot_failures);
}

abbrev pub snapshot_or : Option SkillSnapshot → Inner → SkillSnapshot
snapshot_or none inner = fresh_snapshot inner
snapshot_or (some report) inner =
    if report.applied_generation == inner.generation && is_empty inner.boot_failures
    then report
    else fresh_snapshot inner

unfoldable pub snapshot : Inner → SkillSnapshot
snapshot inner = snapshot_or inner.last_report inner
