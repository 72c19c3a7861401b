-- ===== src/Node/Skills/Host/Boot.antt =====
-- crates/novbot-node/src/skills/mod.rs: `SkillHost::open`, named `boot` here, which quarantines
-- what it cannot verify.
use novbot.Common.{
  ◌*◌, List, [], ◌∷◌, ◌++◌, map, Option, none, some, if◌then◌else◌, Result, ok, err, is_empty,
}
use novbot.Text.{Str}
use novbot.Text.Maps.{find, has, put}
use novbot.Node.Package.{InstallError, store_tampered}
use novbot.Node.Skills.{
  generation_zero, ActiveSkill, Active, default_timeout_ms, default_memory_mb, default_policy,
}
use novbot.Node.Skills.World.{Sealed, DiskSkill, DiskState, World, Outside, forget, verify_active}
use novbot.Node.Skills.Install.{called}
use novbot.Node.Skills.Host.{failed, ReportedSkill, Inner, write_state}

abbrev pub quarantine_name : Outside → World → Str → Str
quarantine_name out w sha256 =
    if has sha256 w.disk.quarantine then out.stamped w.calls sha256 else sha256

abbrev pub moved_to_quarantine : Outside → Str → Option Sealed → World → World
moved_to_quarantine out sha256 none w = w
moved_to_quarantine out sha256 (some dir) w = record (called w) {
  disk = record (w.disk) {
    store = forget sha256 w.disk.store;
    quarantine = put (quarantine_name out w sha256) dir w.disk.quarantine;
  };
}

unfoldable pub quarantine_store : Outside → Str → World → World
quarantine_store out sha256 w = moved_to_quarantine out sha256 (find sha256 w.disk.store) w

unfoldable pub boot_failure : Str → DiskSkill → InstallError → ReportedSkill
boot_failure name skill e = record {
  name = name;
  version = skill.version;
  sha256 = skill.sha256;
  state = failed;
  reason = some store_tampered;
  reason_detail = e.detail;
  attempts = 0;
  previous_sha256 = skill.previous;
}

abbrev pub after_verify :
    Outside → Str → DiskSkill → Result (Unit {0}) InstallError → World → List ReportedSkill × World
after_verify out name skill (ok done) w = ([], w)
after_verify out name skill (err e) w =
    (boot_failure name skill e ∷ [], quarantine_store out skill.sha256 w)

-- The loop of `open` over the skills of state.json.
unfoldable pub check_skills : Outside → List (Str × DiskSkill) → World → List ReportedSkill × World
check_skills out [] w = ([], w)
check_skills out ((name, skill) ∷ skills) w =
    let first = after_verify out name skill (verify_active out w.disk skill.sha256) w in
    let rest = check_skills out skills first.1 in (first.0 ++ rest.0, rest.1)

abbrev pub forget_reported : List ReportedSkill → List (Str × DiskSkill) → List (Str × DiskSkill)
forget_reported [] skills = skills
forget_reported (r ∷ rs) skills = forget_reported rs (forget r.name skills)

abbrev pub empty_state : DiskState
empty_state = record { generation = generation_zero; skills = [] }

-- `read_state`: a file that is missing or unreadable is an empty state.
abbrev pub read_state : Option DiskState → DiskState
read_state none = empty_state
read_state (some state) = state

unfoldable pub loaded_skill : DiskSkill → ActiveSkill
loaded_skill skill = record {
  version = skill.version;
  sha256 = skill.sha256;
  previous = skill.previous;
  timeout_ms = default_timeout_ms;
  memory_bytes = default_memory_mb * 1024 * 1024;
}

abbrev pub loaded_skills : List (Str × DiskSkill) → Active
loaded_skills skills = map (λ entry. (entry.0, loaded_skill entry.1)) skills

unfoldable pub host_of : DiskState → List ReportedSkill → Inner
host_of disk boot_failures = record {
  generation = disk.generation;
  seen = disk.generation;
  skills = loaded_skills disk.skills;
  last_report = none;
  boot_failures = boot_failures;
  policy = default_policy;
  run_limit = default_policy.max_concurrent_runs;
}

-- `SkillHost::open`: no host when state.json cannot be written.
unfoldable pub boot : Outside → World → Option Inner × World
boot out w =
    let disk = read_state w.disk.state in
    let checked = check_skills out disk.skills w in
    if is_empty checked.0
    then (some (host_of disk []), checked.1)
    else let left : DiskState = record {
      generation = generation_zero;
      skills = forget_reported checked.0 disk.skills;
    } in
      let written = write_state out left checked.1 in
      if written.0 then (some (host_of left checked.0), written.1) else (none, written.1)
