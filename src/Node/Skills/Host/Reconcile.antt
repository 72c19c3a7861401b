-- ===== src/Node/Skills/Host/Reconcile.antt =====
-- crates/novbot-node/src/skills/mod.rs: `reconcile`, which installs a desired set.
use novbot.Common.{
  ℕ, List, [], ◌∷◌, ◌++◌, map, Option, none, some, leb, if◌then◌else◌, ok, err, any,
}
use novbot.Text.{Str, str_eq}
use novbot.Text.Maps.{find, put}
use novbot.Node.Package.{InstallError}
use novbot.Node.Skills.{
  InstallLimits, DesiredSkill, SkillPolicy, DesiredSet, ActiveSkill, Active, redact_ticket,
}
use novbot.Node.Skills.World.{DiskSkill, DiskState, World, Outside}
use novbot.Node.Skills.Install.Attempt.{Installation, install_skill}
use novbot.Node.Skills.Host.{
  installed, failed, ReportedSkill, SkillSnapshot, Inner, sort_reports, resize_runs, write_state,
  is_noop, snapshot,
}

-- `active.retain(|name, _| desired_names.contains(name))`.
unfoldable pub retain_desired : List DesiredSkill → Active → Active
retain_desired desired [] = []
retain_desired desired ((name, skill) ∷ active) =
    let rest = retain_desired desired active in
    if any (λ d. str_eq d.name name) desired then (name, skill) ∷ rest else rest

unfoldable pub installed_report : DesiredSkill → ActiveSkill → ℕ → ReportedSkill
installed_report skill active attempts = record {
  name = skill.name;
  version = skill.version;
  sha256 = skill.sha256;
  state = installed;
  reason = none;
  reason_detail = [];
  attempts = attempts;
  previous_sha256 = active.previous;
}

abbrev pub previous_or_empty : Option ActiveSkill → List Str
previous_or_empty none = []
previous_or_empty (some current) = current.sha256 ∷ current.previous

unfoldable pub failed_report : DesiredSkill → Option ActiveSkill → InstallError → ℕ → ReportedSkill
failed_report skill previous_active e attempts = record {
  name = skill.name;
  version = skill.version;
  sha256 = skill.sha256;
  state = failed;
  reason = some e.reason;
  reason_detail = redact_ticket e.detail skill.fetch_ticket;
  attempts = attempts;
  previous_sha256 = previous_or_empty previous_active;
}

-- What the loop of `reconcile` carries.
pub record Progress : Type 0 where
  pub reports : List ReportedSkill
  pub active : Active
  pub world : World

unfoldable pub settle : DesiredSkill → Progress → Installation → Progress
settle skill p (ok (active, attempts), w) = record {
  reports = p.reports ++ installed_report skill active attempts ∷ [];
  active = put skill.name active p.active;
  world = w;
}
settle skill p (err (e, attempts), w) = record {
  reports = p.reports ++ failed_report skill (find skill.name p.active) e attempts ∷ [];
  active = p.active;
  world = w;
}

unfoldable pub apply_skills :
    Outside → InstallLimits → SkillPolicy → List DesiredSkill → Progress → Progress
apply_skills out limits policy [] p = p
apply_skills out limits policy (skill ∷ skills) p =
    apply_skills out limits policy skills
      (settle skill p (install_skill out limits skill policy p.active p.world))

abbrev pub disk_skill : ActiveSkill → DiskSkill
disk_skill skill = record {
  sha256 = skill.sha256;
  version = skill.version;
  previous = skill.previous;
}

unfoldable pub disk_state : ℕ → Active → DiskState
disk_state generation active = record {
  generation = generation;
  skills = map (λ entry. (entry.0, disk_skill entry.1)) active;
}

abbrev pub larger : ℕ → ℕ → ℕ
larger a b = if leb a b then b else a

-- `reconcile` behind the loop.
unfoldable pub commit : Outside → DesiredSet → Inner → Progress → SkillSnapshot × (Inner × World)
commit out desired inner p =
    let report : SkillSnapshot = record {
      applied_generation = desired.generation;
      skills = sort_reports p.reports;
    } in
    (
      report,
      (
        record {
          generation = desired.generation;
          seen = larger (larger inner.seen desired.generation) desired.generation;
          skills = p.active;
          last_report = some report;
          boot_failures = [];
          policy = desired.policy;
          run_limit = (resize_runs desired.policy.max_concurrent_runs inner).run_limit;
        },
        (write_state out (disk_state desired.generation p.active) p.world).1,
      ),
    )

unfoldable pub reconcile :
    Outside → InstallLimits → DesiredSet → Inner → World → SkillSnapshot × (Inner × World)
reconcile out limits desired inner w =
    if is_noop inner desired
    then (snapshot inner, (inner, w))
    else commit out desired inner (
        apply_skills out limits desired.policy desired.skills
          (record { reports = []; active = retain_desired desired.skills inner.skills; world = w }))
