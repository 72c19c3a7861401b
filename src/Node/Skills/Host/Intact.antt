-- ===== src/Node/Skills/Host/Intact.antt =====
-- crates/novbot-node/src/skills/mod.rs: the store of a node over its calls and restarts, when its
-- markers told the truth to begin with.
use novbot.Common.{
  ◌≡◌, Bool, true, false, List, [], ◌∷◌, Option, none, some, Result, ok, err, if-elim,
  if◌then◌else◌, is_empty,
}
use novbot.Text.{Str}
use novbot.Text.Maps.{find}
use novbot.Node.Package.{InstallError}
use novbot.Node.Skills.{
  generation_zero, InstallLimits, DesiredSkill, SkillPolicy, DesiredSet, ActiveSkill,
}
use novbot.Node.Skills.World.{
  Sealed, DiskSkill, DiskState, World, Outside, store_verified, verify_active,
}
use novbot.Node.Skills.Install.Attempt.{Installation, install_skill}
use novbot.Node.Skills.Install.Honest.{IsTrusted, forget-IsHonest, same_store-IsTrusted}
use novbot.Node.Skills.Install.Trusted.{install_rounds-IsTrusted}
use novbot.Node.Skills.Host.{Inner, SkillSnapshot, write_state, is_noop}
use novbot.Node.Skills.Host.Boot.{
  moved_to_quarantine, quarantine_store, after_verify, check_skills, forget_reported, read_state,
  host_of, boot,
}
use novbot.Node.Skills.Host.Reconcile.{
  Progress, settle, apply_skills, retain_desired, disk_state, commit, reconcile,
}
use novbot.Node.Skills.Host.Opened.{write_state-store}
use novbot.Node.Skills.Host.History.{Event, apply, restart, Node, active_of, step, run}
use novbot.Node.Skills.Host.Backed.{run-backed}

module _ (out : Outside) where
  moved-IsTrusted :
      (k : Str) (dir : Option Sealed) (w : World)
      → IsTrusted out w
      → IsTrusted out (moved_to_quarantine out k dir w)
  moved-IsTrusted k none w trusted = trusted
  moved-IsTrusted k (some dir) w trusted =
      λ sha256. forget-IsHonest out k sha256 w.disk.store (trusted sha256)

  after_verify-IsTrusted :
      (name : Str) (skill : DiskSkill) (r : Result (Unit {0}) InstallError) (w : World)
      → IsTrusted out w
      → IsTrusted out (after_verify out name skill r w).1
  unfolding quarantine_store
  after_verify-IsTrusted name skill (ok done) w trusted = trusted
  after_verify-IsTrusted name skill (err e) w trusted =
      moved-IsTrusted skill.sha256 (find skill.sha256 w.disk.store) w trusted

  check_skills-IsTrusted :
      (skills : List (Str × DiskSkill)) (w : World)
      → IsTrusted out w
      → IsTrusted out (check_skills out skills w).1
  unfolding check_skills
  check_skills-IsTrusted [] w trusted = trusted
  check_skills-IsTrusted ((name, skill) ∷ skills) w trusted =
      check_skills-IsTrusted skills _
        (after_verify-IsTrusted name skill (verify_active out w.disk skill.sha256) w trusted)

  write_state-IsTrusted :
      (state : DiskState) (w : World) → IsTrusted out w → IsTrusted out (write_state out state w).1
  write_state-IsTrusted state w trusted =
      same_store-IsTrusted out w (write_state out state w).1 (write_state-store out state w) trusted

  with_or_without :
      (host : Inner) (written : Bool × World)
      → IsTrusted out written.1
      → IsTrusted out
          (if◌then◌else◌ {A = Node} written.0 (some host, written.1) (none, written.1)).1
  with_or_without host (true, w) trusted = trusted
  with_or_without host (false, w) trusted = trusted

  boot-IsTrusted : (w : World) → IsTrusted out w → IsTrusted out (boot out w).1
  unfolding boot
  boot-IsTrusted w trusted =
      let state = read_state w.disk.state in
      let checked = check_skills out state.skills w in
      let after = check_skills-IsTrusted state.skills w trusted in
      if-elim (λ (node : Node). IsTrusted out node.1) (is_empty checked.0) (λ silent. after)
        (λ failures.
          let left : DiskState = record {
            generation = generation_zero;
            skills = forget_reported checked.0 state.skills;
          } in
          with_or_without (host_of left checked.0) (write_state out left checked.1)
            (write_state-IsTrusted left checked.1 after))

  module _
      (marks : (sha256 name version : Str)
        → out.marker_sha (out.write_marker sha256 name version) ≡ some sha256)
      (limits : InstallLimits) where
    settle-IsTrusted :
        (skill : DesiredSkill) (p : Progress) (r : Installation)
        → IsTrusted out r.1
        → IsTrusted out (settle skill p r).world
    unfolding settle
    settle-IsTrusted skill p (ok (a, n), w) trusted = trusted
    settle-IsTrusted skill p (err (e, n), w) trusted = trusted

    apply_skills-IsTrusted :
        (policy : SkillPolicy) (skills : List DesiredSkill) (p : Progress)
        → IsTrusted out p.world
        → IsTrusted out (apply_skills out limits policy skills p).world
    unfolding apply_skills install_skill
    apply_skills-IsTrusted policy [] p trusted = trusted
    apply_skills-IsTrusted policy (skill ∷ skills) p trusted =
        apply_skills-IsTrusted policy skills _ (
          settle-IsTrusted skill p _
            (install_rounds-IsTrusted out marks skill p.active limits policy _ 0 _ p.world trusted))

    reconcile-IsTrusted :
        (desired : DesiredSet) (inner : Inner) (w : World)
        → IsTrusted out w
        → IsTrusted out (reconcile out limits desired inner w).1.1
    unfolding reconcile commit
    reconcile-IsTrusted desired inner w trusted =
        let start : Progress = record {
          reports = [];
          active = retain_desired desired.skills inner.skills;
          world = w;
        } in
        let p = apply_skills out limits desired.policy desired.skills start in
        if-elim (λ (r : SkillSnapshot × (Inner × World)). IsTrusted out r.1.1)
          (is_noop inner desired) (λ noop. trusted)
          (λ changed.
            write_state-IsTrusted (disk_state desired.generation p.active) p.world
              (apply_skills-IsTrusted desired.policy desired.skills start trusted))

    run-IsTrusted :
        (events : List Event) (node : Node)
        → IsTrusted out node.1
        → IsTrusted out (run out limits events node).1
    unfolding run step
    run-IsTrusted [] node trusted = trusted
    run-IsTrusted (restart ∷ events) (host, w) trusted =
        run-IsTrusted events (boot out w) (boot-IsTrusted w trusted)
    run-IsTrusted (apply desired ∷ events) (none, w) trusted =
        run-IsTrusted events (none, w) trusted
    run-IsTrusted (apply desired ∷ events) (some inner, w) trusted =
        run-IsTrusted events _ (reconcile-IsTrusted desired inner w trusted)

-- On a node whose store holds, under every digest that a marker claims, a directory that
-- verify_active accepts, and if a marker that is written is read back as its digest, every active
-- skill of the host is one that verify_active accepts, after opening and after any sequence of
-- desired sets and restarts, whatever the source serves and however the file operations of a seal
-- end.
pub run-intact :
    (out : Outside)
    (marks : (sha256 name version : Str)
      → out.marker_sha (out.write_marker sha256 name version) ≡ some sha256)
    (limits : InstallLimits) (events : List Event) (w : World) (name : Str) (a : ActiveSkill)
    → ((sha256 : Str)
        → store_verified out w.disk sha256 ≡ true
        → verify_active out w.disk sha256 ≡ ok tt)
    → find name (active_of (run out limits events (boot out w))) ≡ some a
    → verify_active out (run out limits events (boot out w)).1.disk a.sha256 ≡ ok tt
unfolding store_verified verify_active
run-intact out marks limits events w name a trusted found =
    run-IsTrusted out marks limits events (boot out w) (boot-IsTrusted out w trusted) a.sha256
      (run-backed out marks limits events w name a found)
