-- ===== src/Node/Skills/Host/Outcome.antt =====
-- crates/novbot-node/src/skills/mod.rs: what a host holds behind a `reconcile`.
use mathlib.Core.Path.{subst}
use novbot.Common.{
  ◌≡◌, refl, sym, ap, ◌∙◌, ◌≤◌, true, false, List, [], ◌∷◌, some, ok, err, if-elim, any, Any, here,
  there, Bool-cases, ◌⊎◌, inl, inr, arith,
}
use novbot.Text.{Str, str_eq}
use novbot.Text.Laws.{str_eq_iff}
use novbot.Text.Maps.{find, put, find-put, find-put_other}
use novbot.Node.Skills.{InstallLimits, DesiredSkill, SkillPolicy, DesiredSet, ActiveSkill}
use novbot.Node.Skills.World.{World, Outside}
use novbot.Node.Skills.Install.Attempt.{Installation, install_skill}
use novbot.Node.Skills.Host.{Inner, SkillSnapshot, should_pull, is_noop, snapshot}
use novbot.Node.Skills.Host.Backed.{find-retain_desired}
use novbot.Node.Skills.Install.Made.{MakesIn, install_rounds-MakesIn}
use novbot.Node.Skills.Host.Reconcile.{
  retain_desired, Progress, settle, apply_skills, commit, reconcile,
}

-- A reconcile never lowers the generation or the newest generation seen, and after it the host
-- does not pull that desired set again.
pub reconcile-generation :
    (out : Outside) (limits : InstallLimits) (desired : DesiredSet) (inner : Inner) (w : World)
    → (inner.generation ≤ (reconcile out limits desired inner w).1.0.generation)
      × (inner.seen ≤ (reconcile out limits desired inner w).1.0.seen)
      × (should_pull (reconcile out limits desired inner w).1.0 desired.generation ≡ false)
unfolding reconcile commit should_pull is_noop
reconcile-generation out limits desired inner w =
    if-elim
      (λ (r : SkillSnapshot × (Inner × World)).
        (inner.generation ≤ r.1.0.generation)
        × (inner.seen ≤ r.1.0.seen)
        × (should_pull r.1.0 desired.generation ≡ false))
      (is_noop inner desired) (λ noop. (omega arith, omega arith, ground arith))
      (λ changed. (ground arith, ground arith, ground arith))

reconcile-noop :
    (out : Outside) (limits : InstallLimits) (desired : DesiredSet) (inner : Inner) (w : World)
    → is_noop inner desired ≡ true
    → reconcile out limits desired inner w ≡ (snapshot inner, (inner, w))
unfolding reconcile
reconcile-noop out limits desired inner w noop = rw noop refl

-- What is committed needs no further change, and its report is the host's snapshot.
commit-is_noop :
    (out : Outside) (desired : DesiredSet) (inner : Inner) (p : Progress)
    → is_noop (commit out desired inner p).1.0 desired ≡ true
unfolding commit is_noop
commit-is_noop out desired inner p = ground arith

commit-snapshot :
    (out : Outside) (desired : DesiredSet) (inner : Inner) (p : Progress)
    → snapshot (commit out desired inner p).1.0 ≡ (commit out desired inner p).0
unfolding commit snapshot
commit-snapshot out desired inner p = ground arith

-- Applying the same desired set to the host and the disk that a reconcile left gives the same
-- report and changes nothing.
pub reconcile-idempotent :
    (out : Outside) (limits : InstallLimits) (desired : DesiredSet) (inner : Inner) (w : World)
    → reconcile out limits desired
        (reconcile out limits desired inner w).1.0
        (reconcile out limits desired inner w).1.1
      ≡ reconcile out limits desired inner w
unfolding reconcile
reconcile-idempotent out limits desired inner w =
    if-elim (λ (r : SkillSnapshot × (Inner × World)). reconcile out limits desired r.1.0 r.1.1 ≡ r)
      (is_noop inner desired) (λ noop. reconcile-noop out limits desired inner w noop)
      (λ changed.
        let start : Progress = record {
          reports = [];
          active = retain_desired desired.skills inner.skills;
          world = w;
        } in
        let p = apply_skills out limits desired.policy desired.skills start in
        let done = commit out desired inner p in
        reconcile-noop out limits desired done.1.0 done.1.1 (commit-is_noop out desired inner p)
        ∙ ap (λ (report : SkillSnapshot). (report, done.1)) (commit-snapshot out desired inner p))

-- The desired skills that an active one can come from.
abbrev pub IsDesired : List DesiredSkill → Str → ActiveSkill → Type 0
IsDesired desired name a =
    Any (λ d. (d.name ≡ name) × (a.sha256 ≡ d.sha256) × (a.version ≡ d.version)) desired

module _ (out : Outside) (limits : InstallLimits) where
  settle_lem :
      (skill : DesiredSkill) (p : Progress) (r : Installation) (name : Str) (a : ActiveSkill)
      → MakesIn out skill p.active r
      → find name (settle skill p r).active ≡ some a
      → ((skill.name ≡ name) × (a.sha256 ≡ skill.sha256) × (a.version ≡ skill.version))
        ⊎ (find name p.active ≡ some a)
  unfolding settle
  settle_lem skill p (err (e, n), w) name a h found = inr found
  settle_lem skill p (ok (installed, n), w) name a (digest, version) found =
      elim (Bool-cases (str_eq skill.name name)) [
        | inl same ↦
            let key : skill.name ≡ name = (str_eq_iff skill.name name).0 same in
            let both : some installed ≡ some a =
              sym (find-put skill.name installed p.active)
              ∙ (ap (λ k. find k (put skill.name installed p.active)) key ∙ found) in
            let it : installed ≡ a = cc in
            inl (
              subst
                (λ (s : ActiveSkill).
                  (skill.name ≡ name) × (s.sha256 ≡ skill.sha256) × (s.version ≡ skill.version))
                it (key, digest, version))
        | inr other ↦ inr (sym (find-put_other skill.name installed name p.active other) ∙ found)
      ]

  apply_skills_lem :
      (policy : SkillPolicy) (skills : List DesiredSkill) (p : Progress) (name : Str)
      (a : ActiveSkill)
      → find name (apply_skills out limits policy skills p).active ≡ some a
      → IsDesired skills name a ⊎ (find name p.active ≡ some a)
  unfolding apply_skills install_skill
  apply_skills_lem policy [] p name a found = inr found
  apply_skills_lem policy (skill ∷ skills) p name a found =
      let r = install_skill out limits skill policy p.active p.world in
      elim (apply_skills_lem policy skills (settle skill p r) name a found) [
        | inl later ↦ inl (there later)
        | inr now ↦
            elim (settle_lem skill p r name a
              (install_rounds-MakesIn out skill p.active limits policy _ 0 _ p.world) now) [
                | inl this ↦ inl (here this)
                | inr before ↦ inr before
              ]
      ]

-- After a reconcile that is not a no-op, every active skill has the digest and version of a
-- desired skill of its name, or it was active before and its name is still desired.
pub reconcile-active :
    (out : Outside) (limits : InstallLimits) (desired : DesiredSet) (inner : Inner) (w : World)
    (name : Str) (a : ActiveSkill)
    → is_noop inner desired ≡ false
    → find name (reconcile out limits desired inner w).1.0.skills ≡ some a
    → IsDesired desired.skills name a
      ⊎ ((find name inner.skills ≡ some a) × (any (λ d. str_eq d.name name) desired.skills ≡ true))
unfolding reconcile commit
reconcile-active out limits desired inner w name a changed =
    if-elim
      (λ (r : SkillSnapshot × (Inner × World)).
        find name r.1.0.skills ≡ some a
        → IsDesired desired.skills name a
          ⊎ ((find name inner.skills ≡ some a)
              × (any (λ d. str_eq d.name name) desired.skills ≡ true)))
      (is_noop inner desired) (λ noop. absurd cc)
      (λ go_on found.
        elim (apply_skills_lem out limits desired.policy desired.skills _ name a found) [
          | inl from_set ↦ inl from_set
          | inr kept ↦
              let retained = find-retain_desired desired.skills inner.skills name a kept in
              inr (retained.1, retained.0)
        ])
