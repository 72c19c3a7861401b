-- ===== src/Node/Skills/Host/Backed.antt =====
-- crates/novbot-node/src/skills/mod.rs: the directories behind the active skills of a node.
use mathlib.Core.Path.{subst}
use novbot.Common.{
  ◌≡◌, refl, sym, ap, ◌∙◌, ℕ, zero, suc, ◌+◌, ◌==◌, Bool, true, false, not, ◌||◌, List, [], ◌∷◌,
  none, some, Result, ok, err, if-elim, ltb, any, Bool-cases, inl, inr, arith,
}
use novbot.Text.{Str, str_eq}
use novbot.Text.Laws.{str_eq_iff, str_eq_flip}
use novbot.Text.Maps.{find, put, find-put, find-put_other}
use novbot.Node.Package.{InstallError}
use novbot.Node.Skills.{
  retryable, InstallLimits, DesiredSkill, SkillPolicy, DesiredSet, ActiveSkill, Active, smaller,
  backoff,
}
use novbot.Node.Skills.World.{World, Outside, store_verified}
use novbot.Node.Skills.Install.{called}
use novbot.Node.Skills.Install.Attempt.{
  Installation, duration_max, after_attempt, try_install, install_rounds, install_skill,
}
use novbot.Node.Skills.Install.Kept.{Verified, Keeps, same_store-Keeps}
use novbot.Node.Skills.Install.Sound.{Installs, Installs-after, try_install-Installs}
use novbot.Node.Skills.Host.{Inner, SkillSnapshot, write_state, is_noop}
use novbot.Node.Skills.Host.Boot.{boot}
use novbot.Node.Skills.Host.Reconcile.{
  retain_desired, Progress, settle, apply_skills, disk_state, commit, reconcile,
}
use novbot.Node.Skills.Host.Opened.{Intact-Verified, boot-intact, write_state-store}
use novbot.Node.Skills.Host.History.{Event, apply, restart, Node, active_of, step, run}

pub find-retain_desired :
    (desired : List DesiredSkill) (active : Active) (name : Str) (a : ActiveSkill)
    → find name (retain_desired desired active) ≡ some a
    → (any (λ d. str_eq d.name name) desired ≡ true) × (find name active ≡ some a)
unfolding retain_desired
find-retain_desired desired [] name a e = absurd cc
find-retain_desired desired ((j, b) ∷ active) name a e =
    elim (Bool-cases (any (λ d. str_eq d.name j) desired)) [
      | inl wanted ↦
          let kept : find name ((j, b) ∷ retain_desired desired active) ≡ some a = ground arith in
          elim (Bool-cases (str_eq j name)) [
            | inl same ↦
                let key : j ≡ name = (str_eq_iff j name).0 same in
                (subst (λ k. any (λ d. str_eq d.name k) desired ≡ true) key wanted, ground arith)
            | inr other ↦
                let found = find-retain_desired desired active name a (rw other at kept) in
                (found.0, rw other found.1)
          ]
      | inr unwanted ↦
          let found = find-retain_desired desired active name a (ground arith) in
          elim (Bool-cases (str_eq j name)) [
            | inl same ↦
                let key : j ≡ name = (str_eq_iff j name).0 same in
                let unnamed : any (λ d. str_eq d.name name) desired ≡ false =
                  subst (λ k. any (λ d. str_eq d.name k) desired ≡ false) key unwanted in
                let named = found.0 in absurd cc
            | inr other ↦ (found.0, rw other found.1)
          ]
    ]

module _ (out : Outside)
    (marks : (sha256 name version : Str)
      → out.marker_sha (out.write_marker sha256 name version) ≡ some sha256)
    (limits : InstallLimits) where
  module _ (skill : DesiredSkill) (active : Active) where
    -- `Installs`, of the result of `install_skill`.
    abbrev pub Ends : World → Installation → Type 0
    Ends w (ok (installed, n), w') = Installs out marks skill active w (ok installed, w')
    Ends w (err (e, n), w') = Keeps out w w'

    Ends-after : (w w' : World) (r : Installation) → Keeps out w w' → Ends w' r → Ends w r
    Ends-after w w' (ok (a, n), w'') kept h =
        Installs-after out marks skill active w w' (ok a, w'') kept h
    Ends-after w w' (err (e, n), w'') kept h = λ sha256 v. h sha256 (kept sha256 v)

    called-Keeps : (w : World) → Keeps out w (called w)
    called-Keeps w = same_store-Keeps out w (called w) refl

    after_attempt-Ends :
        (spent : Bool) (attempts : ℕ) (onward : InstallError → World → Installation) (w : World)
        (r : Result ActiveSkill InstallError × World)
        → Installs out marks skill active w r
        → ((e : InstallError) (w' : World) → Ends w' (onward e w'))
        → Ends w (after_attempt out limits spent attempts onward r)
    unfolding after_attempt
    after_attempt-Ends spent attempts onward w (ok a, w') h rest = h
    after_attempt-Ends spent attempts onward w (err e, w') h rest =
        if-elim (Ends w) (not (retryable e.reason) || spent) (λ stop. h)
          (λ go_on.
            elim (Bool-cases (
              ltb limits.max_elapsed
                (smaller (out.elapsed w'.calls + backoff attempts limits) duration_max))) [
                  | inl late ↦ rw late (λ sha256 v. called-Keeps w' sha256 (h sha256 v))
                  | inr early ↦ rw early (
                      Ends-after w (called w') _ (λ sha256 v. called-Keeps w' sha256 (h sha256 v))
                        (rest e (called w')))
                ])

    pub install_rounds-Ends :
        (policy : SkillPolicy) (left attempts : ℕ) (last : InstallError) (w : World)
        → Ends w (install_rounds out limits skill policy active left attempts last w)
    unfolding install_rounds
    install_rounds-Ends policy zero attempts last w =
        if-elim (Ends w) (ltb limits.max_elapsed (out.elapsed w.calls)) (λ late. called-Keeps w)
          (λ spent. called-Keeps w)
    install_rounds-Ends policy (suc left) attempts last w =
        if-elim (Ends w) (ltb limits.max_elapsed (out.elapsed w.calls)) (λ late. called-Keeps w)
          (λ early. Ends-after w (called w) _ (called-Keeps w) (
            after_attempt-Ends (left == 0) (suc attempts)
              (install_rounds out limits skill policy active left (suc attempts)) (called w)
              (try_install out skill policy active (called w))
              (try_install-Installs out marks skill active policy (called w))
              (install_rounds-Ends policy left (suc attempts))))

  -- The digest of every active skill is verified in the store.
  abbrev pub IsBacked : Active → World → Type 0
  IsBacked active w =
      (name : Str) (a : ActiveSkill) → find name active ≡ some a → Verified out w a.sha256

  settle-IsBacked :
      (skill : DesiredSkill) (p : Progress) (r : Installation)
      → Ends skill p.active p.world r
      → IsBacked p.active p.world
      → IsBacked (settle skill p r).active (settle skill p r).world
  unfolding settle
  settle-IsBacked skill p (err (e, n), w) h backed =
      λ name a found. h a.sha256 (backed name a found)
  settle-IsBacked skill p (ok (installed, n), w) ((digest, version), verified, protects) backed =
      λ name a found. elim (Bool-cases (str_eq skill.name name)) [
        | inl same ↦
            let key : skill.name ≡ name = (str_eq_iff skill.name name).0 same in
            let it : installed ≡ a =
              let both : some installed ≡ some a =
                sym (find-put skill.name installed p.active)
                ∙ (ap (λ k. find k (put skill.name installed p.active)) key ∙ found) in
              cc in
            subst (Verified out w) (sym digest ∙ ap (λ (s : ActiveSkill). s.sha256) it) verified
        | inr other ↦
            let there : find name p.active ≡ some a =
              sym (find-put_other skill.name installed name p.active other) ∙ found in
            protects name a there (str_eq_flip skill.name name other) (backed name a there)
      ]

  apply_skills-IsBacked :
      (policy : SkillPolicy) (skills : List DesiredSkill) (p : Progress)
      → IsBacked p.active p.world
      → IsBacked
          (apply_skills out limits policy skills p).active
          (apply_skills out limits policy skills p).world
  unfolding apply_skills install_skill
  apply_skills-IsBacked policy [] p backed = backed
  apply_skills-IsBacked policy (skill ∷ skills) p backed =
      apply_skills-IsBacked policy skills _
        (settle-IsBacked skill p _ (install_rounds-Ends skill p.active policy _ 0 _ p.world) backed)

  reconcile-IsBacked :
      (desired : DesiredSet) (inner : Inner) (w : World)
      → IsBacked inner.skills w
      → IsBacked
          (reconcile out limits desired inner w).1.0.skills
          (reconcile out limits desired inner w).1.1
  unfolding reconcile commit
  reconcile-IsBacked desired inner w backed name a =
      let start : Progress = record {
        reports = [];
        active = retain_desired desired.skills inner.skills;
        world = w;
      } in
      let p = apply_skills out limits desired.policy desired.skills start in
      if-elim
        (λ (r : SkillSnapshot × (Inner × World)).
          find name r.1.0.skills ≡ some a → Verified out r.1.1 a.sha256)
        (is_noop inner desired) (λ noop. backed name a)
        (λ changed found.
          same_store-Keeps out p.world
            (write_state out (disk_state desired.generation p.active) p.world).1
            (write_state-store out (disk_state desired.generation p.active) p.world) a.sha256
            (apply_skills-IsBacked desired.policy desired.skills start
              (λ k b there.
                backed k b (find-retain_desired desired.skills inner.skills k b there).1)
              name a found))

  opened_lem :
      (node : Node) (name : Str) (a : ActiveSkill)
      → ((inner : Inner)
          → node.0 ≡ some inner
          → find name inner.skills ≡ some a
          → Verified out node.1 a.sha256)
      → find name (active_of node) ≡ some a
      → Verified out node.1 a.sha256
  opened_lem (none, w) name a h e = absurd cc
  opened_lem (some inner, w) name a h e = h inner refl e

  boot-IsBacked : (w : World) → IsBacked (active_of (boot out w)) (boot out w).1
  boot-IsBacked w name a = opened_lem (boot out w) name a (λ inner opened found.
      Intact-Verified out (boot out w).1 a.sha256 (boot-intact out w inner name a opened found))

  step-IsBacked :
      (event : Event) (node : Node)
      → IsBacked (active_of node) node.1
      → IsBacked (active_of (step out limits event node)) (step out limits event node).1
  unfolding step
  step-IsBacked restart (host, w) backed = boot-IsBacked w
  step-IsBacked (apply desired) (none, w) backed = backed
  step-IsBacked (apply desired) (some inner, w) backed = reconcile-IsBacked desired inner w backed

  run-IsBacked :
      (events : List Event) (node : Node)
      → IsBacked (active_of node) node.1
      → IsBacked (active_of (run out limits events node)) (run out limits events node).1
  unfolding run
  run-IsBacked [] node backed = backed
  run-IsBacked (event ∷ events) node backed =
      run-IsBacked events (step out limits event node) (step-IsBacked event node backed)

-- On any node, if a marker that is written is read back as its digest, the store holds a verified
-- directory for every active skill, after opening and after any sequence of desired sets and
-- restarts.
pub run-backed :
    (out : Outside)
    (marks : (sha256 name version : Str)
      → out.marker_sha (out.write_marker sha256 name version) ≡ some sha256)
    (limits : InstallLimits) (events : List Event) (w : World) (name : Str) (a : ActiveSkill)
    → find name (active_of (run out limits events (boot out w))) ≡ some a
    → store_verified out (run out limits events (boot out w)).1.disk a.sha256 ≡ true
run-backed out marks limits events w =
    run-IsBacked out marks limits events (boot out w) (boot-IsBacked out marks limits w)
