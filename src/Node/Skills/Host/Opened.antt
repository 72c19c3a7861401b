-- ===== src/Node/Skills/Host/Opened.antt =====
-- crates/novbot-node/src/skills/mod.rs: the skills that `SkillHost::open` takes over.
use mathlib.Core.Path.{subst}
use novbot.Common.{
  ◌≡◌, refl, sym, ap, ◌∙◌, Bool, true, false, ◌||◌, List, [], ◌∷◌, ◌++◌, Option, none, some, Result,
  ok, err, if◌then◌else◌, if-elim, is_empty, Bool-cases, inl, inr, arith,
}
use novbot.Text.{Str, str_eq}
use novbot.Text.Laws.{str_eq_iff, str_eq_refl}
use novbot.Text.Maps.{find}
use novbot.Node.Package.{InstallError}
use novbot.Node.Skills.{generation_zero, ActiveSkill}
use novbot.Node.Skills.World.{
  Sealed, DiskSkill, DiskState, World, Outside, forget, marked, store_verified, verify_dir,
  verify_active,
}
use novbot.Node.Skills.Install.Kept.{find-forget, find-forget_other}
use novbot.Node.Skills.Host.{ReportedSkill, Inner, write_state}
use novbot.Node.Skills.Host.Boot.{
  moved_to_quarantine, quarantine_store, boot_failure, after_verify, check_skills, forget_reported,
  read_state, loaded_skill, loaded_skills, host_of, boot,
}

-- A report that names a skill.
abbrev pub reported : Str → List ReportedSkill → Bool
reported name [] = false
reported name (r ∷ rs) = str_eq r.name name || reported name rs

reported-append :
    (name : Str) (rs qs : List ReportedSkill)
    → reported name (rs ++ qs) ≡ reported name rs || reported name qs
reported-append name [] qs = refl
reported-append name (r ∷ rs) qs = ground (arith, reported-append name rs qs)

find-forget_reported :
    (name : Str) (rs : List ReportedSkill) (skills : List (Str × DiskSkill)) (skill : DiskSkill)
    → find name (forget_reported rs skills) ≡ some skill
    → (reported name rs ≡ false) × (find name skills ≡ some skill)
find-forget_reported name [] skills skill e = (refl, e)
find-forget_reported name (r ∷ rs) skills skill e =
    let (others, found) = find-forget_reported name rs (forget r.name skills) skill e in
    elim (Bool-cases (str_eq r.name name)) [
      | inl same ↦
          let key : r.name ≡ name = (str_eq_iff r.name name).0 same in
          let gone = find-forget r.name skills in absurd cc
      | inr other ↦ (ground arith, sym (find-forget_other r.name name skills other) ∙ found)
    ]

find-loaded_skills :
    (name : Str) (skills : List (Str × DiskSkill)) (a : ActiveSkill)
    → find name (loaded_skills skills) ≡ some a
    → (skill : DiskSkill) × (find name skills ≡ some skill) × (skill.sha256 ≡ a.sha256)
unfolding loaded_skill
find-loaded_skills name [] a e = absurd cc
find-loaded_skills name ((j, skill) ∷ skills) a e = elim (Bool-cases (str_eq j name)) [
  | inl same ↦ (skill, ground arith, ground arith)
  | inr other ↦
      let (found, at, digest) = find-loaded_skills name skills a (rw other at e) in
      (found, ground arith, digest)
]

module _ (out : Outside) where
  -- What `verify_active` accepts.
  abbrev pub Intact : World → Str → Type 0
  Intact w sha256 = verify_active out w.disk sha256 ≡ ok tt

  pub Intact-Verified :
      (w : World) (sha256 : Str) → Intact w sha256 → store_verified out w.disk sha256 ≡ true
  unfolding verify_active verify_dir store_verified
  Intact-Verified w sha256 h = elim (Bool-cases (marked out sha256 (find sha256 w.disk.store))) [
    | inl good ↦ good
    | inr bad ↦ absurd (ground arith)
  ]

  moved-Intact :
      (k sha256 : Str) (dir : Option Sealed) (w : World)
      → str_eq k sha256 ≡ false
      → Intact w sha256
      → Intact (moved_to_quarantine out k dir w) sha256
  unfolding verify_active
  moved-Intact k sha256 none w ne h = h
  moved-Intact k sha256 (some dir) w ne h =
      ap (verify_dir out sha256) (find-forget_other k sha256 w.disk.store ne) ∙ h

  after_verify-Intact :
      (name : Str) (skill : DiskSkill) (r : Result (Unit {0}) InstallError) (w : World)
      (sha256 : Str)
      → verify_active out w.disk skill.sha256 ≡ r
      → Intact w sha256
      → Intact (after_verify out name skill r w).1 sha256
  unfolding quarantine_store
  after_verify-Intact name skill (ok done) w sha256 e h = h
  after_verify-Intact name skill (err x) w sha256 e h =
      elim (Bool-cases (str_eq skill.sha256 sha256)) [
        | inl same ↦
            let key : skill.sha256 ≡ sha256 = (str_eq_iff skill.sha256 sha256).0 same in absurd cc
        | inr other ↦ moved-Intact skill.sha256 sha256 (find skill.sha256 w.disk.store) w other h
      ]

  check_skills-Intact :
      (skills : List (Str × DiskSkill)) (w : World) (sha256 : Str)
      → Intact w sha256
      → Intact (check_skills out skills w).1 sha256
  unfolding check_skills
  check_skills-Intact [] w sha256 h = h
  check_skills-Intact ((name, skill) ∷ skills) w sha256 h =
      check_skills-Intact skills _ sha256
        (after_verify-Intact name skill (verify_active out w.disk skill.sha256) w sha256 refl h)

  after_verify-reported :
      (name : Str) (skill : DiskSkill) (r : Result (Unit {0}) InstallError) (w : World)
      → verify_active out w.disk skill.sha256 ≡ r
      → reported name (after_verify out name skill r w).0 ≡ false
      → Intact (after_verify out name skill r w).1 skill.sha256
  unfolding boot_failure
  after_verify-reported name skill (ok done) w e quiet = e
  after_verify-reported name skill (err x) w e quiet = absurd (ground (arith, str_eq_refl name))

  -- A skill that no failure names is intact.
  pub check_skills-reported :
      (skills : List (Str × DiskSkill)) (w : World) (name : Str) (skill : DiskSkill)
      → find name skills ≡ some skill
      → reported name (check_skills out skills w).0 ≡ false
      → Intact (check_skills out skills w).1 skill.sha256
  unfolding check_skills
  check_skills-reported [] w name skill e quiet = absurd cc
  check_skills-reported ((j, first) ∷ skills) w name skill e quiet =
      let r = verify_active out w.disk first.sha256 in
      let head = after_verify out j first r w in
      let parts = reported-append name head.0 (check_skills out skills head.1).0 in
      elim (Bool-cases (str_eq j name)) [
        | inl same ↦
            let key : name ≡ j = sym ((str_eq_iff j name).0 same) in
            let value : first ≡ skill = ground arith in
            let silent : reported name head.0 ≡ false = ground arith in
            subst (λ (s : DiskSkill). Intact (check_skills out skills head.1).1 s.sha256) value
              (check_skills-Intact skills head.1 first.sha256 (
                after_verify-reported j first r w refl
                  (subst (λ k. reported k head.0 ≡ false) key silent)))
        | inr other ↦ check_skills-reported skills head.1 name skill (rw other at e) (ground arith)
      ]

  -- What `boot` returns: skills whose directories are intact.
  pub host_of-Intact :
      (state : DiskState) (failures : List ReportedSkill) (w : World) (name : Str) (a : ActiveSkill)
      → ((skill : DiskSkill) → find name state.skills ≡ some skill → Intact w skill.sha256)
      → find name (host_of state failures).skills ≡ some a
      → Intact w a.sha256
  unfolding host_of
  host_of-Intact state failures w name a intact e =
      let (skill, found, digest) = find-loaded_skills name state.skills a e in
      subst (Intact w) digest (intact skill found)

-- The hosts that `boot` may return have intact skills only.
abbrev TakesIntact : Outside → Str → ActiveSkill → Option Inner × World → Type 0
TakesIntact out name a r =
    (inner : Inner) → r.0 ≡ some inner → find name inner.skills ≡ some a → Intact out r.1 a.sha256

same_store-Intact :
    (out : Outside) (w w' : World) (sha256 : Str)
    → w'.disk.store ≡ w.disk.store
    → Intact out w sha256
    → Intact out w' sha256
unfolding verify_active
same_store-Intact out w w' sha256 e h =
    ap (λ (store : List (Str × Sealed)). verify_dir out sha256 (find sha256 store)) e ∙ h

pub write_state-store :
    (out : Outside) (state : DiskState) (w : World)
    → (write_state out state w).1.disk.store ≡ w.disk.store
unfolding write_state
write_state-store out state w =
    if-elim (λ (r : Bool × World). r.1.disk.store ≡ w.disk.store) (out.state_written w.calls)
      (λ written. refl) (λ lost. refl)

takes_left :
    (out : Outside) (name : Str) (a : ActiveSkill) (host : Inner) (w : World)
    (written : Bool × World)
    → written.1.disk.store ≡ w.disk.store
    → (find name host.skills ≡ some a → Intact out w a.sha256)
    → TakesIntact out name a (if written.0 then (some host, written.1) else (none, written.1))
takes_left out name a host w (true, w') same intact inner opened found =
    let it : host ≡ inner = ground arith in
    same_store-Intact out w w' a.sha256 same
      (intact (subst (λ (h : Inner). find name h.skills ≡ some a) (sym it) found))
takes_left out name a host w (false, w') same intact inner opened found = absurd cc

silent_reported :
    (name : Str) (rs : List ReportedSkill) → is_empty rs ≡ true → reported name rs ≡ false
silent_reported name [] e = refl
silent_reported name (r ∷ rs) e = absurd cc

-- The skills of a host that `boot` returns are intact on the disk that it leaves.
pub boot-intact :
    (out : Outside) (w : World) (inner : Inner) (name : Str) (a : ActiveSkill)
    → (boot out w).0 ≡ some inner
    → find name inner.skills ≡ some a
    → verify_active out (boot out w).1.disk a.sha256 ≡ ok tt
unfolding boot
boot-intact out w inner name a =
    let state = read_state w.disk.state in
    let checked = check_skills out state.skills w in
    let unreported : (skill : DiskSkill)
        → find name state.skills ≡ some skill
        → reported name checked.0 ≡ false
        → Intact out checked.1 skill.sha256 =
      check_skills-reported out state.skills w name in
    if-elim (TakesIntact out name a) (is_empty checked.0)
      (λ silent.
        takes_left out name a (host_of state []) checked.1 (true, checked.1) refl
          (λ found.
            host_of-Intact out state [] checked.1 name a
              (λ skill e. unreported skill e (silent_reported name checked.0 silent)) found))
      (λ failures.
        let left : DiskState = record {
          generation = generation_zero;
          skills = forget_reported checked.0 state.skills;
        } in
        takes_left out name a (host_of left checked.0) checked.1 (write_state out left checked.1)
          (write_state-store out left checked.1)
          (λ found.
            host_of-Intact out left checked.0 checked.1 name a
              (λ skill e.
                let (quiet, there) = find-forget_reported name checked.0 state.skills skill e in
                unreported skill there quiet)
              found))
      inner
