-- ===== src/Core/Schedule/Due.antt =====
-- crates/novbot-core/src/schedule.rs: `schedule_due` and `due_specs`.
use mathlib.Core.Path.{subst}
use novbot.Common.{
  ℕ, ◌-◌, ◌/◌, ◌<◌, ◌≤◌, ◌≡◌, ◌≢◌, ◌↔◌, refl, sym, ap, ◌∙◌, arith, ◌⊎◌, inl, inr, ◌||◌, Bool, true,
  false, Bool-cases, Option-cases, ||-eq-true, List, [], ◌∷◌, Option, none, some, Any, here, there,
  Any-cons, is_empty,
}
use novbot.Text.{Str, trim, trim_start_by, trim_end_by, is_whitespace, words_from, split_whitespace}
use novbot.Core.Schedule.{
  Schedule, LastRun, at_least_one, or_zero, interval_due, cron_due, unconfigured, schedule_due,
  due_specs, cron_matches, fields_match,
}

-- A spec is due for a reason: its interval has passed, or its expression matches in a minute that
-- is new since the last run, or it has never run.
pub data Reason (s : Schedule) (last now : ℕ) : Type 0 where
  elapsed :
      (interval : ℕ)
      → s.interval_secs ≡ some interval
      → at_least_one interval ≤ now - last
      → Reason s last now
  minute :
      (expr : Str)
      → s.cron ≡ some expr
      → cron_matches expr now ≡ true
      → (last / 60 < now / 60) ⊎ (last ≡ 0)
      → Reason s last now

interval_due_iff :
    (o : Option ℕ) (last now : ℕ)
    → (interval_due o last now ≡ true)
      ↔ ((interval : ℕ) × (o ≡ some interval) × (at_least_one interval ≤ now - last))
unfolding interval_due
interval_due_iff none last now = (λ h. cc, λ (i, e, h). cc)
interval_due_iff (some i) last now = (λ h. (i, refl, ground arith), λ (j, e, h). ground arith)

cron_due_iff :
    (o : Option Str) (last now : ℕ)
    → (cron_due o last now ≡ true) ↔ (
        (expr : Str) × (o ≡ some expr)
        × (cron_matches expr now ≡ true)
        × ((last / 60 < now / 60) ⊎ (last ≡ 0)))
unfolding cron_due
cron_due_iff none last now = (λ h. cc, λ (x, e, k, w). cc)
cron_due_iff (some x) last now =
    (λ h. (x, refl, ground arith, ground arith), λ (y, e, k, w). ground arith)

stopped_is_kept :
    (f : ℕ → Bool) (c : ℕ) (s : Str) → f c ≡ false → is_empty (trim_end_by f (c ∷ s)) ≡ false
unfolding trim_end_by
stopped_is_kept f c s h = rw h

blank_start :
    (f : ℕ → Bool) (s : Str)
    → is_empty (trim_end_by f (trim_start_by f s)) ≡ true
    → trim_start_by f s ≡ []
unfolding trim_start_by
blank_start f [] h = refl
blank_start f (c ∷ s) h = elim (Bool-cases (f c)) [
  | inl skip ↦ rw skip (blank_start f s (rw skip at h))
  | inr stop ↦ cc (stopped_is_kept f c s stop, rw stop at h)
]

blank_words : (s : Str) → trim_start_by is_whitespace s ≡ [] → words_from [] s ≡ []
unfolding trim_start_by words_from
blank_words [] h = refl
blank_words (c ∷ s) h = elim (Bool-cases (is_whitespace c)) [
  | inl skip ↦ rw skip (blank_words s (rw skip at h))
  | inr stop ↦ cc (rw stop at h)
]

-- A blank expression never matches.
blank_cron : (expr : Str) (now : ℕ) → is_empty (trim expr) ≡ true → cron_matches expr now ≡ false
unfolding cron_matches split_whitespace trim
blank_cron expr now h =
    rw (blank_words expr (blank_start is_whitespace expr h)) (unfold fields_match in refl)

Reason→configured :
    (s : Schedule) (last now : ℕ) → Reason s last now → unconfigured s.interval_secs s.cron ≡ false
unfolding unconfigured
Reason→configured s last now (elapsed i e h) = rw (e, unconfigured)
Reason→configured s last now (minute x e k w) = elim (Option-cases s.interval_secs) [
  | inr (i, some_i) ↦ rw (some_i, unconfigured)
  | inl no_i ↦ elim (Bool-cases (is_empty (trim x))) [
    | inl blank ↦ cc (blank_cron x now blank)
    | inr filled ↦ rw (no_i, e, unconfigured) filled
  ]
]

due_of :
    (s : Schedule) (last now : ℕ)
    → Reason s last now
    → (interval_due s.interval_secs last now || cron_due s.cron last now) ≡ true
due_of s last now (elapsed i e h) = rw ((interval_due_iff s.interval_secs last now).1 (i, e, h))
due_of s last now (minute x e k w) = ground (arith, (cron_due_iff s.cron last now).1 (x, e, k, w))

-- A schedule is due exactly if its interval has passed, or its cron expression matches and a new
-- minute has begun or it never ran.
pub schedule_due_iff :
    (s : Schedule) (last_run : LastRun) (now : ℕ)
    → (schedule_due s last_run now ≡ true) ↔ Reason s (or_zero (last_run s.spec_id)) now
unfolding schedule_due
schedule_due_iff s last_run now =
    let last = or_zero (last_run s.spec_id) in
    let by_interval = interval_due_iff s.interval_secs last now in
    let by_cron = cron_due_iff s.cron last now in
    (
      λ h.
          let some_due : (interval_due s.interval_secs last now || cron_due s.cron last now)
              ≡ true =
            ground arith in
          elim (||-eq-true (interval_due s.interval_secs last now) _ some_due) [
            | inl a ↦ let (i, e, k) = by_interval.0 a in elapsed i e k
            | inr a ↦ let (x, e, k, w) = by_cron.0 a in minute x e k w
          ],
      λ r. rw (Reason→configured s last now r) (due_of s last now r),
    )

-- An enabled schedule of the id that has a reason to run.
abbrev pub IsDueFor : LastRun → ℕ → Str → Schedule → Type 0
IsDueFor last_run now id s =
    (s.enabled ≡ true) × (s.spec_id ≡ id) × Reason s (or_zero (last_run id)) now

due_here :
    (s : Schedule) (last_run : LastRun) (now : ℕ) (id : Str)
    → s.enabled ≡ true
    → schedule_due s last_run now ≡ true
    → s.spec_id ≡ id
    → IsDueFor last_run now id s
due_here s last_run now id on due e = (
  on,
  e,
  subst (λ k. Reason s (or_zero (last_run k)) now) e ((schedule_due_iff s last_run now).0 due),
)

due_specs_sound :
    (schedules : List Schedule) (last_run : LastRun) (now : ℕ) (id : Str)
    → Any (λ x. x ≡ id) (due_specs schedules last_run now)
    → Any (IsDueFor last_run now id) schedules
unfolding due_specs schedule_due
due_specs_sound [] last_run now id h = elim h [ ]
due_specs_sound (s ∷ schedules) last_run now id h = elim (Bool-cases s.enabled) [
  | inr off ↦ there (due_specs_sound schedules last_run now id (rw off at h))
  | inl on ↦ elim (Bool-cases (schedule_due s last_run now)) [
    | inr not_due ↦ there (due_specs_sound schedules last_run now id (rw (on, not_due) at h))
    | inl due ↦ elim (Any-cons (λ x. x ≡ id) (rw (on, due) at h)) [
      | inl e ↦ here (due_here s last_run now id on due e)
      | inr later ↦ there (due_specs_sound schedules last_run now id later)
    ]
  ]
]

due_specs_later :
    (s : Schedule) (schedules : List Schedule) (last_run : LastRun) (now : ℕ) (id : Str)
    → Any (λ x. x ≡ id) (due_specs schedules last_run now)
    → Any (λ x. x ≡ id) (due_specs (s ∷ schedules) last_run now)
unfolding due_specs schedule_due
due_specs_later s schedules last_run now id h = elim (Bool-cases s.enabled) [
  | inr off ↦ rw off h
  | inl on ↦ elim (Bool-cases (schedule_due s last_run now)) [
    | inr not_due ↦ rw (on, not_due) h
    | inl due ↦ rw (on, due) (there h)
  ]
]

due_specs_complete :
    (schedules : List Schedule) (last_run : LastRun) (now : ℕ) (id : Str)
    → Any (IsDueFor last_run now id) schedules
    → Any (λ x. x ≡ id) (due_specs schedules last_run now)
unfolding due_specs schedule_due
due_specs_complete [] last_run now id h = elim h [ ]
due_specs_complete (s ∷ schedules) last_run now id (here (on, e, r)) =
    let due : schedule_due s last_run now ≡ true =
      (schedule_due_iff s last_run now).1
        (subst (λ k. Reason s (or_zero (last_run k)) now) (sym e) r) in
    rw (on, due) (here e)
due_specs_complete (s ∷ schedules) last_run now id (there h) =
    due_specs_later s schedules last_run now id (due_specs_complete schedules last_run now id h)

-- The ids that due_specs returns are those of the enabled schedules that are due.
pub due_specs_iff :
    (schedules : List Schedule) (last_run : LastRun) (now : ℕ) (id : Str)
    → Any (λ x. x ≡ id) (due_specs schedules last_run now)
      ↔ Any (IsDueFor last_run now id) schedules
due_specs_iff schedules last_run now id =
    (due_specs_sound schedules last_run now id, due_specs_complete schedules last_run now id)

-- A schedule that ran at a second other than 0 is not due again in the same or an earlier minute
-- as long as its interval, if it has one, has not passed.
pub not_due_again :
    (s : Schedule) (last_run : LastRun) (last now : ℕ)
    → last_run s.spec_id ≡ some last
    → last ≢ 0
    → now / 60 ≤ last / 60
    → ((interval : ℕ) → s.interval_secs ≡ some interval → now - last < at_least_one interval)
    → schedule_due s last_run now ≡ false
not_due_again s last_run last now ran ne same_minute waiting =
    elim (Bool-cases (schedule_due s last_run now)) [
      | inr no_run ↦ no_run
      | inl due ↦ absurd (no_reason ((schedule_due_iff s last_run now).0 due))
    ]
  where
    at_last : or_zero (last_run s.spec_id) ≡ last
    at_last = ap or_zero ran

    no_reason : ¬ Reason s (or_zero (last_run s.spec_id)) now
    no_reason (elapsed i e h) = omega (arith, waiting i e, at_last)
    no_reason (minute x e k (inl w)) =
        omega (arith, at_last, w, same_minute, ap (λ (n : ℕ). n / 60) at_last)
    no_reason (minute x e k (inr w)) = ne (sym at_last ∙ w)
