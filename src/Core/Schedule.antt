-- ===== src/Core/Schedule.antt =====
-- crates/novbot-core/src/schedule.rs: which specs are due, and the cron matcher with its calendar.
-- u64, u32 and i64 are numbers below the bound of their width: `now_secs` is a u64, so the number
-- of days is not negative. `last_run` is a function from spec ids.
pub mod Calendar
pub mod Due
use novbot.Common.{
  ℕ, ◌+◌, ◌-◌, ◌*◌, ◌/◌, ◌%◌, ◌^◌, Bool, true, false, not, ◌&&◌, ◌||◌, List, [], ◌∷◌, Option, none,
  some, ltb, leb, ◌==◌, if◌then◌else◌, any, map, is_empty,
}
use novbot.Text.{
  Str, codes, str_eq, strip_prefix, split, split_once, split_whitespace, trim, parse_uint,
}

pub record Schedule : Type 0 where
  pub spec_id : Str
  pub interval_secs : Option ℕ
  pub cron : Option Str
  pub enabled : Bool

abbrev pub LastRun : Type 0
LastRun = Str → Option ℕ

abbrev pub max_u32 : ℕ
max_u32 = 2 ^ 32 - 1

-- The end of `civil_from_days`: the date of a day `doy` of the year from 1 March `y` on.
unfoldable pub civil_date : ℕ → ℕ → ℕ × ℕ × ℕ
civil_date y doy =
    let mp = (5 * doy + 2) / 153 in
    let d = doy - (153 * mp + 2) / 5 + 1 in
    let m = if ltb mp 10 then mp + 3 else mp - 9 in (if leb m 2 then (y + 1) % 2 ^ 32 else y, m, d)

-- Howard Hinnant's `civil_from_days`, for `z ≥ 0`; the year is an i32 by its bit pattern.
unfoldable pub civil_from_days : ℕ → ℕ × ℕ × ℕ
civil_from_days z =
    let era = z / 146097 in
    let doe = z - era * 146097 in
    let yoe = (doe - doe / 1460 + doe / 36524 - doe / 146096) / 365 in
    let y = (yoe + era * 400) % 2 ^ 32 in
    let doy = doe - (365 * yoe + yoe / 4 - yoe / 100) in civil_date y doy

-- The minute, hour, day, month and weekday of a second, in UTC.
unfoldable pub utc_parts : ℕ → ℕ × ℕ × ℕ × ℕ × ℕ
utc_parts unix_secs =
    let days = unix_secs / 86400 in
    let secs_of_day = unix_secs % 86400 in
    let hour = secs_of_day / 3600 in
    let minute = (secs_of_day % 3600) / 60 in
    let weekday = (days + 4) % 7 in
    let (year, month, day) = civil_from_days (days + 719468) in (minute, hour, day, month, weekday)

-- The branch for `*/step`.
unfoldable pub step_matches : Str → ℕ → ℕ → Bool
step_matches step_str value min = elim (parse_uint max_u32 step_str) [
  | none ↦ false
  | some step ↦ ltb 0 step && leb min value && (value - min) % step == 0
]

-- The branch for `lo-hi`.
unfoldable pub range_matches : Str → Str → ℕ → Bool
range_matches a b value = elim (parse_uint max_u32 a) [
  | none ↦ false
  | some lo ↦ elim (parse_uint max_u32 b) [ none ↦ false | some hi ↦ leb lo value && leb value hi ]
]

-- The branch for `start/step`.
unfoldable pub start_step_matches : Str → Str → ℕ → ℕ → Bool
start_step_matches base step_str value max =
    if str_eq base (codes "*") then false else elim (parse_uint max_u32 base) [
      | none ↦ false
      | some start ↦ elim (parse_uint max_u32 step_str) [
        | none ↦ false
        | some step ↦ ltb 0 step && leb start value && (value - start) % step == 0 && leb value max
      ]
    ]

-- The branch for a number.
unfoldable pub number_matches : Str → ℕ → Bool
number_matches part value = elim (parse_uint max_u32 part) [ none ↦ false | some n ↦ n == value ]

-- One round of the loop of `field_match`, on a trimmed part: it makes the function return true.
unfoldable pub part_matches : ℕ → ℕ → ℕ → Str → Bool
part_matches value min max part =
    if is_empty part then false else elim (strip_prefix part (codes "*/")) [
      | some step_str ↦ step_matches step_str value min
      | none ↦ elim (split_once part b'-') [
        | some (a, b) ↦ range_matches a b value
        | none ↦ elim (split_once part b'/') [
          | some (base, step_str) ↦ start_step_matches base step_str value max
          | none ↦ number_matches part value
        ]
      ]
    ]

unfoldable pub field_match : Str → ℕ → ℕ → ℕ → Bool
field_match field value min max =
    if str_eq field (codes "*")
    then true
    else any (λ part. part_matches value min max (trim part)) (split field b',')

-- The five fields against the parts of a time.
unfoldable pub fields_match : List Str → ℕ × ℕ × ℕ × ℕ × ℕ → Bool
fields_match (f0 ∷ f1 ∷ f2 ∷ f3 ∷ f4 ∷ []) (minute, hour, day, month, weekday) =
    field_match f0 minute 0 59
    && field_match f1 hour 0 23
    && field_match f2 day 1 31
    && field_match f3 month 1 12
    && field_match f4 weekday 0 6
fields_match _ _ = false

unfoldable pub cron_matches : Str → ℕ → Bool
cron_matches expr unix_secs = fields_match (split_whitespace expr) (utc_parts unix_secs)

abbrev pub at_least_one : ℕ → ℕ
at_least_one n = if ltb n 1 then 1 else n

-- The first `if let` of `schedule_due`; `saturating_sub` is the subtraction of ℕ.
unfoldable pub interval_due : Option ℕ → ℕ → ℕ → Bool
interval_due none last now_secs = false
interval_due (some interval) last now_secs = leb (at_least_one interval) (now_secs - last)

-- The second `if let`.
unfoldable pub cron_due : Option Str → ℕ → ℕ → Bool
cron_due none last now_secs = false
cron_due (some expr) last now_secs =
    cron_matches expr now_secs && (ltb (last / 60) (now_secs / 60) || last == 0)

-- Neither an interval nor a cron expression is configured.
unfoldable pub unconfigured : Option ℕ → Option Str → Bool
unconfigured (some interval) cron = false
unconfigured none none = true
unconfigured none (some c) = is_empty (trim c)

abbrev pub or_zero : Option ℕ → ℕ
or_zero none = 0
or_zero (some n) = n

unfoldable pub schedule_due : Schedule → LastRun → ℕ → Bool
schedule_due s last_run now_secs =
    let last = or_zero (last_run s.spec_id) in
    let due = interval_due s.interval_secs last now_secs || cron_due s.cron last now_secs in
    if unconfigured s.interval_secs s.cron then false else due

-- `now` before the epoch counts as second 0; here it is the number of seconds.
unfoldable pub due_specs : List Schedule → LastRun → ℕ → List Str
due_specs [] last_run now_secs = []
due_specs (s ∷ schedules) last_run now_secs =
    let rest = due_specs schedules last_run now_secs in
    if not s.enabled
    then rest
    else if schedule_due s last_run now_secs
    then s.spec_id ∷ rest
    else rest
