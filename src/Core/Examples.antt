-- ===== src/Core/Examples.antt =====
-- Schedules, tags and selectors written out, for crates/novbot-core.
use mathlib.Core.Path.{◌≡◌, refl}
use novbot.Common.{
  map, ◌≤◌, true, false, List, [], ◌∷◌, Option, none, some, ok, Any, here, there, ◌↔◌, arith,
}
use novbot.Text.{
  contains, ends_with, to_ascii_lowercase, Str, codes, str_eq, strip_prefix, starts_with, join,
  split, split_once, trim, trim_start_by, trim_end_by, is_whitespace, is_lower, is_upper, is_digit,
  lower, is_ascii_whitespace, parse_uint, scan_digits, split_whitespace, words_from,
}
use novbot.Core.Schedule.{Schedule, LastRun, schedule_due, civil_from_days}
use novbot.Core.Schedule.Calendar.{days_from_civil, days_from_civil-civil_from_days}
use novbot.Core.Schedule.Due.{not_due_again}
use novbot.Core.Tags.Ordering.{str_lt, insert_by, sort_by, dedup, sorted_unique}
use novbot.Core.Tags.{
  DeclaredTag, is_reserved_key, is_tag_char, key_rest_ok, key_ok, value_ok, validate_center_tag,
  reason_of, classify_one, draft_lt, mark_over_limit, first_of_key, classify_declared_tags,
  normalize_char, normalize_system_value,
}
use novbot.Core.Tags.Rules.{IsKey, IsValue, validate_center_tag_iff}
use novbot.Core.Tags.Declared.{
  count_valid, classify_declared_tags-count, classify_declared_tags-valid,
}
use novbot.Core.Selector.{
  eq, is_in, not_exists, Selector, filter, selector_matches, requirement_matches,
}
use novbot.Core.Selector.Parser.{
  len_utf8, skip_ws_from, skip_ws, eat, eat_word, scan, token, checked, key, value, values_from,
  value_set, operator, requirement_here, requirement, requirements_from,
}
use novbot.Core.Selector.Canonical.{
  push_value, eq_values, eq_pos, reject, first_equalities, reject_conflicting_equality, ordered,
  req_sort_key, sort_key_lt, req_canonical, canonical_of, finish, parse_selector,
}
use novbot.Core.Selector.Limits.{IsSelector, parse_selector-IsSelector}
use novbot.Core.Retry.{PendingReport, counted, drain}
use novbot.Core.Retry.RoundTrip.{IsWritten, enqueue_all, drain-enqueue_all}
use novbot.Core.Skill.{Json, Host, invoke_skill}
use novbot.Core.Skill.Sensitive.{env_get-denied}
use novbot.Runtime.Deny.{denies_env}
use novbot.Core.Selector.Equality.{reject_conflicting_equality-matches}
use novbot.Core.Selector.{exists, Tags, Requirement}
use novbot.Core.Selector.Parser.{ParsedReq}
use novbot.Common.{all, if◌then◌else◌}

texts : Unit {0}
unfolding str_eq strip_prefix starts_with join split split_once trim trim_start_by trim_end_by
    is_whitespace is_lower is_upper is_digit lower is_ascii_whitespace parse_uint scan_digits
    split_whitespace words_from
texts = tt

tags : Unit {0}
unfolding str_lt insert_by sort_by dedup sorted_unique is_reserved_key is_tag_char key_rest_ok
    key_ok value_ok validate_center_tag reason_of classify_one draft_lt mark_over_limit first_of_key
    classify_declared_tags normalize_char normalize_system_value
tags = tt

selectors : Unit {0}
unfolding selector_matches requirement_matches len_utf8 skip_ws_from skip_ws eat eat_word scan token
    checked key value values_from value_set operator requirement_here requirement requirements_from
    push_value eq_values eq_pos reject first_equalities reject_conflicting_equality ordered
    req_sort_key sort_key_lt req_canonical canonical_of finish parse_selector
selectors = tt

abbrev nightly : Schedule
nightly = record { spec_id = codes "disk"; interval_secs = some 60; cron = none; enabled = true }

abbrev never_ran : LastRun
never_ran = λ id. none

abbrev ran_at_600 : LastRun
ran_at_600 = λ id. some 600

not_due_again_example : schedule_due nightly ran_at_600 630 ≡ false
not_due_again_example =
    not_due_again nightly ran_at_600 600 630 refl (omega arith) (omega arith)
      (λ interval e. ground arith)

-- 1 March of the year 2000 is day 730485 from 1 March of the year 0.
days_from_civil-civil_from_days_example : days_from_civil (civil_from_days 730485) ≡ 730485
days_from_civil-civil_from_days_example = days_from_civil-civil_from_days 730485 (omega arith)

validate_center_tag_iff_example : (validate_center_tag (codes "sys.os") (codes "linux") ≡ ok tt) ↔ (
    IsKey (codes "sys.os") × ((is_reserved_key (codes "sys.os") ≡ false) × IsValue (codes "linux")))
validate_center_tag_iff_example = validate_center_tag_iff (codes "sys.os") (codes "linux")

abbrev declared : List (Str × Str)
declared = (codes "zone", codes "b") ∷ (codes "Env", codes "prod") ∷ []

abbrev zone_tag : DeclaredTag
zone_tag = record { key = codes "zone"; value = codes "b"; valid = true; invalid_reason = none }

zone_stands : Any (λ t. t ≡ zone_tag) (classify_declared_tags declared)
unfolding texts tags
zone_stands = there (here refl)

classify_declared_tags-count_example : count_valid (classify_declared_tags declared) ≤ 32
classify_declared_tags-count_example = classify_declared_tags-count declared

classify_declared_tags-valid_example :
    Any (λ pair. pair ≡ (codes "zone", codes "b")) declared
    × (IsKey (codes "zone") × ((is_reserved_key (codes "zone") ≡ false) × IsValue (codes "b")))
classify_declared_tags-valid_example =
    classify_declared_tags-valid declared zone_tag zone_stands refl

abbrev prod_in_two_zones : Selector
prod_in_two_zones = record {
  requirements =
      eq (codes "env") (codes "prod")
      ∷ is_in (codes "zone") (codes "b" ∷ codes "a" ∷ [])
      ∷ not_exists (codes "old")
      ∷ [];
  canonical = codes "env=prod,!old,zone in (a,b)";
}

selector_parses :
    parse_selector (codes " env=prod, zone in (b, a),! old,env = prod")
    ≡ ok (filter prod_in_two_zones)
unfolding texts tags selectors
selector_parses = refl

parse_selector-IsSelector_example : IsSelector prod_in_two_zones
parse_selector-IsSelector_example =
    parse_selector-IsSelector (codes " env=prod, zone in (b, a),! old,env = prod") prod_in_two_zones
      selector_parses

abbrev report : PendingReport
report = record {
  node_id = codes "n1";
  run_id = codes "r1";
  spec_id = codes "cpu";
  status = codes "ok";
  payload_json = codes "{}";
  observed_at_unix_ms = 1;
  attempts = 1;
}

-- A codec for this one report.
abbrev write_report : PendingReport → Str
write_report item = codes "{}"

abbrev read_report : Str → Option PendingReport
read_report line = some report

report-IsWritten : IsWritten write_report read_report (counted report)
unfolding texts counted
report-IsWritten = record {
  reads_back = refl;
  one_line = ((λ e. cc), ((λ e. cc), tt));
  trimmed = refl;
  filled = λ e. cc;
}

drain-enqueue_all_example :
    drain read_report (enqueue_all write_report (some []) (report ∷ report ∷ []))
    ≡ (map counted (report ∷ report ∷ []), some [])
drain-enqueue_all_example =
    drain-enqueue_all write_report read_report (report ∷ report ∷ [])
      (report-IsWritten, (report-IsWritten, tt))

-- A small instance of JSON: texts, and objects that forget all but their first text.
pub data Small : Type 0 where
  text : Str → Small
  other : Small

abbrev as_text : Small → Option Str
as_text (text s) = some s
as_text other = none

abbrev small_json : Json
small_json = record {
  Value = Small;
  get = λ v k. some v;
  as_str = as_text;
  entries = λ v. none;
  object = λ pairs. other;
  string = text;
  bool = λ b. other;
  null = other;
}

abbrev host_with : Option Str → Host
host_with token = record {
  var = λ k. token;
  hostname_file = none;
  os = codes "linux";
  arch = codes "arm64";
  family = codes "unix";
}

token_denied : denies_env (codes "API_TOKEN") ≡ true
unfolding texts denies_env contains ends_with to_ascii_lowercase
token_denied = refl

env_get-denied_example :
    invoke_skill small_json
      (host_with (some (codes "t0")))
      (codes "env_get")
      (text (codes "API_TOKEN"))
    ≡ invoke_skill small_json (host_with none) (codes "env_get") (text (codes "API_TOKEN"))
env_get-denied_example =
    env_get-denied small_json (host_with (some (codes "t0"))) (host_with none)
      (text (codes "API_TOKEN")) (codes "API_TOKEN") refl token_denied

abbrev repeated : List ParsedReq
repeated =
    record { start = 0; req = eq (codes "env") (codes "prod") }
    ∷ record { start = 9; req = exists (codes "zone") }
    ∷ record { start = 14; req = eq (codes "env") (codes "prod") }
    ∷ []

abbrev kept : List Requirement
kept = eq (codes "env") (codes "prod") ∷ exists (codes "zone") ∷ []

repeated_accepted : reject_conflicting_equality repeated ≡ ok kept
unfolding texts tags selectors
repeated_accepted = refl

abbrev prod_tags : Tags
prod_tags = λ k. if str_eq k (codes "env") then some (codes "prod") else none

reject_conflicting_equality-matches_example :
    all (requirement_matches prod_tags) kept
    ≡ all (requirement_matches prod_tags) (map (λ parsed. parsed.req) repeated)
reject_conflicting_equality-matches_example =
    reject_conflicting_equality-matches repeated kept prod_tags repeated_accepted
