-- ===== src/Node/HostExamples.antt =====
-- The host of that node, over its calls and a restart, for crates/novbot-node/src/skills/mod.rs. The
-- semver and JSON Schema of the runs are small functions on texts.
use mathlib.Core.Path.{◌≡◌, refl}
use novbot.Common.{◌+◌, ◌*◌, ◌≤◌, true, false, [], ◌∷◌, none, some, ok, any, ◌↔◌, ◌⊎◌, ◌-◌, ◌^◌}
use novbot.Text.{
  Str, codes, str_eq, starts_with, strip_prefix, ends_with, contains_char, split, split_once, join,
  trim, trim_start_by, trim_end_by, is_whitespace, is_digit,
}
use novbot.Text.Maps.{find}
use novbot.Node.Package.{
  Bytes, catalog, later_components, components, bad_part, normal_parts, normalize_rel,
}
use novbot.Node.Package.Opening.{
  open_package, is_lower_hex64, without, undeclared, verify_one, verify_declared,
  verify_file_hashes, scoped_grant, grant_string, grant_strings, normal_files, parse_manifest,
  module_hash_from_toml, check_grants, check_expected, load_package_inner, load_package,
}
use novbot.Node.Skills.{
  generation_zero, retryable, default_policy, ActiveSkill, clamp_timeout_ms, clamp_memory_bytes,
  trim_previous, sha_referenced, backoff, replace_from, redact_ticket,
}
use novbot.Node.Skills.World.{
  Disk, store_verified, verify_active, store_size, store_has_room, remove_store, verify_dir,
  decoded, stored_file,
}
use novbot.Node.Skills.Install.{fetch_package, finish_download, download, ensure_cache, seal_store}
use novbot.Node.Skills.Install.Attempt.{
  install_skill, obtain, module_bytes, read_stored_manifest, remove_dropped, activate, try_install,
  after_attempt, install_rounds,
}
use novbot.Node.Skills.Host.{
  Inner, should_pull, is_noop, sort_reports, write_state, active_report, snapshot, resize_runs,
}
use novbot.Node.Skills.Host.Reconcile.{
  reconcile, retain_desired, installed_report, failed_report, settle, apply_skills, disk_state,
  commit,
}
use novbot.Node.Skills.Host.History.{active_of, step, run}
use novbot.Node.Skills.Host.Boot.{
  boot, quarantine_store, boot_failure, check_skills, loaded_skill, host_of,
}
use novbot.Node.Skills.Host.Backed.{run-backed}
use novbot.Node.Skills.Host.Intact.{run-intact}
use novbot.Node.Skills.Host.Outcome.{
  IsDesired, reconcile-generation, reconcile-idempotent, reconcile-active,
}
use novbot.Node.Package.Archive.{is_directory, add_file, unpack_entry, unpack_entries, unpack}
use novbot.Core.Tags.Ordering.{str_lt}
use novbot.Node.Examples.{
  times, digest, toy, tool_bytes, outside, limits, tool, fresh, desired, events, active_tool,
  empty_host,
}
use novbot.Node.Skills.Host.Run.{
  Checks, HubRun, RunRequest, start_run, load_installed, version_guard_ok, argument_pointers,
  add_pointer, add_pointers, sort_texts,
}
use novbot.Node.Skills.Host.Admitted.{Admitted, start_run_iff}
use novbot.Node.Skills.Host.Started.{start_run-digest}
use novbot.Node.Skills.Proto.{pos, negsuc, PolicyMessage, policy_from_proto}
use novbot.Node.Skills.Proto.Limits.{policy_from_proto-limits}

program : Unit {0}
unfolding resize_runs start_run load_installed version_guard_ok argument_pointers add_pointer
    add_pointers sort_texts catalog later_components components bad_part normal_parts normalize_rel
    is_directory add_file unpack_entry unpack_entries unpack is_lower_hex64 without undeclared
    verify_one verify_declared verify_file_hashes scoped_grant grant_string grant_strings
    normal_files parse_manifest module_hash_from_toml check_grants check_expected load_package_inner
    open_package load_package retryable default_policy clamp_timeout_ms clamp_memory_bytes
    trim_previous sha_referenced backoff replace_from redact_ticket store_verified store_size
    store_has_room remove_store verify_dir verify_active finish_download download fetch_package
    ensure_cache seal_store obtain module_bytes read_stored_manifest remove_dropped activate
    try_install after_attempt install_rounds install_skill sort_reports write_state should_pull
    is_noop active_report snapshot quarantine_store boot_failure check_skills loaded_skill host_of
    boot retain_desired installed_report failed_report settle apply_skills disk_state commit
    reconcile step run str_lt str_eq starts_with strip_prefix ends_with contains_char split
    split_once join trim trim_start_by trim_end_by is_whitespace is_digit
program = tt

active_after :
    find (codes "tool") (active_of (run outside limits events (boot outside fresh)))
    ≡ some active_tool
unfolding program
active_after = refl

nothing_verified :
    (sha256 : Str)
    → store_verified outside fresh.disk sha256 ≡ true
    → verify_active outside fresh.disk sha256 ≡ ok tt
unfolding program
nothing_verified sha256 e = absurd cc

run-backed_example :
    store_verified outside (run outside limits events (boot outside fresh)).1.disk (times 64 b'a')
    ≡ true
run-backed_example =
    run-backed outside (λ sha256 name version. refl) limits events fresh (codes "tool") active_tool
      active_after

run-intact_example :
    verify_active outside (run outside limits events (boot outside fresh)).1.disk (times 64 b'a')
    ≡ ok tt
run-intact_example =
    run-intact outside (λ sha256 name version. refl) limits events fresh (codes "tool") active_tool
      nothing_verified active_after

reconcile-generation_example :
    (generation_zero ≤ (reconcile outside limits desired empty_host fresh).1.0.generation)
    × (generation_zero ≤ (reconcile outside limits desired empty_host fresh).1.0.seen)
    × (should_pull (reconcile outside limits desired empty_host fresh).1.0 (generation_zero + 1)
        ≡ false)
reconcile-generation_example = reconcile-generation outside limits desired empty_host fresh

reconcile-idempotent_example :
    reconcile outside limits desired
      (reconcile outside limits desired empty_host fresh).1.0
      (reconcile outside limits desired empty_host fresh).1.1
    ≡ reconcile outside limits desired empty_host fresh
reconcile-idempotent_example = reconcile-idempotent outside limits desired empty_host fresh

news : is_noop empty_host desired ≡ false
unfolding program
news = refl

active_now :
    find (codes "tool") (reconcile outside limits desired empty_host fresh).1.0.skills
    ≡ some active_tool
unfolding program
active_now = refl

reconcile-active_example :
    IsDesired (tool ∷ []) (codes "tool") active_tool
    ⊎ ((find (codes "tool") empty_host.skills ≡ some active_tool)
        × (any (λ d. str_eq d.name (codes "tool")) (tool ∷ []) ≡ true))
reconcile-active_example =
    reconcile-active outside limits desired empty_host fresh (codes "tool") active_tool news
      active_now

abbrev text_checks : Checks
text_checks = record {
  Value = Str;
  Version = Str;
  Validator = Bytes;
  as_str = λ value. some value;
  parse_version = λ text. some text;
  same_version = str_eq;
  requirement_matches = str_eq;
  build = λ schema. some schema;
  is_valid = λ schema value. true;
  error_paths = λ schema value. [];
  usize_max = 2 ^ 64 - 1;
}

abbrev host_after : Inner
host_after = record {
  generation = generation_zero + 1;
  seen = generation_zero + 1;
  skills = (codes "tool", active_tool) ∷ [];
  last_report = none;
  boot_failures = [];
  policy = default_policy;
  run_limit = 4;
}

abbrev call : HubRun text_checks
call = record { name = codes "tool"; version = some (codes "1"); arguments = codes "now" }

abbrev request : RunRequest text_checks
request = record {
  component_bytes = tool_bytes;
  grants = [];
  params = codes "now";
  timeout_ms = 30000;
  memory_bytes = 64 * 1024 * 1024;
}

abbrev disk_after : Disk
disk_after = (run outside limits events (boot outside fresh)).1.disk

host_opened : (run outside limits events (boot outside fresh)).0 ≡ some host_after
unfolding program
host_opened = refl

run_started : start_run text_checks toy 3 host_after disk_after call ≡ ok request
unfolding program
run_started = refl

start_run_iff_example :
    (start_run text_checks toy 3 host_after disk_after call ≡ ok request)
    ↔ Admitted text_checks toy 3 host_after disk_after call request
start_run_iff_example = start_run_iff text_checks toy 3 host_after disk_after call request

start_run-digest_example :
    (skill : ActiveSkill) × (find (codes "tool") host_after.skills ≡ some skill)
    × (text : Str) × (decoded toy (stored_file disk_after skill.sha256 (codes "skill.toml"))
        ≡ some text)
    × (module_hash_from_toml toy text ≡ ok (digest tool_bytes))
start_run-digest_example =
    start_run-digest outside (λ sha256 name version. refl) limits events fresh host_after
      text_checks 3 call request nothing_verified host_opened run_started

-- A message with a negative and a zero field.
abbrev odd_policy : PolicyMessage
odd_policy = record {
  max_concurrent_runs = negsuc 2;
  keep_previous_versions = pos 1;
  store_quota_bytes = pos 1000;
  max_timeout_ms = pos 0;
  max_memory_mb = pos 16;
}

policy_from_proto-limits_example :
    (1 ≤ clamp_timeout_ms (some 0) (policy_from_proto (some odd_policy)).max_timeout_ms)
    × (clamp_timeout_ms (some 0) (policy_from_proto (some odd_policy)).max_timeout_ms
        ≤ (policy_from_proto (some odd_policy)).max_timeout_ms)
    × (1 ≤ clamp_memory_bytes (some 900) (policy_from_proto (some odd_policy)).max_memory_mb)
    × (clamp_memory_bytes (some 900) (policy_from_proto (some odd_policy)).max_memory_mb
        ≤ (policy_from_proto (some odd_policy)).max_memory_mb * (1024 * 1024))
    × ((resize_runs (policy_from_proto (some odd_policy)).max_concurrent_runs host_after).run_limit
        ≡ (policy_from_proto (some odd_policy)).max_concurrent_runs)
policy_from_proto-limits_example =
    policy_from_proto-limits (some odd_policy) host_after (some 0) (some 900)
