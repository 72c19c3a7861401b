-- ===== src/Node/Examples.antt =====
-- A node with one skill, for crates/novbot-node/src/skills/package.rs and mod.rs. The parameters
-- are small functions: a digest that tells only the empty bytes from the rest, a source that serves
-- the one package, and file operations that succeed.
use mathlib.Core.Path.{◌≡◌, refl}
use novbot.Common.{
  ℕ, zero, suc, ◌+◌, ◌*◌, ◌≤◌, true, List, [], ◌∷◌, none, some, Result, ok, err, drop, take, length,
  Any,
}
use novbot.Text.{
  Str, codes, str_eq, starts_with, strip_prefix, ends_with, contains_char, split, split_once, join,
  trim, trim_start_by, trim_end_by, is_whitespace, is_digit,
}
use novbot.Text.Maps.{find}
use novbot.Node.Package.{
  abi, Bytes, Codecs, Entry, regular, ManifestToml, Package, fetch_failed, fail, catalog,
  later_components, components, bad_part, normal_parts, normalize_rel,
}
use novbot.Node.Package.Opening.{
  open_package, is_lower_hex64, without, undeclared, verify_one, verify_declared,
  verify_file_hashes, scoped_grant, grant_string, grant_strings, normal_files, parse_manifest,
  module_hash_from_toml, check_grants, check_expected, load_package_inner, load_package,
}
use novbot.Node.Package.Checked.{IsChecked, open_package-IsChecked, open_package-covers}
use novbot.Node.Skills.{
  generation_zero, retryable, InstallLimits, DesiredSkill, default_policy, DesiredSet, ActiveSkill,
  at_least_one, clamp_timeout_ms, clamp_memory_bytes, trim_previous, sha_referenced, backoff,
  replace_from, redact_ticket,
}
use novbot.Node.Skills.World.{
  World, sealed, Outside, store_verified, verify_active, store_size, store_has_room, remove_store,
  verify_dir,
}
use novbot.Node.Skills.Install.{
  part_of, fetch_package, finish_download, download, ensure_cache, seal_store,
}
use novbot.Node.Skills.Install.Attempt.{
  install_skill, obtain, module_bytes, read_stored_manifest, remove_dropped, activate, try_install,
  after_attempt, install_rounds,
}
use novbot.Node.Skills.Install.Download.{fetch_package-digest, fetch_package-resumes}
use novbot.Node.Skills.Install.Rounds.{attempts_of, install_skill-attempts, install_skill-retries}
use novbot.Node.Skills.Host.{
  Inner, should_pull, is_noop, sort_reports, write_state, active_report, snapshot,
}
use novbot.Node.Skills.Host.Reconcile.{
  reconcile, retain_desired, installed_report, failed_report, settle, apply_skills, disk_state,
  commit,
}
use novbot.Node.Skills.Host.History.{Event, apply, restart, step, run}
use novbot.Node.Skills.Host.Boot.{
  boot, quarantine_store, boot_failure, check_skills, loaded_skill, host_of,
}
use novbot.Node.Package.Archive.{is_directory, add_file, unpack_entry, unpack_entries, unpack}
use novbot.Core.Tags.Ordering.{str_lt}

abbrev pub times : ℕ → ℕ → Str
times zero c = []
times (suc n) c = c ∷ times n c

abbrev pub digest : Bytes → Str
digest [] = times 64 b'0'
digest (b ∷ bytes) = times 64 b'a'

abbrev pub tool_toml : ManifestToml
tool_toml = record {
  schema_version = 1;
  name = codes "tool";
  version = codes "1";
  platforms = codes "linux" ∷ [];
  runtime_kind = codes "wasm";
  runtime_abi = abi;
  timeout_ms = none;
  memory_mb = none;
  files = (codes "module.wasm", times 64 b'a') ∷ [];
  capabilities = [];
}

abbrev pub entry_of : Str → Bytes → Result Entry Str
entry_of path content = ok (record {
  entry_type = regular;
  path = ok path;
  size = ok (length content);
  content = ok content;
})

abbrev pub toy : Codecs
toy = record {
  entries =
      λ bytes. ok (entry_of (codes "skill.toml") bytes ∷ entry_of (codes "module.wasm") bytes ∷ []);
  from_utf8 = λ bytes. some bytes;
  from_toml = λ text. ok tool_toml;
  sha256_hex = digest;
}

abbrev pub tool_bytes : Bytes
tool_bytes = 1 ∷ 2 ∷ 3 ∷ 4 ∷ []

abbrev pub tool_package : Package
tool_package = record {
  manifest = record {
    name = codes "tool";
    version = codes "1";
    manifest_abi = abi;
    platforms = codes "linux" ∷ [];
    timeout_ms = none;
    memory_mb = none;
    files = (codes "module.wasm", times 64 b'a') ∷ [];
    grants = [];
  };
  files = (codes "module.wasm", tool_bytes) ∷ (codes "skill.toml", tool_bytes) ∷ [];
}

abbrev pub outside : Outside
outside = record {
  codecs = toy;
  write_marker = λ sha256 name version. sha256;
  marker_sha = λ bytes. some bytes;
  limits_from_toml = λ text. ok (none, none);
  compile_cwasm = λ wasm. ok wasm;
  platform = codes "linux";
  no_file = codes "no such file";
  not_utf8 = codes "not utf-8";
  show = λ n. [];
  stamped = λ now sha256. sha256;
  elapsed = λ calls. calls;
  fetch = λ calls sha256 ticket offset.
      ok (record { total_size = 4; payload = drop offset tool_bytes });
  seal_io = λ calls. sealed;
  state_written = λ calls. true;
}

-- The source when it cannot be reached.
abbrev pub unreachable : Outside
unreachable = record outside { fetch = λ calls sha256 ticket offset. err (codes "refused") }

abbrev pub limits : InstallLimits
limits = record { max_attempts = 3; max_elapsed = 1000; min_backoff = 0; max_backoff = 0 }

abbrev pub tool : DesiredSkill
tool = record {
  name = codes "tool";
  version = codes "1";
  sha256 = times 64 b'a';
  size_bytes = 4;
  skill_abi = abi;
  signature_envelope = [];
  fetch_ticket = codes "t1";
}

abbrev pub fresh : World
fresh = record {
  disk = record { store = []; quarantine = []; cache = []; parts = []; state = none };
  calls = 0;
}

abbrev pub desired : DesiredSet
desired = record { generation = generation_zero + 1; skills = tool ∷ []; policy = default_policy }

abbrev pub events : List Event
events = apply desired ∷ restart ∷ []

abbrev pub active_tool : ActiveSkill
active_tool = record {
  version = codes "1";
  sha256 = times 64 b'a';
  previous = [];
  timeout_ms = 30000;
  memory_bytes = 64 * 1024 * 1024;
}

abbrev pub empty_host : Inner
empty_host = record {
  generation = generation_zero;
  seen = generation_zero;
  skills = [];
  last_report = none;
  boot_failures = [];
  policy = default_policy;
  run_limit = 4;
}

program : Unit {0}
unfolding catalog later_components components bad_part normal_parts normalize_rel is_directory
    add_file unpack_entry unpack_entries unpack is_lower_hex64 without undeclared verify_one
    verify_declared verify_file_hashes scoped_grant grant_string grant_strings normal_files
    parse_manifest module_hash_from_toml check_grants check_expected load_package_inner open_package
    load_package retryable default_policy clamp_timeout_ms clamp_memory_bytes trim_previous
    sha_referenced backoff replace_from redact_ticket store_verified store_size store_has_room
    remove_store verify_dir verify_active finish_download download fetch_package ensure_cache
    seal_store obtain module_bytes read_stored_manifest remove_dropped activate try_install
    after_attempt install_rounds install_skill sort_reports write_state should_pull is_noop
    active_report snapshot quarantine_store boot_failure check_skills loaded_skill host_of boot
    retain_desired installed_report failed_report settle apply_skills disk_state commit reconcile
    step run str_lt str_eq starts_with strip_prefix ends_with contains_char split split_once join
    trim trim_start_by trim_end_by is_whitespace is_digit
program = tt

opened : open_package toy tool_bytes (codes "tool") (codes "1") ≡ ok tool_package
unfolding program
opened = refl

open_package-IsChecked_example : IsChecked toy (codes "tool") (codes "1") tool_package
open_package-IsChecked_example =
    open_package-IsChecked toy tool_bytes (codes "tool") (codes "1") tool_package opened

module_found : find (codes "module.wasm") tool_package.files ≡ some tool_bytes
unfolding program
module_found = refl

open_package-covers_example :
    Any (λ entry. entry ≡ (codes "module.wasm", digest tool_bytes)) tool_package.manifest.files
open_package-covers_example =
    open_package-covers toy tool_bytes (codes "tool") (codes "1") tool_package (codes "module.wasm")
      tool_bytes opened module_found (λ e. cc)

fetched : (fetch_package outside tool fresh).0 ≡ ok tool_bytes
unfolding program
fetched = refl

fetch_package-digest_example : digest tool_bytes ≡ times 64 b'a'
fetch_package-digest_example = fetch_package-digest outside tool fresh tool_bytes fetched

-- A download that broke off behind two bytes.
abbrev pub partly : World
partly = record fresh {
  disk = record (fresh.disk) { parts = (times 64 b'a', take 2 tool_bytes) ∷ [] };
}

kept_part : part_of tool.sha256 partly ≡ take 2 tool_bytes
unfolding program
kept_part = refl

rest_served :
    outside.fetch partly.calls tool.sha256 tool.fetch_ticket (length (part_of tool.sha256 partly))
    ≡ ok (record {
      total_size = length tool_bytes;
      payload = drop (length (part_of tool.sha256 partly)) tool_bytes;
    })
unfolding program
rest_served = refl

fetch_package-resumes_example : (fetch_package outside tool partly).0 ≡ ok tool_bytes
fetch_package-resumes_example =
    fetch_package-resumes outside tool partly tool_bytes 2 kept_part refl refl rest_served

install_skill-attempts_example :
    (1 ≤ attempts_of (install_skill outside limits tool default_policy [] fresh))
    × (attempts_of (install_skill outside limits tool default_policy [] fresh) ≤ 3)
install_skill-attempts_example = install_skill-attempts outside limits tool default_policy [] fresh

gave_up :
    (install_skill unreachable limits tool default_policy [] fresh).0
    ≡ err (fail fetch_failed (codes "refused"), 3)
unfolding program
gave_up = refl

may_retry : retryable fetch_failed ≡ true
unfolding program
may_retry = refl

install_skill-retries_example : 3 ≡ at_least_one limits.max_attempts
install_skill-retries_example =
    install_skill-retries unreachable limits tool default_policy [] fresh
      (fail fetch_failed (codes "refused")) 3 gave_up may_retry
