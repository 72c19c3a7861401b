-- ===== src/Runtime/Examples.antt =====
-- A node with two grants and a plain file system, for crates/novbot-skill-runtime.
use mathlib.Core.Path.{◌≡◌, refl}
use novbot.Common.{true, false, List, [], ◌∷◌, ◌++◌, none, some, ok, err, Any, All, ◌↔◌, inl, ◌≢◌}
use novbot.Text.{
  Str, codes, str_eq, starts_with, strip_prefix, ends_with, contains, contains_char, split,
  split_once, join, is_lower, is_upper, is_digit, lower, to_ascii_lowercase, trim_start_by,
  trim_end_by,
}
use novbot.Runtime.Glob.{
  reject_syntax, has_shell_syntax, valid_glob_segment, trim_slashes, valid_path_glob, has_meta,
  trim_trailing_slash, non_empty, segments, segment_match, any_suffix, match_head, segments_match,
  segment_glob,
}
use novbot.Runtime.FilePath.{
  PathBuf, Fs, render, display_path, parent, file_name, normalize_from, lexical_normalize, climb,
  canonicalize_existing_prefix, canonical_own, unless_symlink, follow_target, absolute_target,
  read_and_follow, resolve_own, resolve, canonical_literal, literal_prefix, glob_suffix,
  push_segments, canonical_pattern, glob_matches,
}
use novbot.Runtime.FilePath.Rendered.{entries_of}
use novbot.Runtime.Deny.{
  Denylist, denies_fs, static_deny, hit, aliases, other_alias, trim_slash, host_key, host_key_name,
  home_ssh, home_ssh_parts, proc_secret, proc_secret_parts, under_dir,
}
use novbot.Runtime.Deny.Protected.{shadow}
use novbot.Runtime.Grant.{
  path_glob, env_key, def, capabilities, find_def, malformed, env_pattern_matches, Scope, path, env,
  GrantSet, valid_segment, valid_cap_parts, valid_cap_name, named, split_grant, without_last,
  env_core_ok, parse_env_scope, parse_scope, require_def, parse_one, parse_from, push_scope, parse,
  lookup, declares, scope_covers_path, scope_covers_key, path_matches, env_matches, at_path,
  cap_disabled, check_scope, check,
}
use novbot.Runtime.Grant.Parsing.{parse-lookup, parse-outcome, entry, scopes_in, FirstError}
use novbot.Runtime.Grant.Access.{Verdict, Declared, Opens, check_path-Verdict}
use novbot.Runtime.Grant.Authority.{check-authority, check-Protected, check-append}

texts : Unit {0}
unfolding str_eq starts_with strip_prefix ends_with contains contains_char split split_once join
    is_lower is_upper is_digit lower to_ascii_lowercase trim_start_by trim_end_by
texts = tt

paths : Unit {0}
unfolding reject_syntax has_shell_syntax valid_glob_segment trim_slashes valid_path_glob has_meta
    trim_trailing_slash non_empty segments segment_match any_suffix match_head segments_match
    segment_glob render display_path parent file_name normalize_from lexical_normalize climb
    canonicalize_existing_prefix canonical_own unless_symlink follow_target absolute_target
    read_and_follow resolve_own resolve canonical_literal literal_prefix glob_suffix push_segments
    canonical_pattern glob_matches
paths = tt

grants_code : Unit {0}
unfolding capabilities find_def env_pattern_matches valid_segment valid_cap_parts valid_cap_name
    named split_grant without_last env_core_ok parse_env_scope parse_scope require_def parse_one
    parse_from push_scope parse lookup declares scope_covers_path scope_covers_key path_matches
    env_matches cap_disabled check_scope check
grants_code = tt

deny_code : Unit {0}
unfolding denies_fs hit aliases other_alias trim_slash static_deny host_key host_key_name home_ssh
    home_ssh_parts proc_secret proc_secret_parts under_dir
deny_code = tt

-- A file system without symlinks, in which every path exists.
abbrev plain_fs : Fs
plain_fs = record { canonicalize = some; is_symlink = λ p. false; read_link = λ p. none }

abbrev hosts : PathBuf
hosts = codes "etc" ∷ codes "hosts" ∷ []

abbrev shadow_file : PathBuf
shadow_file = codes "etc" ∷ codes "shadow" ∷ []

abbrev etc : PathBuf
etc = codes "etc" ∷ []

abbrev etc_grant : Str
etc_grant = codes "fs.read:/etc/**"

abbrev grants : List Str
grants = etc_grant ∷ codes "env.read:LC_*" ∷ []

abbrev etc_scope : Scope
etc_scope = path (codes "/etc/**")

abbrev lc_scope : Scope
lc_scope = env (record { prefix = codes "LC_"; wildcard = true })

abbrev grant_set : GrantSet
grant_set = record {
  by_name = (codes "fs.read", etc_scope ∷ []) ∷ (codes "env.read", lc_scope ∷ []) ∷ [];
}

abbrev no_dirs : Denylist
no_dirs = record { data_dirs = [] }

parse-grants : parse grants ≡ ok grant_set
unfolding texts paths grants_code
parse-grants = refl

parse-etc_grant :
    parse (etc_grant ∷ []) ≡ ok (record { by_name = (codes "fs.read", etc_scope ∷ []) ∷ [] })
unfolding texts paths grants_code
parse-etc_grant = refl

parse_one_etc : parse_one etc_grant ≡ ok (codes "fs.read", etc_scope)
unfolding texts paths grants_code
parse_one_etc = refl

check-hosts_alone :
    check plain_fs
      (record { by_name = (codes "fs.read", etc_scope ∷ []) ∷ [] })
      (codes "fs.read")
      (at_path hosts)
      no_dirs
    ≡ ok tt
unfolding texts paths grants_code deny_code
check-hosts_alone = refl

read_def : find_def (codes "fs.read") capabilities ≡ some (def (codes "fs.read") path_glob)
unfolding texts grants_code
read_def = refl

check-hosts : check plain_fs grant_set (codes "fs.read") (at_path hosts) no_dirs ≡ ok tt
unfolding texts paths grants_code deny_code
check-hosts = refl

check-authority_example :
    Any
      (λ grant.
        (glob : Str) × (grant ≡ codes "fs.read" ++ b':' ∷ glob)
        × (valid_path_glob glob ≡ true)
        × (glob_matches plain_fs glob hosts ≡ true))
      grants
check-authority_example =
    check-authority plain_fs grants grant_set (codes "fs.read") (def (codes "fs.read") path_glob)
      hosts no_dirs parse-grants read_def refl check-hosts

check-Protected_example :
    check plain_fs grant_set (codes "fs.read") (at_path shadow_file) no_dirs ≢ ok tt
check-Protected_example =
    check-Protected plain_fs grant_set (codes "fs.read") (def (codes "fs.read") path_glob)
      shadow_file no_dirs read_def refl (λ e. cc) (entries_of shadow_file refl) (inl (shadow refl))

check_path-Verdict_example :
    Verdict
      (Declared (codes "fs.read") grants)
      (Opens plain_fs (codes "fs.read") shadow_file grants)
      (denies_fs no_dirs shadow_file)
      (check plain_fs grant_set (codes "fs.read") (at_path shadow_file) no_dirs)
check_path-Verdict_example =
    check_path-Verdict plain_fs grants grant_set (codes "fs.read") (def (codes "fs.read") path_glob)
      shadow_file no_dirs parse-grants read_def refl

env_def : find_def (codes "env.read") capabilities ≡ some (def (codes "env.read") env_key)
unfolding texts grants_code
env_def = refl

check-append_example : check plain_fs grant_set (codes "fs.read") (at_path hosts) no_dirs ≡ ok tt
check-append_example =
    check-append plain_fs (etc_grant ∷ []) (codes "env.read:LC_*" ∷ [])
      (record { by_name = (codes "fs.read", etc_scope ∷ []) ∷ [] }) grant_set (codes "fs.read")
      (def (codes "fs.read") path_glob) hosts no_dirs parse-etc_grant parse-grants read_def refl
      check-hosts_alone

parse-lookup_example :
    lookup (codes "env.read") grant_set.by_name ≡ entry (scopes_in (codes "env.read") grants)
parse-lookup_example = parse-lookup grants grant_set (codes "env.read") parse-grants

parse-outcome_example :
    ((parse (codes "fs.read" ∷ []) ≡ err (malformed (codes "fs.read")))
      ↔ FirstError (codes "fs.read" ∷ []) (malformed (codes "fs.read")))
    × (((gs : GrantSet) × (parse (codes "fs.read" ∷ []) ≡ ok gs))
        ↔ All (λ g. (r : Str × Scope) × (parse_one g ≡ ok r)) (codes "fs.read" ∷ []))
parse-outcome_example = parse-outcome (codes "fs.read" ∷ []) (malformed (codes "fs.read"))
