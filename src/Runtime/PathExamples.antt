-- ===== src/Runtime/PathExamples.antt =====
-- Paths, globs and a denylist on a plain file system, for crates/novbot-skill-runtime.
use mathlib.Core.Path.{◌≡◌, refl, subst}
use novbot.Common.{
  true, false, List, [], ◌∷◌, ◌++◌, none, some, All, ◌↔◌, ◌⊎◌, inl, inr, arith, Bool-cases,
  if◌then◌else◌, map, ◌≢◌,
}
use novbot.Text.{
  Str, codes, str_eq, starts_with, strip_prefix, ends_with, contains, contains_char, split,
  split_once, join, is_lower, is_upper, is_digit, lower, to_ascii_lowercase, trim_start_by,
  trim_end_by,
}
use novbot.Runtime.Glob.{
  reject_syntax, has_shell_syntax, valid_glob_segment, trim_slashes, valid_path_glob, has_meta,
  trim_trailing_slash, non_empty, segments, segment_match, any_suffix, match_head, segments_match,
  segment_glob,
}
use novbot.Runtime.Glob.Segment.{SegmentMatches, segment_match_iff}
use novbot.Runtime.Glob.Laws.{GlobMatches, IsLiteral, segments_match_iff}
use novbot.Runtime.FilePath.{
  PathBuf, Fs, Resolved, LinkTarget, render, display_path, parent, file_name, normalize_from,
  lexical_normalize, climb, canonicalize_existing_prefix, canonical_own, unless_symlink,
  follow_target, absolute_target, read_and_follow, resolve_own, resolve, canonical_literal,
  literal_prefix, glob_suffix, push_segments, canonical_pattern, glob_matches,
}
use novbot.Runtime.FilePath.Lexical.{IsName, lexical_normalize-IsName}
use novbot.Runtime.FilePath.Directory.{Denotes, lexical_normalize_iff}
use novbot.Runtime.FilePath.Symlinks.{IsResolved, resolve-IsResolved}
use novbot.Runtime.FilePath.Rendered.{entries_of}
use novbot.Runtime.FilePath.Subtree.{subtree, glob_matches-subtree_iff}
use novbot.Runtime.Deny.{
  denies_fs, static_deny, hit, aliases, other_alias, trim_slash, host_key, host_key_name, home_ssh,
  home_ssh_parts, proc_secret, proc_secret_parts, under_dir,
}
use novbot.Runtime.Deny.Protected.{Protected}
use novbot.Runtime.Deny.Laws.{static_deny_iff}
use novbot.Runtime.Deny.Aliases.{Denied, mirror, denies_fs_iff}

texts : Unit {0}
unfolding str_eq starts_with strip_prefix ends_with contains contains_char split split_once join
    is_lower is_upper is_digit lower to_ascii_lowercase trim_start_by trim_end_by
texts = tt

paths : Unit {0}
unfolding reject_syntax has_shell_syntax valid_glob_segment trim_slashes valid_path_glob has_meta
    trim_trailing_slash non_empty segments segment_match any_suffix match_head segments_match
    segment_glob render display_path parent file_name normalize_from lexical_normalize climb
    canonicalize_existing_prefix canonical_own unless_symlink follow_target absolute_target
    read_and_follow resolve_own resolve canonical_literal literal_prefix glob_suffix push_segments
    canonical_pattern glob_matches
paths = tt

deny_code : Unit {0}
unfolding denies_fs hit aliases other_alias trim_slash static_deny host_key host_key_name home_ssh
    home_ssh_parts proc_secret proc_secret_parts under_dir
deny_code = tt

-- A file system without symlinks, in which every path exists.
abbrev plain_fs : Fs
plain_fs = record { canonicalize = some; is_symlink = λ p. false; read_link = λ p. none }

abbrev hosts : PathBuf
hosts = codes "etc" ∷ codes "hosts" ∷ []

abbrev shadow_file : PathBuf
shadow_file = codes "etc" ∷ codes "shadow" ∷ []

abbrev etc : PathBuf
etc = codes "etc" ∷ []

segment_match_iff_example :
    (segment_match (codes "*.conf") (codes "ssh.conf") ≡ true)
    ↔ SegmentMatches (codes "*.conf") (codes "ssh.conf")
segment_match_iff_example = segment_match_iff (codes "*.conf") (codes "ssh.conf")

segments_match_iff_example :
    (segments_match (codes "etc" ∷ codes "**" ∷ []) hosts ≡ true)
    ↔ GlobMatches (codes "etc" ∷ codes "**" ∷ []) hosts
segments_match_iff_example = segments_match_iff (codes "etc" ∷ codes "**" ∷ []) hosts

one_star : segments_match (codes "etc" ∷ codes "*" ∷ []) hosts ≡ true
unfolding texts paths
one_star = refl

normal_etc : lexical_normalize (codes "/etc") ≡ some etc
unfolding texts paths
normal_etc = refl

normal_hosts : lexical_normalize (codes "/etc/./ssh/../hosts") ≡ some hosts
unfolding texts paths
normal_hosts = refl

etc-IsName : All IsName etc
etc-IsName = lexical_normalize-IsName (codes "/etc") etc normal_etc

IsLiteral-etc : All IsLiteral etc
IsLiteral-etc = (literal, tt)
  where
    literal : IsLiteral (codes "etc")
    literal = (((λ e. cc), (λ e. cc)), (((λ e. cc), (λ e. cc)), (((λ e. cc), (λ e. cc)), tt)))

own_etc : canonical_own plain_fs etc ≡ etc
unfolding texts paths
own_etc = refl

glob_matches-subtree_iff_example :
    (glob_matches plain_fs (subtree etc) hosts ≡ true)
    ↔ ((rest : List Str) × (hosts ≡ canonical_own plain_fs etc ++ rest))
unfolding texts paths
glob_matches-subtree_iff_example =
    glob_matches-subtree_iff plain_fs etc hosts (λ e. cc) etc-IsName IsLiteral-etc
      (entries_of etc refl) IsLiteral-etc (entries_of hosts refl)

lexical_normalize_iff_example :
    (lexical_normalize (codes "/etc/./ssh/../hosts") ≡ some hosts)
    ↔ ((codes "/etc/./ssh/../hosts" ≢ []) × Denotes (codes "/etc/./ssh/../hosts") hosts)
lexical_normalize_iff_example = lexical_normalize_iff (codes "/etc/./ssh/../hosts") hosts

-- `/etc` is a link to `/private/etc`.
abbrev link_fs : Fs
link_fs = record {
  canonicalize = λ p.
      if str_eq (render p) (codes "/etc")
      then some (codes "private" ∷ codes "etc" ∷ [])
      else some p;
  is_symlink = λ p. str_eq (render p) (codes "/etc");
  read_link = λ p. some (LinkTarget.relative (codes "private" ∷ codes "etc" ∷ []));
}

link_fs-real : (p q : PathBuf) → link_fs.canonicalize p ≡ some q → link_fs.is_symlink q ≡ false
unfolding texts paths
link_fs-real p q e = elim (Bool-cases (str_eq (render p) (codes "/etc"))) [
  | inl link ↦
      let at : codes "private" ∷ codes "etc" ∷ [] ≡ q = ground arith in
      subst (λ r. link_fs.is_symlink r ≡ false) at refl
  | inr other ↦ let at : p ≡ q = ground arith in subst (λ r. link_fs.is_symlink r ≡ false) at other
]

abbrev resolved_etc : Resolved
resolved_etc = record {
  own = etc;
  scope = codes "private" ∷ codes "etc" ∷ [];
  final_symlink = true;
  broken_symlink = false;
}

link_resolved : resolve link_fs (codes "/etc") ≡ some resolved_etc
unfolding texts paths
link_resolved = refl

resolve-IsResolved_example : IsResolved link_fs resolved_etc
unfolding texts paths
resolve-IsResolved_example =
    resolve-IsResolved link_fs (codes "/etc") resolved_etc link_fs-real link_resolved

static_deny_iff_example : (static_deny (render shadow_file) ≡ true) ↔ Protected shadow_file
static_deny_iff_example = static_deny_iff shadow_file (entries_of shadow_file refl)

denies_fs_iff_example :
    (denies_fs (record { data_dirs = map render (etc ∷ []) }) hosts ≡ true)
    ↔ (Denied (etc ∷ []) hosts ⊎ Denied (etc ∷ []) (mirror hosts))
denies_fs_iff_example =
    denies_fs_iff (etc ∷ []) hosts (λ e. cc) (entries_of hosts refl)
      (((λ e. cc), entries_of etc refl), tt)
