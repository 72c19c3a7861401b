-- ===== src/Runtime/FilePath.antt =====
-- crates/novbot-skill-runtime/src/path.rs: lexical normalisation, `resolve` and `glob_matches`.
-- A `PathBuf` is absolute and is the list of its components; names are taken to be UTF-8, so that
-- `to_str` succeeds and `to_string_lossy` changes nothing. The file system is a parameter.
pub mod Lexical
pub mod Directory
pub mod Symlinks
pub mod Rendered
pub mod Subtree
use mathlib.Core.List.{reverse, tail}
use mathlib.Core.Option
use novbot.Common.{
  Bool, true, false, not, ◌&&◌, ◌||◌, List, [], ◌∷◌, ◌++◌, Option, none, some, drop, if◌then◌else◌,
  is_empty,
}
use novbot.Text.{Str, codes, str_eq, starts_with, contains_char, split, join}
use novbot.Runtime.Glob.{
  slash, reject_syntax, has_meta, trim_trailing_slash, segments, segment_glob,
}

abbrev pub PathBuf : Type 0
PathBuf = List Str

-- What `fs::read_link` returns: `target.is_absolute()` tells the two apart.
pub data LinkTarget : Type 0 where
  absolute relative : List Str → LinkTarget

-- `fs::canonicalize`, `fs::symlink_metadata` (true for a symlink, false on an error) and
-- `fs::read_link`.
pub record Fs : Type 0 where
  pub canonicalize : PathBuf → Option PathBuf
  pub is_symlink : PathBuf → Bool
  pub read_link : PathBuf → Option LinkTarget

pub record Resolved : Type 0 where
  pub own : PathBuf
  pub scope : PathBuf
  pub final_symlink : Bool
  pub broken_symlink : Bool

-- The text of a path.
unfoldable pub render : PathBuf → Str
unfolding join
render path = codes "/" ++ join path (codes "/")

unfoldable pub display_path : PathBuf → Str
unfolding render trim_trailing_slash
display_path path = trim_trailing_slash (render path)

-- `Path::parent` and `Path::file_name`.
unfoldable pub parent : PathBuf → Option PathBuf
parent [] = none
parent (p ∷ []) = some []
parent (p ∷ q ∷ ps) = Option.map (λ up. p ∷ up) (parent (q ∷ ps))

unfoldable pub file_name : PathBuf → Option Str
unfolding str_eq
file_name [] = none
file_name (p ∷ []) = if str_eq p (codes "..") then none else some p
file_name (p ∷ q ∷ ps) = file_name (q ∷ ps)

-- The loop of `lexical_normalize`; the vector `parts` has its end at the head of `stack`.
unfoldable pub normalize_from : List Str → List Str → Option PathBuf
unfolding str_eq contains_char
normalize_from stack [] = some (reverse stack)
normalize_from stack (part ∷ parts) =
    let same = normalize_from stack parts in
    let popped = normalize_from (tail stack) parts in
    let pushed = normalize_from (part ∷ stack) parts in
    if is_empty part || str_eq part (codes ".")
    then same
    else if str_eq part (codes "..")
    then popped
    else if contains_char part 0 || contains_char part b'~' || contains_char part b'\\'
    then none
    else pushed

unfoldable pub lexical_normalize : Str → Option PathBuf
unfolding normalize_from starts_with split
lexical_normalize raw =
    if not (starts_with raw (codes "/")) then none else normalize_from [] (drop 1 (split raw slash))

-- The loop of `canonicalize_existing_prefix`. `current` is held in reverse, its parent is the tail;
-- `suffix` holds the names left behind, outermost first.
unfoldable pub climb : Fs → PathBuf → List Str → List Str → PathBuf
unfolding str_eq
climb fs path [] suffix = elim (fs.canonicalize []) [ some real ↦ real ++ suffix | none ↦ suffix ]
climb fs path (name ∷ up) suffix =
    let above = climb fs path up (name ∷ suffix) in
    elim (fs.canonicalize (reverse (name ∷ up))) [
      | some real ↦ real ++ suffix
      | none ↦ if str_eq name (codes "..") then path else above
    ]

unfoldable pub canonicalize_existing_prefix : Fs → PathBuf → PathBuf
unfolding climb
canonicalize_existing_prefix fs path = climb fs path (reverse path) []

unfoldable pub canonical_own : Fs → PathBuf → PathBuf
unfolding canonicalize_existing_prefix parent file_name
canonical_own fs [] = []
canonical_own fs (p ∷ ps) =
    let parent_real = canonicalize_existing_prefix fs (Option.get_or (parent (p ∷ ps)) []) in
    elim (file_name (p ∷ ps)) [ some name ↦ parent_real ++ name ∷ [] | none ↦ parent_real ]

-- The end of `follow_target`, behind `lexical_normalize(raw)?`.
unfoldable pub unless_symlink : Fs → Option PathBuf → Option PathBuf
unfolding canonical_own
unless_symlink fs none = none
unless_symlink fs (some lexical) =
    let own = canonical_own fs lexical in if fs.is_symlink own then none else some own

unfoldable pub follow_target : Fs → PathBuf → Option PathBuf
unfolding reject_syntax starts_with render lexical_normalize unless_symlink
follow_target fs path =
    let raw = render path in
    elim (fs.canonicalize path) [
      | some real ↦ some real
      | none ↦
          if reject_syntax raw && not (starts_with raw (codes "/"))
          then none
          else unless_symlink fs (lexical_normalize raw)
    ]

-- `if target.is_absolute() { target } else { parent.join(target) }`.
unfoldable pub absolute_target : PathBuf → LinkTarget → PathBuf
unfolding parent
absolute_target own (absolute target) = target
absolute_target own (relative target) = Option.get_or (parent own) [] ++ target

-- The answer for a symlink, from what `follow_target` gave; `none` if the link is unreadable.
abbrev pub resolved_link : PathBuf → Option PathBuf → Resolved
resolved_link own (some scope) = record {
  own = own;
  scope = scope;
  final_symlink = true;
  broken_symlink = false;
}
resolved_link own none = record {
  own = own;
  scope = own;
  final_symlink = true;
  broken_symlink = true;
}

unfoldable pub read_and_follow : Fs → PathBuf → Option PathBuf
unfolding follow_target absolute_target
read_and_follow fs own = elim (fs.read_link own) [
  | none ↦ none
  | some target ↦ follow_target fs (absolute_target own target)
]

-- The part of `resolve` behind the computation of `own`.
unfoldable pub resolve_own : Fs → PathBuf → Resolved
unfolding read_and_follow
resolve_own fs own =
    if not (fs.is_symlink own)
    then record { own = own; scope = own; final_symlink = false; broken_symlink = false }
    else resolved_link own (read_and_follow fs own)

unfoldable pub resolve : Fs → Str → Option Resolved
unfolding reject_syntax lexical_normalize canonical_own resolve_own
resolve fs raw =
    if reject_syntax raw
    then none
    else Option.map (λ lexical. resolve_own fs (canonical_own fs lexical)) (lexical_normalize raw)

unfoldable pub canonical_literal : Fs → Str → Option Str
canonical_literal fs pattern = Option.map (λ r. display_path r.own) (resolve fs pattern)

-- The segments before the first that has `*` or `?`, and those from it on.
unfoldable pub literal_prefix : List Str → List Str
unfolding has_meta
literal_prefix [] = []
literal_prefix (s ∷ ss) = let rest = literal_prefix ss in if has_meta s then [] else s ∷ rest

unfoldable pub glob_suffix : List Str → List Str
unfolding has_meta
glob_suffix [] = []
glob_suffix (s ∷ ss) = let rest = glob_suffix ss in if has_meta s then s ∷ ss else rest

-- The loop that appends the remaining segments to `out`.
unfoldable pub push_segments : Str → List Str → Str
unfolding str_eq
push_segments out [] = out
push_segments out (s ∷ ss) =
    push_segments (if str_eq out (codes "/") then codes "/" ++ s else out ++ (codes "/" ++ s)) ss

unfoldable pub canonical_pattern : Fs → Str → Str
canonical_pattern fs pattern =
    let parts = segments pattern in
    let prefix = codes "/" ++ join (literal_prefix parts) (codes "/") in
    let prefix_real = Option.get_or (canonical_literal fs prefix) prefix in
    let out = trim_trailing_slash prefix_real in
    push_segments (if is_empty out then codes "/" else out) (glob_suffix parts)

unfoldable pub glob_matches : Fs → Str → PathBuf → Bool
glob_matches fs pattern candidate =
    if not (has_meta pattern)
    then elim (canonical_literal fs pattern) [
      | none ↦ false
      | some real ↦ str_eq real (display_path candidate)
    ]
    else segment_glob (canonical_pattern fs pattern) (display_path candidate)
