-- ===== src/Runtime/Glob.antt =====
-- crates/novbot-skill-runtime/src/path.rs: grant globs, from `valid_path_glob` to `segment_match`.
-- A path is a list of bytes; a slice of segments is a list of them.
pub mod Segment
pub mod Laws
use novbot.Common.{
  ℕ, ltb, Bool, true, false, not, ◌&&◌, ◌||◌, List, [], ◌∷◌, ◌++◌, ◌==◌, if◌then◌else◌, any, all,
  drop, length, is_empty,
}
use novbot.Text.{Str, codes, str_eq, starts_with, contains, contains_char, split, trim_end_by}

abbrev pub slash : ℕ
slash = b'/'

-- The segment `**`.
abbrev pub deep : Str
deep = codes "**"

unfoldable pub reject_syntax : Str → Bool
unfolding starts_with contains_char
reject_syntax raw =
    is_empty raw
    || not (starts_with raw (codes "/"))
    || contains_char raw 0
    || contains_char raw b'~'
    || contains_char raw b'\\'

-- The characters and the run that `valid_path_glob` refuses besides.
unfoldable pub has_shell_syntax : Str → Bool
unfolding contains_char contains
has_shell_syntax scope =
    contains_char scope b'{'
    || contains_char scope b'}'
    || contains_char scope b'['
    || contains_char scope b']'
    || contains_char scope b'$'
    || contains scope (codes "//")

unfoldable pub valid_glob_segment : Str → Bool
unfolding str_eq contains
valid_glob_segment segment =
    if is_empty segment || str_eq segment (codes ".") || str_eq segment (codes "..")
    then false
    else not (contains segment deep && not (str_eq segment deep))

unfoldable pub trim_slashes : Str → Str
unfolding trim_end_by
trim_slashes path = trim_end_by (λ c. c == slash) path

unfoldable pub valid_path_glob : Str → Bool
unfolding reject_syntax has_shell_syntax valid_glob_segment trim_slashes str_eq split
valid_path_glob scope =
    if reject_syntax scope
    then false
    else if has_shell_syntax scope
    then false
    else (let trimmed = trim_slashes scope in
        let body = if is_empty trimmed then codes "/" else trimmed in
        if str_eq body (codes "/")
        then true
        else all valid_glob_segment (drop 1 (split body slash)))

unfoldable pub has_meta : Str → Bool
has_meta pattern = any (λ c. c == b'*' || c == b'?') pattern

unfoldable pub trim_trailing_slash : Str → Str
unfolding trim_slashes
trim_trailing_slash path = if ltb 1 (length path) then trim_slashes path else path

-- `filter(|segment| !segment.is_empty())`.
unfoldable pub non_empty : List Str → List Str
non_empty [] = []
non_empty (p ∷ ps) = if is_empty p then non_empty ps else p ∷ non_empty ps

unfoldable pub segments : Str → List Str
unfolding trim_trailing_slash str_eq non_empty split
segments path =
    let trimmed = trim_trailing_slash path in
    if is_empty trimmed || str_eq trimmed (codes "/") then [] else non_empty (split trimmed slash)

-- The inner function `rec` of `segment_match`.
unfoldable pub segment_match : Str → Str → Bool
segment_match [] segment = is_empty segment
segment_match (p ∷ pattern) [] =
    let skip = segment_match pattern [] in if p == b'*' then skip else false
segment_match (p ∷ pattern) (c ∷ segment) =
    let skip = segment_match pattern (c ∷ segment) in
    let more = segment_match (p ∷ pattern) segment in
    let next = segment_match pattern segment in
    if p == b'*' then skip || more else if p == b'?' || p == c then next else false

-- `(0..=path.len()).any(|index| f(&path[index..]))`.
unfoldable pub any_suffix : (List Str → Bool) → List Str → Bool
any_suffix f [] = f []
any_suffix f (s ∷ path) = let more = any_suffix f path in f (s ∷ path) || more

-- The last branch of `segments_match`: one segment against one segment.
unfoldable pub match_head : Str → (List Str → Bool) → List Str → Bool
match_head p f [] = false
match_head p f (s ∷ path) = if segment_match p s then f path else false

unfoldable pub segments_match : List Str → List Str → Bool
unfolding str_eq segment_match any_suffix match_head
segments_match [] path = is_empty path
segments_match (p ∷ pattern) path =
    let onward = any_suffix (segments_match pattern) path in
    let one = match_head p (segments_match pattern) path in
    if str_eq p deep then (if is_empty pattern then true else onward) else one

unfoldable pub segment_glob : Str → Str → Bool
unfolding segments_match segments
segment_glob pattern path = segments_match (segments pattern) (segments path)
