-- ===== src/Text.antt =====
-- Rust's string operations that the program calls, over lists of numbers.
-- A text is a list of code points; where the program works on bytes (paths, grants), of bytes.
pub mod Laws
pub mod Parts
pub mod Maps
use Prim.Native.Char.{code}
use Prim.Native.String.{String}
use mathlib.Core.List.{reverse}
use novbot.Common.{
  ℕ, ◌+◌, ◌-◌, ◌*◌, Bool, true, false, not, ◌&&◌, ◌||◌, List, [], ◌∷◌, ◌++◌, map, Option, none,
  some, leb, ◌==◌, if◌then◌else◌, any, is_empty,
}

abbrev pub Str : Type 0
Str = List ℕ

-- The code points of a literal: its bytes, if it is ASCII.
abbrev pub codes : String → Str
codes String.[] = []
codes (String.◌∷◌ c s) = code c ∷ codes s

unfoldable pub str_eq : Str → Str → Bool
str_eq [] [] = true
str_eq (c ∷ s) (d ∷ t) = c == d && str_eq s t
str_eq _ _ = false

-- `starts_with(prefix)` and `strip_prefix(prefix)`.
unfoldable pub strip_prefix : Str → Str → Option Str
strip_prefix s [] = some s
strip_prefix [] (d ∷ p) = none
strip_prefix (c ∷ s) (d ∷ p) = if c == d then strip_prefix s p else none

unfoldable pub starts_with : Str → Str → Bool
unfolding strip_prefix
starts_with s p = elim (strip_prefix s p) [ none ↦ false | some _ ↦ true ]

unfoldable pub ends_with : Str → Str → Bool
unfolding str_eq
ends_with [] p = str_eq [] p
ends_with (c ∷ s) p = str_eq (c ∷ s) p || ends_with s p

-- `contains` with a text, and with a character.
unfoldable pub contains : Str → Str → Bool
unfolding starts_with
contains [] p = starts_with [] p
contains (c ∷ s) p = starts_with (c ∷ s) p || contains s p

unfoldable pub contains_char : Str → ℕ → Bool
contains_char s c = any (λ d. d == c) s

-- `split(sep)`: always at least one part.
abbrev pub cons_head : ℕ → List Str → List Str
cons_head c [] = (c ∷ []) ∷ []
cons_head c (p ∷ ps) = (c ∷ p) ∷ ps

unfoldable pub split : Str → ℕ → List Str
split [] sep = [] ∷ []
split (c ∷ s) sep = if c == sep then [] ∷ split s sep else cons_head c (split s sep)

unfoldable pub split_once : Str → ℕ → Option (Str × Str)
split_once [] sep = none
split_once (c ∷ s) sep =
    if c == sep
    then some ([], s)
    else elim (split_once s sep) [ none ↦ none | some (a, b) ↦ some (c ∷ a, b) ]

-- `join(sep)` of a list of texts.
unfoldable pub join : List Str → Str → Str
join [] sep = []
join (p ∷ []) sep = p
join (p ∷ q ∷ ps) sep = p ++ (sep ++ join (q ∷ ps) sep)

-- `trim_start_matches` and `trim_end_matches` with a test.
unfoldable pub trim_start_by : (ℕ → Bool) → Str → Str
trim_start_by f [] = []
trim_start_by f (c ∷ s) = if f c then trim_start_by f s else c ∷ s

unfoldable pub trim_end_by : (ℕ → Bool) → Str → Str
trim_end_by f [] = []
trim_end_by f (c ∷ s) = let rest = trim_end_by f s in if f c && is_empty rest then [] else c ∷ rest

-- `char::is_ascii_lowercase` and the like.
unfoldable pub is_lower : ℕ → Bool
is_lower c = leb b'a' c && leb c b'z'

unfoldable pub is_upper : ℕ → Bool
is_upper c = leb b'A' c && leb c b'Z'

unfoldable pub is_digit : ℕ → Bool
is_digit c = leb b'0' c && leb c b'9'

unfoldable pub lower : ℕ → ℕ
unfolding is_upper
lower c = if is_upper c then c + 32 else c

unfoldable pub to_ascii_lowercase : Str → Str
unfolding lower
to_ascii_lowercase s = map lower s

unfoldable pub is_ascii_whitespace : ℕ → Bool
is_ascii_whitespace c = c == 32 || c == 9 || c == 10 || c == 12 || c == 13

-- `char::is_whitespace`: the code points with the Unicode property White_Space.
unfoldable pub is_whitespace : ℕ → Bool
is_whitespace c =
    (leb 9 c && leb c 13)
    || c == 32
    || c == 0x85
    || c == 0xa0
    || c == 0x1680
    || (leb 0x2000 c && leb c 0x200a)
    || c == 0x2028
    || c == 0x2029
    || c == 0x202f
    || c == 0x205f
    || c == 0x3000

unfoldable pub trim : Str → Str
unfolding trim_start_by trim_end_by is_whitespace
trim s = trim_end_by is_whitespace (trim_start_by is_whitespace s)

-- `split_whitespace`: the maximal runs without white space.
unfoldable pub words_from : Str → Str → List Str
unfolding is_whitespace
words_from cur [] = if is_empty cur then [] else cur ∷ []
words_from cur (c ∷ s) =
    let fresh = words_from [] s in
    let closed = if is_empty cur then fresh else cur ∷ fresh in
    let longer = words_from (cur ++ c ∷ []) s in if is_whitespace c then closed else longer

unfoldable pub split_whitespace : Str → List Str
unfolding words_from
split_whitespace s = words_from [] s

-- `str::parse::<uN>()`, for the bound `limit` of the type: an optional plus sign, then digits.
unfoldable pub scan_digits : ℕ → Str → ℕ → Option ℕ
unfolding is_digit
scan_digits limit [] n = if leb n limit then some n else none
scan_digits limit (c ∷ s) n =
    let rest = scan_digits limit s (n * 10 + (c - b'0')) in if is_digit c then rest else none

unfoldable pub parse_uint : ℕ → Str → Option ℕ
unfolding scan_digits
parse_uint limit [] = none
parse_uint limit (c ∷ []) = scan_digits limit (c ∷ []) 0
parse_uint limit (c ∷ d ∷ s) =
    if c == b'+' then scan_digits limit (d ∷ s) 0 else scan_digits limit (c ∷ d ∷ s) 0
