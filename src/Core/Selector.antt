-- ===== src/Core/Selector.antt =====
-- crates/novbot-core/src/tags.rs, the second half: the selector and its matching. The children
-- hold the parser and the canonical form. A char is its code point, and a `BTreeMap` of tags is a
-- function from keys.
pub mod Parser
pub mod Canonical
pub mod Parsed
pub mod Limits
pub mod Grouping
pub mod Equality
use novbot.Common.{
  ℕ, suc, zero, ◌+◌, Bool, true, false, not, ◌&&◌, ◌||◌, List, [], ◌∷◌, ◌++◌, map, Option, none,
  some, ltb, leb, ◌==◌, if◌then◌else◌, Result, ok, err, ◌>>=◌, ◌>>◌, fail_if, all, any, length,
  is_empty,
}
use novbot.Text.{
  Str, codes, str_eq, starts_with, strip_prefix, is_lower, is_digit, is_ascii_whitespace, trim,
  join,
}

abbrev pub max_selector_chars : ℕ
max_selector_chars = 1024

abbrev pub max_requirements : ℕ
max_requirements = 16

abbrev pub max_set_values : ℕ
max_set_values = 32

pub data Requirement : Type 0 where
  eq not_eq : Str → Str → Requirement
  is_in not_in : Str → List Str → Requirement
  exists not_exists : Str → Requirement

pub record Selector : Type 0 where
  pub requirements : List Requirement
  pub canonical : Str

pub data SelectorParse : Type 0 where
  empty : SelectorParse
  all_nodes : SelectorParse
  filter : Selector → SelectorParse

pub record SelectorError : Type 0 where
  pub message : Str
  pub position : ℕ

abbrev pub Tags : Type 0
Tags = Str → Option Str

abbrev pub is_some : Option Str → Bool
is_some none = false
is_some (some _) = true

abbrev pub has_value : Option Str → Str → Bool
has_value none value = false
has_value (some v) value = str_eq v value

abbrev pub has_some : Option Str → List Str → Bool
has_some none values = false
has_some (some v) values = any (λ item. str_eq item v) values

-- One requirement of `selector_matches`; without a tag, `NotIn` holds.
unfoldable pub requirement_matches : Tags → Requirement → Bool
requirement_matches tags (eq key value) = has_value (tags key) value
requirement_matches tags (not_eq key value) = not (has_value (tags key) value)
requirement_matches tags (is_in key values) = has_some (tags key) values
requirement_matches tags (not_in key values) = not (has_some (tags key) values)
requirement_matches tags (exists key) = is_some (tags key)
requirement_matches tags (not_exists key) = not (is_some (tags key))

unfoldable pub selector_matches : Selector → Tags → Bool
selector_matches selector tags = all (requirement_matches tags) selector.requirements
