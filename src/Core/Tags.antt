-- ===== src/Core/Tags.antt =====
-- crates/novbot-core/src/tags.rs, the first half: which tags are well formed, the classification
-- of the tags that a node declares, and the values of system tags. A char is its code point.
-- A `HashMap` is the list of its pairs, in any order.
pub mod Ordering
pub mod Rules
pub mod Declared
use novbot.Common.{
  ℕ, ◌+◌, Bool, true, false, not, ◌&&◌, ◌||◌, List, [], ◌∷◌, map, Option, none, some, leb, ltb,
  ◌==◌, if◌then◌else◌, Result, ok, err, fail_if, ◌>>◌, all, any, length, take, is_empty,
}
use novbot.Text.{Str, codes, str_eq, starts_with, is_lower, is_digit, is_upper, lower}
use novbot.Core.Tags.Ordering.{str_lt, sort_by}

abbrev pub max_node_tags : ℕ
max_node_tags = 32

abbrev pub max_tag_chars : ℕ
max_tag_chars = 63

abbrev pub max_stored_chars : ℕ
max_stored_chars = 255

pub data CenterTagError : Type 0 where
  key_invalid value_invalid key_reserved : CenterTagError

pub record DeclaredTag : Type 0 where
  pub key : Str
  pub value : Str
  pub valid : Bool
  pub invalid_reason : Option Str

-- `sort_key` is the whole key, `tag.key` the stored one.
pub record Draft : Type 0 where
  pub sort_key : Str
  pub tag : DeclaredTag

unfoldable pub is_reserved_key : Str → Bool
is_reserved_key key = str_eq key (codes "sys") || starts_with key (codes "sys.")

unfoldable pub is_tag_char : ℕ → Bool
is_tag_char c = is_lower c || is_digit c || c == b'.' || c == b'_' || c == b'-'

-- The loop of `key_ok` over the rest of the key, with its counter.
unfoldable pub key_rest_ok : ℕ → Str → Bool
key_rest_ok n [] = true
key_rest_ok n (c ∷ chars) =
    let rest = key_rest_ok (n + 1) chars in
    if ltb max_tag_chars (n + 1) || not (is_tag_char c) then false else rest

unfoldable pub key_ok : Str → Bool
key_ok [] = false
key_ok (c ∷ chars) = if is_lower c then key_rest_ok 1 chars else false

unfoldable pub value_ok : Str → Bool
value_ok value = (leb 1 (length value) && leb (length value) max_tag_chars) && all is_tag_char value

unfoldable pub validate_center_tag : Str → Str → Result (Unit {0}) CenterTagError
validate_center_tag key value =
    fail_if (not (key_ok key)) key_invalid
    >> fail_if (is_reserved_key key) key_reserved
    >> fail_if (not (value_ok value)) value_invalid

-- Why a pair is invalid.
unfoldable pub reason_of : Str → Str → Option Str
reason_of key value =
    if ltb max_tag_chars (length key) || ltb max_tag_chars (length value)
    then some (codes "too_long")
    else if not (key_ok key)
    then some (codes "key_invalid")
    else if is_reserved_key key
    then some (codes "key_reserved")
    else if is_empty value
    then some (codes "value_empty")
    else if not (value_ok value)
    then some (codes "value_invalid")
    else none

abbrev pub is_none : Option Str → Bool
is_none none = true
is_none (some _) = false

unfoldable pub classify_one : Str × Str → Draft
classify_one (key, value) =
    let reason = reason_of key value in
    record {
      sort_key = key;
      tag = record {
        key = take max_stored_chars key;
        value = take max_stored_chars value;
        valid = is_none reason;
        invalid_reason = reason;
      };
    }

-- `a.sort_key.cmp(&b.sort_key).then(a.key.cmp(&b.key))` is less.
unfoldable pub draft_lt : Draft → Draft → Bool
draft_lt a b =
    str_lt a.sort_key b.sort_key || (str_eq a.sort_key b.sort_key && str_lt a.tag.key b.tag.key)

-- The loop that marks valid drafts past the limit, with `valid_seen`.
unfoldable pub mark_over_limit : ℕ → List Draft → List Draft
mark_over_limit valid_seen [] = []
mark_over_limit valid_seen (draft ∷ drafts) =
    let same = mark_over_limit valid_seen drafts in
    let counted = mark_over_limit (valid_seen + 1) drafts in
    if draft.tag.valid
    then if leb max_node_tags valid_seen
      then record draft {
        tag = record (draft.tag) { valid = false; invalid_reason = some (codes "over_limit") };
      }
        ∷ same
      else draft ∷ counted
    else draft ∷ same

-- The last loop: the first draft of each stored key, with the set `seen`.
unfoldable pub first_of_key : List Str → List Draft → List DeclaredTag
first_of_key seen [] = []
first_of_key seen (draft ∷ drafts) =
    let skip = first_of_key seen drafts in
    let keep = first_of_key (draft.tag.key ∷ seen) drafts in
    if any (str_eq draft.tag.key) seen then skip else draft.tag ∷ keep

unfoldable pub classify_declared_tags : List (Str × Str) → List DeclaredTag
classify_declared_tags pairs =
    first_of_key [] (mark_over_limit 0 (sort_by draft_lt (map classify_one pairs)))

-- One character of a system value.
unfoldable pub normalize_char : ℕ → ℕ
normalize_char c = let d = lower c in if is_tag_char d then d else b'_'

unfoldable pub normalize_system_value : Str → Option Str
normalize_system_value raw =
    let out = map normalize_char (take max_tag_chars raw) in
    if is_empty raw then none else if is_empty out then none else some out
