-- ===== src/Core/Selector/Canonical.antt =====
-- crates/novbot-core/src/tags.rs: equalities that conflict, the canonical form, `parse_selector`.
use novbot.Common.{
  ℕ, Bool, ◌&&◌, ◌||◌, List, [], ◌∷◌, ◌++◌, map, Option, none, some, ltb, ◌==◌, if◌then◌else◌,
  Result, ok, err, ◌>>=◌, ◌>>◌, fail_if, any, length, is_empty,
}
use novbot.Text.{Str, codes, str_eq, trim, join}
use novbot.Core.Tags.Ordering.{str_lt, sort_by, sorted_unique}
use novbot.Core.Selector.{
  Requirement, eq, not_eq, is_in, not_in, exists, not_exists, SelectorParse, empty, all_nodes,
  filter, SelectorError, max_selector_chars, max_requirements,
}
use novbot.Core.Selector.Parser.{ParsedReq, requirements_from, skip_ws_from}

-- `eq_values.entry(key).or_default().push(value)` on a map in the order of its keys.
unfoldable pub push_value : Str → Str → List (Str × List Str) → List (Str × List Str)
push_value k v [] = (k, v ∷ []) ∷ []
push_value k v ((j, vs) ∷ m) =
    if str_lt k j
    then (k, v ∷ []) ∷ (j, vs) ∷ m
    else if str_eq k j
    then (j, vs ++ v ∷ []) ∷ m
    else (j, vs) ∷ push_value k v m

-- The first loop of `reject_conflicting_equality`, on the requirements that were read.
unfoldable pub eq_values : List (Str × List Str) → List Requirement → List (Str × List Str)
eq_values m [] = m
eq_values m (eq k v ∷ reqs) = eq_values (push_value k v m) reqs
eq_values m (other ∷ reqs) = eq_values m reqs

abbrev pub last_or : ℕ → Option ℕ → ℕ
last_or i none = i
last_or i (some j) = j

-- `eq_pos.get(key)`: the start of the last equality with the key.
unfoldable pub eq_pos : Str → List ParsedReq → Option ℕ
eq_pos k [] = none
eq_pos k (parsed ∷ reqs) =
    let rest = eq_pos k reqs in
    elim (parsed.req) [
      | eq j v ↦ if str_eq j k then some (last_or (parsed.start) rest) else rest
      | _ ↦ rest
    ]

-- The loop over `eq_values`.
unfoldable pub reject : List ParsedReq → List (Str × List Str) → Result (Unit {0}) SelectorError
reject reqs [] = ok tt
reject reqs ((k, vs) ∷ m) =
    let distinct = sorted_unique vs in
    fail_if (ltb 1 (length distinct)) (record {
      message =
          codes "conflicting equality for `"
          ++ k
          ++ codes "`; use `"
          ++ k
          ++ codes " in ("
          ++ join distinct (codes ",")
          ++ codes ")`";
      position = last_or 0 (eq_pos k reqs);
    })
    >> reject reqs m

-- The last loop: the first equality of each key, with the set `seen_eq`.
unfoldable pub first_equalities : List Str → List Requirement → List Requirement
first_equalities seen [] = []
first_equalities seen (eq k v ∷ reqs) =
    let skip = first_equalities seen reqs in
    let keep = first_equalities (k ∷ seen) reqs in
    if any (str_eq k) seen then skip else eq k v ∷ keep
first_equalities seen (other ∷ reqs) = other ∷ first_equalities seen reqs

unfoldable pub reject_conflicting_equality :
    List ParsedReq → Result (List Requirement) SelectorError
reject_conflicting_equality reqs =
    let plain = map (λ parsed. parsed.req) reqs in
    reject reqs (eq_values [] plain) >> ok (first_equalities [] plain)

-- The `map` of `canonical_of`.
unfoldable pub ordered : Requirement → Requirement
ordered (is_in k vs) = is_in k (sorted_unique vs)
ordered (not_in k vs) = not_in k (sorted_unique vs)
ordered other = other

unfoldable pub req_sort_key : Requirement → Str × ℕ × Str
req_sort_key (eq k v) = (k, 0, v)
req_sort_key (not_eq k v) = (k, 1, v)
req_sort_key (is_in k vs) = (k, 2, join vs (codes ","))
req_sort_key (not_in k vs) = (k, 3, join vs (codes ","))
req_sort_key (exists k) = (k, 4, [])
req_sort_key (not_exists k) = (k, 5, [])

unfoldable pub sort_key_lt : Str × ℕ × Str → Str × ℕ × Str → Bool
sort_key_lt (a, m, s) (b, n, t) = str_lt a b || (str_eq a b && (ltb m n || (m == n && str_lt s t)))

unfoldable pub req_canonical : Requirement → Str
req_canonical (eq k v) = k ++ codes "=" ++ v
req_canonical (not_eq k v) = k ++ codes "!=" ++ v
req_canonical (is_in k vs) = k ++ codes " in (" ++ join vs (codes ",") ++ codes ")"
req_canonical (not_in k vs) = k ++ codes " notin (" ++ join vs (codes ",") ++ codes ")"
req_canonical (exists k) = k
req_canonical (not_exists k) = codes "!" ++ k

unfoldable pub canonical_of : List Requirement → Str
canonical_of reqs =
    let owned = sort_by (λ a b. sort_key_lt (req_sort_key a) (req_sort_key b)) (map ordered reqs) in
    join (map req_canonical owned) (codes ",")

-- The last lines of `parse_selector`.
unfoldable pub finish : List ParsedReq → Result SelectorParse SelectorError
finish reqs = do
  requirements ← reject_conflicting_equality reqs
  ok (filter (record { requirements = requirements; canonical = canonical_of requirements }))

unfoldable pub parse_selector : Str → Result SelectorParse SelectorError
parse_selector input =
    let trimmed = trim input in
    if ltb max_selector_chars (length input)
    then err (record { message = codes "selector exceeds 1024 characters"; position = 0 })
    else if is_empty trimmed
    then ok empty
    else if str_eq trimmed (codes "*")
    then ok all_nodes
    else requirements_from max_requirements (skip_ws_from input 0) >>= finish
