-- ===== src/Core/Tags/Declared.antt =====
-- crates/novbot-core/src/tags.rs: `classify_declared_tags`.
use mathlib.Core.Path.{◌≡◌, refl, subst}
use novbot.Common.{
  ℕ, suc, ◌+◌, ◌≤◌, true, false, List, [], ◌∷◌, map, leb, if◌then◌else◌, any, length, Bool-cases,
  inl, inr, All, All-map, Any, here, there, take_of_le, arith,
}
use novbot.Text.{Str, str_eq}
use novbot.Core.Tags.Ordering.{sort_by, sort_by-All}
use novbot.Core.Tags.{
  DeclaredTag, Draft, reason_of, classify_one, draft_lt, mark_over_limit, first_of_key, key_ok,
  value_ok, is_reserved_key, classify_declared_tags, is_none,
}
use novbot.Core.Tags.Rules.{IsKey, IsValue, key_ok_iff, value_ok_iff}

-- The number of valid tags.
abbrev pub count_valid : List DeclaredTag → ℕ
count_valid [] = 0
count_valid (tag ∷ tags) = if tag.valid then suc (count_valid tags) else count_valid tags

abbrev count_drafts : List Draft → ℕ
count_drafts [] = 0
count_drafts (d ∷ ds) = if d.tag.valid then suc (count_drafts ds) else count_drafts ds

mark_over_limit-count :
    (n : ℕ) (ds : List Draft) → n ≤ 32 → n + count_drafts (mark_over_limit n ds) ≤ 32
unfolding mark_over_limit
mark_over_limit-count n [] le = omega arith
mark_over_limit-count n (d ∷ ds) le = elim (Bool-cases (d.tag.valid)) [
  | inl valid ↦ elim (Bool-cases (leb 32 n)) [
    | inl full ↦ ground (arith, mark_over_limit-count n ds le)
    | inr room ↦ ground (arith, mark_over_limit-count (n + 1) ds (ground arith))
  ]
  | inr invalid ↦ ground (arith, mark_over_limit-count n ds le)
]

first_of_key-count :
    (seen : List Str) (ds : List Draft) → count_valid (first_of_key seen ds) ≤ count_drafts ds
unfolding first_of_key
first_of_key-count seen [] = omega arith
first_of_key-count seen (d ∷ ds) = elim (Bool-cases (any (str_eq d.tag.key) seen)) [
  | inl old ↦ ground (arith, first_of_key-count seen ds)
  | inr new ↦ ground (arith, first_of_key-count (d.tag.key ∷ seen) ds)
]

-- At most 32 of the tags that a node declares are valid, whatever it declares.
pub classify_declared_tags-count :
    (pairs : List (Str × Str)) → count_valid (classify_declared_tags pairs) ≤ 32
unfolding classify_declared_tags
classify_declared_tags-count pairs =
    let marked = mark_over_limit 0 (sort_by draft_lt (map classify_one pairs)) in
    omega (
      arith,
      mark_over_limit-count 0 (sort_by draft_lt (map classify_one pairs)) (omega arith),
      first_of_key-count [] marked,
    )

-- A tag that is valid stands for a declared pair with the rules' key and value, unshortened.
abbrev pub IsDeclared : List (Str × Str) → DeclaredTag → Type 0
IsDeclared pairs tag =
    tag.valid ≡ true
    → Any (λ pair. pair ≡ (tag.key, tag.value)) pairs
      × (IsKey tag.key × ((is_reserved_key tag.key ≡ false) × IsValue tag.value))

reason_of-eq-none :
    (key value : Str)
    → is_none (reason_of key value) ≡ true
    → (length key ≤ 63)
      × ((key_ok key ≡ true) × ((is_reserved_key key ≡ false) × (value_ok value ≡ true)))
unfolding reason_of
reason_of-eq-none key value h = ground arith

length-value : (value : Str) → IsValue value → length value ≤ 255
length-value value (low, (high, h)) = omega arith

classify_one-IsDeclared :
    (pairs : List (Str × Str)) (pair : Str × Str)
    → Any (λ p. p ≡ pair) pairs
    → IsDeclared pairs (classify_one pair).tag
unfolding classify_one
classify_one-IsDeclared pairs (key, value) stands valid =
    let (len, (k, (free, v))) = reason_of-eq-none key value valid in
    let good = (value_ok_iff value).0 v in
    rw (take_of_le 255 key (omega arith), take_of_le 255 value (length-value value good))
      ((stands, ((key_ok_iff key).0 k, (free, good))))

classified-All :
    (pairs some_pairs : List (Str × Str))
    → All (λ pair. Any (λ p. p ≡ pair) pairs) some_pairs
    → All (λ d. IsDeclared pairs d.tag) (map classify_one some_pairs)
classified-All pairs [] h = tt
classified-All pairs (pair ∷ rest) (stands, h) =
    (classify_one-IsDeclared pairs pair stands, classified-All pairs rest h)

pairs_kept : (pairs : List (Str × Str)) → All (λ pair. Any (λ p. p ≡ pair) pairs) pairs
pairs_kept [] = tt
pairs_kept (pair ∷ pairs) = (here refl, All-map pairs (λ p h. there h) (pairs_kept pairs))

mark_over_limit-All :
    (pairs : List (Str × Str)) (n : ℕ) (ds : List Draft)
    → All (λ d. IsDeclared pairs d.tag) ds
    → All (λ d. IsDeclared pairs d.tag) (mark_over_limit n ds)
unfolding mark_over_limit
mark_over_limit-All pairs n [] h = tt
mark_over_limit-All pairs n (d ∷ ds) (p, h) = elim (Bool-cases (d.tag.valid)) [
  | inl valid ↦ elim (Bool-cases (leb 32 n)) [
    | inl full ↦ simp (valid, full) ((λ e. absurd cc, mark_over_limit-All pairs n ds h))
    | inr room ↦ simp (valid, room) (((λ e. p valid), mark_over_limit-All pairs (n + 1) ds h))
  ]
  | inr invalid ↦ simp (invalid) (((λ e. absurd cc), mark_over_limit-All pairs n ds h))
]

first_of_key-All :
    (P : DeclaredTag → Type 0) (seen : List Str) (ds : List Draft)
    → All (λ d. P d.tag) ds
    → All P (first_of_key seen ds)
unfolding first_of_key
first_of_key-All P seen [] h = tt
first_of_key-All P seen (d ∷ ds) (p, h) = elim (Bool-cases (any (str_eq d.tag.key) seen)) [
  | inl old ↦ rw old (first_of_key-All P seen ds h)
  | inr new ↦ rw new (p, first_of_key-All P (d.tag.key ∷ seen) ds h)
]

member-All :
    {A : Type 0} (P : A → Type 0) (x : A) (xs : List A) → All P xs → Any (λ y. y ≡ x) xs → P x
member-All P x (y ∷ ys) (p, h) (here e) = subst P e p
member-All P x (y ∷ ys) (p, h) (there m) = member-All P x ys h m
member-All P x [] h m = elim m [ ]

-- A tag of a node that the classification calls valid is one of the declared pairs, unshortened,
-- with a valid key that is not reserved and a valid value.
pub classify_declared_tags-valid :
    (pairs : List (Str × Str)) (tag : DeclaredTag)
    → Any (λ t. t ≡ tag) (classify_declared_tags pairs)
    → tag.valid ≡ true
    → Any (λ pair. pair ≡ (tag.key, tag.value)) pairs
      × (IsKey tag.key × ((is_reserved_key tag.key ≡ false) × IsValue tag.value))
unfolding classify_declared_tags
classify_declared_tags-valid pairs tag stands valid =
    let drafts = sort_by draft_lt (map classify_one pairs) in
    let sound =
      sort_by-All draft_lt (λ d. IsDeclared pairs d.tag) (map classify_one pairs)
        (classified-All pairs pairs (pairs_kept pairs)) in
    member-All (IsDeclared pairs) tag (first_of_key [] (mark_over_limit 0 drafts))
      (first_of_key-All (IsDeclared pairs) [] (mark_over_limit 0 drafts)
        (mark_over_limit-All pairs 0 drafts sound))
      stands valid
