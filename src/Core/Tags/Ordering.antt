-- ===== src/Core/Tags/Ordering.antt =====
-- The order of Rust's strings and a stable sort, which crates/novbot-core/src/tags.rs calls.
use novbot.Common.{
  Bool, true, false, Bool-cases, inl, inr, ◌&&◌, ◌||◌, List, [], ◌∷◌, ltb, ◌==◌, if◌then◌else◌, All,
}
use novbot.Text.{Str, str_eq}

-- The lexical order of code points, which is that of the bytes of UTF-8.
unfoldable pub str_lt : Str → Str → Bool
str_lt [] [] = false
str_lt [] (d ∷ t) = true
str_lt (c ∷ s) [] = false
str_lt (c ∷ s) (d ∷ t) = ltb c d || (c == d && str_lt s t)

module _ {ℓ} {A : Type ℓ} (lt : A → A → Bool) where
  -- Behind the smaller elements, and before the equal ones, which the list holds later.
  unfoldable pub insert_by : A → List A → List A
  insert_by x [] = x ∷ []
  insert_by x (y ∷ ys) = if lt y x then y ∷ insert_by x ys else x ∷ y ∷ ys

  -- `sort_by`: a stable sort.
  unfoldable pub sort_by : List A → List A
  unfolding insert_by
  sort_by [] = []
  sort_by (x ∷ xs) = insert_by x (sort_by xs)

-- `dedup` of a list.
abbrev pub same_head : Str → List Str → Bool
same_head x [] = false
same_head x (y ∷ ys) = str_eq x y

unfoldable pub dedup : List Str → List Str
dedup [] = []
dedup (x ∷ xs) = let rest = dedup xs in if same_head x xs then rest else x ∷ rest

-- `sort`, then `dedup`.
unfoldable pub sorted_unique : List Str → List Str
unfolding sort_by dedup
sorted_unique values = dedup (sort_by str_lt values)

module _ {ℓ κ} {A : Type ℓ} (lt : A → A → Bool) (P : A → Type κ) where
  insert_by-All : (x : A) (ys : List A) → P x → All P ys → All P (insert_by lt x ys)
  unfolding insert_by
  insert_by-All x [] p h = (p, tt)
  insert_by-All x (y ∷ ys) p (q, h) = elim (Bool-cases (lt y x)) [
    | inl less ↦ rw less (q, insert_by-All x ys p h)
    | inr not_less ↦ rw not_less (p, (q, h))
  ]

  pub sort_by-All : (xs : List A) → All P xs → All P (sort_by lt xs)
  unfolding sort_by
  sort_by-All [] h = tt
  sort_by-All (x ∷ xs) (p, h) = insert_by-All x (sort_by lt xs) p (sort_by-All xs h)
