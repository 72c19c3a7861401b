-- ===== src/Core/Tags/Rules.antt =====
-- crates/novbot-core/src/tags.rs: valid keys, values and pairs, and system values.
use mathlib.Core.Path.{◌≡◌, refl, ap, subst, ◌∙◌}
use novbot.Common.{
  ℕ, suc, ◌+◌, ◌≤◌, true, false, [], ◌∷◌, map, some, ok, length, take, is_empty, ◌↔◌, All, all→All,
  All→all, length-take-le, take_of_le, arith,
}
use novbot.Text.{Str, is_lower, is_upper, lower, is_digit}
use novbot.Core.Tags.{
  is_tag_char, key_rest_ok, key_ok, value_ok, is_reserved_key, validate_center_tag, normalize_char,
  normalize_system_value,
}

-- A lower-case letter, a digit, a dot, an underscore or a dash.
abbrev pub IsTagChar : ℕ → Type 0
IsTagChar c = is_tag_char c ≡ true

-- 1 to 63 such characters.
abbrev pub IsValue : Str → Type 0
IsValue value = (1 ≤ length value) × ((length value ≤ 63) × All IsTagChar value)

-- The same, with a lower-case letter in front.
abbrev pub IsKey : Str → Type 0
IsKey [] = ⊥
IsKey (c ∷ chars) = (is_lower c ≡ true) × ((length chars ≤ 62) × All IsTagChar chars)

key_rest_ok→ :
    (n : ℕ) (chars : Str)
    → n ≤ 63
    → key_rest_ok n chars ≡ true
    → (n + length chars ≤ 63) × All IsTagChar chars
unfolding key_rest_ok
key_rest_ok→ n [] le h = (omega arith, tt)
key_rest_ok→ n (c ∷ chars) le h =
    let ih = key_rest_ok→ (n + 1) chars (ground arith) (ground arith) in
    (omega (arith, ih.0), (ground arith, ih.1))

key_rest_ok← :
    (n : ℕ) (chars : Str) → n + length chars ≤ 63 → All IsTagChar chars → key_rest_ok n chars ≡ true
unfolding key_rest_ok
key_rest_ok← n [] le h = refl
key_rest_ok← n (c ∷ chars) le (p, h) = ground (arith, key_rest_ok← (n + 1) chars (omega arith) h)

pub key_ok_iff : (key : Str) → (key_ok key ≡ true) ↔ IsKey key
unfolding key_ok
key_ok_iff [] = (λ h. absurd cc, λ h. absurd h)
key_ok_iff (c ∷ chars) = (
  λ h.
      let rest = key_rest_ok→ 1 chars (omega arith) (ground arith) in
      (ground arith, (omega (arith, rest.0), rest.1)),
  λ (low, (le, h)). ground (arith, key_rest_ok← 1 chars (omega arith) h),
)

pub value_ok_iff : (value : Str) → (value_ok value ≡ true) ↔ IsValue value
unfolding value_ok
value_ok_iff value = (
  λ h. (ground arith, (ground arith, all→All is_tag_char value (ground arith))),
  λ (low, (high, h)). ground (arith, All→all is_tag_char value h),
)

-- A pair of an operator is accepted exactly if its key has 1 to 63 of the allowed characters with
-- a lower-case letter in front and is not reserved, and its value has 1 to 63 of them.
pub validate_center_tag_iff :
    (key value : Str)
    → (validate_center_tag key value ≡ ok tt)
      ↔ (IsKey key × ((is_reserved_key key ≡ false) × IsValue value))
unfolding validate_center_tag
validate_center_tag_iff key value =
    let (k→, k←) = key_ok_iff key in
    let (v→, v←) = value_ok_iff value in
    (
      λ h. (k→ (ground arith), (ground arith, v→ (ground arith))),
      λ (k, (free, v)). ground (arith, k← k, v← v),
    )

normalize_char-IsTagChar : (c : ℕ) → IsTagChar (normalize_char c)
unfolding normalize_char is_tag_char
normalize_char-IsTagChar c = ground arith

normalized-All : (s : Str) → All IsTagChar (map normalize_char s)
normalized-All [] = tt
normalized-All (c ∷ s) = (normalize_char-IsTagChar c, normalized-All s)

normalize_char-fixed : (c : ℕ) → IsTagChar c → normalize_char c ≡ c
unfolding normalize_char is_tag_char lower is_upper is_lower is_digit
normalize_char-fixed c h = ground arith

normalized-fixed : (s : Str) → All IsTagChar s → map normalize_char s ≡ s
normalized-fixed [] h = refl
normalized-fixed (c ∷ s) (p, h) = rw (normalize_char-fixed c p, normalized-fixed s h) refl

value-nonempty : (s : Str) → IsValue s → is_empty s ≡ false
value-nonempty [] (low, rest) = absurd (omega arith)
value-nonempty (c ∷ s) h = refl

-- `map` keeps the length.
length-normalized : (s : Str) → length (map normalize_char s) ≡ length s
length-normalized [] = refl
length-normalized (c ∷ s) = ap suc (length-normalized s)

normalize_system_value-cons :
    (c : ℕ) (raw : Str)
    → normalize_system_value (c ∷ raw) ≡ some (map normalize_char (take 63 (c ∷ raw)))
unfolding normalize_system_value
normalize_system_value-cons c raw = refl

-- Every text but the empty one gives a system value, and that value is valid.
pub normalize_system_value-IsValue :
    (c : ℕ) (raw : Str)
    → (out : Str) × ((normalize_system_value (c ∷ raw) ≡ some out) × IsValue out)
unfolding normalize_system_value
normalize_system_value-IsValue c raw =
    let kept = take 63 (c ∷ raw) in
    let count = length-normalized kept in
    let bound = length-take-le 63 (c ∷ raw) in
    (
      map normalize_char kept,
      (refl, (omega arith, (omega (arith, count, bound), normalized-All kept))),
    )

-- Exactly the valid values are their own system values.
pub normalize_system_value-fixed :
    (value : Str) → (normalize_system_value value ≡ some value) ↔ IsValue value
unfolding normalize_system_value
normalize_system_value-fixed [] = (λ h. absurd cc, λ (low, rest). absurd (omega arith))
normalize_system_value-fixed (c ∷ value) = (
  λ h.
      let (out, (found, good)) = normalize_system_value-IsValue c value in
      let same : out ≡ c ∷ value = cc in subst IsValue same good,
  λ (low, (high, h)).
      normalize_system_value-cons c value
      ∙ ap (λ s. some (map normalize_char s)) (take_of_le 63 (c ∷ value) high)
      ∙ ap some (normalized-fixed (c ∷ value) h),
)
