-- ===== src/Runtime/FilePath/Lexical.antt =====
-- crates/novbot-skill-runtime/src/path.rs: `lexical_normalize` and `reject_syntax`.
use mathlib.Core.List.{reverse, tail, reverse-cons}
use novbot.Common.{
  ℕ, ◌≡◌, ◌≢◌, ◌↔◌, refl, ap, ◌∙◌, Bool, true, false, ◌||◌, List, [], ◌∷◌, ◌++◌, none, some, arith,
  All, All-append, All-map, Bool-cases, inl, inr, append_assoc, append-nil, is_empty, drop,
}
use novbot.Text.{Str, codes, str_eq, starts_with, contains_char, split, join}
use novbot.Text.Laws.{str_eq_iff}
use novbot.Text.Parts.{
  Lacks, contains_char→Lacks, Lacks→contains_char, split-All, split-Lacks, split-join,
}
use novbot.Runtime.Glob.{slash, reject_syntax}
use novbot.Runtime.FilePath.{
  PathBuf, Fs, render, normalize_from, lexical_normalize, canonical_own, resolve_own, resolve,
}

-- A byte that `reject_syntax` refuses anywhere.
abbrev pub IsClean : ℕ → Type 0
IsClean c = (c ≢ 0) × (c ≢ b'~') × (c ≢ b'\\')

-- A name that stands for an entry of its own directory: not empty, not `.` or `..`, no separator.
pub record IsName (p : Str) : Type 0 where
  pub not_empty : p ≢ []
  pub not_dot : p ≢ codes "."
  pub not_dot_dot : p ≢ codes ".."
  pub no_slash : Lacks slash p
  pub clean : All IsClean p

All-reverse : (P : Str → Type 0) (ps : List Str) → All P ps → All P (reverse ps)
All-reverse P [] h = tt
All-reverse P (p ∷ ps) (hp, h) =
    rw reverse-cons (All-append P (reverse ps) (p ∷ []) (All-reverse P ps h) (hp, tt))

All-tail : (P : Str → Type 0) (ps : List Str) → All P ps → All P (tail ps)
All-tail P [] h = tt
All-tail P (p ∷ ps) (hp, h) = h

abbrev pub is_forbidden : Str → Bool
is_forbidden part = contains_char part 0 || contains_char part b'~' || contains_char part b'\\'

allowed→clean : (part : Str) → is_forbidden part ≡ false → All IsClean part
allowed→clean part h =
    let h0 : contains_char part 0 ≡ false = ground arith in
    let h1 : contains_char part b'~' ≡ false = ground arith in
    let h2 : contains_char part b'\\' ≡ false = ground arith in
    join_clean part (contains_char→Lacks part 0 h0) (contains_char→Lacks part b'~' h1)
      (contains_char→Lacks part b'\\' h2)
  where
    join_clean : (p : Str) → Lacks 0 p → Lacks b'~' p → Lacks b'\\' p → All IsClean p
    join_clean [] a b c = tt
    join_clean (x ∷ p) (a, ha) (b, hb) (c, hc) = ((a, b, c), join_clean p ha hb hc)

pub clean→allowed : (part : Str) → All IsClean part → is_forbidden part ≡ false
clean→allowed part h = ground (
  arith,
  Lacks→contains_char part 0 (All-map part (λ c k. k.0) h),
  Lacks→contains_char part b'~' (All-map part (λ c k. k.1) h),
  Lacks→contains_char part b'\\' (All-map part (λ c k. k.2) h),
)

-- The four ways in which the loop reads a part.
pub data Read (part : Str) : Type 0 where
  skipped : (is_empty part || str_eq part (codes ".")) ≡ true → Read part
  popped :
      (is_empty part || str_eq part (codes ".")) ≡ false
      → str_eq part (codes "..") ≡ true
      → Read part
  refused :
      (is_empty part || str_eq part (codes ".")) ≡ false
      → str_eq part (codes "..") ≡ false
      → is_forbidden part ≡ true
      → Read part
  pushed :
      (is_empty part || str_eq part (codes ".")) ≡ false
      → str_eq part (codes "..") ≡ false
      → is_forbidden part ≡ false
      → Read part

pub read : (part : Str) → Read part
read part = elim (Bool-cases (is_empty part || str_eq part (codes "."))) [
  | inl a ↦ skipped a
  | inr a ↦ elim (Bool-cases (str_eq part (codes ".."))) [
    | inl b ↦ popped a b
    | inr b ↦ elim (Bool-cases (is_forbidden part)) [ inl c ↦ refused a b c | inr c ↦ pushed a b c ]
  ]
]

pub pushed-IsName :
    (part : Str)
    → (is_empty part || str_eq part (codes ".")) ≡ false
    → str_eq part (codes "..") ≡ false
    → is_forbidden part ≡ false
    → Lacks slash part
    → IsName part
pushed-IsName part a b c no_slash = record {
  not_empty = λ e. ground arith;
  not_dot = λ e. ground (arith, str_eq_iff part (codes "."));
  not_dot_dot = λ e. ground (arith, str_eq_iff part (codes ".."));
  no_slash = no_slash;
  clean = allowed→clean part c;
}

normalize_from-IsName :
    (stack parts : List Str) (path : PathBuf)
    → All IsName stack
    → All (Lacks slash) parts
    → normalize_from stack parts ≡ some path
    → All IsName path
unfolding normalize_from
normalize_from-IsName stack [] path h k e =
    let same : reverse stack ≡ path = cc in rw (← same) (All-reverse IsName stack h)
normalize_from-IsName stack (part ∷ parts) path h (hp, k) e = elim (read part) [
  | skipped a ↦ normalize_from-IsName stack parts path h k (rw a at e)
  | popped a b ↦
      normalize_from-IsName (tail stack) parts path (All-tail IsName stack h) k (rw (a, b) at e)
  | refused a b c ↦ cc (rw (a, b, c) at e)
  | pushed a b c ↦
      normalize_from-IsName (part ∷ stack) parts path (pushed-IsName part a b c hp, h) k
        (rw (a, b, c) at e)
]

All-drop : (P : Str → Type 0) (ps : List Str) → All P ps → All P (drop 1 ps)
All-drop P [] h = tt
All-drop P (p ∷ ps) (hp, h) = h

-- Every component of a normalised path is a plain name: no separators, no dots and none of the
-- refused bytes.
pub lexical_normalize-IsName :
    (raw : Str) (path : PathBuf) → lexical_normalize raw ≡ some path → All IsName path
unfolding lexical_normalize
lexical_normalize-IsName raw path e = elim (Bool-cases (starts_with raw (codes "/"))) [
  | inl a ↦
      normalize_from-IsName [] (drop 1 (split raw slash)) path tt
        (All-drop (Lacks slash) (split raw slash) (split-Lacks raw slash)) (rw a at e)
  | inr a ↦ cc (rw a at e)
]

pub IsName→Read :
    (part : Str)
    → IsName part
    → ((is_empty part || str_eq part (codes ".")) ≡ false)
      × (str_eq part (codes "..") ≡ false)
      × (is_forbidden part ≡ false)
IsName→Read [] n = absurd (n.not_empty refl)
IsName→Read (c ∷ p) n = (
  ground (arith, str_eq_iff (c ∷ p) (codes "."), n.not_dot),
  ground (arith, str_eq_iff (c ∷ p) (codes ".."), n.not_dot_dot),
  clean→allowed (c ∷ p) n.clean,
)

normalize_from_names :
    (stack parts : List Str)
    → All IsName parts
    → normalize_from stack parts ≡ some (reverse stack ++ parts)
unfolding normalize_from
normalize_from_names stack [] h = rw append-nil
normalize_from_names stack (part ∷ parts) (n, h) =
    let (a, b, c) = IsName→Read part n in
    rw (a, b, c, normalize_from_names (part ∷ stack) parts h, reverse-cons, append_assoc)

pub lexical_normalize_parts :
    (s : Str) → lexical_normalize (slash ∷ s) ≡ normalize_from [] (split s slash)
unfolding lexical_normalize
lexical_normalize_parts s = refl

-- A path made of such names is its own normal form.
pub lexical_normalize-render :
    (path : PathBuf) → All IsName path → lexical_normalize (render path) ≡ some path
lexical_normalize-render [] h = unfold lexical_normalize render in refl
lexical_normalize-render (p ∷ ps) (n, h) =
    unfold render in
    rw
      (
        lexical_normalize_parts (join (p ∷ ps) (codes "/")),
        split-join (p ∷ ps) slash (cc) (IsName.no_slash n, All-map ps (λ q m. IsName.no_slash m) h),
      )
      (normalize_from_names [] (p ∷ ps) (n, h))

-- Normalising the text of a normalised path gives the path again.
lexical_normalize_idempotent :
    (raw : Str) (path : PathBuf)
    → lexical_normalize raw ≡ some path
    → lexical_normalize (render path) ≡ some path
lexical_normalize_idempotent raw path e =
    lexical_normalize-render path (lexical_normalize-IsName raw path e)

pub absolute_cases :
    (raw : Str) → starts_with raw (codes "/") ≡ true → (s : Str) × (raw ≡ slash ∷ s)
unfolding starts_with
absolute_cases [] h = cc
absolute_cases (c ∷ s) h = (s, ground arith)

normalize_from_total :
    (stack parts : List Str)
    → All (All IsClean) parts
    → (path : PathBuf) × (normalize_from stack parts ≡ some path)
unfolding normalize_from
normalize_from_total stack [] h = (reverse stack, refl)
normalize_from_total stack (part ∷ parts) (hp, h) = elim (read part) [
  | skipped a ↦ rw a (normalize_from_total stack parts h)
  | popped a b ↦ rw (a, b) (normalize_from_total (tail stack) parts h)
  | refused a b c ↦ cc (clean→allowed part hp)
  | pushed a b c ↦ rw (a, b, c) (normalize_from_total (part ∷ stack) parts h)
]

accepted :
    (raw : Str) → reject_syntax raw ≡ false → All IsClean raw × ((s : Str) × (raw ≡ slash ∷ s))
unfolding reject_syntax
accepted raw h = (allowed→clean raw (ground arith), absolute_cases raw (ground arith))

lexical_normalize_total :
    (raw : Str) → reject_syntax raw ≡ false → (path : PathBuf) × (lexical_normalize raw ≡ some path)
lexical_normalize_total raw h =
    let (clean, (s, e)) = accepted raw h in
    let clean' : All IsClean s = (rw e at clean).1 in
    let (path, k) = normalize_from_total [] (split s slash) (split-All IsClean s slash clean') in
    (path, ap lexical_normalize e ∙ lexical_normalize_parts s ∙ k)

-- `resolve` answers for a text that `reject_syntax` lets pass, by the path of its names.
pub resolve_accepted :
    (fs : Fs) (raw : Str)
    → reject_syntax raw ≡ false
    → (path : PathBuf) × (lexical_normalize raw ≡ some path)
      × (resolve fs raw ≡ some (resolve_own fs (canonical_own fs path)))
unfolding resolve
resolve_accepted fs raw h = let (path, k) = lexical_normalize_total raw h in (path, k, rw (h, k))

-- resolve answers for every text that reject_syntax lets pass, and for no other.
pub resolve-eq-none_iff :
    (fs : Fs) (raw : Str) → (resolve fs raw ≡ none) ↔ (reject_syntax raw ≡ true)
resolve-eq-none_iff fs raw = elim (Bool-cases (reject_syntax raw)) [
  | inl bad ↦ (λ e. bad, λ e. unfold resolve in rw bad)
  | inr good ↦ let (path, k, r) = resolve_accepted fs raw good in (λ e. cc, λ e. cc)
]
