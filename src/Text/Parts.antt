-- ===== src/Text/Parts.antt =====
-- `split`, `join` and the trimming of an end.
use novbot.Common.{
  ℕ, ◌≡◌, ◌≢◌, refl, ap, Bool, false, List, [], ◌∷◌, ◌++◌, arith, ◌==◌, All, Bool-cases, inl, inr,
  append_assoc, is_empty,
}
use novbot.Text.{Str, split, cons_head, join, contains_char, trim_end_by}

-- No character of the text is `c`.
abbrev pub Lacks : ℕ → Str → Type 0
Lacks c = All (λ d. d ≢ c)

pub contains_char→Lacks : (s : Str) (c : ℕ) → contains_char s c ≡ false → Lacks c s
unfolding contains_char
contains_char→Lacks [] c h = tt
contains_char→Lacks (d ∷ s) c h = (ground arith, contains_char→Lacks s c (ground arith))

pub Lacks→contains_char : (s : Str) (c : ℕ) → Lacks c s → contains_char s c ≡ false
unfolding contains_char
Lacks→contains_char [] c h = refl
Lacks→contains_char (d ∷ s) c (h, hs) = ground (arith, Lacks→contains_char s c hs)

cons_head-All :
    (P : Str → Type 0) (c : ℕ) (ps : List Str)
    → ((p : Str) → P p → P (c ∷ p))
    → P (c ∷ [])
    → All P ps
    → All P (cons_head c ps)
cons_head-All P c [] f h hs = (h, tt)
cons_head-All P c (p ∷ ps) f h (hp, hs) = (f p hp, hs)

-- What holds of every character of a text holds of those of its parts.
pub split-All : (Q : ℕ → Type 0) (s : Str) (sep : ℕ) → All Q s → All (All Q) (split s sep)
unfolding split
split-All Q [] sep h = (tt, tt)
split-All Q (c ∷ s) sep (h, hs) = elim (Bool-cases (c == sep)) [
  | inl e ↦ rw e (tt, split-All Q s sep hs)
  | inr e ↦
      rw e (cons_head-All (All Q) c (split s sep) (λ p k. (h, k)) (h, tt) (split-All Q s sep hs))
]

pub split-Lacks : (s : Str) (sep : ℕ) → All (Lacks sep) (split s sep)
unfolding split
split-Lacks [] sep = (tt, tt)
split-Lacks (c ∷ s) sep = elim (Bool-cases (c == sep)) [
  | inl e ↦ rw e (tt, split-Lacks s sep)
  | inr e ↦
      let ne : c ≢ sep = ground arith in
      rw e (cons_head-All (Lacks sep) c (split s sep) (λ p k. (ne, k)) (ne, tt) (split-Lacks s sep))
]

pub split_last : (p : Str) (sep : ℕ) → Lacks sep p → split p sep ≡ p ∷ []
unfolding split
split_last [] sep h = refl
split_last (c ∷ p) sep (h, hs) = ground (arith, split_last p sep hs)

split_first :
    (p rest : Str) (sep : ℕ) → Lacks sep p → split (p ++ sep ∷ rest) sep ≡ p ∷ split rest sep
unfolding split
split_first [] rest sep h = ground arith
split_first (c ∷ p) rest sep (h, hs) = ground (arith, split_first p rest sep hs)

-- Splitting a join gives the parts back, if there is a part and none holds the separator.
pub split-join :
    (ps : List Str) (sep : ℕ) → ps ≢ [] → All (Lacks sep) ps → split (join ps (sep ∷ [])) sep ≡ ps
unfolding join
split-join [] sep ne h = absurd (ne refl)
split-join (p ∷ []) sep ne (hp, h) = split_last p sep hp
split-join (p ∷ q ∷ ps) sep ne (hp, h) =
    rw (split_first p (join (q ∷ ps) (sep ∷ [])) sep hp)
      (ap (λ r. p ∷ r) (split-join (q ∷ ps) sep (cc) h))

trim_end_by_clean : (f : ℕ → Bool) (p : Str) → All (λ c. f c ≡ false) p → trim_end_by f p ≡ p
unfolding trim_end_by
trim_end_by_clean f [] h = refl
trim_end_by_clean f (c ∷ p) (h, hs) = ground (arith, trim_end_by_clean f p hs)

-- A text that ends in a part the test refuses throughout is left as it is.
pub trim_end_by-append :
    (f : ℕ → Bool) (s p : Str) → p ≢ [] → All (λ c. f c ≡ false) p → trim_end_by f (s ++ p) ≡ s ++ p
unfolding trim_end_by
trim_end_by-append f [] p ne h = trim_end_by_clean f p h
trim_end_by-append f (c ∷ s) [] ne h = absurd (ne refl)
trim_end_by-append f (c ∷ s) (d ∷ p) ne h =
    ground (arith, trim_end_by-append f s (d ∷ p) ne h, keeps s)
  where
    keeps : (t : Str) → is_empty (t ++ d ∷ p) ≡ false
    keeps [] = refl
    keeps (x ∷ t) = refl

-- A separator behind joined parts: the text splits into those parts and the parts of the rest.
pub split-append :
    (ps : List Str) (rest : Str) (sep : ℕ)
    → ps ≢ []
    → All (Lacks sep) ps
    → split (join ps (sep ∷ []) ++ sep ∷ rest) sep ≡ ps ++ split rest sep
unfolding join
split-append [] rest sep ne h = absurd (ne refl)
split-append (p ∷ []) rest sep ne (hp, h) = split_first p rest sep hp
split-append (p ∷ q ∷ ps) rest sep ne (hp, h) =
    rw (append_assoc, split_first p (join (q ∷ ps) (sep ∷ []) ++ sep ∷ rest) sep hp)
      (ap (λ r. p ∷ r) (split-append (q ∷ ps) rest sep (cc) h))

pub split-ne-nil : (s : Str) (sep : ℕ) → split s sep ≢ []
unfolding split
split-ne-nil [] sep e = cc
split-ne-nil (c ∷ s) sep e = elim (Bool-cases (c == sep)) [
  | inl a ↦ cc (rw a at e)
  | inr a ↦ cons_head-ne-nil c (split s sep) (rw a at e)
]
  where
    cons_head-ne-nil : (d : ℕ) (ps : List Str) → cons_head d ps ≢ []
    cons_head-ne-nil d [] k = cc
    cons_head-ne-nil d (p ∷ ps) k = cc

join-cons_head :
    (c : ℕ) (ps : List Str) (sep : Str) → ps ≢ [] → join (cons_head c ps) sep ≡ c ∷ join ps sep
unfolding join
join-cons_head c [] sep ne = absurd (ne refl)
join-cons_head c (p ∷ []) sep ne = refl
join-cons_head c (p ∷ q ∷ ps) sep ne = refl

join-cons_nil :
    (ps : List Str) (sep : ℕ) → ps ≢ [] → join ([] ∷ ps) (sep ∷ []) ≡ sep ∷ join ps (sep ∷ [])
unfolding join
join-cons_nil [] sep ne = absurd (ne refl)
join-cons_nil (p ∷ ps) sep ne = refl

-- Joining the parts of a split gives the text back.
pub join-split : (s : Str) (sep : ℕ) → join (split s sep) (sep ∷ []) ≡ s
unfolding split
join-split [] sep = unfold join in refl
join-split (c ∷ s) sep = elim (Bool-cases (c == sep)) [
  | inl a ↦
      rw (a, join-cons_nil (split s sep) sep (split-ne-nil s sep), join-split s sep) (ground arith)
  | inr a ↦ rw (a, join-cons_head c (split s sep) (sep ∷ []) (split-ne-nil s sep), join-split s sep)
]
