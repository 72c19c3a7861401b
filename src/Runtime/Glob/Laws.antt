-- ===== src/Runtime/Glob/Laws.antt =====
-- crates/novbot-skill-runtime/src/path.rs: `segments_match` and an inductive reading of a pattern.
use novbot.Common.{
  ◌≡◌, ◌≢◌, ◌↔◌, refl, ap, suc, Bool, true, List, [], ◌∷◌, ◌++◌, arith, Bool-cases, ||-eq-true, ◌⊎◌,
  inl, inr, All, length,
}
use novbot.Text.{Str, str_eq}
use novbot.Text.Laws.{str_eq_iff}
use novbot.Runtime.Glob.{deep, segment_match, any_suffix, match_head, segments_match}
use novbot.Runtime.Glob.Segment.{
  SegmentMatches, segment_match_iff, IsPlainByte, segment_match-literal,
}

-- `**` is any run of segments, and every other segment of the pattern is one segment of the path.
pub data GlobMatches : List Str → List Str → Type 0 where
  finish : GlobMatches [] []
  leave : {p : Str} {ps xs : List Str} → p ≡ deep → GlobMatches ps xs → GlobMatches (p ∷ ps) xs
  take_one :
      {p x : Str} {ps xs : List Str}
      → p ≡ deep
      → GlobMatches (p ∷ ps) xs
      → GlobMatches (p ∷ ps) (x ∷ xs)
  one :
      {p x : Str} {ps xs : List Str}
      → p ≢ deep
      → SegmentMatches p x
      → GlobMatches ps xs
      → GlobMatches (p ∷ ps) (x ∷ xs)

-- The answer true has a derivation, whatever the path.
abbrev IsSound : List Str → Type 0
IsSound ps = (xs : List Str) → segments_match ps xs ≡ true → GlobMatches ps xs

any_suffix_sound :
    (p : Str) (ps xs : List Str)
    → p ≡ deep
    → IsSound ps
    → any_suffix (segments_match ps) xs ≡ true
    → GlobMatches (p ∷ ps) xs
unfolding any_suffix
any_suffix_sound p ps [] e ih h = leave e (ih [] h)
any_suffix_sound p ps (x ∷ xs) e ih h =
    elim (||-eq-true (segments_match ps (x ∷ xs)) (any_suffix (segments_match ps) xs) h) [
      | inl now ↦ leave e (ih (x ∷ xs) now)
      | inr later ↦ take_one e (any_suffix_sound p ps xs e ih later)
    ]

any_suffix_now : (f : List Str → Bool) (xs : List Str) → f xs ≡ true → any_suffix f xs ≡ true
unfolding any_suffix
any_suffix_now f [] h = h
any_suffix_now f (x ∷ xs) h = rw h

any_suffix_later :
    (f : List Str → Bool) (x : Str) (xs : List Str)
    → any_suffix f xs ≡ true
    → any_suffix f (x ∷ xs) ≡ true
unfolding any_suffix
any_suffix_later f x xs h = ground arith

rest_is_granted : (p : Str) (xs : List Str) → p ≡ deep → GlobMatches (p ∷ []) xs
rest_is_granted p [] e = leave e finish
rest_is_granted p (x ∷ xs) e = take_one e (rest_is_granted p xs e)

-- The three ways in which a pattern with a first segment is read.
segments_match-deep :
    (p q : Str) (ps xs : List Str)
    → p ≡ deep
    → segments_match (p ∷ q ∷ ps) xs ≡ any_suffix (segments_match (q ∷ ps)) xs
unfolding segments_match
segments_match-deep p q ps xs e = ground (arith, str_eq_iff p deep)

segments_match_end : (p : Str) (xs : List Str) → p ≡ deep → segments_match (p ∷ []) xs ≡ true
unfolding segments_match
segments_match_end p xs e = ground (arith, str_eq_iff p deep)

segments_match_one :
    (p : Str) (ps xs : List Str)
    → p ≢ deep
    → segments_match (p ∷ ps) xs ≡ match_head p (segments_match ps) xs
unfolding segments_match
segments_match_one p ps xs ne = ground (arith, str_eq_iff p deep)

dec_deep : (p : Str) → (p ≡ deep) ⊎ (p ≢ deep)
dec_deep p = ground (arith, str_eq_iff p deep, Bool-cases (str_eq p deep))

match_head_sound :
    (p : Str) (ps xs : List Str)
    → p ≢ deep
    → IsSound ps
    → match_head p (segments_match ps) xs ≡ true
    → GlobMatches (p ∷ ps) xs
unfolding match_head
match_head_sound p ps [] ne ih h = cc
match_head_sound p ps (x ∷ xs) ne ih h =
    one ne ((segment_match_iff p x).0 (ground arith)) (ih xs (ground arith))

segments_match-IsSound : (ps : List Str) → IsSound ps
segments_match-IsSound [] [] h = finish
segments_match-IsSound [] (x ∷ xs) h = unfold segments_match in cc
segments_match-IsSound (p ∷ []) xs h = elim (dec_deep p) [
  | inl e ↦ rest_is_granted p xs e
  | inr ne ↦
      match_head_sound p [] xs ne (segments_match-IsSound [])
        (rw (segments_match_one p [] xs ne) at h)
]
segments_match-IsSound (p ∷ q ∷ ps) xs h = elim (dec_deep p) [
  | inl e ↦
      any_suffix_sound p (q ∷ ps) xs e (segments_match-IsSound (q ∷ ps))
        (rw (segments_match-deep p q ps xs e) at h)
  | inr ne ↦
      match_head_sound p (q ∷ ps) xs ne (segments_match-IsSound (q ∷ ps))
        (rw (segments_match_one p (q ∷ ps) xs ne) at h)
]

match_head_of :
    (p x : Str) (f : List Str → Bool) (xs : List Str)
    → segment_match p x ≡ true
    → f xs ≡ true
    → match_head p f (x ∷ xs) ≡ true
unfolding match_head
match_head_of p x f xs h k = ground arith

segments_match_complete : {ps xs : List Str} → GlobMatches ps xs → segments_match ps xs ≡ true
segments_match_complete finish = unfold segments_match in refl
segments_match_complete (leave {p} {ps = []} {xs} e m) = segments_match_end p xs e
segments_match_complete (leave {p} {ps = q ∷ ps} {xs} e m) =
    rw (segments_match-deep p q ps xs e) (any_suffix_now _ xs (segments_match_complete m))
segments_match_complete (take_one {p} {x} {ps = []} {xs} e m) = segments_match_end p (x ∷ xs) e
segments_match_complete (take_one {p} {x} {ps = q ∷ ps} {xs} e m) =
    rw (segments_match-deep p q ps (x ∷ xs) e) (
      any_suffix_later _ x xs (rw (segments_match-deep p q ps xs e) at (segments_match_complete m)))
segments_match_complete (one {p} {x} {ps} {xs} ne s m) =
    rw (segments_match_one p ps (x ∷ xs) ne)
      (match_head_of p x _ xs ((segment_match_iff p x).1 s) (segments_match_complete m))

-- The matcher of segments answers true exactly on the paths that the pattern describes, with **
-- for any number of segments.
pub segments_match_iff : (ps xs : List Str) → (segments_match ps xs ≡ true) ↔ GlobMatches ps xs
segments_match_iff ps xs = (segments_match-IsSound ps xs, segments_match_complete)

same_depth : (ps xs : List Str) → All (λ p. p ≢ deep) ps → GlobMatches ps xs → length ps ≡ length xs
same_depth [] xs h finish = refl
same_depth (p ∷ ps) xs (ne, h) (leave e m) = absurd (ne e)
same_depth (p ∷ ps) xs (ne, h) (take_one e m) = absurd (ne e)
same_depth (p ∷ ps) xs (ne, h) (one _ s m) = ap suc (same_depth ps _ h m)

-- A pattern without ** matches only paths of its own depth.
pub segments_match_same_depth :
    (ps xs : List Str)
    → All (λ p. p ≢ deep) ps
    → segments_match ps xs ≡ true
    → length ps ≡ length xs
segments_match_same_depth ps xs h m = same_depth ps xs h (segments_match-IsSound ps xs m)

-- A segment with neither `*` nor `?`.
abbrev pub IsLiteral : Str → Type 0
IsLiteral = All IsPlainByte

literal-ne-deep : (p : Str) → IsLiteral p → p ≢ deep
literal-ne-deep [] h e = cc
literal-ne-deep (c ∷ p) ((h, _), _) e = ground arith

subtree_sound :
    (base xs : List Str)
    → All IsLiteral base
    → segments_match (base ++ deep ∷ []) xs ≡ true
    → (rest : List Str) × (xs ≡ base ++ rest)
subtree_sound [] xs h m = (xs, refl)
subtree_sound (p ∷ base) [] (hp, h) m =
    unfold match_head in cc (segments_match_one p (base ++ deep ∷ []) [] (literal-ne-deep p hp))
subtree_sound (p ∷ base) (x ∷ xs) (hp, h) m =
    let step = segments_match_one p (base ++ deep ∷ []) (x ∷ xs) (literal-ne-deep p hp) in
    let (rest, e) = subtree_sound base xs h (unfold match_head in ground arith) in
    let same : p ≡ x = (segment_match-literal p x hp).0 (unfold match_head in ground arith) in
    (rest, cc)

subtree_complete :
    (base rest : List Str)
    → All IsLiteral base
    → segments_match (base ++ deep ∷ []) (base ++ rest) ≡ true
subtree_complete [] rest h = segments_match_end deep rest refl
subtree_complete (p ∷ base) rest (hp, h) =
    rw (segments_match_one p (base ++ deep ∷ []) (p ∷ (base ++ rest)) (literal-ne-deep p hp)) (
      match_head_of p p _ (base ++ rest) ((segment_match-literal p p hp).1 refl)
        (subtree_complete base rest h))

-- A literal directory followed by `**` grants the directory and its whole subtree, and no more.
pub segments_match_subtree :
    (base xs : List Str)
    → All IsLiteral base
    → (segments_match (base ++ deep ∷ []) xs ≡ true) ↔ ((rest : List Str) × (xs ≡ base ++ rest))
segments_match_subtree base xs h =
    (subtree_sound base xs h, λ (rest, e). rw e (subtree_complete base rest h))
