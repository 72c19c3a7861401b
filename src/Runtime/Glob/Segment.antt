-- ===== src/Runtime/Glob/Segment.antt =====
-- crates/novbot-skill-runtime/src/path.rs: `segment_match` and an inductive reading of a pattern.
use novbot.Common.{
  ℕ, ◌≡◌, ◌≢◌, ◌↔◌, refl, true, [], ◌∷◌, arith, ◌==◌, Bool-cases, ||-eq-true, ◌⊎◌, inl, inr, All,
}
use novbot.Text.{Str}
use novbot.Runtime.Glob.{segment_match}

pub data SegmentMatches : Str → Str → Type 0 where
  finish : SegmentMatches [] []
  leave : {c : ℕ} {p s : Str} → c ≡ b'*' → SegmentMatches p s → SegmentMatches (c ∷ p) s
  take_one :
      {c d : ℕ} {p s : Str} → c ≡ b'*' → SegmentMatches (c ∷ p) s → SegmentMatches (c ∷ p) (d ∷ s)
  byte :
      {c d : ℕ} {p s : Str}
      → c ≢ b'*'
      → (c ≡ b'?') ⊎ (c ≡ d)
      → SegmentMatches p s
      → SegmentMatches (c ∷ p) (d ∷ s)

segment_match_sound : (p s : Str) → segment_match p s ≡ true → SegmentMatches p s
unfolding segment_match
segment_match_sound [] [] h = finish
segment_match_sound [] (d ∷ s) h = cc
segment_match_sound (c ∷ p) [] h = leave (ground arith) (segment_match_sound p [] (ground arith))
segment_match_sound (c ∷ p) (d ∷ s) h = elim (Bool-cases (c == b'*')) [
  | inl star ↦
      elim (||-eq-true (segment_match p (d ∷ s)) (segment_match (c ∷ p) s) (ground arith)) [
        | inl skip ↦ leave (ground arith) (segment_match_sound p (d ∷ s) skip)
        | inr more ↦ take_one (ground arith) (segment_match_sound (c ∷ p) s more)
      ]
  | inr plain ↦ byte (ground arith) (ground arith) (segment_match_sound p s (ground arith))
]

segment_match_complete : {p s : Str} → SegmentMatches p s → segment_match p s ≡ true
unfolding segment_match
segment_match_complete finish = refl
segment_match_complete (leave {c} {p} {s = []} e m) = ground (arith, segment_match_complete m)
segment_match_complete (leave {c} {p} {s = d ∷ s} e m) = ground (arith, segment_match_complete m)
segment_match_complete (take_one e m) = ground (arith, segment_match_complete m)
segment_match_complete (byte ne e m) = ground (arith, segment_match_complete m)

-- segment_match answers true exactly on the segments that the pattern with * and ? describes.
pub segment_match_iff : (p s : Str) → (segment_match p s ≡ true) ↔ SegmentMatches p s
segment_match_iff p s = (segment_match_sound p s, segment_match_complete)

-- A byte that a pattern takes for itself.
abbrev pub IsPlainByte : ℕ → Type 0
IsPlainByte c = (c ≢ b'*') × (c ≢ b'?')

SegmentMatches-literal : (p s : Str) → All IsPlainByte p → SegmentMatches p s → p ≡ s
SegmentMatches-literal [] s h finish = refl
SegmentMatches-literal (c ∷ p) s (h, hs) (leave e m) = absurd (h.0 e)
SegmentMatches-literal (c ∷ p) s (h, hs) (take_one e m) = absurd (h.0 e)
SegmentMatches-literal (c ∷ p) s (h, hs) (byte ne e m) =
    ground (arith, SegmentMatches-literal p _ hs m)

segment_match_self : (p : Str) → All IsPlainByte p → segment_match p p ≡ true
unfolding segment_match
segment_match_self [] h = refl
segment_match_self (c ∷ p) (h, hs) = ground (arith, segment_match_self p hs)

pub segment_match-literal : (p s : Str) → All IsPlainByte p → (segment_match p s ≡ true) ↔ (p ≡ s)
segment_match-literal p s h = (
  λ e. SegmentMatches-literal p s h (segment_match_sound p s e),
  λ e. rw (← e) (segment_match_self p h),
)
