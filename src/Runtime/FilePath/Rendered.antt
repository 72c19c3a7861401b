-- ===== src/Runtime/FilePath/Rendered.antt =====
-- crates/novbot-skill-runtime/src/path.rs: a path, its text and its segments.
use novbot.Common.{
  ◌<◌, ◌≡◌, ◌≢◌, refl, ap, Bool, true, false, not, ◌&&◌, all, all→All, List, [], ◌∷◌, ◌++◌, arith,
  ◌==◌, All, All-map, Bool-cases, inl, inr, append_assoc, is_empty, length,
}
use novbot.Text.{Str, codes, str_eq, split, join}
use novbot.Text.Laws.{str_eq_iff}
use novbot.Text.Parts.{Lacks, split-join, trim_end_by-append}
use novbot.Runtime.Glob.{slash, trim_slashes, trim_trailing_slash, non_empty, segments}
use novbot.Runtime.FilePath.{PathBuf, render, display_path}

-- A component that a text can hold: not empty, and without a separator.
abbrev pub IsEntry : Str → Type 0
IsEntry p = (p ≢ []) × Lacks slash p

-- The same as a test, for paths that are written out.
abbrev pub is_entry : Str → Bool
is_entry p = not (is_empty p) && all (λ c. not (c == slash)) p

pub entries_of : (ps : List Str) → all is_entry ps ≡ true → All IsEntry ps
entries_of ps h =
    All-map ps (λ p e. (λ n. ground arith, lacks_of p (ground arith))) (all→All is_entry ps h)
  where
    lacks_of : (p : Str) → all (λ c. not (c == slash)) p ≡ true → Lacks slash p
    lacks_of p k = All-map p (λ c e. ground arith) (all→All (λ c. not (c == slash)) p k)

-- Every joined text ends in its last part.
join_last :
    (p : Str) (ps : List Str) (sep : Str)
    → All IsEntry (p ∷ ps)
    → (s q : Str) × IsEntry q × (join (p ∷ ps) sep ≡ s ++ q)
unfolding join
join_last p [] sep (h, _) = ([], p, h, refl)
join_last p (q ∷ ps) sep (hp, h) =
    let (s, last, hl, e) = join_last q ps sep h in
    (p ++ (sep ++ s), last, hl, rw (e, append_assoc, append_assoc))

not_slash : (q : Str) → Lacks slash q → All (λ c. (c == slash) ≡ false) q
not_slash q h = All-map q (λ c ne. ground arith) h

trim_slashes-render :
    (p : Str) (ps : List Str)
    → All IsEntry (p ∷ ps)
    → trim_slashes (render (p ∷ ps)) ≡ render (p ∷ ps)
unfolding trim_slashes render
trim_slashes-render p ps h =
    let (s, q, (ne, lacks), e) = join_last p ps (codes "/") h in
    rw e (trim_end_by-append (λ c. c == slash) (slash ∷ s) q ne (not_slash q lacks))

length-render : (p : Str) (ps : List Str) → All IsEntry (p ∷ ps) → 1 < length (render (p ∷ ps))
unfolding render join
length-render [] ps ((ne, _), h) = absurd (ne refl)
length-render (c ∷ p) [] h = omega arith
length-render (c ∷ p) (q ∷ ps) h = omega arith

-- A text of more than one byte keeps its form when trimmed.
pub trim_trailing_slash-render :
    (path : PathBuf) → All IsEntry path → trim_trailing_slash (render path) ≡ render path
unfolding trim_trailing_slash
trim_trailing_slash-render [] h = unfold render join in refl
trim_trailing_slash-render (p ∷ ps) h =
    ground (arith, length-render p ps h, trim_slashes-render p ps h)

pub display_path_lem : (path : PathBuf) → All IsEntry path → display_path path ≡ render path
unfolding display_path
display_path_lem path h = trim_trailing_slash-render path h

non_empty_lem : (ps : List Str) → All IsEntry ps → non_empty ps ≡ ps
unfolding non_empty
non_empty_lem [] h = refl
non_empty_lem ([] ∷ ps) ((ne, _), h) = absurd (ne refl)
non_empty_lem ((c ∷ p) ∷ ps) (_, h) = ap (λ qs. (c ∷ p) ∷ qs) (non_empty_lem ps h)

pub not_root :
    (p : Str) (ps : List Str) → All IsEntry (p ∷ ps) → str_eq (render (p ∷ ps)) (codes "/") ≡ false
not_root p ps h = elim (Bool-cases (str_eq (render (p ∷ ps)) (codes "/"))) [
  | inl e ↦
      let same = (str_eq_iff (render (p ∷ ps)) (codes "/")).0 e in
      absurd (omega (arith, length-render p ps h, ap length same))
  | inr e ↦ e
]

split-render :
    (p : Str) (ps : List Str) → All IsEntry (p ∷ ps) → split (render (p ∷ ps)) slash ≡ [] ∷ p ∷ ps
unfolding render split
split-render p ps h =
    ap (λ qs. [] ∷ qs) (split-join (p ∷ ps) slash (cc) (All-map (p ∷ ps) (λ q e. e.1) h))

render_not_empty : (path : PathBuf) → is_empty (render path) ≡ false
unfolding render
render_not_empty path = refl

-- The segments of a path's text are its components.
pub segments-render : (path : PathBuf) → All IsEntry path → segments (render path) ≡ path
unfolding segments
segments-render [] h = unfold render join in refl
segments-render (p ∷ ps) h =
    rw
      (
        trim_trailing_slash-render (p ∷ ps) h,
        not_root p ps h,
        split-render p ps h,
        render_not_empty (p ∷ ps),
      )
      (non_empty_lem (p ∷ ps) h)
