-- ===== src/Runtime/Deny/Components.antt =====
-- crates/novbot-skill-runtime/src/deny.rs: the text tests, read on the components of a path.
use novbot.Common.{
  ◌≡◌, ◌≢◌, ◌↔◌, refl, sym, ap, ◌∙◌, Bool, true, List, [], ◌∷◌, ◌++◌, some, arith, ◌||◌, All,
  All-map, All-append_right, ||-eq-true, Option-cases, inl, inr, append_assoc, append-nil,
}
use novbot.Text.{Str, codes, str_eq, strip_prefix, starts_with, join, split}
use novbot.Text.Laws.{
  str_eq_iff, str_eq_refl, starts_with→some, some→starts_with, strip_prefix-append,
  strip_prefix-eq-some,
}
use novbot.Text.Parts.{Lacks, split-join, split-append, split-ne-nil}
use novbot.Runtime.Glob.{slash}
use novbot.Runtime.FilePath.{PathBuf, render}
use novbot.Runtime.FilePath.Rendered.{IsEntry, segments-render}
use novbot.Runtime.Deny.{under_dir, test_below}

lacks : (ps : List Str) → All IsEntry ps → All (Lacks slash) ps
lacks ps h = All-map ps (λ p e. e.1) h

pub render-injective :
    (ps qs : PathBuf) → All IsEntry ps → All IsEntry qs → render ps ≡ render qs → ps ≡ qs
render-injective ps qs hp hq e = cc (segments-render ps hp, segments-render qs hq)

-- The components read off the text of a path; the root gives one empty part.
abbrev parts_of : PathBuf → List Str
parts_of [] = [] ∷ []
parts_of (p ∷ ps) = p ∷ ps

split-join_parts :
    (path : PathBuf) → All IsEntry path → split (join path (codes "/")) slash ≡ parts_of path
split-join_parts [] h = unfold join split in refl
split-join_parts (p ∷ ps) h = split-join (p ∷ ps) slash (cc) (lacks (p ∷ ps) h)

joined_below :
    (path dir : PathBuf) (r : Str)
    → render path ≡ (render dir ++ codes "/") ++ r
    → join path (codes "/") ≡ join dir (codes "/") ++ slash ∷ r
unfolding render
joined_below path dir r e =
    let e' : slash ∷ join path (codes "/") ≡ slash ∷ (join dir (codes "/") ++ slash ∷ r) =
      rw append_assoc at e in
    cc

-- What follows the text of a directory and a separator is split into the components below it.
pub strip_prefix_sound :
    (path dir : PathBuf) (r : Str)
    → All IsEntry path
    → dir ≢ []
    → All IsEntry dir
    → strip_prefix (render path) (render dir ++ codes "/") ≡ some r
    → path ≡ dir ++ split r slash
strip_prefix_sound path [] r hp ne hd e = absurd (ne refl)
strip_prefix_sound [] (d ∷ dir) r hp ne (hd, hs) e =
    let joined = joined_below [] (d ∷ dir) r (strip_prefix-eq-some (render []) _ e) in
    let parts : [] ∷ [] ≡ d ∷ (dir ++ split r slash) =
      sym (split-join_parts [] tt)
      ∙ ap (λ t. split t slash) joined
      ∙ split-append (d ∷ dir) r slash (cc) (lacks (d ∷ dir) (hd, hs)) in
    let empty : d ≡ [] = cc in absurd (hd.0 empty)
strip_prefix_sound (p ∷ ps) (d ∷ dir) r hp ne hd e =
    let joined = joined_below (p ∷ ps) (d ∷ dir) r (strip_prefix-eq-some (render (p ∷ ps)) _ e) in
    sym (split-join_parts (p ∷ ps) hp)
    ∙ ap (λ t. split t slash) joined
    ∙ split-append (d ∷ dir) r slash (cc) (lacks (d ∷ dir) hd)

join_below :
    (d : Str) (dir : PathBuf) (q : Str) (qs : PathBuf)
    → join (d ∷ (dir ++ q ∷ qs)) (codes "/")
      ≡ join (d ∷ dir) (codes "/") ++ (codes "/" ++ join (q ∷ qs) (codes "/"))
unfolding join
join_below d [] q qs = refl
join_below d (c ∷ dir) q qs = rw (append_assoc, append_assoc, join_below c dir q qs)

-- The other way round: the text of a path below a directory begins with the directory's.
pub strip_prefix_complete :
    (d : Str) (dir : PathBuf) (q : Str) (qs : PathBuf)
    → strip_prefix (render (d ∷ (dir ++ q ∷ qs))) (render (d ∷ dir) ++ codes "/")
      ≡ some (join (q ∷ qs) (codes "/"))
unfolding render
strip_prefix_complete d dir q qs =
    rw
      (
        join_below d dir q qs,
        ← append_assoc (codes "/" ++ join (d ∷ dir) (codes "/")) (codes "/")
            (join (q ∷ qs) (codes "/")),
      )
      (strip_prefix-append ((codes "/" ++ join (d ∷ dir) (codes "/")) ++ codes "/")
        (join (q ∷ qs) (codes "/")))

-- A directory's place or a place below it.
abbrev pub Under : PathBuf → PathBuf → Type 0
Under path dir = (rest : PathBuf) × (path ≡ dir ++ rest)

-- The textual test is the test on components: no look-alike such as `/rootkit` passes it.
pub under_dir_iff :
    (path : PathBuf) (d : Str) (dir : PathBuf)
    → All IsEntry path
    → All IsEntry (d ∷ dir)
    → (under_dir (render path) (render (d ∷ dir)) ≡ true) ↔ Under path (d ∷ dir)
unfolding under_dir
under_dir_iff path d dir hp hd = (sound, complete)
  where
    sound :
        (str_eq (render path) (render (d ∷ dir))
            || starts_with (render path) (render (d ∷ dir) ++ codes "/"))
          ≡ true
        → Under path (d ∷ dir)
    sound h = elim (||-eq-true (str_eq (render path) (render (d ∷ dir))) _ h) [
      | inl e ↦ (
        [],
        render-injective path (d ∷ dir) hp hd ((str_eq_iff (render path) _).0 e)
            ∙ sym (append-nil (d ∷ dir)),
      )
      | inr e ↦
          let (r, k) = starts_with→some (render path) (render (d ∷ dir) ++ codes "/") e in
          (split r slash, strip_prefix_sound path (d ∷ dir) r hp (cc) hd k)
    ]

    complete :
        Under path (d ∷ dir)
        → (str_eq (render path) (render (d ∷ dir))
            || starts_with (render path) (render (d ∷ dir) ++ codes "/"))
          ≡ true
    complete ([], e) =
        let same : path ≡ d ∷ dir = e ∙ append-nil (d ∷ dir) in
        rw (same, str_eq_refl (render (d ∷ dir)))
    complete (q ∷ qs, e) = ground (
      arith,
      some→starts_with (render path) (render (d ∷ dir) ++ codes "/") (join (q ∷ qs) (codes "/"))
          (rw e (strip_prefix_complete d dir q qs)),
    )

-- A test of the components below a directory, made on the text that follows its name.
below_sound :
    (test : List Str → Bool) (path : PathBuf) (d : Str) (dir : PathBuf)
    → All IsEntry path
    → All IsEntry (d ∷ dir)
    → test_below test (strip_prefix (render path) (render (d ∷ dir) ++ codes "/")) ≡ true
    → (rest : List Str) × (rest ≢ []) × (path ≡ d ∷ (dir ++ rest)) × (test rest ≡ true)
below_sound test path d dir hp hd h =
    elim (Option-cases (strip_prefix (render path) (render (d ∷ dir) ++ codes "/"))) [
      | inl e ↦ cc (rw e at h)
      | inr (r, e) ↦ (
        split r slash,
        split-ne-nil r slash,
        strip_prefix_sound path (d ∷ dir) r hp (cc) hd e,
        rw e at h,
      )
    ]

below_complete :
    (test : List Str → Bool) (d : Str) (dir rest : PathBuf)
    → All IsEntry rest
    → rest ≢ []
    → test rest ≡ true
    → test_below test (strip_prefix (render (d ∷ (dir ++ rest))) (render (d ∷ dir) ++ codes "/"))
      ≡ true
below_complete test d dir [] hr ne h = absurd (ne refl)
below_complete test d dir (q ∷ qs) hr ne h =
    rw (strip_prefix_complete d dir q qs, split-join (q ∷ qs) slash (cc) (lacks (q ∷ qs) hr)) h

-- Such a test is a test of the components that follow the directory's.
pub below_iff :
    (test : List Str → Bool) (path : PathBuf) (d : Str) (dir : PathBuf)
    → All IsEntry path
    → All IsEntry (d ∷ dir)
    → (test_below test (strip_prefix (render path) (render (d ∷ dir) ++ codes "/")) ≡ true)
      ↔ ((rest : List Str) × (rest ≢ []) × (path ≡ d ∷ (dir ++ rest)) × (test rest ≡ true))
below_iff test path d dir hp hd = (
  below_sound test path d dir hp hd,
  λ (rest, ne, e, h).
      let entries : All IsEntry ((d ∷ dir) ++ rest) = rw e at hp in
      rw e (below_complete test d dir rest (All-append_right IsEntry (d ∷ dir) rest entries) ne h),
)
