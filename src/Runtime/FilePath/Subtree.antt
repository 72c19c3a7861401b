-- ===== src/Runtime/FilePath/Subtree.antt =====
-- crates/novbot-skill-runtime/src/path.rs: `glob_matches` for a grant `<directory>/**`.
use novbot.Common.{
  ℕ, ◌≡◌, ◌≢◌, ◌↔◌, refl, ap, true, false, List, [], ◌∷◌, ◌++◌, Option, none, some, arith, All,
  All-map, All-append, Bool-cases, inl, inr, append_assoc,
}
use novbot.Text.{Str, codes, join}
use novbot.Runtime.Glob.{slash, deep, reject_syntax, has_meta, segments, segment_glob}
use novbot.Runtime.Glob.Laws.{GlobMatches, segments_match_iff, IsLiteral, segments_match_subtree}
use novbot.Runtime.FilePath.{
  PathBuf, Fs, Resolved, render, display_path, canonical_own, resolved_link, resolve_own,
  read_and_follow, canonical_literal, literal_prefix, glob_suffix, push_segments, canonical_pattern,
  glob_matches,
}
use novbot.Runtime.FilePath.Lexical.{
  IsName, IsClean, is_forbidden, clean→allowed, lexical_normalize-render, resolve_accepted,
}
use novbot.Runtime.FilePath.Rendered.{
  IsEntry, trim_trailing_slash-render, display_path_lem, segments-render, not_root,
}

-- The text of the grant on a directory's subtree.
abbrev pub subtree : PathBuf → Str
subtree base = render base ++ codes "/**"

IsName→IsEntry : (p : Str) → IsName p → IsEntry p
IsName→IsEntry p n = (n.not_empty, n.no_slash)

join-append :
    (p : Str) (ps : List Str) (q sep : Str)
    → join (p ∷ ps) sep ++ (sep ++ q) ≡ join (p ∷ (ps ++ q ∷ [])) sep
unfolding join
join-append p [] q sep = refl
join-append p (r ∷ ps) q sep = rw (append_assoc, append_assoc, join-append r ps q sep)

-- One more segment behind a path that is not the root.
render-append :
    (p : Str) (ps : List Str) (q : Str)
    → render (p ∷ ps) ++ (codes "/" ++ q) ≡ render (p ∷ (ps ++ q ∷ []))
unfolding render
render-append p ps q = ap (λ t. codes "/" ++ t) (join-append p ps q (codes "/"))

has_meta_literal : (p : Str) → IsLiteral p → has_meta p ≡ false
unfolding has_meta
has_meta_literal [] h = refl
has_meta_literal (c ∷ p) (h, hs) = ground (arith, has_meta_literal p hs)

has_meta-append_right : (s t : Str) → has_meta t ≡ true → has_meta (s ++ t) ≡ true
unfolding has_meta
has_meta-append_right [] t h = h
has_meta-append_right (c ∷ s) t h = ground (arith, has_meta-append_right s t h)

literal_prefix_lem :
    (base : List Str) → All IsLiteral base → literal_prefix (base ++ deep ∷ []) ≡ base
unfolding literal_prefix
literal_prefix_lem [] h = unfold has_meta in refl
literal_prefix_lem (p ∷ base) (hp, h) =
    rw (has_meta_literal p hp) (ap (λ ps. p ∷ ps) (literal_prefix_lem base h))

glob_suffix_lem :
    (base : List Str) → All IsLiteral base → glob_suffix (base ++ deep ∷ []) ≡ deep ∷ []
unfolding glob_suffix
glob_suffix_lem [] h = unfold has_meta in refl
glob_suffix_lem (p ∷ base) (hp, h) = rw (has_meta_literal p hp) (glob_suffix_lem base h)

deep-IsEntry : IsEntry deep
deep-IsEntry = (cc, omega arith)

All-concat_deep : (ps : List Str) → All IsEntry ps → All IsEntry (ps ++ deep ∷ [])
All-concat_deep ps h = All-append IsEntry ps (deep ∷ []) h (deep-IsEntry, tt)

segments-subtree :
    (base : PathBuf) → base ≢ [] → All IsEntry base → segments (subtree base) ≡ base ++ deep ∷ []
segments-subtree [] ne h = absurd (ne refl)
segments-subtree (p ∷ ps) ne h =
    rw (render-append p ps deep)
      (segments-render (p ∷ (ps ++ deep ∷ [])) (All-concat_deep (p ∷ ps) h))

-- The text that the loop builds from the canonical prefix and `**`.
push_deep :
    (real : PathBuf)
    → All IsEntry real
    → segments (push_segments (render real) (deep ∷ [])) ≡ real ++ deep ∷ []
unfolding push_segments
push_deep [] h = unfold render join in segments-render (deep ∷ []) (deep-IsEntry, tt)
push_deep (p ∷ ps) h = rw (not_root p ps h) (segments-subtree (p ∷ ps) (cc) h)

All-join :
    (Q : ℕ → Type 0) (ps : List Str) (sep : Str) → All Q sep → All (All Q) ps → All Q (join ps sep)
unfolding join
All-join Q [] sep hs h = tt
All-join Q (p ∷ []) sep hs (hp, h) = hp
All-join Q (p ∷ q ∷ ps) sep hs (hp, h) =
    All-append Q p _ hp (All-append Q sep _ hs (All-join Q (q ∷ ps) sep hs h))

reject_syntax-render : (path : PathBuf) → All IsName path → reject_syntax (render path) ≡ false
unfolding render reject_syntax
reject_syntax-render path h =
    let clean : All IsClean (slash ∷ join path (codes "/")) = (
      omega arith,
      All-join IsClean path (codes "/") (omega arith) (All-map path (λ p n. IsName.clean n) h),
    ) in
    let allowed : is_forbidden (slash ∷ join path (codes "/")) ≡ false =
      clean→allowed (slash ∷ join path (codes "/")) clean in
    ground arith

resolved_link-own : (own : PathBuf) (o : Option PathBuf) → Resolved.own (resolved_link own o) ≡ own
resolved_link-own own none = refl
resolved_link-own own (some scope) = refl

resolve_own-own : (fs : Fs) (own : PathBuf) → Resolved.own (resolve_own fs own) ≡ own
unfolding resolve_own
resolve_own-own fs own = elim (Bool-cases (fs.is_symlink own)) [
  | inl link ↦ rw link (resolved_link-own own (read_and_follow fs own))
  | inr plain ↦ rw plain
]

-- The canonical text of a path without metacharacters is the text of its canonical place.
canonical_literal-render :
    (fs : Fs) (path : PathBuf)
    → All IsName path
    → canonical_literal fs (render path) ≡ some (display_path (canonical_own fs path))
unfolding canonical_literal
canonical_literal-render fs path h =
    let (path', k, found) = resolve_accepted fs (render path) (reject_syntax-render path h) in
    let same : path' ≡ path = ground (arith, lexical_normalize-render path h) in
    rw (found, resolve_own-own, same)

canonical_pattern_of :
    (fs : Fs) (pattern : Str) (base real : PathBuf)
    → segments pattern ≡ base ++ deep ∷ []
    → All IsLiteral base
    → canonical_literal fs (render base) ≡ some (display_path real)
    → All IsEntry real
    → segments (canonical_pattern fs pattern) ≡ real ++ deep ∷ []
unfolding canonical_pattern
canonical_pattern_of fs pattern base real e literal canonical entries =
    rw (e, literal_prefix_lem base literal, glob_suffix_lem base literal)
      (unfold render in
        rw (canonical, display_path_lem real entries, trim_trailing_slash-render real entries)
          (push_deep real entries))

-- The subtree grant on a directory without metacharacters is matched as the canonical directory,
-- read as a pattern, followed by `**`.
pub glob_matches-subtree :
    (fs : Fs) (base candidate : PathBuf)
    → base ≢ []
    → All IsName base
    → All IsLiteral base
    → All IsEntry (canonical_own fs base)
    → All IsEntry candidate
    → (glob_matches fs (subtree base) candidate ≡ true)
      ↔ GlobMatches (canonical_own fs base ++ deep ∷ []) candidate
unfolding glob_matches segment_glob
glob_matches-subtree fs base candidate ne names literal real entries =
    let entries' : All IsEntry base = All-map base IsName→IsEntry names in
    rw
      (
        has_meta-append_right (render base) (codes "/**") (unfold has_meta in refl),
        canonical_pattern_of fs (subtree base) base (canonical_own fs base)
            (segments-subtree base ne entries') literal (canonical_literal-render fs base names)
            real,
        display_path_lem candidate entries,
        segments-render candidate entries,
      )
      (segments_match_iff (canonical_own fs base ++ deep ∷ []) candidate)

-- For paths of non-empty components without a slash, the grant on the subtree of a directory
-- other than the root, when neither its name nor its canonical form has metacharacters, matches
-- exactly the canonical directory and the paths below it.
pub glob_matches-subtree_iff :
    (fs : Fs) (base candidate : PathBuf)
    → base ≢ []
    → All IsName base
    → All IsLiteral base
    → All IsEntry (canonical_own fs base)
    → All IsLiteral (canonical_own fs base)
    → All IsEntry candidate
    → (glob_matches fs (subtree base) candidate ≡ true)
      ↔ ((rest : List Str) × (candidate ≡ canonical_own fs base ++ rest))
glob_matches-subtree_iff fs base candidate ne names literal real plain entries =
    let granted = glob_matches-subtree fs base candidate ne names literal real entries in
    let reached = segments_match_iff (canonical_own fs base ++ deep ∷ []) candidate in
    let below = segments_match_subtree (canonical_own fs base) candidate plain in
    (λ e. below.0 (reached.1 (granted.0 e)), λ r. granted.1 (reached.0 (below.1 r)))
