-- ===== src/Runtime/Deny/Aliases.antt =====
-- crates/novbot-skill-runtime/src/deny.rs: `aliases` and `denies_fs`.
use novbot.Common.{
  ◌≡◌, ◌≢◌, ◌↔◌, refl, ◌∙◌, Bool, true, false, List, [], ◌∷◌, ◌++◌, none, some, arith, ◌||◌, All,
  Any, here, there, ||-eq-true, Bool-cases, Option-cases, ◌⊎◌, inl, inr, if◌then◌else◌, map, any,
}
use novbot.Text.{Str, codes, str_eq, strip_prefix, join, split}
use novbot.Text.Laws.{str_eq_iff}
use novbot.Text.Parts.{split-ne-nil}
use novbot.Runtime.Glob.{slash, trim_trailing_slash}
use novbot.Runtime.FilePath.{PathBuf, render}
use novbot.Runtime.FilePath.Rendered.{
  IsEntry, entries_of, display_path_lem, trim_trailing_slash-render,
}
use novbot.Runtime.Deny.{
  Denylist, under_dir, static_deny, hit, aliases, other_alias, trim_slash, denies_fs,
}
use novbot.Runtime.Deny.Components.{strip_prefix_sound, strip_prefix_complete, Under, under_dir_iff}
use novbot.Runtime.Deny.Protected.{Protected}
use novbot.Runtime.Deny.Laws.{static_deny_iff}

abbrev private_dir : Str
private_dir = codes "private"

-- The same place in the other spelling: `/private/a` for `/a`, and `/a` for `/private/a`.
pub mirror : PathBuf → PathBuf
mirror [] = []
mirror (p ∷ []) = private_dir ∷ p ∷ []
mirror (p ∷ q ∷ ps) = if str_eq p private_dir then q ∷ ps else private_dir ∷ p ∷ q ∷ ps

trim_slash-render : (path : PathBuf) → All IsEntry path → trim_slash (render path) ≡ render path
unfolding trim_slash
trim_slash-render path h = unfold trim_trailing_slash in trim_trailing_slash-render path h

slash_stripped :
    (path : PathBuf) → strip_prefix (render path) (codes "/") ≡ some (join path (codes "/"))
unfolding render strip_prefix
slash_stripped path = refl

not_below_private :
    (p : Str) (ps : PathBuf)
    → All IsEntry (p ∷ ps)
    → ((ps ≡ []) ⊎ (p ≢ private_dir))
    → strip_prefix (render (p ∷ ps)) (codes "/private/") ≡ none
not_below_private p ps h why =
    elim (Option-cases (strip_prefix (render (p ∷ ps)) (codes "/private/"))) [
      | inl e ↦ e
      | inr (r, e) ↦
          let same : p ∷ ps ≡ private_dir ∷ split r slash =
            strip_prefix_sound (p ∷ ps) (private_dir ∷ []) r h (cc)
              (entries_of (private_dir ∷ []) refl) (unfold render in e) in
          elim why [
            | inl single ↦
                let none_left : split r slash ≡ [] = cc in absurd (split-ne-nil r slash none_left)
            | inr ne ↦ let head : p ≡ private_dir = cc in absurd (ne head)
          ]
    ]

other_alias_outside :
    (t r : Str)
    → strip_prefix t (codes "/private/") ≡ none
    → strip_prefix t (codes "/") ≡ some r
    → other_alias t ≡ (codes "/private/" ++ r) ∷ []
unfolding other_alias
other_alias_outside t r e k = rw (e, k, other_alias)

other_alias_inside :
    (t r : Str)
    → strip_prefix t (codes "/private/") ≡ some r
    → other_alias t ≡ (codes "/" ++ r) ∷ []
unfolding other_alias
other_alias_inside t r e = rw (e, other_alias)

other_alias_plain :
    (p : Str) (ps : PathBuf)
    → All IsEntry (p ∷ ps)
    → ((ps ≡ []) ⊎ (p ≢ private_dir))
    → other_alias (render (p ∷ ps)) ≡ render (private_dir ∷ p ∷ ps) ∷ []
other_alias_plain p ps h why =
    other_alias_outside (render (p ∷ ps)) (join (p ∷ ps) (codes "/")) (not_below_private p ps h why)
      (slash_stripped (p ∷ ps))
    ∙ (unfold render in refl)

other_alias_private :
    (q : Str) (ps : PathBuf) → other_alias (render (private_dir ∷ q ∷ ps)) ≡ render (q ∷ ps) ∷ []
other_alias_private q ps =
    other_alias_inside (render (private_dir ∷ q ∷ ps)) (join (q ∷ ps) (codes "/"))
      (unfold render in strip_prefix_complete private_dir [] q ps)
    ∙ (unfold render in refl)

-- The two texts that `denies_fs` looks at are those of the path and of its mirror.
pub aliases_lem :
    (path : PathBuf)
    → path ≢ []
    → All IsEntry path
    → aliases (render path) ≡ render path ∷ render (mirror path) ∷ []
unfolding aliases mirror
aliases_lem [] ne h = absurd (ne refl)
aliases_lem (p ∷ []) ne h = rw (trim_slash-render (p ∷ []) h, other_alias_plain p [] h (inl refl))
aliases_lem (p ∷ q ∷ ps) ne h = elim (Bool-cases (str_eq p private_dir)) [
  | inl e ↦
      let same = (str_eq_iff p private_dir).0 e in
      rw (trim_slash-render (p ∷ q ∷ ps) h, e, same, other_alias_private q ps)
  | inr e ↦ rw (
    trim_slash-render (p ∷ q ∷ ps) h,
    e,
    other_alias_plain p (q ∷ ps) h (inr (λ s. ground (arith, str_eq_iff p private_dir))),
  )
]

-- What one node refuses: the protected paths and all that lies in one of its data directories.
abbrev pub Denied : List PathBuf → PathBuf → Type 0
Denied dirs path = Protected path ⊎ Any (Under path) dirs

-- A directory as `push_data_dir` stores it: below the root.
abbrev pub IsDir : PathBuf → Type 0
IsDir dir = (dir ≢ []) × All IsEntry dir

in_data_dir :
    (dirs : List PathBuf) (path : PathBuf)
    → All IsEntry path
    → All IsDir dirs
    → (any (λ dir. under_dir (render path) dir) (map render dirs) ≡ true) ↔ Any (Under path) dirs
in_data_dir [] path hp hd = (λ h. cc, λ a. elim a [ ])
in_data_dir ([] ∷ dirs) path hp ((ne, _), hd) = absurd (ne refl)
in_data_dir ((d ∷ dir) ∷ dirs) path hp ((ne, he), hd) =
    let first = under_dir_iff path d dir hp he in
    let rest = in_data_dir dirs path hp hd in
    (
      λ h. elim (||-eq-true (under_dir (render path) (render (d ∷ dir))) _ h) [
        | inl a ↦ here (first.0 a)
        | inr a ↦ there (rest.0 a)
      ],
      in_data_dir_complete (under_dir (render path) (render (d ∷ dir)))
          (any (λ e. under_dir (render path) e) (map render dirs)) first.1 rest.1,
    )
  where
    in_data_dir_complete :
        (a b : Bool)
        → (Under path (d ∷ dir) → a ≡ true)
        → (Any (Under path) dirs → b ≡ true)
        → Any (Under path) ((d ∷ dir) ∷ dirs)
        → (a || b) ≡ true
    in_data_dir_complete a b f g (here u) = rw (f u)
    in_data_dir_complete true b f g (there u) = refl
    in_data_dir_complete false b f g (there u) = g u

hit_iff :
    (dirs : List PathBuf) (path : PathBuf)
    → All IsEntry path
    → All IsDir dirs
    → (hit (record { data_dirs = map render dirs }) (render path) ≡ true) ↔ Denied dirs path
unfolding hit
hit_iff dirs path hp hd =
    let fixed = static_deny_iff path hp in
    let local = in_data_dir dirs path hp hd in
    (
      λ h. elim (Bool-cases (static_deny (render path))) [
        | inl a ↦ inl (fixed.0 a)
        | inr a ↦ inr (local.0 (rw a at h))
      ],
      λ d. elim d [ inl p ↦ ground (arith, fixed.1 p) | inr u ↦ ground (arith, local.1 u) ],
    )

mirror-IsEntry : (path : PathBuf) → All IsEntry path → All IsEntry (mirror path)
unfolding mirror
mirror-IsEntry [] h = tt
mirror-IsEntry (p ∷ []) h = ((entries_of (private_dir ∷ []) refl).0, h)
mirror-IsEntry (p ∷ q ∷ ps) h = elim (Bool-cases (str_eq p private_dir)) [
  | inl e ↦ rw e h.1
  | inr e ↦ rw e ((entries_of (private_dir ∷ []) refl).0, h)
]

-- With data directories below the root, a path that is not the root, of non-empty components
-- without a slash, is refused exactly if it or its mirror below /private is protected or lies in
-- one of the data directories.
pub denies_fs_iff :
    (dirs : List PathBuf) (path : PathBuf)
    → path ≢ []
    → All IsEntry path
    → All IsDir dirs
    → (denies_fs (record { data_dirs = map render dirs }) path ≡ true)
      ↔ (Denied dirs path ⊎ Denied dirs (mirror path))
unfolding denies_fs
denies_fs_iff dirs path ne hp hd =
    let own = hit_iff dirs path hp hd in
    let other = hit_iff dirs (mirror path) (mirror-IsEntry path hp) hd in
    rw (display_path_lem path hp, aliases_lem path ne hp)
      (
        λ h. elim (||-eq-true (hit (record { data_dirs = map render dirs }) (render path)) _ h) [
          | inl a ↦ inl (own.0 a)
          | inr a ↦ inr (other.0 (ground arith))
        ],
        λ d. elim d [ inl a ↦ ground (arith, own.1 a) | inr a ↦ ground (arith, other.1 a) ],
      )

hit-Protected :
    (d : Denylist) (path : PathBuf) → All IsEntry path → Protected path → hit d (render path) ≡ true
unfolding hit
hit-Protected d path hp p = rw ((static_deny_iff path hp).1 p)

-- A protected path is refused by every denylist, in both spellings.
pub denies_fs-Protected :
    (d : Denylist) (path : PathBuf)
    → path ≢ []
    → All IsEntry path
    → Protected path ⊎ Protected (mirror path)
    → denies_fs d path ≡ true
unfolding denies_fs
denies_fs-Protected d path ne hp p =
    rw (display_path_lem path hp, aliases_lem path ne hp)
      (elim p [
        | inl own ↦ ground (arith, hit-Protected d path hp own)
        | inr other ↦ ground (arith, hit-Protected d (mirror path) (mirror-IsEntry path hp) other)
      ])
