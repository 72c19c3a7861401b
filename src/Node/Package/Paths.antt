-- ===== src/Node/Package/Paths.antt =====
-- crates/novbot-node/src/skills/package.rs: the paths that `normalize_rel` accepts.
use mathlib.Core.Path.{◌≡◌, sym, subst}
use novbot.Common.{
  false, ◌||◌, List, [], ◌∷◌, ok, ◌>>◌, fail_if, is_empty, Bool-cases, inl, inr, All, ◌≢◌, arith,
  >>=-eq-ok, ok-injective,
}
use novbot.Text.{Str, codes, str_eq, starts_with, split, join}
use novbot.Text.Laws.{str_eq_refl}
use novbot.Text.Parts.{Lacks, contains_char→Lacks, split-Lacks}
use novbot.Node.Package.{
  InstallError, Component, normal, cur_dir, parent_dir, root_dir, component_of, later_components,
  first_components, components, bad_part, normal_parts, normalize_rel,
}

-- A name in a directory: not empty, not `.` or `..`, without separators and without NUL.
abbrev pub IsFileName : Str → Type 0
IsFileName part =
    (part ≢ [])
    × ((part ≢ codes ".")
        × ((part ≢ codes "..") × (Lacks b'/' part × (Lacks b'\\' part × Lacks 0 part))))

-- Such names, at least one, with slashes between them.
abbrev pub IsRelative : Str → Type 0
IsRelative path =
    (parts : List Str) × (path ≡ join parts (codes "/")) × (parts ≢ []) × All IsFileName parts

not_the : (part other : Str) → str_eq part other ≡ false → part ≢ other
not_the part other h e = ground (arith, str_eq_refl part)

good_part : (part : Str) → Lacks b'/' part → bad_part part ≡ false → IsFileName part
unfolding bad_part
good_part part slashless h = (
  not_empty part (ground arith),
  (
    not_the part (codes ".") (ground arith),
    (
      not_the part (codes "..") (ground arith),
      (
        slashless,
        (contains_char→Lacks part b'\\' (ground arith), contains_char→Lacks part 0 (ground arith)),
      ),
    ),
  ),
)
  where
    not_empty : (s : Str) → is_empty s ≡ false → s ≢ []
    not_empty [] e = cc
    not_empty (c ∷ s) e = λ p. cc

abbrev Slashless : Component → Type 0
Slashless (normal part) = Lacks b'/' part
Slashless cur_dir = Unit
Slashless parent_dir = Unit
Slashless root_dir = Unit

component_of-Slashless : (part : Str) → Lacks b'/' part → Slashless (component_of part)
component_of-Slashless part h = elim (Bool-cases (str_eq part (codes "."))) [
  | inl dot ↦ rw dot tt
  | inr other ↦ elim (Bool-cases (str_eq part (codes ".."))) [
    | inl dots ↦ rw (other, dots) tt
    | inr name ↦ rw (other, name) h
  ]
]

later_components-Slashless :
    (parts : List Str) → All (Lacks b'/') parts → All Slashless (later_components parts)
unfolding later_components
later_components-Slashless [] h = tt
later_components-Slashless (part ∷ parts) (p, h) =
    elim (Bool-cases (is_empty part || str_eq part (codes "."))) [
      | inl skipped ↦ rw skipped (later_components-Slashless parts h)
      | inr kept ↦ rw kept (component_of-Slashless part p, later_components-Slashless parts h)
    ]

first_components-Slashless :
    (parts : List Str) → All (Lacks b'/') parts → All Slashless (first_components parts)
first_components-Slashless [] h = tt
first_components-Slashless (part ∷ parts) (p, h) = elim (Bool-cases (is_empty part)) [
  | inl none_there ↦ rw none_there (tt, later_components-Slashless parts h)
  | inr there_is ↦ rw there_is (component_of-Slashless part p, later_components-Slashless parts h)
]

components-Slashless : (path : Str) → All Slashless (components path)
unfolding components
components-Slashless [] = tt
components-Slashless (c ∷ path) =
    first_components-Slashless (split (c ∷ path) b'/') (split-Lacks (c ∷ path) b'/')

normal_parts-All :
    (cs : List Component) {parts : List Str}
    → All Slashless cs
    → normal_parts cs ≡ ok parts
    → All IsFileName parts
unfolding normal_parts
normal_parts-All [] {parts} h e = let same : [] ≡ parts = cc in subst (All IsFileName) same tt
normal_parts-All (normal part ∷ rest) {parts} (p, h) e = elim (Bool-cases (bad_part part)) [
  | inl bad ↦ absurd (ground arith)
  | inr good ↦
      let (more, got, whole) =
        >>=-eq-ok (normal_parts rest) (λ l. ok (part ∷ l)) {b = parts} (rw good at e) in
      let same : part ∷ more ≡ parts = cc in
      subst (All IsFileName) same (good_part part p good, normal_parts-All rest h got)
]
normal_parts-All (cur_dir ∷ rest) {parts} (p, h) e = normal_parts-All rest h e
normal_parts-All (parent_dir ∷ rest) {parts} h e = absurd cc
normal_parts-All (root_dir ∷ rest) {parts} h e = absurd cc

joined-IsRelative :
    (parts : List Str) (e : InstallError) {out : Str}
    → All IsFileName parts
    → (fail_if (is_empty parts) e >> ok (join parts (codes "/"))) ≡ ok out
    → IsRelative out
joined-IsRelative [] e good last = absurd cc
joined-IsRelative (p ∷ ps) e good last = (p ∷ ps, sym (ok-injective last), (λ n. cc), good)

pub normalize_rel-IsRelative :
    (path : Str) {out : Str} → normalize_rel path ≡ ok out → IsRelative out
unfolding normalize_rel
normalize_rel-IsRelative path {out} e =
    let (done, fine, rest) =
      >>=-eq-ok (fail_if (is_empty path || starts_with path (codes "/")) _) _ {b = out} e in
    let (parts, got, last) = >>=-eq-ok (normal_parts (components path)) _ {b = out} rest in
    let good = normal_parts-All (components path) (components-Slashless path) got in
    joined-IsRelative parts _ good last
