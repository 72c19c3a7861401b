-- ===== src/Node/Package/Hashes.antt =====
-- crates/novbot-node/src/skills/package.rs: what `verify_file_hashes` makes sure of.
use mathlib.Core.Path.{◌≡◌, refl, sym, ap, subst, ◌∙◌}
use novbot.Common.{
  Bool, true, false, not, List, [], ◌∷◌, Option, none, some, ok, fail_if, is_empty, Bool-cases, inl,
  inr, ◌⊎◌, ◌≢◌, All, Any, here, there, arith, >>=-eq-ok, ok-injective, guard-eq-ok,
}
use novbot.Text.{Str, codes, str_eq}
use novbot.Text.Laws.{str_eq_iff}
use novbot.Text.Maps.{find}
use novbot.Node.Package.{InstallError, Bytes, Files, Codecs, ok_or}
use novbot.Node.Package.Opening.{
  is_lower_hex64, without, undeclared, verify_one, verify_declared, verify_file_hashes,
}

-- A declared file is there, and its digest is the declared one.
abbrev pub IsVerified : Codecs → Files → Str × Str → Type 0
IsVerified codecs files (path, hash) =
    (content : Bytes) × (find path files ≡ some content) × (codecs.sha256_hex content ≡ hash)

pub ok_or-eq-ok {ℓ} :
    {A : Type ℓ} (o : Option A) (e : InstallError) {a : A} → ok_or o e ≡ ok a → o ≡ some a
ok_or-eq-ok none e h = absurd cc
ok_or-eq-ok (some a) e h = ap some (ok-injective h)

bare_guard : (b : Bool) (e : InstallError) {d : Unit {0}} → fail_if b e ≡ ok d → b ≡ false
bare_guard true e h = absurd cc
bare_guard false e h = refl

verify_one-IsVerified :
    (codecs : Codecs) (files : Files) (path hash : Str) {d : Unit {0}}
    → verify_one codecs files path hash ≡ ok d
    → IsVerified codecs files (path, hash)
unfolding verify_one
verify_one-IsVerified codecs files path hash {d} e =
    let (hex, e1) = guard-eq-ok (not (is_lower_hex64 hash)) _ _ {a = d} e in
    let (content, got, e2) = >>=-eq-ok (ok_or (find path files) _) _ {b = d} e1 in
    let same = bare_guard (not (str_eq (codecs.sha256_hex content) hash)) _ {d = d} e2 in
    (
      content,
      ok_or-eq-ok (find path files) _ got,
      (str_eq_iff (codecs.sha256_hex content) hash).0 (ground arith),
    )

without-keeps :
    (path p : Str) (items : List Str)
    → Any (λ i. i ≡ p) items
    → (path ≡ p) ⊎ Any (λ i. i ≡ p) (without path items)
unfolding without
without-keeps path p [] h = elim h [ ]
without-keeps path p (item ∷ items) (here e) = elim (Bool-cases (str_eq item path)) [
  | inl same ↦ inl (sym ((str_eq_iff item path).0 same) ∙ e)
  | inr other ↦ rw other (inr (here e))
]
without-keeps path p (item ∷ items) (there h) = elim (without-keeps path p items h) [
  | inl found ↦ inl found
  | inr left ↦ elim (Bool-cases (str_eq item path)) [
    | inl same ↦ rw same (inr left)
    | inr other ↦ rw other (inr (there left))
  ]
]

-- Every declared file is verified, and a key is left over or one of the declared.
pub verify_declared_lem :
    (codecs : Codecs) (files : Files) (declared : List (Str × Str)) (remaining : List Str)
    {rest : List Str}
    → verify_declared codecs files declared remaining ≡ ok rest
    → All (IsVerified codecs files) declared
      × ((p : Str)
          → Any (λ i. i ≡ p) remaining
          → Any (λ i. i ≡ p) rest ⊎ Any (λ d. d.0 ≡ p) declared)
unfolding verify_declared
verify_declared_lem codecs files [] remaining {rest} e =
    (tt, λ p h. inl (subst (Any (λ i. i ≡ p)) (ok-injective e) h))
verify_declared_lem codecs files ((path, hash) ∷ declared) remaining {rest} e =
    let (_, one, e1) = >>=-eq-ok (verify_one codecs files path hash) _ {b = rest} e in
    let (all_verified, covered) =
      verify_declared_lem codecs files declared (without path remaining) e1 in
    (
      (verify_one-IsVerified codecs files path hash one, all_verified),
      λ p h. elim (without-keeps path p remaining h) [
        | inl same ↦ inr (here same)
        | inr left ↦ elim (covered p left) [ inl still ↦ inl still | inr later ↦ inr (there later) ]
      ],
    )

undeclared-has :
    (path : Str) (content : Bytes) (files : Files)
    → find path files ≡ some content
    → path ≢ codes "skill.toml"
    → Any (λ i. i ≡ path) (undeclared files)
unfolding undeclared
undeclared-has path content [] e ne = absurd cc
undeclared-has path content ((j, w) ∷ files) e ne =
    elim (Bool-cases (str_eq j (codes "skill.toml"))) [
      | inl manifest ↦ rw manifest (elim (Bool-cases (str_eq j path)) [
        | inl same ↦
            absurd (
              ne
                (sym ((str_eq_iff j path).0 same) ∙ (str_eq_iff j (codes "skill.toml")).0 manifest))
        | inr other ↦ undeclared-has path content files (rw other at e) ne
      ])
      | inr plain ↦ rw plain (elim (Bool-cases (str_eq j path)) [
        | inl same ↦ here ((str_eq_iff j path).0 same)
        | inr other ↦ there (undeclared-has path content files (rw other at e) ne)
      ])
    ]

member_hash :
    (codecs : Codecs) (files : Files) (path : Str) (content : Bytes) (declared : List (Str × Str))
    → find path files ≡ some content
    → All (IsVerified codecs files) declared
    → Any (λ d. d.0 ≡ path) declared
    → Any (λ d. d ≡ (path, codecs.sha256_hex content)) declared
member_hash codecs files path content [] e h m = elim m [ ]
member_hash codecs files path content ((j, hash) ∷ declared) e ((c, found, digest), h) (here same) =
    let there_is : find path files ≡ some c = subst (λ k. find k files ≡ some c) same found in
    let content_is : c ≡ content = cc in
    here (
      ap (λ k. (k, hash)) same ∙ ap (λ d. (path, d)) (sym digest ∙ ap codecs.sha256_hex content_is))
member_hash codecs files path content ((j, hash) ∷ declared) e (v, h) (there m) =
    there (member_hash codecs files path content declared e h m)

pub verify_file_hashes-IsVerified :
    (codecs : Codecs) (files : Files) (declared : List (Str × Str)) {d : Unit {0}}
    → verify_file_hashes codecs files declared ≡ ok d
    → All (IsVerified codecs files) declared
unfolding verify_file_hashes
verify_file_hashes-IsVerified codecs files declared {d} e =
    let (rest, run, last) =
      >>=-eq-ok (verify_declared codecs files declared (undeclared files)) _ {b = d} e in
    (verify_declared_lem codecs files declared (undeclared files) run).0

pub verify_file_hashes-covers :
    (codecs : Codecs) (files : Files) (declared : List (Str × Str)) (path : Str) (content : Bytes)
    {d : Unit {0}}
    → verify_file_hashes codecs files declared ≡ ok d
    → find path files ≡ some content
    → path ≢ codes "skill.toml"
    → Any (λ entry. entry ≡ (path, codecs.sha256_hex content)) declared
unfolding verify_file_hashes
verify_file_hashes-covers codecs files declared path content {d} e found ne =
    let (rest, run, last) =
      >>=-eq-ok (verify_declared codecs files declared (undeclared files)) _ {b = d} e in
    let (verified, covered) = verify_declared_lem codecs files declared (undeclared files) run in
    let none_left = bare_guard (not (is_empty rest)) _ {d = d} last in
    elim (covered path (undeclared-has path content files found ne)) [
      | inl left ↦ absurd (nothing_in rest (ground arith) left)
      | inr named ↦ member_hash codecs files path content declared found verified named
    ]
  where
    nothing_in : (items : List Str) → is_empty items ≡ true → ¬ (Any (λ i. i ≡ path) items)
    nothing_in [] h m = elim m [ ]
    nothing_in (i ∷ items) h m = cc
