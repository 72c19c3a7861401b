-- ===== src/Runtime/Grant/Authority.antt =====
-- crates/novbot-skill-runtime/src/grant.rs: `check` against the texts of the grants.
use novbot.Common.{
  ℕ, ◌≡◌, ◌≢◌, ap, ◌∙◌, Bool, true, false, List, [], ◌∷◌, ◌++◌, Option, none, some, arith, ◌||◌,
  All, Any, Any-map, Any-append_left, Bool-cases, Option-cases, ◌⊎◌, inl, inr, is_empty, ◌==◌,
  Result, ok, ◌>>=◌, >>=-eq-ok, ok-injective,
}
use novbot.Text.{Str, split_once, contains_char}
use novbot.Runtime.Glob.{valid_path_glob}
use novbot.Runtime.FilePath.{PathBuf, Fs, glob_matches}
use novbot.Runtime.FilePath.Rendered.{IsEntry}
use novbot.Runtime.Deny.{Denylist}
use novbot.Runtime.Deny.Protected.{Protected}
use novbot.Runtime.Deny.Aliases.{mirror, denies_fs-Protected}
use novbot.Runtime.Grant.{
  GrantError, Scope, path, GrantSet, CapabilityDef, ScopeRequirement, no_scope, path_glob, env_key,
  capabilities, find_def, named, split_grant, parse_scope, parse_env_scope, require_def, parse_one,
  parse, at_path, DenialReason, check,
}
use novbot.Runtime.Grant.Access.{
  Declared, Opens, Verdict, undeclared, outside, denied, allowed, check-path_guarded,
  check_path-Verdict,
}

-- For a capability on paths, a host call on a protected path other than the root, or on one whose
-- mirror below /private is protected, is never allowed, whatever the grants and the data
-- directories.
pub check-Protected :
    (fs : Fs) (gs : GrantSet) (name : Str) (d : CapabilityDef) (candidate : PathBuf)
    (deny : Denylist)
    → find_def name capabilities ≡ some d
    → d.scope ≡ path_glob
    → candidate ≢ []
    → All IsEntry candidate
    → Protected candidate ⊎ Protected (mirror candidate)
    → check fs gs name (at_path candidate) deny ≢ ok tt
check-Protected fs gs name d candidate deny found scoped ne entries p e = ground (
  arith,
  check-path_guarded fs gs name d candidate deny found scoped,
  denies_fs-Protected deny candidate ne entries p,
)

Opens-append :
    (fs : Fs) (name : Str) (candidate : PathBuf) (grants more : List Str)
    → Opens fs name candidate grants
    → Opens fs name candidate (grants ++ more)
Opens-append fs name candidate grants more h = Any-append_left _ grants more h

allowed_inv :
    {A B : Type 0} {c : Bool} {r : Result (Unit {0}) DenialReason}
    → Verdict A B c r
    → r ≡ ok tt
    → B × (c ≡ false)
allowed_inv (undeclared e n) k = cc
allowed_inv (outside e d n) k = cc
allowed_inv (denied e o f) k = cc
allowed_inv (allowed e o f) k = (o, f)

Opens→Declared :
    (fs : Fs) (name : Str) (candidate : PathBuf) (grants : List Str)
    → Opens fs name candidate grants
    → Declared name grants
Opens→Declared fs name candidate grants h = Any-map grants (λ g (scope, k, _). (scope, k, tt)) h

granted_again :
    (fs : Fs) (name : Str) (candidate : PathBuf) (grants : List Str) {c : Bool}
    {r : Result (Unit {0}) DenialReason}
    → Opens fs name candidate grants
    → c ≡ false
    → Verdict (Declared name grants) (Opens fs name candidate grants) c r
    → r ≡ ok tt
granted_again fs name candidate grants o f (undeclared k n) =
    absurd (n (Opens→Declared fs name candidate grants o))
granted_again fs name candidate grants o f (outside k _ n) = absurd (n o)
granted_again fs name candidate grants o f (denied k _ t) = cc
granted_again fs name candidate grants o f (allowed k _ _) = k

-- For a capability on paths, further grants take no access to a path away, if the longer list
-- parses too.
pub check-append :
    (fs : Fs) (grants more : List Str) (gs gs' : GrantSet) (name : Str) (d : CapabilityDef)
    (candidate : PathBuf) (deny : Denylist)
    → parse grants ≡ ok gs
    → parse (grants ++ more) ≡ ok gs'
    → find_def name capabilities ≡ some d
    → d.scope ≡ path_glob
    → check fs gs name (at_path candidate) deny ≡ ok tt
    → check fs gs' name (at_path candidate) deny ≡ ok tt
check-append fs grants more gs gs' name d candidate deny parsed parsed' found scoped e =
    let (opened, passed) =
      allowed_inv (check_path-Verdict fs grants gs name d candidate deny parsed found scoped) e in
    let opened' = Opens-append fs name candidate grants more opened in
    granted_again fs name candidate (grants ++ more) opened' passed
      (check_path-Verdict fs (grants ++ more) gs' name d candidate deny parsed' found scoped)

split_once_sound : (s a b : Str) (sep : ℕ) → split_once s sep ≡ some (a, b) → s ≡ a ++ sep ∷ b
unfolding split_once
split_once_sound [] a b sep e = cc
split_once_sound (c ∷ s) a b sep e = elim (Bool-cases (c == sep)) [
  | inl h ↦ ground arith
  | inr h ↦ elim (Option-cases (split_once s sep)) [
    | inl k ↦ cc (rw (h, k) at e)
    | inr ((a', b'), k) ↦
        let later = split_once_sound s a' b' sep k in ground (arith, rw (h, k) at e)
  ]
]

named_sound :
    (grant n : Str) (sc : Option Str) (r : Str × Option Str) → named grant n sc ≡ ok r → r ≡ (n, sc)
unfolding named
named_sound grant n sc r e = ground arith

split_grant_sound :
    (grant name scope : Str)
    → split_grant grant ≡ ok (name, some scope)
    → grant ≡ name ++ b':' ∷ scope
unfolding split_grant
split_grant_sound grant name scope e = elim (Bool-cases (is_empty grant || contains_char grant 0)) [
  | inl bad ↦ cc (rw bad at e)
  | inr good ↦ elim (Option-cases (split_once grant b':')) [
    | inl k ↦
        let same =
          named_sound grant grant none (name, some scope) (rw (good, k, split_grant) at e) in
        cc (ap (λ r. r.1) same)
    | inr ((n, sc), k) ↦ elim (Bool-cases (is_empty sc)) [
      | inl none_there ↦ cc (rw (good, k, split_grant, none_there) at e)
      | inr there_is ↦
          let same =
            named_sound grant n (some sc) (name, some scope)
              (rw (good, k, split_grant, there_is) at e) in
          let first : name ≡ n = ap (λ r. r.0) same in
          let second : scope ≡ sc = cc (ap (λ r. r.1) same) in
          rw (first, second) (split_once_sound grant n sc b':' k)
    ]
  ]
]

parse_scope_path :
    (grant glob : Str) (need : ScopeRequirement) (sc : Option Str)
    → parse_scope grant need sc ≡ ok (path glob)
    → (need ≡ path_glob) × (sc ≡ some glob) × (valid_path_glob glob ≡ true)
unfolding parse_scope
parse_scope_path grant glob no_scope none e = cc
parse_scope_path grant glob no_scope (some sc) e = cc
parse_scope_path grant glob path_glob none e = cc
parse_scope_path grant glob path_glob (some sc) e = ground arith
parse_scope_path grant glob env_key none e = cc
parse_scope_path grant glob env_key (some sc) e = elim (Option-cases (parse_env_scope sc)) [
  | inl k ↦ cc (rw (k, parse_scope) at e)
  | inr (p, k) ↦ cc (rw (k, parse_scope) at e)
]

-- A grant that parses to a path scope is the name, a colon and the glob, and the glob is valid.
pub parse_one-path :
    (grant name glob : Str)
    → parse_one grant ≡ ok (name, path glob)
    → (grant ≡ name ++ b':' ∷ glob) × (valid_path_glob glob ≡ true)
unfolding parse_one
parse_one-path grant name glob e =
    let ((n, sc), split_ok, e1) = >>=-eq-ok (split_grant grant) (λ (n, sc). rest n sc) e in
    let (d, def_ok, e2) =
      >>=-eq-ok (require_def grant (find_def n capabilities)) (λ d. after n sc d) e1 in
    let (parsed, scope_ok, e3) = >>=-eq-ok (parse_scope grant d.scope sc) (λ p. ok (n, p)) e2 in
    let pair = ok-injective e3 in
    let same_name : n ≡ name = ap (λ r. r.0) pair in
    let same_scope : parsed ≡ path glob = ap (λ r. r.1) pair in
    let (need, is_some, valid) =
      parse_scope_path grant glob d.scope sc (scope_ok ∙ ap (λ p. ok p) same_scope) in
    (
      rw (← same_name) (split_grant_sound grant n glob (split_ok ∙ ap (λ o. ok (n, o)) is_some)),
      valid,
    )
  where
    after : Str → Option Str → CapabilityDef → Result (Str × Scope) GrantError
    after n sc d = parse_scope grant d.scope sc >>= λ p. ok (n, p)

    rest : Str → Option Str → Result (Str × Scope) GrantError
    rest n sc = require_def grant (find_def n capabilities) >>= λ d. after n sc d

-- For a capability on paths and a list of grants that parses, a host call that check allows rests
-- on a grant of the list whose text is the capability's name, a colon and a valid glob that
-- matches the path.
pub check-authority :
    (fs : Fs) (grants : List Str) (gs : GrantSet) (name : Str) (d : CapabilityDef)
    (candidate : PathBuf) (deny : Denylist)
    → parse grants ≡ ok gs
    → find_def name capabilities ≡ some d
    → d.scope ≡ path_glob
    → check fs gs name (at_path candidate) deny ≡ ok tt
    → Any
        (λ grant.
          (glob : Str) × (grant ≡ name ++ b':' ∷ glob)
          × (valid_path_glob glob ≡ true)
          × (glob_matches fs glob candidate ≡ true))
        grants
check-authority fs grants gs name d candidate deny parsed found scoped e =
    let verdict = check_path-Verdict fs grants gs name d candidate deny parsed found scoped in
    Any-map grants
      (λ grant (scope, k, (glob, same, matched)).
        let (text, valid) = parse_one-path grant name glob (k ∙ ap (λ s. ok (name, s)) same) in
        (glob, text, valid, matched))
      (allowed_inv verdict e).0
