-- ===== src/Runtime/Grant/Access.antt =====
-- crates/novbot-skill-runtime/src/grant.rs: the answers of `check`.
use novbot.Common.{
  ◌≡◌, ◌↔◌, refl, ap, Bool, true, false, not, List, [], ◌∷◌, some, arith, Any, here, there, any→Any,
  Any→any, Any-map, Bool-cases, ◌⊎◌, inl, inr, any, if◌then◌else◌, Result, ok, err,
}
use novbot.Text.{Str, str_eq}
use novbot.Text.Laws.{str_eq_iff, str_eq_refl}
use novbot.Runtime.FilePath.{PathBuf, Fs, glob_matches}
use novbot.Runtime.Deny.{Denylist, denies_fs, denies_env}
use novbot.Runtime.Grant.{
  DenialReason, undeclared_capability, out_of_scope, policy_denied, GrantError, Scope, path, env,
  bare, GrantSet, CapabilityDef, path_glob, env_key, capabilities, find_def, parse_one, parse,
  lookup, declares, contains_key, any_scope, scope_covers_path, scope_covers_key, path_matches,
  env_matches, env_pattern_matches, EnvPattern, at_path, at_key, cap_disabled, check_scope, check,
}
use novbot.Runtime.Grant.Parsing.{scopes_in, scope_for, entry, parse-lookup}

-- Some grant of the list is for the name, with a scope that has the property.
abbrev pub Granted : Str → (Scope → Type 0) → List Str → Type 0
Granted name P grants =
    Any (λ g. (scope : Scope) × (parse_one g ≡ ok (name, scope)) × P scope) grants

scope_for_inv :
    (name : Str) (r : Result (Str × Scope) GrantError) (rest : List Scope) (P : Scope → Type 0)
    → Any P (scope_for name r rest)
    → ((scope : Scope) × (r ≡ ok (name, scope)) × P scope) ⊎ Any P rest
scope_for_inv name (err e) rest P h = inr h
scope_for_inv name (ok (n, scope)) rest P h = elim (Bool-cases (str_eq n name)) [
  | inl e ↦ now (rw e at h) ((str_eq_iff n name).0 e)
  | inr e ↦ inr (rw e at h)
]
  where
    now :
        Any P (scope ∷ rest)
        → n ≡ name
        → ((s : Scope) × (◌≡◌ {A = Result (Str × Scope) GrantError} (ok (n, scope)) (ok (name, s)))
            × P s)
          ⊎ Any P rest
    now (here p) e = inl (scope, ap (λ k. ok (k, scope)) e, p)
    now (there a) e = inr a

scope_for_later :
    (name : Str) (r : Result (Str × Scope) GrantError) (rest : List Scope) (P : Scope → Type 0)
    → Any P rest
    → Any P (scope_for name r rest)
scope_for_later name (err e) rest P h = h
scope_for_later name (ok (n, scope)) rest P h = elim (Bool-cases (str_eq n name)) [
  | inl e ↦ rw e (there h)
  | inr e ↦ rw e h
]

scopes_in→Granted :
    (name : Str) (P : Scope → Type 0) (grants : List Str)
    → Any P (scopes_in name grants)
    → Granted name P grants
unfolding scopes_in
scopes_in→Granted name P [] h = elim h [ ]
scopes_in→Granted name P (g ∷ grants) h =
    elim (scope_for_inv name (parse_one g) (scopes_in name grants) P h) [
      | inl found ↦ here found
      | inr later ↦ there (scopes_in→Granted name P grants later)
    ]

Granted→scopes_in :
    (name : Str) (P : Scope → Type 0) (grants : List Str)
    → Granted name P grants
    → Any P (scopes_in name grants)
unfolding scopes_in
Granted→scopes_in name P [] h = elim h [ ]
Granted→scopes_in name P (g ∷ grants) (here (scope, k, p)) = rw (k, str_eq_refl name) (here p)
Granted→scopes_in name P (g ∷ grants) (there h) =
    scope_for_later name (parse_one g) (scopes_in name grants) P (Granted→scopes_in name P grants h)

abbrev IsAny : Scope → Type 0
IsAny scope = Unit {0}

-- Some grant of the list is for the name.
abbrev pub Declared : Str → List Str → Type 0
Declared name = Granted name IsAny

-- Some grant of the list covers the path under the name.
abbrev pub Opens : Fs → Str → PathBuf → List Str → Type 0
Opens fs name candidate =
    Granted name
      (λ scope. (glob : Str) × (scope ≡ path glob) × (glob_matches fs glob candidate ≡ true))

-- Some grant of the list covers the environment key under the name.
abbrev pub OpensKey : Str → Str → List Str → Type 0
OpensKey name key =
    Granted name (λ scope. (p : EnvPattern) × (scope ≡ env p) × (env_pattern_matches p key ≡ true))

any_scope-entry :
    (test : Scope → Bool) (scopes : List Scope) → any_scope test (entry scopes) ≡ any test scopes
any_scope-entry test [] = refl
any_scope-entry test (s ∷ scopes) = refl

key_of_entry : (l : List Scope) → (contains_key (entry l) ≡ true) ↔ Any IsAny l
key_of_entry [] = (λ h. cc, λ h. elim h [ ])
key_of_entry (s ∷ l) = (λ h. here tt, λ h. refl)

covers_path_iff :
    (fs : Fs) (candidate : PathBuf) (scope : Scope)
    → (scope_covers_path fs candidate scope ≡ true)
      ↔ ((glob : Str) × (scope ≡ path glob) × (glob_matches fs glob candidate ≡ true))
unfolding scope_covers_path
covers_path_iff fs candidate (path glob) = (λ h. (glob, refl, h), λ (g, e, h). ground arith)
covers_path_iff fs candidate (env p) = (λ h. cc, λ (g, e, h). cc)
covers_path_iff fs candidate bare = (λ h. cc, λ (g, e, h). cc)

covers_key_iff :
    (key : Str) (scope : Scope)
    → (scope_covers_key key scope ≡ true)
      ↔ ((p : EnvPattern) × (scope ≡ env p) × (env_pattern_matches p key ≡ true))
unfolding scope_covers_key
covers_key_iff key (env p) = (λ h. (p, refl, h), λ (q, e, h). ground arith)
covers_key_iff key (path glob) = (λ h. cc, λ (q, e, h). cc)
covers_key_iff key bare = (λ h. cc, λ (q, e, h). cc)

module _ (grants : List Str) (gs : GrantSet) (parsed : parse grants ≡ ok gs) (name : Str) where
  declares_iff : (declares gs name ≡ true) ↔ Declared name grants
  unfolding declares
  declares_iff =
      let key = key_of_entry (scopes_in name grants) in
      rw (parse-lookup grants gs name parsed) (
        λ h. scopes_in→Granted name IsAny grants (key.0 h),
        λ d. key.1 (Granted→scopes_in name IsAny grants d),
      )

  any_scope_iff :
      (test : Scope → Bool) (P : Scope → Type 0)
      → ((scope : Scope) → (test scope ≡ true) ↔ P scope)
      → (any_scope test (lookup name gs.by_name) ≡ true) ↔ Granted name P grants
  any_scope_iff test P reads =
      let scopes = scopes_in name grants in
      rw (parse-lookup grants gs name parsed, any_scope-entry test (scopes_in name grants))
        (
          λ h.
              scopes_in→Granted name P grants
                (Any-map scopes (λ s e. (reads s).0 e) (any→Any test scopes h)),
          λ d.
              Any→any test scopes
                (Any-map scopes (λ s p. (reads s).1 p) (Granted→scopes_in name P grants d)),
        )

  path_matches_iff :
      (fs : Fs) (candidate : PathBuf)
      → (path_matches fs gs name candidate ≡ true) ↔ Opens fs name candidate grants
  unfolding path_matches
  path_matches_iff fs candidate =
      any_scope_iff (scope_covers_path fs candidate) _ (covers_path_iff fs candidate)

  env_matches_iff : (key : Str) → (env_matches gs name key ≡ true) ↔ OpensKey name key grants
  unfolding env_matches
  env_matches_iff key = any_scope_iff (scope_covers_key key) _ (covers_key_iff key)

-- The four outcomes of a check on a scoped capability, in the order in which they are tried.
-- `refused` is what the denylist says of the target.
pub data Verdict (declared opened : Type 0) (refused : Bool) (r : Result (Unit {0}) DenialReason)
    : Type 0 where
  undeclared : r ≡ err undeclared_capability → ¬ declared → Verdict declared opened refused r
  outside : r ≡ err out_of_scope → declared → ¬ opened → Verdict declared opened refused r
  denied : r ≡ err policy_denied → opened → refused ≡ true → Verdict declared opened refused r
  allowed : r ≡ ok tt → opened → refused ≡ false → Verdict declared opened refused r

-- How the two guards of a scoped capability make an outcome.
abbrev pub guarded : Bool → Bool → Bool → Result (Unit {0}) DenialReason
guarded declared opened refused =
    if not declared
    then err undeclared_capability
    else if not opened
    then err out_of_scope
    else if refused
    then err policy_denied
    else ok tt

guarded-Verdict :
    (a b c : Bool) (A B : Type 0) → (a ≡ true) ↔ A → (b ≡ true) ↔ B → Verdict A B c (guarded a b c)
guarded-Verdict false b c A B ha hb = undeclared refl (λ d. cc (ha.1 d))
guarded-Verdict true false c A B ha hb = outside refl (ha.0 refl) (λ o. cc (hb.1 o))
guarded-Verdict true true true A B ha hb = denied refl (hb.0 refl) refl
guarded-Verdict true true false A B ha hb = allowed refl (hb.0 refl) refl

pub check-path_guarded :
    (fs : Fs) (gs : GrantSet) (name : Str) (d : CapabilityDef) (candidate : PathBuf)
    (deny : Denylist)
    → find_def name capabilities ≡ some d
    → d.scope ≡ path_glob
    → check fs gs name (at_path candidate) deny
      ≡ guarded (declares gs name) (path_matches fs gs name candidate) (denies_fs deny candidate)
unfolding check check_scope cap_disabled
check-path_guarded fs gs name d candidate deny found scoped =
    rw (found, check, scoped) (ground arith)

check-key_guarded :
    (fs : Fs) (gs : GrantSet) (name : Str) (d : CapabilityDef) (key : Str) (deny : Denylist)
    → find_def name capabilities ≡ some d
    → d.scope ≡ env_key
    → check fs gs name (at_key key) deny
      ≡ guarded (declares gs name) (env_matches gs name key) (denies_env key)
unfolding check check_scope cap_disabled
check-key_guarded fs gs name d key deny found scoped = rw (found, check, scoped) (ground arith)

-- For a capability on paths and a list of grants that parses, check answers undeclared if no
-- grant names the capability, out of scope if none of its grants covers the path, denied by
-- policy if the denylist refuses the path, and allows it otherwise.
pub check_path-Verdict :
    (fs : Fs) (grants : List Str) (gs : GrantSet) (name : Str) (d : CapabilityDef)
    (candidate : PathBuf) (deny : Denylist)
    → parse grants ≡ ok gs
    → find_def name capabilities ≡ some d
    → d.scope ≡ path_glob
    → Verdict
        (Declared name grants)
        (Opens fs name candidate grants)
        (denies_fs deny candidate)
        (check fs gs name (at_path candidate) deny)
check_path-Verdict fs grants gs name d candidate deny parsed found scoped =
    rw (check-path_guarded fs gs name d candidate deny found scoped) (
      guarded-Verdict (declares gs name) (path_matches fs gs name candidate)
        (denies_fs deny candidate) _ _ (declares_iff grants gs parsed name)
        (path_matches_iff grants gs parsed name fs candidate))

-- For a capability on environment variables and a list of grants that parses, check answers
-- undeclared, out of scope, denied by policy for a sensitive name, or allows the name, in this
-- order.
pub check_key-Verdict :
    (fs : Fs) (grants : List Str) (gs : GrantSet) (name : Str) (d : CapabilityDef) (key : Str)
    (deny : Denylist)
    → parse grants ≡ ok gs
    → find_def name capabilities ≡ some d
    → d.scope ≡ env_key
    → Verdict
        (Declared name grants)
        (OpensKey name key grants)
        (denies_env key)
        (check fs gs name (at_key key) deny)
check_key-Verdict fs grants gs name d key deny parsed found scoped =
    rw (check-key_guarded fs gs name d key deny found scoped) (
      guarded-Verdict (declares gs name) (env_matches gs name key) (denies_env key) _ _
        (declares_iff grants gs parsed name) (env_matches_iff grants gs parsed name key))
