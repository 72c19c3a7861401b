-- ===== src/Runtime/Grant/Parsing.antt =====
-- crates/novbot-skill-runtime/src/grant.rs: `GrantSet::parse`, its table and its errors.
use novbot.Common.{
  ◌≡◌, refl, sym, ap, ◌∙◌, List, [], ◌∷◌, ◌++◌, Option, none, some, arith, All, Bool-cases, ◌↔◌,
  inl, inr, if◌then◌else◌, append_assoc, append-nil, Result, ok, err, >>=-eq-ok, ok-injective,
  err-injective, Result-cases,
}
use novbot.Text.{Str, str_eq}
use novbot.Text.Laws.{str_eq_iff}
use novbot.Runtime.Grant.{
  GrantError, Scope, ScopeMap, GrantSet, parse_one, push_scope, parse_from, parse, lookup,
}

-- The scopes that a list of grants gives to a name, in the order of the list.
abbrev pub scope_for : Str → Result (Str × Scope) GrantError → List Scope → List Scope
scope_for name (err e) rest = rest
scope_for name (ok (n, scope)) rest = if str_eq n name then scope ∷ rest else rest

unfoldable pub scopes_in : Str → List Str → List Scope
scopes_in name [] = []
scopes_in name (g ∷ grants) = scope_for name (parse_one g) (scopes_in name grants)

-- No entry for a name without scopes.
abbrev pub entry : List Scope → Option (List Scope)
entry [] = none
entry (s ∷ scopes) = some (s ∷ scopes)

abbrev pub scopes_at : Option (List Scope) → List Scope
scopes_at none = []
scopes_at (some scopes) = scopes

lookup-push_scope :
    (name n : Str) (scope : Scope) (m : ScopeMap)
    → lookup name (push_scope n scope m)
      ≡ (if str_eq n name then some (scopes_at (lookup name m) ++ scope ∷ []) else lookup name m)
unfolding lookup push_scope
lookup-push_scope name n scope [] = refl
lookup-push_scope name n scope ((k, scopes) ∷ m) =
    ground (
      arith,
      str_eq_iff k n,
      str_eq_iff k name,
      str_eq_iff n name,
      lookup-push_scope name n scope m,
    )

-- The table after a scope was pushed, read as the scopes before and the new one.
append_entry :
    (o : Option (List Scope)) (scope : Scope) (rest : List Scope)
    → entry (scopes_at (some (scopes_at o ++ scope ∷ [])) ++ rest)
      ≡ entry (scopes_at o ++ scope ∷ rest)
append_entry o scope rest = ap entry (append_assoc (scopes_at o) (scope ∷ []) rest)

entry-append_some :
    (xs : List Scope) (scope : Scope) → entry (xs ++ scope ∷ []) ≡ some (xs ++ scope ∷ [])
entry-append_some [] scope = refl
entry-append_some (x ∷ xs) scope = refl

-- A table has no empty entries.
abbrev IsTight : ScopeMap → Type 0
IsTight m = (name : Str) → lookup name m ≡ entry (scopes_at (lookup name m))

IsTight-push : (n : Str) (scope : Scope) (m : ScopeMap) → IsTight m → IsTight (push_scope n scope m)
IsTight-push n scope m tight name = elim (Bool-cases (str_eq n name)) [
  | inl e ↦
      rw (lookup-push_scope name n scope m, e)
        (sym (entry-append_some (scopes_at (lookup name m)) scope))
  | inr e ↦ rw (lookup-push_scope name n scope m, e) (tight name)
]

pushed_before :
    (name n : Str) (scope : Scope) (m : ScopeMap) (rest : List Scope)
    → entry (scopes_at (lookup name (push_scope n scope m)) ++ rest)
      ≡ entry (scopes_at (lookup name m) ++ scope_for name (ok (n, scope)) rest)
pushed_before name n scope m rest = elim (Bool-cases (str_eq n name)) [
  | inl e ↦ rw (lookup-push_scope name n scope m, e) (append_entry (lookup name m) scope rest)
  | inr e ↦ rw (lookup-push_scope name n scope m, e)
]

parse_from-lookup :
    (m : ScopeMap) (grants : List Str) (gs : GrantSet) (name : Str)
    → IsTight m
    → parse_from m grants ≡ ok gs
    → lookup name gs.by_name ≡ entry (scopes_at (lookup name m) ++ scopes_in name grants)
unfolding parse_from scopes_in
parse_from-lookup m [] gs name tight e =
    let same : m ≡ gs.by_name = ap GrantSet.by_name (ok-injective e) in
    ap (lookup name) (sym same)
    ∙ tight name
    ∙ ap entry (sym (append-nil (scopes_at (lookup name m))))
parse_from-lookup m (g ∷ grants) gs name tight e =
    let ((n, scope), k, later) =
      >>=-eq-ok (parse_one g) (λ (n, scope). parse_from (push_scope n scope m) grants) e in
    let rest = scopes_in name grants in
    rw k (
      parse_from-lookup (push_scope n scope m) grants gs name (IsTight-push n scope m tight) later
      ∙ pushed_before name n scope m rest)

-- After parsing, the scopes stored under a name are those of the grants for it, in their order,
-- and a name without grants has no entry.
pub parse-lookup :
    (grants : List Str) (gs : GrantSet) (name : Str)
    → parse grants ≡ ok gs
    → lookup name gs.by_name ≡ entry (scopes_in name grants)
unfolding parse
parse-lookup grants gs name e =
    parse_from-lookup [] grants gs name (λ n. unfold lookup in refl) e ∙ (unfold lookup in refl)

parse_from-total :
    (m : ScopeMap) (grants : List Str)
    → All (λ g. (r : Str × Scope) × (parse_one g ≡ ok r)) grants
    → (gs : GrantSet) × (parse_from m grants ≡ ok gs)
unfolding parse_from
parse_from-total m [] h = (record { by_name = m }, refl)
parse_from-total m (g ∷ grants) (((n, scope), k), h) =
    rw k (parse_from-total (push_scope n scope m) grants h)

-- The first grant that is refused, behind grants that are not.
pub record FirstError (grants : List Str) (e : GrantError) : Type 0 where
  pub before : List Str
  pub grant : Str
  pub after : List Str
  pub split_at : grants ≡ before ++ grant ∷ after
  pub accepted : All (λ g. (r : Str × Scope) × (parse_one g ≡ ok r)) before
  pub refused : parse_one grant ≡ err e

FirstError-later :
    {grants : List Str} {e : GrantError} (g : Str) (r : Str × Scope)
    → parse_one g ≡ ok r
    → FirstError grants e
    → FirstError (g ∷ grants) e
FirstError-later g r k f = record {
  before = g ∷ f.before;
  grant = f.grant;
  after = f.after;
  split_at = ap (λ l. g ∷ l) f.split_at;
  accepted = ((r, k), f.accepted);
  refused = f.refused;
}

parse_from-err :
    (m : ScopeMap) (grants : List Str) (e : GrantError)
    → parse_from m grants ≡ err e
    → FirstError grants e
unfolding parse_from
parse_from-err m [] e h = cc
parse_from-err m (g ∷ grants) e h = elim (Result-cases (parse_one g)) [
  | inl ((n, scope), k) ↦
      FirstError-later g (n, scope) k (parse_from-err (push_scope n scope m) grants e (rw k at h))
  | inr (e', k) ↦
      let same : e' ≡ e = err-injective (rw k at h) in
      record {
        before = [];
        grant = g;
        after = grants;
        split_at = refl;
        accepted = tt;
        refused = k ∙ ap err same;
      }
]

parse_from-refused :
    (m : ScopeMap) (before : List Str) (grant : Str) (after : List Str) (e : GrantError)
    → All (λ g. (r : Str × Scope) × (parse_one g ≡ ok r)) before
    → parse_one grant ≡ err e
    → parse_from m (before ++ grant ∷ after) ≡ err e
unfolding parse_from
parse_from-refused m [] grant after e h refused = rw refused
parse_from-refused m (g ∷ before) grant after e (((n, scope), k), h) refused =
    rw k (parse_from-refused (push_scope n scope m) before grant after e h refused)

parse_from-accepted :
    (m : ScopeMap) (grants : List Str) (gs : GrantSet)
    → parse_from m grants ≡ ok gs
    → All (λ g. (r : Str × Scope) × (parse_one g ≡ ok r)) grants
unfolding parse_from
parse_from-accepted m [] gs e = tt
parse_from-accepted m (g ∷ grants) gs e =
    let ((n, scope), k, later) =
      >>=-eq-ok (parse_one g) (λ (n, scope). parse_from (push_scope n scope m) grants) e in
    (((n, scope), k), parse_from-accepted (push_scope n scope m) grants gs later)

-- parse fails with an error exactly if it is that of the first grant that is refused, and gives a
-- table exactly if no grant is refused.
pub parse-outcome :
    (grants : List Str) (e : GrantError)
    → ((parse grants ≡ err e) ↔ FirstError grants e)
      × (((gs : GrantSet) × (parse grants ≡ ok gs))
          ↔ All (λ g. (r : Str × Scope) × (parse_one g ≡ ok r)) grants)
unfolding parse
parse-outcome grants e = (
  (
    parse_from-err [] grants e,
    λ f.
        ap (parse_from []) f.split_at
        ∙ parse_from-refused [] f.before f.grant f.after e f.accepted f.refused,
  ),
  (λ (gs, k). parse_from-accepted [] grants gs k, parse_from-total [] grants),
)
