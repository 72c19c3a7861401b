-- ===== src/Node/Skills/Host/Guards.antt =====
-- crates/novbot-node/src/skills/mod.rs: when `version_guard_ok` and `validate_arguments` let a call
-- of `run_hub` pass.
use novbot.Common.{
  ◌≡◌, ◌↔◌, ◌⊎◌, refl, Bool, true, false, ◌||◌, List, [], ◌∷◌, Option, none, some, ok, Bool-cases,
  inl, inr, is_empty, if◌then◌else◌,
}
use novbot.Text.{Str, codes, str_eq, trim}
use novbot.Text.Laws.{empty_or_eq_iff}
use novbot.Core.Tags.Ordering.{str_lt}
use novbot.Node.Package.{Bytes}
use novbot.Node.Skills.Host.Run.{
  Checks, Identity, root_if_empty, sort_texts, insert_text, add_pointers, pointers_by,
  argument_pointers, pointers_refused, check_arguments, exact_or_range, version_ok, requirement_ok,
  version_guard_ok, guard_ok,
}

insert_text-some :
    (s : Str) (ss : List Str) → (t : Str) × (ts : List Str) × (insert_text s ss ≡ t ∷ ts)
insert_text-some s [] = (s, [], refl)
insert_text-some s (t ∷ ts) = elim (Bool-cases (str_lt t s)) [
  | inl e ↦ (t, insert_text s ts, rw e)
  | inr e ↦ (s, t ∷ ts, rw e)
]

-- There is always a pointer to report.
reported : (ss : List Str) → (t : Str) × (ts : List Str) × (sort_texts (root_if_empty ss) ≡ t ∷ ts)
unfolding sort_texts
reported [] = (codes "/", [], refl)
reported (s ∷ ss) = insert_text-some s (sort_texts ss)

module _ (checks : Checks) where
  -- The call names no version, or a blank one or `*`, or the version that is installed, or a range
  -- that the installed version meets.
  pub data VersionFits (installed : Str) : Option checks.Value → Type 0 where
    any_version : VersionFits installed none
    wildcard :
        {value : checks.Value} (text : Str)
        → checks.as_str value ≡ some text
        → (trim text ≡ []) ⊎ (trim text ≡ codes "*")
        → VersionFits installed (some value)
    exact :
        {value : checks.Value} (text : Str) (here asked : checks.Version)
        → checks.as_str value ≡ some text
        → checks.parse_version installed ≡ some here
        → checks.parse_version (trim text) ≡ some asked
        → checks.same_version here asked ≡ true
        → VersionFits installed (some value)
    range :
        {value : checks.Value} (text : Str) (here : checks.Version)
        → checks.as_str value ≡ some text
        → checks.parse_version installed ≡ some here
        → checks.parse_version (trim text) ≡ none
        → checks.requirement_matches (trim text) here ≡ true
        → VersionFits installed (some value)

  -- The skill has no schema, or one that can be built and that the arguments meet.
  pub data ArgumentsFit (arguments : checks.Value) : Option Bytes → Type 0 where
    no_schema : ArgumentsFit arguments none
    valid :
        (schema : Bytes) (validator : checks.Validator)
        → checks.build schema ≡ some validator
        → checks.is_valid validator arguments ≡ true
        → ArgumentsFit arguments (some schema)

  compared :
      (installed : Str) (value : checks.Value) (text : Str) (here : checks.Version)
      (asked : Option checks.Version)
      → checks.as_str value ≡ some text
      → checks.parse_version installed ≡ some here
      → checks.parse_version (trim text) ≡ asked
      → exact_or_range checks (trim text) here asked ≡ true
      → VersionFits installed (some value)
  compared installed value text here (some e) k p q h = exact text here e k p q h
  compared installed value text here none k p q h = range text here k p q h

  parsed :
      (installed : Str) (value : checks.Value) (text : Str) (here : Option checks.Version)
      → checks.as_str value ≡ some text
      → checks.parse_version installed ≡ here
      → version_ok checks (trim text) here ≡ true
      → VersionFits installed (some value)
  parsed installed value text none k p h = absurd cc
  parsed installed value text (some here) k p h =
      compared installed value text here (checks.parse_version (trim text)) k p refl h

  named :
      (installed : Str) (value : checks.Value) (text : Option Str)
      → checks.as_str value ≡ text
      → requirement_ok checks installed text ≡ true
      → VersionFits installed (some value)
  named installed value none k h = absurd cc
  named installed value (some text) k h =
      elim (Bool-cases (is_empty (trim text) || str_eq (trim text) (codes "*"))) [
        | inl e ↦ wildcard text k ((empty_or_eq_iff (trim text) (codes "*")).0 e)
        | inr e ↦ parsed installed value text (checks.parse_version installed) k refl (rw e at h)
      ]

  guard_ok→VersionFits :
      (installed : Str) (version : Option checks.Value)
      → guard_ok checks installed version ≡ true
      → VersionFits installed version
  unfolding version_guard_ok
  guard_ok→VersionFits installed none h = any_version
  guard_ok→VersionFits installed (some value) h = named installed value (checks.as_str value) refl h

  unless_wildcard : (wild rest : Bool) → rest ≡ true → (if wild then true else rest) ≡ true
  unless_wildcard true rest h = refl
  unless_wildcard false rest h = h

  VersionFits→guard_ok :
      (installed : Str) (version : Option checks.Value)
      → VersionFits installed version
      → guard_ok checks installed version ≡ true
  unfolding version_guard_ok
  VersionFits→guard_ok installed none any_version = refl
  VersionFits→guard_ok installed (some value) (wildcard text k w) =
      rw (k, (empty_or_eq_iff (trim text) (codes "*")).1 w)
  VersionFits→guard_ok installed (some value) (exact text here asked k p q h) = rw k (
      unless_wildcard (is_empty (trim text) || str_eq (trim text) (codes "*"))
        (version_ok checks (trim text) (checks.parse_version installed)) (rw (p, q) h))
  VersionFits→guard_ok installed (some value) (range text here k p q h) = rw k (
      unless_wildcard (is_empty (trim text) || str_eq (trim text) (codes "*"))
        (version_ok checks (trim text) (checks.parse_version installed)) (rw (p, q) h))

  pub guard_ok_iff :
      (installed : Str) (version : Option checks.Value)
      → (guard_ok checks installed version ≡ true) ↔ VersionFits installed version
  guard_ok_iff installed version =
      (guard_ok→VersionFits installed version, VersionFits→guard_ok installed version)

  refused_apart :
      (identity : Identity) (ss : List Str)
      → pointers_refused checks identity (some (sort_texts (root_if_empty ss))) ≡ ok tt
      → ⊥
  refused_apart identity ss h = let (t, ts, e) = reported ss in cc (rw e at h)

  built :
      (identity : Identity) (schema : Bytes) (arguments : checks.Value)
      (o : Option checks.Validator)
      → checks.build schema ≡ o
      → pointers_refused checks identity (pointers_by checks o arguments) ≡ ok tt
      → ArgumentsFit arguments (some schema)
  built identity schema arguments none k h = absurd cc
  built identity schema arguments (some v) k h = elim (Bool-cases (checks.is_valid v arguments)) [
    | inl e ↦ valid schema v k e
    | inr e ↦
        absurd
          (refused_apart identity (add_pointers [] (checks.error_paths v arguments)) (rw e at h))
  ]

  check_arguments→ArgumentsFit :
      (identity : Identity) (schema : Option Bytes) (arguments : checks.Value)
      → check_arguments checks identity schema arguments ≡ ok tt
      → ArgumentsFit arguments schema
  unfolding argument_pointers
  check_arguments→ArgumentsFit identity none arguments h = no_schema
  check_arguments→ArgumentsFit identity (some schema) arguments h =
      built identity schema arguments (checks.build schema) refl h

  ArgumentsFit→check_arguments :
      (identity : Identity) (schema : Option Bytes) (arguments : checks.Value)
      → ArgumentsFit arguments schema
      → check_arguments checks identity schema arguments ≡ ok tt
  unfolding argument_pointers
  ArgumentsFit→check_arguments identity none arguments no_schema = refl
  ArgumentsFit→check_arguments identity (some schema) arguments (valid _ v k e) = rw (k, e)

  pub check_arguments_iff :
      (identity : Identity) (schema : Option Bytes) (arguments : checks.Value)
      → (check_arguments checks identity schema arguments ≡ ok tt) ↔ ArgumentsFit arguments schema
  check_arguments_iff identity schema arguments = (
    check_arguments→ArgumentsFit identity schema arguments,
    ArgumentsFit→check_arguments identity schema arguments,
  )
