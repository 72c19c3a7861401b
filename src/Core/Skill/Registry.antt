-- ===== src/Core/Skill/Registry.antt =====
-- crates/novbot-core/src/skill.rs: `list_skills` and `invoke_skill`.
use mathlib.Core.Path.{◌≡◌, ap}
use novbot.Common.{
  Bool, true, false, any, ◌==◌, [], ◌∷◌, Result, ok, err, arith, Bool-cases, inl, inr, ◌↔◌,
  Option-cases, ◌≢◌,
}
use novbot.Text.{Str, codes, str_eq}
use novbot.Core.Skill.{
  Json, Host, ProbeError, params, list_skills, unknown_message, skill_env_get, invoke_skill,
  and_then, looks_sensitive,
}

-- The two messages differ in their first letter.
abbrev first_is_u {ℓ} : {A : Type ℓ} → Result A ProbeError → Bool
first_is_u (ok a) = false
first_is_u (err (params [])) = false
first_is_u (err (params (c ∷ s))) = c == b'u'

-- `env_get` never answers that a skill is unknown.
env_get-known :
    (json : Json) (host : Host) (arguments : json.Value) (name : Str)
    → skill_env_get json host arguments ≢ err (params (unknown_message name))
unfolding skill_env_get unknown_message
env_get-known json host arguments name e =
    elim (Option-cases (and_then (json.get arguments (codes "key")) json.as_str)) [
      | inl none_named ↦
          let same : false ≡ true = ap first_is_u (rw (none_named, skill_env_get) at e) in cc
      | inr (key, named) ↦ elim (Bool-cases (looks_sensitive key)) [
        | inl hidden ↦ cc (rw (named, skill_env_get, hidden) at e)
        | inr plain ↦ cc (rw (named, skill_env_get, plain) at e)
      ]
    ]

-- A skill is answered as unknown exactly if list_skills does not have its name.
pub invoke_skill-unknown_iff :
    (json : Json) (host : Host) (name : Str) (arguments : json.Value)
    → (invoke_skill json host name arguments ≡ err (params (unknown_message name)))
      ↔ (any (str_eq name) list_skills ≡ false)
unfolding invoke_skill list_skills
invoke_skill-unknown_iff json host name arguments =
    (λ e. ground (arith, env_get-known json host arguments name), λ h. ground arith)
