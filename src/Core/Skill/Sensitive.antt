-- ===== src/Core/Skill/Sensitive.antt =====
-- crates/novbot-core/src/skill.rs: `env_get` and the rule for sensitive names in
-- crates/novbot-skill-runtime/src/deny.rs.
use mathlib.Core.Path.{◌≡◌, refl, sym, ap, ◌∙◌}
use novbot.Common.{true, some, if◌then◌else◌, ok, ◌>>=◌}
use novbot.Text.{Str, codes, str_eq}
use novbot.Runtime.Deny.{denies_env}
use novbot.Core.Skill.{
  Json, Host, looks_sensitive, refusal, env_answer, skill_env_get, invoke_skill, and_then, ok_or,
}

looks_sensitive-denies_env : (key : Str) → looks_sensitive key ≡ denies_env key
unfolding looks_sensitive denies_env
looks_sensitive-denies_env key = refl

invoke-env_get :
    (json : Json) (host : Host) (arguments : json.Value)
    → invoke_skill json host (codes "env_get") arguments ≡ skill_env_get json host arguments
unfolding invoke_skill str_eq
invoke-env_get json host arguments = refl

env_get-refuses :
    (json : Json) (host : Host) (arguments : json.Value) (key : Str)
    → and_then (json.get arguments (codes "key")) json.as_str ≡ some key
    → denies_env key ≡ true
    → invoke_skill json host (codes "env_get") arguments ≡ ok (refusal json key)
unfolding skill_env_get
env_get-refuses json host arguments key named denied =
    let sensitive : looks_sensitive key ≡ true = looks_sensitive-denies_env key ∙ denied in
    invoke-env_get json host arguments
    ∙ ap
        (λ o. ok_or o (codes "env_get requires arguments.key") >>= λ k.
          if looks_sensitive k then ok (refusal json k) else ok (env_answer json k (host.var k)))
        named
    ∙ ap (λ b. if b then ok (refusal json key) else ok (env_answer json key (host.var key)))
        sensitive

-- For a key that the denylist of the sandbox refuses, the answer of the skill env_get is the same
-- on any two hosts, so that it tells nothing of the environment.
pub env_get-denied :
    (json : Json) (host host' : Host) (arguments : json.Value) (key : Str)
    → and_then (json.get arguments (codes "key")) json.as_str ≡ some key
    → denies_env key ≡ true
    → invoke_skill json host (codes "env_get") arguments
      ≡ invoke_skill json host' (codes "env_get") arguments
env_get-denied json host host' arguments key named denied =
    env_get-refuses json host arguments key named denied
    ∙ sym (env_get-refuses json host' arguments key named denied)
