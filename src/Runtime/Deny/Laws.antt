-- ===== src/Runtime/Deny/Laws.antt =====
-- crates/novbot-skill-runtime/src/deny.rs: `static_deny` against the protected paths.
use novbot.Common.{◌≡◌, ◌↔◌, refl, sym, ◌∙◌, true, arith, ◌||◌, All, ||-eq-true, inl, inr}
use novbot.Text.{Str, codes, str_eq}
use novbot.Runtime.FilePath.{PathBuf, render}
use novbot.Runtime.FilePath.Rendered.{IsEntry}
use novbot.Runtime.Deny.{under_dir, home_ssh, proc_secret, host_key, static_deny}
use novbot.Runtime.Deny.Protected.{
  Protected, shadow, group_shadow, ssh_host_key, ssl_private, root_home, user_ssh, environ, memory,
  shadow_iff, group_shadow_iff, ssl_private_iff, root_iff, home_ssh_sound, home_ssh_complete,
  proc_secret_sound, proc_secret_complete, host_key_sound, host_key_complete,
}

static_deny_lem :
    (t : Str)
    → static_deny t ≡ (
        str_eq t (codes "/etc/shadow")
        || (str_eq t (codes "/etc/gshadow")
            || (host_key t
                || (under_dir t (codes "/etc/ssl/private")
                    || (under_dir t (codes "/root") || (home_ssh t || proc_secret t))))))
unfolding static_deny under_dir
static_deny_lem t = ground arith

static_deny_sound :
    (path : PathBuf) → All IsEntry path → static_deny (render path) ≡ true → Protected path
static_deny_sound path hp h =
    let t : Str = render path in
    elim (||-eq-true _ _ (sym (static_deny_lem t) ∙ h)) [
      | inl a ↦ shadow ((shadow_iff path hp).0 a)
      | inr r1 ↦ elim (||-eq-true _ _ r1) [
        | inl a ↦ group_shadow ((group_shadow_iff path hp).0 a)
        | inr r2 ↦ elim (||-eq-true _ _ r2) [
          | inl a ↦ let (name, e, k) = host_key_sound path hp a in ssh_host_key name e k
          | inr r3 ↦ elim (||-eq-true _ _ r3) [
            | inl a ↦ ssl_private ((ssl_private_iff path hp).0 a)
            | inr r4 ↦ elim (||-eq-true _ _ r4) [
              | inl a ↦ root_home ((root_iff path hp).0 a)
              | inr r5 ↦ elim (||-eq-true _ _ r5) [
                | inl a ↦ let (user, u) = home_ssh_sound path hp a in user_ssh user u
                | inr a ↦
                    let (pid, which) = proc_secret_sound path hp a in
                    elim which [ inl e ↦ environ pid e | inr e ↦ memory pid e ]
              ]
            ]
          ]
        ]
      ]
    ]

static_deny_complete :
    (path : PathBuf) → All IsEntry path → Protected path → static_deny (render path) ≡ true
static_deny_complete path hp (shadow e) =
    ground (arith, static_deny_lem (render path), (shadow_iff path hp).1 e)
static_deny_complete path hp (group_shadow e) =
    ground (arith, static_deny_lem (render path), (group_shadow_iff path hp).1 e)
static_deny_complete path hp (ssh_host_key name e k) =
    ground (arith, static_deny_lem (render path), host_key_complete path hp name e k)
static_deny_complete path hp (ssl_private u) =
    ground (arith, static_deny_lem (render path), (ssl_private_iff path hp).1 u)
static_deny_complete path hp (root_home u) =
    ground (arith, static_deny_lem (render path), (root_iff path hp).1 u)
static_deny_complete path hp (user_ssh user u) =
    ground (arith, static_deny_lem (render path), home_ssh_complete path hp user u)
static_deny_complete path hp (environ pid e) = ground (
  arith,
  static_deny_lem (render path),
  proc_secret_complete path hp pid (codes "environ") (inl refl) e,
)
static_deny_complete path hp (memory pid e) = ground (
  arith,
  static_deny_lem (render path),
  proc_secret_complete path hp pid (codes "mem") (inr refl) e,
)

-- For a path of non-empty components without a slash, the textual tests of static_deny hold
-- exactly if it is protected, so that look-alikes such as /etc/shadow-backup are not refused.
pub static_deny_iff :
    (path : PathBuf) → All IsEntry path → (static_deny (render path) ≡ true) ↔ Protected path
static_deny_iff path hp = (static_deny_sound path hp, static_deny_complete path hp)
