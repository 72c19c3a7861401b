-- ===== src/Runtime/Deny/Protected.antt =====
-- crates/novbot-skill-runtime/src/deny.rs: the protected paths, stated on components, and
-- each test of `static_deny`.
use novbot.Common.{
  ◌≡◌, ◌≢◌, ◌↔◌, refl, sym, ap, ◌∙◌, Bool, true, false, List, [], ◌∷◌, ◌++◌, Option, none, some,
  arith, All, All-append_right, ◌⊎◌, inl, inr, all,
}
use novbot.Text.{Str, codes, str_eq, strip_prefix, join}
use novbot.Text.Laws.{str_eq_iff, str_eq_refl, starts_with_iff, ends_with_iff}
use novbot.Text.Parts.{Lacks, contains_char→Lacks, Lacks→contains_char, join-split}
use novbot.Runtime.Glob.{slash}
use novbot.Runtime.FilePath.{PathBuf, render}
use novbot.Runtime.FilePath.Rendered.{IsEntry, is_entry, entries_of}
use novbot.Runtime.Deny.{
  under_dir, test_below, home_ssh_parts, home_ssh, proc_secret_parts, proc_secret, host_key_name,
  host_key,
}
use novbot.Runtime.Deny.Components.{render-injective, Under, under_dir_iff, below_iff}

-- The name of a private host key of sshd.
abbrev pub IsHostKey : Str → Type 0
IsHostKey name =
    ((a : Str) × (name ≡ codes "ssh_host_" ++ a)) × ((b : Str) × (name ≡ b ++ codes "_key"))

-- The paths that no grant opens, by their components.
pub data Protected (path : PathBuf) : Type 0 where
  shadow : path ≡ codes "etc" ∷ codes "shadow" ∷ [] → Protected path
  group_shadow : path ≡ codes "etc" ∷ codes "gshadow" ∷ [] → Protected path
  ssh_host_key :
      (name : Str) → path ≡ codes "etc" ∷ codes "ssh" ∷ name ∷ [] → IsHostKey name → Protected path
  ssl_private : Under path (codes "etc" ∷ codes "ssl" ∷ codes "private" ∷ []) → Protected path
  root_home : Under path (codes "root" ∷ []) → Protected path
  user_ssh : (user : Str) → Under path (codes "home" ∷ user ∷ codes ".ssh" ∷ []) → Protected path
  environ : (pid : Str) → path ≡ codes "proc" ∷ pid ∷ codes "environ" ∷ [] → Protected path
  memory : (pid : Str) → path ≡ codes "proc" ∷ pid ∷ codes "mem" ∷ [] → Protected path

abbrev EntryTest : (ps : List Str) → Type 0
EntryTest ps = all is_entry ps ≡ true

is_path :
    (path q : PathBuf)
    → All IsEntry path
    → EntryTest q
    → (str_eq (render path) (render q) ≡ true) ↔ (path ≡ q)
is_path path q hp t = (
  λ h. render-injective path q hp (entries_of q t) ((str_eq_iff (render path) (render q)).0 h),
  λ e. (str_eq_iff (render path) (render q)).1 (ap render e),
)

Under-named :
    (path : PathBuf) (d : Str) (dir : PathBuf)
    → All IsEntry path
    → EntryTest (d ∷ dir)
    → (under_dir (render path) (render (d ∷ dir)) ≡ true) ↔ Under path (d ∷ dir)
Under-named path d dir hp t = under_dir_iff path d dir hp (entries_of (d ∷ dir) t)

home_ssh_parts_sound :
    {path : PathBuf} (rest : List Str)
    → path ≡ codes "home" ∷ rest
    → home_ssh_parts rest ≡ true
    → (user : Str) × Under path (codes "home" ∷ user ∷ codes ".ssh" ∷ [])
unfolding home_ssh_parts
home_ssh_parts_sound [] e h = cc
home_ssh_parts_sound (user ∷ []) e h = cc
home_ssh_parts_sound (user ∷ next ∷ rest) e h =
    let same : next ≡ codes ".ssh" = ground (arith, str_eq_iff next (codes ".ssh")) in
    (user, (rest, e ∙ ap (λ n. codes "home" ∷ user ∷ n ∷ rest) same))

home_ssh_parts_complete :
    (user : Str) (rest : List Str) → user ≢ [] → home_ssh_parts (user ∷ codes ".ssh" ∷ rest) ≡ true
unfolding home_ssh_parts
home_ssh_parts_complete [] rest ne = absurd (ne refl)
home_ssh_parts_complete (c ∷ user) rest ne = str_eq_refl (codes ".ssh")

proc_secret_parts_sound :
    (rest : List Str)
    → proc_secret_parts rest ≡ true
    → (pid : Str) × ((rest ≡ pid ∷ codes "environ" ∷ []) ⊎ (rest ≡ pid ∷ codes "mem" ∷ []))
unfolding proc_secret_parts
proc_secret_parts_sound [] h = cc
proc_secret_parts_sound (pid ∷ []) h = cc
proc_secret_parts_sound (pid ∷ leaf ∷ []) h =
    (pid, ground (arith, str_eq_iff leaf (codes "environ"), str_eq_iff leaf (codes "mem")))
proc_secret_parts_sound (pid ∷ leaf ∷ p ∷ rest) h = ground arith

proc_secret_parts_complete :
    (pid leaf : Str)
    → pid ≢ []
    → (leaf ≡ codes "environ") ⊎ (leaf ≡ codes "mem")
    → proc_secret_parts (pid ∷ leaf ∷ []) ≡ true
unfolding proc_secret_parts
proc_secret_parts_complete [] leaf ne h = absurd (ne refl)
proc_secret_parts_complete (c ∷ pid) leaf ne h =
    ground (arith, str_eq_iff leaf (codes "environ"), str_eq_iff leaf (codes "mem"))

host_key_parts : List Str → Bool
host_key_parts parts = host_key_name (join parts (codes "/"))

host_key_below :
    (o : Option Str)
    → test_below host_key_parts o ≡ elim o [ none ↦ false | some name ↦ host_key_name name ]
unfolding host_key_parts
host_key_below none = refl
host_key_below (some name) = ap host_key_name (join-split name slash)

-- A joined text without a separator has one part.
single_part :
    (rest : List Str)
    → rest ≢ []
    → Lacks slash (join rest (codes "/"))
    → rest ≡ join rest (codes "/") ∷ []
unfolding join
single_part [] ne h = absurd (ne refl)
single_part (p ∷ []) ne h = refl
single_part (p ∷ q ∷ ps) ne h =
    let after = All-append_right (λ c. c ≢ slash) p (slash ∷ join (q ∷ ps) (codes "/")) h in
    absurd (after.0 refl)

host_key_name_sound : (name : Str) → host_key_name name ≡ true → Lacks slash name × IsHostKey name
unfolding host_key_name
host_key_name_sound name h = (
  contains_char→Lacks name slash (ground arith),
  (
    (starts_with_iff name (codes "ssh_host_")).0 (ground arith),
    (ends_with_iff name (codes "_key")).0 (ground arith),
  ),
)

host_key_name_complete :
    (name : Str) → Lacks slash name → IsHostKey name → host_key_name name ≡ true
unfolding host_key_name
host_key_name_complete name lacks (a, b) = ground (
  arith,
  Lacks→contains_char name slash lacks,
  (starts_with_iff name (codes "ssh_host_")).1 a,
  (ends_with_iff name (codes "_key")).1 b,
)

module _ (path : PathBuf) (hp : All IsEntry path) where
  pub shadow_iff :
      (str_eq (render path) (codes "/etc/shadow") ≡ true)
      ↔ (path ≡ codes "etc" ∷ codes "shadow" ∷ [])
  unfolding render
  shadow_iff = is_path path (codes "etc" ∷ codes "shadow" ∷ []) hp refl

  pub group_shadow_iff :
      (str_eq (render path) (codes "/etc/gshadow") ≡ true)
      ↔ (path ≡ codes "etc" ∷ codes "gshadow" ∷ [])
  unfolding render
  group_shadow_iff = is_path path (codes "etc" ∷ codes "gshadow" ∷ []) hp refl

  pub ssl_private_iff :
      (under_dir (render path) (codes "/etc/ssl/private") ≡ true)
      ↔ Under path (codes "etc" ∷ codes "ssl" ∷ codes "private" ∷ [])
  unfolding render
  ssl_private_iff = Under-named path (codes "etc") (codes "ssl" ∷ codes "private" ∷ []) hp refl

  pub root_iff : (under_dir (render path) (codes "/root") ≡ true) ↔ Under path (codes "root" ∷ [])
  unfolding render
  root_iff = Under-named path (codes "root") [] hp refl

  pub home_ssh_sound :
      home_ssh (render path) ≡ true
      → (user : Str) × Under path (codes "home" ∷ user ∷ codes ".ssh" ∷ [])
  unfolding home_ssh render
  home_ssh_sound h =
      let (rest, ne, e, k) =
        (below_iff home_ssh_parts path (codes "home") [] hp (entries_of (codes "home" ∷ []) refl)).0
          h in
      home_ssh_parts_sound rest e k

  second_entry : (p q : Str) (rest : PathBuf) → path ≡ p ∷ q ∷ rest → q ≢ []
  second_entry p q rest e = let entries : All IsEntry (p ∷ q ∷ rest) = rw e at hp in entries.1.0.0

  pub home_ssh_complete :
      (user : Str)
      → Under path (codes "home" ∷ user ∷ codes ".ssh" ∷ [])
      → home_ssh (render path) ≡ true
  unfolding home_ssh render
  home_ssh_complete user (rest, e) =
      (below_iff home_ssh_parts path (codes "home") [] hp (entries_of (codes "home" ∷ []) refl)).1 (
        user ∷ codes ".ssh" ∷ rest,
        λ n. cc,
        e,
        home_ssh_parts_complete user rest (second_entry (codes "home") user _ e),
      )

  pub proc_secret_sound :
      proc_secret (render path) ≡ true
      → (pid : Str) × ((path ≡ codes "proc" ∷ pid ∷ codes "environ" ∷ [])
          ⊎ (path ≡ codes "proc" ∷ pid ∷ codes "mem" ∷ []))
  unfolding proc_secret render
  proc_secret_sound h =
      let (rest, ne, e, k) =
        (below_iff proc_secret_parts path (codes "proc") [] hp
            (entries_of (codes "proc" ∷ []) refl)).0
          h in
      let (pid, which) = proc_secret_parts_sound rest k in
      (pid, elim which [ inl a ↦ inl (rw (← a) e) | inr a ↦ inr (rw (← a) e) ])

  pub proc_secret_complete :
      (pid leaf : Str)
      → (leaf ≡ codes "environ") ⊎ (leaf ≡ codes "mem")
      → path ≡ codes "proc" ∷ pid ∷ leaf ∷ []
      → proc_secret (render path) ≡ true
  unfolding proc_secret render
  proc_secret_complete pid leaf which e =
      (below_iff proc_secret_parts path (codes "proc") [] hp
          (entries_of (codes "proc" ∷ []) refl)).1
        (
          pid ∷ leaf ∷ [],
          λ n. cc,
          e,
          proc_secret_parts_complete pid leaf (second_entry (codes "proc") pid (leaf ∷ []) e) which,
        )

  pub host_key_sound :
      host_key (render path) ≡ true
      → (name : Str) × (path ≡ codes "etc" ∷ codes "ssh" ∷ name ∷ []) × IsHostKey name
  unfolding host_key host_key_parts render
  host_key_sound h =
      let (rest, ne, e, k) =
        (below_iff host_key_parts path (codes "etc") (codes "ssh" ∷ []) hp
            (entries_of (codes "etc" ∷ codes "ssh" ∷ []) refl)).0
          (host_key_below (strip_prefix (render path) (codes "/etc/ssh/")) ∙ h) in
      let (lacks, key) = host_key_name_sound (join rest (codes "/")) k in
      (
        join rest (codes "/"),
        e ∙ ap (λ r. codes "etc" ∷ codes "ssh" ∷ r) (single_part rest ne lacks),
        key,
      )

  pub host_key_complete :
      (name : Str)
      → path ≡ codes "etc" ∷ codes "ssh" ∷ name ∷ []
      → IsHostKey name
      → host_key (render path) ≡ true
  unfolding host_key host_key_parts render join
  host_key_complete name e key =
      let entries : All IsEntry (codes "etc" ∷ codes "ssh" ∷ name ∷ []) = rw e at hp in
      sym (host_key_below (strip_prefix (render path) (codes "/etc/ssh/")))
      ∙ (below_iff host_key_parts path (codes "etc") (codes "ssh" ∷ []) hp
            (entries_of (codes "etc" ∷ codes "ssh" ∷ []) refl)).1
          (name ∷ [], λ n. cc, e, host_key_name_complete name entries.1.1.0.1 key)
