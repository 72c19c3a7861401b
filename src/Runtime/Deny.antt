-- ===== src/Runtime/Deny.antt =====
-- crates/novbot-skill-runtime/src/deny.rs: the node-wide denylist.
-- The environment variable NOVBOT_DATA_DIR is an argument of `new`, and directories are absolute.
pub mod Components
pub mod Protected
pub mod Aliases
pub mod DataDir
pub mod Laws
use novbot.Common.{
  ltb, Bool, true, false, not, ◌&&◌, ◌||◌, List, [], ◌∷◌, ◌++◌, Option, none, some, any, length,
  is_empty, if◌then◌else◌,
}
use novbot.Text.{
  Str, codes, str_eq, strip_prefix, starts_with, ends_with, contains, contains_char, split,
  to_ascii_lowercase,
}
use novbot.Runtime.Glob.{slash, trim_slashes}
use novbot.Runtime.FilePath.{PathBuf, Fs, display_path}

pub record Denylist : Type 0 where
  pub data_dirs : List Str

unfoldable pub under_dir : Str → Str → Bool
under_dir path dir = str_eq path dir || starts_with path (dir ++ codes "/")

unfoldable pub trim_slash : Str → Str
trim_slash path = if ltb 1 (length path) then trim_slashes path else path

-- The other spelling of a path below or beside `/private`.
unfoldable pub other_alias : Str → List Str
other_alias path = elim (strip_prefix path (codes "/private/")) [
  | some rest ↦ (codes "/" ++ rest) ∷ []
  | none ↦ elim (strip_prefix path (codes "/")) [
    | some rest ↦ (codes "/private/" ++ rest) ∷ []
    | none ↦ []
  ]
]

unfoldable pub aliases : Str → List Str
aliases path = let trimmed = trim_slash path in trimmed ∷ other_alias trimmed

-- `let Some(rest) = … else { return false }` and a test of `rest.split('/')`.
abbrev pub test_below : (List Str → Bool) → Option Str → Bool
test_below test none = false
test_below test (some rest) = test (split rest slash)

-- `home_ssh` behind `/home/`: the iterator's first two parts.
unfoldable pub home_ssh_parts : List Str → Bool
home_ssh_parts [] = false
home_ssh_parts (user ∷ []) = false
home_ssh_parts (user ∷ next ∷ parts) = if is_empty user then false else str_eq next (codes ".ssh")

unfoldable pub home_ssh : Str → Bool
home_ssh path = test_below home_ssh_parts (strip_prefix path (codes "/home/"))

unfoldable pub proc_secret_parts : List Str → Bool
proc_secret_parts [] = false
proc_secret_parts (pid ∷ []) = false
proc_secret_parts (pid ∷ leaf ∷ parts) =
    if is_empty pid
    then false
    else is_empty parts && (str_eq leaf (codes "environ") || str_eq leaf (codes "mem"))

unfoldable pub proc_secret : Str → Bool
proc_secret path = test_below proc_secret_parts (strip_prefix path (codes "/proc/"))

-- The name of a file in `/etc/ssh` that holds a private host key.
unfoldable pub host_key_name : Str → Bool
host_key_name name =
    not (contains_char name slash)
    && starts_with name (codes "ssh_host_")
    && ends_with name (codes "_key")

unfoldable pub host_key : Str → Bool
host_key path = elim (strip_prefix path (codes "/etc/ssh/")) [
  | none ↦ false
  | some name ↦ host_key_name name
]

unfoldable pub static_deny : Str → Bool
static_deny path =
    if str_eq path (codes "/etc/shadow") || str_eq path (codes "/etc/gshadow")
    then true
    else if host_key path
    then true
    else if str_eq path (codes "/etc/ssl/private") || starts_with path (codes "/etc/ssl/private/")
    then true
    else if str_eq path (codes "/root") || starts_with path (codes "/root/")
    then true
    else if home_ssh path
    then true
    else if proc_secret path
    then true
    else false

unfoldable pub hit : Denylist → Str → Bool
hit d path = if static_deny path then true else any (λ dir. under_dir path dir) d.data_dirs

unfoldable pub denies_fs : Denylist → PathBuf → Bool
denies_fs d path = any (λ alias. hit d alias) (aliases (display_path path))

unfoldable pub denies_env : Str → Bool
denies_env key =
    let lower = to_ascii_lowercase key in
    contains lower (codes "secret")
    || contains lower (codes "password")
    || contains lower (codes "token")
    || contains lower (codes "api_key")
    || ends_with lower (codes "_key")

-- `if !dirs.contains(&alias) { dirs.push(alias) }`, for each alias.
unfoldable pub push_new : List Str → List Str → List Str
push_new dirs [] = dirs
push_new dirs (alias ∷ rest) =
    push_new (if any (λ d. str_eq d alias) dirs then dirs else dirs ++ alias ∷ []) rest

unfoldable pub push_data_dir : Fs → List Str → PathBuf → List Str
push_data_dir fs dirs dir =
    let text : Str = elim (fs.canonicalize dir) [
      | some real ↦ display_path real
      | none ↦ display_path dir
    ] in
    push_new dirs (aliases text)

unfoldable pub push_if_set : Fs → List Str → Option PathBuf → List Str
push_if_set fs dirs none = dirs
push_if_set fs dirs (some dir) = push_data_dir fs dirs dir

unfoldable pub new : Fs → Option PathBuf → Option PathBuf → Denylist
new fs env_dir data_dir = record { data_dirs = push_if_set fs (push_if_set fs [] data_dir) env_dir }
