-- ===== src/Runtime/Deny/DataDir.antt =====
-- crates/novbot-skill-runtime/src/deny.rs: `Denylist::new` and the data directories.
use novbot.Common.{
  ◌≡◌, refl, ap, ◌∙◌, Bool, true, false, List, [], ◌∷◌, ◌++◌, Option, none, some, arith, All,
  All-append, Any, here, there, any→Any, Any→any, Any-map, Any-append_left, Any-append_right,
  Bool-cases, inl, inr, any, if◌then◌else◌,
}
use novbot.Text.{Str, str_eq}
use novbot.Text.Laws.{str_eq_iff}
use novbot.Runtime.FilePath.{PathBuf, Fs, render}
use novbot.Runtime.FilePath.Rendered.{IsEntry, display_path_lem}
use novbot.Runtime.Deny.{under_dir, hit, denies_fs, push_new, push_data_dir, push_if_set, new}
use novbot.Runtime.Deny.Components.{under_dir_iff}
use novbot.Runtime.Deny.Aliases.{IsDir, aliases_lem, mirror}

-- The text is one of the list.
abbrev Has : List Str → Str → Type 0
Has dirs t = Any (λ d. d ≡ t) dirs

push_new-keeps : (dirs more : List Str) (t : Str) → Has dirs t → Has (push_new dirs more) t
unfolding push_new
push_new-keeps dirs [] t h = h
push_new-keeps dirs (a ∷ more) t h =
    push_new-keeps (if any (λ d. str_eq d a) dirs then dirs else dirs ++ a ∷ []) more t
      (kept (any (λ d. str_eq d a) dirs))
  where
    kept : (b : Bool) → Has (if b then dirs else dirs ++ a ∷ []) t
    kept true = h
    kept false = Any-append_left (λ d. d ≡ t) dirs (a ∷ []) h

push_new-adds : (dirs more : List Str) (t : Str) → Has more t → Has (push_new dirs more) t
unfolding push_new
push_new-adds dirs [] t h = elim h [ ]
push_new-adds dirs (a ∷ more) t (here e) =
    push_new-keeps (if any (λ d. str_eq d a) dirs then dirs else dirs ++ a ∷ []) more t
      (elim (Bool-cases (any (λ d. str_eq d a) dirs)) [
        | inl old ↦
            rw old
              (Any-map dirs (λ d k. (str_eq_iff d a).0 k ∙ e) (any→Any (λ d. str_eq d a) dirs old))
        | inr new ↦ rw new (Any-append_right (λ d. d ≡ t) dirs (a ∷ []) (here e))
      ])
push_new-adds dirs (a ∷ more) t (there h) =
    push_new-adds (if any (λ d. str_eq d a) dirs then dirs else dirs ++ a ∷ []) more t h

push_data_dir_real :
    (fs : Fs) (dirs : List Str) (dir real : PathBuf)
    → fs.canonicalize dir ≡ some real
    → IsDir real
    → Has (push_data_dir fs dirs dir) (render real)
unfolding push_data_dir
push_data_dir_real fs dirs dir real e (ne, h) =
    rw (e, display_path_lem real h, aliases_lem real ne h)
      (push_new-adds dirs (render real ∷ render (mirror real) ∷ []) (render real) (here refl))

push_if_set-keeps :
    (fs : Fs) (dirs : List Str) (o : Option PathBuf) (t : Str)
    → Has dirs t
    → Has (push_if_set fs dirs o) t
unfolding push_if_set push_data_dir
push_if_set-keeps fs dirs none t h = h
push_if_set-keeps fs dirs (some dir) t h = push_new-keeps dirs _ t h

new-Has :
    (fs : Fs) (env_dir : Option PathBuf) (dir real : PathBuf)
    → fs.canonicalize dir ≡ some real
    → IsDir real
    → Has ((new fs env_dir (some dir)).data_dirs) (render real)
unfolding new
new-Has fs env_dir dir real e h =
    push_if_set-keeps fs (push_if_set fs [] (some dir)) env_dir (render real)
      (unfold push_if_set in push_data_dir_real fs [] dir real e h)

under-Has :
    (dirs : List Str) (real rest : PathBuf)
    → IsDir real
    → All IsEntry rest
    → Has dirs (render real)
    → any (λ dir. under_dir (render (real ++ rest)) dir) dirs ≡ true
under-Has dirs [] rest (ne, h) hr has = absurd (ne refl)
under-Has dirs (d ∷ real) rest (ne, h) hr has =
    Any→any (λ dir. under_dir (render ((d ∷ real) ++ rest)) dir) dirs
      (Any-map dirs
        (λ t e.
          ap (under_dir (render ((d ∷ real) ++ rest))) e
          ∙ (under_dir_iff ((d ∷ real) ++ rest) d real (All-append IsEntry (d ∷ real) rest h hr)
                h).1
              (rest, refl))
        has)

hit_data_dir :
    (fs : Fs) (env_dir : Option PathBuf) (dir real rest : PathBuf)
    → fs.canonicalize dir ≡ some real
    → IsDir real
    → All IsEntry rest
    → hit (new fs env_dir (some dir)) (render (real ++ rest)) ≡ true
unfolding hit
hit_data_dir fs env_dir dir real rest e h hr = ground (
  arith,
  under-Has ((new fs env_dir (some dir)).data_dirs) real rest h hr
      (new-Has fs env_dir dir real e h),
)

append-ne-nil : (p q : PathBuf) → ¬ (p ≡ []) → ¬ (p ++ q ≡ [])
append-ne-nil [] q ne e = ne refl
append-ne-nil (x ∷ p) q ne e = cc

-- A data directory whose canonical form is below the root is refused there, with every path below
-- it, whatever NOVBOT_DATA_DIR names besides.
pub denies_fs_data_dir :
    (fs : Fs) (env_dir : Option PathBuf) (dir real rest : PathBuf)
    → fs.canonicalize dir ≡ some real
    → IsDir real
    → All IsEntry rest
    → denies_fs (new fs env_dir (some dir)) (real ++ rest) ≡ true
unfolding denies_fs
denies_fs_data_dir fs env_dir dir real rest e h hr =
    let entries = All-append IsEntry real rest h.1 hr in
    rw (
      display_path_lem (real ++ rest) entries,
      aliases_lem (real ++ rest) (append-ne-nil real rest h.0) entries,
      hit_data_dir fs env_dir dir real rest e h hr,
    )
