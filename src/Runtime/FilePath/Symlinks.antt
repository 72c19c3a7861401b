-- ===== src/Runtime/FilePath/Symlinks.antt =====
-- crates/novbot-skill-runtime/src/path.rs: `resolve` and symlinks.
use novbot.Common.{
  sym, ◌≡◌, refl, true, false, Option, none, some, arith, Bool-cases, Option-cases, inl, inr,
}
use novbot.Text.{Str}
use novbot.Runtime.Glob.{reject_syntax}
use novbot.Runtime.FilePath.{
  PathBuf, Fs, Resolved, render, canonical_own, lexical_normalize, follow_target, absolute_target,
  unless_symlink, read_and_follow, resolved_link, resolve_own, resolve,
}
use novbot.Runtime.FilePath.Lexical.{resolve_accepted, resolve-eq-none_iff}

-- `fs::canonicalize` returns a path with every symlink resolved.
abbrev pub CanonicalIsReal : Fs → Type 0
CanonicalIsReal fs = (p q : PathBuf) → fs.canonicalize p ≡ some q → fs.is_symlink q ≡ false

unless_symlink-real :
    (fs : Fs) (o : Option PathBuf) (q : PathBuf)
    → unless_symlink fs o ≡ some q
    → fs.is_symlink q ≡ false
unfolding unless_symlink
unless_symlink-real fs none q e = cc
unless_symlink-real fs (some lexical) q e = ground arith

follow_target-real :
    (fs : Fs) (p q : PathBuf)
    → CanonicalIsReal fs
    → follow_target fs p ≡ some q
    → fs.is_symlink q ≡ false
unfolding follow_target
follow_target-real fs p q real e =
    ground (arith, real p q, unless_symlink-real fs (lexical_normalize (render p)) q)

read_and_follow-real :
    (fs : Fs) (own q : PathBuf)
    → CanonicalIsReal fs
    → read_and_follow fs own ≡ some q
    → fs.is_symlink q ≡ false
unfolding read_and_follow
read_and_follow-real fs own q real e = elim (Option-cases (fs.read_link own)) [
  | inl a ↦ cc (rw (a, read_and_follow) at e)
  | inr (target, a) ↦
      follow_target-real fs (absolute_target own target) q real (rw (a, read_and_follow) at e)
]

-- What holds of an answer: the flags say what `own` and `scope` are, and a scope that is not
-- broken is no symlink.
pub record IsResolved (fs : Fs) (r : Resolved) : Type 0 where
  pub flagged : r.final_symlink ≡ fs.is_symlink r.own
  pub plain : r.final_symlink ≡ false → r.scope ≡ r.own
  pub broken : r.broken_symlink ≡ true → (r.final_symlink ≡ true) × (r.scope ≡ r.own)
  pub followed : r.broken_symlink ≡ false → fs.is_symlink r.scope ≡ false

resolved_link-IsResolved :
    (fs : Fs) (own : PathBuf) (o : Option PathBuf)
    → fs.is_symlink own ≡ true
    → ((q : PathBuf) → o ≡ some q → fs.is_symlink q ≡ false)
    → IsResolved fs (resolved_link own o)
resolved_link-IsResolved fs own (some scope) link real = record {
  flagged = sym link;
  plain = λ e. cc;
  broken = λ e. cc;
  followed = λ e. real scope refl;
}
resolved_link-IsResolved fs own none link real = record {
  flagged = sym link;
  plain = λ e. cc;
  broken = λ e. (refl, refl);
  followed = λ e. cc;
}

resolve_own-IsResolved :
    (fs : Fs) (own : PathBuf) → CanonicalIsReal fs → IsResolved fs (resolve_own fs own)
unfolding resolve_own
resolve_own-IsResolved fs own real = elim (Bool-cases (fs.is_symlink own)) [
  | inl link ↦ rw link (
      resolved_link-IsResolved fs own (read_and_follow fs own) link
        (λ q e. read_and_follow-real fs own q real e))
  | inr plain ↦
      rw plain
        (record { flagged = sym plain; plain = λ e. refl; broken = λ e. cc; followed = λ e. plain })
]

-- If canonicalisation gives no symlinks, every answer of resolve is as its flags say: without the
-- symlink flag the scope is the own place, a broken symlink keeps its own place, and any other
-- scope is no symlink.
pub resolve-IsResolved :
    (fs : Fs) (raw : Str) (r : Resolved)
    → CanonicalIsReal fs
    → resolve fs raw ≡ some r
    → IsResolved fs r
resolve-IsResolved fs raw r real e = elim (Bool-cases (reject_syntax raw)) [
  | inl bad ↦ cc ((resolve-eq-none_iff fs raw).1 bad)
  | inr good ↦
      let (path, k, found) = resolve_accepted fs raw good in
      let same : resolve_own fs (canonical_own fs path) ≡ r = cc in
      rw (← same) (resolve_own-IsResolved fs (canonical_own fs path) real)
]
