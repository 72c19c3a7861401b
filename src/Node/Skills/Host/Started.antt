-- ===== src/Node/Skills/Host/Started.antt =====
-- crates/novbot-node/src/skills/mod.rs: the runs that `run_hub` starts.
use novbot.Common.{
  ◌≡◌, sym, ap, ◌∙◌, ℕ, true, List, Option, none, some, Result, ok, err, Bool-cases, Result-cases,
  inl, inr, arith,
}
use novbot.Text.{Str, codes, str_eq}
use novbot.Text.Laws.{str_eq_iff}
use novbot.Text.Maps.{find}
use novbot.Node.Package.{Bytes, InstallError}
use novbot.Node.Package.Opening.{module_hash_from_toml}
use novbot.Node.Skills.{InstallLimits, ActiveSkill}
use novbot.Node.Skills.World.{
  Sealed, World, Outside, stored_file, decoded, files_of, marked, store_verified, verify_dir,
  verify_active,
}
use novbot.Node.Skills.Host.{Inner}
use novbot.Node.Skills.Host.Boot.{boot}
use novbot.Node.Skills.Host.History.{Event, Node, active_of, run}
use novbot.Node.Skills.Host.Intact.{run-intact}
use novbot.Node.Skills.Host.Admitted.{start_run_iff}
use novbot.Node.Skills.Host.Run.{Checks, HubRun, RunRequest, start_run}

-- The module of a directory that `verify_dir` accepts has the digest of its skill.toml.
verify_dir-module :
    (out : Outside) (sha256 : Str) (dir : Option Sealed) (text : Str) (wasm : Bytes)
    → verify_dir out sha256 dir ≡ ok tt
    → decoded out.codecs (find (codes "skill.toml") (files_of dir)) ≡ some text
    → find (codes "module.wasm") (files_of dir) ≡ some wasm
    → module_hash_from_toml out.codecs text ≡ ok (out.codecs.sha256_hex wasm)
unfolding verify_dir
verify_dir-module out sha256 dir text wasm h toml stored =
    elim (Bool-cases (marked out sha256 dir)) [
      | inr bad ↦ absurd (ground arith)
      | inl good ↦ elim (Result-cases (module_hash_from_toml out.codecs text)) [
        | inr (e, refused) ↦ absurd cc
        | inl (expected, named) ↦ elim (Bool-cases (str_eq (out.codecs.sha256_hex wasm) expected)) [
          | inr other ↦ absurd (err-apart (rw (good, toml, named, stored, other) at h))
          | inl same ↦
              named ∙ ap ok (sym ((str_eq_iff (out.codecs.sha256_hex wasm) expected).0 same))
        ]
      ]
    ]
  where
    err-apart : {e : InstallError} → ◌≡◌ {A = Result (Unit {0}) InstallError} (err e) (ok tt) → ⊥
    err-apart e = absurd cc

-- On a node whose store holds, under every digest that a marker claims, a directory that
-- verify_active accepts, and if a marker that is written is read back as its digest, a run that
-- starts after opening and any sequence of desired sets and restarts is one of an active skill,
-- and its module has the digest that the skill.toml of that skill in the store names.
pub start_run-digest :
    (out : Outside)
    (marks : (sha256 name version : Str)
      → out.marker_sha (out.write_marker sha256 name version) ≡ some sha256)
    (limits : InstallLimits) (events : List Event) (w : World) (inner : Inner) (checks : Checks)
    (busy : ℕ) (call : HubRun checks) (request : RunRequest checks)
    → ((sha256 : Str)
        → store_verified out w.disk sha256 ≡ true
        → verify_active out w.disk sha256 ≡ ok tt)
    → (run out limits events (boot out w)).0 ≡ some inner
    → start_run checks out.codecs busy inner (run out limits events (boot out w)).1.disk call
      ≡ ok request
    → (skill : ActiveSkill) × (find call.name inner.skills ≡ some skill)
      × (text : Str) × (decoded out.codecs (
            stored_file
              (run out limits events (boot out w)).1.disk
              skill.sha256
              (codes "skill.toml"))
          ≡ some text)
      × (module_hash_from_toml out.codecs text ≡ ok (out.codecs.sha256_hex request.component_bytes))
unfolding verify_active
start_run-digest out marks limits events w inner checks busy call request trusted opened h =
    let node = run out limits events (boot out w) in
    let started = (start_run_iff checks out.codecs busy inner node.1.disk call request).0 h in
    let skill = started.skill in
    let intact =
      run-intact out marks limits events w call.name skill trusted
        (active_of_some node inner opened call.name ∙ started.active) in
    (
      skill,
      started.active,
      started.text,
      started.toml_stored,
      verify_dir-module out skill.sha256 (find skill.sha256 node.1.disk.store) started.text
            started.wasm intact started.toml_stored started.module_stored
          ∙ ap (λ (r : RunRequest checks). ok (out.codecs.sha256_hex r.component_bytes))
              started.started_with,
    )
  where
    active_of_some :
        (node : Node) (inner : Inner)
        → node.0 ≡ some inner
        → (name : Str) → find name (active_of node) ≡ find name inner.skills
    active_of_some (none, w) inner e name = absurd cc
    active_of_some (some i, w) inner e name =
        let same : i ≡ inner = cc in ap (λ (j : Inner). find name j.skills) same
