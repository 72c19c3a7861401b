-- ===== src/Node/Skills/Install/Honest.antt =====
-- crates/novbot-node/src/skills/mod.rs: stores whose markers tell the truth.
use mathlib.Core.Path.{subst}
use novbot.Common.{◌≡◌, refl, sym, true, List, Option, some, ok, Bool-cases, inl, inr}
use novbot.Text.{Str, str_eq}
use novbot.Text.Laws.{str_eq_iff}
use novbot.Text.Maps.{find, put, find-put, find-put_other}
use novbot.Node.Package.{Bytes, Package}
use novbot.Node.Package.Runnable.{IsRunnable}
use novbot.Node.Skills.World.{Sealed, World, Outside, forget, marked, remove_store, verify_dir}
use novbot.Node.Skills.Install.Kept.{find-forget, find-forget_other}

module _ (out : Outside) where
  -- A directory under a digest is intact when its marker claims the digest.
  abbrev pub IsHonest : Str → Option Sealed → Type 0
  IsHonest sha256 dir = marked out sha256 dir ≡ true → verify_dir out sha256 dir ≡ ok tt

  -- A store of honest directories.
  abbrev pub IsTrusted : World → Type 0
  IsTrusted w = (sha256 : Str) → IsHonest sha256 (find sha256 w.disk.store)

  pub forget-IsHonest :
      (k i : Str) (store : List (Str × Sealed))
      → IsHonest i (find i store)
      → IsHonest i (find i (forget k store))
  forget-IsHonest k i store honest = elim (Bool-cases (str_eq k i)) [
    | inl same ↦
        let key : k ≡ i = (str_eq_iff k i).0 same in
        subst (λ (j : Str). IsHonest j (find j (forget k store))) key
          (subst (IsHonest k) (sym (find-forget k store)) (λ claimed. absurd cc))
    | inr other ↦ subst (IsHonest i) (sym (find-forget_other k i store other)) honest
  ]

  pub put-IsHonest :
      (k : Str) (dir : Sealed) (i : Str) (store : List (Str × Sealed))
      → IsHonest k (some dir)
      → IsHonest i (find i store)
      → IsHonest i (find i (put k dir store))
  put-IsHonest k dir i store new honest = elim (Bool-cases (str_eq k i)) [
    | inl same ↦
        let key : k ≡ i = (str_eq_iff k i).0 same in
        subst (λ (j : Str). IsHonest j (find j (put k dir store))) key
          (subst (IsHonest k) (sym (find-put k dir store)) new)
    | inr other ↦ subst (IsHonest i) (sym (find-put_other k dir i store other)) honest
  ]

  -- The directory that a package is sealed in.
  pub sealed-IsHonest :
      (pkg : Package) (sha256 : Str) (envelope : Bytes) (marker : Option Bytes)
      → IsRunnable out.codecs pkg
      → IsHonest sha256 (some (record { files = pkg.files; envelope = envelope; marker = marker }))
  unfolding verify_dir
  sealed-IsHonest pkg sha256 envelope marker r claimed =
      let digest : str_eq (out.codecs.sha256_hex r.wasm) r.hash ≡ true =
        (str_eq_iff (out.codecs.sha256_hex r.wasm) r.hash).1 r.matches in
      rw (claimed, r.has_toml, r.readable, r.names_hash, r.has_module, digest) refl

  pub same_store-IsTrusted :
      (w w' : World) → w'.disk.store ≡ w.disk.store → IsTrusted w → IsTrusted w'
  same_store-IsTrusted w w' e trusted sha256 =
      subst (λ (store : List (Str × Sealed)). IsHonest sha256 (find sha256 store)) (sym e)
        (trusted sha256)

  pub remove_store-IsTrusted : (k : Str) (w : World) → IsTrusted w → IsTrusted (remove_store k w)
  unfolding remove_store
  remove_store-IsTrusted k w trusted sha256 = forget-IsHonest k sha256 w.disk.store (trusted sha256)
