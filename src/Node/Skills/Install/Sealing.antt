-- ===== src/Node/Skills/Install/Sealing.antt =====
-- crates/novbot-node/src/skills/mod.rs: how the calls of `try_install` change the store.
use novbot.Common.{
  ◌≡◌, refl, ap, ◌∙◌, true, false, not, Option, none, some, Result, ok, err, if-elim, any,
  Bool-cases, inl, inr, arith,
}
use novbot.Text.{Str, str_eq}
use novbot.Text.Laws.{str_eq_iff, str_eq_refl}
use novbot.Text.Maps.{find, put, find-put, find-put_other}
use novbot.Node.Package.{Bytes, Package, InstallError}
use novbot.Node.Package.Opening.{open_package}
use novbot.Node.Skills.{DesiredSkill}
use novbot.Node.Skills.World.{
  Sealed, SealIo, sealed, staging_failed, rename_failed, chmod_failed, World, Outside, marked,
  store_verified,
}
use novbot.Node.Skills.Install.{
  lift, refuse_if, called, fetch_package, keep_compiled, ensure_cache, end_seal, seal_store,
}
use novbot.Node.Skills.Install.Download.{Delivers, fetch_package-Delivers}
use novbot.Node.Skills.Install.Attempt.{obtain, seal_new}
use novbot.Node.Skills.Install.Kept.{
  Passes, and_then-Passes, Verified, Keeps, same_store, remove_store-Keeps,
}

module _ (out : Outside)
    (marks : (sha256 name version : Str)
      → out.marker_sha (out.write_marker sha256 name version) ≡ some sha256)
    (skill : DesiredSkill) where
  -- The ends of a call that starts in `w`: what was verified stays so, and after a success the
  -- desired digest is verified as well.
  abbrev pub Stores : {A : Type 0} → World → Result A InstallError × World → Type 0
  Stores w (ok a, w') = Keeps out w w' × Verified out w' skill.sha256
  Stores w (err e, w') = Keeps out w w'

  end_seal-Stores :
      (pkg : Package) (io : SealIo) (w : World)
      → store_verified out w.disk skill.sha256 ≡ false
      → Stores w (end_seal out skill pkg io w)
  unfolding store_verified
  end_seal-Stores pkg (staging_failed detail) w bad = λ sha256 v. v
  end_seal-Stores pkg (rename_failed detail) w bad = remove_store-Keeps out w skill.sha256 bad
  end_seal-Stores pkg (chmod_failed detail) w bad = remove_store-Keeps out w skill.sha256 bad
  end_seal-Stores pkg sealed w bad =
      let dir : Sealed = record {
        files = pkg.files;
        envelope = skill.signature_envelope;
        marker = some (out.write_marker skill.sha256 skill.name skill.version);
      } in
      let done : marked out skill.sha256 (find skill.sha256 (put skill.sha256 dir w.disk.store))
          ≡ true =
        ap (marked out skill.sha256) (find-put skill.sha256 dir w.disk.store)
        ∙ ground (arith, marks skill.sha256 skill.name skill.version, str_eq_refl skill.sha256) in
      (
        λ sha256 v. elim (Bool-cases (str_eq skill.sha256 sha256)) [
          | inl same ↦
              let key : skill.sha256 ≡ sha256 = (str_eq_iff skill.sha256 sha256).0 same in absurd cc
          | inr other ↦
              ap (marked out sha256) (find-put_other skill.sha256 dir sha256 w.disk.store other) ∙ v
        ],
        done,
      )

  -- The package is at hand, or the store has it.
  abbrev pub Ready : Option Package → World → Type 0
  Ready none w = Verified out w skill.sha256
  Ready (some pkg) w = store_verified out w.disk skill.sha256 ≡ false

  pub seal_new-Stores :
      (pkg : Option Package) (w : World) → Ready pkg w → Stores w (seal_new out skill pkg w)
  unfolding seal_store
  seal_new-Stores none w ready = (λ sha256 v. v, ready)
  seal_new-Stores (some pkg) w ready = end_seal-Stores pkg (out.seal_io w.calls) (called w) ready

  abbrev pub SameStore : World → World → Type 0
  SameStore w w' = w'.disk.store ≡ w.disk.store

  pub Ready-SameStore :
      (pkg : Option Package) (w w' : World) → SameStore w w' → Ready pkg w → Ready pkg w'
  Ready-SameStore none w w' e ready = same_store out w w' skill.sha256 e ∙ ready
  Ready-SameStore (some pkg) w w' e ready = same_store out w w' skill.sha256 e ∙ ready

  keep_compiled-SameStore :
      (sha256 : Str) (r : Result Bytes Str) (w : World) → SameStore w (keep_compiled sha256 r w).1
  keep_compiled-SameStore sha256 (ok cwasm) w = refl
  keep_compiled-SameStore sha256 (err e) w = refl

  pub ensure_cache-SameStore :
      (sha256 : Str) (wasm : Bytes) (w : World) → SameStore w (ensure_cache out sha256 wasm w).1
  unfolding ensure_cache
  ensure_cache-SameStore sha256 wasm w =
      if-elim (λ (r : Result (Unit {0}) InstallError × World). SameStore w r.1) _
        (λ empty. keep_compiled-SameStore sha256 (out.compile_cwasm wasm) w) (λ cached. refl)

  -- A part that leaves the store alone, in a chain that may end with its error.
  pub unchanged :
      {A B : Type 0} (w : World) (R : Result B InstallError × World → Type 0)
      (r : Result A InstallError × World)
      → ((e : InstallError) (w' : World) → SameStore w w' → R (err e, w'))
      → SameStore w r.1
      → Passes (λ a w'. SameStore w w') R r
  unchanged w R (ok a, w') ends same = same
  unchanged w R (err e, w') ends same = ends e w' same

  fetch_package-SameStore : (w : World) → SameStore w (fetch_package out skill w).1
  fetch_package-SameStore w =
      of_delivers (fetch_package out skill w) (fetch_package-Delivers out skill w)
    where
      of_delivers :
          (r : Result Bytes InstallError × World) → Delivers out skill w r → SameStore w r.1
      of_delivers (ok bytes, w') d = d.1
      of_delivers (err e, w') d = d

  abbrev pub Obtains : World → Result (Option Package) InstallError × World → Type 0
  Obtains w (ok pkg, w') = SameStore w w' × Ready pkg w'
  Obtains w (err e, w') = SameStore w w'

  pub obtain-Obtains : (w : World) → Obtains w (obtain out skill w)
  unfolding obtain
  obtain-Obtains w =
      if-elim (Obtains w) (store_verified out w.disk skill.sha256) (λ verified. (refl, verified))
        (λ unverified.
          and_then-Passes (λ bytes w'. SameStore w w') (Obtains w) (fetch_package out skill w) _
            (unchanged w (Obtains w) (fetch_package out skill w) (λ e w' same. same)
              (fetch_package-SameStore w))
            (λ bytes w' same.
              and_then-Passes (λ pkg w''. SameStore w w'') (Obtains w)
                (lift (open_package out.codecs bytes skill.name skill.version) w') _
                (unchanged w (Obtains w)
                  (lift (open_package out.codecs bytes skill.name skill.version) w')
                  (λ e w'' kept. kept) same)
                (λ pkg w'' kept.
                  and_then-Passes (λ done w3. SameStore w w3) (Obtains w)
                    (refuse_if (not (any (λ item. str_eq item out.platform) pkg.manifest.platforms))
                      _ w'')
                    _
                    (unchanged w (Obtains w)
                      (refuse_if
                        (not (any (λ item. str_eq item out.platform) pkg.manifest.platforms)) _ w'')
                      (λ e w3 kept3. kept3) kept)
                    (λ done w3 kept3.
                      (kept3, same_store out w w3 skill.sha256 kept3 ∙ unverified)))))
