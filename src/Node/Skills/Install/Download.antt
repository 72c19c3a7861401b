-- ===== src/Node/Skills/Install/Download.antt =====
-- crates/novbot-node/src/skills/mod.rs: the download of a package, and the part that it resumes.
use mathlib.Core.Path.{◌≡◌, refl, sym, ap, subst}
use novbot.Common.{
  ℕ, zero, suc, ◌∙◌, ◌≤◌, not, ◌&&◌, List, [], ◌∷◌, ◌++◌, ltb, ◌==◌, if◌then◌else◌, Result, ok, err,
  length, take, drop, if-elim, arith, ok-injective, ok-injective,
}
use novbot.Text.{Str, str_eq}
use novbot.Text.Laws.{str_eq_iff}
use novbot.Node.Package.{Bytes, InstallError}
use novbot.Node.Skills.{DesiredSkill}
use novbot.Node.Skills.World.{World, Fetched, Outside}
use novbot.Node.Skills.Install.{
  called, part_of, remove_part, finish_download, take_fetched, download, fetch_package,
}

module _ (out : Outside) (skill : DesiredSkill) where
  -- What holds of every way a download ends: the store as before, and bytes with the digest.
  abbrev pub Delivers : World → Result Bytes InstallError × World → Type 0
  Delivers w (ok bytes, w') =
      (out.codecs.sha256_hex bytes ≡ skill.sha256) × (w'.disk.store ≡ w.disk.store)
  Delivers w (err e, w') = w'.disk.store ≡ w.disk.store

  abbrev expected_size : ℕ → ℕ
  expected_size total = if ltb 0 skill.size_bytes then skill.size_bytes else total

  finish_download-Delivers :
      (bytes : Bytes) (total : ℕ) (w : World) → Delivers w (finish_download out skill bytes total w)
  unfolding finish_download
  finish_download-Delivers bytes total w =
      if-elim (Delivers w) (ltb 0 (expected_size total) && ltb (length bytes) (expected_size total))
        (λ short. refl)
        (λ whole.
          if-elim (Delivers w) (not (str_eq (out.codecs.sha256_hex bytes) skill.sha256))
            (λ wrong. refl)
            (λ right.
              ((str_eq_iff (out.codecs.sha256_hex bytes) skill.sha256).0 (ground arith), refl)))

  take_fetched-Delivers :
      (part : Bytes) (r : Result Fetched Str) (w : World)
      → Delivers w (take_fetched out skill part r w)
  take_fetched-Delivers part (err detail) w = refl
  take_fetched-Delivers part (ok fetched) w =
      finish_download-Delivers (part ++ fetched.payload) fetched.total_size w

  download-Delivers : (w : World) → Delivers w (download out skill w)
  unfolding download
  download-Delivers w =
      take_fetched-Delivers (part_of skill.sha256 w)
        (out.fetch w.calls skill.sha256 skill.fetch_ticket (length (part_of skill.sha256 w)))
        (called w)

  pub fetch_package-Delivers : (w : World) → Delivers w (fetch_package out skill w)
  unfolding fetch_package
  fetch_package-Delivers w =
      let part = part_of skill.sha256 w in
      let restarted = download-Delivers (remove_part skill.sha256 w) in
      if-elim (Delivers w) (ltb 0 skill.size_bytes && length part == skill.size_bytes)
        (λ full.
          if-elim (Delivers w) (str_eq (out.codecs.sha256_hex part) skill.sha256)
            (λ right. ((str_eq_iff (out.codecs.sha256_hex part) skill.sha256).0 right, refl))
            (λ wrong. restarted))
        (λ other.
          if-elim (Delivers w) (ltb 0 skill.size_bytes && ltb skill.size_bytes (length part))
            (λ longer. restarted) (λ shorter. download-Delivers w))

-- The bytes that fetch_package returns, resumed or not, have the digest of the desired skill.
pub fetch_package-digest :
    (out : Outside) (skill : DesiredSkill) (w : World) (bytes : Bytes)
    → (fetch_package out skill w).0 ≡ ok bytes
    → out.codecs.sha256_hex bytes ≡ skill.sha256
fetch_package-digest out skill w bytes e =
    delivered (fetch_package out skill w) e (fetch_package-Delivers out skill w)
  where
    delivered :
        (r : Result Bytes InstallError × World)
        → r.0 ≡ ok bytes
        → Delivers out skill w r
        → out.codecs.sha256_hex bytes ≡ skill.sha256
    delivered (ok b, w') e d =
        let same : b ≡ bytes = ok-injective e in
        subst (λ x. out.codecs.sha256_hex x ≡ skill.sha256) same d.0
    delivered (err x, w') e d = absurd cc

-- A prefix, and what is left behind it.
take_rest : {A : Type 0} (n : ℕ) (xs : List A) → take n xs ++ drop (length (take n xs)) xs ≡ xs
take_rest zero xs = refl
take_rest (suc n) [] = refl
take_rest (suc n) (x ∷ xs) = ap (λ ys. x ∷ ys) (take_rest n xs)

length-take-le_all : {A : Type 0} (n : ℕ) (xs : List A) → length (take n xs) ≤ length xs
length-take-le_all zero xs = omega arith
length-take-le_all (suc n) [] = omega arith
length-take-le_all (suc n) (x ∷ xs) = omega (arith, length-take-le_all n xs)

take_of_length :
    {A : Type 0} (n : ℕ) (xs : List A) → length (take n xs) ≡ length xs → take n xs ≡ xs
take_of_length zero [] h = refl
take_of_length zero (x ∷ xs) h = absurd (omega arith)
take_of_length (suc n) [] h = refl
take_of_length (suc n) (x ∷ xs) h = ap (λ ys. x ∷ ys) (take_of_length n xs (omega arith))

module _ (out : Outside) (skill : DesiredSkill) (content : Bytes) where
  -- The source's answer for a part: the rest of the content.
  abbrev Answers : World → Bytes → Type 0
  Answers w part =
      out.fetch w.calls skill.sha256 skill.fetch_ticket (length part)
      ≡ ok (record { total_size = length content; payload = drop (length part) content })

  -- A download that ends with the content.
  abbrev Completes : Result Bytes InstallError × World → Type 0
  Completes r = r.0 ≡ ok content

  finish_download-Completes :
      (w : World)
      → skill.size_bytes ≡ length content
      → out.codecs.sha256_hex content ≡ skill.sha256
      → Completes (finish_download out skill content (length content) w)
  unfolding finish_download
  finish_download-Completes w sized digest =
      let expected = if ltb 0 skill.size_bytes then skill.size_bytes else length content in
      let known : expected ≡ length content = ground arith in
      if-elim Completes (ltb 0 expected && ltb (length content) expected)
        (λ short. absurd (ground arith))
        (λ whole.
          if-elim Completes (not (str_eq (out.codecs.sha256_hex content) skill.sha256))
            (λ wrong.
              absurd (
                ground (arith, (str_eq_iff (out.codecs.sha256_hex content) skill.sha256).1 digest)))
            (λ right. refl))

  download-Completes :
      (w : World) (n : ℕ)
      → part_of skill.sha256 w ≡ take n content
      → skill.size_bytes ≡ length content
      → out.codecs.sha256_hex content ≡ skill.sha256
      → Answers w (part_of skill.sha256 w)
      → Completes (download out skill w)
  unfolding download
  download-Completes w n partly sized digest served =
      let part = part_of skill.sha256 w in
      let joined : part ++ drop (length part) content ≡ content =
        subst (λ p. p ++ drop (length p) content ≡ content) (sym partly) (take_rest n content) in
      subst (λ r. Completes (take_fetched out skill part r (called w))) (sym served)
        (subst (λ bytes. Completes (finish_download out skill bytes (length content) (called w)))
          (sym joined) (finish_download-Completes (called w) sized digest))

-- If the part on the disk is a prefix of the content of the desired size and digest, and the
-- source answers with the rest behind the part, fetch_package returns the whole content.
pub fetch_package-resumes :
    (out : Outside) (skill : DesiredSkill) (w : World) (content : Bytes) (n : ℕ)
    → part_of skill.sha256 w ≡ take n content
    → skill.size_bytes ≡ length content
    → out.codecs.sha256_hex content ≡ skill.sha256
    → out.fetch w.calls skill.sha256 skill.fetch_ticket (length (part_of skill.sha256 w))
      ≡ ok (record {
        total_size = length content;
        payload = drop (length (part_of skill.sha256 w)) content;
      })
    → (fetch_package out skill w).0 ≡ ok content
unfolding fetch_package
fetch_package-resumes out skill w content n partly sized digest served =
    let part = part_of skill.sha256 w in
    let bounded : length part ≤ length content =
      subst (λ p. length p ≤ length content) (sym partly) (length-take-le_all n content) in
    if-elim (Completes out skill content)
      (ltb 0 skill.size_bytes && length part == skill.size_bytes)
      (λ full.
        let all : part ≡ content =
          partly ∙ take_of_length n content (ap length (sym partly) ∙ ground arith) in
        if-elim (Completes out skill content) (str_eq (out.codecs.sha256_hex part) skill.sha256)
          (λ right. ap ok all)
          (λ wrong. absurd (
            ground (
              arith,
              (str_eq_iff (out.codecs.sha256_hex part) skill.sha256).1
                  (ap out.codecs.sha256_hex all ∙ digest),
            ))))
      (λ other.
        if-elim (Completes out skill content)
          (ltb 0 skill.size_bytes && ltb skill.size_bytes (length part))
          (λ longer. absurd (ground arith))
          (λ shorter. download-Completes out skill content w n partly sized digest served))
