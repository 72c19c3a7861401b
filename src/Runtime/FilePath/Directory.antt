-- ===== src/Runtime/FilePath/Directory.antt =====
-- crates/novbot-skill-runtime/src/path.rs: the directory entry that a text names, read from the end
-- of the text, beside `lexical_normalize`.
use mathlib.Core.Path.{subst}
use mathlib.Core.List.{reverse, tail, reverse-cons, reverse-append, reverse-reverse}
use novbot.Common.{
  ◌≡◌, ◌≢◌, ◌↔◌, ◌⊎◌, refl, sym, ap, ◌∙◌, false, List, [], ◌∷◌, ◌++◌, none, some, arith, All,
  All-append, Bool-cases, inl, inr, append_assoc, append-nil,
}
use novbot.Text.{Str, codes, str_eq, starts_with, split, join}
use novbot.Text.Laws.{str_eq_iff, empty_or_eq_iff}
use novbot.Text.Parts.{Lacks, split-Lacks, split-join, join-split, split-ne-nil}
use novbot.Runtime.Glob.{slash}
use novbot.Runtime.FilePath.{PathBuf, normalize_from, lexical_normalize}
use novbot.Runtime.FilePath.Lexical.{
  IsName, skipped, popped, refused, pushed, read, pushed-IsName, IsName→Read,
  lexical_normalize_parts, absolute_cases,
}

-- An empty part and `.` stay, `..` goes up, but not above the root, and a plain name goes down.
pub data Denotes : Str → PathBuf → Type 0 where
  root : Denotes [] []
  stay :
      {raw : Str} {path : PathBuf} (part : Str)
      → (part ≡ []) ⊎ (part ≡ codes ".")
      → Denotes raw path
      → Denotes (raw ++ slash ∷ part) path
  up_root : {raw : Str} → Denotes raw [] → Denotes (raw ++ slash ∷ codes "..") []
  up :
      {raw : Str} {path : PathBuf} (name : Str)
      → Denotes raw (path ++ name ∷ [])
      → Denotes (raw ++ slash ∷ codes "..") path
  down :
      {raw : Str} {path : PathBuf} (name : Str)
      → IsName name
      → Denotes raw path
      → Denotes (raw ++ slash ∷ name) (path ++ name ∷ [])

-- Parts, each behind a slash.
slashed : List Str → Str
slashed [] = []
slashed (p ∷ ps) = slash ∷ p ++ slashed ps

slashed-join : (ps : List Str) → ps ≢ [] → slashed ps ≡ slash ∷ join ps (slash ∷ [])
unfolding slashed join
slashed-join [] ne = absurd (ne refl)
slashed-join (p ∷ []) ne = rw append-nil refl
slashed-join (p ∷ q ∷ ps) ne = ap (λ t. slash ∷ p ++ t) (slashed-join (q ∷ ps) (λ e. cc))

slashed-split : (s : Str) → slashed (split s slash) ≡ slash ∷ s
slashed-split s =
    slashed-join (split s slash) (split-ne-nil s slash) ∙ ap (λ t. slash ∷ t) (join-split s slash)

slashed-snoc : (ps : List Str) (p : Str) → slashed (ps ++ p ∷ []) ≡ slashed ps ++ slash ∷ p
unfolding slashed
slashed-snoc [] p = rw append-nil refl
slashed-snoc (q ∷ ps) p =
    ap (λ t. slash ∷ q ++ t) (slashed-snoc ps p)
    ∙ ap (λ t. slash ∷ t) (sym (append_assoc q (slashed ps) (slash ∷ p)))

goes_up :
    (raw : Str) (stack : List Str)
    → Denotes raw (reverse stack)
    → Denotes (raw ++ slash ∷ codes "..") (reverse (tail stack))
goes_up raw [] d = up_root d
goes_up raw (name ∷ stack) d = up name (subst (Denotes raw) (reverse-cons name stack) d)

normalize_from-Denotes :
    (raw : Str) (stack parts : List Str) (path : PathBuf)
    → Denotes raw (reverse stack)
    → All (Lacks slash) parts
    → normalize_from stack parts ≡ some path
    → Denotes (raw ++ slashed parts) path
unfolding normalize_from slashed
normalize_from-Denotes raw stack [] path d h e =
    let same : reverse stack ≡ path = cc in subst (Denotes (raw ++ [])) same (rw append-nil d)
normalize_from-Denotes raw stack (part ∷ parts) path d (hp, h) e =
    subst (λ t. Denotes t path) (append_assoc raw (slash ∷ part) (slashed parts))
      (elim (read part) [
        | skipped a ↦
            normalize_from-Denotes (raw ++ slash ∷ part) stack parts path
              (stay part ((empty_or_eq_iff part (codes ".")).0 a) d) h (rw a at e)
        | popped a b ↦
            let dots : codes ".." ≡ part = sym ((str_eq_iff part (codes "..")).0 b) in
            normalize_from-Denotes (raw ++ slash ∷ part) (tail stack) parts path
              (subst (λ p. Denotes (raw ++ slash ∷ p) (reverse (tail stack))) dots
                (goes_up raw stack d))
              h (rw (a, b) at e)
        | refused a b c ↦ cc (rw (a, b, c) at e)
        | pushed a b c ↦
            normalize_from-Denotes (raw ++ slash ∷ part) (part ∷ stack) parts path
              (subst (Denotes (raw ++ slash ∷ part)) (sym (reverse-cons part stack))
                (down part (pushed-IsName part a b c hp) d))
              h (rw (a, b, c) at e)
      ])

normalize_from-snoc :
    (stack parts : List Str) (part : Str) (path : PathBuf)
    → normalize_from stack parts ≡ some path
    → normalize_from stack (parts ++ part ∷ []) ≡ normalize_from (reverse path) (part ∷ [])
unfolding normalize_from
normalize_from-snoc stack [] part path e =
    let same : reverse stack ≡ path = cc in
    ap (λ s. normalize_from s (part ∷ [])) (sym (reverse-reverse stack) ∙ ap reverse same)
normalize_from-snoc stack (p ∷ parts) part path e = elim (read p) [
  | skipped a ↦ rw a (normalize_from-snoc stack parts part path (rw a at e))
  | popped a b ↦ rw (a, b) (normalize_from-snoc (tail stack) parts part path (rw (a, b) at e))
  | refused a b c ↦ absurd cc (rw (a, b, c) at e)
  | pushed a b c ↦
      rw (a, b, c) (normalize_from-snoc (p ∷ stack) parts part path (rw (a, b, c) at e))
]

-- Parts that give a text, and that the loop brings to a path.
record Walk (raw : Str) (path : PathBuf) : Type 0 where
  parts : List Str
  spelled : raw ≡ slashed parts
  separate : All (Lacks slash) parts
  reaches : normalize_from [] parts ≡ some path

Walk-snoc :
    {raw : Str} {path next : PathBuf} (part : Str)
    → Lacks slash part
    → normalize_from (reverse path) (part ∷ []) ≡ some next
    → Walk raw path
    → Walk (raw ++ slash ∷ part) next
Walk-snoc {path} part no_slash step w = record {
  parts = w.parts ++ part ∷ [];
  spelled = ap (λ t. t ++ slash ∷ part) w.spelled ∙ sym (slashed-snoc w.parts part);
  separate = All-append (Lacks slash) w.parts (part ∷ []) w.separate (no_slash, tt);
  reaches = normalize_from-snoc [] w.parts part path w.reaches ∙ step;
}

stays :
    (part : Str) (path : PathBuf)
    → (part ≡ []) ⊎ (part ≡ codes ".")
    → Lacks slash part × (normalize_from (reverse path) (part ∷ []) ≡ some path)
unfolding normalize_from str_eq
stays part path (inl e) = rw e (tt, ap some (reverse-reverse path))
stays part path (inr e) = rw e ((λ k. omega arith, tt), ap some (reverse-reverse path))

reverse-snoc : (path : PathBuf) (name : Str) → reverse (path ++ name ∷ []) ≡ name ∷ reverse path
reverse-snoc path name = reverse-append path (name ∷ [])

goes_down :
    (path : PathBuf) (name : Str)
    → IsName name
    → normalize_from (reverse path) (name ∷ []) ≡ some (path ++ name ∷ [])
unfolding normalize_from
goes_down path name n =
    let (a, b, c) = IsName→Read name n in
    rw (a, b, c)
      (ap some (sym (ap reverse (reverse-snoc path name)) ∙ reverse-reverse (path ++ name ∷ [])))

dots_separate : Lacks slash (codes "..")
dots_separate = (λ k. omega arith, (λ k. omega arith, tt))

Denotes-Walk : (raw : Str) (path : PathBuf) → Denotes raw path → Walk raw path
unfolding normalize_from str_eq slashed
Denotes-Walk _ _ root = record { parts = []; spelled = refl; separate = tt; reaches = refl }
Denotes-Walk _ path (stay part same d) =
    let (no_slash, step) = stays part path same in
    Walk-snoc part no_slash step (Denotes-Walk _ path d)
Denotes-Walk _ _ (up_root d) = Walk-snoc (codes "..") dots_separate refl (Denotes-Walk _ [] d)
Denotes-Walk _ path (up name d) =
    Walk-snoc (codes "..") dots_separate
      (ap (λ s. some (reverse (tail s))) (reverse-snoc path name) ∙ ap some (reverse-reverse path))
      (Denotes-Walk _ (path ++ name ∷ []) d)
Denotes-Walk _ _ (down {path} name n d) =
    Walk-snoc name (IsName.no_slash n) (goes_down path name n) (Denotes-Walk _ path d)

normalised-Denotes :
    (raw : Str) (path : PathBuf) → lexical_normalize raw ≡ some path → (raw ≢ []) × Denotes raw path
normalised-Denotes raw path e = elim (Bool-cases (starts_with raw (codes "/"))) [
  | inr b ↦ absurd (refused_start b)
  | inl a ↦
      let (s, k) = absolute_cases raw a in
      (
        λ none_left. cc,
        subst (λ t. Denotes t path) (slashed-split s ∙ sym k)
            (normalize_from-Denotes [] [] (split s slash) path root (split-Lacks s slash)
              (sym (ap lexical_normalize k ∙ lexical_normalize_parts s) ∙ e)),
      )
]
  where
    refused_start : starts_with raw (codes "/") ≡ false → ⊥
    refused_start b =
        let none_left : lexical_normalize raw ≡ none = unfold lexical_normalize in rw b in cc

Walk-normalised :
    (raw : Str) (path : PathBuf) → raw ≢ [] → Walk raw path → lexical_normalize raw ≡ some path
Walk-normalised raw path ne w = normalised w.parts w.spelled w.separate w.reaches
  where
    normalised :
        (parts : List Str)
        → raw ≡ slashed parts
        → All (Lacks slash) parts
        → normalize_from [] parts ≡ some path
        → lexical_normalize raw ≡ some path
    normalised [] e h k = absurd (ne (e ∙ (unfold slashed in refl)))
    normalised (p ∷ ps) e h k =
        ap lexical_normalize (e ∙ slashed-join (p ∷ ps) (cc))
        ∙ lexical_normalize_parts (join (p ∷ ps) (slash ∷ []))
        ∙ ap (normalize_from []) (split-join (p ∷ ps) slash (cc) h)
        ∙ k

-- lexical_normalize gives a path exactly if the text is not empty and, read from its end, names
-- that path from the root: a part behind a slash stays if it is empty or a dot, goes up if it is
-- two dots, but not above the root, and goes down if it is a plain name without the refused
-- bytes.
pub lexical_normalize_iff :
    (raw : Str) (path : PathBuf)
    → (lexical_normalize raw ≡ some path) ↔ ((raw ≢ []) × Denotes raw path)
lexical_normalize_iff raw path =
    (normalised-Denotes raw path, λ (ne, d). Walk-normalised raw path ne (Denotes-Walk raw path d))
