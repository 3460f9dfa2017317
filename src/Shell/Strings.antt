-- ===== src/Shell/Strings.antt =====
-- `nulterminate` and `parsecmd` of user/sh.c: every word of the command becomes a C string.
use cs202lab.Prelude.{
  ℕ, ◌+◌, ◌≤◌, ◌<◌, ◌≡◌, ◌≢◌, refl, sym, ◌∙◌, inl, inr, ◌⊎◌, true, false, arith, ◌==◌, Bool-cases,
  List, [], ◌∷◌, All, update, ne→==,
}
use cs202lab.KernelString.{Mem}
use cs202lab.Ulib.Lengths.{strlen-ends}
use cs202lab.Shell.{parseline, parse_text, parsecmd}
use cs202lab.Shell.Commands.{Word, Cmd, cut, nulterminate}
use cs202lab.Shell.Tokens.{is_ordinary, peek, rounds}
use cs202lab.Shell.Words.{IsWord, Fine, In}
use cs202lab.Shell.Outcome.{Outcome, Outcome-bind}
use cs202lab.Shell.Scanning.{peek-within}
use cs202lab.Shell.Arguments.{IsFine}
use cs202lab.Shell.Parsing.{parseline-Outcome}

-- Two predicates on every word give a third.
All-both :
    (P Q R : Word → Type 0) (ws : List Word)
    → ((w : Word) → P w → Q w → R w)
    → All P ws
    → All Q ws
    → All R ws
All-both P Q R [] f p q = tt
All-both P Q R (w ∷ ws) f p q = (f w p.0 q.0, All-both P Q R ws f p.1 q.1)

module _ (P Q R : Word → Type 0) (f : (w : Word) → P w → Q w → R w) where
  Fine-both : (cmd : Cmd) → Fine P cmd → Fine Q cmd → Fine R cmd
  Fine-both (Cmd.exec argv) p q = (All-both P Q R argv f p.0 q.0, p.1)
  Fine-both (Cmd.redir cmd file mode fd) p q = (Fine-both cmd p.0 q.0, f file p.1 q.1)
  Fine-both (Cmd.pipe left right) p q = (Fine-both left p.0 q.0, Fine-both right p.1 q.1)
  Fine-both (Cmd.list left right) p q = (Fine-both left p.0 q.0, Fine-both right p.1 q.1)
  Fine-both (Cmd.back cmd) p q = Fine-both cmd p q

Fine-later :
    (P Q : Word → Type 0) → ((w : Word) → P w → Q w) → (cmd : Cmd) → Fine P cmd → Fine Q cmd
Fine-later P Q f cmd p = Fine-both P P Q (λ w a b. f w a) cmd p p

-- A byte that no word ends at stays.
module _ (P : Word → Type 0) (i : ℕ) (apart : (w : Word) → P w → i ≢ w.eq) where
  cut-keeps : (ws : List Word) (mem : Mem) → All P ws → cut ws mem i ≡ mem i
  unfolding cut
  cut-keeps [] mem p = refl
  cut-keeps (w ∷ ws) mem p =
      cut-keeps ws (update mem w.eq 0) p.1 ∙ (rw (ne→== i w.eq (apart w p.0)) refl)

  nulterminate-keeps : (cmd : Cmd) (mem : Mem) → Fine P cmd → nulterminate cmd mem i ≡ mem i
  unfolding nulterminate
  nulterminate-keeps (Cmd.exec argv) mem p = cut-keeps argv mem p.0
  nulterminate-keeps (Cmd.redir cmd file mode fd) mem p =
      rw (ne→== i file.eq (apart file p.1)) (nulterminate-keeps cmd mem p.0)
  nulterminate-keeps (Cmd.pipe left right) mem p =
      nulterminate-keeps right (nulterminate left mem) p.1 ∙ nulterminate-keeps left mem p.0
  nulterminate-keeps (Cmd.list left right) mem p =
      nulterminate-keeps right (nulterminate left mem) p.1 ∙ nulterminate-keeps left mem p.0
  nulterminate-keeps (Cmd.back cmd) mem p = nulterminate-keeps cmd mem p

true-false : true ≢ false
true-false e = absurd (cc)

update_self : (mem : Mem) (at : ℕ) → update mem at 0 at ≡ 0
update_self mem at = ground arith

-- A NUL stays.
update-nul : (mem : Mem) (at i : ℕ) → mem i ≡ 0 → update mem at 0 i ≡ 0
update-nul mem at i e = elim (Bool-cases (i == at)) [ inl h ↦ rw (h) refl | inr h ↦ rw (h) e ]

cut-nul : (ws : List Word) (mem : Mem) (i : ℕ) → mem i ≡ 0 → cut ws mem i ≡ 0
unfolding cut
cut-nul [] mem i e = e
cut-nul (w ∷ ws) mem i e = cut-nul ws (update mem w.eq 0) i (update-nul mem w.eq i e)

nulterminate-nul : (cmd : Cmd) (mem : Mem) (i : ℕ) → mem i ≡ 0 → nulterminate cmd mem i ≡ 0
unfolding nulterminate
nulterminate-nul (Cmd.exec argv) mem i e = cut-nul argv mem i e
nulterminate-nul (Cmd.redir cmd file mode fd) mem i e =
    update-nul (nulterminate cmd mem) file.eq i (nulterminate-nul cmd mem i e)
nulterminate-nul (Cmd.pipe left right) mem i e =
    nulterminate-nul right (nulterminate left mem) i (nulterminate-nul left mem i e)
nulterminate-nul (Cmd.list left right) mem i e =
    nulterminate-nul right (nulterminate left mem) i (nulterminate-nul left mem i e)
nulterminate-nul (Cmd.back cmd) mem i e = nulterminate-nul cmd mem i e

-- A NUL stands behind every word.
abbrev Ended : Mem → Word → Type 0
Ended mem w = mem w.eq ≡ 0

later :
    (mem mem' : Mem)
    → ((i : ℕ) → mem i ≡ 0 → mem' i ≡ 0)
    → (cmd : Cmd) → Fine (Ended mem) cmd
    → Fine (Ended mem') cmd
later mem mem' f cmd p = Fine-later (Ended mem) (Ended mem') (λ w e. f w.eq e) cmd p

cut-Ended : (ws : List Word) (mem : Mem) → All (Ended (cut ws mem)) ws
unfolding cut
cut-Ended [] mem = tt
cut-Ended (w ∷ ws) mem =
    (cut-nul ws (update mem w.eq 0) w.eq (update_self mem w.eq), cut-Ended ws (update mem w.eq 0))

nulterminate-Ended :
    (P : Word → Type 0) (cmd : Cmd) (mem : Mem)
    → Fine P cmd
    → Fine (Ended (nulterminate cmd mem)) cmd
unfolding nulterminate
nulterminate-Ended P (Cmd.exec argv) mem p = (cut-Ended argv mem, p.1)
nulterminate-Ended P (Cmd.redir cmd file mode fd) mem p =
    let m = nulterminate cmd mem in
    (
      later m (update m file.eq 0) (λ i e. update-nul m file.eq i e) cmd
          (nulterminate-Ended P cmd mem p.0),
      update_self m file.eq,
    )
nulterminate-Ended P (Cmd.pipe left right) mem p =
    let m = nulterminate left mem in
    (
      later m (nulterminate right m) (nulterminate-nul right m) left
          (nulterminate-Ended P left mem p.0),
      nulterminate-Ended P right m p.1,
    )
nulterminate-Ended P (Cmd.list left right) mem p =
    let m = nulterminate left mem in
    (
      later m (nulterminate right m) (nulterminate-nul right m) left
          (nulterminate-Ended P left mem p.0),
      nulterminate-Ended P right m p.1,
    )
nulterminate-Ended P (Cmd.back cmd) mem p = nulterminate-Ended P cmd mem p

-- In memory the word is a C string, with the bytes that it has in the line.
pub record IsString (text mem : Mem) (w : Word) : Type 0 where
  pub nonempty : w.q < w.eq
  pub same : (i : ℕ) → w.q ≤ i → i < w.eq → (mem i ≡ text i) × (mem i ≢ 0)
  pub ended : mem w.eq ≡ 0

-- What `parsecmd` gives for a line from start to end: strings, and no write behind the line.
pub record Parsed (text : Mem) (start es : ℕ) (r : Cmd × Mem) : Type 0 where
  pub strings : Fine (IsString text r.1) r.0
  pub behind : (i : ℕ) → (i < start) ⊎ (es < i) → r.1 i ≡ text i

module _ (text : Mem) (start es : ℕ) (nonzero : (i : ℕ) → start ≤ i → i < es → text i ≢ 0)
    (ended : text es ≡ 0) where
  apart :
      (i : ℕ)
      → i < es
      → is_ordinary (text i) ≡ true
      → (w : Word) → IsWord text start es w
      → i ≢ w.eq
  apart i h o w word e = elim word.ends [
    | inl end ↦ omega arith
    | inr delimiter ↦
        let o' : is_ordinary (text w.eq) ≡ true = rw (sym e) o in
        absurd (true-false (sym o' ∙ delimiter))
  ]

  word-IsString :
      (cmd : Cmd) (w : Word)
      → IsFine text start es ended cmd
      → IsWord text start es w
      → nulterminate cmd text w.eq ≡ 0
      → IsString text (nulterminate cmd text) w
  word-IsString cmd w fine word nul = record {
    nonempty = word.nonempty;
    same = λ i lo hi.
        let inside = word.inside in
        let kept =
          nulterminate-keeps (IsWord text start es) i
            (apart i (omega arith) (word.ordinary i lo hi)) cmd text fine in
        (kept, λ e. nonzero i (omega (arith, word.from)) (omega arith) (sym kept ∙ e));
    ended = nul;
  }

  nulterminate-Parsed :
      (cmd : Cmd)
      → IsFine text start es ended cmd
      → Parsed text start es (cmd, nulterminate cmd text)
  nulterminate-Parsed cmd fine = record {
    strings =
        Fine-both (IsWord text start es) (Ended (nulterminate cmd text))
          (IsString text (nulterminate cmd text)) (λ w word nul. word-IsString cmd w fine word nul)
          cmd fine (nulterminate-Ended (IsWord text start es) cmd text fine);
    behind = λ i out.
        nulterminate-keeps (IsWord text start es) i
          (λ w word e. omega (arith, out, word.from, word.nonempty, word.inside)) cmd text fine;
  }

  parse_text-Parsed :
      (s : ℕ) → In start es s → Outcome es s (Parsed text start es) (parse_text text es s)
  unfolding parse_text
  parse_text-Parsed s h =
      Outcome-bind es s (IsFine text start es ended) (Parsed text start es)
        (parseline text es (rounds text es s) s) _
        (parseline-Outcome text start es ended (rounds text es s) s h (omega arith))
        (λ cmd ps fine low high.
          let (lo, hi) = peek-within text start es ended ps [] (omega arith, high) in
          elim (Bool-cases ((peek text es ps []).0 == es)) [
            | inl end ↦ rw (end) (nulterminate-Parsed cmd fine, lo, hi)
            | inr more ↦ rw (more) tt
          ])

-- For a string of n bytes at s, and enough fuel for `strlen`, `parsecmd` ends: it panics, or the words
-- of its command have become C strings that keep their bytes, each `argv` has room for its null
-- pointer, and memory outside the string and its NUL is as it was.
pub parsecmd-Parsed :
    (fuel : ℕ) (text : Mem) (s n : ℕ)
    → ((i : ℕ) → s ≤ i → i < s + n → text i ≢ 0)
    → text (s + n) ≡ 0
    → n < fuel
    → Outcome (s + n) s (Parsed text s (s + n)) (parsecmd fuel text s)
unfolding parsecmd
parsecmd-Parsed fuel text s n nonzero ended f =
    rw (parsecmd, strlen-ends n fuel s text nonzero ended f)
      (parse_text-Parsed text s (s + n) nonzero ended s (omega arith, omega arith))
