-- ===== src/Shell/Parsing.antt =====
-- The parsers of user/sh.c that call each other end, and the command they return is fine.
use cs202lab.Prelude.{
  ℕ, zero, suc, ◌-◌, ◌≤◌, ◌<◌, ◌≡◌, refl, inl, inr, Bool, not, if◌then◌else◌, arith, Bool-cases,
  List, [], ◌∷◌,
}
use cs202lab.KernelString.{Mem}
use cs202lab.Shell.{
  Parse, SyntaxError, parseredirs, parseblock, parseexec, parsepipe, parseback, parseline,
}
use cs202lab.Shell.Commands.{Cmd, execcmd, backcmd}
use cs202lab.Shell.Tokens.{gettoken, peek, rounds}
use cs202lab.Shell.Words.{In, IsWord, Building}
use cs202lab.Shell.Outcome.{Outcome, Outcome-from, Outcome-bind}
use cs202lab.Shell.Scanning.{peek-within, peek-moves}
use cs202lab.Shell.Redirections.{parseredirs-Outcome}
use cs202lab.Shell.Arguments.{IsFine, IsBuilding-redirs, parseargs-Outcome}

module _ (text : Mem) (start es : ℕ) (ended : text es ≡ 0) where
  -- A parser that does what it may at every place with fewer than k bytes to go.
  abbrev Parses : ℕ → (ℕ → Parse Cmd) → Type 0
  Parses k p =
      (s : ℕ) → In start es s → es - s < k → Outcome es s (IsFine text start es ended) (p s)

  IsFine-redirs :
      (cmd : Cmd) (s : ℕ)
      → In start es s
      → IsFine text start es ended cmd
      → Outcome es s (IsFine text start es ended) (parseredirs text es (rounds text es s) cmd s)
  IsFine-redirs cmd s h b =
      parseredirs-Outcome text start es ended (IsFine text start es ended)
        (λ c w mode fd p q. (p, q)) (rounds text es s) cmd s h (omega arith) b

  -- A test of `peek`: behind the token that it has seen, or in front of what it has not.
  peek-branch :
      (s : ℕ) (toks : List ℕ) (seen other : Parse Cmd)
      → In start es s
      → ((s < (gettoken text es (peek text es s toks).0).ps)
          → ((gettoken text es (peek text es s toks).0).ps ≤ es)
          → Outcome es
              (gettoken text es (peek text es s toks).0).ps
              (IsFine text start es ended)
              seen)
      → ((s ≤ (peek text es s toks).0)
          → ((peek text es s toks).0 ≤ es)
          → Outcome es (peek text es s toks).0 (IsFine text start es ended) other)
      → Outcome es s (IsFine text start es ended) (if (peek text es s toks).1 then seen else other)
  peek-branch s toks seen other h yes' no' = elim (Bool-cases (peek text es s toks).1) [
    | inl found ↦
        let (lo, hi) = peek-moves text start es ended s toks h found in
        rw (found) (
          Outcome-from es s (gettoken text es (peek text es s toks).0).ps
            (IsFine text start es ended) seen (omega arith) (yes' lo hi))
    | inr missing ↦
        let (lo, hi) = peek-within text start es ended s toks h in
        rw (missing) (
          Outcome-from es s (peek text es s toks).0 (IsFine text start es ended) other lo
            (no' lo hi))
  ]

  swapped : {A : Type 0} (b : Bool) (x y : A) → (if not b then x else y) ≡ (if b then y else x)
  swapped b x y = elim (Bool-cases b) [ inl e ↦ rw (e) refl | inr e ↦ rw (e) refl ]

  module _ (k : ℕ) (line : ℕ → Parse Cmd) (ok : Parses k line) where
    after_line :
        (cmd : Cmd) (s : ℕ)
        → In start es s
        → IsFine text start es ended cmd
        → Outcome es s (IsFine text start es ended) (
            let after = peek text es s (b')' ∷ []) in
            if not after.1
            then Parse.panics SyntaxError.missing_paren
            else (let s' = (gettoken text es after.0).ps in
                parseredirs text es (rounds text es s') cmd s'))
    after_line cmd s h fine = rw (swapped {A = Parse Cmd} (peek text es s (b')' ∷ [])).1 _ _) (
        peek-branch s (b')' ∷ []) _ (Parse.panics SyntaxError.missing_paren) h
          (λ lo hi. IsFine-redirs cmd _ (omega arith, hi) fine) (λ lo hi. tt))

    parseblock-Outcome :
        (s : ℕ)
        → In start es s
        → es - s ≤ k
        → Outcome es s (IsFine text start es ended) (parseblock text es line s)
    unfolding parseblock
    parseblock-Outcome s h f =
        rw (parseblock, swapped {A = Parse Cmd} (peek text es s (b'(' ∷ [])).1 _ _)
          (peek-branch s (b'(' ∷ []) _ (Parse.panics SyntaxError.no_block) h
            (λ lo hi.
              Outcome-bind es _ (IsFine text start es ended) (IsFine text start es ended) (line _) _
                (ok _ (omega arith, hi) (omega arith))
                (λ cmd ps fine low high. after_line cmd ps (omega arith, high) fine))
            (λ lo hi. tt))

    parseexec-Outcome :
        (s : ℕ)
        → In start es s
        → es - s ≤ k
        → Outcome es s (IsFine text start es ended) (parseexec text es line s)
    unfolding parseexec
    parseexec-Outcome s h f =
        let p = (peek text es s (b'(' ∷ [])).0 in
        let (lo, hi) = peek-within text start es ended s (b'(' ∷ []) h in
        elim (Bool-cases (peek text es s (b'(' ∷ [])).1) [
          | inl found ↦
              rw (parseexec, found)
                (Outcome-from es s p (IsFine text start es ended) _ lo
                  (parseblock-Outcome p (omega arith, hi) (omega arith)))
          | inr missing ↦
              rw (parseexec, missing)
                (Outcome-from es s p (IsFine text start es ended) _ lo (
                  Outcome-bind es p (Building (IsWord text start es) 0) (IsFine text start es ended)
                    _ _
                    (IsBuilding-redirs text start es ended 0 execcmd p (omega arith, hi) (tt, refl))
                    (λ cmd ps built low high.
                      parseargs-Outcome text start es ended (rounds text es ps) 0 cmd ps
                        (omega arith, high) (omega arith) (omega arith) built)))
        ]

    parsepipe-Outcome :
        (j s : ℕ)
        → In start es s
        → es - s < j
        → es - s ≤ k
        → Outcome es s (IsFine text start es ended) (parsepipe text es line j s)
    unfolding parsepipe
    parsepipe-Outcome zero s h e f = absurd (omega arith)
    parsepipe-Outcome (suc j) s h e f =
        Outcome-bind es s (IsFine text start es ended) (IsFine text start es ended)
          (parseexec text es line s) _ (parseexec-Outcome s h f)
          (λ cmd ps fine low high.
            peek-branch ps (b'|' ∷ []) _ (Parse.parsed cmd _) (omega arith, high)
              (λ lo hi.
                Outcome-bind es _ (IsFine text start es ended) (IsFine text start es ended) _ _
                  (parsepipe-Outcome j _ (omega arith, hi) (omega arith) (omega arith))
                  (λ right end fine' low' high'. ((fine, fine'), omega arith, high')))
              (λ lo hi. (fine, omega arith, hi)))

  parseback-Outcome :
      (j : ℕ) (cmd : Cmd) (s : ℕ)
      → In start es s
      → es - s < j
      → IsFine text start es ended cmd
      → Outcome es s (IsFine text start es ended) (parseback text es j cmd s)
  unfolding parseback
  parseback-Outcome zero cmd s h e fine = absurd (omega arith)
  parseback-Outcome (suc j) cmd s h e fine =
      peek-branch s (b'&' ∷ []) _ (Parse.parsed cmd _) h
        (λ lo hi. parseback-Outcome j (backcmd cmd) _ (omega arith, hi) (omega arith) fine)
        (λ lo hi. (fine, omega arith, hi))

  pub parseline-Outcome :
      (k s : ℕ)
      → In start es s
      → es - s < k
      → Outcome es s (IsFine text start es ended) (parseline text es k s)
  unfolding parseline
  parseline-Outcome zero s h f = absurd (omega arith)
  parseline-Outcome (suc k) s h f =
      let P = IsFine text start es ended in
      let ok : Parses k (parseline text es k) = parseline-Outcome k in
      let left =
        Outcome-bind es s P P (parsepipe text es (parseline text es k) (rounds text es s) s) _
          (parsepipe-Outcome k (parseline text es k) ok (rounds text es s) s h (omega arith)
            (omega arith))
          (λ cmd ps fine low high.
            parseback-Outcome (rounds text es ps) cmd ps (omega arith, high) (omega arith) fine) in
      Outcome-bind es s P P _ _ left (λ cmd ps fine low high.
        peek-branch ps (b';' ∷ []) _ (Parse.parsed cmd _) (omega arith, high)
          (λ lo hi.
            Outcome-bind es _ P P _ _ (parseline-Outcome k _ (omega arith, hi) (omega arith))
              (λ right end fine' low' high'. ((fine, fine'), omega arith, high')))
          (λ lo hi. (fine, omega arith, hi)))
