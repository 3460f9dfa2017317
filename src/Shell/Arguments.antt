-- ===== src/Shell/Arguments.antt =====
-- The loop of `parseexec` of user/sh.c ends, and leaves room in `argv`.
use cs202lab.Prelude.{
  ℕ, zero, suc, ◌+◌, ◌-◌, ◌≤◌, ◌<◌, ◌≡◌, inl, inr, arith, leb, ◌==◌, Bool-cases, List, [], ◌∷◌,
  ==→eq, ==→ne, All-append, length-append,
}
use cs202lab.KernelString.{Mem}
use cs202lab.Shell.{parseredirs, parseargs}
use cs202lab.Shell.Commands.{Word, Cmd, add_argument, maxargs}
use cs202lab.Shell.Tokens.{gettoken, peek, rounds}
use cs202lab.Shell.Words.{In, IsWord, Fine, Building}
use cs202lab.Shell.Outcome.{Outcome, Outcome-from, Outcome-bind}
use cs202lab.Shell.Scanning.{gettoken-Gets, peek-within}
use cs202lab.Shell.Redirections.{parseredirs-Outcome}

module _ (Q : Word → Type 0) where
  add_argument-Building :
      (n : ℕ) (cmd : Cmd) (w : Word)
      → Building Q n cmd
      → Q w
      → Building Q (n + 1) (add_argument cmd w)
  unfolding add_argument
  add_argument-Building n (Cmd.exec argv) w b q = (
    (All-append Q argv (w ∷ [])).1 (b.0, (q, tt)),
    omega (arith, length-append argv (w ∷ []), b.1),
  )
  add_argument-Building n (Cmd.redir cmd file mode fd) w b q =
      (add_argument-Building n cmd w b.0 q, b.1)
  add_argument-Building n (Cmd.pipe left right) w b q = absurd b
  add_argument-Building n (Cmd.list left right) w b q = absurd b
  add_argument-Building n (Cmd.back cmd) w b q = absurd b

  pub Building-Fine : (n : ℕ) (cmd : Cmd) → n < maxargs → Building Q n cmd → Fine Q cmd
  Building-Fine n (Cmd.exec argv) h b = (b.0, omega (arith, b.1))
  Building-Fine n (Cmd.redir cmd file mode fd) h b = (Building-Fine n cmd h b.0, b.1)
  Building-Fine n (Cmd.pipe left right) h b = absurd b
  Building-Fine n (Cmd.list left right) h b = absurd b
  Building-Fine n (Cmd.back cmd) h b = absurd b

module _ (text : Mem) (start es : ℕ) (ended : text es ≡ 0) where
  abbrev IsBuilding : ℕ → Cmd → Type 0
  IsBuilding n cmd = Building (IsWord text start es) n cmd

  abbrev pub IsFine : Cmd → Type 0
  IsFine cmd = Fine (IsWord text start es) cmd

  pub IsBuilding-redirs :
      (n : ℕ) (cmd : Cmd) (s : ℕ)
      → In start es s
      → IsBuilding n cmd
      → Outcome es s (IsBuilding n) (parseredirs text es (rounds text es s) cmd s)
  IsBuilding-redirs n cmd s h b =
      parseredirs-Outcome text start es ended (IsBuilding n) (λ c w mode fd p q. (p, q))
        (rounds text es s) cmd s h (omega arith) b

  pub parseargs-Outcome :
      (k argc : ℕ) (cmd : Cmd) (s : ℕ)
      → In start es s
      → es - s < k
      → argc < maxargs
      → IsBuilding argc cmd
      → Outcome es s IsFine (parseargs text es k argc cmd s)
  unfolding parseargs
  parseargs-Outcome zero argc cmd s h f r b = absurd (omega arith)
  parseargs-Outcome (suc k) argc cmd s h f r b =
      let stops : List ℕ = b'|' ∷ b')' ∷ b'&' ∷ b';' ∷ [] in
      let p = (peek text es s stops).0 in
      let (lo, hi) = peek-within text start es ended s stops h in
      let t = gettoken text es p in
      let g = gettoken-Gets text start es ended p (omega arith, hi) in
      let fine = Building-Fine (IsWord text start es) argc cmd r b in
      elim (Bool-cases (peek text es s stops).1) [
        | inl stop ↦ rw (parseargs, stop) (fine, lo, hi)
        | inr go ↦ elim (Bool-cases ((gettoken text es p).ret == 0)) [
          | inl end ↦ rw (parseargs, go, end) (fine, omega (arith, g.from), g.inside)
          | inr more ↦ elim (Bool-cases ((gettoken text es p).ret == b'a')) [
            | inr other ↦ rw (parseargs, go, more, other) tt
            | inl letter ↦
                let moved = g.moves (λ e. ==→ne _ _ more e) in
                let word = g.is_word (==→eq _ _ letter) in
                let added = add_argument-Building (IsWord text start es) argc cmd t.word b word in
                elim (Bool-cases (leb maxargs (argc + 1))) [
                  | inl full ↦ rw (parseargs, go, more, letter, full) tt
                  | inr room ↦
                      let less : argc + 1 < maxargs = ground arith in
                      let next =
                        λ (c : Cmd) (ps : ℕ) (built : IsBuilding (argc + 1) c) (low : t.ps ≤ ps)
                            (high : ps ≤ es).
                          parseargs-Outcome k (argc + 1) c ps (omega arith, high)
                            (omega (arith, moved)) less built in
                      rw (parseargs, go, more, letter, room)
                        (Outcome-from es s t.ps IsFine _ (omega (arith, g.from)) (
                          Outcome-bind es t.ps (IsBuilding (argc + 1)) IsFine _ _
                            (IsBuilding-redirs (argc + 1) (add_argument cmd t.word) t.ps
                              (omega (arith, g.from), g.inside) added)
                            next))
                ]
          ]
        ]
      ]
