-- ===== src/Shell/Redirections.antt =====
-- `parseredirs` of user/sh.c ends, and gives every redirection a file.
use cs202lab.Prelude.{
  ℕ, zero, suc, ◌-◌, ◌<◌, ◌≡◌, inl, inr, arith, ◌==◌, Bool-cases, List, [], ◌∷◌, ==→eq,
}
use cs202lab.KernelString.{Mem}
use cs202lab.Shell.{parseredirs}
use cs202lab.Shell.Commands.{Word, Cmd, redirect}
use cs202lab.Shell.Tokens.{gettoken, peek}
use cs202lab.Shell.Words.{In, IsWord}
use cs202lab.Shell.Outcome.{Outcome, Outcome-from}
use cs202lab.Shell.Scanning.{gettoken-Gets, peek-within, peek-moves}

module _ (text : Mem) (start es : ℕ) (ended : text es ≡ 0) (P : Cmd → Type 0)
    (closed : (cmd : Cmd) (w : Word) (mode fd : ℕ)
      → P cmd
      → IsWord text start es w
      → P (Cmd.redir cmd w mode fd)) where
  redirect-keeps :
      (tok : ℕ) (cmd : Cmd) (w : Word) → P cmd → IsWord text start es w → P (redirect tok cmd w)
  unfolding redirect
  redirect-keeps tok cmd w p word = elim (Bool-cases (tok == b'<')) [
    | inl e ↦ rw (redirect, e) (closed cmd w 0 0 p word)
    | inr e ↦ elim (Bool-cases (tok == b'>')) [
      | inl e' ↦ rw (redirect, e, e') (closed cmd w 1537 1 p word)
      | inr e' ↦ elim (Bool-cases (tok == b'+')) [
        | inl e'' ↦ rw (redirect, e, e', e'') (closed cmd w 513 1 p word)
        | inr e'' ↦ rw (redirect, e, e', e'') p
      ]
    ]
  ]

  pub parseredirs-Outcome :
      (k : ℕ) (cmd : Cmd) (s : ℕ)
      → In start es s
      → es - s < k
      → P cmd
      → Outcome es s P (parseredirs text es k cmd s)
  unfolding parseredirs
  parseredirs-Outcome zero cmd s h f p = absurd (omega arith)
  parseredirs-Outcome (suc k) cmd s h f p =
      let toks : List ℕ = b'<' ∷ b'>' ∷ [] in
      elim (Bool-cases (peek text es s toks).1) [
        | inr stop ↦
            rw (parseredirs, stop)
              (let (lo, hi) = peek-within text start es ended s toks h in (p, lo, hi))
        | inl go ↦
            let t = gettoken text es (peek text es s toks).0 in
            let moved = peek-moves text start es ended s toks h go in
            let file = gettoken-Gets text start es ended t.ps (omega arith, moved.1) in
            elim (Bool-cases ((gettoken text es t.ps).ret == b'a')) [
              | inr other ↦ rw (parseredirs, go, other) tt
              | inl letter ↦
                  rw (parseredirs, go, letter)
                    (let word = file.is_word (==→eq _ _ letter) in
                      let u = gettoken text es t.ps in
                      let kept = redirect-keeps t.ret cmd u.word p word in
                      let rest =
                        parseredirs-Outcome k (redirect t.ret cmd u.word) u.ps
                          (omega (arith, file.from), file.inside) (omega (arith, file.from)) kept in
                      Outcome-from es s u.ps P
                        (parseredirs text es k (redirect t.ret cmd u.word) u.ps)
                        (omega (arith, file.from)) rest)
            ]
      ]
