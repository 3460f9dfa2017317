-- ===== src/Shell/Words.antt =====
-- Words of the shell's line, and predicates on all that a command of user/sh.c holds.
use cs202lab.Prelude.{ℕ, ◌≤◌, ◌<◌, ◌≡◌, ◌⊎◌, true, false, All, length}
use cs202lab.KernelString.{Mem}
use cs202lab.Shell.Commands.{Word, Cmd, maxargs}
use cs202lab.Shell.Tokens.{is_ordinary}

-- Between the start and the end of the line.
abbrev pub In : (start es s : ℕ) → Type 0
In start es s = (start ≤ s) × (s ≤ es)

module _ (text : Mem) (start es : ℕ) where
  -- A word of ordinary bytes, as long as it can be.
  pub record IsWord (w : Word) : Type 0 where
    pub from : start ≤ w.q
    pub nonempty : w.q < w.eq
    pub inside : w.eq ≤ es
    pub ordinary : (i : ℕ) → w.q ≤ i → i < w.eq → is_ordinary (text i) ≡ true
    pub ends : (w.eq ≡ es) ⊎ (is_ordinary (text w.eq) ≡ false)

module _ (Q : Word → Type 0) where
  -- Every word of a command has Q, and `argv` has room for the null pointer.
  abbrev pub Fine : Cmd → Type 0
  Fine (Cmd.exec argv) = All Q argv × (length argv < maxargs)
  Fine (Cmd.redir cmd file mode fd) = Fine cmd × Q file
  Fine (Cmd.pipe left right) = Fine left × Fine right
  Fine (Cmd.list left right) = Fine left × Fine right
  Fine (Cmd.back cmd) = Fine cmd

  -- The command that `parseexec` builds, with n arguments so far.
  abbrev pub Building : ℕ → Cmd → Type 0
  Building n (Cmd.exec argv) = All Q argv × (length argv ≡ n)
  Building n (Cmd.redir cmd file mode fd) = Building n cmd × Q file
  Building n (Cmd.pipe left right) = ⊥
  Building n (Cmd.list left right) = ⊥
  Building n (Cmd.back cmd) = ⊥
