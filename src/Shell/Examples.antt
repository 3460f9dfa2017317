-- ===== src/Shell/Examples.antt =====
-- Lines that the shell's parser reads.
use cs202lab.Prelude.{
  ℕ, zero, suc, ◌+◌, ◌<◌, ◌≡◌, ◌≢◌, refl, false, arith, Option, none, some, List, [], ◌∷◌, has,
  length, get_or,
}
use cs202lab.KernelString.{Mem}
use cs202lab.Ulib.{strlen_from, strlen}
use cs202lab.Shell.{
  Parse, SyntaxError, parseredirs, parseargs, parseblock, parseexec, parsepipe, parseback,
  parseline, parse_text, parsecmd,
}
use cs202lab.Shell.Commands.{Word, Cmd, add_argument, redirect}
use cs202lab.Shell.Tokens.{skip, token_at, gettoken, peek}
use cs202lab.Shell.Outcome.{Outcome}
use cs202lab.Shell.Strings.{Parsed, parsecmd-Parsed}

-- A line from address 0 on, and zeros.
abbrev holding : List ℕ → Mem
holding line i = get_or line i 0

abbrev command : Parse (Cmd × Mem) → Option Cmd
command (Parse.parsed r ps) = some r.0
command (Parse.panics e) = none
command Parse.out_of_fuel = none

abbrev bounds : ℕ → ℕ → Word
bounds q eq = record { q = q; eq = eq }

-- ls >f|w &
abbrev sample : List ℕ
sample = b'l' ∷ b's' ∷ b' ' ∷ b'>' ∷ b'f' ∷ b'|' ∷ b'w' ∷ b' ' ∷ b'&' ∷ []

sample_tree :
    command (parsecmd 10 (holding sample) 0)
    ≡ some (
        Cmd.back (
          Cmd.pipe
            (Cmd.redir (Cmd.exec (bounds 0 2 ∷ [])) (bounds 4 5) 1537 1)
            (Cmd.exec (bounds 6 7 ∷ []))))
unfolding strlen strlen_from parsecmd parse_text parseline parseback parsepipe parseexec parseblock
    parseargs parseredirs redirect gettoken token_at peek skip add_argument
sample_tree = refl

-- (a;b)>>c
abbrev nested : List ℕ
nested = b'(' ∷ b'a' ∷ b';' ∷ b'b' ∷ b')' ∷ b'>' ∷ b'>' ∷ b'c' ∷ []

nested_tree :
    command (parsecmd 9 (holding nested) 0)
    ≡ some (
        Cmd.redir
          (Cmd.list (Cmd.exec (bounds 1 2 ∷ [])) (Cmd.exec (bounds 3 4 ∷ [])))
          (bounds 7 8)
          513
          1)
unfolding strlen strlen_from parsecmd parse_text parseline parseback parsepipe parseexec parseblock
    parseargs parseredirs redirect gettoken token_at peek skip add_argument
nested_tree = refl

-- (a
unclosed : parsecmd 3 (holding (b'(' ∷ b'a' ∷ [])) 0 ≡ Parse.panics SyntaxError.missing_paren
unfolding strlen strlen_from parsecmd parse_text parseline parseback parsepipe parseexec parseblock
    parseargs parseredirs redirect gettoken token_at peek skip add_argument
unclosed = refl

get_or-nonzero :
    (line : List ℕ) (i : ℕ) → has 0 line ≡ false → i < length line → get_or line i 0 ≢ 0
get_or-nonzero [] i h lt = absurd (omega arith)
get_or-nonzero (c ∷ line) zero h lt = ground (arith, h)
get_or-nonzero (c ∷ line) (suc i) h lt = get_or-nonzero line i (ground (arith, h)) (omega arith)

parsecmd-Parsed_example :
    Outcome (0 + 9) 0 (Parsed (holding sample) 0 (0 + 9)) (parsecmd 10 (holding sample) 0)
parsecmd-Parsed_example =
    parsecmd-Parsed 10 (holding sample) 0 9 (λ i lo hi. get_or-nonzero sample i refl hi) refl
      (omega arith)
