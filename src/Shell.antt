-- ===== src/Shell.antt =====
-- The parser of user/sh.c, on the byte memory of the string functions. A pointer into the line is its
-- address, and a command is a tree in place of the `struct cmd` that a constructor allocates:
-- `malloc` gives room. A panic ends the process, and the loops and calls that read on run on fuel.
pub mod Commands
pub mod Tokens
pub mod Scanning
pub mod Words
pub mod Outcome
pub mod Redirections
pub mod Arguments
pub mod Parsing
pub mod Strings
mod Examples
use cs202lab.Prelude.{
  ℕ, zero, suc, ◌+◌, ◌-◌, Bool, true, false, not, ◌&&◌, List, [], ◌∷◌, ◌++◌, none, some, leb, ◌==◌,
  if◌then◌else◌, has, update,
}
use cs202lab.KernelString.{Mem}
use cs202lab.Ulib.{strlen}
use cs202lab.Shell.Commands.{
  Word, Cmd, maxargs, execcmd, redircmd, pipecmd, listcmd, backcmd, add_argument, o_rdonly,
  o_wronly, o_create, o_trunc, redirect, cut, nulterminate,
}
use cs202lab.Shell.Tokens.{
  whitespace, symbols, in_set, Token, is_space, is_ordinary, skip, skip_space, token_at, gettoken,
  peek, rounds,
}

-- The messages of `panic`.
pub data SyntaxError : Type 0 where
  missing_file : SyntaxError
  no_block : SyntaxError
  missing_paren : SyntaxError
  syntax : SyntaxError
  too_many_args : SyntaxError
  leftovers : SyntaxError

-- What a parser returns, with `*ps` behind what it read.
pub data Parse {ℓ} (A : Type ℓ) : Type ℓ where
  parsed : (a : A) (ps : ℕ) → Parse A
  panics : SyntaxError → Parse A
  out_of_fuel : Parse A

infixl 10 ◌>>=◌
abbrev pub ◌>>=◌ {ℓ κ} : {A : Type ℓ} {B : Type κ} → Parse A → (A × ℕ → Parse B) → Parse B
Parse.parsed a ps >>= k = k (a, ps)
Parse.panics e >>= k = Parse.panics e
Parse.out_of_fuel >>= k = Parse.out_of_fuel

-- The line ends at `es`.
module _ (text : Mem) (es : ℕ) where
  pub parseredirs : ℕ → Cmd → ℕ → Parse Cmd
  parseredirs zero cmd s = Parse.out_of_fuel
  parseredirs (suc k) cmd s = elim (peek text es s (b'<' ∷ b'>' ∷ [])).1 [
    | false ↦ Parse.parsed cmd (peek text es s (b'<' ∷ b'>' ∷ [])).0
    | true ↦
        let t = gettoken text es (peek text es s (b'<' ∷ b'>' ∷ [])).0 in
        let u = gettoken text es t.ps in
        elim (u.ret == b'a') [
          | false ↦ Parse.panics SyntaxError.missing_file
          | true ↦ parseredirs k (redirect t.ret cmd u.word) u.ps
        ]
  ]

  -- The loop of `parseexec` over the arguments.
  pub parseargs : (k argc : ℕ) → Cmd → ℕ → Parse Cmd
  parseargs zero argc cmd s = Parse.out_of_fuel
  parseargs (suc k) argc cmd s =
      let stops = b'|' ∷ b')' ∷ b'&' ∷ b';' ∷ [] in
      let t = gettoken text es (peek text es s stops).0 in
      elim (peek text es s stops).1 [
        | true ↦ Parse.parsed cmd (peek text es s stops).0
        | false ↦ elim (t.ret == 0) [
          | true ↦ Parse.parsed cmd t.ps
          | false ↦ elim (t.ret == b'a') [
            | false ↦ Parse.panics SyntaxError.syntax
            | true ↦ elim (leb maxargs (argc + 1)) [
              | true ↦ Parse.panics SyntaxError.too_many_args
              | false ↦
                  parseredirs (rounds text es t.ps) (add_argument cmd t.word) t.ps
                  >>= (λ r. parseargs k (argc + 1) r.0 r.1)
            ]
          ]
        ]
      ]

  -- The parsers below take `parseline`, which they call inside parentheses.
  module _ (line : ℕ → Parse Cmd) where
    pub parseblock : ℕ → Parse Cmd
    parseblock s =
        let before = peek text es s (b'(' ∷ []) in
        if not before.1
        then Parse.panics SyntaxError.no_block
        else line (gettoken text es before.0).ps >>= (λ r.
          let after = peek text es r.1 (b')' ∷ []) in
          if not after.1
          then Parse.panics SyntaxError.missing_paren
          else (let s' = (gettoken text es after.0).ps in parseredirs (rounds text es s') r.0 s'))

    pub parseexec : ℕ → Parse Cmd
    parseexec s =
        let p = peek text es s (b'(' ∷ []) in
        if p.1
        then parseblock p.0
        else parseredirs (rounds text es p.0) execcmd p.0
          >>= (λ r. parseargs (rounds text es r.1) 0 r.0 r.1)

    pub parsepipe : ℕ → ℕ → Parse Cmd
    parsepipe zero s = Parse.out_of_fuel
    parsepipe (suc k) s = parseexec s >>= (λ r.
        let p = peek text es r.1 (b'|' ∷ []) in
        let rest = parsepipe k (gettoken text es p.0).ps in
        if p.1
        then rest >>= (λ right. Parse.parsed (pipecmd r.0 right.0) right.1)
        else Parse.parsed r.0 p.0)

  -- The loop of `parseline` over `&`.
  pub parseback : ℕ → Cmd → ℕ → Parse Cmd
  parseback zero cmd s = Parse.out_of_fuel
  parseback (suc k) cmd s =
      let p = peek text es s (b'&' ∷ []) in
      let rest = parseback k (backcmd cmd) (gettoken text es p.0).ps in
      if p.1 then rest else Parse.parsed cmd p.0

  pub parseline : ℕ → ℕ → Parse Cmd
  parseline zero s = Parse.out_of_fuel
  parseline (suc k) s =
      parsepipe (parseline k) (rounds text es s) s
      >>= (λ left. parseback (rounds text es left.1) left.0 left.1)
      >>= (λ r.
          let p = peek text es r.1 (b';' ∷ []) in
          let rest = parseline k (gettoken text es p.0).ps in
          if p.1
          then rest >>= (λ right. Parse.parsed (listcmd r.0 right.0) right.1)
          else Parse.parsed r.0 p.0)

  -- `parsecmd` behind its first line: the command, and the memory with its strings ended.
  pub parse_text : ℕ → Parse (Cmd × Mem)
  parse_text s = parseline (rounds text es s) s >>= (λ r.
      let end = (peek text es r.1 []).0 in
      if not (end == es)
      then Parse.panics SyntaxError.leftovers
      else Parse.parsed (r.0, nulterminate r.0 text) end)

-- The fuel is for `strlen`.
pub parsecmd : (fuel : ℕ) → Mem → ℕ → Parse (Cmd × Mem)
parsecmd fuel text s = elim (strlen fuel s text) [
  | none ↦ Parse.out_of_fuel
  | some n ↦ parse_text text (s + n) s
]
