-- ===== src/Shell/Commands.antt =====
-- The commands of user/sh.c: a tree in place of the `struct cmd` that a constructor allocates, where
-- `malloc` gives room, and a pointer into the line is an address of memory.
use cs202lab.Prelude.{ℕ, ◌+◌, List, [], ◌∷◌, ◌++◌, ◌==◌, if◌then◌else◌, update}
use cs202lab.KernelString.{Mem}

abbrev pub maxargs : ℕ
maxargs = 10

-- The two pointers that bound a word: `argv[i]` and `eargv[i]`, or `file` and `efile`.
pub record Word : Type 0 where
  pub q : ℕ
  pub eq : ℕ

-- `argv` is the list of the words in front of its null pointer.
pub data Cmd : Type 0 where
  exec : (argv : List Word) → Cmd
  redir : (cmd : Cmd) (file : Word) (mode fd : ℕ) → Cmd
  pipe : (left right : Cmd) → Cmd
  list : (left right : Cmd) → Cmd
  back : (cmd : Cmd) → Cmd

abbrev pub execcmd : Cmd
execcmd = Cmd.exec []

abbrev pub redircmd : Cmd → Word → (mode fd : ℕ) → Cmd
redircmd subcmd file mode fd = Cmd.redir subcmd file mode fd

abbrev pub pipecmd : (left right : Cmd) → Cmd
pipecmd left right = Cmd.pipe left right

abbrev pub listcmd : (left right : Cmd) → Cmd
listcmd left right = Cmd.list left right

abbrev pub backcmd : Cmd → Cmd
backcmd subcmd = Cmd.back subcmd

-- `cmd->argv[argc] = q; cmd->eargv[argc] = eq` through the pointer to the `execcmd` that stands under
-- the redirections.
unfoldable pub add_argument : Cmd → Word → Cmd
add_argument (Cmd.exec argv) w = Cmd.exec (argv ++ w ∷ [])
add_argument (Cmd.redir cmd file mode fd) w = Cmd.redir (add_argument cmd w) file mode fd
add_argument (Cmd.pipe left right) w = Cmd.pipe left right
add_argument (Cmd.list left right) w = Cmd.list left right
add_argument (Cmd.back cmd) w = Cmd.back cmd

-- The flags of `open`
abbrev pub o_rdonly : ℕ
o_rdonly = 0

abbrev pub o_wronly : ℕ
o_wronly = 1

abbrev pub o_create : ℕ
o_create = 512

abbrev pub o_trunc : ℕ
o_trunc = 1024

-- The `switch` of `parseredirs`.
unfoldable pub redirect : (tok : ℕ) → Cmd → Word → Cmd
redirect tok cmd w =
    if tok == b'<'
    then redircmd cmd w o_rdonly 0
    else if tok == b'>'
    then redircmd cmd w (o_wronly + o_create + o_trunc) 1
    else if tok == b'+'
    then redircmd cmd w (o_wronly + o_create) 1
    else cmd

-- `*eargv[i] = 0` for each word in order
unfoldable pub cut : List Word → Mem → Mem
cut [] mem = mem
cut (w ∷ ws) mem = cut ws (update mem w.eq 0)

unfoldable pub nulterminate : Cmd → Mem → Mem
unfolding cut
nulterminate (Cmd.exec argv) mem = cut argv mem
nulterminate (Cmd.redir cmd file mode fd) mem = update (nulterminate cmd mem) file.eq 0
nulterminate (Cmd.pipe left right) mem = nulterminate right (nulterminate left mem)
nulterminate (Cmd.list left right) mem = nulterminate right (nulterminate left mem)
nulterminate (Cmd.back cmd) mem = nulterminate cmd mem
