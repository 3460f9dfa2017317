-- ===== src/File.antt =====
-- kernel/file.c: the open files and how often each is held. A file is its index in `ftable.file`; the
-- functions run under `ftable.lock`. What `fileclose` calls when nobody holds the file any more, it
-- calls without the lock: that is the result `Closing`.
pub mod Holders
mod Examples
use cs202lab.Prelude.{ℕ, ◌+◌, ◌-◌, Bool, Option, none, some, ltb, ◌==◌, if◌then◌else◌, update}
use cs202lab.Proc.{first}

abbrev pub nfile : ℕ
nfile = 100

pub data FileType : Type 0 where
  fd_none : FileType
  fd_pipe : FileType
  fd_inode : FileType
  fd_device : FileType

pub record File : Type 0 where
  pub type : FileType
  pub ref : ℕ
  pub writable : Bool

abbrev pub Ftable : Type 0
Ftable = ℕ → File

pub filealloc : Ftable → Option ℕ × Ftable
filealloc t = elim (first nfile 0 (λ i. (t i).ref == 0)) [
  | none ↦ (none, t)
  | some i ↦ (some i, update t i (record (t i) { ref = 1 }))
]

-- `none` is the panic.
pub filedup : ℕ → Ftable → Option Ftable
filedup i t =
    if ltb (t i).ref 1 then none else some (update t i (record (t i) { ref = (t i).ref + 1 }))

-- `still_held`: others hold the file. The others: pipeclose(ff.pipe, ff.writable); iput(ff.ip) in a
-- transaction; no call.
pub data Closing : Type 0 where
  still_held : Closing
  pipe_closes : Bool → Closing
  inode_put : Closing
  no_call : Closing

abbrev pub closing : FileType → Bool → Closing
closing fd_pipe writable = pipe_closes writable
closing fd_inode writable = inode_put
closing fd_device writable = inode_put
closing fd_none writable = no_call

-- `none` is the panic.
pub fileclose : ℕ → Ftable → Option (Closing × Ftable)
fileclose i t =
    let down = record (t i) { ref = (t i).ref - 1 } in
    if ltb (t i).ref 1
    then none
    else if ltb 0 down.ref
    then some (still_held, update t i down)
    else some
        (closing down.type down.writable, update t i (record down { ref = 0; type = fd_none }))
