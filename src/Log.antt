-- ===== src/Log.antt =====
-- The functions of kernel/log.c. A critical section under `log.lock` is one function; the loops over
-- the logged blocks run on the number of rounds.
pub mod Machine
mod Crash
mod Phases
mod Commit
pub mod Recovery
pub mod Absorb
pub mod Reserve
pub mod Durable
mod Examples
use cs202lab.Prelude.{
  ℕ, zero, suc, ◌+◌, ◌-◌, ◌*◌, Bool, true, false, ◌||◌, Option, none, some, ltb, leb, ◌==◌,
  if◌then◌else◌, update,
}
use Machine.{
  State, done, panic, M, pure, and_then, ◌>>=◌, ◌>>◌, get, bread, set_data, bwrite, brelse, bpin,
  bunpin,
}

-- LOGSIZE and MAXOPBLOCKS of kernel/param.h
abbrev pub max_op_blocks : ℕ
max_op_blocks = 10

abbrev pub log_size : ℕ
log_size = 30

-- for (i = i; i < i + n; i++) body(i);
pub rounds : ℕ → ℕ → (ℕ → M (Unit {0})) → M (Unit {0})
rounds zero i body = pure tt
rounds (suc n) i body = body i >> rounds n (i + 1) body

-- for (j = j; j < j + n; j++) dst[j] = src[j];
pub copy : ℕ → ℕ → (ℕ → ℕ) → (ℕ → ℕ) → ℕ → ℕ
copy zero j src dst = dst
copy (suc n) j src dst = copy n (j + 1) src (update dst j (src j))

-- One round of `install_trans`: the log block's contents go to their home block.
pub install_block : Bool → ℕ → M (Unit {0})
install_block recovering tail = do
  s ← get
  lbuf ← bread (s.start + tail + 1)
  dbuf ← bread (s.block tail)
  set_data (s.block tail) lbuf
  bwrite (s.block tail)
  if recovering then pure tt else bunpin (s.block tail)
  brelse (s.start + tail + 1)
  brelse (s.block tail)

pub install_trans : Bool → M (Unit {0})
unfolding rounds install_block
install_trans recovering = do s ← get; rounds s.n 0 (install_block recovering)

-- Word 0 of the header block is `n`, word i + 1 is `block[i]`.
pub read_head : M (Unit {0})
unfolding copy
read_head = do
  s ← get
  lh ← bread s.start
  λ t. done tt (record t { n = lh 0; block = copy (lh 0) 0 (λ i. lh (i + 1)) t.block })
  brelse s.start

pub write_head : M (Unit {0})
unfolding copy
write_head = do
  s ← get
  hb ← bread s.start
  set_data s.start (copy s.n 1 (λ j. s.block (j - 1)) (update hb 0 s.n))
  bwrite s.start
  brelse s.start

abbrev pub set_n : ℕ → M (Unit {0})
set_n k s = done tt (record s { n = k })

pub recover_from_log : M (Unit {0})
unfolding read_head write_head install_trans
recover_from_log = do read_head; install_trans true; set_n 0; write_head

-- `sizeof(struct logheader)` is 124, so the first panic of the code is never taken.
pub initlog : ℕ → ℕ → M (Unit {0})
unfolding recover_from_log
initlog logstart nlog = do
  λ t. done tt (record t { start = logstart; size = nlog })
  recover_from_log

-- One round of `write_log`: a cached block's contents go to the log.
pub log_block : ℕ → M (Unit {0})
log_block tail = do
  s ← get
  to ← bread (s.start + tail + 1)
  from ← bread (s.block tail)
  set_data (s.start + tail + 1) from
  bwrite (s.start + tail + 1)
  brelse (s.block tail)
  brelse (s.start + tail + 1)

pub write_log : M (Unit {0})
unfolding rounds log_block
write_log = do s ← get; rounds s.n 0 log_block

pub commit : M (Unit {0})
unfolding write_log write_head install_trans
commit = do
  s ← get
  if ltb 0 s.n
      then (do write_log; write_head; install_trans false; set_n 0; write_head)
      else pure tt

-- One pass of the loop of `begin_op`; `none` means that the caller sleeps on `&log`.
pub begin_op : State → Option State
begin_op s =
    if s.committing
    then none
    else if ltb log_size (s.n + (s.outstanding + 1) * max_op_blocks)
    then none
    else some (record s { outstanding = s.outstanding + 1 })

-- The first critical section of `end_op`; the result is `do_commit`.
pub end_op_enter : M Bool
end_op_enter s =
    let t = record s { outstanding = s.outstanding - 1 } in
    if s.committing
    then panic
    else if s.outstanding == 1
    then done true (record t { committing = true })
    else done false (record t { wakeups = t.wakeups + 1 })

-- The second one, after `commit`.
pub end_op_leave : M (Unit {0})
end_op_leave s = done tt (record s { committing = false; wakeups = s.wakeups + 1 })

pub end_op : M (Unit {0})
unfolding end_op_enter commit end_op_leave
end_op = do do_commit ← end_op_enter; if do_commit then (do commit; end_op_leave) else pure tt

-- The first i < i + n with block[i] = b, or i + n.
pub find_block : ℕ → ℕ → (ℕ → ℕ) → ℕ → ℕ
find_block zero i block b = i
find_block (suc n) i block b = elim (block i == b) [
  | true ↦ i
  | false ↦ find_block n (i + 1) block b
]

-- The argument is the buffer's block number.
pub log_write : ℕ → M (Unit {0})
unfolding find_block
log_write b s =
    if leb log_size s.n || leb (s.size - 1) s.n
    then panic
    else if ltb s.outstanding 1
    then panic
    else (let i = find_block s.n 0 s.block b in
        let t = record s { block = update s.block i b } in
        if i == s.n then (do bpin b; set_n (s.n + 1)) t else done tt t)
