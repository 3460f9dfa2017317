-- ===== src/Pipe.antt =====
-- kernel/pipe.c. A call holds `pi->lock` except while it sleeps, so what it does between two sleeps
-- is one function; `asleep` is the state in which it waits for the other end. User memory and the
-- kill flag are arguments: `copyin a` is the byte at user address `a`, `copyout a` whether address
-- `a` can be written, `killed i` what `killed(pr)` says when `i` bytes are done.
pub mod Queue
pub mod Read
pub mod Fifo
mod Examples
use cs202lab.Prelude.{
  add_uint, sub_uint, ℕ, zero, suc, ◌+◌, ◌-◌, ◌%◌, ◌^◌, Bool, true, false, not, ◌&&◌, ◌||◌, Option,
  none, some, List, [], ◌∷◌, ◌==◌, if◌then◌else◌, update,
}

abbrev pub pipe_size : ℕ
pipe_size = 512

-- `struct pipe`, with the numbers of `wakeup` calls on `&nread` and on `&nwrite`.
pub record Pipe : Type 0 where
  pub buf : ℕ → ℕ
  pub nread : ℕ
  pub nwrite : ℕ
  pub readopen : Bool
  pub writeopen : Bool
  pub woken_readers : ℕ
  pub woken_writers : ℕ

abbrev pub wake_readers : Pipe → Pipe
wake_readers pi = record pi { woken_readers = pi.woken_readers + 1 }

abbrev pub wake_writers : Pipe → Pipe
wake_writers pi = record pi { woken_writers = pi.woken_writers + 1 }

-- The pipe that `pipealloc` sets up in its page.
pub fresh : Pipe
fresh = record {
  buf = λ _. 0;
  nread = 0;
  nwrite = 0;
  readopen = true;
  writeopen = true;
  woken_readers = 0;
  woken_writers = 0;
}

-- The result says whether the page of the pipe is freed.
pub pipeclose : Pipe → Bool → Pipe × Bool
pipeclose pi writable =
    let pi' =
      if writable
      then wake_readers (record pi { writeopen = false })
      else wake_writers (record pi { readopen = false }) in
    (pi', not pi'.readopen && not pi'.writeopen)

-- pi->data[pi->nwrite++ % PIPESIZE] = ch
pub put : Pipe → ℕ → Pipe
put pi ch = record pi {
  buf = update pi.buf (pi.nwrite % pipe_size) ch;
  nwrite = add_uint pi.nwrite 1;
}

-- `wrote i`: the call returns i; `failed`: it returns -1; `asleep i`: it sleeps with i bytes done.
pub data Outcome : Type 0 where
  wrote : ℕ → Outcome
  failed : Outcome
  asleep : ℕ → Outcome

module _ (copyin : ℕ → Option ℕ) (killed : ℕ → Bool) (addr : ℕ) where
  -- The loop of `pipewrite` from `i` on, with n - i rounds to go.
  pub write_loop : ℕ → ℕ → Pipe → Outcome × Pipe
  unfolding put
  write_loop zero i pi = (wrote i, wake_readers pi)
  write_loop (suc k) i pi =
      let store = λ (ch : ℕ). write_loop k (i + 1) (put pi ch) in
      if not pi.readopen || killed i
      then (failed, pi)
      else if pi.nwrite == add_uint pi.nread pipe_size
      then (asleep i, wake_readers pi)
      else elim (copyin (addr + i)) [ none ↦ (wrote i, wake_readers pi) | some ch ↦ store ch ]

  -- From the start, or from where a call woke up, to the next sleep or to the return.
  pub pipewrite : (n i : ℕ) → Pipe → Outcome × Pipe
  unfolding write_loop
  pipewrite n i pi = write_loop (n - i) i pi

module _ (copyout : ℕ → Bool) (addr : ℕ) where
  -- The copying loop of `piperead`: the bytes that it delivers to `addr + i` and on.
  pub read_loop : ℕ → ℕ → Pipe → List ℕ × Pipe
  read_loop zero i pi = ([], pi)
  read_loop (suc k) i pi =
      let ch = pi.buf (pi.nread % pipe_size) in
      let pi' = record pi { nread = add_uint pi.nread 1 } in
      let (bytes, last) = read_loop k (i + 1) pi' in
      if pi.nread == pi.nwrite
      then ([], pi)
      else if copyout (addr + i)
      then (ch ∷ bytes, last)
      else ([], pi')

  -- `none` means that the call sleeps. Otherwise it returns -1 (`none` inside) or the number of the
  -- bytes that are shown.
  pub piperead : Bool → ℕ → Pipe → Option (Option (List ℕ)) × Pipe
  unfolding read_loop
  piperead killed n pi =
      if (pi.nread == pi.nwrite) && pi.writeopen
      then (if killed then some none else none, pi)
      else (let (bytes, pi') = read_loop n 0 pi in (some (some bytes), wake_writers pi'))
