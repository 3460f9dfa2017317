-- ===== src/Console.antt =====
-- kernel/console.c: the line editor between the uart and the readers. A character is its code, and
-- the bytes that `consputc` sends out are collected in `echo`. The handler runs under `cons.lock`, a
-- reader too except while it sleeps, so what it does between two sleeps is one function.
pub mod Ring
pub mod Edit
pub mod Typed
pub mod Read
pub mod Refines
mod Examples
use cs202lab.Prelude.{
  add_uint, sub_uint, ℕ, zero, suc, ◌+◌, ◌-◌, ◌%◌, ◌^◌, Bool, true, false, not, ◌&&◌, ◌||◌, List,
  [], ◌∷◌, ◌++◌, ltb, ◌==◌, if◌then◌else◌, update,
}

abbrev pub input_buf_size : ℕ
input_buf_size = 128

-- The `struct cons`, what was echoed, and the number of `wakeup` calls on `&cons.r`.
pub record Cons : Type 0 where
  pub buf : ℕ → ℕ
  pub r : ℕ
  pub w : ℕ
  pub e : ℕ
  pub echo : List ℕ
  pub wakeups : ℕ

-- C(x)
abbrev pub ctrl : ℕ → ℕ
ctrl x = x - b'@'

abbrev pub backspace : ℕ
backspace = 0x100

pub consputc : ℕ → Cons → Cons
consputc c s = record s { echo = s.echo ++ (if c == backspace then 8 ∷ b' ' ∷ 8 ∷ [] else c ∷ []) }

-- cons.e--; consputc(BACKSPACE);
pub rub_out : Cons → Cons
unfolding consputc
rub_out s = consputc backspace (record s { e = sub_uint s.e 1 })

-- The loop of ^U, on fuel.
pub kill_line : ℕ → Cons → Cons
unfolding rub_out
kill_line zero s = s
kill_line (suc fuel) s =
    let rest = kill_line fuel (rub_out s) in
    if not (s.e == s.w) && not (s.buf (sub_uint s.e 1 % input_buf_size) == b'\n') then rest else s

-- cons.buf[cons.e++ % INPUT_BUF_SIZE] = c;
pub store : ℕ → Cons → Cons
store c s = record s { buf = update s.buf (s.e % input_buf_size) (c % 256); e = add_uint s.e 1 }

-- The default case of `consoleintr`.
pub typed : ℕ → Cons → Cons
unfolding consputc store
typed c s =
    if not (c == 0) && ltb (sub_uint s.e s.r) input_buf_size
    then (let c' = if c == b'\r' then b'\n' else c in
        let t = store c' (consputc c' s) in
        if ((c' == b'\n') || (c' == ctrl b'D')) || (sub_uint t.e t.r == input_buf_size)
        then record t { w = t.e; wakeups = t.wakeups + 1 }
        else t)
    else s

-- ^P prints the processes and leaves the input alone.
pub consoleintr : ℕ → Cons → Cons
unfolding kill_line rub_out typed
consoleintr c s =
    if c == ctrl b'P'
    then s
    else if c == ctrl b'U'
    then kill_line input_buf_size s
    else if (c == ctrl b'H') || (c == 0x7f)
    then (if not (s.e == s.w) then rub_out s else s)
    else typed c s

-- `returned i`: the call returns i; `failed`: it returns -1; `asleep i`: it sleeps with i bytes done.
pub data Outcome : Type 0 where
  returned : ℕ → Outcome
  failed : Outcome
  asleep : ℕ → Outcome

-- `copyout a` says whether user address `a` can be written, `killed` what `killed(myproc())` says.
module _ (copyout : ℕ → Bool) (killed : Bool) (dst : ℕ) where
  -- From i bytes done and k to go, to the next sleep or to the return: the outcome, the bytes that go
  -- to `dst + i` and on, and the console.
  pub consoleread : ℕ → ℕ → Cons → Outcome × List ℕ × Cons
  consoleread zero i s = (returned i, [], s)
  consoleread (suc k) i s =
      let c = s.buf (s.r % input_buf_size) in
      let t = record s { r = add_uint s.r 1 } in
      let (out, bytes, last) = consoleread k (i + 1) t in
      if s.r == s.w
      then (if killed then failed else asleep i, [], s)
      else if c == ctrl b'D'
      then (returned i, [], if ltb 0 i then record t { r = sub_uint t.r 1 } else t)
      else if not (copyout (dst + i))
      then (returned i, [], t)
      else if c == b'\n'
      then (returned (i + 1), c ∷ [], t)
      else (out, c ∷ bytes, last)
