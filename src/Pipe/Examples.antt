-- ===== src/Pipe/Examples.antt =====
-- Runs of kernel/pipe.c, and the theorems at them.
use cs202lab.Prelude.{
  ℕ, ◌+◌, ◌-◌, ◌^◌, ◌≤◌, ◌≡◌, refl, Bool, true, false, Option, none, some, [], ◌∷◌, ◌++◌, arith,
  ltb, if◌then◌else◌, length,
}
use cs202lab.Pipe.{pipe_size, Pipe, fresh, wrote, pipewrite, piperead}
use cs202lab.Pipe.Queue.{IsValid, contents}
use cs202lab.Pipe.Read.{ReadStopped, piperead-Stopped}
use cs202lab.Pipe.Fifo.{History, Reach, start, next, write, read, pipe_fifo}

-- User memory in which address a holds a + 1, up to address 99.
abbrev memory : ℕ → Option ℕ
memory a = if ltb a 100 then some (a + 1) else none

abbrev alive : ℕ → Bool
alive i = false

-- The counters stand just before their wrap.
abbrev wrapping : Pipe
wrapping = record {
  buf = λ _. 0;
  nread = 2 ^ 32 - 1;
  nwrite = 2 ^ 32 - 1;
  readopen = true;
  writeopen = true;
  woken_readers = 0;
  woken_writers = 0;
}

wrapping-IsValid : IsValid wrapping
wrapping-IsValid = omega arith

wraps : (pipewrite memory alive 5 3 0 wrapping).1.nwrite ≡ 2
unfolding pipewrite
wraps = refl

stops_at_a_fault : (pipewrite memory alive 98 9 0 wrapping).0 ≡ wrote 2
unfolding pipewrite
stops_at_a_fault = refl

abbrev filled : Pipe
unfolding pipewrite
filled = (pipewrite memory alive 5 3 0 wrapping).1

filled-IsValid : IsValid filled
unfolding filled
filled-IsValid = omega arith

-- Address 20 can be written and address 21 cannot: one byte arrives, the next one is lost.
loses : (piperead (λ a. ltb a 21) 20 false 3 filled).0 ≡ some (some (6 ∷ []))
unfolding filled piperead
loses = refl

loses_one : contents (piperead (λ a. ltb a 21) 20 false 3 filled).1 ≡ 8 ∷ []
unfolding filled piperead
loses_one = refl

piperead-Stopped_example :
    ReadStopped (λ a. ltb a 21) 20 3 false filled (piperead (λ a. ltb a 21) 20 false 3 filled)
piperead-Stopped_example = piperead-Stopped (λ a. ltb a 21) 20 3 false filled-IsValid

abbrev after_write : Pipe
unfolding pipewrite fresh
after_write = (pipewrite memory alive 5 3 0 fresh).1

abbrev after_read : Pipe
unfolding after_write piperead
after_read = (piperead (λ _. true) 20 false 2 after_write).1

abbrev session : History
session = record { pi = after_read; sent = 6 ∷ 7 ∷ 8 ∷ []; got = 6 ∷ 7 ∷ [] }

session-Reach : Reach session
unfolding after_read
session-Reach =
    next (next start (write memory alive 5 3 0 (wrote 3) after_write refl refl))
      (read 20 2 false (6 ∷ 7 ∷ []) after_read refl refl)

pipe_fifo_example :
    (session.sent ≡ session.got ++ contents after_read) × (length (contents after_read) ≤ pipe_size)
pipe_fifo_example = pipe_fifo session-Reach
