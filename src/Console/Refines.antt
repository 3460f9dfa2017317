-- ===== src/Console/Refines.antt =====
-- The console of kernel/console.c as a whole, against one that keeps two lists.
use cs202lab.Prelude.{ℕ, ◌<◌, ◌≡◌, refl, sym, Bool, List, [], ◌∷◌, ◌++◌, arith, All}
use cs202lab.Console.{Cons, consoleintr, consoleread}
use cs202lab.Console.Ring.{pending, line, IsValid}
use cs202lab.Console.Edit.{edit}
use cs202lab.Console.Typed.{consoleintr-edit}
use cs202lab.Console.Read.{read_line, consoleread-Reads}

-- A character arrives, or a reader runs until it sleeps or returns.
pub data Event : Type 0 where
  key : ℕ → Event
  read : (ℕ → Bool) → Bool → (dst k i : ℕ) → Event

abbrev pub IsByte : Event → Type 0
IsByte (key c) = c < 256
IsByte (read copyout killed dst k i) = Unit

-- The bytes that readers got, and the console afterwards.
unfoldable pub run : List Event → Cons → List ℕ × Cons
run [] s = ([], s)
run (key c ∷ es) s = run es (consoleintr c s)
run (read copyout killed dst k i ∷ es) s =
    let (out, bytes, t) = consoleread copyout killed dst k i s in
    let (later, last) = run es t in (bytes ++ later, last)

pub run_lists : List Event → List ℕ → List ℕ → List ℕ × List ℕ × List ℕ
run_lists [] p l = ([], p, l)
run_lists (key c ∷ es) p l = let (p', l', ended) = edit c p l in run_lists es p' l'
run_lists (read copyout killed dst k i ∷ es) p l =
    let (out, bytes, p') = read_line copyout killed dst k i p in
    let (later, p'', l'') = run_lists es p' l in (bytes ++ later, p'', l'')

-- Where no interrupt came yet.
abbrev pub boot : Cons
boot = record { buf = λ _. 0; r = 0; w = 0; e = 0; echo = []; wakeups = 0 }

pub boot-IsValid : IsValid boot
boot-IsValid = record {
  r = omega arith;
  w = omega arith;
  e = omega arith;
  small = omega arith;
  unbroken = tt;
}

-- The same bytes went to readers, and the ring shows the same lists.
pub record Agrees (real : List ℕ × Cons) (lists : List ℕ × List ℕ × List ℕ) : Type 0 where
  pub valid : IsValid real.1
  pub got : real.0 ≡ lists.0
  pub pending : pending real.1 ≡ lists.1
  pub line : line real.1 ≡ lists.2

run-Agrees :
    (es : List Event) {s : Cons}
    → IsValid s
    → All IsByte es
    → Agrees (run es s) (run_lists es (pending s) (line s))
unfolding run run_lists
run-Agrees [] v b = record { valid = v; got = refl; pending = refl; line = refl }
run-Agrees (key c ∷ es) {s} v b =
    let shows = consoleintr-edit v c b.0 in
    rw (sym shows.pending, sym shows.line) (run-Agrees es shows.valid b.1)
run-Agrees (read copyout killed dst k i ∷ es) {s} v b =
    let reads = consoleread-Reads copyout killed dst k i v in
    let rest = rw (reads.pending, reads.line) at (run-Agrees es reads.valid b.1) in
    record {
      valid = rest.valid;
      got = ground (arith, reads.bytes, rest.got);
      pending = rest.pending;
      line = rest.line;
    }

-- Whatever characters arrive and whatever reads are made, in any order: readers get the bytes that
-- they get from a console of two lists, which bounds the input, edits the line in front of no reader
-- and hands out lines.
pub console_refines : (es : List Event) → All IsByte es → Agrees (run es boot) (run_lists es [] [])
console_refines es b = run-Agrees es boot-IsValid b
