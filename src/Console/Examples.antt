-- ===== src/Console/Examples.antt =====
-- Runs of kernel/console.c, and the theorems at them.
use cs202lab.Prelude.{ℕ, ◌≡◌, refl, Bool, true, false, List, [], ◌∷◌, arith}
use cs202lab.Console.{consoleintr, consoleread}
use cs202lab.Console.Edit.{edit, Shows}
use cs202lab.Console.Typed.{consoleintr-edit}
use cs202lab.Console.Read.{read_line, Reads, consoleread-Reads}
use cs202lab.Console.Refines.{
  Event, key, read, run, run_lists, boot, boot-IsValid, Agrees, console_refines,
}

abbrev writable : ℕ → Bool
writable a = true

-- "lx", a backspace, "s" and Enter, read by 8 bytes.
abbrev session : List Event
session = key b'l' ∷ key b'x' ∷ key 0x7f ∷ key b's' ∷ key b'\r' ∷ read writable false 0 8 0 ∷ []

reads_ls : (run session boot).0 ≡ b'l' ∷ b's' ∷ b'\n' ∷ []
unfolding run consoleintr consoleread
reads_ls = refl

console_refines_example : Agrees (run session boot) (run_lists session [] [])
console_refines_example =
    console_refines session
      (omega arith, (omega arith, (omega arith, (omega arith, (omega arith, (tt, tt))))))

consoleintr-edit_example : Shows (consoleintr b'a' boot) 0 (edit b'a' [] [])
consoleintr-edit_example = consoleintr-edit boot-IsValid b'a' (omega arith)

consoleread-Reads_example :
    Reads writable false 0 boot
      (consoleread writable false 0 8 0 boot)
      (read_line writable false 0 8 0 [])
consoleread-Reads_example = consoleread-Reads writable false 0 8 0 boot-IsValid
