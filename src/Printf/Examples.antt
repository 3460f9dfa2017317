-- ===== src/Printf/Examples.antt =====
-- Numbers and formats that user/printf.c prints.
use cs202lab.Prelude.{ℕ, ◌-◌, ◌^◌, ◌≡◌, refl, true, some, List, [], ◌∷◌, arith, get_or}
use cs202lab.Ulib.{atoi}
use cs202lab.Printf.{
  Arg, store, put_digits, printint, hex_digits, printptr, convert, vprintf_loop, vprintf,
}
use cs202lab.Printf.Digits.{Prints, printint-Prints, atoi-printint}

-- "%d=%x%%"
format :
    vprintf
      (b'%' ∷ b'd' ∷ b'=' ∷ b'%' ∷ b'x' ∷ b'%' ∷ b'%' ∷ [])
      (Arg.number (2 ^ 32 - 5) ∷ Arg.number 171 ∷ [])
    ≡ some (b'-' ∷ b'5' ∷ b'=' ∷ b'A' ∷ b'B' ∷ b'%' ∷ [])
unfolding vprintf vprintf_loop convert printint put_digits store
format = refl

pointer :
    printptr 2147483648
    ≡ b'0' ∷ b'x' ∷ b'0' ∷ b'0' ∷ b'0' ∷ b'0' ∷ b'0' ∷ b'0' ∷ b'0' ∷ b'0' ∷ b'8' ∷ b'0' ∷ b'0'
      ∷ b'0' ∷ b'0' ∷ b'0' ∷ b'0' ∷ b'0' ∷ []
unfolding printptr hex_digits
pointer = refl

printint-Prints_example : Prints 4294967254 (printint 4294967254 10 true)
printint-Prints_example = printint-Prints 4294967254 (omega arith)

abbrev answer : List ℕ
answer = b'4' ∷ b'2' ∷ []

printed : printint 42 10 true ≡ some answer
unfolding printint put_digits store
printed = refl

atoi-printint_example : atoi 3 0 (λ i. get_or answer i 0) ≡ some 42
atoi-printint_example =
    atoi-printint 42 3 0 (λ i. get_or answer i 0) answer (omega arith) printed
      (refl, (λ e. absurd (omega arith)), (refl, (λ e. absurd (omega arith)), refl)) (omega arith)
