-- ===== src/Ulib/Numbers.antt =====
-- `atoi` of user/ulib.c against the positional value of the digits.
use native.Mathlib.Nat.{add-mul, mul_assoc, pow-succ'}
use cs202lab.Prelude.{
  ℕ, zero, suc, ◌+◌, ◌-◌, ◌*◌, ◌^◌, ◌≤◌, ◌<◌, ◌≡◌, ◌∙◌, ap, true, false, ◌&&◌, some, List, [], ◌∷◌,
  arith, leb, length,
}
use cs202lab.KernelString.{Mem}
use cs202lab.Ulib.{atoi_loop, atoi}

-- From `s` on memory holds the digits of the list, and then another byte.
abbrev pub HoldsDigits : Mem → ℕ → List ℕ → Type 0
HoldsDigits mem s [] = (leb b'0' (mem s) && leb (mem s) b'9') ≡ false
HoldsDigits mem s (d ∷ ds) = (mem s ≡ b'0' + d) × (d ≤ 9) × HoldsDigits mem (s + 1) ds

abbrev pub decimal : List ℕ → ℕ
decimal [] = 0
decimal (d ∷ ds) = d * 10 ^ length ds + decimal ds

shift : (n d k r : ℕ) → (n * 10 + d) * 10 ^ k + r ≡ n * 10 ^ suc k + (d * 10 ^ k + r)
shift n d k r =
    omega (
      arith,
      add-mul (n * 10) d (10 ^ k),
      mul_assoc n 10 (10 ^ k),
      ap (λ p. n * p) (pow-succ' 10 k),
    )

atoi_loop-decimal :
    (fuel n s : ℕ) (mem : Mem) (ds : List ℕ)
    → HoldsDigits mem s ds
    → length ds < fuel
    → atoi_loop fuel n s mem ≡ some (n * 10 ^ length ds + decimal ds)
unfolding atoi_loop
atoi_loop-decimal zero n s mem ds h f = absurd (omega arith)
atoi_loop-decimal (suc fuel) n s mem [] h f = rw h (ap some (omega arith))
atoi_loop-decimal (suc fuel) n s mem (d ∷ ds) h f =
    let digit : (leb b'0' (mem s) && leb (mem s) b'9') ≡ true = ground (arith, h.0, h.1) in
    let next : n * 10 + mem s - b'0' ≡ n * 10 + d = omega (arith, h.0) in
    rw digit (
      atoi_loop-decimal fuel (n * 10 + mem s - b'0') (s + 1) mem ds h.2 (omega arith)
      ∙ ap (λ m. some (m * 10 ^ length ds + decimal ds)) next
      ∙ ap some (shift n d (length ds) (decimal ds)))

-- Given fuel for the digits and the byte behind them, `atoi` returns their decimal value.
pub atoi-decimal :
    (fuel s : ℕ) (mem : Mem) (ds : List ℕ)
    → HoldsDigits mem s ds
    → length ds < fuel
    → atoi fuel s mem ≡ some (decimal ds)
unfolding atoi
atoi-decimal fuel s mem ds h f = atoi_loop-decimal fuel 0 s mem ds h f ∙ ap some (omega arith)
