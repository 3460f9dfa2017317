-- ===== src/Ulib/Lengths.antt =====
-- `strlen` of user/ulib.c where memory has a string whose bytes nothing else is known of.
use cs202lab.Prelude.{ℕ, zero, suc, ◌+◌, ◌≤◌, ◌<◌, ◌≡◌, ◌≢◌, sym, ap, ◌∙◌, some, arith}
use cs202lab.KernelString.{Mem}
use cs202lab.Ulib.{strlen_from, strlen}

strlen_from-ends :
    (k fuel s m : ℕ) (mem : Mem)
    → ((i : ℕ) → s + m ≤ i → i < s + (m + k) → mem i ≢ 0)
    → mem (s + (m + k)) ≡ 0
    → k < fuel
    → strlen_from fuel s m mem ≡ some (m + k)
unfolding strlen_from
strlen_from-ends k zero s m mem h e f = absurd (omega arith)
strlen_from-ends zero (suc fuel) s m mem h e f =
    let e' : mem (s + m) ≡ 0 = (let q : s + m ≡ s + (m + 0) = omega arith in rw q e) in
    ground (arith, e')
strlen_from-ends (suc k) (suc fuel) s m mem h e f =
    let q : m + suc k ≡ m + 1 + k = omega arith in
    let nonzero = h (s + m) (omega arith) (omega arith) in
    let e' : mem (s + (m + 1 + k)) ≡ 0 = rw (sym q) e in
    let rest =
      strlen_from-ends k fuel s (m + 1) mem (λ i lo hi. h i (omega arith) (omega arith)) e'
        (omega arith) in
    ground (arith, nonzero, rest)

pub strlen-ends :
    (n fuel s : ℕ) (mem : Mem)
    → ((i : ℕ) → s ≤ i → i < s + n → mem i ≢ 0)
    → mem (s + n) ≡ 0
    → n < fuel
    → strlen fuel s mem ≡ some n
unfolding strlen
strlen-ends n fuel s mem h e f =
    let e' : mem (s + (0 + n)) ≡ 0 = (let q : 0 + n ≡ n = omega arith in rw q e) in
    strlen_from-ends n fuel s 0 mem (λ i lo hi. h i (omega arith) (omega arith)) e' f
    ∙ ap some (omega arith)
