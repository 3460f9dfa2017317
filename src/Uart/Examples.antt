-- ===== src/Uart/Examples.antt =====
-- A ring of kernel/uart.c whose counters are about to wrap around.
use cs202lab.Prelude.{ℕ, ◌-◌, ◌^◌, ◌≡◌, refl, false, some, List, [], ◌∷◌, arith, ltb}
use cs202lab.Uart.{Uart, Turn, put_tx, send, uartstart, is_full, put_or_sleep, uartputc}
use cs202lab.Uart.Queue.{Puts, uartputc-Puts}

abbrev wrapping : Uart
wrapping = record { buf = λ i. i; tx_w = 1; tx_r = 2 ^ 64 - 2; sent = b'a' ∷ []; woken = 0 }

abbrev bytes : Turn → List ℕ
bytes (Turn.returned (some s)) = s.sent
bytes t = []

-- The device takes two bytes: buf[30] and buf[31].
two_sent : bytes (uartputc false (λ i. ltb i 2) b'b' wrapping) ≡ b'a' ∷ 30 ∷ 31 ∷ []
unfolding uartputc put_or_sleep uartstart is_full put_tx send
two_sent = refl

uartputc-Puts_example :
    Puts false (λ i. ltb i 2) b'b' wrapping (uartputc false (λ i. ltb i 2) b'b' wrapping)
uartputc-Puts_example =
    uartputc-Puts false (λ i. ltb i 2) b'b' wrapping
      (record { tx_w = omega arith; tx_r = omega arith; small = omega arith })
