-- ===== src/Uart.antt =====
-- The transmit side of kernel/uart.c. A call holds `uart_tx_lock` except while it sleeps. What the
-- device answers is an argument: `idle i` is LSR_TX_IDLE in the i-th read of LSR.
pub mod Queue
mod Examples
use cs202lab.Prelude.{
  ℕ, zero, suc, ◌+◌, ◌-◌, ◌%◌, ◌^◌, Bool, true, false, Option, none, some, List, [], ◌∷◌, ◌++◌,
  ◌==◌, if◌then◌else◌, update,
}

abbrev pub uart_tx_buf_size : ℕ
uart_tx_buf_size = 32

-- `uart_tx_buf` with its counters, the bytes written to THR so far, and the number of `wakeup` calls on
-- `&uart_tx_r`.
pub record Uart : Type 0 where
  pub buf : ℕ → ℕ
  pub tx_w : ℕ
  pub tx_r : ℕ
  pub sent : List ℕ
  pub woken : ℕ

abbrev pub add_u64 : ℕ → ℕ → ℕ
add_u64 a b = (a + b) % 2 ^ 64

-- uart_tx_buf[uart_tx_w % UART_TX_BUF_SIZE] = c; uart_tx_w += 1; the buffer is of `char`.
pub put_tx : Uart → ℕ → Uart
put_tx s c = record s {
  buf = update s.buf (s.tx_w % uart_tx_buf_size) (c % 256);
  tx_w = add_u64 s.tx_w 1;
}

-- A round of the loop of `uartstart` that sends a byte.
pub send : Uart → Uart
send s = record s {
  tx_r = add_u64 s.tx_r 1;
  sent = s.sent ++ s.buf (s.tx_r % uart_tx_buf_size) ∷ [];
  woken = s.woken + 1;
}

-- On fuel, from the i-th read of LSR on: `none` is more rounds than there is fuel for.
pub uartstart : (fuel : ℕ) (idle : ℕ → Bool) (i : ℕ) → Uart → Option Uart
uartstart zero idle i s = none
uartstart (suc k) idle i s =
    let rest = uartstart k idle (i + 1) (send s) in
    if s.tx_w == s.tx_r then some s else if idle i then rest else some s

-- Whether the loop of `uartputc` has to sleep.
pub is_full : Uart → Bool
is_full s = s.tx_w == add_u64 s.tx_r uart_tx_buf_size

-- A turn of `uartputc` after `acquire` or `sleep`: it spins for ever, where the kernel has panicked; it
-- sleeps in the state that it found; or it returns. `panicked` is tested at the first turn only.
pub data Turn : Type 0 where
  stuck : Turn
  asleep : Turn
  returned : Option Uart → Turn

-- The loop of `uartputc`, and what follows it.
pub put_or_sleep : (idle : ℕ → Bool) → ℕ → Uart → Turn
put_or_sleep idle c s =
    if is_full s
    then Turn.asleep
    else Turn.returned (uartstart (uart_tx_buf_size + 1) idle 0 (put_tx s c))

pub uartputc : (panicked : Bool) (idle : ℕ → Bool) → ℕ → Uart → Turn
unfolding put_or_sleep
uartputc panicked idle c s = if panicked then Turn.stuck else put_or_sleep idle c s
