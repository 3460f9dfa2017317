-- ===== src/Uart/Queue.antt =====
-- The ring of kernel/uart.c is a queue: bytes go out in the order in which they came, none twice.
use cs202lab.Prelude.{
  ℕ, zero, suc, ◌+◌, ◌-◌, ◌%◌, ◌^◌, ◌≤◌, ◌<◌, ◌≡◌, refl, sym, ◌∙◌, ap, ◌⊎◌, inl, inr, Bool, true,
  false, Option, some, List, [], ◌∷◌, ◌++◌, append_assoc, arith, ◌==◌, update, Bool-cases, ==→eq,
  ==→ne,
}
use cs202lab.Uart.{
  uart_tx_buf_size, Uart, add_u64, put_tx, send, uartstart, is_full, Turn, put_or_sleep, uartputc,
}

-- The bytes in use.
abbrev pub used : Uart → ℕ
used s = (s.tx_w + 2 ^ 64 - s.tx_r) % 2 ^ 64

pub record IsValid (s : Uart) : Type 0 where
  pub tx_w : s.tx_w < 2 ^ 64
  pub tx_r : s.tx_r < 2 ^ 64
  pub small : used s ≤ uart_tx_buf_size

abbrev pub waiting_from : (ℕ → ℕ) → ℕ → ℕ → List ℕ
waiting_from buf r zero = []
waiting_from buf r (suc n) = buf (r % uart_tx_buf_size) ∷ waiting_from buf (add_u64 r 1) n

-- The bytes that wait to be sent.
abbrev pub waiting : Uart → List ℕ
waiting s = waiting_from s.buf s.tx_r (used s)

waiting_from-put :
    (buf : ℕ → ℕ) (c n r w : ℕ)
    → r < 2 ^ 64
    → n < uart_tx_buf_size
    → w ≡ add_u64 r n
    → waiting_from (update buf (w % uart_tx_buf_size) c) r (suc n) ≡ waiting_from buf r n ++ c ∷ []
waiting_from-put buf c zero r w hr hn e = ground arith
waiting_from-put buf c (suc n) r w hr hn e =
    ground
      (arith, waiting_from-put buf c n (add_u64 r 1) w (omega arith) (omega arith) (omega arith))

module _ {s : Uart} (v : IsValid s) where
  full_iff : is_full s ≡ (used s == uart_tx_buf_size)
  unfolding is_full
  full_iff = ground (arith, v.small, v.tx_w, v.tx_r)

  empty_iff : (s.tx_w == s.tx_r) ≡ (used s == 0)
  empty_iff = ground (arith, v.tx_w, v.tx_r)

  put_tx-IsValid :
      (c : ℕ) → used s < uart_tx_buf_size → IsValid (put_tx s c) × (used (put_tx s c) ≡ used s + 1)
  unfolding put_tx
  put_tx-IsValid c h = omega (arith, v.tx_w, v.tx_r)

  waiting-put_tx :
      (c : ℕ) → used s < uart_tx_buf_size → waiting (put_tx s c) ≡ waiting s ++ c % 256 ∷ []
  unfolding put_tx
  waiting-put_tx c h =
      let grows : used (put_tx s c) ≡ suc (used s) = omega (arith, (put_tx-IsValid c h).1) in
      ap (λ k. waiting_from (update s.buf (s.tx_w % uart_tx_buf_size) (c % 256)) s.tx_r k) grows
      ∙ waiting_from-put s.buf (c % 256) (used s) s.tx_r s.tx_w v.tx_r h
          (omega (arith, v.tx_w, v.tx_r))

  send-IsValid : 0 < used s → IsValid (send s) × (used (send s) + 1 ≡ used s)
  unfolding send
  send-IsValid h = omega (arith, v.tx_w, v.tx_r, v.small)

  waiting-send : (n : ℕ) → used s ≡ suc n → (send s).sent ++ waiting (send s) ≡ s.sent ++ waiting s
  unfolding send
  waiting-send n e =
      let less : used (send s) ≡ n = omega (arith, (send-IsValid (omega arith)).1) in
      let b = s.buf (s.tx_r % uart_tx_buf_size) in
      append_assoc s.sent (b ∷ []) (waiting (send s))
      ∙ ap (λ k. s.sent ++ b ∷ waiting_from s.buf (add_u64 s.tx_r 1) k) less
      ∙ ap (λ k. s.sent ++ waiting_from s.buf s.tx_r k) (sym e)

woken-send : (s : Uart) → (send s).woken ≡ s.woken + 1
unfolding send
woken-send s = refl

-- What `uartstart` leaves: all bytes in order, and it stopped when none waits or the device was busy.
pub record Started (s : Uart) (idle : ℕ → Bool) (i : ℕ) (r : Option Uart) : Type 0 where
  pub after : Uart
  pub result : r ≡ some after
  pub valid : IsValid after
  pub kept : after.sent ++ waiting after ≡ s.sent ++ waiting s
  pub count : ℕ
  pub gone : used after + count ≡ used s
  pub awake : after.woken ≡ s.woken + count
  pub stopped : (used after ≡ 0) ⊎ (idle (i + count) ≡ false)

stay :
    (s : Uart) (idle : ℕ → Bool) (i : ℕ)
    → IsValid s
    → (used s ≡ 0) ⊎ (idle i ≡ false)
    → Started s idle i (some s)
stay s idle i v why = record {
  after = s;
  result = refl;
  valid = v;
  kept = refl;
  count = 0;
  gone = omega arith;
  awake = omega arith;
  stopped = (let e : i + 0 ≡ i = omega arith in rw e why);
}

again :
    (s : Uart) (idle : ℕ → Bool) (i : ℕ) {r : Option Uart}
    → IsValid s
    → 0 < used s
    → Started (send s) idle (i + 1) r
    → Started s idle i r
again s idle i v many rest =
    let (valid, less) = send-IsValid v many in
    record {
      after = rest.after;
      result = rest.result;
      valid = rest.valid;
      kept = rest.kept ∙ waiting-send v (used s - 1) (omega arith);
      count = suc rest.count;
      gone = omega (arith, rest.gone, less);
      awake = omega (arith, rest.awake, woken-send s);
      stopped =
          (let e : i + suc rest.count ≡ i + 1 + rest.count = omega arith in rw e rest.stopped);
    }

pub uartstart-Started :
    (k : ℕ) (idle : ℕ → Bool) (i : ℕ) (s : Uart)
    → IsValid s
    → used s < k
    → Started s idle i (uartstart k idle i s)
unfolding uartstart
uartstart-Started zero idle i s v h = absurd (omega arith)
uartstart-Started (suc k) idle i s v h = elim (Bool-cases (s.tx_w == s.tx_r)) [
  | inl empty ↦
      rw (uartstart, empty) (stay s idle i v (inl (omega (arith, ==→eq _ _ empty, v.tx_w))))
  | inr some_wait ↦ elim (Bool-cases (idle i)) [
    | inr busy ↦ rw (uartstart, some_wait, busy) (stay s idle i v (inr busy))
    | inl ready ↦
        let many : 0 < used s = ground (arith, v.tx_w, v.tx_r, some_wait) in
        let (valid, less) = send-IsValid v many in
        let rest = uartstart-Started k idle (i + 1) (send s) valid (omega arith) in
        rw (uartstart, some_wait, ready) (again s idle i v many rest)
  ]
]

put_tx-sent : (s : Uart) (c : ℕ) → (put_tx s c).sent ≡ s.sent
unfolding put_tx
put_tx-sent s c = refl

-- A byte that a call of `uartputc` took in, behind those that had come before it.
pub record Taken (idle : ℕ → Bool) (c : ℕ) (s : Uart) (r : Option Uart) : Type 0 where
  pub room : used s < uart_tx_buf_size
  pub started : Started (put_tx s c) idle 0 r
  pub queued : started.after.sent ++ waiting started.after ≡ (s.sent ++ waiting s) ++ c % 256 ∷ []

-- What a turn of the loop does, and what a call does.
abbrev PutsOrSleeps : (idle : ℕ → Bool) (c : ℕ) (s : Uart) → Turn → Type 0
PutsOrSleeps idle c s Turn.stuck = ⊥
PutsOrSleeps idle c s Turn.asleep = used s ≡ uart_tx_buf_size
PutsOrSleeps idle c s (Turn.returned r) = Taken idle c s r

abbrev pub Puts : (panicked : Bool) (idle : ℕ → Bool) (c : ℕ) (s : Uart) → Turn → Type 0
Puts panicked idle c s Turn.stuck = panicked ≡ true
Puts panicked idle c s Turn.asleep = (panicked ≡ false) × (used s ≡ uart_tx_buf_size)
Puts panicked idle c s (Turn.returned r) = (panicked ≡ false) × Taken idle c s r

put_or_sleep-PutsOrSleeps :
    (idle : ℕ → Bool) (c : ℕ) (s : Uart) → IsValid s → PutsOrSleeps idle c s (put_or_sleep idle c s)
unfolding put_or_sleep
put_or_sleep-PutsOrSleeps idle c s v = elim (Bool-cases (is_full s)) [
  | inl full ↦ rw (put_or_sleep, full) (==→eq _ _ (sym (full_iff v) ∙ full))
  | inr free ↦
      let less : used s < uart_tx_buf_size =
        omega (arith, ==→ne _ _ (sym (full_iff v) ∙ free), v.small) in
      let (valid, more) = put_tx-IsValid v c less in
      let start = uartstart-Started 33 idle 0 (put_tx s c) valid (omega arith) in
      rw (put_or_sleep, free)
        (record {
          room = less;
          started = start;
          queued =
              start.kept
              ∙ ap (λ l. l ++ waiting (put_tx s c)) (put_tx-sent s c)
              ∙ ap (λ l. s.sent ++ l) (waiting-put_tx v c less)
              ∙ sym (append_assoc s.sent (waiting s) (c % 256 ∷ []));
        })
]

Puts-alive :
    (idle : ℕ → Bool) (c : ℕ) (s : Uart) (t : Turn)
    → PutsOrSleeps idle c s t
    → Puts false idle c s t
Puts-alive idle c s Turn.stuck p = absurd p
Puts-alive idle c s Turn.asleep p = (refl, p)
Puts-alive idle c s (Turn.returned r) p = (refl, p)

-- `uartputc` spins for ever exactly if the kernel has panicked. Otherwise it sleeps exactly when the
-- ring is full, or it returns: the bytes sent and those that wait are, in this order, the ones before
-- and then the low byte of the new one; the ring is valid, and bytes wait in it only if the device was
-- busy.
pub uartputc-Puts :
    (panicked : Bool) (idle : ℕ → Bool) (c : ℕ) (s : Uart)
    → IsValid s
    → Puts panicked idle c s (uartputc panicked idle c s)
unfolding uartputc
uartputc-Puts true idle c s v = refl
uartputc-Puts false idle c s v =
    Puts-alive idle c s (put_or_sleep idle c s) (put_or_sleep-PutsOrSleeps idle c s v)
