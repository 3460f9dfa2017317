-- ===== src/Log/Reserve.antt =====
-- Space in the log (kernel/log.c): `begin_op` admits a system call only when the log has room for its
-- max_op_blocks blocks.
use cs202lab.Prelude.{
  ℕ, zero, suc, ◌+◌, ◌*◌, ◌≤◌, ◌<◌, ◌≡◌, refl, sym, ◌≢◌, ◌↔◌, ◌∙◌, ap, Bool, true, false, some,
  List, [], ◌∷◌, ◌++◌, arith, ltb, length, length-append, All, Bool-cases, inl, inr, ltb→ge,
}
use cs202lab.Log.Machine.{State, Run, M, done, panic, bpin}
use cs202lab.Log.{
  log_size, max_op_blocks, rounds, log_block, install_block, write_log, install_trans, commit,
  begin_op, end_op_enter, end_op_leave, log_write,
}
use cs202lab.Log.Crash
use cs202lab.Log.Crash.{
  Ends, returns, After, Cut, rounds-Ends, log_block-Writes, install_block-Writes, write_head-Writes,
  Ends-done,
}

-- What `commit` leaves alone, and the count that it resets.
record Settled (s t : State) : Type 0 where
  outstanding : t.outstanding ≡ s.outstanding
  committing : t.committing ≡ s.committing
  size : t.size ≡ s.size

module _ (s : State) where
  After-Settled : {a : ℕ} {x : ℕ → ℕ} {t u : State} → After a x t u → Settled s t → Settled s u
  After-Settled a h = record {
    outstanding = a.outstanding ∙ h.outstanding;
    committing = a.committing ∙ h.committing;
    size = a.size ∙ h.size;
  }

  abbrev Settles : Run (Unit {0}) → Type 0
  Settles r = Ends (λ _. Unit {0}) (λ _ t. Settled s t) r

  write-Settles :
      {a : ℕ} {x : ℕ → ℕ} {t : State} {r : Run (Unit {0})}
      → Settled s t
      → Ends (Cut t) (λ _ u. After a x t u) r
      → Settles r
  write-Settles h e = Crash.mono e (λ d c. tt) λ _ u a. After-Settled a h

  rounds-Settles :
      (body : ℕ → M (Unit {0})) (n : ℕ) {t : State}
      → ((i : ℕ) (u : State) → Settled s u → Settles (body i u))
      → Settled s t
      → Settles (rounds n 0 body t)
  rounds-Settles body n {t} step h =
      rounds-Ends (λ _ u. Settled s u) body n (λ i u lt. step i u) n 0 t (omega arith) h

  -- `commit` leaves the counts of the calls alone and ends with no block in the log.
  commit-Settled : Ends (λ _. Unit {0}) (λ _ t. Settled s t × (t.n ≡ 0)) (commit s)
  unfolding commit write_log install_trans
  commit-Settled = elim (Bool-cases (ltb 0 s.n)) [
    | inl more ↦ rw more (
        Crash.bind
          (rounds-Settles log_block s.n (λ i u h. write-Settles h (log_block-Writes u i))
            (record { outstanding = refl; committing = refl; size = refl }))
          λ _ t h. Crash.bind (write-Settles h (write_head-Writes t)) λ _ u g.
            Crash.bind
              (rounds-Settles (install_block false) u.n
                (λ i u h. write-Settles h (install_block-Writes u false i)) g)
              λ _ v k.
                Crash.mono (write_head-Writes (record v { n = 0 })) (λ d c. tt)
                  λ _ w a. (
                    record {
                      outstanding = a.outstanding ∙ k.outstanding;
                      committing = a.committing ∙ k.committing;
                      size = a.size ∙ k.size;
                    },
                    a.n,
                  ))
    | inr none_logged ↦ rw none_logged (
        returns (
          record { outstanding = refl; committing = refl; size = refl },
          omega (arith, ltb→ge _ _ none_logged),
        ))
  ]

abbrev pub sum : List ℕ → ℕ
sum [] = 0
sum (x ∷ xs) = x + sum xs

sum-append : (xs ys : List ℕ) → sum (xs ++ ys) ≡ sum xs + sum ys
sum-append [] ys = omega arith
sum-append (x ∷ xs) ys = omega (arith, sum-append xs ys)

-- The system calls between `begin_op` and `end_op`, each with the number of blocks that it may still
-- write, and the steps that they and the commit make under `log.lock`.
pub data Step : State → List ℕ → State → List ℕ → Type 0 where
  begin : {s t : State} {q : List ℕ} → begin_op s ≡ some t → Step s q t (max_op_blocks ∷ q)
  write :
      {s t : State} (l r : List ℕ) (k b : ℕ) {q q' : List ℕ}
      → log_write b s ≡ done tt t
      → q ≡ l ++ suc k ∷ r
      → q' ≡ l ++ k ∷ r
      → Step s q t q'
  end :
      {s t : State} (l r : List ℕ) (k : ℕ) (last : Bool) {q q' : List ℕ}
      → end_op_enter s ≡ done last t
      → q ≡ l ++ k ∷ r
      → q' ≡ l ++ r
      → Step s q t q'
  finish :
      {s t u : State} {q : List ℕ}
      → s.committing ≡ true
      → commit s ≡ done tt t
      → end_op_leave t ≡ done tt u
      → Step s q u q

pub data Reach : State → List ℕ → Type 0 where
  boot : {s : State} → s.n ≡ 0 → s.outstanding ≡ 0 → s.committing ≡ false → Reach s []
  next : {s t : State} {q r : List ℕ} → Reach s q → Step s q t r → Reach t r

-- The reservation.
pub record Reserved (s : State) (q : List ℕ) : Type 0 where
  pub room : s.n + sum q ≤ log_size
  pub calls : s.outstanding ≡ length q
  pub each : All (λ k. k ≤ max_op_blocks) q
  pub quiet : s.committing ≡ true → s.outstanding ≡ 0

log_write-counts :
    (b : ℕ) (s t : State)
    → log_write b s ≡ done tt t
    → (t.n ≤ s.n + 1)
      × (t.outstanding ≡ s.outstanding)
      × (t.committing ≡ s.committing)
      × (t.size ≡ s.size)
unfolding log_write bpin
log_write-counts b s t run = ground arith

module _ (P : ℕ → Type 0) where
  All-append : (xs ys : List ℕ) → All P (xs ++ ys) ↔ (All P xs × All P ys)
  All-append [] ys = (λ h. (tt, h), λ h. h.1)
  All-append (x ∷ xs) ys = (
    λ h. ((h.0, ((All-append xs ys).0 h.1).0), ((All-append xs ys).0 h.1).1),
    λ h. (h.0.0, (All-append xs ys).1 (h.0.1, h.1)),
  )

-- A reservation with one entry shown.
Reserved-write :
    {s t : State} (l r : List ℕ) (k b : ℕ)
    → log_write b s ≡ done tt t
    → Reserved s (l ++ suc k ∷ r)
    → Reserved t (l ++ k ∷ r)
Reserved-write {s} {t} l r k b run h =
    let c = log_write-counts b s t run in
    let parts = (All-append (λ k. k ≤ max_op_blocks) l (suc k ∷ r)).0 h.each in
    record {
      room = omega (arith, c.0, h.room, sum-append l (suc k ∷ r), sum-append l (k ∷ r));
      calls = omega (arith, c.1, h.calls, length-append l (suc k ∷ r), length-append l (k ∷ r));
      each = (All-append _ l (k ∷ r)).1 (parts.0, (omega (arith, parts.1.0), parts.1.1));
      quiet = λ e. c.1 ∙ h.quiet (sym c.2 ∙ e);
    }

Reserved-end :
    {s t : State} (l r : List ℕ) (k : ℕ) (last : Bool)
    → end_op_enter s ≡ done last t
    → Reserved s (l ++ k ∷ r)
    → Reserved t (l ++ r)
unfolding end_op_enter
Reserved-end {s} l r k last run h =
    let parts = (All-append (λ k. k ≤ max_op_blocks) l (k ∷ r)).0 h.each in
    record {
      room = ground (arith, h.room, sum-append l (k ∷ r), sum-append l r);
      calls = ground (arith, h.calls, length-append l (k ∷ r), length-append l r);
      each = (All-append _ l r).1 (parts.0, parts.1.1);
      quiet = ground (arith, h.quiet);
    }

sum-le : (q : List ℕ) → All (λ k. k ≤ max_op_blocks) q → sum q ≤ length q * max_op_blocks
sum-le [] h = omega arith
sum-le (x ∷ q) h = omega (arith, h.0, sum-le q h.1)

Reserved-begin :
    {s t : State} {q : List ℕ} → begin_op s ≡ some t → Reserved s q → Reserved t (max_op_blocks ∷ q)
unfolding begin_op
Reserved-begin {q} run h = record {
  room = ground (arith, h.room, h.calls, sum-le q h.each);
  calls = ground (arith, h.calls);
  each = (omega arith, h.each);
  quiet = ground arith;
}

Reserved-finish :
    {s t u : State} {q : List ℕ}
    → commit s ≡ done tt t
    → end_op_leave t ≡ done tt u
    → Reserved s q
    → Reserved u q
unfolding end_op_leave
Reserved-finish {s} run left h =
    let (c, zero_n) = Ends-done (commit-Settled s) run in
    record {
      room = ground (arith, h.room, zero_n);
      calls = ground (arith, h.calls, c.outstanding);
      each = h.each;
      quiet = ground arith;
    }

-- Every step keeps the reservation.
Step-Reserved : {s t : State} {q r : List ℕ} → Step s q t r → Reserved s q → Reserved t r
Step-Reserved (begin run) h = Reserved-begin run h
Step-Reserved {s} {t} (write l r k b run e e') h = rw e' (Reserved-write l r k b run (rw e at h))
Step-Reserved {s} {t} (end l r k last run e e') h = rw e' (Reserved-end l r k last run (rw e at h))
Step-Reserved (finish on run left) h = Reserved-finish run left h

pub Reach-Reserved : {s : State} {q : List ℕ} → Reach s q → Reserved s q
Reach-Reserved (boot empty idle quiet) = record {
  room = omega (arith, empty);
  calls = idle;
  each = tt;
  quiet = λ e. cc;
}
Reach-Reserved (next r st) = Step-Reserved st (Reach-Reserved r)

module _ {s : State} {q : List ℕ} (h : Reserved s q) where
  -- A call with blocks left can write another where the log has room for it: `log_write` does not
  -- panic.
  log_write-Reserved :
      (l r : List ℕ) (k b : ℕ)
      → q ≡ l ++ suc k ∷ r
      → log_size + 1 < s.size + suc k
      → log_write b s ≢ panic
  unfolding log_write bpin
  log_write-Reserved l r k b e fits = ground (
    arith,
    fits,
    h.room,
    h.calls,
    sum-append l (suc k ∷ r),
    length-append l (suc k ∷ r),
    ap sum e,
    ap length e,
  )

  end_op-Reserved : (l r : List ℕ) (k : ℕ) → q ≡ l ++ k ∷ r → end_op_enter s ≢ panic
  unfolding end_op_enter
  end_op-Reserved l r k e = ground (arith, h.calls, h.quiet, ap length e, length-append l (k ∷ r))

-- In every state that the system calls reach from an empty log, in any order, a call with k of its
-- max_op_blocks blocks left, k not 0, can write one more if log_size + 1 < log.size + k, and every call
-- can end: neither `log_write` nor `end_op` panics. On a log of more than log_size blocks these are all
-- the blocks of the call, and on the log of log_size blocks that mkfs makes all but the last.
pub log_never_panics :
    {s : State} {q : List ℕ} (l r : List ℕ) (k : ℕ)
    → Reach s q
    → q ≡ l ++ k ∷ r
    → (0 < k → log_size + 1 < s.size + k → (b : ℕ) → log_write b s ≢ panic)
      × (end_op_enter s ≢ panic)
log_never_panics l r zero reach e =
    (λ pos. absurd (omega arith), end_op-Reserved (Reach-Reserved reach) l r _ e)
log_never_panics l r (suc k) reach e = (
  λ pos fits b. log_write-Reserved (Reach-Reserved reach) l r k b e fits,
  end_op-Reserved (Reach-Reserved reach) l r _ e,
)
