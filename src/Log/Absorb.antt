-- ===== src/Log/Absorb.antt =====
-- `log_write` of kernel/log.c: a block is listed once, however often it is written.
use cs202lab.Prelude.{
  ℕ, zero, suc, ◌+◌, ◌≤◌, ◌<◌, ◌≡◌, refl, ◌≢◌, ◌⊎◌, ◌↔◌, inl, inr, true, false, arith, ◌==◌,
  if◌then◌else◌, update, ap, Bool-cases, ==→eq,
}
use cs202lab.Log.Machine.{State, done, bpin}
use cs202lab.Log.{find_block, log_write}
use cs202lab.Log.Phases.{Listed}

-- The result of the search: the first place of `b`, or the end.
record Found (n i : ℕ) (block : ℕ → ℕ) (b k : ℕ) : Type 0 where
  from : i ≤ k
  to : k ≤ i + n
  hit : k < i + n → block k ≡ b
  before : (j : ℕ) → i ≤ j → j < k → block j ≢ b

find_block-Found : (n i : ℕ) (block : ℕ → ℕ) (b : ℕ) → Found n i block b (find_block n i block b)
unfolding find_block
find_block-Found zero i block b = record {
  from = omega arith;
  to = omega arith;
  hit = λ lt. absurd (omega arith);
  before = λ j l u. absurd (omega arith);
}
find_block-Found (suc n) i block b =
    elim (block i == b)
        as (λ t.
          (block i == b) ≡ t
          → Found (suc n) i block b (elim t [ true ↦ i | false ↦ find_block n (i + 1) block b ])) [
            | true ↦ λ e. record {
              from = omega arith;
              to = omega arith;
              hit = λ lt. ==→eq _ _ e;
              before = λ j l u. absurd (omega arith);
            }
            | false ↦ λ e.
                let r = find_block-Found n (i + 1) block b in
                record {
                  from = omega (arith, r.from);
                  to = omega (arith, r.to);
                  hit = λ lt. r.hit (omega arith);
                  before = λ j l u same. elim (Bool-cases (j == i)) [
                    | inl h ↦ ground (arith, e)
                    | inr h ↦ r.before j (ground arith) u same
                  ];
                }
          ]
      refl

abbrev pub Distinct : ℕ → (ℕ → ℕ) → Type 0
Distinct n block = (i j : ℕ) → i < j → j < n → block i ≢ block j

-- What a `log_write` that returns did.
record Logged (b : ℕ) (s t : State) (k : ℕ) : Type 0 where
  block : t.block ≡ update s.block k b
  count : t.n ≡ (if k == s.n then s.n + 1 else s.n)
  refcnt : t.refcnt ≡ (if k == s.n then update s.refcnt b (s.refcnt b + 1) else s.refcnt)

log_write-Logged :
    (b : ℕ) {s t : State} → log_write b s ≡ done tt t → Logged b s t (find_block s.n 0 s.block b)
unfolding log_write bpin
log_write-Logged b {s} run = record {
  block = ground (arith, find_block-Found s.n 0 s.block b);
  count = ground arith;
  refcnt = ground arith;
}

module _ (b : ℕ) (s t : State) (run : log_write b s ≡ done tt t) where
  -- After a `log_write` that returns the log lists the blocks that it listed before, and `b`.
  pub log_write-Listed : (x : ℕ) → Listed t.n t.block x ↔ (Listed s.n s.block x ⊎ (x ≡ b))
  log_write-Listed x = (to, from)
    where
      k : ℕ
      k = find_block s.n 0 s.block b

      w : Logged b s t k
      w = log_write-Logged b run

      found : Found s.n 0 s.block b k
      found = find_block-Found s.n 0 s.block b

      at : (i : ℕ) → t.block i ≡ (if i == k then b else s.block i)
      at i = ap (λ (f : ℕ → ℕ). f i) w.block

      to : Listed t.n t.block x → Listed s.n s.block x ⊎ (x ≡ b)
      to (i, lt, e) = elim (Bool-cases (i == k)) [
        | inl same ↦ inr (ground (arith, at i))
        | inr other ↦ inl (i, ground (arith, w.count, found.to), ground (arith, at i))
      ]

      from : Listed s.n s.block x ⊎ (x ≡ b) → Listed t.n t.block x
      from (inl (i, lt, e)) =
          (i, ground (arith, w.count, found.to), ground (arith, at i, found.hit))
      from (inr e) = (k, ground (arith, w.count, found.to), ground (arith, at k))

  -- It keeps the listed blocks distinct: a block that is logged already is absorbed.
  pub log_write-Distinct : Distinct s.n s.block → Distinct t.n t.block
  log_write-Distinct d i j l u = ground (
    arith,
    ap (λ (f : ℕ → ℕ). f i) w.block,
    ap (λ (f : ℕ → ℕ). f j) w.block,
    w.count,
    found.to,
    found.hit,
    found.before i,
    d i j,
  )
    where
      w : Logged b s t (find_block s.n 0 s.block b)
      w = log_write-Logged b run

      found : Found s.n 0 s.block b (find_block s.n 0 s.block b)
      found = find_block-Found s.n 0 s.block b
