-- ===== src/Spinlock/Exclusion.antt =====
-- No two cpus have a lock of kernel/spinlock.c, however their steps interleave.
use cs202lab.Prelude.{
  Option-cases, ℕ, ◌≡◌, inl, inr, Bool, true, false, ◌||◌, none, some, arith, ◌==◌, update,
}
use cs202lab.Spinlock.{
  Cpu, Place, running, spinning, taken, clearing, Machine, is_cpu, holding, acquire_enter,
  acquire_try, acquire_leave, release_enter, release_leave,
}

-- The lock is a cpu's from the swap of `acquire` to the store of `release`.
abbrev pub inside : Place → ℕ → Bool
inside running lk = false
inside (spinning l) lk = false
inside (taken l) lk = l == lk
inside (clearing l) lk = l == lk

abbrev pub has_lock : Machine → ℕ → ℕ → Bool
has_lock m i lk = is_cpu (m.lock lk).holder i || inside (m.at i) lk

-- What cpu i does next. Between its calls it changes its own state as it likes.
pub data Step (i : ℕ) (m : Machine) : Machine → Type 0 where
  enter : {n : Machine} (lk : ℕ) → m.at i ≡ running → acquire_enter i lk m ≡ some n → Step i m n
  try : (lk : ℕ) → m.at i ≡ spinning lk → Step i m (acquire_try i lk m)
  got : (lk : ℕ) → m.at i ≡ taken lk → Step i m (acquire_leave i lk m)
  let_go : {n : Machine} (lk : ℕ) → m.at i ≡ running → release_enter i lk m ≡ some n → Step i m n
  leave : {n : Machine} (lk : ℕ) → m.at i ≡ clearing lk → release_leave i lk m ≡ some n → Step i m n
  other : (c : Cpu) → m.at i ≡ running → Step i m (record m { cpu = update m.cpu i c })

-- From a machine on which no cpu has or wants a lock.
pub data Reach : Machine → Type 0 where
  boot :
      (m : Machine)
      → ((i : ℕ) → m.at i ≡ running)
      → ((lk : ℕ) → (m.lock lk).holder ≡ none)
      → Reach m
  next : {m n : Machine} (i : ℕ) → Reach m → Step i m n → Reach n

record Excludes (m : Machine) : Type 0 where
  locked : (i lk : ℕ) → has_lock m i lk ≡ true → (m.lock lk).locked ≡ true
  one : (i j lk : ℕ) → has_lock m i lk ≡ true → has_lock m j lk ≡ true → i ≡ j
  gap : (i lk : ℕ) → inside (m.at i) lk ≡ true → (m.lock lk).holder ≡ none

module _ {m : Machine} (h : Excludes m) (i lk : ℕ) where
  -- A lock that is clear has no holder.
  no_holder : (m.lock lk).locked ≡ false → (m.lock lk).holder ≡ none
  no_holder clear = elim (Option-cases (m.lock lk).holder) [
    | inl e ↦ e
    | inr (j, e) ↦ absurd (ground (arith, h.locked j lk, e, clear))
  ]

  enter-Excludes : {n : Machine} → acquire_enter i lk m ≡ some n → Excludes n
  unfolding acquire_enter
  enter-Excludes e = record {
    locked = λ j l c. ground (arith, h.locked j l, e);
    one = λ j k l c d. ground (arith, h.one j k l, e);
    gap = λ j l c. ground (arith, h.gap j l, e);
  }

  try-Excludes : Excludes (acquire_try i lk m)
  unfolding acquire_try
  try-Excludes = record {
    locked = λ j l c. ground (arith, h.locked j l);
    one = λ j k l c d. ground (arith, h.locked j l, h.locked k l, h.one j k l);
    gap = λ j l c. ground (arith, h.gap j l, no_holder);
  }

  got-Excludes : m.at i ≡ taken lk → Excludes (acquire_leave i lk m)
  unfolding acquire_leave
  got-Excludes p = record {
    locked = λ j l c. ground (arith, h.locked j l, h.locked i l, p);
    one = λ j k l c d. ground (arith, h.one j k l, h.one i k l, h.one j i l, p);
    gap = λ j l c. ground (arith, h.gap j l, h.one j i l, p);
  }

  let_go-Excludes : {n : Machine} → m.at i ≡ running → release_enter i lk m ≡ some n → Excludes n
  unfolding release_enter holding
  let_go-Excludes p e = record {
    locked = λ j l c. ground (arith, h.locked j l, h.locked i l, e);
    one = λ j k l c d. ground (arith, h.one j k l, h.one i k l, h.one j i l, e);
    gap = λ j l c. ground (arith, h.gap j l, h.one j i l, e);
  }

  leave-Excludes : {n : Machine} → m.at i ≡ clearing lk → release_leave i lk m ≡ some n → Excludes n
  unfolding release_leave
  leave-Excludes p e = record {
    locked = λ j l c. ground (arith, h.locked j l, h.one j i l, h.gap i l, p, e);
    one = λ j k l c d. ground (arith, h.one j k l, p, e);
    gap = λ j l c. ground (arith, h.gap j l, p, e);
  }

  other-Excludes : (c : Cpu) → Excludes (record m { cpu = update m.cpu i c })
  other-Excludes c = record { locked = h.locked; one = h.one; gap = h.gap }

Step-Excludes : {i : ℕ} {m n : Machine} → Step i m n → Excludes m → Excludes n
Step-Excludes {i} (enter lk p e) h = enter-Excludes h i lk e
Step-Excludes {i} (try lk p) h = try-Excludes h i lk
Step-Excludes {i} (got lk p) h = got-Excludes h i lk p
Step-Excludes {i} (let_go lk p e) h = let_go-Excludes h i lk p e
Step-Excludes {i} (leave lk p e) h = leave-Excludes h i lk p e
Step-Excludes {i} (other c p) h = other-Excludes h i 0 c

Reach-Excludes : {m : Machine} → Reach m → Excludes m
Reach-Excludes (boot m idle free) = record {
  locked = λ j l c. ground (arith, idle j, free l);
  one = λ j k l c d. ground (arith, idle j, free l);
  gap = λ j l c. free l;
}
Reach-Excludes (next i r st) = Step-Excludes st (Reach-Excludes r)

-- In every machine that the cpus reach, whatever their steps and in whatever order: two cpus that
-- have a lock, from the swap that took it to the store that clears it, are one and the same.
pub mutual_exclusion :
    {m : Machine} (i j lk : ℕ) → Reach m → has_lock m i lk ≡ true → has_lock m j lk ≡ true → i ≡ j
mutual_exclusion i j lk r p q = (Reach-Excludes r).one i j lk p q
