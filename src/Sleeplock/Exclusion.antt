-- ===== src/Sleeplock/Exclusion.antt =====
-- Processes that take and release a lock of kernel/sleeplock.c in any order.
use cs202lab.Prelude.{
  ℕ, Bool, true, false, ◌≡◌, refl, none, some, update, arith, ltb, if◌then◌else◌,
}
use cs202lab.Sleeplock.{Sleeplock, initsleeplock, acquiresleep, releasesleep, holdingsleep}

-- The lock, and which processes are past `acquiresleep` or asleep in it.
pub record State : Type 0 where
  pub lock : Sleeplock
  pub inside : ℕ → Bool
  pub asleep : ℕ → Bool

-- A process that is awake and outside takes a turn in `acquiresleep`.
unfoldable pub try : ℕ → State → State
try p s = elim (acquiresleep p s.lock) [
  | none ↦ record s { asleep = update s.asleep p true }
  | some lk ↦ record s { lock = lk; inside = update s.inside p true }
]

-- A process releases the lock. Those that sleep on it run again if `wakeup` was called.
unfoldable pub leave : ℕ → State → State
leave p s =
    let lk = releasesleep s.lock in
    record s {
      lock = lk;
      inside = update s.inside p false;
      asleep = λ q. if ltb s.lock.woken lk.woken then false else s.asleep q;
    }

-- The states that are reached when only a process that is inside releases the lock.
pub data Reach : State → Type 0 where
  start :
      (s : State)
      → s.lock ≡ initsleeplock
      → ((p : ℕ) → s.inside p ≡ false)
      → ((p : ℕ) → s.asleep p ≡ false)
      → Reach s
  tries : {s : State} (p : ℕ) → Reach s → s.inside p ≡ false → s.asleep p ≡ false → Reach (try p s)
  leaves : {s : State} (p : ℕ) → Reach s → s.inside p ≡ true → Reach (leave p s)

-- In every state that is reached, the processes inside are those for which `holdingsleep` holds, so
-- that there is one at most, and a process sleeps only while the lock is held.
pub Reach-exclusion :
    {s : State}
    → Reach s
    → (p : ℕ) → (s.inside p ≡ holdingsleep p s.lock) × (s.asleep p ≡ true → s.lock.locked ≡ true)
unfolding initsleeplock acquiresleep releasesleep holdingsleep try leave
Reach-exclusion (start s e out up) p = rw e (rw (out p) (refl, λ a. ground (arith, a, up p)))
Reach-exclusion (tries {s} q r out up) p = ground (arith, Reach-exclusion r p, Reach-exclusion r q)
Reach-exclusion (leaves {s} q r i) p = ground (arith, Reach-exclusion r p, Reach-exclusion r q)
