-- ===== src/Sleeplock.antt =====
-- kernel/sleeplock.c. The spin lock inside is held for all of a call, up to a sleep, and is not part of
-- the model; `me` is the pid of the caller.
pub mod Exclusion
mod Examples
use cs202lab.Prelude.{ℕ, ◌+◌, Bool, true, false, ◌&&◌, Option, none, some, ◌==◌, if◌then◌else◌}

-- `struct sleeplock`, with the number of `wakeup(lk)` calls.
pub record Sleeplock : Type 0 where
  pub locked : Bool
  pub pid : ℕ
  pub woken : ℕ

unfoldable pub initsleeplock : Sleeplock
initsleeplock = record { locked = false; pid = 0; woken = 0 }

-- One turn of the loop of `acquiresleep`; `none`: the caller sleeps, and tries again when it is woken.
unfoldable pub acquiresleep : (me : ℕ) → Sleeplock → Option Sleeplock
acquiresleep me lk = if lk.locked then none else some (record lk { locked = true; pid = me })

unfoldable pub releasesleep : Sleeplock → Sleeplock
releasesleep lk = record { locked = false; pid = 0; woken = lk.woken + 1 }

unfoldable pub holdingsleep : (me : ℕ) → Sleeplock → Bool
holdingsleep me lk = lk.locked && (lk.pid == me)
