-- ===== src/Spinlock.antt =====
-- kernel/spinlock.c on a machine of several cpus, which are numbers, as the locks are. `acquire` and
-- `release` are cut where another cpu can see the lock between two of its accesses: what `at` says is
-- where a cpu is in them.
pub mod Nesting
pub mod Exclusion
pub mod Roundtrip
mod Examples
use cs202lab.Prelude.{
  ℕ, zero, suc, ◌+◌, ◌-◌, Bool, true, false, not, ◌&&◌, ◌||◌, Option, none, some, ltb, ◌==◌,
  if◌then◌else◌, update,
}

-- The fields of `struct cpu` that locks use, and whether interrupts are on.
pub record Cpu : Type 0 where
  pub noff : ℕ
  pub intena : Bool
  pub sie : Bool

pub record Spinlock : Type 0 where
  pub locked : Bool
  pub holder : Option ℕ

-- `spinning lk`: before the swap; `taken lk`: behind it, before the cpu is written; `clearing lk`: the
-- cpu is cleared, the lock not yet.
pub data Place : Type 0 where
  running : Place
  spinning : ℕ → Place
  taken : ℕ → Place
  clearing : ℕ → Place

pub record Machine : Type 0 where
  pub cpu : ℕ → Cpu
  pub lock : ℕ → Spinlock
  pub at : ℕ → Place

pub initlock : ℕ → Machine → Machine
initlock lk m = record m { lock = update m.lock lk (record { locked = false; holder = none }) }

pub push_off : Cpu → Cpu
push_off c =
    let old = c.sie in
    let off = record c { sie = false } in
    let saved = if off.noff == 0 then record off { intena = old } else off in
    record saved { noff = saved.noff + 1 }

-- `none` is a panic, here and below.
pub pop_off : Cpu → Option Cpu
pop_off c =
    if c.sie
    then none
    else if ltb c.noff 1
    then none
    else (let d = record c { noff = c.noff - 1 } in
        some (if (d.noff == 0) && d.intena then record d { sie = true } else d))

abbrev pub is_cpu : Option ℕ → ℕ → Bool
is_cpu none i = false
is_cpu (some j) i = j == i

pub holding : ℕ → Spinlock → Bool
holding i lk = lk.locked && is_cpu lk.holder i

-- The start of `acquire` on cpu i.
pub acquire_enter : ℕ → ℕ → Machine → Option Machine
unfolding push_off holding
acquire_enter i lk m =
    let off = record m { cpu = update m.cpu i (push_off (m.cpu i)) } in
    if holding i (off.lock lk)
    then none
    else some (record off { at = update off.at i (spinning lk) })

-- One swap: the lock is set, and taken if it was clear.
pub acquire_try : ℕ → ℕ → Machine → Machine
acquire_try i lk m = record m {
  lock = update m.lock lk (record { locked = true; holder = (m.lock lk).holder });
  at = update m.at i (if (m.lock lk).locked then spinning lk else taken lk);
}

pub acquire_leave : ℕ → ℕ → Machine → Machine
acquire_leave i lk m = record m {
  lock = update m.lock lk (record { locked = (m.lock lk).locked; holder = some i });
  at = update m.at i running;
}

pub release_enter : ℕ → ℕ → Machine → Option Machine
unfolding holding
release_enter i lk m =
    if not (holding i (m.lock lk))
    then none
    else some (record m {
      lock = update m.lock lk (record { locked = (m.lock lk).locked; holder = none });
      at = update m.at i (clearing lk);
    })

pub release_leave : ℕ → ℕ → Machine → Option Machine
unfolding pop_off
release_leave i lk m =
    let clear = update m.lock lk (record { locked = false; holder = (m.lock lk).holder }) in
    elim (pop_off (m.cpu i)) [
      | none ↦ none
      | some c ↦ some (record { cpu = update m.cpu i c; lock = clear; at = update m.at i running })
    ]
