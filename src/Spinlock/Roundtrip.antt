-- ===== src/Spinlock/Roundtrip.antt =====
-- One cpu takes and releases a free lock of kernel/spinlock.c.
use cs202lab.Prelude.{
  if◌then◌else◌, ap, subst, ◌∙◌, ℕ, ◌≡◌, refl, true, false, Option, none, some, arith, update,
}
use cs202lab.Spinlock.{
  Cpu, running, spinning, clearing, Machine, push_off, pop_off, holding, acquire_enter, acquire_try,
  acquire_leave, release_enter, release_leave,
}
use cs202lab.Spinlock.Nesting.{IsValid, Restored, pop_off-Restored}

-- `acquire` where no other cpu takes a step: `none` is a panic, or that it spins for ever since nobody
-- clears the lock.
abbrev pub acquire : ℕ → ℕ → Machine → Option Machine
acquire i lk m = elim (acquire_enter i lk m) [
  | none ↦ none
  | some a ↦ if (a.lock lk).locked then none else some (acquire_leave i lk (acquire_try i lk a))
]

abbrev pub release : ℕ → ℕ → Machine → Option Machine
release i lk m = elim (release_enter i lk m) [ none ↦ none | some a ↦ release_leave i lk a ]

-- `acquire` and `release` with nothing in between, and the machines `b` inside and `c` afterwards.
pub record TakesAndReleases (i lk : ℕ) (m b c : Machine) : Type 0 where
  pub acquires : acquire i lk m ≡ some b
  pub held : holding i (b.lock lk) ≡ true
  pub masked : (b.cpu i).sie ≡ false
  pub releases : release i lk b ≡ some c
  pub free : (c.lock lk).locked ≡ false
  pub restored : Restored (m.cpu i) (c.cpu i)
  pub returned : c.at i ≡ running

leave_of :
    (i lk : ℕ) (m : Machine) (d : Cpu)
    → pop_off (m.cpu i) ≡ some d
    → release_leave i lk m
      ≡ some (record {
        cpu = update m.cpu i d;
        lock = update m.lock lk (record { locked = false; holder = (m.lock lk).holder });
        at = update m.at i running;
      })
unfolding release_leave
leave_of i lk m d e = rw (e, release_leave) refl

release_of :
    (i lk : ℕ) (m n : Machine)
    → release_enter i lk m ≡ some n
    → release i lk m ≡ release_leave i lk n
release_of i lk m n e = rw (e, release) refl

push_off-masked : (c : Cpu) → (push_off c).sie ≡ false
unfolding push_off
push_off-masked c = ground arith

-- A cpu that acquires a free lock holds it, with interrupts off, and does not panic; nor does it when it
-- releases the lock: then the lock is free, and depth and interrupts are as before.
pub acquire-release :
    (i lk : ℕ) (m : Machine)
    → (m.lock lk).locked ≡ false
    → IsValid (m.cpu i)
    → (b c : Machine) × TakesAndReleases i lk m b c
unfolding acquire_enter acquire_try acquire_leave release_enter release_leave holding push_off
acquire-release i lk m clear v =
    let b = acquire_leave i lk (
      acquire_try i lk (record m {
        cpu = update m.cpu i (push_off (m.cpu i));
        at = update m.at i (spinning lk);
      })) in
    let (d, pops, r) =
      pop_off-Restored (m.cpu i) (push_off (m.cpu i)) v
        (record { noff = refl; sie = refl; intena = λ h. refl }) in
    let a : Machine = record b {
      lock = update b.lock lk (record { locked = (b.lock lk).locked; holder = none });
      at = update b.at i (clearing lk);
    } in
    let c : Machine = record {
      cpu = update a.cpu i d;
      lock = update a.lock lk (record { locked = false; holder = (a.lock lk).holder });
      at = update a.at i running;
    } in
    let masked_cpu : b.cpu i ≡ push_off (m.cpu i) = ground arith in
    let entered : release_enter i lk b ≡ some a = ground arith in
    let left : release_leave i lk a ≡ some c = leave_of i lk a d (ap pop_off masked_cpu ∙ pops) in
    let restored_cpu : d ≡ c.cpu i = ground arith in
    (
      b,
      c,
      record {
        acquires = ground (arith, clear);
        held = ground arith;
        masked = ap (λ k. k.sie) masked_cpu ∙ push_off-masked (m.cpu i);
        releases = release_of i lk b a entered ∙ left;
        free = ground arith;
        restored = subst (λ k. Restored (m.cpu i) k) restored_cpu r;
        returned = ground arith;
      },
    )
