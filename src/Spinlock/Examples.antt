-- ===== src/Spinlock/Examples.antt =====
-- Runs of kernel/spinlock.c, and the theorems at them.
use cs202lab.Prelude.{ℕ, ◌≡◌, refl, true, false, none, some, [], ◌∷◌, update}
use cs202lab.Spinlock.{Cpu, running, spinning, Machine, push_off, acquire_enter, acquire_try}
use cs202lab.Spinlock.Nesting.{push, pop, calls, nothing, pair, Restored, calls-Restored}
use cs202lab.Spinlock.Exclusion.{Reach, boot, next, enter, try, mutual_exclusion}

abbrev enabled : Cpu
enabled = record { noff = 0; intena = false; sie = true }

-- Every cpu runs with interrupts on, and every lock is free.
abbrev idle : Machine
idle = record {
  cpu = λ i. enabled;
  lock = λ lk. record { locked = false; holder = none };
  at = λ i. running;
}

calls-Restored_example :
    (d : Cpu) × (calls (push ∷ push ∷ pop ∷ pop ∷ []) enabled ≡ some d) × Restored enabled d
calls-Restored_example =
    calls-Restored enabled (pair (pair nothing nothing refl) nothing refl) (λ e. refl)

-- Cpu 1 got lock 7 by its swap.
abbrev entered : Machine
unfolding push_off
entered = record idle {
  cpu = update idle.cpu 1 (push_off enabled);
  at = update idle.at 1 (spinning 7);
}

taken_by_1 : Reach (acquire_try 1 7 entered)
unfolding acquire_enter entered
taken_by_1 = next 1 (next 1 (boot idle (λ i. refl) (λ lk. refl)) (enter 7 refl refl)) (try 7 refl)

mutual_exclusion_example : ◌≡◌ {A = ℕ} 1 1
unfolding acquire_try entered
mutual_exclusion_example = mutual_exclusion 1 1 7 taken_by_1 refl refl
