-- ===== src/Log/Examples.antt =====
-- Runs of kernel/log.c, and the theorems at them.
use cs202lab.Prelude.{
  ℕ, ◌+◌, ◌<◌, ◌≡◌, refl, ◌≢◌, ◌⊎◌, inl, inr, false, Option, none, some, [], ◌∷◌, arith, ◌==◌,
  if◌then◌else◌, update, Bool-cases,
}
use cs202lab.Log.Machine.{
  Disk, State, Run, done, crashed, panic, view, bread, set_data, bwrite, brelse, bpin, bunpin,
}
use cs202lab.Log.{
  commit, initlog, log_write, begin_op, end_op_enter, end_op, max_op_blocks, log_size,
}
use cs202lab.Log.Phases.{Home, Clean}
use cs202lab.Log.Recovery.{
  boot, Boots, up, again, Ready, commit_atomic, commit_returns, commit_recovers,
}
use cs202lab.Log.Reserve.{Reach, begin, next, log_never_panics}
use cs202lab.Log.Durable.{end_op-durable}

-- Blocks 32, the first behind the log, and 60 were changed in the cache and logged; the log is the 30
-- blocks from block 2 on, as on the disk that mkfs makes.
abbrev logged : Option ℕ → State
logged p = record {
  disk = λ _ _. 0;
  cache = update (update (λ _. none) 32 (some (λ _. 7))) 60 (some (λ _. 8));
  refcnt = update (update (λ _. 0) 32 1) 60 1;
  power = p;
  start = 2;
  size = 30;
  outstanding = 1;
  committing = false;
  n = 2;
  block = λ i. if i == 0 then 32 else 60;
  wakeups = 0;
}

abbrev lost : Run (Unit {0}) → Disk
lost (crashed d) = d
lost (done _ s) = s.disk
lost panic = λ _ _. 0

abbrev left : Run (Unit {0}) → State
left (done _ s) = s
left _ = boot (λ _ _. 0) none

logged-Ready : (p : Option ℕ) → Ready (logged p)
logged-Ready p = record {
  fits = record { small = omega arith; listed = omega arith; homes = λ i lt. ground arith };
  header = refl;
  unlisted = λ x o. elim (Bool-cases (x == 32)) [
    | inl e ↦ inl (0, omega arith, ground arith)
    | inr e ↦ elim (Bool-cases (x == 60)) [
      | inl e' ↦ inl (1, omega arith, ground arith)
      | inr e' ↦ inr (ground arith)
    ]
  ];
}

-- The power fails after the two log blocks and the header: at the first home block.
abbrev failing : State
failing = logged (some 3)

abbrev failed_disk : Disk
unfolding commit bread set_data bwrite brelse bunpin
failed_disk = lost (commit failing)

failed : commit failing ≡ crashed failed_disk
unfolding commit bread set_data bwrite brelse bunpin
failed = refl

-- Recovery fails once more, at the second home block, and then succeeds.
abbrev failed_again : Disk
unfolding failed_disk initlog
failed_again = lost (initlog 2 30 (boot failed_disk (some 1)))

abbrev recovered : State
unfolding failed_again initlog
recovered = left (initlog 2 30 (boot failed_again none))

machine_Boots : Boots 2 30 recovered.disk failed_disk
unfolding recovered
machine_Boots = again 1 refl (up recovered refl refl)

-- The blocks that were committed are there.
recovered_blocks : (recovered.disk 32 9 ≡ 7) × (recovered.disk 60 9 ≡ 8) × (recovered.disk 70 9 ≡ 0)
unfolding recovered
recovered_blocks = (refl, refl, refl)

commit_atomic_example :
    ((x : ℕ) → Home 2 30 x → recovered.disk x ≡ failing.disk x)
    ⊎ ((x : ℕ) → Home 2 30 x → recovered.disk x ≡ view failing x)
commit_atomic_example = commit_atomic (logged-Ready (some 3)) failed machine_Boots

commit_recovers_example :
    (t : State) × (initlog 2 30 (boot failed_disk none) ≡ done tt t)
    × (Clean 2 30 failing.disk t.disk ⊎ Clean 2 30 (view failing) t.disk)
commit_recovers_example = commit_recovers (logged-Ready (some 3)) failed

abbrev powered : State
powered = logged none

commit_returns_example :
    (t : State) × (commit powered ≡ done tt t)
    × Clean 2 30 (view powered) t.disk
    × ((x : ℕ) → Home 2 30 x → view t x ≡ view powered x)
    × (t.n ≡ 0)
commit_returns_example = commit_returns (logged-Ready none) refl

end_op-durable_example :
    (t : State) × (end_op powered ≡ done tt t)
    × Clean 2 30 (view powered) t.disk
    × (t.n ≡ 0)
    × (t.committing ≡ false)
end_op-durable_example = end_op-durable (logged-Ready none) refl refl refl

-- Block 60 is absorbed, block 70 is new.
abbrev third : State
third = record powered {
  refcnt = update powered.refcnt 70 1;
  n = 3;
  block = update powered.block 2 70;
}

third_logged : log_write 70 powered ≡ done tt third
unfolding log_write bpin
third_logged = refl

absorbed : Run (Unit {0})
absorbed = log_write 60 powered

absorbed_count : (left absorbed).n ≡ 2
unfolding absorbed log_write bpin
absorbed_count = refl

abbrev idle : State
idle = record (boot (λ _ _. 0) none) { start = 2; size = 30 }

idle_Reach : Reach (record idle { outstanding = 1 }) (max_op_blocks ∷ [])
unfolding begin_op
idle_Reach = next (Reach.boot refl refl refl) (begin refl)

log_never_panics_example :
    (0 < 10
      → log_size + 1 < idle.size + 10
      → (b : ℕ) → log_write b (record idle { outstanding = 1 }) ≢ panic)
    × (end_op_enter (record idle { outstanding = 1 }) ≢ panic)
log_never_panics_example = log_never_panics [] [] 10 idle_Reach refl
