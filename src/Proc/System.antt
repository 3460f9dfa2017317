-- ===== src/Proc/System.antt =====
-- Processes of kernel/proc.c that run at once: what each of them may do next, also while others are
-- between two steps of `fork`.
use cs202lab.Prelude.{ℕ, ◌+◌, ◌^◌, ◌<◌, ◌≡◌, Bool, true, false, not, none, some, ◌==◌, update}
use cs202lab.Proc.{
  nproc, Chan, is_unused, is_used, is_zombie, Table, fork_child, fork_parent, fork_start, wakeup,
  exit, sleep, woken, wait, run, yield, kill, setkilled,
}
use cs202lab.Proc.Tree.{alive}

-- How far a process is in `fork`: not in it, or behind its first or its second step with the new process.
pub data Stage : Type 0 where
  outside : Stage
  made : ℕ → Stage
  adopted : ℕ → Stage

pub record System : Type 0 where
  pub table : Table
  pub stage : ℕ → Stage

abbrev pub in_stage : System → ℕ → Stage → Table → System
in_stage s p st t = record { table = t; stage = update s.stage p st }

abbrev pub in_table : System → Table → System
in_table s t = record s { table = t }

-- What happens: calls of processes that are alive, and wakeups, kills and scheduling. A process that is in
-- `fork` neither exits nor waits. The counter of the pids has not come to its largest `int`.
pub data Step (s : System) : System → Type 0 where
  forks :
      {u : Table} (p np : ℕ) (frame pages copied : Bool)
      → alive s.table p ≡ true
      → s.stage p ≡ outside
      → s.table.nextpid + 1 < 2 ^ 31
      → fork_child p frame pages copied s.table ≡ (some np, u)
      → Step s (in_stage s p (made np) u)
  fork_fails :
      {u : Table} (p : ℕ) (frame pages copied : Bool)
      → alive s.table p ≡ true
      → s.stage p ≡ outside
      → s.table.nextpid + 1 < 2 ^ 31
      → fork_child p frame pages copied s.table ≡ (none, u)
      → Step s (in_table s u)
  adopts :
      (p np : ℕ)
      → s.stage p ≡ made np
      → Step s (in_stage s p (adopted np) (fork_parent p np s.table))
  starts :
      (p np : ℕ) → s.stage p ≡ adopted np → Step s (in_stage s p outside (fork_start np s.table))
  exits :
      {u : Table} (p status : ℕ)
      → alive s.table p ≡ true
      → s.stage p ≡ outside
      → exit p status s.table ≡ some u
      → Step s (in_table s u)
  waits :
      (p : ℕ) (copied : Bool)
      → alive s.table p ≡ true
      → s.stage p ≡ outside
      → Step s (in_table s (wait p copied s.table).1)
  sleeps :
      (p : ℕ) (chan : Chan) → alive s.table p ≡ true → Step s (in_table s (sleep p chan s.table))
  wakes : (p : ℕ) → Step s (in_table s (woken p s.table))
  rouses : (p : ℕ) (chan : Chan) → Step s (in_table s (wakeup p chan s.table))
  runs : (p : ℕ) → alive s.table p ≡ true → Step s (in_table s (run p s.table))
  yields : (p : ℕ) → alive s.table p ≡ true → Step s (in_table s (yield p s.table))
  kills : (pid : ℕ) → Step s (in_table s (kill pid s.table).1)
  marks : (p : ℕ) → Step s (in_table s (setkilled p s.table))

-- From init alone.
pub data Reach : System → Type 0 where
  boot :
      (s : System)
      → s.table.initproc < nproc
      → ((i : ℕ) → is_unused (s.table.proc i).state ≡ not (i == s.table.initproc))
      → is_used (s.table.proc s.table.initproc).state ≡ false
      → is_zombie (s.table.proc s.table.initproc).state ≡ false
      → (s.table.proc s.table.initproc).pid ≡ 1
      → s.table.nextpid ≡ 2
      → ((p : ℕ) → s.stage p ≡ outside)
      → Reach s
  next : {s t : System} → Reach s → Step s t → Reach t
