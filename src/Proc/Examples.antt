-- ===== src/Proc/Examples.antt =====
-- Runs of kernel/proc.c, and the theorems at them.
use cs202lab.Prelude.{ℕ, ◌<◌, ◌≡◌, refl, true, false, none, some, arith, ◌==◌, if◌then◌else◌}
use cs202lab.Proc.{
  nproc, unused, running, zombie, nowhere, Proc, Table, fork_child, fork_parent, fork_start, fork,
  wait, reparent, parent_chan, kill,
}
use cs202lab.Proc.Tree.{IsTree}
use cs202lab.Proc.Moves.{left_by, exit_eq}
use cs202lab.Proc.System.{System, outside, boot, next, forks, adopts, starts}
use cs202lab.Proc.Reach.{processes-IsTree}
use cs202lab.Proc.Exit.{Reaps, exit-wait}

abbrev free_slot : Proc
free_slot = record {
  state = unused;
  chan = nowhere;
  killed = false;
  xstate = 0;
  pid = 0;
  parent = none;
  sz = 0;
}

abbrev started : Table
started = record {
  proc = λ i.
      if i == 0
      then record {
        state = running;
        chan = nowhere;
        killed = false;
        xstate = 0;
        pid = 1;
        parent = none;
        sz = 4096;
      }
      else free_slot;
  initproc = 0;
  nextpid = 2;
}

-- The first child of init has pid 2.
forks_two : (fork 0 true true true started).0 ≡ some 2
unfolding fork fork_child fork_parent fork_start
forks_two = refl

abbrev first_system : System
first_system = record { table = started; stage = λ p. outside }

-- The three steps of the fork of init's first child.
abbrev with_child : Table
with_child = (fork_child 0 true true true started).1

first_fork : fork_child 0 true true true started ≡ (some 1, with_child)
unfolding fork_child
first_fork = refl

processes-IsTree_example : IsTree (fork_start 1 (fork_parent 0 1 with_child))
processes-IsTree_example = processes-IsTree (
    next
      (next
        (next (boot first_system (omega arith) (λ i. ground arith) refl refl refl refl (λ p. refl))
          (forks 0 1 true true true refl refl (omega arith) first_fork))
        (adopts 0 1 refl))
      (starts 0 1 refl))

-- Init with one child, which may exit.
abbrev family : Table
family = record started {
  proc = λ i.
      if i == 1
      then record {
        state = running;
        chan = nowhere;
        killed = false;
        xstate = 0;
        pid = 2;
        parent = some 0;
        sz = 4096;
      }
      else started.proc i;
}

abbrev bereft : Table
bereft = left_by 1 (parent_chan ((reparent 1 family).proc 1).parent) 5 family

exit-wait_example :
    ((j : ℕ) → j < nproc → (family.proc j).parent ≡ some 1 → (bereft.proc j).parent ≡ some 0)
    × ((bereft.proc 1).state ≡ zombie)
    × ((bereft.proc 1).xstate ≡ 5)
    × Reaps 0 bereft (wait 0 true bereft)
exit-wait_example =
    exit-wait 1 5 family bereft (omega arith) (exit_eq 1 5 family) 0 refl (omega arith)

-- A free slot has pid 0, so `kill(0)` finds one and marks it.
kill_zero : ((kill 0 started).0 ≡ true) × (((kill 0 started).1.proc 1).killed ≡ true)
unfolding kill
kill_zero = (refl, refl)

-- The process that gets the slot starts with the mark.
born_killed : ((fork 0 true true true (kill 0 started).1).1.proc 1).killed ≡ true
unfolding kill fork fork_child fork_parent fork_start
born_killed = refl
