-- ===== src/Proc/Reach.antt =====
-- The tree of processes of kernel/proc.c through every step, those of `fork` included.
use cs202lab.Prelude.{
  ℕ, ◌≡◌, ◌≢◌, refl, ◌∙◌, ap, subst, inl, inr, true, false, none, some, arith, ◌==◌, Bool-cases,
  ==→eq,
}
use cs202lab.Proc.{
  is_used, Table, fork_parent, fork_start, wakeup, sleep, woken, run, yield, setkilled,
}
use cs202lab.Proc.Loops.{wakeup-parent, wakeup-lasting, wakeup-initproc, wakeup-nextpid}
use cs202lab.Proc.Tree.{alive, IsTree, same-IsTree}
use cs202lab.Proc.Fork.{Made, fork_child-Made, fork_parent-IsTree, fork_start-IsTree}
use cs202lab.Proc.System.{
  outside, made, adopted, System, in_stage, Step, forks, fork_fails, adopts, starts, exits, waits,
  sleeps, wakes, rouses, runs, yields, kills, marks, Reach, boot, next,
}
use cs202lab.Proc.Kept.{Embryo, child_of, Inv, step-Inv}
use cs202lab.Proc.Steps.{
  calm-Inv, one-Inv, waits-Inv, kills-Inv, exits-Inv, fails-Inv, forks-Inv, embryo_used,
}

module _ {s : System} (i : Inv s) (p np : ℕ) where
  abbrev here : Table
  here = s.table

  -- Nobody else is in `fork` with np, and np is not alive.
  other_child :
      child_of (s.stage p) ≡ some np
      → (q n : ℕ) → q ≢ p
      → child_of (s.stage q) ≡ some n
      → (n == np) ≡ false
  other_child mine q n ne e = elim (Bool-cases (n == np)) [
    | inl at ↦ absurd (ne (i.apart q p np (e ∙ ap (λ k. some k) (==→eq n np at)) mine))
    | inr off ↦ off
  ]

  not_alive :
      is_used (here.proc np).state ≡ true → (q : ℕ) → alive here q ≡ true → (q == np) ≡ false
  not_alive used q a = elim (Bool-cases (q == np)) [
    | inl at ↦
        let u : is_used (here.proc q).state ≡ true =
          ap (λ k. is_used (here.proc k).state) (==→eq q np at) ∙ used in
        absurd (ground (arith, u, a))
    | inr off ↦ off
  ]

  adopts-Inv : s.stage p ≡ made np → Inv (in_stage s p (adopted np) (fork_parent p np here))
  unfolding fork_parent
  adopts-Inv at =
      let mine : child_of (s.stage p) ≡ some np = ap child_of at in
      let used = embryo_used i p np mine in
      let e : Embryo here p (made np) = subst (Embryo here p) at (i.embryo p) in
      step-Inv i (fork_parent p np here) (fork_parent-IsTree i.tree p np used) p (adopted np)
        (rw (not_alive used p e.0) e.0, ground (arith, used), ground arith)
        (λ q a. rw (not_alive used q a) a) (λ q n ne c x. rw (other_child mine q n ne c) refl)
        (λ q n ne c d. ne (i.apart q p n d (mine ∙ c)))

  starts-Inv : s.stage p ≡ adopted np → Inv (in_stage s p outside (fork_start np here))
  unfolding fork_start
  starts-Inv at =
      let mine : child_of (s.stage p) ≡ some np = ap child_of at in
      let used = embryo_used i p np mine in
      let e : Embryo here p (adopted np) = subst (Embryo here p) at (i.embryo p) in
      step-Inv i (fork_start np here) (fork_start-IsTree i.tree p np used e.0 e.2) p outside tt
        (λ q a. rw (not_alive used q a) a) (λ q n ne c x. rw (other_child mine q n ne c) refl)
        (λ q n ne c d. absurd (ground (arith, c)))

Step-Inv : {s t : System} → Step s t → Inv s → Inv t
unfolding sleep woken run yield setkilled
Step-Inv {s} (forks p np frame pages copied live out small e) i =
    forks-Inv i p np live
      (subst (Made s.table) e (fork_child-Made i.tree small p frame pages copied))
Step-Inv {s} (fork_fails p frame pages copied live out small e) i =
    fails-Inv i (subst (Made s.table) e (fork_child-Made i.tree small p frame pages copied))
Step-Inv (adopts p np at) i = adopts-Inv i p np at
Step-Inv (starts p np at) i = starts-Inv i p np at
Step-Inv (exits p status live out e) i = exits-Inv i p status live out e
Step-Inv (waits p copied live out) i = waits-Inv i p copied live
Step-Inv (sleeps p chan live) i = one-Inv i p _ (ground (arith, live)) refl
Step-Inv (wakes p) i = one-Inv i p _ refl refl
Step-Inv {s} (rouses p chan) i =
    calm-Inv i (wakeup p chan s.table)
      (same-IsTree i.tree (wakeup p chan s.table) (wakeup-lasting p chan s.table)
        (wakeup-parent p chan s.table) (wakeup-initproc p chan s.table)
        (wakeup-nextpid p chan s.table))
      (wakeup-lasting p chan s.table) (wakeup-parent p chan s.table)
Step-Inv (runs p live) i = one-Inv i p _ (ground (arith, live)) refl
Step-Inv (yields p live) i = one-Inv i p _ (ground (arith, live)) refl
Step-Inv (kills pid) i = kills-Inv i pid
Step-Inv (marks p) i = one-Inv i p _ refl refl

Reach-Inv : {s : System} → Reach s → Inv s
Reach-Inv (boot s lt free started lives one two out) = record {
  tree = record {
    init = ground (arith, lt, free s.table.initproc, started, lives);
    parents = λ i li live m ne. absurd (ground (arith, free i, live, ne));
    pids = λ i li live.
        let here : i ≡ s.table.initproc = ground (arith, free i, live) in
        ground (arith, ap (λ k. (s.table.proc k).pid) here, one, two);
    distinct = λ i j li lj ui uj e. ground (arith, free i, free j, ui, uj);
    fresh = omega (arith, two);
  };
  embryo = λ p. rw (out p) tt;
  apart = λ p q np e. absurd (nobody p np e);
}
  where
    nobody : (p np : ℕ) → child_of (s.stage p) ≢ some np
    nobody p np e = let x : none ≡ some np = rw (out p) at e in absurd (ground (arith, x))
Reach-Inv (next r st) = Step-Inv st (Reach-Inv r)

-- However processes fork, exit, wait, sleep and are killed, also in between the three steps of the fork of
-- another process, as long as the counter of the pids does not come to its largest `int`: init stays
-- alive, every other process that its fork is through with has a parent that is alive, and no two
-- processes have one pid.
pub processes-IsTree : {s : System} → Reach s → IsTree s.table
processes-IsTree r = (Reach-Inv r).tree
