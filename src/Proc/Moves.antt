-- ===== src/Proc/Moves.antt =====
-- What exit, wait, kill and changes of one process do to the tree of processes of kernel/proc.c.
use cs202lab.Prelude.{
  ℕ, ◌≡◌, refl, sym, subst, ◌∙◌, ap, inl, inr, Bool, true, false, ◌&&◌, none, some, arith, ◌==◌,
  if◌then◌else◌, Bool-cases, Option-cases, ==→eq, ==→ne,
}
use cs202lab.Proc.{
  nproc, zombie, Chan, is_zombie, is_proc, Proc, Table, set, first, freeproc, wakeup, reparent,
  parent_chan, exit, sleep, wait, kill,
}
use cs202lab.Proc.Loops.{first-some, lasting}
use cs202lab.Proc.Tree.{alive, IsTree, same-IsTree, exited-IsTree}
use cs202lab.Proc.Birth.{freed-IsTree}

pub and_true : (a b : Bool) → (a && b) ≡ true → b ≡ true
and_true a b e = ground (arith, e)

pub some_else :
    (b : Bool) {x u : Table} → (if b then none else some x) ≡ some u → (b ≡ false) × (x ≡ u)
some_else true e = absurd (ground (arith, e))
some_else false e = (refl, ground (arith, e))

abbrev pub left_by : ℕ → Chan → ℕ → Table → Table
left_by p chan status t =
    let w = wakeup p chan (reparent p t) in
    set w p (record (w.proc p) { xstate = status; state = zombie })

pub exit_eq :
    (p status : ℕ) (t : Table)
    → exit p status t ≡ (
        if p == t.initproc
        then none
        else some (left_by p (parent_chan ((reparent p t).proc p).parent) status t))
unfolding exit
exit_eq p status t = refl

module _ {t : Table} (h : IsTree t) where
  pub exit-IsTree :
      (p status : ℕ) {u : Table} → alive t p ≡ true → exit p status t ≡ some u → IsTree u
  exit-IsTree p status {u} live e =
      let chan = parent_chan ((reparent p t).proc p).parent in
      let (other, leaves) = some_else (p == t.initproc) (sym (exit_eq p status t) ∙ e) in
      subst IsTree leaves (exited-IsTree h p live (==→ne p t.initproc other) chan status)

  -- A change of the one process i.
  pub one-IsTree :
      (i : ℕ) (q : Proc)
      → lasting q ≡ lasting (t.proc i)
      → q.parent ≡ (t.proc i).parent
      → IsTree (set t i q)
  one-IsTree i q same parent =
      same-IsTree h (set t i q)
        (λ j. elim (Bool-cases (j == i)) [
          | inl here ↦ rw here (same ∙ ap (λ k. lasting (t.proc k)) (sym (==→eq j i here)))
          | inr there ↦ rw there refl
        ])
        (λ j. elim (Bool-cases (j == i)) [
          | inl here ↦ rw here (parent ∙ ap (λ k. (t.proc k).parent) (sym (==→eq j i here)))
          | inr there ↦ rw there refl
        ])
        refl refl

  pub reaped : (i : ℕ) → is_zombie (t.proc i).state ≡ true → IsTree (freeproc i t)
  unfolding freeproc
  reaped i exits =
      freed-IsTree h i _ (λ j ne. ground (arith, ne)) refl (ground (arith, exits)) (ground arith)
        (omega arith)

  pub wait-IsTree : (p : ℕ) (copied : Bool) → alive t p ≡ true → IsTree (wait p copied t).1
  unfolding wait sleep
  wait-IsTree p copied live =
      elim (Option-cases
        (first nproc 0 (λ i. is_proc (t.proc i).parent p && is_zombie (t.proc i).state))) [
          | inr (i, found) ↦
              let test =
                (first-some nproc 0 (λ i. is_proc (t.proc i).parent p && is_zombie (t.proc i).state)
                  i found).2 in
              elim (Bool-cases copied) [
                | inr fault ↦ rw (found, fault, wait) h
                | inl good ↦ rw (found, good, wait) (reaped i (and_true _ _ test))
              ]
          | inl no_zombie ↦ elim (Option-cases (first nproc 0 (λ i. is_proc (t.proc i).parent p))) [
            | inl no_child ↦ rw (no_zombie, no_child, wait) h
            | inr (i, child) ↦ elim (Bool-cases (t.proc p).killed) [
              | inl dying ↦ rw (no_zombie, child, dying, wait) h
              | inr waits ↦
                  rw (no_zombie, child, waits, wait) (one-IsTree p _ (ground (arith, live)) refl)
            ]
          ]
        ]

  pub kill-IsTree : (pid : ℕ) → IsTree (kill pid t).1
  unfolding kill
  kill-IsTree pid = elim (Option-cases (first nproc 0 (λ i. (t.proc i).pid == pid))) [
    | inl nobody ↦ rw (nobody, kill) h
    | inr (i, found) ↦ rw (found, kill) (one-IsTree i _ (ground arith) refl)
  ]
