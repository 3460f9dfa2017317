-- ===== src/Proc/Steps.antt =====
-- What the steps of processes of kernel/proc.c that are not in `fork`, and its first step, keep.
use cs202lab.Prelude.{
  ℕ, ◌≡◌, ◌≢◌, refl, sym, ◌∙◌, ap, subst, inl, inr, Bool, true, false, ◌&&◌, none, some, arith,
  ◌==◌, Bool-cases, Option-cases, ==→eq, ==→ne,
}
use cs202lab.Proc.{
  nproc, ProcState, unused, used, sleeping, runnable, running, zombie, Chan, is_used, is_zombie,
  is_proc, Proc, Table, set, first, freeproc, reparent, parent_chan, wakeup, exit, sleep, wait,
  kill,
}
use cs202lab.Proc.Loops.{first-some, lasting}
use cs202lab.Proc.Tree.{alive, IsTree, exited, exited-alive, exited-used, left-parent}
use cs202lab.Proc.Moves.{and_true, reaped, some_else, exit_eq, one-IsTree, exit-IsTree}
use cs202lab.Proc.Fork.{Made, used_not_unused}
use cs202lab.Proc.System.{Stage, outside, made, adopted, System, in_stage, in_table}
use cs202lab.Proc.Kept.{Embryo, child_of, Inv, kept-Inv, step-Inv}

module _ {s : System} (i : Inv s) where
  abbrev here : Table
  here = s.table

  -- Changes that leave alone who is alive or new, and the parents.
  pub calm-Inv :
      (u : Table)
      → IsTree u
      → ((j : ℕ) → lasting (u.proc j) ≡ lasting (here.proc j))
      → ((j : ℕ) → (u.proc j).parent ≡ (here.proc j).parent)
      → Inv (in_table s u)
  calm-Inv u tree same parent =
      kept-Inv i u tree (λ q x live. ground (arith, same q, live))
        (λ j used. ground (arith, same j, used)) (λ q j x used e. parent j ∙ e)

  -- Changes of process p that leave alone whether it is alive or new, its pid and its parent.
  pub one-Inv :
      (p : ℕ) (n : Proc)
      → lasting n ≡ lasting (here.proc p)
      → n.parent ≡ (here.proc p).parent
      → Inv (in_table s (set here p n))
  one-Inv p n same parent =
      calm-Inv (set here p n) (one-IsTree i.tree p n same parent)
        (λ j. elim (Bool-cases (j == p)) [
          | inl at ↦ rw at (same ∙ ap (λ k. lasting (here.proc k)) (sym (==→eq j p at)))
          | inr off ↦ rw off refl
        ])
        (λ j. elim (Bool-cases (j == p)) [
          | inl at ↦ rw at (parent ∙ ap (λ k. (here.proc k).parent) (sym (==→eq j p at)))
          | inr off ↦ rw off refl
        ])

  -- The slot of a process that has exited becomes free.
  freed-Inv :
      (k : ℕ)
      → is_zombie (here.proc k).state ≡ true
      → IsTree (freeproc k here)
      → Inv (in_table s (freeproc k here))
  unfolding freeproc
  freed-Inv k gone tree =
      kept-Inv i (freeproc k here) tree
        (λ q x live. elim (Bool-cases (q == k)) [
          | inl at ↦
              let z : is_zombie (here.proc q).state ≡ true =
                ap (λ m. is_zombie (here.proc m).state) (==→eq q k at) ∙ gone in
              absurd (ground (arith, z, live))
          | inr off ↦ rw off live
        ])
        (λ j used. elim (Bool-cases (j == k)) [
          | inl at ↦ absurd (not_both j (==→eq j k at) used)
          | inr off ↦ rw off used
        ])
        (λ q j x used e. elim (Bool-cases (j == k)) [
          | inl at ↦ absurd (not_both j (==→eq j k at) used)
          | inr off ↦ rw off e
        ])
    where
      differ : (st : ProcState) → is_zombie st ≡ true → is_used st ≢ true
      differ unused z e = absurd (ground (arith, e))
      differ used z e = absurd (ground (arith, z))
      differ sleeping z e = absurd (ground (arith, e))
      differ runnable z e = absurd (ground (arith, e))
      differ running z e = absurd (ground (arith, e))
      differ zombie z e = absurd (ground (arith, e))

      not_both : (j : ℕ) → j ≡ k → is_used (here.proc j).state ≢ true
      not_both j at e =
          differ (here.proc j).state (ap (λ m. is_zombie (here.proc m).state) at ∙ gone) e

  pub waits-Inv :
      (p : ℕ) (copied : Bool) → alive here p ≡ true → Inv (in_table s (wait p copied here).1)
  unfolding wait sleep
  waits-Inv p copied live =
      elim (Option-cases
        (first nproc 0 (λ i. is_proc (here.proc i).parent p && is_zombie (here.proc i).state))) [
          | inr (k, found) ↦
              let test =
                (first-some nproc 0
                  (λ i. is_proc (here.proc i).parent p && is_zombie (here.proc i).state) k
                  found).2 in
              elim (Bool-cases copied) [
                | inr fault ↦ rw (found, fault, wait) i
                | inl good ↦
                    let z = and_true _ _ test in
                    rw (found, good, wait) (freed-Inv k z (reaped i.tree k z))
              ]
          | inl no_zombie ↦
              elim (Option-cases (first nproc 0 (λ i. is_proc (here.proc i).parent p))) [
                | inl no_child ↦ rw (no_zombie, no_child, wait) i
                | inr (k, child) ↦ elim (Bool-cases (here.proc p).killed) [
                  | inl dying ↦ rw (no_zombie, child, dying, wait) i
                  | inr stays ↦
                      rw (no_zombie, child, stays, wait) (one-Inv p _ (ground (arith, live)) refl)
                ]
              ]
        ]

  pub kills-Inv : (pid : ℕ) → Inv (in_table s (kill pid here).1)
  unfolding kill
  kills-Inv pid = elim (Option-cases (first nproc 0 (λ i. (here.proc i).pid == pid))) [
    | inl nobody ↦ rw (nobody, kill) i
    | inr (k, found) ↦ rw (found, kill) (one-Inv k _ (ground arith) refl)
  ]

  exited-Inv :
      (p : ℕ) (live : alive here p ≡ true) (other : p ≢ here.initproc) (chan : Chan) (status : ℕ)
      → s.stage p ≡ outside
      → IsTree (exited i.tree p live other chan status)
      → Inv (in_table s (exited i.tree p live other chan status))
  exited-Inv p live other chan status out tree =
      kept-Inv i (exited i.tree p live other chan status) tree
        (λ q x a. exited-alive i.tree p live other chan status q ∙ ground (arith, apart q x, a))
        (λ j used. exited-used i.tree p live other chan status j ∙ used)
        (λ q j x used e. stays q j (apart q x) e)
    where
      apart : (q : ℕ) → s.stage q ≢ outside → (q == p) ≡ false
      apart q x = elim (Bool-cases (q == p)) [
        | inl at ↦ absurd (x (ap s.stage (==→eq q p at) ∙ out))
        | inr off ↦ off
      ]

      stays :
          (q j : ℕ)
          → (q == p) ≡ false
          → (here.proc j).parent ≡ some q
          → ((exited i.tree p live other chan status).proc j).parent ≡ some q
      stays q j off e = elim (Bool-cases (j == p)) [
        | inl at ↦ rw at (
            ap (λ k. ((wakeup p chan (reparent p here)).proc k).parent) (sym (==→eq j p at))
            ∙ left-parent i.tree p live other chan status j
            ∙ ground (arith, e, off))
        | inr away ↦
            rw away (left-parent i.tree p live other chan status j ∙ ground (arith, e, off))
      ]

  pub exits-Inv :
      (p status : ℕ) {u : Table}
      → alive here p ≡ true
      → s.stage p ≡ outside
      → exit p status here ≡ some u
      → Inv (in_table s u)
  exits-Inv p status {u} live out e =
      let chan = parent_chan ((reparent p here).proc p).parent in
      let (other, leaves) = some_else (p == here.initproc) (sym (exit_eq p status here) ∙ e) in
      subst (λ v. Inv (in_table s v)) leaves
        (exited-Inv p live (==→ne p here.initproc other) chan status out
          (subst IsTree (sym leaves) (exit-IsTree i.tree p status live e)))

  pub fails-Inv : {u : Table} → Made here (none, u) → Inv (in_table s u)
  fails-Inv {u} m =
      kept-Inv i u m.tree (λ q x live. ground (arith, m.kept q, live))
        (λ j used. ground (arith, m.kept j (used_not_unused (here.proc j).state used), used))
        (λ q j x used e.
          ap (λ r. r.parent) (m.kept j (used_not_unused (here.proc j).state used)) ∙ e)

  -- The process that p has in `fork` is one of the used slots.
  pub embryo_used :
      (q np : ℕ) → child_of (s.stage q) ≡ some np → is_used (here.proc np).state ≡ true
  embryo_used q np = from (s.stage q) (i.embryo q)
    where
      from :
          (st : Stage)
          → Embryo here q st
          → child_of st ≡ some np
          → is_used (here.proc np).state ≡ true
      from outside x e = absurd (ground (arith, e))
      from (made n) x e =
          let same : n ≡ np = ground (arith, e) in
          ap (λ m. is_used (here.proc m).state) (sym same) ∙ x.1
      from (adopted n) x e =
          let same : n ≡ np = ground (arith, e) in
          ap (λ m. is_used (here.proc m).state) (sym same) ∙ x.1

  pub forks-Inv :
      (p np : ℕ) {u : Table}
      → alive here p ≡ true
      → Made here (some np, u)
      → Inv (in_stage s p (made np) u)
  forks-Inv p np {u} live m =
      let (lt, free, new) = m.child np refl in
      step-Inv i u m.tree p (made np) (ground (arith, m.kept p, live), new)
        (λ q a. ground (arith, m.kept q, a))
        (λ q n ne e used. m.kept n (used_not_unused (here.proc n).state used))
        (λ q n ne e c.
          let same : np ≡ n = ground (arith, e) in
          let used : is_used (here.proc np).state ≡ true =
            ap (λ k. is_used (here.proc k).state) same ∙ embryo_used q n c in
          let taken = used_not_unused (here.proc np).state used in
          absurd (ground (arith, taken, free)))
