-- ===== src/Proc/Exit.antt =====
-- `exit` and `wait` of kernel/proc.c: an exited process is there for its parent to find.
use cs202lab.Prelude.{
  ℕ, ◌<◌, ◌≡◌, refl, sym, ◌∙◌, ap, ◌≢◌, inl, inr, Bool, true, ◌&&◌, Option, none, some, arith, ltb,
  ◌==◌, if◌then◌else◌, Bool-cases, Option-cases, ==→eq, ne→==,
}
use cs202lab.Proc.{
  nproc, ProcState, unused, used, sleeping, runnable, running, zombie, Chan, Waited, freeproc,
  is_zombie, is_proc, Table, first, wakeup, reparent, parent_chan, exit, wait, waited,
}
use cs202lab.Proc.Loops.{first-some, first-none, wakeup-parent, reparent-parent}
use cs202lab.Proc.Moves.{some_else, left_by, exit_eq}

is_zombie→zombie : (s : ProcState) → is_zombie s ≡ true → s ≡ zombie
is_zombie→zombie unused e = absurd (ground (arith, e))
is_zombie→zombie used e = absurd (ground (arith, e))
is_zombie→zombie sleeping e = absurd (ground (arith, e))
is_zombie→zombie runnable e = absurd (ground (arith, e))
is_zombie→zombie running e = absurd (ground (arith, e))
is_zombie→zombie zombie e = refl

is_proc→some : (o : Option ℕ) (q : ℕ) → is_proc o q ≡ true → o ≡ some q
is_proc→some none q e = absurd (ground (arith, e))
is_proc→some (some j) q e = ap (λ n. some n) (==→eq j q e)

both : (a b : Bool) → (a && b) ≡ true → (a ≡ true) × (b ≡ true)
both a b e = ground arith

freeproc_self : (k : ℕ) (u : Table) → ((freeproc k u).proc k).state ≡ unused
unfolding freeproc
freeproc_self k u = ground arith

freeproc-other : (k j : ℕ) (u : Table) → j ≢ k → (freeproc k u).proc j ≡ u.proc j
unfolding freeproc
freeproc-other k j u ne = rw (ne→== j k ne) refl

-- `wait` of q takes its child k, which has exited, returns its pid and status, and frees its slot and
-- no other.
pub record Reaps (q : ℕ) (u : Table) (r : Waited × Table) : Type 0 where
  pub k : ℕ
  pub inside : k < nproc
  pub child : (u.proc k).parent ≡ some q
  pub exited : (u.proc k).state ≡ zombie
  pub result : r.0 ≡ waited (u.proc k).pid (u.proc k).xstate
  pub freed : (r.1.proc k).state ≡ unused
  pub others : (j : ℕ) → j ≢ k → r.1.proc j ≡ u.proc j

wait-zombie :
    (q : ℕ) (u : Table) (i : ℕ)
    → i < nproc
    → (is_proc (u.proc i).parent q && is_zombie (u.proc i).state) ≡ true
    → Reaps q u (wait q true u)
unfolding wait
wait-zombie q u i lt child =
    let test : ℕ → Bool = λ i. is_proc (u.proc i).parent q && is_zombie (u.proc i).state in
    elim (Option-cases
      (first nproc 0 (λ i. is_proc (u.proc i).parent q && is_zombie (u.proc i).state))) [
        | inl nothing ↦ absurd (ground (arith, first-none nproc 0 test nothing i, lt, child))
        | inr (k, found) ↦
            let (lo, hi, holds) = first-some nproc 0 test k found in
            let (mine, exits) = both _ _ holds in
            record {
              k = k;
              inside = omega arith;
              child = is_proc→some (u.proc k).parent q mine;
              exited = is_zombie→zombie (u.proc k).state exits;
              result = rw (found, wait) refl;
              freed = rw (found, wait) (freeproc_self k u);
              others = λ j ne. rw (found, wait) (freeproc-other k j u ne);
            }
      ]

module _ (p status : ℕ) (t u : Table) (lt : p < nproc) (exits : exit p status t ≡ some u) where
  u_eq : left_by p (parent_chan ((reparent p t).proc p).parent) status t ≡ u
  u_eq = (some_else (p == t.initproc) (sym (exit_eq p status t) ∙ exits)).1

  parent_eq :
      (j : ℕ)
      → (u.proc j).parent ≡ (
          if ltb j nproc && is_proc (t.proc j).parent p then some t.initproc else (t.proc j).parent)
  parent_eq j =
      ap (λ v. (v.proc j).parent) (sym u_eq)
      ∙ left_parent (parent_chan ((reparent p t).proc p).parent)
    where
      left_parent :
          (chan : Chan)
          → ((left_by p chan status t).proc j).parent ≡ (
              if ltb j nproc && is_proc (t.proc j).parent p
              then some t.initproc
              else (t.proc j).parent)
      left_parent chan = elim (Bool-cases (j == p)) [
        | inl here ↦ rw here (
            ap (λ k. ((wakeup p chan (reparent p t)).proc k).parent) (sym (==→eq j p here))
            ∙ (wakeup-parent p chan (reparent p t) j ∙ reparent-parent p t j))
        | inr there ↦ rw there (wakeup-parent p chan (reparent p t) j ∙ reparent-parent p t j)
      ]

  -- After `exit` the children of the process are those of init, and it is a zombie with its status,
  -- which a `wait` of its parent does not sleep over: it returns the pid and the status of a child that
  -- has exited, and frees the slot of that child and no other.
  pub exit-wait :
      (q : ℕ)
      → (t.proc p).parent ≡ some q
      → q ≢ p
      → ((j : ℕ) → j < nproc → (t.proc j).parent ≡ some p → (u.proc j).parent ≡ some t.initproc)
        × ((u.proc p).state ≡ zombie)
        × ((u.proc p).xstate ≡ status)
        × Reaps q u (wait q true u)
  exit-wait q parent other = (
    λ j lj child. parent_eq j ∙ ground (arith, lj, child),
    state,
    ap (λ v. (v.proc p).xstate) (sym u_eq) ∙ ground arith,
    wait-zombie q u p lt (ground (arith, parent_eq p, parent, other, state)),
  )
    where
      state : (u.proc p).state ≡ zombie
      state = ap (λ v. (v.proc p).state) (sym u_eq) ∙ ground arith
