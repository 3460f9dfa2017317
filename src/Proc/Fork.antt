-- ===== src/Proc/Fork.antt =====
-- The three steps of `fork` of kernel/proc.c in the tree of processes.
use cs202lab.Prelude.{
  ℕ, ◌+◌, ◌%◌, ◌^◌, ◌<◌, ◌≡◌, ◌≢◌, refl, sym, subst, ◌∙◌, ap, inl, inr, Bool, true, false, ◌&&◌,
  Option, none, some, arith, ◌==◌, if◌then◌else◌, Bool-cases, Option-cases, ==→eq, ==→ne,
}
use cs202lab.Proc.{
  nproc, ProcState, unused, used, sleeping, runnable, running, zombie, is_unused, is_used, Table,
  set, first, freeproc, allocproc, allocpid, copy_process, fork_child, fork_parent, fork_start,
}
use cs202lab.Proc.Loops.{first-some}
use cs202lab.Proc.Tree.{alive, alive_parent, IsTree}
use cs202lab.Proc.Birth.{freed-IsTree, born-IsTree}

-- What the first step leaves: every process that there was as it was, and perhaps a new one.
pub record Made (t : Table) (r : Option ℕ × Table) : Type 0 where
  pub tree : IsTree r.1
  pub kept : (j : ℕ) → is_unused (t.proc j).state ≡ false → r.1.proc j ≡ t.proc j
  pub child :
      (np : ℕ)
      → r.0 ≡ some np
      → (np < nproc) × (is_unused (t.proc np).state ≡ true) × (is_used (r.1.proc np).state ≡ true)

module _ {t : Table} (h : IsTree t) (counts : t.nextpid + 1 < 2 ^ 31) where
  -- The slot that `allocproc` took.
  abbrev taken : ℕ → Table
  taken i =
      set (record t { nextpid = (t.nextpid + 1) % 2 ^ 32 }) i
        (record (t.proc i) { pid = t.nextpid; state = used })

  abbrev born : ℕ → ℕ → Table
  born p i = let u = taken i in set u i (record (u.proc i) { sz = (u.proc p).sz })

  no_wrap : (t.nextpid + 1) % 2 ^ 32 ≡ t.nextpid + 1
  no_wrap = omega arith

  elsewhere :
      (i j : ℕ)
      → is_unused (t.proc i).state ≡ true
      → is_unused (t.proc j).state ≡ false
      → (j == i) ≡ false
  elsewhere i j free live = elim (Bool-cases (j == i)) [
    | inr there ↦ there
    | inl here ↦
        let e : is_unused (t.proc j).state ≡ true =
          ap (λ k. is_unused (t.proc k).state) (==→eq j i here) ∙ free in
        absurd (ground (arith, e, live))
  ]

  given_back : (i : ℕ) → is_unused (t.proc i).state ≡ true → Made t (none, freeproc i (taken i))
  unfolding freeproc
  given_back i free = record {
    tree =
        freed-IsTree h i _ (λ j ne. ground (arith, ne)) refl (ground (arith, free)) (ground arith)
          (omega (arith, no_wrap));
    kept = λ j live. rw (elsewhere i j free live) refl;
    child = λ np e. absurd (ground (arith, e));
  }

  full_table : Made t (none, t)
  full_table = record {
    tree = h;
    kept = λ j live. refl;
    child = λ np e. absurd (ground (arith, e));
  }

  new_child : (p i : ℕ) → i < nproc → is_unused (t.proc i).state ≡ true → Made t (some i, born p i)
  new_child p i lt free = record {
    tree =
        born-IsTree h i (born p i) (λ j ne. ground (arith, ne)) refl free (ground arith)
          (ground arith) (ground arith) no_wrap;
    kept = λ j live. rw (elsewhere i j free live) refl;
    child = λ np e.
        let same : i ≡ np = ground (arith, e) in
        subst
          (λ k.
            (k < nproc)
            × (is_unused (t.proc k).state ≡ true)
            × (is_used ((born p i).proc k).state ≡ true))
          same (lt, free, ground arith);
  }

  alloc_none :
      (frame pages : Bool)
      → first nproc 0 (λ i. is_unused (t.proc i).state) ≡ none
      → allocproc frame pages t ≡ (none, t)
  unfolding allocproc
  alloc_none frame pages e = rw (e, allocproc) refl

  alloc_some :
      (frame pages : Bool) {i : ℕ}
      → first nproc 0 (λ i. is_unused (t.proc i).state) ≡ some i
      → allocproc frame pages t
        ≡ (if frame && pages then (some i, taken i) else (none, freeproc i (taken i)))
  unfolding allocpid allocproc freeproc
  alloc_some frame pages e = rw (e, allocproc) refl

  pub fork_child-Made :
      (p : ℕ) (frame pages copied : Bool) → Made t (fork_child p frame pages copied t)
  unfolding fork_child copy_process
  fork_child-Made p frame pages copied =
      elim (Option-cases (first nproc 0 (λ i. is_unused (t.proc i).state))) [
        | inl full ↦
            subst (λ r. Made t (copy_process p copied r)) (sym (alloc_none frame pages full))
              full_table
        | inr (i, found) ↦
            let (lo, hi, free) = first-some nproc 0 (λ j. is_unused (t.proc j).state) i found in
            subst (λ r. Made t (copy_process p copied r)) (sym (alloc_some frame pages found))
              (from i (omega arith) free)
      ]
    where
      from :
          (i : ℕ)
          → i < nproc
          → is_unused (t.proc i).state ≡ true
          → Made t (
              copy_process p copied
                (if frame && pages then (some i, taken i) else (none, freeproc i (taken i))))
      from i lt free = elim (Bool-cases (frame && pages)) [
        | inr no_memory ↦ rw no_memory (given_back i free)
        | inl memory ↦ elim (Bool-cases copied) [
          | inr no_copy ↦ rw (memory, no_copy) (given_back i free)
          | inl copy ↦ rw (memory, copy) (new_child p i lt free)
        ]
      ]

pub used_not_unused : (s : ProcState) → is_used s ≡ true → is_unused s ≡ false
used_not_unused unused e = absurd (ground (arith, e))
used_not_unused used e = refl
used_not_unused sleeping e = refl
used_not_unused runnable e = refl
used_not_unused running e = refl
used_not_unused zombie e = refl

-- The new process np changes, and no other.
module _ {t : Table} (h : IsTree t) (np : ℕ) (embryo : is_used (t.proc np).state ≡ true) (u : Table)
    (others : (j : ℕ) → j ≢ np → u.proc j ≡ t.proc j) (init : u.initproc ≡ t.initproc)
    (next : u.nextpid ≡ t.nextpid) (pid : (u.proc np).pid ≡ (t.proc np).pid) where
  embryo-alive : (j : ℕ) → alive t j ≡ true → (j == np) ≡ false
  embryo-alive j a = elim (Bool-cases (j == np)) [
    | inr there ↦ there
    | inl here ↦
        let b : alive t np ≡ true = ap (alive t) (sym (==→eq j np here)) ∙ a in
        absurd (ground (arith, b, embryo))
  ]

  still : (j : ℕ) → alive t j ≡ true → alive u j ≡ true
  still j a = ground (arith, others j (==→ne j np (embryo-alive j a)), a)

  parent_still : (o : Option ℕ) → alive_parent t o ≡ true → alive_parent u o ≡ true
  parent_still none a = a
  parent_still (some q) a = still q a

  was_there : (j : ℕ) → is_unused (u.proc j).state ≡ false → is_unused (t.proc j).state ≡ false
  was_there j live = elim (Bool-cases (j == np)) [
    | inl here ↦
        ap (λ k. is_unused (t.proc k).state) (==→eq j np here)
        ∙ used_not_unused (t.proc np).state embryo
    | inr there ↦ ap (λ q. is_unused q.state) (sym (others j (==→ne j np there))) ∙ live
  ]

  same_pid : (j : ℕ) → (u.proc j).pid ≡ (t.proc j).pid
  same_pid j = elim (Bool-cases (j == np)) [
    | inl here ↦
        ap (λ k. (u.proc k).pid) (==→eq j np here)
        ∙ pid
        ∙ ap (λ k. (t.proc k).pid) (sym (==→eq j np here))
    | inr there ↦ ap (λ q. q.pid) (others j (==→ne j np there))
  ]

  grown-IsTree :
      (is_used (u.proc np).state ≡ false → alive_parent t (u.proc np).parent ≡ true) → IsTree u
  grown-IsTree parent = record {
    init = ap (alive u) init ∙ still t.initproc h.init;
    parents = λ j lt uj made ne. elim (Bool-cases (j == np)) [
      | inl here ↦
          let e = ==→eq j np here in
          ap (λ k. alive_parent u (u.proc k).parent) e
          ∙ parent_still (u.proc np).parent
              (parent (ap (λ k. is_used (u.proc k).state) (sym e) ∙ made))
      | inr there ↦
          let e : u.proc j ≡ t.proc j = others j (==→ne j np there) in
          ap (λ q. alive_parent u q.parent) e
          ∙ parent_still (t.proc j).parent (
              h.parents j lt (was_there j uj) (ap (λ q. is_used q.state) (sym e) ∙ made)
                (ground (arith, ne, init)))
    ];
    pids = λ j lt uj. omega (arith, same_pid j, h.pids j lt (was_there j uj), next);
    distinct = λ j k lj lk uj uk e.
        h.distinct j k lj lk (was_there j uj) (was_there k uk) (sym (same_pid j) ∙ e ∙ same_pid k);
    fresh = omega (arith, next, h.fresh);
  }

module _ {t : Table} (h : IsTree t) (p np : ℕ) (embryo : is_used (t.proc np).state ≡ true) where
  pub fork_parent-IsTree : IsTree (fork_parent p np t)
  unfolding fork_parent
  fork_parent-IsTree =
      grown-IsTree h np embryo (fork_parent p np t) (λ j ne. ground (arith, ne)) refl refl
        (ground arith) (λ started. absurd (ground (arith, started, embryo)))

  pub fork_start-IsTree : alive t p ≡ true → (t.proc np).parent ≡ some p → IsTree (fork_start np t)
  unfolding fork_start
  fork_start-IsTree live parent =
      grown-IsTree h np embryo (fork_start np t) (λ j ne. ground (arith, ne)) refl refl
        (ground arith)
        (λ started.
          let e : ((fork_start np t).proc np).parent ≡ some p = ground (arith, parent) in
          ap (alive_parent t) e ∙ live)
