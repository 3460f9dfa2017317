-- ===== src/Proc/Birth.antt =====
-- The slots of kernel/proc.c that fork takes and wait gives back, in the tree of processes.
use cs202lab.Prelude.{
  ℕ, ◌+◌, ◌≤◌, ◌<◌, ◌≡◌, sym, ◌∙◌, ap, ◌≢◌, inl, inr, true, false, arith, ◌==◌, Bool-cases, ==→eq,
  ==→ne,
}
use cs202lab.Proc.{nproc, is_unused, is_used, Table}
use cs202lab.Proc.Tree.{alive, alive_parent, IsTree, alive_parent-same}

module _ {t : Table} (h : IsTree t) (i : ℕ) (u : Table)
    (others : (j : ℕ) → j ≢ i → u.proc j ≡ t.proc j) (init : u.initproc ≡ t.initproc) where
  -- A slot whose process is not alive becomes free.
  pub freed-IsTree :
      alive t i ≡ false → is_unused (u.proc i).state ≡ true → t.nextpid ≤ u.nextpid → IsTree u
  freed-IsTree dead free next = record {
    init = ap (alive u) init ∙ same t.initproc ∙ h.init;
    parents = λ j lt live made ne.
        let e : u.proc j ≡ t.proc j = others j (elsewhere j live) in
        ap (λ p. alive_parent u p.parent) e
        ∙ alive_parent-same t u (t.proc j).parent same
        ∙ h.parents j lt (ap (λ p. is_unused p.state) (sym e) ∙ live)
            (ap (λ p. is_used p.state) (sym e) ∙ made) (ground (arith, ne, init));
    pids = λ j lt live.
        let e : u.proc j ≡ t.proc j = others j (elsewhere j live) in
        ground (arith, e, h.pids j lt (ap (λ p. is_unused p.state) (sym e) ∙ live), next);
    distinct = λ j k lj lk uj uk e.
        let ej : u.proc j ≡ t.proc j = others j (elsewhere j uj) in
        let ek : u.proc k ≡ t.proc k = others k (elsewhere k uk) in
        h.distinct j k lj lk (ap (λ p. is_unused p.state) (sym ej) ∙ uj)
          (ap (λ p. is_unused p.state) (sym ek) ∙ uk)
          (ap (λ p. p.pid) (sym ej) ∙ e ∙ ap (λ p. p.pid) ek);
    fresh = omega (arith, next, h.fresh);
  }
    where
      elsewhere : (j : ℕ) → is_unused (u.proc j).state ≡ false → j ≢ i
      elsewhere j live e =
          let free' : is_unused (u.proc j).state ≡ true =
            ap (λ k. is_unused (u.proc k).state) e ∙ free in
          absurd (ground (arith, live, free'))

      same : (j : ℕ) → alive u j ≡ alive t j
      same j = elim (Bool-cases (j == i)) [
        | inl here ↦
            ap (alive u) (==→eq j i here)
            ∙ ground (arith, free, dead)
            ∙ sym (ap (alive t) (==→eq j i here))
        | inr there ↦ ground (arith, others j (==→ne j i there))
      ]

  -- A free slot gets a process that `fork` is not through with.
  pub born-IsTree :
      is_unused (t.proc i).state ≡ true
      → is_unused (u.proc i).state ≡ false
      → is_used (u.proc i).state ≡ true
      → (u.proc i).pid ≡ t.nextpid
      → u.nextpid ≡ t.nextpid + 1
      → IsTree u
  born-IsTree free live used pid next = record {
    init = ap (alive u) init ∙ same t.initproc ∙ h.init;
    parents = λ j lt uj made ne. elim (Bool-cases (j == i)) [
      | inl here ↦
          let now : is_used (u.proc j).state ≡ true =
            ap (λ k. is_used (u.proc k).state) (==→eq j i here) ∙ used in
          absurd (ground (arith, now, made))
      | inr there ↦
          let e : u.proc j ≡ t.proc j = others j (==→ne j i there) in
          ap (λ q. alive_parent u q.parent) e
          ∙ alive_parent-same t u (t.proc j).parent same
          ∙ h.parents j lt (ap (λ q. is_unused q.state) (sym e) ∙ uj)
              (ap (λ q. is_used q.state) (sym e) ∙ made) (ground (arith, ne, init))
    ];
    pids = λ j lt uj. elim (Bool-cases (j == i)) [
      | inl here ↦ ground (arith, ap (λ k. (u.proc k).pid) (==→eq j i here), pid, next, h.fresh)
      | inr there ↦
          let e : u.proc j ≡ t.proc j = others j (==→ne j i there) in
          ground (arith, e, h.pids j lt (ap (λ q. is_unused q.state) (sym e) ∙ uj), next)
    ];
    distinct = λ j k lj lk uj uk e. elim (Bool-cases (j == i)) [
      | inl here ↦ elim (Bool-cases (k == i)) [
        | inl too ↦ ==→eq j i here ∙ sym (==→eq k i too)
        | inr there ↦ absurd (newer j k here there lk uk e)
      ]
      | inr there ↦ elim (Bool-cases (k == i)) [
        | inl here ↦ absurd (newer k j here there lj uj (sym e))
        | inr too ↦
            let ej : u.proc j ≡ t.proc j = others j (==→ne j i there) in
            let ek : u.proc k ≡ t.proc k = others k (==→ne k i too) in
            h.distinct j k lj lk (ap (λ q. is_unused q.state) (sym ej) ∙ uj)
              (ap (λ q. is_unused q.state) (sym ek) ∙ uk)
              (ap (λ q. q.pid) (sym ej) ∙ e ∙ ap (λ q. q.pid) ek)
      ]
    ];
    fresh = omega (arith, next);
  }
    where
      same : (j : ℕ) → alive u j ≡ alive t j
      same j = elim (Bool-cases (j == i)) [
        | inl here ↦
            ap (alive u) (==→eq j i here)
            ∙ ground (arith, used, free)
            ∙ sym (ap (alive t) (==→eq j i here))
        | inr there ↦ ground (arith, others j (==→ne j i there))
      ]

      newer :
          (j k : ℕ)
          → (j == i) ≡ true
          → (k == i) ≡ false
          → k < nproc
          → is_unused (u.proc k).state ≡ false
          → (u.proc j).pid ≢ (u.proc k).pid
      newer j k here there lk uk e =
          let ek : u.proc k ≡ t.proc k = others k (==→ne k i there) in
          let old = h.pids k lk (ap (λ q. is_unused q.state) (sym ek) ∙ uk) in
          let pk : (u.proc k).pid ≡ (t.proc k).pid = ap (λ q. q.pid) ek in
          let pj : (u.proc j).pid ≡ t.nextpid = ap (λ m. (u.proc m).pid) (==→eq j i here) ∙ pid in
          omega (arith, old, pk, pj, e)
