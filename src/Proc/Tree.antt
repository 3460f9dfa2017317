-- ===== src/Proc/Tree.antt =====
-- The processes of kernel/proc.c are a tree under init: whatever exits, its children have a parent that
-- will wait for them.
use cs202lab.Prelude.{
  ℕ, ◌<◌, ◌≡◌, refl, sym, ◌∙◌, ap, ◌≢◌, inl, inr, Bool, true, false, not, ◌&&◌, Option, none, some,
  arith, ltb, ◌==◌, if◌then◌else◌, Bool-cases, ==→eq,
}
use cs202lab.Proc.{
  nproc, zombie, Chan, is_unused, is_used, is_zombie, is_proc, Table, set, wakeup, reparent,
}
use cs202lab.Proc.Loops.{
  lasting, wakeup-parent, wakeup-lasting, wakeup-initproc, reparent-parent, reparent-lasting,
  reparent-initproc, wakeup-nextpid, reparent-nextpid,
}

-- A process that has been made, by a `fork` that got to its end, and has not exited.
abbrev pub alive : Table → ℕ → Bool
alive t i =
    ltb i nproc
    && (not (is_unused (t.proc i).state)
        && (not (is_used (t.proc i).state) && not (is_zombie (t.proc i).state)))

abbrev pub alive_parent : Table → Option ℕ → Bool
alive_parent t none = false
alive_parent t (some q) = alive t q

-- Init is alive, so is the parent of every other process that a `fork` is through with, and no two
-- processes have one pid.
pub record IsTree (t : Table) : Type 0 where
  pub init : alive t t.initproc ≡ true
  pub parents :
      (i : ℕ)
      → i < nproc
      → is_unused (t.proc i).state ≡ false
      → is_used (t.proc i).state ≡ false
      → i ≢ t.initproc
      → alive_parent t (t.proc i).parent ≡ true
  pub pids :
      (i : ℕ)
      → i < nproc
      → is_unused (t.proc i).state ≡ false
      → (0 < (t.proc i).pid) × ((t.proc i).pid < t.nextpid)
  pub distinct :
      (i j : ℕ)
      → i < nproc
      → j < nproc
      → is_unused (t.proc i).state ≡ false
      → is_unused (t.proc j).state ≡ false
      → (t.proc i).pid ≡ (t.proc j).pid
      → i ≡ j
  pub fresh : 0 < t.nextpid

pub alive_parent-same :
    (t u : Table) (o : Option ℕ)
    → ((j : ℕ) → alive u j ≡ alive t j)
    → alive_parent u o ≡ alive_parent t o
alive_parent-same t u none same = refl
alive_parent-same t u (some q) same = same q

module _ {t : Table} (h : IsTree t) where
  -- Changes that leave alone who is alive, and the parents and pids.
  pub same-IsTree :
      (u : Table)
      → ((j : ℕ) → lasting (u.proc j) ≡ lasting (t.proc j))
      → ((j : ℕ) → (u.proc j).parent ≡ (t.proc j).parent)
      → u.initproc ≡ t.initproc
      → u.nextpid ≡ t.nextpid
      → IsTree u
  same-IsTree u same parent init next = record {
    init = ground (arith, same u.initproc, init, h.init, ap t.proc init);
    parents = λ i lt live made other.
        let o : alive_parent u (u.proc i).parent ≡ alive_parent t (t.proc i).parent =
          ap (alive_parent u) (parent i)
          ∙ alive_parent-same t u (t.proc i).parent (λ j. ground (arith, same j)) in
        o
        ∙ h.parents i lt (ground (arith, same i, live)) (ground (arith, same i, made))
            (ground (arith, other, init));
    pids = λ i lt live. ground (arith, same i, h.pids i lt, live, next);
    distinct = λ i j li lj ui uj e. ground (arith, same i, same j, h.distinct i j li lj, ui, uj, e);
    fresh = omega (arith, next, h.fresh);
  }

  module _ (p : ℕ) (here : alive t p ≡ true) (other : p ≢ t.initproc) (chan : Chan)
      (status : ℕ) where
    abbrev left : Table
    left = wakeup p chan (reparent p t)

    abbrev pub exited : Table
    exited = set left p (record (left.proc p) { xstate = status; state = zombie })

    pub left-lasting : (j : ℕ) → lasting (left.proc j) ≡ lasting (t.proc j)
    left-lasting j = wakeup-lasting p chan (reparent p t) j ∙ reparent-lasting p t j

    pub left-parent :
        (j : ℕ)
        → (left.proc j).parent ≡ (
            if ltb j nproc && is_proc (t.proc j).parent p
            then some t.initproc
            else (t.proc j).parent)
    left-parent j = wakeup-parent p chan (reparent p t) j ∙ reparent-parent p t j

    left-initproc : left.initproc ≡ t.initproc
    left-initproc = wakeup-initproc p chan (reparent p t) ∙ reparent-initproc p t

    left-nextpid : left.nextpid ≡ t.nextpid
    left-nextpid = wakeup-nextpid p chan (reparent p t) ∙ reparent-nextpid p t

    pub exited-alive : (j : ℕ) → alive exited j ≡ (alive t j && not (j == p))
    exited-alive j = ground (arith, left-lasting j)

    exited-init : alive exited t.initproc ≡ true
    exited-init = exited-alive t.initproc ∙ ground (arith, h.init, other)

    parent-alive :
        (o : Option ℕ)
        → alive_parent t o ≡ true
        → alive_parent exited (if is_proc o p then some t.initproc else o) ≡ true
    parent-alive none e = absurd (ground (arith, e))
    parent-alive (some q) e = elim (Bool-cases (q == p)) [
      | inl child ↦ rw child exited-init
      | inr safe ↦ rw safe (exited-alive q ∙ ground (arith, safe, e))
    ]

    exited-unused : (i : ℕ) → is_unused (exited.proc i).state ≡ is_unused (t.proc i).state
    exited-unused i = ground (arith, left-lasting i, here, ==→eq i p)

    pub exited-used : (i : ℕ) → is_used (exited.proc i).state ≡ is_used (t.proc i).state
    exited-used i = ground (arith, left-lasting i, here, ==→eq i p)

    exited-pid : (i : ℕ) → (exited.proc i).pid ≡ (t.proc i).pid
    exited-pid i = ground (arith, left-lasting i, left-lasting p, ==→eq i p)

    exited-parent :
        (i : ℕ)
        → i < nproc
        → (exited.proc i).parent
          ≡ (if is_proc (t.proc i).parent p then some t.initproc else (t.proc i).parent)
    exited-parent i lt = ground (arith, left-parent i, lt)

    pub exited-IsTree : IsTree exited
    exited-IsTree = record {
      init = ap (alive exited) left-initproc ∙ exited-init;
      parents = λ i lt live made ne.
          ap (alive_parent exited) (exited-parent i lt)
          ∙ parent-alive (t.proc i).parent (
              h.parents i lt (sym (exited-unused i) ∙ live) (sym (exited-used i) ∙ made)
                (ground (arith, ne, left-initproc)));
      pids = λ i lt live.
          ground (arith, exited-pid i, h.pids i lt (sym (exited-unused i) ∙ live), left-nextpid);
      distinct = λ i j li lj ui uj e.
          h.distinct i j li lj (sym (exited-unused i) ∙ ui) (sym (exited-unused j) ∙ uj)
            (sym (exited-pid i) ∙ e ∙ exited-pid j);
      fresh = omega (arith, left-nextpid, h.fresh);
    }
