-- ===== src/Proc/Loops.antt =====
-- The loops over the process table of kernel/proc.c.
use cs202lab.Prelude.{
  ℕ, zero, suc, ◌+◌, ◌≤◌, ◌<◌, ◌≡◌, refl, ◌∙◌, ap, inl, inr, Bool, true, false, not, ◌&&◌, none,
  some, arith, ltb, leb, ◌==◌, if◌then◌else◌, Bool-cases,
}
use cs202lab.Proc.{
  nproc, runnable, Chan, at_proc, is_chan, is_sleeping, is_unused, is_used, is_zombie, is_proc,
  Proc, Table, set, each, first, rouse, wakeup, adopt, reparent,
}

pub first-some :
    (k i : ℕ) (test : ℕ → Bool) (j : ℕ)
    → first k i test ≡ some j
    → (i ≤ j) × (j < i + k) × (test j ≡ true)
unfolding first
first-some zero i test j e = absurd (ground arith)
first-some (suc k) i test j e = elim (Bool-cases (test i)) [
  | inl here ↦ let e' : some i ≡ some j = rw here at e in ground (arith, here, e')
  | inr there ↦
      let e' : first k (i + 1) test ≡ some j = rw there at e in
      ground (arith, first-some k (i + 1) test j e')
]

pub first-none :
    (k i : ℕ) (test : ℕ → Bool)
    → first k i test ≡ none
    → (j : ℕ) → i ≤ j
    → j < i + k
    → test j ≡ false
unfolding first
first-none zero i test e j lo hi = absurd (omega arith)
first-none (suc k) i test e j lo hi = elim (Bool-cases (test i)) [
  | inl here ↦ absurd (ground (arith, here, e))
  | inr there ↦
      let e' : first k (i + 1) test ≡ none = rw there at e in
      ground (arith, there, first-none k (i + 1) test e' j, ap test)
]

-- What `wakeup` does to process i.
abbrev pub roused : ℕ → Chan → ℕ → Proc → Proc
roused me chan i p =
    if not (i == me) && (is_sleeping p.state && is_chan p.chan chan)
    then record p { state = runnable }
    else p

-- A loop whose round i changes what `view` shows of process i alone, and that by `f i`.
module _ {X : Type 0} (view : Proc → X) (c : ℕ) (body : ℕ → Table → Table) (f : ℕ → X → X)
    (keeps : (i : ℕ) (t : Table) → t.initproc ≡ c → (body i t).initproc ≡ c)
    (one : (i : ℕ) (t : Table) (j : ℕ)
      → t.initproc ≡ c
      → view ((body i t).proc j)
        ≡ (if j == i then f j (view (t.proc j)) else view (t.proc j))) where
  pub each-initproc : (k i : ℕ) (t : Table) → t.initproc ≡ c → (each k i body t).initproc ≡ c
  unfolding each
  each-initproc zero i t e = e
  each-initproc (suc k) i t e = each-initproc k (i + 1) (body i t) (keeps i t e)

  pub each-view :
      (k i : ℕ) (t : Table) (j : ℕ)
      → t.initproc ≡ c
      → view ((each k i body t).proc j)
        ≡ (if leb i j && ltb j (i + k) then f j (view (t.proc j)) else view (t.proc j))
  unfolding each
  each-view zero i t j e = ground arith
  each-view (suc k) i t j e =
      ground (arith, each-view k (i + 1) (body i t) j (keeps i t e), one i t j e)

-- `wakeup` makes runnable exactly the processes that sleep on the channel, its caller excepted, and
-- changes nothing else of any process.
pub wakeup-proc :
    (me : ℕ) (chan : Chan) (t : Table) (j : ℕ)
    → (wakeup me chan t).proc j ≡ (if ltb j nproc then roused me chan j (t.proc j) else t.proc j)
unfolding wakeup rouse
wakeup-proc me chan t j =
    each-view (λ p. p) t.initproc (rouse me chan) (roused me chan) (λ i u e. ground (arith, e))
      (λ i u k e. ground arith) nproc 0 t j refl
    ∙ ground arith

pub wakeup-initproc : (me : ℕ) (chan : Chan) (t : Table) → (wakeup me chan t).initproc ≡ t.initproc
unfolding wakeup rouse
wakeup-initproc me chan t =
    each-initproc (λ p. p) t.initproc (rouse me chan) (roused me chan) (λ i u e. ground (arith, e))
      (λ i u k e. ground arith) nproc 0 t refl

-- What is left of a process when one only wakes it: whether its slot is free, whether it exited, its pid.
abbrev pub Lasting : Type 0
Lasting = Bool × Bool × Bool × ℕ

abbrev pub lasting : Proc → Lasting
lasting p = (is_unused p.state, is_used p.state, is_zombie p.state, p.pid)

pub wakeup-parent :
    (me : ℕ) (chan : Chan) (t : Table) (j : ℕ)
    → ((wakeup me chan t).proc j).parent ≡ (t.proc j).parent
wakeup-parent me chan t j = ap (λ p. p.parent) (wakeup-proc me chan t j) ∙ ground arith

pub wakeup-lasting :
    (me : ℕ) (chan : Chan) (t : Table) (j : ℕ)
    → lasting ((wakeup me chan t).proc j) ≡ lasting (t.proc j)
wakeup-lasting me chan t j = ap lasting (wakeup-proc me chan t j) ∙ ground arith

module _ (p i : ℕ) (u : Table) where
  abbrev adopted : Table
  adopted = set u i (record (u.proc i) { parent = some u.initproc })

  adopt-initproc : (adopt p i u).initproc ≡ u.initproc
  unfolding adopt
  adopt-initproc = elim (Bool-cases (is_proc (u.proc i).parent p)) [
    | inl child ↦ rw child (wakeup-initproc p (at_proc u.initproc) adopted)
    | inr other ↦ rw other refl
  ]

  adopt-parent :
      (k : ℕ)
      → ((adopt p i u).proc k).parent ≡ (
          if k == i
          then (if is_proc (u.proc k).parent p then some u.initproc else (u.proc k).parent)
          else (u.proc k).parent)
  unfolding adopt
  adopt-parent k = elim (Bool-cases (is_proc (u.proc i).parent p)) [
    | inl child ↦ rw child (wakeup-parent p (at_proc u.initproc) adopted k ∙ ground (arith, child))
    | inr other ↦ rw other (ground (arith, other))
  ]

  adopt-lasting : (k : ℕ) → lasting ((adopt p i u).proc k) ≡ lasting (u.proc k)
  unfolding adopt
  adopt-lasting k = elim (Bool-cases (is_proc (u.proc i).parent p)) [
    | inl child ↦ rw child (wakeup-lasting p (at_proc u.initproc) adopted k ∙ ground arith)
    | inr other ↦ rw other refl
  ]

-- `reparent` makes the children of p those of init.
pub reparent-parent :
    (p : ℕ) (t : Table) (j : ℕ)
    → ((reparent p t).proc j).parent
      ≡ (if ltb j nproc && is_proc (t.proc j).parent p then some t.initproc else (t.proc j).parent)
unfolding reparent adopt
reparent-parent p t j =
    each-view (λ q. q.parent) t.initproc (adopt p)
      (λ i o. if is_proc o p then some t.initproc else o) (λ i u e. adopt-initproc p i u ∙ e)
      (λ i u k e.
        adopt-parent p i u k
        ∙ ap
            (λ c.
              if k == i
              then (if is_proc (u.proc k).parent p then some c else (u.proc k).parent)
              else (u.proc k).parent)
            e)
      nproc 0 t j refl
    ∙ ground arith

pub reparent-lasting :
    (p : ℕ) (t : Table) (j : ℕ) → lasting ((reparent p t).proc j) ≡ lasting (t.proc j)
unfolding reparent adopt
reparent-lasting p t j =
    each-view lasting t.initproc (adopt p) (λ i l. l) (λ i u e. adopt-initproc p i u ∙ e)
      (λ i u k e. adopt-lasting p i u k ∙ ground arith) nproc 0 t j refl
    ∙ ground arith

pub reparent-initproc : (p : ℕ) (t : Table) → (reparent p t).initproc ≡ t.initproc
unfolding reparent
reparent-initproc p t =
    each-initproc lasting t.initproc (adopt p) (λ i l. l) (λ i u e. adopt-initproc p i u ∙ e)
      (λ i u k e. adopt-lasting p i u k ∙ ground arith) nproc 0 t refl

each-nextpid :
    (body : ℕ → Table → Table)
    → ((i : ℕ) (t : Table) → (body i t).nextpid ≡ t.nextpid)
    → (k i : ℕ) (t : Table) → (each k i body t).nextpid ≡ t.nextpid
unfolding each
each-nextpid body same zero i t = refl
each-nextpid body same (suc k) i t = each-nextpid body same k (i + 1) (body i t) ∙ same i t

pub wakeup-nextpid : (me : ℕ) (chan : Chan) (t : Table) → (wakeup me chan t).nextpid ≡ t.nextpid
unfolding wakeup rouse
wakeup-nextpid me chan t = each-nextpid (rouse me chan) (λ i u. ground arith) nproc 0 t

adopt-nextpid : (p i : ℕ) (u : Table) → (adopt p i u).nextpid ≡ u.nextpid
unfolding adopt
adopt-nextpid p i u = elim (Bool-cases (is_proc (u.proc i).parent p)) [
  | inl child ↦ rw child (wakeup-nextpid p (at_proc u.initproc) (adopted p i u))
  | inr other ↦ rw other refl
]

pub reparent-nextpid : (p : ℕ) (t : Table) → (reparent p t).nextpid ≡ t.nextpid
unfolding reparent
reparent-nextpid p t = each-nextpid (adopt p) (adopt-nextpid p) nproc 0 t
