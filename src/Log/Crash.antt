-- ===== src/Log/Crash.antt =====
-- A logic for runs that the power failure may cut short, and what one block write of kernel/log.c does.
use cs202lab.Prelude.{
  ℕ, zero, suc, ◌+◌, ◌-◌, ◌<◌, ◌≡◌, refl, sym, Bool, true, false, Option, none, some, arith, ◌==◌,
  if◌then◌else◌, update,
}
use cs202lab.Log.Machine.{
  Block, Disk, State, Run, done, crashed, M, and_then, view, cached_or, bread, set_data,
  powered_write, bwrite, brelse, bunpin,
}
use cs202lab.Log.{rounds, copy, install_block, log_block, write_head}

-- The run returns in a state with `P`, or the power fails on a disk with `C`; it does not panic.
pub data Ends {A : Type 0} (C : Disk → Type 0) (P : A → State → Type 0) : Run A → Type 0 where
  returns : {a : A} {s : State} → P a s → Ends C P (done a s)
  fails : {d : Disk} → C d → Ends C P (crashed d)

module _ {A : Type 0} {C : Disk → Type 0} {P : A → State → Type 0} where
  pub bind :
      {B : Type 0} {Q : B → State → Type 0} {r : Run A} {k : A → M B}
      → Ends C P r
      → ((a : A) (s : State) → P a s → Ends C Q (k a s))
      → Ends C Q (and_then r k)
  bind (returns p) next = next _ _ p
  bind (fails c) next = fails c

  pub mono :
      {D : Disk → Type 0} {Q : A → State → Type 0} {r : Run A}
      → Ends C P r
      → ((d : Disk) → C d → D d)
      → ((a : A) (s : State) → P a s → Q a s)
      → Ends D Q r
  mono (returns p) f g = returns (g _ _ p)
  mono (fails c) f g = fails (f _ c)

-- Inversion: a run that cannot fail returns, and a run that failed left a disk with `C`.
module _ {A : Type 0} {C : Disk → Type 0} {P : A → State → Type 0} where
  pub Ends-returns :
      {r : Run A}
      → ((d : Disk) → ¬ C d)
      → Ends C P r
      → (a : A) × (s : State) × (r ≡ done a s) × P a s
  Ends-returns never (returns h) = (_, _, refl, h)
  Ends-returns never (fails c) = absurd (never _ c)

  pub Ends-done : {r : Run A} {a : A} {s : State} → Ends C P r → r ≡ done a s → P a s
  Ends-done {a} {s} (returns {a = a'} {s = s'} h) e =
      let same_a : a' ≡ a = cc in let same_s : s' ≡ s = cc in rw same_a at (rw same_s at h)
  Ends-done (fails c) e = cc

  pub Ends-crashed : {r : Run A} {d : Disk} → Ends C P r → r ≡ crashed d → C d
  Ends-crashed (returns h) e = cc
  Ends-crashed {d} (fails {d = d'} c) e = let same : d' ≡ d = cc in rw same at c

-- The rule for loops: the invariant at the first index gives it at the last.
pub rounds-Ends :
    {C : Disk → Type 0} (I : ℕ → State → Type 0) (body : ℕ → M (Unit {0})) (j : ℕ)
    → ((i : ℕ) (s : State) → i < j → I i s → Ends C (λ _ t. I (i + 1) t) (body i s))
    → (n i : ℕ) (s : State) → i + n ≡ j
    → I i s
    → Ends C (λ _ t. I j t) (rounds n i body s)
unfolding rounds
rounds-Ends I body j keep zero i s e h = let e' : i ≡ j = omega arith in returns (rw (← e') h)
rounds-Ends I body j keep (suc n) i s e h =
    bind (keep i s (omega arith) h) λ _ t h'. rounds-Ends I body j keep n (i + 1) t (omega arith) h'

-- `t` is `s` after block `a` was set to `x`, in the cache and on disk.
pub record After (a : ℕ) (x : Block) (s t : State) : Type 0 where
  pub disk_at : (y : ℕ) → t.disk y ≡ (if y == a then x else s.disk y)
  pub view_at : (y : ℕ) → view t y ≡ (if y == a then x else view s y)
  pub start : t.start ≡ s.start
  pub n : t.n ≡ s.n
  pub block : t.block ≡ s.block
  pub power : s.power ≡ none → t.power ≡ none
  pub outstanding : t.outstanding ≡ s.outstanding
  pub committing : t.committing ≡ s.committing
  pub size : t.size ≡ s.size

-- The power was at its end, and the disk is as before.
pub record Cut (s : State) (d : Disk) : Type 0 where
  pub disk : d ≡ s.disk
  pub power : s.power ≡ some 0

abbrev pub Writes : ℕ → Block → State → Run (Unit {0}) → Type 0
Writes a x s r = Ends (Cut s) (λ _ t. After a x s t) r

-- The counts of the references play no part in it.
After-refcnt :
    {a : ℕ} {x : Block} {s t : State} (r : ℕ → ℕ)
    → After a x s t
    → After a x s (record t { refcnt = r })
After-refcnt r h = record {
  disk_at = h.disk_at;
  view_at = h.view_at;
  start = h.start;
  n = h.n;
  block = h.block;
  power = h.power;
  outstanding = h.outstanding;
  committing = h.committing;
  size = h.size;
}

-- `u` is `s` with block `a` set to `x` in the cache alone.
record Prepared (a : ℕ) (x : Block) (s u : State) : Type 0 where
  disk : u.disk ≡ s.disk
  view_at : (y : ℕ) → view u y ≡ (if y == a then x else view s y)
  start : u.start ≡ s.start
  n : u.n ≡ s.n
  block : u.block ≡ s.block
  power : u.power ≡ s.power
  outstanding : u.outstanding ≡ s.outstanding
  committing : u.committing ≡ s.committing
  size : u.size ≡ s.size

powered_write-Writes :
    (p : Option ℕ) {a : ℕ} {x : Block} {s u : State}
    → s.power ≡ p
    → Prepared a x s u
    → Writes a x s (powered_write p a u)
unfolding powered_write
powered_write-Writes none {a} {x} {s} {u} e h = returns (record {
  disk_at = λ y. ground (arith, h.view_at a, h.disk);
  view_at = λ y. ground (arith, h.view_at a, h.view_at y);
  start = h.start;
  n = h.n;
  block = h.block;
  power = λ q. ground (arith, h.power);
  outstanding = h.outstanding;
  committing = h.committing;
  size = h.size;
})
powered_write-Writes (some zero) e h = fails (record { disk = h.disk; power = e })
powered_write-Writes (some (suc k)) {a} {x} {s} {u} e h = returns (record {
  disk_at = λ y. ground (arith, h.view_at a, h.disk);
  view_at = λ y. ground (arith, h.view_at a, h.view_at y);
  start = h.start;
  n = h.n;
  block = h.block;
  power = λ q. ground (arith, h.power);
  outstanding = h.outstanding;
  committing = h.committing;
  size = h.size;
})

bwrite-Writes : {a : ℕ} {x : Block} {s u : State} → Prepared a x s u → Writes a x s (bwrite a u)
unfolding bwrite
bwrite-Writes {u} h = powered_write-Writes u.power (sym h.power) h

prepare :
    {a : ℕ} {x : Block} (s : State) (c : ℕ → Option Block) (r : ℕ → ℕ)
    → ((y : ℕ) → cached_or (c y) (s.disk y) ≡ (if y == a then x else view s y))
    → Prepared a x s (record s { cache = c; refcnt = r })
prepare s c r h = record {
  disk = refl;
  view_at = h;
  start = refl;
  n = refl;
  block = refl;
  power = refl;
  outstanding = refl;
  committing = refl;
  size = refl;
}

module _ (s : State) where
  pub log_block-Writes :
      (tail : ℕ) → Writes (s.start + tail + 1) (view s (s.block tail)) s (log_block tail s)
  unfolding log_block bread set_data brelse
  log_block-Writes tail =
      bind (bwrite-Writes (prepare s _ _ λ y. ground arith)) λ _ t h. returns (After-refcnt _ h)

  pub install_block-Writes :
      (recovering : Bool) (tail : ℕ)
      → Writes (s.block tail) (view s (s.start + tail + 1)) s (install_block recovering tail s)
  unfolding install_block bread set_data brelse bunpin
  install_block-Writes true tail =
      bind (bwrite-Writes {x = view s (s.start + tail + 1)} (prepare s _ _ λ y. ground arith))
        λ _ t h. returns (After-refcnt _ h)
  install_block-Writes false tail =
      bind (bwrite-Writes {x = view s (s.start + tail + 1)} (prepare s _ _ λ y. ground arith))
        λ _ t h. returns (After-refcnt _ h)

  pub write_head-Writes :
      Writes s.start
        (copy s.n 1 (λ j. s.block (j - 1)) (update (view s s.start) 0 s.n))
        s
        (write_head s)
  unfolding write_head bread set_data brelse
  write_head-Writes =
      bind (bwrite-Writes (prepare s _ _ λ y. ground arith)) λ _ t h. returns (After-refcnt _ h)
