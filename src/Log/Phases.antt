-- ===== src/Log/Phases.antt =====
-- What holds of the disk and of the cache while a transaction commits (kernel/log.c), and that each
-- block write leads from one of these states to the next.
use cs202lab.Prelude.{
  ℕ, zero, suc, ◌+◌, ◌-◌, ◌≤◌, ◌<◌, ◌≡◌, ◌∙◌, ◌⊎◌, inl, inr, ◌&&◌, Option, none, arith, ltb, leb,
  if◌then◌else◌, update, ap,
}
use cs202lab.Log.Machine.{Block, Disk, State, view}
use cs202lab.Log.{log_size, copy}
use cs202lab.Log.Crash.{After}

-- A block outside the log's area, which is size blocks from start on, the header with them.
abbrev pub Home : (start size : ℕ) → ℕ → Type 0
Home start size x = (x < start) ⊎ (start + size ≤ x)

-- One of the first `n` entries of `block` is `x`.
abbrev pub Listed : ℕ → (ℕ → ℕ) → ℕ → Type 0
Listed n block x = (i : ℕ) × (i < n) × (block i ≡ x)

-- The log on disk is empty, and the home blocks are those of `target`.
pub record Clean (start size : ℕ) (target d : Disk) : Type 0 where
  pub header : d start 0 ≡ 0
  pub home : (x : ℕ) → Home start size x → d x ≡ target x

-- The log on disk holds a transaction that leads to the home blocks of `new`.
pub record Committed (start size n : ℕ) (block : ℕ → ℕ) (new d : Disk) : Type 0 where
  pub header : d start 0 ≡ n
  pub blocks : (i : ℕ) → i < n → d start (i + 1) ≡ block i
  pub logged : (i : ℕ) → i < n → d (start + i + 1) ≡ new (block i)
  pub rest : (x : ℕ) → Home start size x → Listed n block x ⊎ (d x ≡ new x)

-- The transaction fits into the log and touches home blocks only.
pub record Fits (start size n : ℕ) (block : ℕ → ℕ) : Type 0 where
  pub small : n < size
  pub listed : n ≤ log_size
  pub homes : (i : ℕ) → i < n → Home start size (block i)

-- The words that `copy` writes, and those that it leaves.
pub copy_lem :
    (n j : ℕ) (src dst : ℕ → ℕ) (k : ℕ)
    → copy n j src dst k ≡ (if leb j k && ltb k (j + n) then src k else dst k)
unfolding copy
copy_lem zero j src dst k = ground arith
copy_lem (suc n) j src dst k = ground (arith, copy_lem n (j + 1) src (update dst j (src j)) k)

-- What `write_head` makes of the header block `hb`.
abbrev pub header_of : State → Block → Block
header_of s hb = copy s.n 1 (λ j. s.block (j - 1)) (update hb 0 s.n)

module _ (start size n : ℕ) (block : ℕ → ℕ) (old new : Disk) (p : Option ℕ) where
  -- `p` is the power at the beginning.
  pub record Knows (s : State) : Type 0 where
    pub start_at : s.start ≡ start
    pub count : s.n ≡ n
    pub block_at : (i : ℕ) → i < n → s.block i ≡ block i
    pub power : p ≡ none → s.power ≡ none

  -- The first `i` blocks stand in the log area, and nothing refers to them yet.
  pub record Filling (i : ℕ) (s : State) : Type 0 where
    pub knows : Knows s
    pub header : s.disk start 0 ≡ 0
    pub home : (x : ℕ) → Home start size x → s.disk x ≡ old x
    pub seen : (x : ℕ) → Home start size x → view s x ≡ new x
    pub logged : (j : ℕ) → j < i → s.disk (start + j + 1) ≡ new (block j)
    pub log_seen : (j : ℕ) → j < i → view s (start + j + 1) ≡ new (block j)

  -- The transaction stands in the log, and its first `i` blocks at their homes.
  pub record Installing (i : ℕ) (s : State) : Type 0 where
    pub knows : Knows s
    pub committed : Committed start size n block new s.disk
    pub log_seen : (j : ℕ) → j < n → view s (start + j + 1) ≡ new (block j)
    pub seen : (x : ℕ) → Home start size x → (view s x ≡ new x) ⊎ (view s x ≡ s.disk x)
    pub installed : (j : ℕ) → j < i → s.disk (block j) ≡ new (block j)

  module _ (f : Fits start size n block) {s t : State} where
    pub After-Knows : {a : ℕ} {x : Block} → After a x s t → Knows s → Knows t
    After-Knows h k = record {
      start_at = h.start ∙ k.start_at;
      count = h.n ∙ k.count;
      block_at = λ i lt. ap (λ (b : ℕ → ℕ). b i) h.block ∙ k.block_at i lt;
      power = λ e. h.power (k.power e);
    }

    pub Filling-suc :
        (i : ℕ)
        → i < n
        → Filling i s
        → After (s.start + i + 1) (view s (s.block i)) s t
        → Filling (i + 1) t
    Filling-suc i lt h a = record {
      knows = After-Knows a h.knows;
      header = ground (arith, a.disk_at start);
      home = λ x o. ground (arith, a.disk_at x, h.home x, f.small);
      seen = λ x o. ground (arith, a.view_at x, h.seen x, f.small);
      logged = λ j l. ground (
        arith,
        a.disk_at (start + j + 1),
        h.logged j,
        h.knows.block_at i,
        h.seen (block i),
        f.homes i,
      );
      log_seen = λ j l. ground (
        arith,
        a.view_at (start + j + 1),
        h.log_seen j,
        h.knows.block_at i,
        h.seen (block i),
        f.homes i,
      );
    }

    -- Writing the header commits the transaction.
    pub Installing-zero :
        Filling n s
        → ((x : ℕ) → Home start size x → Listed n block x ⊎ (old x ≡ new x))
        → After s.start (header_of s (view s s.start)) s t
        → Installing 0 t
    Installing-zero h clean a = record {
      knows = After-Knows a h.knows;
      committed = record {
        header = ground (
          arith,
          a.disk_at start,
          copy_lem s.n 1 (λ j. s.block (j - 1)) (update (view s s.start) 0 s.n) 0,
        );
        blocks = λ i lt. ground (
          arith,
          a.disk_at start,
          copy_lem s.n 1 (λ j. s.block (j - 1)) (update (view s s.start) 0 s.n) (i + 1),
          h.knows.block_at i,
        );
        logged = λ i lt. ground (arith, a.disk_at (start + i + 1), h.logged i);
        rest = λ x o. ground (arith, a.disk_at x, h.home x, clean x);
      };
      log_seen = λ j l. ground (arith, a.view_at (start + j + 1), h.log_seen j);
      seen = λ x o. inl (ground (arith, a.view_at x, h.seen x));
      installed = λ j l. absurd (omega arith);
    }

    pub Installing-suc :
        (i : ℕ)
        → i < n
        → Installing i s
        → After (s.block i) (view s (s.start + i + 1)) s t
        → Installing (i + 1) t
    Installing-suc i lt h a = record {
      knows = After-Knows a h.knows;
      committed = record {
        header = ground (arith, a.disk_at start, h.committed.header, h.knows.block_at i, f.homes i);
        blocks = λ j l.
            ground (arith, a.disk_at start, h.committed.blocks j, h.knows.block_at i, f.homes i);
        logged = λ j l. ground (
          arith,
          a.disk_at (start + j + 1),
          h.committed.logged j,
          h.knows.block_at i,
          f.homes i,
          f.small,
        );
        rest = λ x o. elim (h.committed.rest x o) [
          | inl l ↦ inl l
          | inr e ↦ inr (ground (arith, a.disk_at x, h.log_seen i, h.knows.block_at i))
        ];
      };
      log_seen = λ j l.
          ground (
            arith,
            a.view_at (start + j + 1),
            h.log_seen j,
            h.knows.block_at i,
            f.homes i,
            f.small,
          );
      seen = λ x o.
          ground (arith, a.view_at x, a.disk_at x, h.seen x, h.log_seen i, h.knows.block_at i);
      installed = λ j l.
          ground (arith, a.disk_at (block j), h.installed j, h.log_seen i, h.knows.block_at i);
    }
