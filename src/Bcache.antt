-- ===== src/Bcache.antt =====
-- kernel/bio.c. A buffer is its index in `bcache.buf`; the linked list through the buffers is the list
-- `order` from `head.next` to `head.prev`. The contents of a block are one number. What
-- `virtio_disk_rw` reads is the argument `disk`, by device and block. Locks are not modelled.
pub mod Search
pub mod View
pub mod Read
pub mod Release
mod Examples
use cs202lab.Prelude.{
  ℕ, zero, suc, ◌+◌, ◌-◌, Bool, true, false, not, ◌&&◌, Option, none, some, List, [], ◌∷◌, ◌==◌,
  if◌then◌else◌, update,
}

-- NBUF, which is MAXOPBLOCKS * 3.
abbrev pub nbuf : ℕ
nbuf = 30

pub record Buf : Type 0 where
  pub valid : Bool
  pub dev : ℕ
  pub blockno : ℕ
  pub refcnt : ℕ
  pub contents : ℕ

pub record Bcache : Type 0 where
  pub buf : ℕ → Buf
  pub order : List ℕ

-- Buffers n, n - 1 and on, each put in front of those before it: the loop of `binit`, read backwards.
pub chain : ℕ → List ℕ
chain zero = []
chain (suc n) = n ∷ chain n

pub binit : Bcache → Bcache
unfolding chain
binit c = record c { order = chain nbuf }

-- The first and the last of the list that pass a test.
pub find : (ℕ → Bool) → List ℕ → Option ℕ
find p [] = none
find p (i ∷ is) = let rest = find p is in if p i then some i else rest

pub find_last : (ℕ → Bool) → List ℕ → Option ℕ
find_last p [] = none
find_last p (i ∷ is) = elim (find_last p is) [
  | some j ↦ some j
  | none ↦ if p i then some i else none
]

abbrev pub is_block : Bcache → ℕ → ℕ → ℕ → Bool
is_block c dev blockno i = ((c.buf i).dev == dev) && ((c.buf i).blockno == blockno)

abbrev pub unused : Bcache → ℕ → Bool
unused c i = (c.buf i).refcnt == 0

abbrev pub set : Bcache → ℕ → Buf → Bcache
set c i b = record c { buf = update c.buf i b }

-- The first loop of `bget`, and the second. `none` is the panic.
pub recycle : ℕ → ℕ → Bcache → Option (ℕ × Bcache)
unfolding find_last
recycle dev blockno c = elim (find_last (unused c) c.order) [
  | none ↦ none
  | some i ↦
      some
        (i, set c i (record (c.buf i) { dev = dev; blockno = blockno; valid = false; refcnt = 1 }))
]

pub bget : ℕ → ℕ → Bcache → Option (ℕ × Bcache)
unfolding find recycle
bget dev blockno c = elim (find (is_block c dev blockno) c.order) [
  | some i ↦ some (i, set c i (record (c.buf i) { refcnt = (c.buf i).refcnt + 1 }))
  | none ↦ recycle dev blockno c
]

-- The rest of `bread`, on the buffer that `bget` found.
pub fill : (ℕ → ℕ → ℕ) → ℕ → Bcache → Bcache
fill disk i c =
    let b = c.buf i in
    if not b.valid then set c i (record b { contents = disk b.dev b.blockno; valid = true }) else c

pub bread : (ℕ → ℕ → ℕ) → ℕ → ℕ → Bcache → Option (ℕ × Bcache)
unfolding bget fill
bread disk dev blockno c = elim (bget dev blockno c) [
  | none ↦ none
  | some (i, d) ↦ some (i, fill disk i d)
]

-- The disk afterwards.
pub bwrite : (ℕ → ℕ → ℕ) → ℕ → Bcache → ℕ → ℕ → ℕ
bwrite disk i c dev blockno =
    let b = c.buf i in
    if (dev == b.dev) && (blockno == b.blockno) then b.contents else disk dev blockno

pub remove : ℕ → List ℕ → List ℕ
remove i [] = []
remove i (j ∷ is) = if j == i then is else j ∷ remove i is

-- A count of 0 is not reached, since the caller holds the buffer.
pub brelse : ℕ → Bcache → Bcache
unfolding remove
brelse i c =
    let d = set c i (record (c.buf i) { refcnt = (c.buf i).refcnt - 1 }) in
    if (d.buf i).refcnt == 0 then record d { order = i ∷ remove i d.order } else d

pub bpin : ℕ → Bcache → Bcache
bpin i c = set c i (record (c.buf i) { refcnt = (c.buf i).refcnt + 1 })

pub bunpin : ℕ → Bcache → Bcache
bunpin i c = set c i (record (c.buf i) { refcnt = (c.buf i).refcnt - 1 })
