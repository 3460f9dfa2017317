-- ===== src/Fs/Bitmap.antt =====
-- The bitmap of free blocks of kernel/fs.c: `balloc` and `bfree`. The blocks of the bitmap start at
-- `sb.bmapstart`, and each has 8192 bits.
pub mod Bits
pub mod Marks
pub mod Alloc
pub mod Frame
use Prim.Native.Nat.{bit_and, bit_or}
use cs202lab.Prelude.{
  ℕ, zero, suc, ◌+◌, ◌-◌, ◌/◌, ◌%◌, ◌^◌, Bool, not, Option, none, some, ltb, ◌==◌, if◌then◌else◌,
  update,
}
use cs202lab.Fs.Disk.{Block, Superblock, Fs, put_block, bzero}

abbrev pub bpb : ℕ
bpb = 8192

-- (data[bi / 8] & (1 << (bi % 8))) != 0
unfoldable pub bit_at : Block → ℕ → Bool
bit_at d bi = not (bit_and (d (bi / 8)) (2 ^ (bi % 8)) == 0)

unfoldable pub with_bit : Block → ℕ → Block
with_bit d bi = update d (bi / 8) (bit_or (d (bi / 8)) (2 ^ (bi % 8)))

unfoldable pub without_bit : Block → ℕ → Block
without_bit d bi = update d (bi / 8) (bit_and (d (bi / 8)) (255 - 2 ^ (bi % 8)))

module _ (sb : Superblock) where
  abbrev pub bblock : ℕ → ℕ
  bblock b = b / bpb + sb.bmapstart

  -- The inner loop of `balloc`, with `k` rounds left.
  unfoldable pub free_in : (k bi b : ℕ) → Block → Option ℕ
  free_in zero bi b d = none
  free_in (suc k) bi b d =
      let rest = free_in k (bi + 1) b d in
      if ltb (b + bi) sb.size then (if bit_at d bi then rest else some (b + bi)) else none

  -- What `balloc` does with the free block n.
  unfoldable pub take_block : ℕ → Fs → Fs
  take_block n f = bzero n (put_block (bblock n) (with_bit (f.block (bblock n)) (n % bpb)) f)

  -- The outer loop: the free block that it stops at.
  unfoldable pub free_from : (k b : ℕ) → Fs → Option ℕ
  free_from zero b f = none
  free_from (suc k) b f =
      let rest = free_from k (b + bpb) f in
      if ltb b sb.size
      then elim (free_in bpb 0 b (f.block (bblock b))) [ none ↦ rest | some n ↦ some n ]
      else none

  unfoldable pub balloc : Fs → ℕ × Fs
  balloc f = elim (free_from (sb.size / bpb + 1) 0 f) [
    | none ↦ (0, f)
    | some n ↦ (n, take_block n f)
  ]

  -- `none` is the panic on a block that is free already.
  unfoldable pub bfree : ℕ → Fs → Option Fs
  bfree b f =
      let d = f.block (bblock b) in
      if bit_at d (b % bpb) then some (put_block (bblock b) (without_bit d (b % bpb)) f) else none
