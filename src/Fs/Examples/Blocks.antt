-- ===== src/Fs/Examples/Blocks.antt =====
-- The theorems on blocks and inodes of kernel/fs.c at the small disk.
use cs202lab.Prelude.{ℕ, ◌<◌, ◌≡◌, ◌≢◌, ◌⊎◌, refl, update, true, false, some, arith}
use cs202lab.Fs.Disk.{Fs}
use cs202lab.Fs.Bitmap.{bit_at, free_in, free_from, balloc, bfree}
use cs202lab.Fs.Bitmap.Marks.{is_used}
use cs202lab.Fs.Bitmap.Alloc.{Allocated, balloc-Allocated, bfree-balloc}
use cs202lab.Fs.Inodes.{iupdate, ilock, iget, ialloc}
use cs202lab.Fs.Inodes.Dinode.{SameFile}
use cs202lab.Fs.Inodes.Stored.{ilock-iupdate}
use cs202lab.Fs.Inodes.Table.{Unique, Gets, iget-Gets}
use cs202lab.Fs.Inodes.Alloc.{Allocs, ialloc-Allocs}
use cs202lab.Fs.Examples.{small, disk, disk-Marked, file-InRange}

-- Block 6 is the first that is free.
abbrev block_6 : ℕ
block_6 = (balloc small disk).0

block_6-is_6 : block_6 ≡ 6
unfolding balloc free_from free_in bit_at
block_6-is_6 = refl

balloc-Allocated_example :
    (((balloc small disk).0 ≡ 0)
      × ((balloc small disk).1 ≡ disk)
      × ((c : ℕ) → c < 8 → is_used small disk c ≡ true))
    ⊎ Allocated small disk (balloc small disk).0 (balloc small disk).1
balloc-Allocated_example = balloc-Allocated small disk disk-Marked

bfree-balloc_example :
    (f' : Fs) × (bfree small (balloc small disk).0 (balloc small disk).1 ≡ some f')
    × ((c : ℕ) → c < 8 → is_used small f' c ≡ is_used small disk c)
bfree-balloc_example =
    bfree-balloc small disk disk-Marked (λ e. absurd (omega (arith, block_6-is_6)))

-- Entry 0 was written to the disk, given up, and given out again for the same inode.
abbrev again : Fs
again = record (iupdate small 0 disk) {
  itable =
      update disk.itable 0
        (record (disk.itable 0) { ref = 1; valid = false; type = 0; size = 0; addrs = λ n. 0 });
}

ilock-iupdate_example :
    (g' : Fs) × (ilock small (some 0) again ≡ some g')
    × SameFile (g'.itable 0) (disk.itable 0)
    × ((g'.itable 0).valid ≡ true)
    × ((c : ℕ) → c ≢ 0 → g'.itable c ≡ again.itable c)
ilock-iupdate_example =
    ilock-iupdate small disk 0 again 0 file-InRange (λ e. absurd (omega arith)) refl refl refl refl
      refl (omega arith)

pub disk-Unique : Unique disk
disk-Unique dev inum i j li lj hi hj = ground (arith, hi, hj)

iget-Gets_example : Gets 1 2 disk (iget 1 2 disk)
iget-Gets_example = iget-Gets 1 2 disk disk-Unique

ialloc-Allocs_example : Allocs small 1 2 disk (ialloc small 1 2 disk)
ialloc-Allocs_example = ialloc-Allocs small 1 2 disk disk-Unique (omega arith)
