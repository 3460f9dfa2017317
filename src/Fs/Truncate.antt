-- ===== src/Fs/Truncate.antt =====
-- `itrunc`, `iput` and `iunlockput` of kernel/fs.c: the end of a file's content and of an inode.
pub mod Freeing
pub mod Cleared
pub mod Loops
pub mod Itrunc
pub mod Iput
use cs202lab.Prelude.{
  ℕ, zero, suc, ◌+◌, ◌-◌, ◌*◌, Bool, true, false, ◌&&◌, Option, none, some, ◌==◌, if◌then◌else◌,
  update,
}
use cs202lab.Prelude.Fallible.{◌>>=◌}
use cs202lab.Sleeplock.{acquiresleep, releasesleep}
use cs202lab.Fs.Disk.{word, Inode, Superblock, Fs}
use cs202lab.Fs.Bitmap.{bfree}
use cs202lab.Fs.Inodes.{set_inode, iupdate, iunlock}
use cs202lab.Fs.Content.{ndirect, nindirect, store_slot}

module _ (sb : Superblock) (i : ℕ) where
  -- The loop over the direct blocks, with k rounds left. `none` is the panic of `bfree`.
  unfoldable pub free_direct : (k j : ℕ) → Fs → Option Fs
  free_direct zero j f = some f
  free_direct (suc k) j f =
      let a = (f.itable i).addrs j in
      let rest = λ (g : Fs). free_direct k (j + 1) g in
      if a == 0 then rest f else do g ← bfree sb a f; rest (store_slot i j 0 g)

  -- The loop over the entries of the indirect block b.
  unfoldable pub free_entries : (k j b : ℕ) → Fs → Option Fs
  free_entries zero j b f = some f
  free_entries (suc k) j b f =
      let a = word (f.block b) (4 * j) in
      let rest = λ (g : Fs). free_entries k (j + 1) b g in
      if a == 0 then rest f else do g ← bfree sb a f; rest g

  unfoldable pub free_indirect : Fs → Option Fs
  free_indirect f =
      let b = (f.itable i).addrs ndirect in
      if b == 0
      then some f
      else do g ← free_entries nindirect 0 b f; h ← bfree sb b g; some (store_slot i ndirect 0 h)

  unfoldable pub itrunc : Fs → Option Fs
  itrunc f = do
    g ← free_direct ndirect 0 f
    h ← free_indirect g
    some (iupdate sb i (set_inode i (record (h.itable i) { size = 0 }) h))

  -- What `iput` does to an inode with no links when the last reference goes.
  unfoldable pub free_inode : Fs → Option Fs
  free_inode f = do
    lk ← acquiresleep f.pid (f.itable i).lock
    g ← itrunc (set_inode i (record (f.itable i) { lock = lk }) f)
    let h = iupdate sb i (set_inode i (record (g.itable i) { type = 0 }) g)
    let ip = h.itable i
    some (set_inode i (record ip { valid = false; lock = releasesleep ip.lock }) h)

  abbrev pub drop_ref : Fs → Option Fs
  drop_ref f = let ip = f.itable i in some (set_inode i (record ip { ref = ip.ref - 1 }) f)

  -- The caller has a reference, so that the count does not fall below 0.
  unfoldable pub iput : Fs → Option Fs
  iput f =
      let ip = f.itable i in
      (if (ip.ref == 1) && (ip.valid && (ip.nlink == 0)) then free_inode f else some f) >>= drop_ref

  unfoldable pub iunlockput : Fs → Option Fs
  iunlockput f = do g ← iunlock (some i) f; iput g
