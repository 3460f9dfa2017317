-- ===== src/Fs/Inodes.antt =====
-- Inodes of kernel/fs.c, on the disk and in the table. A pointer to an entry of the table is its
-- index, and `none` the null pointer.
pub mod Dinode
pub mod Table
pub mod Stored
pub mod Alloc
use cs202lab.Prelude.{
  ℕ, zero, suc, ◌+◌, ◌-◌, ◌*◌, ◌/◌, ◌%◌, Bool, true, false, not, ◌&&◌, ◌||◌, Option, none, some,
  ltb, ◌==◌, if◌then◌else◌, update,
}
use cs202lab.Prelude.Fallible.{◌>>=◌}
use cs202lab.Sleeplock.{Sleeplock, initsleeplock, acquiresleep, releasesleep, holdingsleep}
use cs202lab.Fs.Disk.{Block, word, put_word, half, put_half, Inode, Superblock, Fs, put_block}

abbrev pub ninode : ℕ
ninode = 50

abbrev pub ipb : ℕ
ipb = 16

-- The fields of the `struct dinode` at offset o.
unfoldable pub read_dinode : Block → ℕ → Inode → Inode
read_dinode d o ip = record ip {
  type = half d o;
  major = half d (o + 2);
  minor = half d (o + 4);
  nlink = half d (o + 6);
  size = word d (o + 8);
  addrs = λ i. if ltb i 13 then word d (o + 12 + 4 * i) else ip.addrs i;
}

unfoldable pub put_words : (k : ℕ) → Block → ℕ → (ℕ → ℕ) → Block
put_words zero d o a = d
put_words (suc k) d o a = put_word (put_words k d o a) (o + 4 * k) (a k)

unfoldable pub write_dinode : Block → ℕ → Inode → Block
write_dinode d o ip =
    let d1 = put_half d o ip.type in
    let d2 = put_half d1 (o + 2) ip.major in
    let d3 = put_half d2 (o + 4) ip.minor in
    let d4 = put_half d3 (o + 6) ip.nlink in
    let d5 = put_word d4 (o + 8) ip.size in put_words 13 d5 (o + 12) ip.addrs

-- Where a loop over the table stopped: at an entry that is wanted, or behind the end, with the first
-- entry that was free.
pub data Slot : Type 0 where
  hit : ℕ → Slot
  miss : Option ℕ → Slot

abbrev pub set_inode : ℕ → Inode → Fs → Fs
set_inode i ip f = record f { itable = update f.itable i ip }

unfoldable pub iinit : Fs → Fs
iinit f = record f {
  itable = λ i. if ltb i ninode then record (f.itable i) { lock = initsleeplock } else f.itable i;
}

abbrev pub holds_inode : (dev inum : ℕ) → Inode → Bool
holds_inode dev inum ip = ltb 0 ip.ref && (ip.dev == dev) && (ip.inum == inum)

abbrev pub remember : Option ℕ → ℕ → Inode → Option ℕ
remember (some e) i ip = some e
remember none i ip = if ip.ref == 0 then some i else none

-- The loop of `iget`, with k entries left, from entry i on.
unfoldable pub find_slot : (k i : ℕ) (empty : Option ℕ) (dev inum : ℕ) → (ℕ → Inode) → Slot
find_slot zero i empty dev inum t = miss empty
find_slot (suc k) i empty dev inum t =
    let rest = find_slot k (i + 1) (remember empty i (t i)) dev inum t in
    if holds_inode dev inum (t i) then hit i else rest

-- What `iget` does behind its loop; `none` is the panic when every entry is taken.
unfoldable pub take_slot : (dev inum : ℕ) → Fs → Slot → Option (ℕ × Fs)
take_slot dev inum f (hit i) =
    let ip = f.itable i in some (i, set_inode i (record ip { ref = ip.ref + 1 }) f)
take_slot dev inum f (miss none) = none
take_slot dev inum f (miss (some i)) =
    let ip = record (f.itable i) { dev = dev; inum = inum; ref = 1; valid = false } in
    some (i, set_inode i ip f)

unfoldable pub iget : (dev inum : ℕ) → Fs → Option (ℕ × Fs)
iget dev inum f = take_slot dev inum f (find_slot ninode 0 none dev inum f.itable)

unfoldable pub idup : ℕ → Fs → Fs
idup i f = let ip = f.itable i in set_inode i (record ip { ref = ip.ref + 1 }) f

module _ (sb : Superblock) where
  abbrev pub iblock : ℕ → ℕ
  iblock inum = inum / ipb + sb.inodestart

  abbrev pub dinode_offset : ℕ → ℕ
  dinode_offset inum = inum % ipb * 64

  unfoldable pub iupdate : ℕ → Fs → Fs
  iupdate i f =
      let ip = f.itable i in
      let b = iblock ip.inum in put_block b (write_dinode (f.block b) (dinode_offset ip.inum) ip) f

  -- What `ilock` does once it has the lock; `none` is the panic on an inode with no type.
  unfoldable pub fill : Inode → Fs → Option Inode
  fill ip f =
      let read = read_dinode (f.block (iblock ip.inum)) (dinode_offset ip.inum) ip in
      if ip.valid
      then some ip
      else if read.type == 0
      then none
      else some (record read { valid = true })

  -- `none`: it panics, or the lock is held and the process sleeps.
  unfoldable pub ilock : Option ℕ → Fs → Option Fs
  ilock none f = none
  ilock (some i) f =
      let ip = f.itable i in
      if ltb ip.ref 1 then none else do
        lk ← acquiresleep f.pid ip.lock
        read ← fill (record ip { lock = lk }) f
        some (set_inode i read f)

unfoldable pub iunlock : Option ℕ → Fs → Option Fs
iunlock none f = none
iunlock (some i) f =
    let ip = f.itable i in
    if not (holdingsleep f.pid ip.lock) || ltb ip.ref 1
    then none
    else some (set_inode i (record ip { lock = releasesleep ip.lock }) f)

module _ (sb : Superblock) where
  -- `memset(dip, 0, sizeof(*dip)); dip->type = type`
  unfoldable pub clear_dinode : Block → ℕ → ℕ → Block
  clear_dinode d o type = put_half (λ p. if not (ltb p o) && ltb p (o + 64) then 0 else d p) o type

  -- The loop of `ialloc`, with k rounds left: the first inode whose type on the disk is 0.
  unfoldable pub free_dinode : (k inum : ℕ) → Fs → Option ℕ
  free_dinode zero inum f = none
  free_dinode (suc k) inum f =
      let rest = free_dinode k (inum + 1) f in
      if half (f.block (iblock sb inum)) (dinode_offset sb inum) == 0 then some inum else rest

  -- The outer `none` is the panic of `iget`, the inner one the null pointer.
  unfoldable pub ialloc : (dev type : ℕ) → Fs → Option (Option ℕ × Fs)
  ialloc dev type f = elim (free_dinode (sb.ninodes - 1) 1 f) [
    | none ↦ some (none, f)
    | some inum ↦ do
      let b = iblock sb inum
      let d = clear_dinode (f.block b) (dinode_offset sb inum) type
      (i, f') ← iget dev inum (put_block b d f)
      some (some i, f')
  ]
