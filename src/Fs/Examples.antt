-- ===== src/Fs/Examples.antt =====
-- kernel/fs.c on a small disk: block 2 has the inodes, block 3 the bitmap, and there are 8 blocks.
mod Blocks
mod Files
mod Paths
use cs202lab.Prelude.{
  ℕ, zero, suc, ◌+◌, ◌-◌, ◌*◌, ◌/◌, ◌%◌, ◌^◌, ◌≤◌, ◌<◌, ◌≡◌, ◌≢◌, refl, ◌∙◌, sym, subst, Bool, true,
  false, not, ◌&&◌, arith, [], ltb, ◌==◌, if◌then◌else◌,
}
use cs202lab.Sleeplock.{Sleeplock}
use cs202lab.Fs.Disk.{Block, word, Inode, Superblock, Fs}
use cs202lab.Fs.Bitmap.{bit_at}
use cs202lab.Fs.Bitmap.Marks.{is_used, Marked}
use cs202lab.Fs.Inodes.Dinode.{InRange}
use cs202lab.Fs.Content.{maxfile}
use cs202lab.Fs.Content.Blocks.{addr_of, InUse, Good}

abbrev pub small : Superblock
small = record {
  magic = 0x10203040;
  size = 8;
  nblocks = 4;
  ninodes = 3;
  nlog = 0;
  logstart = 2;
  inodestart = 2;
  bmapstart = 3;
}

-- Inode 1 is a file of 5 bytes in block 4, inode 2 a directory of one entry in block 5.
abbrev pub file_inode : Inode
file_inode = record {
  dev = 1;
  inum = 1;
  ref = 1;
  lock = record { locked = false; pid = 0; woken = 0 };
  valid = true;
  type = 2;
  major = 0;
  minor = 0;
  nlink = 0;
  size = 5;
  addrs = λ c. if c == 0 then 4 else 0;
}

abbrev pub directory_inode : Inode
directory_inode = record {
  dev = 1;
  inum = 2;
  ref = 1;
  lock = record { locked = false; pid = 0; woken = 0 };
  valid = true;
  type = 1;
  major = 0;
  minor = 0;
  nlink = 1;
  size = 16;
  addrs = λ c. if c == 0 then 5 else 0;
}

-- An entry that has a reference but is not read in yet, for inode 1.
abbrev pub unread_inode : Inode
unread_inode = record file_inode { dev = 2; valid = false }

abbrev pub unused_inode : Inode
unused_inode = record file_inode { dev = 0; inum = 0; ref = 0; valid = false }

-- Blocks 0 to 5 are in use; the entry of the directory is inode 1 with the name "a".
abbrev pub content : ℕ → Block
content b o =
    if b == 3
    then (if o == 0 then 63 else 0)
    else if b == 5
    then (if o == 0 then 1 else if o == 2 then 97 else 0)
    else 0

abbrev pub disk : Fs
disk = record {
  block = content;
  logged = [];
  itable = λ i.
      if i == 0
      then file_inode
      else if i == 1
      then directory_inode
      else if i == 2
      then unread_inode
      else unused_inode;
  pid = 7;
  cwd = 1;
}

content-byte : (b o : ℕ) → content b o < 256
content-byte b o = ground arith

content-reserved : (b : ℕ) → b < 4 → is_used small disk b ≡ true
unfolding bit_at
content-reserved zero lt = refl
content-reserved (suc zero) lt = refl
content-reserved (suc (suc zero)) lt = refl
content-reserved (suc (suc (suc zero))) lt = refl
content-reserved (suc (suc (suc (suc b)))) lt = absurd (omega arith)

pub disk-Marked : Marked small disk
disk-Marked = record { fits = omega arith; byte = content-byte; reserved = content-reserved }

-- A file whose only block is b.
module _ (b : ℕ) (ip : Inode) (pos : b ≢ 0) (u : InUse small disk b)
    (one : (c : ℕ) → ip.addrs c ≡ (if c == 0 then b else 0)) where
  only : (c : ℕ) → addr_of content ip c ≡ (if c == 0 then b else 0)
  unfolding addr_of
  only c = ground (arith, one c, one 12)

  pub one_block-Good : Good small disk ip
  one_block-Good = record {
    small = omega arith;
    marked = disk-Marked;
    owned = record {
      top = λ h. absurd (h (one 12));
      held = λ c lc h.
          let e : addr_of content ip c ≡ b = ground (arith, only c, h) in
          subst (InUse small disk) (sym e) u;
      apart = λ c lc h e. h (e ∙ one 12);
      distinct = λ c d lc ld h e. ground (arith, only c, only d, h, e);
    };
  }

pub block_4-InUse : InUse small disk 4
unfolding bit_at
block_4-InUse = record { low = omega arith; high = omega arith; used = refl }

pub block_5-InUse : InUse small disk 5
unfolding bit_at
block_5-InUse = record { low = omega arith; high = omega arith; used = refl }

pub file-Good : Good small disk file_inode
file-Good = one_block-Good 4 file_inode (λ e. absurd (omega arith)) block_4-InUse (λ c. refl)

pub directory-Good : Good small disk directory_inode
directory-Good =
    one_block-Good 5 directory_inode (λ e. absurd (omega arith)) block_5-InUse (λ c. refl)

pub file-InRange : InRange file_inode
file-InRange = record {
  type = omega arith;
  major = omega arith;
  minor = omega arith;
  nlink = omega arith;
  size = omega arith;
  addrs = λ c lc. ground arith;
}
