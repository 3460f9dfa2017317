-- ===== src/Fs/Disk.antt =====
-- Blocks of kernel/fs.c as arrays of bytes, with the 16-bit and 32-bit numbers in them, low byte first,
-- and the structs of kernel/fs.h and kernel/file.h.
pub mod Words
use cs202lab.Prelude.{
  ℕ, zero, suc, ◌+◌, ◌*◌, ◌/◌, ◌%◌, Bool, List, ◌∷◌, ltb, leb, ◌&&◌, Option, none, some, ◌==◌,
  if◌then◌else◌, update,
}
use cs202lab.Sleeplock.{Sleeplock}

abbrev pub bsize : ℕ
bsize = 1024

abbrev pub Block : Type 0
Block = ℕ → ℕ

unfoldable pub word : Block → ℕ → ℕ
word d o = d o + 256 * d (o + 1) + 65536 * d (o + 2) + 16777216 * d (o + 3)

unfoldable pub put_word : Block → ℕ → ℕ → Block
put_word d o v =
    let d1 = update d o (v % 256) in
    let d2 = update d1 (o + 1) (v / 256 % 256) in
    let d3 = update d2 (o + 2) (v / 65536 % 256) in update d3 (o + 3) (v / 16777216 % 256)

unfoldable pub half : Block → ℕ → ℕ
half d o = d o + 256 * d (o + 1)

unfoldable pub put_half : Block → ℕ → ℕ → Block
put_half d o v = update (update d o (v % 256)) (o + 1) (v / 256 % 256)

-- Sixteen-bit fields stand for the bit pattern of the `short`.
pub record Inode : Type 0 where
  pub dev : ℕ
  pub inum : ℕ
  pub ref : ℕ
  pub lock : Sleeplock
  pub valid : Bool
  pub type : ℕ
  pub major : ℕ
  pub minor : ℕ
  pub nlink : ℕ
  pub size : ℕ
  pub addrs : ℕ → ℕ

pub record Superblock : Type 0 where
  pub magic : ℕ
  pub size : ℕ
  pub nblocks : ℕ
  pub ninodes : ℕ
  pub nlog : ℕ
  pub logstart : ℕ
  pub inodestart : ℕ
  pub bmapstart : ℕ

-- The blocks of the device in the cache, the blocks that were logged, newest first, the inodes in
-- memory, and `pid` and `cwd` of the process that runs. The system has one disk, whose number is `dev`
-- in every inode that is read or written, so a block is found by its number alone.
pub record Fs : Type 0 where
  pub block : ℕ → Block
  pub logged : List ℕ
  pub itable : ℕ → Inode
  pub pid : ℕ
  pub cwd : ℕ

-- bp->data = d; log_write(bp);
abbrev pub put_block : ℕ → Block → Fs → Fs
put_block b d f = record f { block = update f.block b d; logged = b ∷ f.logged }

pub readsb : Fs → Superblock
readsb f =
    let d = f.block 1 in
    record {
      magic = word d 0;
      size = word d 4;
      nblocks = word d 8;
      ninodes = word d 12;
      nlog = word d 16;
      logstart = word d 20;
      inodestart = word d 24;
      bmapstart = word d 28;
    }

-- `none` is the panic; what goes on is `initlog` at this log.
pub fsinit : Fs → Option (ℕ × ℕ)
unfolding readsb
fsinit f = let sb = readsb f in if sb.magic == 0x10203040 then some (sb.logstart, sb.nlog) else none

unfoldable pub bzero : ℕ → Fs → Fs
bzero bno f = put_block bno (λ o. if ltb o bsize then 0 else f.block bno o) f
