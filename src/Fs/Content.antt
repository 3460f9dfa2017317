-- ===== src/Fs/Content.antt =====
-- The content of a file of kernel/fs.c: `bmap`, `stati`, `readi` and `writei`, on the inode with index i
-- of the table.
pub mod Blocks
pub mod Steps
pub mod Entry
pub mod Mapped
pub mod Bmap
pub mod Bytes
pub mod Paste
pub mod Frame
pub mod Reads
pub mod Readi
pub mod Writes
pub mod Rounds
pub mod Finish
pub mod Writei
use cs202lab.Prelude.{
  ℕ, zero, suc, ◌+◌, ◌-◌, ◌*◌, ◌/◌, ◌%◌, Bool, true, false, not, ◌&&◌, ◌||◌, Option, none, some,
  List, [], ◌∷◌, ◌++◌, ltb, leb, ◌==◌, if◌then◌else◌, update, min, add_uint,
}
use cs202lab.Prelude.Fallible.{◌>>=◌}
use cs202lab.Fs.Disk.{bsize, Block, word, put_word, Inode, Superblock, Fs, put_block}
use cs202lab.Fs.Bitmap.{balloc}
use cs202lab.Fs.Inodes.{set_inode, iupdate}

abbrev pub ndirect : ℕ
ndirect = 12

abbrev pub nindirect : ℕ
nindirect = 256

abbrev pub maxfile : ℕ
maxfile = 268

pub record Stat : Type 0 where
  pub dev : ℕ
  pub ino : ℕ
  pub type : ℕ
  pub nlink : ℕ
  pub size : ℕ

pub stati : Inode → Stat
stati ip = record { dev = ip.dev; ino = ip.inum; type = ip.type; nlink = ip.nlink; size = ip.size }

-- d[o], d[o + 1] and so on, n bytes.
unfoldable pub slice : (n : ℕ) → Block → ℕ → List ℕ
slice zero d o = []
slice (suc n) d o = d o ∷ slice n d (o + 1)

-- Bytes o to o + n - 1 of d are those of `source` from src on.
unfoldable pub paste : Block → (o n : ℕ) (source : ℕ → ℕ) (src : ℕ) → Block
paste d o n source src p = if leb o p && ltb p (o + n) then source (src + (p - o)) else d p

-- More bytes in front of those that the rest of a loop copies out.
abbrev pub before : List ℕ → Option (Option ℕ × List ℕ × Fs) → Option (Option ℕ × List ℕ × Fs)
before bytes none = none
before bytes (some (r, more, f)) = some (r, bytes ++ more, f)

-- `addr` when it is not 0, and else a new block, which is stored.
unfoldable pub or_new : (addr : ℕ) (store : ℕ → Fs → Fs) (got : ℕ × Fs) → Fs → ℕ × Fs
or_new addr store (a, g) f =
    if not (addr == 0) then (addr, f) else if a == 0 then (0, g) else (a, store a g)

-- ip->addrs[n] = addr
abbrev pub store_slot : (i n : ℕ) → ℕ → Fs → Fs
store_slot i n addr f =
    let ip = f.itable i in set_inode i (record ip { addrs = update ip.addrs n addr }) f

-- a[n] = addr in the indirect block b.
abbrev pub store_entry : (b n : ℕ) → ℕ → Fs → Fs
store_entry b n addr f = put_block b (put_word (f.block b) (4 * n) addr) f

-- `if(off > ip->size) ip->size = off`
unfoldable pub grow : (i off : ℕ) → Fs → Fs
grow i off f =
    let ip = f.itable i in if ltb ip.size off then set_inode i (record ip { size = off }) f else f

module _ (sb : Superblock) (i : ℕ) where
  -- `addr = ip->addrs[n]`, with a new block when it is 0.
  unfoldable pub addr_slot : ℕ → Fs → ℕ × Fs
  addr_slot n f = or_new ((f.itable i).addrs n) (store_slot i n) (balloc sb f) f

  -- `addr = a[n]` in the indirect block b, with a new block when it is 0.
  unfoldable pub entry_slot : (b n : ℕ) → Fs → ℕ × Fs
  entry_slot b n f = or_new (word (f.block b) (4 * n)) (store_entry b n) (balloc sb f) f

  -- `none` is the panic out of range.
  unfoldable pub bmap : ℕ → Fs → Option (ℕ × Fs)
  bmap bn f =
      let indirect = addr_slot ndirect f in
      if ltb bn ndirect
      then some (addr_slot bn f)
      else if ltb (bn - ndirect) nindirect
      then some (
          if indirect.0 == 0
          then (0, indirect.1)
          else entry_slot indirect.0 (bn - ndirect) indirect.1)
      else none

  -- `copyout dst m`: whether either_copyout of m bytes to dst succeeds. A result is the return value,
  -- `none` for -1, and the bytes that were copied out before a failure.
  module _ (copyout : ℕ → ℕ → Bool) where
    -- The loop of `readi`, on fuel for n - tot rounds.
    unfoldable pub readi_loop : (k tot n off dst : ℕ) → Fs → Option (Option ℕ × List ℕ × Fs)
    readi_loop zero tot n off dst f = some (some tot, [], f)
    readi_loop (suc k) tot n off dst f =
        let m = min (n - tot) (bsize - off % bsize) in
        let rest = λ (g : Fs). readi_loop k (tot + m) n (off + m) (dst + m) g in
        if not (ltb tot n) then some (some tot, [], f) else do
          (addr, f1) ← bmap (off / bsize) f
          if addr == 0
              then some (some tot, [], f1)
              else if copyout dst m
              then before (slice m (f1.block addr) (off % bsize)) (rest f1)
              else some (none, [], f1)

    unfoldable pub readi : (dst off n : ℕ) → Fs → Option (Option ℕ × List ℕ × Fs)
    readi dst off n f =
        let size = (f.itable i).size in
        let n' = if ltb size (add_uint off n) then size - off else n in
        if ltb size off || ltb (add_uint off n) off
        then some (some 0, [], f)
        else readi_loop n' 0 n' off dst f

  -- `source` has the bytes at the addresses of the caller, and `copied src m` says how many of m bytes
  -- either_copyin gets from src: all, or it fails.
  module _ (source : ℕ → ℕ) (copied : ℕ → ℕ → ℕ) where
    -- The loop of `writei`: tot and off when it stops.
    unfoldable pub writei_loop : (k tot n off src : ℕ) → Fs → Option (ℕ × ℕ × Fs)
    writei_loop zero tot n off src f = some (tot, off, f)
    writei_loop (suc k) tot n off src f =
        let m = min (n - tot) (bsize - off % bsize) in
        let rest = λ (g : Fs). writei_loop k (tot + m) n (off + m) (src + m) g in
        if not (ltb tot n) then some (tot, off, f) else do
          (addr, f1) ← bmap (off / bsize) f
          let c = copied src m
          let d = paste (f1.block addr) (off % bsize) c source src
          if addr == 0
              then some (tot, off, f1)
              else if c == m
              then rest (put_block addr d f1)
              else some (tot, off, record f1 { block = update f1.block addr d })

    -- The return value, `none` for -1.
    unfoldable pub writei : (src off n : ℕ) → Fs → Option (Option ℕ × Fs)
    writei src off n f =
        if ltb (f.itable i).size off || ltb (add_uint off n) off
        then some (none, f)
        else if ltb (maxfile * bsize) (add_uint off n)
        then some (none, f)
        else do
          (tot, off', f1) ← writei_loop n 0 n off src f
          some (some tot, iupdate sb i (grow i off' f1))
