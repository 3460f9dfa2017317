-- ===== src/Fs/Content/Writei.antt =====
-- All of `writei` of kernel/fs.c.
use cs202lab.Prelude.{
  ℕ, ◌+◌, ◌-◌, ◌*◌, ◌^◌, ◌≤◌, ◌<◌, ◌≡◌, ◌≢◌, ◌⊎◌, inl, inr, refl, ◌∙◌, ap, subst, true, false, ◌||◌,
  Option, none, some, arith, ltb, if◌then◌else◌, Bool-cases, add_uint,
}
use cs202lab.Prelude.Fallible.{◌>>=◌}
use cs202lab.Fs.Disk.{bsize, Inode, Superblock, Fs}
use cs202lab.Fs.Bitmap.Marks.{is_used}
use cs202lab.Fs.Inodes.{iblock, iupdate}
use cs202lab.Fs.Inodes.Dinode.{SameFile, InRange}
use cs202lab.Fs.Inodes.Stored.{on_disk, on_disk-iupdate}
use cs202lab.Fs.Content.{maxfile, grow, writei}
use cs202lab.Fs.Content.Blocks.{Good}
use cs202lab.Fs.Content.Bytes.{byte_at}
use cs202lab.Fs.Content.Frame.{grow-inode}
use cs202lab.Fs.Content.Writes.{Wrote}
use cs202lab.Fs.Content.Rounds.{Stop, all, no_block, no_copy, Ran, writei_loop-Ran}
use cs202lab.Fs.Content.Finish.{
  finish, finish-Good, finish-at, finish-used, finish-inode, finish-others, addrs-range,
}

-- The changes of a `writei` of n bytes from src at off that returned `tot`.
pub record Written (sb : Superblock) (i : ℕ) (source : ℕ → ℕ) (copied : ℕ → ℕ → ℕ) (src off n : ℕ)
    (f : Fs) (tot : ℕ) (f' : Fs) : Type 0 where
  pub lost : ℕ
  pub some_of : tot ≤ n
  pub stop : Stop sb i source copied n src tot lost f'
  pub inside :
      (p : ℕ)
      → p < maxfile * bsize
      → off ≤ p
      → p < off + tot
      → byte_at f'.block (f'.itable i) p ≡ source (src + (p - off))
  pub before :
      (p : ℕ)
      → p < maxfile * bsize
      → p < off
      → byte_at f'.block (f'.itable i) p ≡ byte_at f.block (f.itable i) p
  pub after :
      (p : ℕ)
      → p < maxfile * bsize
      → off + tot + lost ≤ p
      → byte_at f'.block (f'.itable i) p ≡ byte_at f.block (f.itable i) p
  pub size :
      (f'.itable i).size
      ≡ (if ltb (f.itable i).size (off + tot) then off + tot else (f.itable i).size)
  pub stored : (iq : Inode) → SameFile (on_disk sb f' (f.itable i).inum iq) (f'.itable i)
  pub good : Good sb f' (f'.itable i)
  pub others : (j : ℕ) → j ≢ i → f'.itable j ≡ f.itable j

module _ (sb : Superblock) (i : ℕ) (source : ℕ → ℕ) (copied : ℕ → ℕ → ℕ) where
  -- `writei` returns -1 and changes nothing when the write starts behind the end of the file, when
  -- off + n does not fit a `uint`, and when the file would be larger than a file can be.
  pub writei-refuses :
      (src off n : ℕ) (f : Fs)
      → off < 2 ^ 32
      → n < 2 ^ 32
      → ((f.itable i).size < off) ⊎ (maxfile * bsize < off + n)
      → writei sb i source copied src off n f ≡ some (none, f)
  unfolding writei
  writei-refuses src off n f ho hn h =
      elim (Bool-cases (ltb (f.itable i).size off || ltb (add_uint off n) off)) [
        | inl first ↦ rw (first, writei) refl
        | inr passed ↦
            let second : ltb (maxfile * bsize) (add_uint off n) ≡ true =
              ground (arith, passed, h) in
            rw (passed, second, writei) refl
      ]

  Stop-finish :
      {n src done lost : ℕ} {f f' : Fs}
      → ((c : ℕ) → c < sb.size → is_used sb f' c ≡ is_used sb f c)
      → Stop sb i source copied n src done lost f
      → Stop sb i source copied n src done lost f'
  Stop-finish e (all d l) = all d l
  Stop-finish e (no_block l full) = no_block l (λ c lt. e c lt ∙ full c lt)
  Stop-finish e (no_copy m h c ne) = no_copy m h c ne

  module _ (src off n : ℕ) (f : Fs) (range : InRange (f.itable i))
      (apart : iblock sb (f.itable i).inum < sb.bmapstart) (room : off + n ≤ maxfile * bsize)
      (done lost : ℕ) (f1 : Fs) (some_of : done ≤ n)
      (stop : Stop sb i source copied n src done lost f1)
      (w : Wrote sb i source off src f done lost f1) where
    inum-same : (f1.itable i).inum ≡ (f.itable i).inum
    inum-same = ap (λ (q : Inode). q.inum) w.same

    apart1 : iblock sb (f1.itable i).inum < sb.bmapstart
    apart1 = rw inum-same apart

    size-same : (f1.itable i).size ≡ (f.itable i).size
    size-same = ap (λ (q : Inode). q.size) w.same

    abbrev f2 : Fs
    f2 = finish sb i (off + done) f1

    grown-InRange : InRange ((grow i (off + done) f1).itable i)
    grown-InRange = rw (grow-inode sb i (off + done) f1) (record {
      type = rw w.same range.type;
      major = rw w.same range.major;
      minor = rw w.same range.minor;
      nlink = rw w.same range.nlink;
      size = ground (arith, size-same, range.size, room, some_of);
      addrs = addrs-range sb i (off + done) w.good apart1;
    })

    stored-finish : (iq : Inode) → SameFile (on_disk sb f2 (f.itable i).inum iq) (f2.itable i)
    unfolding iupdate
    stored-finish iq =
        let h = grow i (off + done) f1 in
        let e : (h.itable i).inum ≡ (f.itable i).inum =
          ap (λ (q : Inode). q.inum) (grow-inode sb i (off + done) f1) ∙ inum-same in
        subst (λ k. SameFile (on_disk sb f2 k iq) (h.itable i)) e
          (on_disk-iupdate sb h i iq grown-InRange)

    finish-Written : Written sb i source copied src off n f done f2
    finish-Written = record {
      lost = lost;
      some_of = some_of;
      stop = Stop-finish (finish-used sb i (off + done) w.good apart1) stop;
      inside = λ p lp lo hi. finish-at sb i (off + done) w.good apart1 p lp ∙ w.inside p lp lo hi;
      before = λ p lp lt. finish-at sb i (off + done) w.good apart1 p lp ∙ w.before p lp lt;
      after = λ p lp ge. finish-at sb i (off + done) w.good apart1 p lp ∙ w.after p lp ge;
      size =
          ap (λ (q : Inode). q.size) (finish-inode sb i (off + done) w.good apart1)
          ∙ ap (λ (k : ℕ). if ltb k (off + done) then off + done else k) size-same;
      stored = stored-finish;
      good = finish-Good sb i (off + done) w.good apart1;
      others = λ j ne. finish-others sb i (off + done) w.good apart1 j ne ∙ w.others j ne;
    }

  abbrev after_loop : ℕ × ℕ × Fs → Option (Option ℕ × Fs)
  after_loop (tot, off, f) = some (some tot, finish sb i off f)

  ended :
      (src off n : ℕ) (f : Fs)
      → InRange (f.itable i)
      → iblock sb (f.itable i).inum < sb.bmapstart
      → off + n ≤ maxfile * bsize
      → {x : Option (ℕ × ℕ × Fs)} → Ran sb i source copied 0 n off src f x
      → (tot : ℕ) × (f' : Fs) × (x >>= after_loop ≡ some (some tot, f'))
        × Written sb i source copied src off n f tot f'
  ended src off n f range apart room r =
      let z : 0 + r.done ≡ r.done = omega arith in
      let y : n - 0 ≡ n = omega arith in
      (
        r.done,
        finish sb i (off + r.done) r.fs,
        rw (r.result, z) refl,
        finish-Written src off n f range apart room r.done r.lost r.fs (rw y at r.some_of)
            (rw y at r.stop) r.wrote,
      )

  module _ (byte : (q : ℕ) → source q < 256) (bounded : (src m : ℕ) → copied src m ≤ m) where
    -- In every other case `writei` returns the number of bytes it wrote: these are in the file from off
    -- on, and the file is as long as before or up to the last of them; the bytes in front and behind
    -- are as before, but for `lost` bytes of a copy that failed. It writes all n bytes unless the device has
    -- no free block or a copy fails. The inode on the disk is the one in memory afterwards, and no
    -- other entry of the table changes.
    pub writei-Written :
        (src off n : ℕ) (f : Fs)
        → Good sb f (f.itable i)
        → InRange (f.itable i)
        → iblock sb (f.itable i).inum < sb.bmapstart
        → off ≤ (f.itable i).size
        → off + n ≤ maxfile * bsize
        → (tot : ℕ) × (f' : Fs) × (writei sb i source copied src off n f ≡ some (some tot, f'))
          × Written sb i source copied src off n f tot f'
    unfolding writei
    writei-Written src off n f g range apart start room =
        let r =
          writei_loop-Ran sb i source copied byte bounded n 0 n off src f g (omega arith)
            (omega arith) (omega arith) in
        let first : (ltb (f.itable i).size off || ltb (add_uint off n) off) ≡ false =
          ground (arith, start, room) in
        let second : ltb (maxfile * bsize) (add_uint off n) ≡ false = ground (arith, room) in
        rw (first, second, writei) (ended src off n f range apart room r)
