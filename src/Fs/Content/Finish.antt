-- ===== src/Fs/Content/Finish.antt =====
-- The end of `writei` of kernel/fs.c, which writes the inode back to the disk.
use cs202lab.Prelude.{ℕ, ◌*◌, ◌^◌, ◌≤◌, ◌<◌, ◌≡◌, ◌≢◌, ◌∙◌, ap, arith, ltb, if◌then◌else◌}
use cs202lab.Fs.Disk.{bsize, Inode, Superblock, Fs}
use cs202lab.Fs.Bitmap.Marks.{is_used}
use cs202lab.Fs.Inodes.{iblock, iupdate}
use cs202lab.Fs.Content.{maxfile, grow}
use cs202lab.Fs.Content.Blocks.{addr_of, Good}
use cs202lab.Fs.Content.Mapped.{Good-table}
use cs202lab.Fs.Content.Bytes.{byte_at}
use cs202lab.Fs.Content.Frame.{
  is_used-high, Good-high, byte_at-high, Good-fields, byte_at-fields, grow-inode, grow-others,
  grow-memory, iupdate-high, iupdate-byte,
}

module _ (sb : Superblock) (i : ℕ) where
  abbrev pub at : Fs → ℕ → ℕ
  at f p = byte_at f.block (f.itable i) p

  -- What the end of `writei` does to f, when the last offset is off.
  abbrev pub finish : ℕ → Fs → Fs
  finish off f = iupdate sb i (grow i off f)

  module _ (off : ℕ) {f : Fs} (g : Good sb f (f.itable i))
      (apart : iblock sb (f.itable i).inum < sb.bmapstart) where
    grown-Good : Good sb (grow i off f) ((grow i off f).itable i)
    grown-Good =
        let e = grow-inode sb i off f in
        rw (grow-memory sb i off f) (
          Good-table sb f (grow i off f).itable _
            (Good-fields sb (f.itable i) _ (ap (λ (q : Inode). q.addrs) e) f g))

    grown-at : (p : ℕ) → at (grow i off f) p ≡ at f p
    grown-at p =
        let e = grow-inode sb i off f in
        let b : (grow i off f).block ≡ f.block =
          ap (λ (h : Fs). h.block) (grow-memory sb i off f) in
        rw b (byte_at-fields sb (f.itable i) _ (ap (λ (q : Inode). q.addrs) e) f.block p)

    grown-apart : iblock sb ((grow i off f).itable i).inum < sb.bmapstart
    grown-apart =
        let e : ((grow i off f).itable i).inum ≡ (f.itable i).inum =
          ap (λ (q : Inode). q.inum) (grow-inode sb i off f) in
        rw e apart

    finish-high : (b : ℕ) → sb.bmapstart ≤ b → (finish off f).block b ≡ (grow i off f).block b
    finish-high = iupdate-high sb i (grow i off f) grown-apart

    finish-byte : (b o : ℕ) → (finish off f).block b o < 256
    finish-byte = iupdate-byte sb i (grow i off f) grown-Good.marked.byte

    pub finish-Good : Good sb (finish off f) ((finish off f).itable i)
    unfolding iupdate
    finish-Good = Good-high sb grown-Good (finish off f) finish-high finish-byte

    pub finish-at : (p : ℕ) → p < maxfile * bsize → at (finish off f) p ≡ at f p
    unfolding iupdate
    finish-at p lp =
        byte_at-high sb grown-Good (finish off f) finish-high finish-byte p lp ∙ grown-at p

    pub finish-used : (c : ℕ) → c < sb.size → is_used sb (finish off f) c ≡ is_used sb f c
    finish-used c lt =
        is_used-high sb grown-Good (finish off f) finish-high finish-byte c lt
        ∙ ap (λ (h : Fs). is_used sb h c) (grow-memory sb i off f)

    -- The inode that `finish` writes.
    pub finish-inode : (finish off f).itable i ≡ record (f.itable i) {
      size = if ltb (f.itable i).size off then off else (f.itable i).size;
    }
    unfolding iupdate
    finish-inode = grow-inode sb i off f

    pub finish-others : (j : ℕ) → j ≢ i → (finish off f).itable j ≡ f.itable j
    unfolding iupdate
    finish-others j ne = grow-others sb i off f j ne

    finish-pid : (finish off f).pid ≡ f.pid
    unfolding iupdate
    finish-pid = ap (λ (h : Fs). h.pid) (grow-memory sb i off f)

    pub addrs-range : (k : ℕ) → k < 13 → (f.itable i).addrs k < 2 ^ 32
    unfolding addr_of
    addrs-range k lt = ground (arith, g.small, g.owned.held k (omega arith), g.owned.top, lt)
