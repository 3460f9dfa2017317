-- ===== src/Fs/Inodes/Stored.antt =====
-- `iupdate` and `ilock` of kernel/fs.c: an inode that is written to the disk is read back the same.
use cs202lab.Prelude.{
  ℕ, ◌<◌, ◌≡◌, ◌≢◌, inl, inr, refl, ◌∙◌, sym, subst, true, false, some, arith, ge→ltb, ◌==◌, eq→==,
  ne→==, Bool-cases,
}
use cs202lab.Sleeplock.{acquiresleep}
use cs202lab.Fs.Disk.{Block, Inode, Superblock, Fs}
use cs202lab.Fs.Inodes.{iblock, dinode_offset, read_dinode, iupdate, fill, ilock, set_inode}
use cs202lab.Fs.Inodes.Dinode.{
  SameFile, InRange, write_dinode-other, read_dinode-write_dinode, read_dinode-same,
}

module _ (sb : Superblock) where
  -- What the disk has for an inode number, with the fields that are only in memory from iq.
  abbrev pub on_disk : Fs → ℕ → Inode → Inode
  on_disk f inum iq = read_dinode (f.block (iblock sb inum)) (dinode_offset sb inum) iq

  module _ (f : Fs) (i : ℕ) where
    -- `iupdate` puts the inode on the disk,
    pub on_disk-iupdate :
        (iq : Inode)
        → InRange (f.itable i)
        → SameFile (on_disk (iupdate sb i f) (f.itable i).inum iq) (f.itable i)
    unfolding iupdate
    on_disk-iupdate iq r =
        let b = iblock sb (f.itable i).inum in
        let s : (b == b) ≡ true = eq→== b b refl in
        rw s (
          read_dinode-write_dinode (f.block b) (dinode_offset sb (f.itable i).inum) (f.itable i) iq
            r)

    -- and leaves every other inode there as it was.
    pub on_disk-iupdate_other :
        (n : ℕ) (iq : Inode)
        → n ≢ (f.itable i).inum
        → SameFile (on_disk (iupdate sb i f) n iq) (on_disk f n iq)
    unfolding iupdate
    on_disk-iupdate_other n iq ne = read_dinode-same _ _ _ iq (λ p lo hi.
        elim (Bool-cases (iblock sb n == iblock sb (f.itable i).inum)) [
          | inr far ↦ rw far refl
          | inl near ↦
              let e : iblock sb n ≡ iblock sb (f.itable i).inum = ground (arith, near) in
              rw (near, e) (write_dinode-other _ _ (f.itable i) p (omega arith))
        ])

  -- What `ilock` does to an entry that is not read in yet.
  abbrev pub loaded : Fs → ℕ → Inode
  loaded f j =
      let ip = record (f.itable j) {
        lock = record (f.itable j).lock { locked = true; pid = f.pid };
      } in
      record (on_disk f ip.inum ip) { valid = true }

  pub ilock-loaded :
      (f : Fs) (j : ℕ)
      → (f.itable j).valid ≡ false
      → (f.itable j).lock.locked ≡ false
      → 0 < (f.itable j).ref
      → (loaded f j).type ≢ 0
      → ilock sb (some j) f ≡ some (set_inode j (loaded f j) f)
  unfolding ilock fill acquiresleep read_dinode
  ilock-loaded f j invalid unlocked counted typed =
      rw (ge→ltb (f.itable j).ref 1 counted, unlocked, invalid, ne→== (loaded f j).type 0 typed)
        refl

  loaded-valid : (f : Fs) (j : ℕ) → ((set_inode j (loaded f j) f).itable j).valid ≡ true
  loaded-valid f j = ground arith

  SameFile-loaded :
      (f : Fs) (j : ℕ) (ip : Inode)
      → let iq = record (f.itable j) {
        lock = record (f.itable j).lock { locked = true; pid = f.pid };
      } in
        SameFile (on_disk f (f.itable j).inum iq) ip
        → SameFile ((set_inode j (loaded f j) f).itable j) ip
  SameFile-loaded f j ip s =
      let e : (j == j) ≡ true = eq→== j j refl in
      rw e (record {
        type = s.type;
        major = s.major;
        minor = s.minor;
        nlink = s.nlink;
        size = s.size;
        addrs = s.addrs;
      })

  -- In a state with the disk that `iupdate` of entry i left, `ilock` of an entry for the same inode of
  -- the same device, which is not read in yet and that no process has locked, succeeds, if the type is
  -- not 0, and reads all that entry i had; the entry is then valid, and no other entry changes.
  pub ilock-iupdate :
      (f : Fs) (i : ℕ) (g : Fs) (j : ℕ)
      → InRange (f.itable i)
      → (f.itable i).type ≢ 0
      → g.block ≡ (iupdate sb i f).block
      → (g.itable j).dev ≡ (f.itable i).dev
      → (g.itable j).inum ≡ (f.itable i).inum
      → (g.itable j).valid ≡ false
      → (g.itable j).lock.locked ≡ false
      → 0 < (g.itable j).ref
      → (g' : Fs) × (ilock sb (some j) g ≡ some g')
        × SameFile (g'.itable j) (f.itable i)
        × ((g'.itable j).valid ≡ true)
        × ((c : ℕ) → c ≢ j → g'.itable c ≡ g.itable c)
  ilock-iupdate f i g j r typed disk dev same invalid unlocked counted =
      let iq = record (g.itable j) {
        lock = record (g.itable j).lock { locked = true; pid = g.pid };
      } in
      let there : SameFile (on_disk g (f.itable i).inum iq) (f.itable i) =
        subst
          (λ (b : ℕ → Block).
            SameFile
              (read_dinode (b (iblock sb (f.itable i).inum)) (dinode_offset sb (f.itable i).inum)
                iq)
              (f.itable i))
          (sym disk) (on_disk-iupdate f i iq r) in
      let stored : SameFile (on_disk g (g.itable j).inum iq) (f.itable i) =
        subst (λ n. SameFile (on_disk g n iq) (f.itable i)) (sym same) there in
      (
        set_inode j (loaded g j) g,
        ilock-loaded g j invalid unlocked counted (λ z. typed (sym stored.type ∙ z)),
        SameFile-loaded g j (f.itable i) stored,
        loaded-valid g j,
        λ c ne. ground (arith, ne),
      )
