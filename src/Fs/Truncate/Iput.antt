-- ===== src/Fs/Truncate/Iput.antt =====
-- `iput` of kernel/fs.c: what happens to an inode with no links when its last reference goes.
use cs202lab.Prelude.{
  ℕ, ◌+◌, ◌-◌, ◌≤◌, ◌<◌, ◌≡◌, ◌≢◌, refl, ◌∙◌, ap, subst, true, false, not, ◌&&◌, some, arith, ◌==◌,
  eq→==, ne→==,
}
use cs202lab.Sleeplock.{acquiresleep, releasesleep}
use cs202lab.Fs.Disk.{Inode, Superblock, Fs}
use cs202lab.Fs.Bitmap.Marks.{is_used, data_start}
use cs202lab.Fs.Inodes.{set_inode, iupdate, iblock}
use cs202lab.Fs.Inodes.Dinode.{InRange}
use cs202lab.Fs.Inodes.Stored.{on_disk, on_disk-iupdate}
use cs202lab.Fs.Content.Blocks.{addr_of, Good}
use cs202lab.Fs.Content.Mapped.{Good-table}
use cs202lab.Fs.Content.Frame.{Good-fields, is_used-high, iupdate-high, iupdate-byte}
use cs202lab.Fs.Truncate.{itrunc, free_inode, iput}
use cs202lab.Fs.Truncate.Itrunc.{of_file, Truncated, itrunc-Truncated}

module _ (sb : Superblock) (i : ℕ) where
  -- The inode is gone from the disk with its blocks, and its entry of the table is free.
  pub record Gone (f f' : Fs) : Type 0 where
    pub marks :
        (c : ℕ)
        → data_start sb ≤ c
        → c < sb.size
        → is_used sb f' c ≡ not (of_file sb f (f.itable i) c) && is_used sb f c
    pub type : (iq : Inode) → (on_disk sb f' (f.itable i).inum iq).type ≡ 0
    pub ref : (f'.itable i).ref ≡ 0
    pub valid : (f'.itable i).valid ≡ false
    pub unlocked : (f'.itable i).lock.locked ≡ false
    pub others : (j : ℕ) → j ≢ i → f'.itable j ≡ f.itable j

  set_inode-at : (ip : Inode) (f : Fs) → (set_inode i ip f).itable i ≡ ip
  set_inode-at ip f = rw (eq→== i i refl) refl

  set_inode-others :
      (ip : Inode) (f : Fs) (j : ℕ) → j ≢ i → (set_inode i ip f).itable j ≡ f.itable j
  set_inode-others ip f j ne = rw (ne→== j i ne) refl

  module _ (f : Fs) (g : Good sb f (f.itable i)) (range : InRange (f.itable i))
      (apart : iblock sb (f.itable i).inum < sb.bmapstart) where
    abbrev locked : Fs
    locked =
        set_inode i
          (record (f.itable i) { lock = record (f.itable i).lock { locked = true; pid = f.pid } }) f

    locked-Good : Good sb locked (locked.itable i)
    locked-Good =
        rw
          (set_inode-at
            (record (f.itable i) { lock = record (f.itable i).lock { locked = true; pid = f.pid } })
            f)
          (Good-table sb f locked.itable _ (Good-fields sb (f.itable i) _ refl f g))

    locked-at :
        locked.itable i
        ≡ record (f.itable i) { lock = record (f.itable i).lock { locked = true; pid = f.pid } }
    locked-at =
        set_inode-at
          (record (f.itable i) { lock = record (f.itable i).lock { locked = true; pid = f.pid } }) f

    locked-InRange : InRange (locked.itable i)
    locked-InRange = rw locked-at (record {
      type = range.type;
      major = range.major;
      minor = range.minor;
      nlink = range.nlink;
      size = range.size;
      addrs = range.addrs;
    })

    locked-apart : iblock sb (locked.itable i).inum < sb.bmapstart
    locked-apart = rw locked-at apart

    locked-file : (c : ℕ) → of_file sb locked (locked.itable i) c ≡ of_file sb f (f.itable i) c
    unfolding addr_of
    locked-file c = rw locked-at refl

    acquiresleep-free :
        (f.itable i).lock.locked ≡ false
        → acquiresleep f.pid (f.itable i).lock
          ≡ some (record (f.itable i).lock { locked = true; pid = f.pid })
    unfolding acquiresleep
    acquiresleep-free unlocked = rw unlocked refl

    -- From the truncated file on.
    module _ (t : Fs) (w : Truncated sb i locked t) where
      abbrev untyped : Fs
      untyped = set_inode i (record (t.itable i) { type = 0 }) t

      untyped-at : untyped.itable i ≡ record (t.itable i) { type = 0 }
      untyped-at = set_inode-at (record (t.itable i) { type = 0 }) t

      abbrev released : Fs
      released =
          let h = iupdate sb i untyped in
          let ip = h.itable i in
          set_inode i (record ip { valid = false; lock = releasesleep ip.lock }) h

      abbrev dropped : Fs
      dropped =
          set_inode i (record (released.itable i) { ref = (released.itable i).ref - 1 }) released

      untyped-Good : Good sb untyped (untyped.itable i)
      untyped-Good =
          rw untyped-at
            (Good-table sb t untyped.itable _ (Good-fields sb (t.itable i) _ refl t w.good))

      t-inum : (t.itable i).inum ≡ (f.itable i).inum
      t-inum = ap (λ (q : Inode). q.inum) w.same ∙ ap (λ (q : Inode). q.inum) locked-at

      untyped-inum : (untyped.itable i).inum ≡ (f.itable i).inum
      untyped-inum = ap (λ (q : Inode). q.inum) untyped-at ∙ t-inum

      untyped-apart : iblock sb (untyped.itable i).inum < sb.bmapstart
      untyped-apart = rw untyped-inum apart

      untyped-InRange : InRange (untyped.itable i)
      untyped-InRange = rw untyped-at (record {
        type = omega arith;
        major = rw (w.same, locked-at) range.major;
        minor = rw (w.same, locked-at) range.minor;
        nlink = rw (w.same, locked-at) range.nlink;
        size = rw w.same (omega arith);
        addrs = λ c lc. ground (arith, w.addrs c lc);
      })

      abbrev final : Inode
      final = record (t.itable i) {
        ref = (t.itable i).ref - 1;
        lock = record { locked = false; pid = 0; woken = (t.itable i).lock.woken + 1 };
        valid = false;
        type = 0;
      }

      dropped-at : dropped.itable i ≡ final
      unfolding iupdate releasesleep
      dropped-at = rw (eq→== i i refl) refl

      t-ref : (t.itable i).ref ≡ (f.itable i).ref
      t-ref = ap (λ (q : Inode). q.ref) w.same ∙ ap (λ (q : Inode). q.ref) locked-at

      dropped-others : (j : ℕ) → j ≢ i → dropped.itable j ≡ f.itable j
      unfolding iupdate
      dropped-others j ne = let e = w.others j ne in let z = ne→== j i ne in rw z (rw z at e)

      dropped-type : (iq : Inode) → (on_disk sb dropped (f.itable i).inum iq).type ≡ 0
      unfolding iupdate
      dropped-type iq =
          let e = on_disk-iupdate sb untyped i iq untyped-InRange in
          subst (λ n. (on_disk sb (iupdate sb i untyped) n iq).type ≡ 0) untyped-inum
            (e.type ∙ ap (λ (q : Inode). q.type) untyped-at)

      iput-last :
          ((f.itable i).ref == 1) && ((f.itable i).valid && ((f.itable i).nlink == 0)) ≡ true
          → acquiresleep f.pid (f.itable i).lock
            ≡ some (record (f.itable i).lock { locked = true; pid = f.pid })
          → itrunc sb i locked ≡ some t
          → iput sb i f ≡ some dropped
      unfolding iput free_inode
      iput-last last acquired e = rw (last, acquired, e) refl

      dropped-Gone : (f.itable i).ref ≡ 1 → Gone f dropped
      unfolding iupdate
      dropped-Gone one =
          let high = iupdate-high sb i untyped untyped-apart in
          let byte = iupdate-byte sb i untyped untyped-Good.marked.byte in
          record {
            marks = λ c lo hi.
                is_used-high sb untyped-Good (iupdate sb i untyped) high byte c hi
                ∙ w.marks c lo hi
                ∙ ap (λ b. not b && is_used sb f c) (locked-file c);
            type = dropped-type;
            ref = rw dropped-at (omega (arith, t-ref, one));
            valid = rw dropped-at refl;
            unlocked = rw dropped-at refl;
            others = dropped-others;
          }

    -- When the last reference to an inode without links goes, `iput` frees its blocks and its place on
    -- the disk and leaves the entry of the table free, not valid and unlocked; other entries do not
    -- change. It neither panics nor sleeps.
    pub iput-Gone :
        (f.itable i).ref ≡ 1
        → (f.itable i).valid ≡ true
        → (f.itable i).nlink ≡ 0
        → (f.itable i).lock.locked ≡ false
        → (f' : Fs) × (iput sb i f ≡ some f') × Gone f f'
    iput-Gone one valid links unlocked =
        let (t, e, w) = itrunc-Truncated sb i locked locked-Good locked-InRange locked-apart in
        let last : ((f.itable i).ref == 1) && ((f.itable i).valid && ((f.itable i).nlink == 0))
            ≡ true =
          ground (arith, one, valid, links) in
        (dropped t w, iput-last t w last (acquiresleep-free unlocked) e, dropped-Gone t w one)
