-- ===== src/Fs/Truncate/Itrunc.antt =====
-- `itrunc` of kernel/fs.c: it frees the blocks of the file, each once, and no other.
use cs202lab.Prelude.{
  ℕ, zero, suc, ◌+◌, ◌^◌, ◌≤◌, ◌<◌, ◌≡◌, ◌≢◌, inl, inr, refl, ◌∙◌, ap, sym, subst, Bool, false, not,
  ◌&&◌, ◌||◌, some, arith, ltb, ◌==◌, ==→eq, ==→ne, eq→==, ne→==, Bool-cases,
}
use cs202lab.Fs.Disk.{Inode, Superblock, Fs}
use cs202lab.Fs.Bitmap.{bfree}
use cs202lab.Fs.Bitmap.Marks.{is_used, data_start, Marked}
use cs202lab.Fs.Inodes.{set_inode, iupdate}
use cs202lab.Fs.Content.{ndirect, nindirect, maxfile, store_slot}
use cs202lab.Fs.Content.Blocks.{addr_of, InUse, Good}
use cs202lab.Fs.Truncate.{free_entries, free_indirect, itrunc}
use cs202lab.Fs.Truncate.Freeing.{among, among-false}
use cs202lab.Fs.Truncate.Cleared.{Cleared, Cleared-gone, free-slot}
use cs202lab.Fs.Inodes.{iblock}
use cs202lab.Fs.Inodes.Dinode.{SameFile, InRange}
use cs202lab.Fs.Inodes.Stored.{on_disk, on_disk-iupdate}
use cs202lab.Fs.Content.Steps.{addr_of-rootless}
use cs202lab.Fs.Content.Frame.{Good-high, is_used-high, iupdate-high, iupdate-byte}
use cs202lab.Fs.Truncate.Loops.{free_direct-Cleared, free_entries-Cleared}

among-rest :
    (addr : ℕ → ℕ) (k j c : ℕ)
    → 0 < c
    → ((d : ℕ) → j ≤ d → addr d ≡ 0)
    → among addr (k + j) c ≡ among addr j c
unfolding among
among-rest addr zero j c pos h = let e : 0 + j ≡ j = omega arith in rw e refl
among-rest addr (suc k) j c pos h =
    let e : suc k + j ≡ suc (k + j) = omega arith in
    let z : (c == addr (k + j)) ≡ false = ground (arith, h (k + j) (omega arith)) in
    rw (e, among, z) (among-rest addr k j c pos h)

no_addr :
    (h : Fs) (ip : Inode) (c : ℕ) → ((c : ℕ) → c < 13 → ip.addrs c ≡ 0) → addr_of h.block ip c ≡ 0
unfolding addr_of
no_addr h ip c z = ground (arith, z c, z 12)

free_indirect-some :
    (sb : Superblock) (i : ℕ) (h : Fs) (b : ℕ) (h1 h2 : Fs)
    → (h.itable i).addrs ndirect ≡ b
    → (b == 0) ≡ false
    → free_entries sb i nindirect 0 b h ≡ some h1
    → bfree sb b h1 ≡ some h2
    → free_indirect sb i h ≡ some (store_slot i ndirect 0 h2)
unfolding free_indirect
free_indirect-some sb i h b h1 h2 here n r1 r2 = rw (here, n, r1, r2) refl

module _ (sb : Superblock) where
  -- The blocks that the file of an inode takes, its indirect block included.
  abbrev pub of_file : Fs → Inode → ℕ → Bool
  of_file f ip c = (c == ip.addrs ndirect) || among (addr_of f.block ip) maxfile c

  Good-empty :
      (h : Fs) (ip : Inode)
      → sb.size < 2 ^ 32
      → Marked sb h
      → ((c : ℕ) → c < 13 → ip.addrs c ≡ 0)
      → Good sb h ip
  Good-empty h ip small m z =
      let e : (c : ℕ) → c < maxfile → addr_of h.block ip c ≡ 0 = λ c lc. no_addr h ip c z in
      record {
        small = small;
        marked = m;
        owned = record {
          top = λ n. absurd (n (z 12 (omega arith)));
          held = λ c lc n. absurd (n (e c lc));
          apart = λ c lc n. absurd (n (e c lc));
          distinct = λ c d lc ld n q. absurd (n (e c lc));
        };
      }

  module _ (i : ℕ) (f : Fs) (g : Good sb f (f.itable i)) where
    free_indirect-Cleared :
        (h : Fs)
        → Cleared sb i (among (addr_of f.block (f.itable i)) ndirect) (λ c. ltb c ndirect) f h
        → (h' : Fs) × (free_indirect sb i h ≡ some h')
          × Cleared sb i (of_file f (f.itable i)) (λ c. ltb c 13) f h'
    unfolding free_indirect
    free_indirect-Cleared h w =
        let ip = f.itable i in
        let b = ip.addrs ndirect in
        let here : (h.itable i).addrs ndirect ≡ b = w.addrs ndirect in
        elim (Bool-cases (b == 0)) [
          | inl z ↦
              let z' : b ≡ 0 = ==→eq b 0 z in
              (
                h,
                rw (free_indirect, here, z) refl,
                Cleared-gone sb i
                    (λ c lo.
                      let ne : (c == b) ≡ false = ground (arith, z', lo) in
                      let r =
                        among-rest (addr_of f.block ip) nindirect ndirect c (omega arith)
                          (λ d ld. addr_of-rootless f.block ip d ld z') in
                      rw ne (sym r))
                    (λ c. ground (arith, z')) w,
              )
          | inr n ↦
              let n' : b ≢ 0 = ==→ne b 0 n in
              let (h1, r1, w1) = free_entries-Cleared sb i f g n' nindirect 0 h (omega arith) w in
              let u : InUse sb f b = g.owned.top n' in
              let still : among (addr_of f.block ip) maxfile b ≡ false =
                among-false (addr_of f.block ip) maxfile b
                  (λ d ld e. g.owned.apart d ld (λ z. n' (sym e ∙ z)) e) in
              let (h2, r2, w2) = free-slot sb i w1 b u still ndirect in
              (
                store_slot i ndirect 0 h2,
                free_indirect-some sb i h b h1 h2 here n r1 r2,
                Cleared-gone sb i (λ c lo. refl) (λ c. ground arith) w2,
              )
        ]

  Cleared-start :
      (i : ℕ) (f : Fs)
      → Good sb f (f.itable i)
      → Cleared sb i (among (addr_of f.block (f.itable i)) 0) (λ c. ltb c 0) f f
  unfolding among
  Cleared-start i f g = record {
    freeing = record { marks = λ c lo hi. refl; blocks = λ c lo. refl; marked = g.marked };
    addrs = λ c. ground arith;
    same = refl;
    others = λ j ne. refl;
    pid = refl;
  }

  -- The change from f to f' by `itrunc` of inode i.
  pub record Truncated (i : ℕ) (f f' : Fs) : Type 0 where
    pub marks :
        (c : ℕ)
        → data_start sb ≤ c
        → c < sb.size
        → is_used sb f' c ≡ not (of_file f (f.itable i) c) && is_used sb f c
    pub blocks : (c : ℕ) → data_start sb ≤ c → f'.block c ≡ f.block c
    pub good : Good sb f' (f'.itable i)
    pub addrs : (c : ℕ) → c < 13 → (f'.itable i).addrs c ≡ 0
    pub same : f'.itable i ≡ record (f.itable i) { size = 0; addrs = (f'.itable i).addrs }
    pub stored : (iq : Inode) → SameFile (on_disk sb f' (f.itable i).inum iq) (f'.itable i)
    pub others : (j : ℕ) → j ≢ i → f'.itable j ≡ f.itable j

  module _ (i : ℕ) {f h : Fs} (g : Good sb f (f.itable i)) (range : InRange (f.itable i))
      (apart : iblock sb (f.itable i).inum < sb.bmapstart)
      (w : Cleared sb i (of_file f (f.itable i)) (λ c. ltb c 13) f h) where
    abbrev emptied : Fs
    emptied = set_inode i (record (h.itable i) { size = 0 }) h

    emptied-at : emptied.itable i ≡ record (f.itable i) { size = 0; addrs = (h.itable i).addrs }
    emptied-at = rw (eq→== i i refl) (ap (λ (q : Inode). record q { size = 0 }) w.same)

    emptied-Good : Good sb emptied (emptied.itable i)
    emptied-Good =
        Good-empty emptied (emptied.itable i) g.small
          (record {
            fits = w.freeing.marked.fits;
            byte = w.freeing.marked.byte;
            reserved = w.freeing.marked.reserved;
          })
          (λ c lc. rw emptied-at (ground (arith, w.addrs c, lc)))

    emptied-InRange : InRange (emptied.itable i)
    emptied-InRange = rw emptied-at (record {
      type = range.type;
      major = range.major;
      minor = range.minor;
      nlink = range.nlink;
      size = omega arith;
      addrs = λ c lc. ground (arith, w.addrs c, lc);
    })

    emptied-apart : iblock sb (emptied.itable i).inum < sb.bmapstart
    emptied-apart = rw emptied-at apart

    iupdate-Truncated : Truncated i f (iupdate sb i emptied)
    unfolding iupdate
    iupdate-Truncated =
        let high = iupdate-high sb i emptied emptied-apart in
        let byte = iupdate-byte sb i emptied emptied-Good.marked.byte in
        record {
          marks = λ c lo hi.
              is_used-high sb emptied-Good (iupdate sb i emptied) high byte c hi
              ∙ w.freeing.marks c lo hi;
          blocks = λ c lo. high c (omega arith) ∙ w.freeing.blocks c lo;
          good = Good-high sb emptied-Good (iupdate sb i emptied) high byte;
          addrs = λ c lc. rw emptied-at (ground (arith, w.addrs c, lc));
          same = rw emptied-at refl;
          stored = λ iq.
              subst (λ n. SameFile (on_disk sb (iupdate sb i emptied) n iq) (emptied.itable i))
                (ap (λ (q : Inode). q.inum) emptied-at)
                (on_disk-iupdate sb emptied i iq emptied-InRange);
          others = λ j ne. rw (ne→== j i ne) (w.others j ne);
        }

  -- `itrunc` of a file whose blocks are in use and all different never panics. It frees exactly the
  -- blocks of the file, its indirect block included, changes the content of no data block, and
  -- leaves a file of size 0 with no blocks, on the disk and in memory.
  pub itrunc-Truncated :
      (i : ℕ) (f : Fs)
      → Good sb f (f.itable i)
      → InRange (f.itable i)
      → iblock sb (f.itable i).inum < sb.bmapstart
      → (f' : Fs) × (itrunc sb i f ≡ some f') × Truncated i f f'
  unfolding itrunc
  itrunc-Truncated i f g range apart =
      let (h, r, w) =
        free_direct-Cleared sb i f g ndirect 0 f (omega arith) (Cleared-start i f g) in
      let (h', r', w') = free_indirect-Cleared i f g h w in
      (
        iupdate sb i (emptied i g range apart w'),
        rw (itrunc, r, r') refl,
        iupdate-Truncated i g range apart w',
      )
