-- ===== src/Fs/Content/Steps.antt =====
-- Growing the map of one file of kernel/fs.c by a new block: what changes, and what does not.
use cs202lab.Prelude.{
  ℕ, ◌+◌, ◌-◌, ◌*◌, ◌≤◌, ◌<◌, ◌≡◌, ◌≢◌, inl, inr, refl, sym, subst, true, false, arith, ge→ltb,
  ◌==◌, ne→==, if◌then◌else◌, update, Bool-cases,
}
use cs202lab.Fs.Disk.{bsize, Block, word, Inode, Superblock, Fs}
use cs202lab.Fs.Bitmap.Marks.{is_used}
use cs202lab.Fs.Bitmap.Alloc.{Allocated}
use cs202lab.Fs.Content.{ndirect, maxfile}
use cs202lab.Fs.Content.Blocks.{addr_of, Map, Map-extend, Map-reroot, InUse, Good}

pub addr_of-below_eq :
    (block : ℕ → Block) (ip : Inode) (n : ℕ) → n < ndirect → addr_of block ip n ≡ ip.addrs n
unfolding addr_of
addr_of-below_eq block ip n lt = ground arith

pub addr_of-above :
    (block : ℕ → Block) (ip : Inode) (n : ℕ)
    → ip.addrs ndirect ≢ 0
    → addr_of block ip (n + ndirect) ≡ word (block (ip.addrs ndirect)) (4 * n)
unfolding addr_of
addr_of-above block ip n h =
    let e : n + ndirect - ndirect ≡ n = omega arith in
    rw (ge→ltb (n + ndirect) ndirect (omega arith), ne→== (ip.addrs ndirect) 0 h, e) refl

pub addr_of-rootless :
    (block : ℕ → Block) (ip : Inode) (n : ℕ)
    → ndirect ≤ n
    → ip.addrs ndirect ≡ 0
    → addr_of block ip n ≡ 0
unfolding addr_of
addr_of-rootless block ip n lo z = ground arith

pub addr_of-below :
    (block : ℕ → Block) (ip : Inode) (n : ℕ) → n < ndirect → ip.addrs n ≡ 0 → addr_of block ip n ≡ 0
unfolding addr_of
addr_of-below block ip n lt e = ground arith

module _ (sb : Superblock) where
  -- The map of one file grew at block bn at most.
  pub record Step (bn : ℕ) (f : Fs) (ip : Inode) (f' : Fs) (ip' : Inode) : Type 0 where
    pub others : (c : ℕ) → c < maxfile → c ≢ bn → addr_of f'.block ip' c ≡ addr_of f.block ip c
    pub kept_addr :
        bn < maxfile → addr_of f.block ip bn ≢ 0 → addr_of f'.block ip' bn ≡ addr_of f.block ip bn
    pub fresh :
        bn < maxfile
        → addr_of f.block ip bn ≡ 0
        → addr_of f'.block ip' bn ≢ 0
        → (addr_of f'.block ip' bn < sb.size)
          × (is_used sb f (addr_of f'.block ip' bn) ≡ false)
          × ((o : ℕ) → o < bsize → f'.block (addr_of f'.block ip' bn) o ≡ 0)
    pub content : (b : ℕ) → InUse sb f b → b ≢ ip'.addrs ndirect → f'.block b ≡ f.block b
    pub root : ip.addrs ndirect ≢ 0 → ip'.addrs ndirect ≡ ip.addrs ndirect
    pub root_new :
        ip.addrs ndirect ≡ 0 → ip'.addrs ndirect ≢ 0 → is_used sb f (ip'.addrs ndirect) ≡ false
    pub mono : (b : ℕ) → InUse sb f b → InUse sb f' b
    pub same : ip' ≡ record ip { addrs = ip'.addrs }
    pub good : Good sb f' ip'

  module _ {f : Fs} {ip : Inode} (g : Good sb f ip) {a : ℕ} {f1 : Fs}
      (al : Allocated sb f a f1) where
    pub other-block : (b : ℕ) → InUse sb f b → b ≢ a
    other-block b u e =
        let busy : is_used sb f a ≡ true = subst (λ x. is_used sb f x ≡ true) e u.used in
        let free = al.was_free in absurd (cc)

    pub kept-block : (b : ℕ) → InUse sb f b → f1.block b ≡ f.block b
    kept-block b u = al.others b u.low (other-block b u)

    pub mono-alloc : (b : ℕ) → InUse sb f b → InUse sb f1 b
    mono-alloc b u = record {
      low = u.low;
      high = u.high;
      used = ground (arith, al.marks b u.high, u.used);
    }

    pub new-InUse : InUse sb f1 a
    new-InUse = record { low = al.low; high = al.high; used = ground (arith, al.marks a al.high) }

    addr_of-alloc : (c : ℕ) → addr_of f1.block ip c ≡ addr_of f.block ip c
    unfolding addr_of
    addr_of-alloc c = elim (Bool-cases (ip.addrs ndirect == 0)) [
      | inl unset ↦ rw unset refl
      | inr is_set ↦ rw (kept-block (ip.addrs ndirect) (g.owned.top (ground (arith, is_set)))) refl
    ]

    -- A new direct block.
    module _ (n : ℕ) (lt : n < ndirect) (unset : ip.addrs n ≡ 0) where
      abbrev pub direct : Inode
      direct = record ip { addrs = update ip.addrs n a }

      addr_of-direct :
          (c : ℕ) → addr_of f1.block direct c ≡ (if c == n then a else addr_of f.block ip c)
      addr_of-direct c = let e = addr_of-alloc c in unfold addr_of in ground (arith, lt, e)

      direct-Good : a ≢ 0 → Good sb f1 direct
      direct-Good pos = record {
        small = g.small;
        marked = al.marked;
        owned =
            let e : direct.addrs ndirect ≡ ip.addrs ndirect = ground (arith, lt) in
            subst (λ r. Map (InUse sb f1) r (addr_of f1.block direct)) (sym e)
              (Map-extend g.owned a pos mono-alloc new-InUse other-block n
                (addr_of-below f.block ip n lt unset) (addr_of f1.block direct)
                (λ c lc. addr_of-direct c));
      }

      pub direct-Step : a ≢ 0 → Step n f ip f1 direct
      direct-Step pos = record {
        others = λ c lc ne. ground (arith, addr_of-direct c, ne);
        kept_addr = λ ln h. absurd (h (addr_of-below f.block ip n lt unset));
        fresh = λ ln z h.
            let e : addr_of f1.block direct n ≡ a = ground (arith, addr_of-direct n) in
            subst
              (λ b.
                (b < sb.size) × (is_used sb f b ≡ false) × ((o : ℕ) → o < bsize → f1.block b o ≡ 0))
              (sym e) (al.high, al.was_free, al.zeroed);
        content = λ b u ne. kept-block b u;
        root = λ h. ground (arith, lt);
        root_new = λ z h. absurd (h (ground (arith, lt, z)));
        mono = mono-alloc;
        same = refl;
        good = direct-Good pos;
      }

    -- A new indirect block.
    module _ (unset : ip.addrs ndirect ≡ 0) where
      abbrev pub rooted : Inode
      rooted = record ip { addrs = update ip.addrs ndirect a }

      addr_of-rooted : (c : ℕ) → c < maxfile → addr_of f1.block rooted c ≡ addr_of f.block ip c
      unfolding addr_of word
      addr_of-rooted c lc = ground (
        arith,
        unset,
        al.zeroed (4 * (c - ndirect)),
        al.zeroed (4 * (c - ndirect) + 1),
        al.zeroed (4 * (c - ndirect) + 2),
        al.zeroed (4 * (c - ndirect) + 3),
      )

      pub rooted-Step : a ≢ 0 → Step maxfile f ip f1 rooted
      rooted-Step pos = record {
        others = λ c lc ne. addr_of-rooted c lc;
        kept_addr = λ ln h. absurd (omega arith);
        fresh = λ ln z h. absurd (omega arith);
        content = λ b u ne. kept-block b u;
        root = λ h. absurd (h unset);
        root_new = λ z h. al.was_free;
        mono = mono-alloc;
        same = refl;
        good = record {
          small = g.small;
          marked = al.marked;
          owned = Map-reroot g.owned a pos mono-alloc new-InUse other-block _ unset addr_of-rooted;
        };
      }
