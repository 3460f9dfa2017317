-- ===== src/Fs/Content/Blocks.antt =====
-- Which blocks the inodes of kernel/fs.c name, and what a change to the map of one inode may do.
use cs202lab.Prelude.{
  ℕ, ◌-◌, ◌*◌, ◌^◌, ◌≤◌, ◌<◌, ◌≡◌, ◌≢◌, inl, inr, ◌∙◌, sym, subst, true, arith, ltb, ◌==◌, ==→eq,
  ==→ne, ne→==, if◌then◌else◌, Bool-cases,
}
use cs202lab.Fs.Disk.{Block, word, Inode, Superblock, Fs}
use cs202lab.Fs.Bitmap.{balloc}
use cs202lab.Fs.Bitmap.Marks.{is_used, data_start, Marked}
use cs202lab.Fs.Bitmap.Alloc.{Allocated, balloc-Allocated}
use cs202lab.Fs.Content.{ndirect, maxfile, or_new}

-- The number of block bn of a file, 0 where it has none.
unfoldable pub addr_of : (ℕ → Block) → Inode → ℕ → ℕ
addr_of block ip bn =
    if ltb bn ndirect
    then ip.addrs bn
    else if ip.addrs ndirect == 0
    then 0
    else word (block (ip.addrs ndirect)) (4 * (bn - ndirect))

-- The blocks of a file, `addr c` for block c and `root` for the indirect block, satisfy U where they
-- are not 0, and are all different.
pub record Map (U : ℕ → Type 0) (root : ℕ) (addr : ℕ → ℕ) : Type 0 where
  pub top : root ≢ 0 → U root
  pub held : (c : ℕ) → c < maxfile → addr c ≢ 0 → U (addr c)
  pub apart : (c : ℕ) → c < maxfile → addr c ≢ 0 → addr c ≢ root
  pub distinct : (c d : ℕ) → c < maxfile → d < maxfile → addr c ≢ 0 → addr c ≡ addr d → c ≡ d

-- A new block a, which is not among those of U.
module _ {U V : ℕ → Type 0} {root : ℕ} {addr : ℕ → ℕ} (m : Map U root addr) (a : ℕ) (pos : a ≢ 0)
    (mono : (b : ℕ) → U b → V b) (new_a : V a) (other : (b : ℕ) → U b → b ≢ a) where
  not_root : root ≢ a
  not_root = λ e. elim (Bool-cases (root == 0)) [
    | inl z ↦ absurd (pos (sym e ∙ ==→eq root 0 z))
    | inr h ↦ other root (m.top (==→ne root 0 h)) e
  ]

  not_held : (c : ℕ) → c < maxfile → addr c ≢ a
  not_held c lt = λ e. elim (Bool-cases (addr c == 0)) [
    | inl z ↦ absurd (pos (sym e ∙ ==→eq (addr c) 0 z))
    | inr h ↦ other (addr c) (m.held c lt (==→ne (addr c) 0 h)) e
  ]

  -- It becomes block n.
  module _ (n : ℕ) (unset : addr n ≡ 0) (addr' : ℕ → ℕ)
      (step : (c : ℕ) → c < maxfile → addr' c ≡ (if c == n then a else addr c)) where
    extend-held : (c : ℕ) → c < maxfile → addr' c ≢ 0 → V (addr' c)
    extend-held c lt h = elim (Bool-cases (c == n)) [
      | inl here ↦ let e : addr' c ≡ a = ground (arith, here, step c lt) in subst V (sym e) new_a
      | inr far ↦
          let e : addr' c ≡ addr c = ground (arith, far, step c lt) in
          subst V (sym e) (mono (addr c) (m.held c lt (λ z. h (e ∙ z))))
    ]

    extend-distinct :
        (c d : ℕ) → c < maxfile → d < maxfile → addr' c ≢ 0 → addr' c ≡ addr' d → c ≡ d
    extend-distinct c d lc ld h e =
        ground (arith, step c lc, step d ld, not_held c lc, not_held d ld, m.distinct c d lc ld)

    pub Map-extend : Map V root addr'
    Map-extend = record {
      top = λ h. mono root (m.top h);
      held = extend-held;
      apart = λ c lt h. ground (arith, step c lt, not_root, m.apart c lt);
      distinct = extend-distinct;
    }

  -- It becomes the indirect block.
  pub Map-reroot :
      (addr' : ℕ → ℕ) → root ≡ 0 → ((c : ℕ) → c < maxfile → addr' c ≡ addr c) → Map V a addr'
  Map-reroot addr' unset step = record {
    top = λ h. new_a;
    held = λ c lt h.
        let e = step c lt in subst V (sym e) (mono (addr c) (m.held c lt (λ z. h (e ∙ z))));
    apart = λ c lt h. ground (arith, step c lt, not_held c lt);
    distinct = λ c d lc ld h e. ground (arith, step c lc, step d ld, m.distinct c d lc ld);
  }

module _ (sb : Superblock) where
  -- Block b is a data block in use.
  pub record InUse (f : Fs) (b : ℕ) : Type 0 where
    pub low : data_start sb ≤ b
    pub high : b < sb.size
    pub used : is_used sb f b ≡ true

  abbrev pub Owned : Fs → Inode → Type 0
  Owned f ip = Map (InUse f) (ip.addrs ndirect) (addr_of f.block ip)

  -- The device is small enough for 32-bit block numbers.
  pub record Good (f : Fs) (ip : Inode) : Type 0 where
    pub small : sb.size < 2 ^ 32
    pub marked : Marked sb f
    pub owned : Owned f ip

  -- The three ways of `or_new`.
  pub data OrNew (addr : ℕ) (store : ℕ → Fs → Fs) (f : Fs) : ℕ × Fs → Type 0 where
    kept : addr ≢ 0 → OrNew addr store f (addr, f)
    out_of_blocks :
        addr ≡ 0 → ((c : ℕ) → c < sb.size → is_used sb f c ≡ true) → OrNew addr store f (0, f)
    new :
        {a : ℕ} {f1 : Fs}
        → addr ≡ 0
        → a ≢ 0
        → Allocated sb f a f1
        → OrNew addr store f (a, store a f1)

  pub or_new-OrNew :
      (addr : ℕ) (store : ℕ → Fs → Fs) (f : Fs)
      → Marked sb f
      → OrNew addr store f (or_new addr store (balloc sb f) f)
  unfolding or_new
  or_new-OrNew addr store f m = elim (Bool-cases (addr == 0)) [
    | inr is_set ↦ rw is_set (kept (ground (arith, is_set)))
    | inl unset ↦ elim (balloc-Allocated sb f m) [
      | inl (z, same, full) ↦ rw (unset, z, same) (out_of_blocks (ground (arith, unset)) full)
      | inr a ↦
          let pos : (balloc sb f).0 ≢ 0 = λ e. absurd (omega (arith, a.low)) in
          rw (unset, ne→== _ 0 pos) (new (ground (arith, unset)) pos a)
    ]
  ]
