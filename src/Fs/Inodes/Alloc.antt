-- ===== src/Fs/Inodes/Alloc.antt =====
-- `ialloc` of kernel/fs.c: which inode it takes and what it writes.
use cs202lab.Prelude.{
  ℕ, zero, suc, ◌+◌, ◌-◌, ◌^◌, ◌≤◌, ◌<◌, ◌≡◌, ◌≢◌, ◌⊎◌, inl, inr, refl, true, Option, none, some,
  arith, ◌==◌, eq→==, Bool-cases, Option-cases,
}
use cs202lab.Prelude.Fallible.{◌>>=◌}
use cs202lab.Fs.Disk.{Block, half, put_half, Inode, Superblock, Fs, put_block}
use cs202lab.Fs.Disk.Words.{half-put_half}
use cs202lab.Fs.Inodes.{iblock, dinode_offset, iget, free_dinode, clear_dinode, ialloc}
use cs202lab.Fs.Inodes.Dinode.{SameFile, read_dinode-same}
use cs202lab.Fs.Inodes.Table.{Unique, Full, Got, Gets, iget-Gets}
use cs202lab.Fs.Inodes.Stored.{on_disk}

module _ (sb : Superblock) where
  abbrev pub disk_type : Fs → ℕ → ℕ
  disk_type f n = half (f.block (iblock sb n)) (dinode_offset sb n)

  free_dinode-some :
      (k i : ℕ) (f : Fs) (n : ℕ)
      → free_dinode sb k i f ≡ some n
      → (i ≤ n) × (n < i + k) × (disk_type f n ≡ 0) × ((c : ℕ) → i ≤ c → c < n → disk_type f c ≢ 0)
  unfolding free_dinode
  free_dinode-some zero i f n e = absurd (ground (arith, e))
  free_dinode-some (suc k) i f n e = elim (Bool-cases (disk_type f i == 0)) [
    | inl here ↦
        let e' : some i ≡ some n = rw here at e in
        let q : n ≡ i = ground (arith, e') in
        (omega arith, omega arith, rw q (ground (arith, here)), λ c lo hi. absurd (omega arith))
    | inr taken ↦
        let e' : free_dinode sb k (i + 1) f ≡ some n = rw taken at e in
        let (lo, hi, z, before) = free_dinode-some k (i + 1) f n e' in
        (
          omega arith,
          omega arith,
          z,
          λ c lo' hi'. elim (Bool-cases (c == i)) [
            | inl first ↦ let q : c ≡ i = ground (arith, first) in rw q (ground (arith, taken))
            | inr later ↦ before c (ground (arith, later)) hi'
          ],
        )
  ]

  free_dinode-none :
      (k i : ℕ) (f : Fs)
      → free_dinode sb k i f ≡ none
      → (c : ℕ) → i ≤ c
      → c < i + k
      → disk_type f c ≢ 0
  unfolding free_dinode
  free_dinode-none zero i f e c lo hi = absurd (omega arith)
  free_dinode-none (suc k) i f e c lo hi = elim (Bool-cases (disk_type f i == 0)) [
    | inl here ↦ let e' : some i ≡ none = rw here at e in absurd (ground (arith, e'))
    | inr taken ↦
        let e' : free_dinode sb k (i + 1) f ≡ none = rw taken at e in
        elim (Bool-cases (c == i)) [
          | inl first ↦ let q : c ≡ i = ground (arith, first) in rw q (ground (arith, taken))
          | inr later ↦ free_dinode-none k (i + 1) f e' c (ground (arith, later)) (omega arith)
        ]
  ]

  -- The dinode n of f is free, and f' differs from f in its block in that n has the type and is
  -- otherwise zero.
  pub record Typed (ty : ℕ) (f : Fs) (n : ℕ) (f' : Fs) : Type 0 where
    pub low : 1 ≤ n
    pub high : n < sb.ninodes
    pub was_free : disk_type f n ≡ 0
    pub first : (c : ℕ) → 1 ≤ c → c < n → disk_type f c ≢ 0
    pub type : disk_type f' n ≡ ty
    pub zeroed : (p : ℕ) → 2 ≤ p → p < 64 → f'.block (iblock sb n) (dinode_offset sb n + p) ≡ 0
    pub others : (c : ℕ) (iq : Inode) → c ≢ n → SameFile (on_disk sb f' c iq) (on_disk sb f c iq)

  abbrev written : ℕ → Fs → ℕ → Fs
  written type f n =
      let b = iblock sb n in put_block b (clear_dinode sb (f.block b) (dinode_offset sb n) type) f

  clear_dinode-other :
      (d : Block) (o type p : ℕ) → (p < o) ⊎ (o + 64 ≤ p) → clear_dinode sb d o type p ≡ d p
  unfolding clear_dinode put_half
  clear_dinode-other d o type p h = ground arith

  clear_dinode-zero :
      (d : Block) (o type p : ℕ) → 2 ≤ p → p < 64 → clear_dinode sb d o type (o + p) ≡ 0
  unfolding clear_dinode put_half
  clear_dinode-zero d o type p lo hi = ground arith

  clear_dinode-type :
      (d : Block) (o type : ℕ) → type < 2 ^ 16 → half (clear_dinode sb d o type) o ≡ type
  unfolding clear_dinode
  clear_dinode-type d o type h = half-put_half _ o type h

  written-Typed :
      (type : ℕ) (f : Fs) (n : ℕ)
      → type < 2 ^ 16
      → free_dinode sb (sb.ninodes - 1) 1 f ≡ some n
      → Typed type f n (written type f n)
  written-Typed type f n range e =
      let (lo, hi, z, before) = free_dinode-some (sb.ninodes - 1) 1 f n e in
      let here : (iblock sb n == iblock sb n) ≡ true = eq→== (iblock sb n) _ refl in
      record {
        low = lo;
        high = omega arith;
        was_free = z;
        first = before;
        type = rw here (clear_dinode-type _ _ type range);
        zeroed = λ p lo' hi'. rw here (clear_dinode-zero _ _ type p lo' hi');
        others = λ c iq ne. read_dinode-same _ _ _ iq (λ p lo hi.
            elim (Bool-cases (iblock sb c == iblock sb n)) [
              | inr far ↦ rw far refl
              | inl near ↦
                  let q : iblock sb c ≡ iblock sb n = ground (arith, near) in
                  rw (near, q) (clear_dinode-other _ _ type p (omega arith))
            ]);
      }

  abbrev pub Allocs : (dev type : ℕ) → Fs → Option (Option ℕ × Fs) → Type 0
  Allocs dev type f none =
      (n : ℕ) × (f1 : Fs) × (f1.itable ≡ f.itable) × Typed type f n f1 × Full dev n f1
  Allocs dev type f (some (none, f')) =
      (f' ≡ f) × ((n : ℕ) → 1 ≤ n → n < sb.ninodes → disk_type f n ≢ 0)
  Allocs dev type f (some (some i, f')) =
      (n : ℕ) × (f1 : Fs) × (f1.itable ≡ f.itable) × Typed type f n f1 × Got dev n f1 i f'

  after :
      (dev type : ℕ) (f : Fs) (n : ℕ)
      → Typed type f n (written type f n)
      → (r : Option (ℕ × Fs)) → Gets dev n (written type f n) r
      → Allocs dev type f (r >>= (λ q. some (some q.0, q.1)))
  after dev type f n t none g = (n, written type f n, refl, t, g)
  after dev type f n t (some (i, f')) g = (n, written type f n, refl, t, g)

  -- `ialloc` gives the null pointer and changes nothing exactly when no inode on the disk is free.
  -- Otherwise it takes the first that is free, gives it the type and zeroes it, leaves the others on
  -- the disk, and gives an entry of the table for it with one more reference; it panics when the table
  -- has no entry left.
  pub ialloc-Allocs :
      (dev type : ℕ) (f : Fs) → Unique f → type < 2 ^ 16 → Allocs dev type f (ialloc sb dev type f)
  unfolding ialloc
  ialloc-Allocs dev type f u range = elim (Option-cases (free_dinode sb (sb.ninodes - 1) 1 f)) [
    | inl all_taken ↦
        rw (all_taken, ialloc)
          (refl, λ n lo hi. free_dinode-none (sb.ninodes - 1) 1 f all_taken n lo (omega arith))
    | inr (n, e) ↦
        let t = written-Typed type f n range e in
        let g : Gets dev n (written type f n) (iget dev n (written type f n)) =
          iget-Gets dev n (written type f n) u in
        rw (e, ialloc) (after dev type f n t (iget dev n (written type f n)) g)
  ]
