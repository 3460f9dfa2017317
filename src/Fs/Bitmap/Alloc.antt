-- ===== src/Fs/Bitmap/Alloc.antt =====
-- What `balloc` and `bfree` of kernel/fs.c do to the marks and to the blocks.
use cs202lab.Prelude.{
  ℕ, ◌+◌, ◌/◌, ◌%◌, ◌≤◌, ◌<◌, ◌≡◌, ◌≢◌, refl, true, false, not, ◌&&◌, ◌||◌, ◌⊎◌, ◌↔◌, inl, inr,
  none, some, arith, ap, ltb, ◌==◌, if◌then◌else◌, Bool-cases, Option-cases,
}
use cs202lab.Fs.Disk.{bsize, Superblock, Fs, put_block, bzero}
use cs202lab.Fs.Bitmap.{bpb, with_bit, without_bit, bblock, free_from, take_block, balloc, bfree}
use cs202lab.Fs.Bitmap.Bits.{bit_at-with_bit, bit_at-without_bit, with_bit-byte, without_bit-byte}
use cs202lab.Fs.Bitmap.Marks.{is_used, data_start, Marked, free_from-some, free_from-none}

module _ (sb : Superblock) where
  -- Block n of f was free, and f' has it in use and zeroed; the rest is as it was.
  pub record Allocated (f : Fs) (n : ℕ) (f' : Fs) : Type 0 where
    pub low : data_start sb ≤ n
    pub high : n < sb.size
    pub was_free : is_used sb f n ≡ false
    pub marks : (c : ℕ) → c < sb.size → is_used sb f' c ≡ (c == n) || is_used sb f c
    pub zeroed : (o : ℕ) → o < bsize → f'.block n o ≡ 0
    pub others : (b : ℕ) → data_start sb ≤ b → b ≢ n → f'.block b ≡ f.block b
    pub memory : f' ≡ record f { block = f'.block; logged = f'.logged }
    pub marked : Marked sb f'

  module _ {f : Fs} (m : Marked sb f) (n : ℕ) (high : n < sb.size)
      (free : is_used sb f n ≡ false) where
    free-low : data_start sb ≤ n
    free-low = elim (Bool-cases (ltb n (data_start sb))) [
      | inl lt ↦ let u : is_used sb f n ≡ true = m.reserved n (ground (arith, lt)) in absurd (cc)
      | inr ge ↦ ground (arith, ge)
    ]

    take_block-block :
        (b : ℕ)
        → b ≢ n
        → (take_block sb n f).block b
          ≡ (if b == bblock sb n then with_bit (f.block (bblock sb n)) (n % bpb) else f.block b)
    unfolding take_block bzero
    take_block-block b ne = let e : (b == n) ≡ false = ground (arith, ne) in rw e refl

    take_block-marks :
        (c : ℕ) → c < sb.size → is_used sb (take_block sb n f) c ≡ (c == n) || is_used sb f c
    take_block-marks c lt =
        let low = free-low in
        let e = take_block-block (bblock sb c) (λ e. omega arith) in
        elim (Bool-cases (bblock sb c == bblock sb n)) [
          | inr far ↦ let s : (c == n) ≡ false = ground arith in rw (e, far, s) refl
          | inl near ↦
              let q : bblock sb c ≡ bblock sb n = ground (arith, near) in
              let s : (c == n) ≡ (c % bpb == n % bpb) = ground (arith, q) in
              rw (e, near, s, q)
                (bit_at-with_bit (f.block (bblock sb n)) (n % bpb) (m.byte _ _) (c % bpb))
        ]

    take_block-byte : (b o : ℕ) → (take_block sb n f).block b o < 256
    unfolding take_block bzero
    take_block-byte b o = ground (
      arith,
      free-low,
      m.byte b o,
      m.byte n o,
      with_bit-byte (f.block (bblock sb n)) (n % bpb) (m.byte _ _) o (m.byte _ _),
    )

    take_block-zeroed : (o : ℕ) → o < bsize → (take_block sb n f).block n o ≡ 0
    unfolding take_block bzero
    take_block-zeroed o lt = ground arith

    take_block-others :
        (b : ℕ) → data_start sb ≤ b → b ≢ n → (take_block sb n f).block b ≡ f.block b
    take_block-others b lo ne =
        let e = take_block-block b ne in
        let s : (b == bblock sb n) ≡ false = ground (arith, high, lo) in rw (e, s) refl

    take_block-memory :
        take_block sb n f
        ≡ record f { block = (take_block sb n f).block; logged = (take_block sb n f).logged }
    unfolding take_block bzero
    take_block-memory = refl

    take_block-Allocated : Allocated f n (take_block sb n f)
    take_block-Allocated = record {
      low = free-low;
      high = high;
      was_free = free;
      marks = take_block-marks;
      zeroed = take_block-zeroed;
      others = take_block-others;
      memory = take_block-memory;
      marked = record {
        fits = m.fits;
        byte = take_block-byte;
        reserved = λ b lt.
            let lt' : b < sb.size = omega (arith, m.fits) in
            ground (arith, take_block-marks b lt', m.reserved b lt);
      };
    }

  -- `balloc` gives 0 and changes nothing, exactly when every block is in use; otherwise it gives a
  -- block that was free, in the data area, now in use and zeroed, and no other mark or data block
  -- changes.
  pub balloc-Allocated :
      (f : Fs)
      → Marked sb f
      → let (n, f') = balloc sb f in
        ((n ≡ 0) × (f' ≡ f) × ((c : ℕ) → c < sb.size → is_used sb f c ≡ true)) ⊎ Allocated f n f'
  unfolding balloc
  balloc-Allocated f m = elim (Option-cases (free_from sb (sb.size / bpb + 1) 0 f)) [
    | inl full ↦
        rw (full, balloc)
          (inl (
            refl,
            refl,
            λ c lt. free_from-none sb _ 0 f refl full c (omega arith) (omega arith) lt,
          ))
    | inr (n, found) ↦
        let (lo, lt, free, below) = free_from-some sb _ 0 f n refl found in
        rw (found, balloc) (inr (take_block-Allocated m n lt free))
  ]

  -- `bfree` of a block panics exactly when the block is free.
  pub bfree-panics : (f : Fs) (b : ℕ) → (bfree sb b f ≡ none) ↔ (is_used sb f b ≡ false)
  unfolding bfree
  bfree-panics f b = (λ e. ground (arith, e), λ e. rw e refl)

  pub record Freed (f : Fs) (b : ℕ) (f' : Fs) : Type 0 where
    pub marks : (c : ℕ) → c < sb.size → is_used sb f' c ≡ not (c == b) && is_used sb f c
    pub others : (c : ℕ) → data_start sb ≤ c → f'.block c ≡ f.block c
    pub memory : f' ≡ record f { block = f'.block; logged = f'.logged }
    pub marked : Marked sb f'

  module _ {f : Fs} (m : Marked sb f) (b : ℕ) (low : data_start sb ≤ b) (high : b < sb.size) where
    abbrev cleared : Fs
    cleared = put_block (bblock sb b) (without_bit (f.block (bblock sb b)) (b % bpb)) f

    cleared-marks : (c : ℕ) → c < sb.size → is_used sb cleared c ≡ not (c == b) && is_used sb f c
    cleared-marks c lt = elim (Bool-cases (bblock sb c == bblock sb b)) [
      | inr far ↦ let s : (c == b) ≡ false = ground arith in rw (far, s) refl
      | inl near ↦
          let q : bblock sb c ≡ bblock sb b = ground (arith, near) in
          let s : (c == b) ≡ (c % bpb == b % bpb) = ground (arith, q) in
          rw (near, s, q)
            (bit_at-without_bit (f.block (bblock sb b)) (b % bpb) (m.byte _ _) (c % bpb))
    ]

    cleared-byte : (c o : ℕ) → cleared.block c o < 256
    cleared-byte c o = ground (
      arith,
      m.byte c o,
      without_bit-byte (f.block (bblock sb b)) (b % bpb) (m.byte _ _) o (m.byte _ _),
    )

    cleared-Freed : Freed f b cleared
    cleared-Freed = record {
      marks = cleared-marks;
      others = λ c lo. let s : (c == bblock sb b) ≡ false = ground (arith, high, lo) in rw s refl;
      memory = refl;
      marked = record {
        fits = m.fits;
        byte = cleared-byte;
        reserved = λ c lt.
            let lt' : c < sb.size = omega (arith, m.fits) in
            ground (arith, cleared-marks c lt', m.reserved c lt);
      };
    }

    -- `bfree` of a block of the data area that is in use marks that block free, and no other; data
    -- blocks keep their content.
    pub bfree-Freed : is_used sb f b ≡ true → (f' : Fs) × (bfree sb b f ≡ some f') × Freed f b f'
    unfolding bfree
    bfree-Freed busy = (cleared, rw busy refl, cleared-Freed)

  -- A block that `balloc` gave can be freed, and then every block is marked as before.
  pub bfree-balloc :
      (f : Fs)
      → Marked sb f
      → (balloc sb f).0 ≢ 0
      → (f' : Fs) × (bfree sb (balloc sb f).0 (balloc sb f).1 ≡ some f')
        × ((c : ℕ) → c < sb.size → is_used sb f' c ≡ is_used sb f c)
  bfree-balloc f m ok = elim (balloc-Allocated f m) [
    | inl full ↦ absurd (ok full.0)
    | inr a ↦
        let busy = a.marks (balloc sb f).0 a.high in
        let (f', e, fr) =
          bfree-Freed a.marked (balloc sb f).0 a.low a.high (ground (arith, busy)) in
        (f', e, λ c lt. ground (arith, fr.marks c lt, a.marks c lt, a.was_free, ap (is_used sb f)))
  ]
