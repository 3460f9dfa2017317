-- ===== src/Fs/Bitmap/Marks.antt =====
-- Which blocks the bitmap of kernel/fs.c marks as used, and the search for one that is not.
use cs202lab.Prelude.{
  ℕ, zero, suc, ◌+◌, ◌-◌, ◌*◌, ◌/◌, ◌%◌, ◌≤◌, ◌<◌, ◌≡◌, refl, Bool, true, false, inl, inr, Option,
  none, some, arith, ap, ltb, ◌==◌, Bool-cases, Option-cases,
}
use cs202lab.Fs.Disk.{Block, Superblock, Fs}
use cs202lab.Fs.Bitmap.{bpb, bit_at, bblock, free_in, free_from}

module _ (sb : Superblock) where
  -- Whether the bitmap has block b in use.
  abbrev pub is_used : Fs → ℕ → Bool
  is_used f b = bit_at (f.block (bblock sb b)) (b % bpb)

  -- The first block after the bitmap.
  abbrev pub data_start : ℕ
  data_start = sb.bmapstart + sb.size / bpb + 1

  -- Blocks hold bytes, and all blocks up to the end of the bitmap exist and are in use.
  pub record Marked (f : Fs) : Type 0 where
    pub fits : data_start ≤ sb.size
    pub byte : (b o : ℕ) → f.block b o < 256
    pub reserved : (b : ℕ) → b < data_start → is_used f b ≡ true

  bblock-lt : (b : ℕ) → b < sb.size → bblock sb b < data_start
  bblock-lt b h = omega arith

  free_in-some :
      (k bi b : ℕ) (d : Block) (n : ℕ)
      → free_in sb k bi b d ≡ some n
      → (b + bi ≤ n)
        × (n < b + bi + k)
        × (n < sb.size)
        × (bit_at d (n - b) ≡ false)
        × ((c : ℕ) → b + bi ≤ c → c < n → bit_at d (c - b) ≡ true)
  unfolding free_in
  free_in-some zero bi b d n e = absurd (ground (arith, e))
  free_in-some (suc k) bi b d n e = elim (Bool-cases (ltb (b + bi) sb.size)) [
    | inr past ↦
        let e' : ◌≡◌ {A = Option ℕ} none (some n) = rw past at e in absurd (ground (arith, e'))
    | inl in_range ↦ elim (Bool-cases (bit_at d bi)) [
      | inr here ↦
          let e' : some (b + bi) ≡ some n = rw (in_range, here) at e in
          let i : n ≡ b + bi = ground (arith, e') in
          let j : n - b ≡ bi = omega arith in
          (
            omega arith,
            omega arith,
            ground (arith, in_range, i),
            rw j here,
            λ c lo hi. absurd (omega arith),
          )
      | inl busy ↦
          let e' : free_in sb k (bi + 1) b d ≡ some n = rw (in_range, busy) at e in
          let (lo, hi, lt, free, below) = free_in-some k (bi + 1) b d n e' in
          (
            omega arith,
            omega arith,
            lt,
            free,
            λ c lo' hi'. elim (Bool-cases (c == b + bi)) [
              | inl first ↦ let i : c - b ≡ bi = ground (arith, first) in rw i busy
              | inr later ↦ below c (ground (arith, later)) hi'
            ],
          )
    ]
  ]

  free_in-none :
      (k bi b : ℕ) (d : Block)
      → free_in sb k bi b d ≡ none
      → (c : ℕ) → b + bi ≤ c
      → c < b + bi + k
      → c < sb.size
      → bit_at d (c - b) ≡ true
  unfolding free_in
  free_in-none zero bi b d e c lo hi lt = absurd (omega arith)
  free_in-none (suc k) bi b d e c lo hi lt = elim (Bool-cases (ltb (b + bi) sb.size)) [
    | inr past ↦ absurd (ground (arith, past))
    | inl in_range ↦ elim (Bool-cases (bit_at d bi)) [
      | inr here ↦
          let e' : some (b + bi) ≡ none = rw (in_range, here) at e in absurd (ground (arith, e'))
      | inl busy ↦
          let e' : free_in sb k (bi + 1) b d ≡ none = rw (in_range, busy) at e in
          elim (Bool-cases (c == b + bi)) [
            | inl first ↦ let i : c - b ≡ bi = ground (arith, first) in rw i busy
            | inr later ↦ free_in-none k (bi + 1) b d e' c (ground (arith, later)) (omega arith) lt
          ]
    ]
  ]

  -- A block of the group that starts at b has its bit in the group's block of the bitmap.
  module _ (f : Fs) (b c : ℕ) (start : b % bpb ≡ 0) (lo : b ≤ c) (hi : c < b + bpb) where
    is_used-group : is_used f c ≡ bit_at (f.block (bblock sb b)) (c - b)
    is_used-group =
        let q : c / bpb ≡ b / bpb = omega arith in
        let r : c % bpb ≡ c - b = omega arith in rw (q, r) refl

  pub free_from-some :
      (k b : ℕ) (f : Fs) (n : ℕ)
      → b % bpb ≡ 0
      → free_from sb k b f ≡ some n
      → (b ≤ n)
        × (n < sb.size)
        × (is_used f n ≡ false)
        × ((c : ℕ) → b ≤ c → c < n → is_used f c ≡ true)
  unfolding free_from
  free_from-some zero b f n start e = absurd (ground (arith, e))
  free_from-some (suc k) b f n start e = elim (Bool-cases (ltb b sb.size)) [
    | inr past ↦
        let e' : ◌≡◌ {A = Option ℕ} none (some n) = rw past at e in absurd (ground (arith, e'))
    | inl in_range ↦ elim (Option-cases (free_in sb bpb 0 b (f.block (bblock sb b)))) [
      | inr (m, found) ↦
          let e' : some m ≡ some n = rw (in_range, found) at e in
          let i : m ≡ n = ground (arith, e') in
          let (lo, hi, lt, free, below) =
            free_in-some bpb 0 b (f.block (bblock sb b)) n (rw found (ap some i)) in
          (
            omega arith,
            lt,
            rw (is_used-group f b n start (omega arith) (omega arith)) free,
            λ c lo' hi'.
                rw (is_used-group f b c start lo' (omega arith)) (below c (omega arith) hi'),
          )
      | inl full ↦
          let e' : free_from sb k (b + bpb) f ≡ some n = rw (in_range, full) at e in
          let (lo, lt, free, below) = free_from-some k (b + bpb) f n (omega arith) e' in
          (
            omega arith,
            lt,
            free,
            λ c lo' hi'. elim (Bool-cases (ltb c (b + bpb))) [
              | inl near ↦
                  let near' : c < b + bpb = ground (arith, near) in
                  rw (is_used-group f b c start lo' near') (
                    free_in-none bpb 0 b (f.block (bblock sb b)) full c (omega arith) (omega arith)
                      (omega arith))
              | inr far ↦ below c (ground (arith, far)) hi'
            ],
          )
    ]
  ]

  pub free_from-none :
      (k b : ℕ) (f : Fs)
      → b % bpb ≡ 0
      → free_from sb k b f ≡ none
      → (c : ℕ) → b ≤ c
      → c < b + k * bpb
      → c < sb.size
      → is_used f c ≡ true
  unfolding free_from
  free_from-none zero b f start e c lo hi lt = absurd (omega arith)
  free_from-none (suc k) b f start e c lo hi lt = elim (Bool-cases (ltb b sb.size)) [
    | inr past ↦ absurd (ground (arith, past))
    | inl in_range ↦ elim (Option-cases (free_in sb bpb 0 b (f.block (bblock sb b)))) [
      | inr (m, found) ↦
          let e' : some m ≡ none = rw (in_range, found) at e in absurd (ground (arith, e'))
      | inl full ↦
          let e' : free_from sb k (b + bpb) f ≡ none = rw (in_range, full) at e in
          elim (Bool-cases (ltb c (b + bpb))) [
            | inl near ↦
                let near' : c < b + bpb = ground (arith, near) in
                rw (is_used-group f b c start lo near') (
                  free_in-none bpb 0 b (f.block (bblock sb b)) full c (omega arith) (omega arith)
                    lt)
            | inr far ↦
                free_from-none k (b + bpb) f (omega arith) e' c (ground (arith, far)) (omega arith)
                  lt
          ]
    ]
  ]
