-- ===== src/Fs/Bitmap/Bits.antt =====
-- Bits of a block of the bitmap: one is set or cleared, and the others stay.
use Prim.Native.Nat.{bit_and, bit_or}
use cs202lab.Prelude.{
  ℕ, zero, suc, ◌-◌, ◌/◌, ◌%◌, ◌^◌, ◌<◌, ◌≡◌, refl, Bool, true, not, ◌&&◌, ◌||◌, arith, ltb, ◌==◌,
  if◌then◌else◌, ==→eq, ltb→lt, inl, inr, Bool-cases, false,
}
use cs202lab.Fs.Disk.{Block}
use cs202lab.Fs.Bitmap.{bit_at, with_bit, without_bit}

abbrev same : Bool → Bool → Bool
same a b = if a then b else not b

same→eq : (a b : Bool) → same a b ≡ true → a ≡ b
same→eq a b h = ground arith

both : (a b : Bool) → a && b ≡ true → (a ≡ true) × (b ≡ true)
both a b h = ground arith

abbrev test : ℕ → ℕ → Bool
test x k = not (bit_and x (2 ^ k) == 0)

-- Does p hold of every number below the top?
holds_to : (p : ℕ → Bool) (top : ℕ) → Bool
holds_to p zero = true
holds_to p (suc top) = if p top then holds_to p top else false

module _ (p : ℕ → Bool) where
  holds_to-at : (top k : ℕ) → k < top → holds_to p top ≡ true → p k ≡ true
  unfolding holds_to
  holds_to-at zero k below all = absurd (omega arith)
  holds_to-at (suc top) k below all = let rest = holds_to-at top k in ground (arith, rest)

-- A check of every byte and every pair of bits.
checked : (ℕ → ℕ → ℕ → Bool) → Bool
checked p = holds_to (λ bit. holds_to (λ other. holds_to (p bit other) 256) 8) 8

checked_sound :
    (p : ℕ → ℕ → ℕ → Bool) (k j x : ℕ) → checked p ≡ true → k < 8 → j < 8 → x < 256 → p k j x ≡ true
unfolding checked
checked_sound p k j x h hk hj hx =
    let outer = holds_to-at (λ (b : ℕ). holds_to (λ (o : ℕ). holds_to (p b o) 256) 8) 8 k hk h in
    let inner = holds_to-at (λ (o : ℕ). holds_to (p k o) 256) 8 j hj outer in
    holds_to-at (p k j) 256 x hx inner

abbrev or_right : ℕ → ℕ → ℕ → Bool
or_right k j x =
    ltb (bit_or x (2 ^ k)) 256 && same (test (bit_or x (2 ^ k)) j) ((j == k) || test x j)

abbrev and_right : ℕ → ℕ → ℕ → Bool
and_right k j x =
    ltb (bit_and x (255 - 2 ^ k)) 256
    && same (test (bit_and x (255 - 2 ^ k)) j) (not (j == k) && test x j)

or_table : checked or_right ≡ true
unfolding checked holds_to
or_table = refl

and_table : checked and_right ≡ true
unfolding checked holds_to
and_table = refl

module _ (x k j : ℕ) (hx : x < 256) (hk : k < 8) (hj : j < 8) where
  or_lem : (bit_or x (2 ^ k) < 256) × (test (bit_or x (2 ^ k)) j ≡ (j == k) || test x j)
  or_lem =
      let e = checked_sound or_right k j x or_table hk hj hx in
      let (lo, hi) = both _ _ e in (ltb→lt _ _ lo, same→eq _ _ hi)

  and_lem :
      (bit_and x (255 - 2 ^ k) < 256)
      × (test (bit_and x (255 - 2 ^ k)) j ≡ not (j == k) && test x j)
  and_lem =
      let e = checked_sound and_right k j x and_table hk hj hx in
      let (lo, hi) = both _ _ e in (ltb→lt _ _ lo, same→eq _ _ hi)

module _ (d : Block) (bi : ℕ) (byte : d (bi / 8) < 256) where
  pub bit_at-with_bit : (bj : ℕ) → bit_at (with_bit d bi) bj ≡ (bj == bi) || bit_at d bj
  unfolding bit_at with_bit
  bit_at-with_bit bj =
      let e = (or_lem (d (bi / 8)) (bi % 8) (bj % 8) byte (omega arith) (omega arith)).1 in
      elim (Bool-cases (bj / 8 == bi / 8)) [
        | inl near ↦
            let q : bj / 8 ≡ bi / 8 = ==→eq _ _ near in
            let s : (bj == bi) ≡ (bj % 8 == bi % 8) = ground arith in rw (near, s, q) e
        | inr far ↦ let s : (bj == bi) ≡ false = ground arith in rw (far, s) refl
      ]

  pub bit_at-without_bit : (bj : ℕ) → bit_at (without_bit d bi) bj ≡ not (bj == bi) && bit_at d bj
  unfolding bit_at without_bit
  bit_at-without_bit bj =
      let e = (and_lem (d (bi / 8)) (bi % 8) (bj % 8) byte (omega arith) (omega arith)).1 in
      elim (Bool-cases (bj / 8 == bi / 8)) [
        | inl near ↦
            let q : bj / 8 ≡ bi / 8 = ==→eq _ _ near in
            let s : (bj == bi) ≡ (bj % 8 == bi % 8) = ground arith in rw (near, s, q) e
        | inr far ↦ let s : (bj == bi) ≡ false = ground arith in rw (far, s) refl
      ]

  pub with_bit-byte : (o : ℕ) → d o < 256 → with_bit d bi o < 256
  unfolding with_bit
  with_bit-byte o h =
      ground (arith, (or_lem (d (bi / 8)) (bi % 8) 0 byte (omega arith) (omega arith)).0)

  pub without_bit-byte : (o : ℕ) → d o < 256 → without_bit d bi o < 256
  unfolding without_bit
  without_bit-byte o h =
      ground (arith, (and_lem (d (bi / 8)) (bi % 8) 0 byte (omega arith) (omega arith)).0)
