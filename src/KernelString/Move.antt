-- ===== src/KernelString/Move.antt =====
-- The block functions of kernel/string.c against what each address holds afterwards.
use cs202lab.Prelude.{
  ℕ, zero, suc, ◌+◌, ◌-◌, ◌%◌, ◌≤◌, ◌<◌, ◌≡◌, refl, ◌∙◌, ◌↔◌, ◌⊎◌, inl, inr, ap, Bool, ◌&&◌, arith,
  pos, sub_ℕ-zero, ltb, leb, ◌==◌, if◌then◌else◌, update, Bool-cases, ==→eq, ==→ne,
}
use cs202lab.KernelString.{Mem, memset_loop, memset, memcmp, copy_down, copy_up, memmove}

-- Address `a` is one of the n from `d` on.
abbrev pub within : ℕ → ℕ → ℕ → Bool
within d n a = leb d a && ltb a (d + n)

memset_loop-within :
    (k i dst c : ℕ) (mem : Mem) (a : ℕ)
    → memset_loop k i dst c mem a ≡ (if within (dst + i) k a then c % 256 else mem a)
unfolding memset_loop
memset_loop-within zero i dst c mem a = ground arith
memset_loop-within (suc k) i dst c mem a =
    ground (arith, memset_loop-within k (i + 1) dst c (update mem (dst + i) (c % 256)) a)

-- `memset` sets the n bytes from `dst` on to the low byte of `c`, and no other.
pub memset-within :
    (dst c n : ℕ) (mem : Mem) (a : ℕ)
    → memset dst c n mem a ≡ (if within dst n a then c % 256 else mem a)
unfolding memset
memset-within dst c n mem a = ground (arith, memset_loop-within n 0 dst c mem a)

-- Copying downwards is right where the source starts below the target or does not overlap it.
copy_down-within :
    (n d s : ℕ) (mem : Mem) (a : ℕ)
    → s ≤ d
    → copy_down d s n mem a ≡ (if within d n a then mem (s + (a - d)) else mem a)
unfolding copy_down
copy_down-within zero d s mem a h = ground arith
copy_down-within (suc n) d s mem a h =
    copy_down-within n d s (update mem (d + n) (mem (s + n))) a h ∙ ground (arith, index a (d + n))
  where
    index : (a b : ℕ) → a ≡ b → mem (s + (a - d)) ≡ mem (s + (b - d))
    index a b e = ap (λ k. mem (s + (k - d))) e

copy_up-within :
    (n d s : ℕ) (mem : Mem) (a : ℕ)
    → (d ≤ s) ⊎ (s + n ≤ d)
    → copy_up d s n mem a ≡ (if within d n a then mem (s + (a - d)) else mem a)
unfolding copy_up
copy_up-within zero d s mem a h = ground arith
copy_up-within (suc n) d s mem a h =
    copy_up-within n (d + 1) (s + 1) (update mem d (mem s)) a (ground arith) ∙ ground arith

-- `memmove` leaves at the n addresses from `dst` on what stood at those from `src` on, however the
-- two ranges overlap, and changes no other address.
pub memmove-within :
    (dst src n : ℕ) (mem : Mem) (a : ℕ)
    → memmove dst src n mem a ≡ (if within dst n a then mem (src + (a - dst)) else mem a)
unfolding memmove
memmove-within dst src n mem a = elim (Bool-cases (n == 0)) [
  | inl none_left ↦ ground arith
  | inr some_left ↦ elim (Bool-cases (ltb src dst && ltb dst (src + n))) [
    | inl down ↦ rw (some_left, down) (copy_down-within n dst src mem a (ground arith))
    | inr up ↦ rw (some_left, up) (copy_up-within n dst src mem a (ground arith))
  ]
]

module _ (mem : Mem) where
  -- The n bytes from v1 on are those from v2 on.
  abbrev pub Same : ℕ → ℕ → ℕ → Type 0
  Same n v1 v2 = (i : ℕ) → i < n → mem (v1 + i) ≡ mem (v2 + i)

  Same-suc : (n v1 v2 : ℕ) → Same (suc n) v1 v2 ↔ ((mem v1 ≡ mem v2) × Same n (v1 + 1) (v2 + 1))
  Same-suc n v1 v2 = (
    λ h. (
      rw (at v1, at v2) at (h 0 (omega arith)),
      λ i lt. rw (after v1 i, after v2 i) (h (suc i) (omega arith)),
    ),
    from,
  )
    where
      at : (v : ℕ) → v + 0 ≡ v
      at v = omega arith

      after : (v i : ℕ) → v + 1 + i ≡ v + suc i
      after v i = omega arith

      from : (mem v1 ≡ mem v2) × Same n (v1 + 1) (v2 + 1) → Same (suc n) v1 v2
      from (e, h) zero lt = rw (at v1, at v2) e
      from (e, h) (suc i) lt = rw (after v1 i, after v2 i) at (h i (omega arith))

  -- `memcmp` returns 0 exactly if the two ranges hold the same bytes.
  pub memcmp-zero : (n v1 v2 : ℕ) → (memcmp v1 v2 n mem ≡ pos 0) ↔ Same n v1 v2
  unfolding memcmp
  memcmp-zero zero v1 v2 = (λ e i lt. elim lt [ ], λ h. refl)
  memcmp-zero (suc n) v1 v2 = elim (Bool-cases (mem v1 == mem v2)) [
    | inl same ↦ rw same (
      λ e. (Same-suc n v1 v2).1 (==→eq _ _ same, (memcmp-zero n (v1 + 1) (v2 + 1)).0 e),
      λ h. (memcmp-zero n (v1 + 1) (v2 + 1)).1 ((Same-suc n v1 v2).0 h).1,
    )
    | inr differ ↦ rw differ (
      λ e. absurd (==→ne _ _ differ ((sub_ℕ-zero (mem v1) (mem v2)).0 e)),
      λ h. absurd (==→ne _ _ differ ((Same-suc n v1 v2).0 h).0),
    )
  ]
