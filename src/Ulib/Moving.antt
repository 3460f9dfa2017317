-- ===== src/Ulib/Moving.antt =====
-- `memmove` of user/ulib.c against what each address holds afterwards.
use cs202lab.Prelude.{
  ℕ, zero, suc, ◌+◌, ◌-◌, ◌≤◌, ◌≡◌, ◌∙◌, ap, inl, inr, arith, ltb, if◌then◌else◌, update,
  Bool-cases,
}
use cs202lab.KernelString.{Mem}
use cs202lab.KernelString.Move.{within}
use cs202lab.Ulib.{move_up, move_down, memmove}

move_up-within :
    (n d s : ℕ) (mem : Mem) (a : ℕ)
    → d ≤ s
    → move_up d s n mem a ≡ (if within d n a then mem (s + (a - d)) else mem a)
unfolding move_up
move_up-within zero d s mem a h = ground arith
move_up-within (suc n) d s mem a h =
    move_up-within n (d + 1) (s + 1) (update mem d (mem s)) a (omega arith) ∙ ground arith

move_down-within :
    (n d s : ℕ) (mem : Mem) (a : ℕ)
    → s ≤ d
    → move_down d s n mem a ≡ (if within d n a then mem (s + (a - d)) else mem a)
unfolding move_down
move_down-within zero d s mem a h = ground arith
move_down-within (suc n) d s mem a h =
    let index : (b : ℕ) → a ≡ b → mem (s + (a - d)) ≡ mem (s + (b - d)) =
      λ b e. ap (λ k. mem (s + (k - d))) e in
    move_down-within n d s (update mem (d + n) (mem (s + n))) a h ∙ ground (arith, index (d + n))

-- `memmove` leaves at the target what stood at the source, however the two ranges overlap, and changes
-- no other address.
pub memmove-moves :
    (dst src n : ℕ) (mem : Mem) (a : ℕ)
    → memmove dst src n mem a ≡ (if within dst n a then mem (src + (a - dst)) else mem a)
unfolding memmove
memmove-moves dst src n mem a = elim (Bool-cases (ltb dst src)) [
  | inl up ↦ rw up (move_up-within n dst src mem a (ground arith))
  | inr down ↦ rw down (move_down-within n dst src mem a (ground arith))
]
