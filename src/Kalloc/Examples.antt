-- ===== src/Kalloc/Examples.antt =====
-- Runs of kernel/kalloc.c, and the theorems at them.
use cs202lab.Prelude.{
  ℕ, ◌≡◌, refl, ◌≢◌, ◌⊎◌, ◌↔◌, true, false, Option, none, some, List, [], ◌∷◌, arith, has,
}
use cs202lab.Kalloc.{Kmem, kfree, kinit, kalloc}
use cs202lab.Kalloc.Pages.{Page, IsValid}
use cs202lab.Kalloc.Boot.{kinit-Page}
use cs202lab.Kalloc.Owners.{Reach, boot, next, alloc, kalloc-owners}

-- A machine with room for two pages behind the kernel, which ends inside a page.
abbrev last : ℕ
last = 0x87ff_d123

abbrev zeroed : Kmem
zeroed = record { freelist = 0; mem = λ _. 0 }

abbrev or_zeroed : Option Kmem → Kmem
or_zeroed none = zeroed
or_zeroed (some s) = s

abbrev booted : Kmem
unfolding kinit kfree
booted = or_zeroed (kinit last zeroed)

abbrev one_taken : Kmem
unfolding booted kalloc
one_taken = (kalloc booted).1

takes_two : ((kalloc booted).0 ≡ 0x87ff_f000) × ((kalloc one_taken).0 ≡ 0x87ff_e000)
unfolding one_taken
takes_two = (refl, refl)

then_none : (kalloc (kalloc one_taken).1).0 ≡ 0
unfolding one_taken
then_none = refl

refuses_the_kernel : kfree last 0x8000_0000 booted ≡ none
unfolding kfree booted
refuses_the_kernel = refl

kinit-Page_example :
    (t : Kmem) × (free : List ℕ) × (kinit last zeroed ≡ some t)
    × IsValid last t free
    × ((a : ℕ) → (has a free ≡ true) ↔ Page last a)
kinit-Page_example = kinit-Page last (omega arith) zeroed refl

one_taken-Reach : Reach last one_taken (0x87ff_f000 ∷ [])
unfolding one_taken
one_taken-Reach = next (boot zeroed refl refl) (alloc refl (omega arith))

kalloc-owners_example :
    ((((kalloc one_taken).0 ≡ 0) × ((a : ℕ) → Page last a → has a (0x87ff_f000 ∷ []) ≡ true))
      ⊎ (Page last (kalloc one_taken).0 × (has (kalloc one_taken).0 (0x87ff_f000 ∷ []) ≡ false)))
    × ((x : ℕ) → has x (0x87ff_f000 ∷ []) ≡ true → kfree last x one_taken ≢ none)
kalloc-owners_example =
    kalloc-owners last (omega arith) one_taken (0x87ff_f000 ∷ []) one_taken-Reach
