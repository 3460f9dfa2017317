-- ===== src/KernelString/Examples.antt =====
-- Runs of kernel/string.c, and the theorems at them.
use cs202lab.Prelude.{◌≡◌, refl, [], ◌∷◌, arith, get_or}
use cs202lab.KernelString.{Mem, memmove}
use cs202lab.KernelString.Strings.{Holds}

-- "sh" at 2, and 7 everywhere else.
abbrev a_name : Mem
a_name a = get_or (7 ∷ 7 ∷ 115 ∷ 104 ∷ 0 ∷ []) a 7

a_name-Holds : Holds a_name 2 (115 ∷ 104 ∷ [])
a_name-Holds = (refl, omega arith, (refl, omega arith, refl))

overlaps : (memmove 3 2 3 a_name 5 ≡ 0) × (memmove 1 2 3 a_name 1 ≡ 115)
unfolding memmove
overlaps = (refl, refl)
