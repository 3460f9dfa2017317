-- ===== src/Ulib/Examples.antt =====
-- Runs of user/ulib.c, and the theorems at them.
use cs202lab.Prelude.{◌≡◌, refl, some, [], ◌∷◌, arith, get_or}
use cs202lab.KernelString.{Mem}
use cs202lab.KernelString.Strings.{Holds}
use cs202lab.Ulib.{strchr}

-- "42" at 1, and 7 everywhere else.
abbrev text : Mem
text a = get_or (7 ∷ b'4' ∷ b'2' ∷ 0 ∷ []) a 7

text-Holds : Holds text 1 (b'4' ∷ b'2' ∷ [])
text-Holds = (refl, omega arith, (refl, omega arith, refl))

finds_two : strchr 9 1 b'2' text ≡ some 2
unfolding strchr
finds_two = refl
