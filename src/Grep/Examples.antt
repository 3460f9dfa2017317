-- ===== src/Grep/Examples.antt =====
-- Runs of user/grep.c, and the theorems at them.
use Prim.Native.String.{String}
use Prim.Native.Char.{code}
use cs202lab.Prelude.{ℕ, ◌≡◌, refl, ◌↔◌, true, false, List, [], ◌∷◌, arith}
use cs202lab.Grep.{match, scan, grep}
use cs202lab.Grep.Matching.{items, Occurs, anchored, unanchored, match-Occurs}
use cs202lab.Grep.Lines.{lines, matching, grep-matching}

abbrev bytes : String → List ℕ
bytes String.[] = []
bytes (String.◌∷◌ c s) = code c ∷ bytes s

finds : match (bytes "a.*c$") (bytes "xxabbc") ≡ true
unfolding match
finds = refl

misses : match (bytes "^b") (bytes "ab") ≡ false
unfolding match
misses = refl

match-Occurs_example :
    (match (bytes "^ab*") (bytes "abb") ≡ true)
    ↔ Occurs (anchored (bytes "^ab*")) (items (unanchored (bytes "^ab*"))) (bytes "abb")
match-Occurs_example = match-Occurs (bytes "^ab*") (bytes "abb")

-- "ab\ncd\n" in reads of 1, 3, 1, 1 and 1 bytes, and one more at the end.
abbrev file : List ℕ
file = b'a' ∷ b'b' ∷ b'\n' ∷ b'c' ∷ b'd' ∷ b'\n' ∷ []

abbrev reads : List ℕ
reads = 1 ∷ 3 ∷ 1 ∷ 1 ∷ 1 ∷ 1 ∷ []

prints : grep (bytes "d") reads file [] ≡ b'c' ∷ b'd' ∷ b'\n' ∷ []
unfolding grep scan match
prints = refl

grep-matching_example : grep (bytes "d") reads file [] ≡ matching (bytes "d") (lines [] file)
grep-matching_example =
    grep-matching (bytes "d") reads file (omega arith) (omega arith) (ground arith) (omega arith)
