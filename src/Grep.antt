-- ===== src/Grep.antt =====
-- user/grep.c. A C string is the list of its bytes before the NUL.
pub mod Matching
pub mod Lines
mod Examples
use cs202lab.Prelude.{
  ℕ, ◌+◌, ◌-◌, Bool, true, false, ◌||◌, List, [], ◌∷◌, ◌++◌, min, ◌==◌, if◌then◌else◌, length, take,
  drop,
}

-- `matchhere` of the pattern behind c*, tried at each place that the star can reach.
pub matchstar : ℕ → (List ℕ → Bool) → List ℕ → Bool
matchstar c here [] = here []
matchstar c here (t ∷ text) =
    let more = matchstar c here text in
    if here (t ∷ text) then true else if (t == c) || (c == b'.') then more else false

-- The last test of `matchhere`: one character, then `rest`.
pub match_one : ℕ → (List ℕ → Bool) → List ℕ → Bool
match_one c rest [] = false
match_one c rest (t ∷ text) = if (c == b'.') || (c == t) then rest text else false

abbrev pub is_empty : List ℕ → Bool
is_empty [] = true
is_empty (t ∷ text) = false

pub matchhere : List ℕ → List ℕ → Bool
unfolding matchstar match_one
matchhere [] text = true
matchhere (c ∷ []) text = if c == b'$' then is_empty text else match_one c (matchhere []) text
matchhere (c ∷ d ∷ re) text = elim (d == b'*') [
  | true ↦ matchstar c (matchhere re) text
  | false ↦ match_one c (matchhere (d ∷ re)) text
]

-- The loop of `match`: every suffix of the text, the empty one too.
pub match_loop : List ℕ → List ℕ → Bool
unfolding matchhere
match_loop re [] = matchhere re []
match_loop re (t ∷ text) =
    let more = match_loop re text in if matchhere re (t ∷ text) then true else more

pub match : List ℕ → List ℕ → Bool
unfolding match_loop
match [] text = match_loop [] text
match (c ∷ re) text = if c == b'^' then matchhere re text else match_loop (c ∷ re) text

-- The loop of `grep` over the lines in the buffer, with `line` read so far of the current one: what
-- is printed, and what stays in the buffer. `strchr` stops at a NUL.
pub scan : List ℕ → List ℕ → List ℕ → List ℕ × List ℕ
scan pattern line [] = ([], line)
scan pattern line (c ∷ cs) =
    let (printed, rest) = scan pattern (if c == b'\n' then [] else line ++ c ∷ []) cs in
    if c == 0
    then ([], line ++ c ∷ cs)
    else if c == b'\n'
    then ((if match pattern line then (line ++ c ∷ []) ++ printed else printed), rest)
    else (printed, rest)

-- `sizeof(buf)`
abbrev pub buf_size : ℕ
buf_size = 1024

-- The outer loop of `grep` on a file with `input` left. Each read gets as many bytes as the system
-- likes, one of `sizes`, but no more than are left and than fit; no byte ends the loop.
pub grep : List ℕ → List ℕ → List ℕ → List ℕ → List ℕ
grep pattern [] input buf = []
grep pattern (s ∷ sizes) input buf =
    let n = min (min s (buf_size - length buf - 1)) (length input) in
    let (printed, rest) = scan pattern [] (buf ++ take n input) in
    let later = grep pattern sizes (drop n input) rest in if n == 0 then [] else printed ++ later
