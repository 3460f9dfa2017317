-- ===== src/Ulib.antt =====
-- user/ulib.c, on the byte memory of the kernel's string functions. A loop that ends at a NUL runs on
-- fuel, and `none` means that it found none. `int` values do not overflow.
pub mod Moving
pub mod Comparing
pub mod Lengths
pub mod Numbers
mod Examples
use cs202lab.Prelude.{
  ℕ, zero, suc, ◌+◌, ◌-◌, ◌*◌, ◌%◌, Bool, true, false, not, ◌&&◌, ◌||◌, List, [], ◌∷◌, Option, none,
  some, ℤ, sub_ℕ, pos, ltb, leb, ◌==◌, if◌then◌else◌, update,
}
use cs202lab.KernelString.{Mem}

pub strcpy : ℕ → ℕ → ℕ → Mem → Option Mem
strcpy zero s t mem = none
strcpy (suc fuel) s t mem =
    let mem' = update mem s (mem t) in
    let rest = strcpy fuel (s + 1) (t + 1) mem' in if mem t == 0 then some mem' else rest

pub strcmp : ℕ → ℕ → ℕ → Mem → Option ℤ
strcmp zero p q mem = none
strcmp (suc fuel) p q mem =
    let rest = strcmp fuel (p + 1) (q + 1) mem in
    if not (mem p == 0) && (mem p == mem q) then rest else some (sub_ℕ (mem p) (mem q))

-- The result inside is 0 if there is no such character.
pub strchr : ℕ → ℕ → ℕ → Mem → Option ℕ
strchr zero s c mem = none
strchr (suc fuel) s c mem =
    let rest = strchr fuel (s + 1) c mem in
    if mem s == 0 then some 0 else if mem s == c then some s else rest

pub atoi_loop : ℕ → ℕ → ℕ → Mem → Option ℕ
atoi_loop zero n s mem = none
atoi_loop (suc fuel) n s mem =
    let rest = atoi_loop fuel (n * 10 + mem s - b'0') (s + 1) mem in
    if leb b'0' (mem s) && leb (mem s) b'9' then rest else some n

pub atoi : ℕ → ℕ → Mem → Option ℕ
unfolding atoi_loop
atoi fuel s mem = atoi_loop fuel 0 s mem

-- while(n-- > 0) *dst++ = *src++;
pub move_up : ℕ → ℕ → ℕ → Mem → Mem
move_up dst src zero mem = mem
move_up dst src (suc n) mem = move_up (dst + 1) (src + 1) n (update mem dst (mem src))

-- while(n-- > 0) *--dst = *--src; from the ends
pub move_down : ℕ → ℕ → ℕ → Mem → Mem
move_down dst src zero mem = mem
move_down dst src (suc n) mem = move_down dst src n (update mem (dst + n) (mem (src + n)))

pub memmove : ℕ → ℕ → ℕ → Mem → Mem
unfolding move_up move_down
memmove dst src n mem = if ltb dst src then move_up dst src n mem else move_down dst src n mem

pub memcpy : ℕ → ℕ → ℕ → Mem → Mem
unfolding memmove
memcpy dst src n mem = memmove dst src n mem

unfoldable pub strlen_from : ℕ → ℕ → ℕ → Mem → Option ℕ
strlen_from zero s n mem = none
strlen_from (suc fuel) s n mem =
    let rest = strlen_from fuel s (n + 1) mem in if mem (s + n) == 0 then some n else rest

unfoldable pub strlen : ℕ → ℕ → Mem → Option ℕ
unfolding strlen_from
strlen fuel s mem = strlen_from fuel s 0 mem

-- From i on, with k bytes to go.
pub memset_from : ℕ → ℕ → ℕ → ℕ → Mem → Mem
memset_from zero i dst c mem = mem
memset_from (suc k) i dst c mem = memset_from k (i + 1) dst c (update mem (dst + i) (c % 256))

pub memset : ℕ → ℕ → ℕ → Mem → Mem
unfolding memset_from
memset dst c n mem = memset_from n 0 dst c mem

pub memcmp : ℕ → ℕ → ℕ → Mem → ℤ
memcmp p1 p2 zero mem = pos 0
memcmp p1 p2 (suc n) mem =
    let rest = memcmp (p1 + 1) (p2 + 1) n mem in
    if mem p1 == mem p2 then rest else sub_ℕ (mem p1) (mem p2)

-- The loop of `gets` from i on, with k rounds to go, and the NUL behind it. The list is what `read`
-- still has to give, a byte at a time; what is left of it comes back.
pub gets_loop : ℕ → ℕ → ℕ → List ℕ → Mem → Mem × List ℕ
gets_loop zero i buf input mem = (update mem (buf + i) 0, input)
gets_loop (suc k) i buf [] mem = (update mem (buf + i) 0, [])
gets_loop (suc k) i buf (c ∷ input) mem =
    let mem' = update mem (buf + i) c in
    let rest = gets_loop k (i + 1) buf input mem' in
    if (c == b'\n') || (c == b'\r') then (update mem' (buf + (i + 1)) 0, input) else rest

pub gets : ℕ → ℕ → List ℕ → Mem → Mem × List ℕ
unfolding gets_loop
gets buf max input mem = gets_loop (max - 1) 0 buf input mem
