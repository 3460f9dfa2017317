-- ===== src/KernelString.antt =====
-- kernel/string.c. Memory is a map from addresses to bytes; a function returns the new memory, and
-- its loops run on the number of rounds left. The `char` result of a pointer is its argument again.
pub mod Move
pub mod Strings
mod Examples
use cs202lab.Prelude.{
  ℕ, zero, suc, ◌+◌, ◌-◌, ◌%◌, Bool, true, false, not, ◌&&◌, Option, none, some, ℤ, pos, sub_ℕ, ltb,
  ◌==◌, if◌then◌else◌, update,
}

abbrev pub Mem : Type 0
Mem = ℕ → ℕ

-- for(i = i; i < i + k; i++) cdst[i] = c;
pub memset_loop : ℕ → ℕ → ℕ → ℕ → Mem → Mem
memset_loop zero i dst c mem = mem
memset_loop (suc k) i dst c mem = memset_loop k (i + 1) dst c (update mem (dst + i) (c % 256))

pub memset : ℕ → ℕ → ℕ → Mem → Mem
unfolding memset_loop
memset dst c n mem = memset_loop n 0 dst c mem

pub memcmp : ℕ → ℕ → ℕ → Mem → ℤ
memcmp v1 v2 zero mem = pos 0
memcmp v1 v2 (suc n) mem =
    let rest = memcmp (v1 + 1) (v2 + 1) n mem in
    if mem v1 == mem v2 then rest else sub_ℕ (mem v1) (mem v2)

-- while(n-- > 0) *--d = *--s; from s + n and d + n
pub copy_down : ℕ → ℕ → ℕ → Mem → Mem
copy_down d s zero mem = mem
copy_down d s (suc n) mem = copy_down d s n (update mem (d + n) (mem (s + n)))

-- while(n-- > 0) *d++ = *s++;
pub copy_up : ℕ → ℕ → ℕ → Mem → Mem
copy_up d s zero mem = mem
copy_up d s (suc n) mem = copy_up (d + 1) (s + 1) n (update mem d (mem s))

pub memmove : ℕ → ℕ → ℕ → Mem → Mem
unfolding copy_down copy_up
memmove dst src n mem =
    if n == 0
    then mem
    else if ltb src dst && ltb dst (src + n)
    then copy_down dst src n mem
    else copy_up dst src n mem

pub memcpy : ℕ → ℕ → ℕ → Mem → Mem
unfolding memmove
memcpy dst src n mem = memmove dst src n mem

unfoldable pub strncmp : ℕ → ℕ → ℕ → Mem → ℤ
strncmp p q zero mem = pos 0
strncmp p q (suc n) mem =
    let rest = strncmp (p + 1) (q + 1) n mem in
    if not (mem p == 0) && (mem p == mem q) then rest else sub_ℕ (mem p) (mem q)

-- while(n-- > 0) *s++ = 0;
pub zero_loop : ℕ → ℕ → Mem → Mem
zero_loop s zero mem = mem
zero_loop s (suc n) mem = zero_loop (s + 1) n (update mem s 0)

pub strncpy : ℕ → ℕ → ℕ → Mem → Mem
unfolding zero_loop
strncpy s t zero mem = mem
strncpy s t (suc n) mem =
    let mem' = update mem s (mem t) in
    let rest = strncpy (s + 1) (t + 1) n mem' in
    if mem t == 0 then zero_loop (s + 1) n mem' else rest

-- The loop of `safestrcpy`, with k rounds left, and the NUL behind it: where the byte copied last
-- is a NUL, one more is written behind that.
pub safe_loop : ℕ → ℕ → ℕ → Mem → Mem
safe_loop s t zero mem = update mem s 0
safe_loop s t (suc k) mem =
    let mem' = update mem s (mem t) in
    let rest = safe_loop (s + 1) (t + 1) k mem' in
    if mem t == 0 then update mem' (s + 1) 0 else rest

-- An n of 0 stands for the negative ones too.
pub safestrcpy : ℕ → ℕ → ℕ → Mem → Mem
unfolding safe_loop
safestrcpy s t zero mem = mem
safestrcpy s t (suc n) mem = safe_loop s t n mem

-- On fuel: `none` means that no NUL was found.
pub strlen_loop : ℕ → ℕ → ℕ → Mem → Option ℕ
strlen_loop zero s n mem = none
strlen_loop (suc fuel) s n mem =
    let rest = strlen_loop fuel s (n + 1) mem in if mem (s + n) == 0 then some n else rest

pub strlen : ℕ → ℕ → Mem → Option ℕ
unfolding strlen_loop
strlen fuel s mem = strlen_loop fuel s 0 mem
