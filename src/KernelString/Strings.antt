-- ===== src/KernelString/Strings.antt =====
-- The string functions of kernel/string.c against the strings that memory holds.
use cs202lab.Prelude.{
  ℕ, zero, suc, ◌+◌, ◌-◌, ◌≤◌, ◌<◌, ◌≡◌, refl, ◌∙◌, ◌↔◌, ◌⊎◌, ap, ◌≢◌, true, false, some, List, [],
  ◌∷◌, arith, pos, sym, subst, ◌==◌, if◌then◌else◌, update, length, take, get_or, eq→==, ne→==,
}
use cs202lab.KernelString.{
  Mem, strncmp, zero_loop, strncpy, safe_loop, safestrcpy, strlen_loop, strlen,
}
use cs202lab.KernelString.Move.{within}

-- From `s` on memory holds the bytes of the list, none of them NUL, and then a NUL.
abbrev pub Holds : Mem → ℕ → List ℕ → Type 0
Holds mem s [] = mem s ≡ 0
Holds mem s (c ∷ cs) = (mem s ≡ c) × (c ≢ 0) × Holds mem (s + 1) cs

-- Memory may change outside the string.
pub Holds-frame :
    (mem mem' : Mem) (s : ℕ) (cs : List ℕ)
    → ((a : ℕ) → within s (suc (length cs)) a ≡ true → mem' a ≡ mem a)
    → Holds mem s cs
    → Holds mem' s cs
Holds-frame mem mem' s [] same h = same s (ground arith) ∙ h
Holds-frame mem mem' s (c ∷ cs) same h = (
  same s (ground arith) ∙ h.0,
  h.1,
  Holds-frame mem mem' (s + 1) cs (λ a w. same a (ground arith)) h.2,
)

strlen_loop-length :
    (fuel s n : ℕ) (mem : Mem) (cs : List ℕ)
    → Holds mem (s + n) cs
    → length cs < fuel
    → strlen_loop fuel s n mem ≡ some (n + length cs)
unfolding strlen_loop
strlen_loop-length zero s n mem cs h f = absurd (omega arith)
strlen_loop-length (suc fuel) s n mem [] h f = ground arith
strlen_loop-length (suc fuel) s n mem (c ∷ cs) h f =
    let next : Holds mem (s + (n + 1)) cs =
      (let e : s + (n + 1) ≡ s + n + 1 = omega arith in rw e h.2) in
    ground (arith, h.0, h.1, strlen_loop-length fuel s (n + 1) mem cs next)

-- `strlen` returns the number of bytes before the NUL.
pub strlen-length :
    (fuel s : ℕ) (mem : Mem) (cs : List ℕ)
    → Holds mem s cs
    → length cs < fuel
    → strlen fuel s mem ≡ some (length cs)
unfolding strlen
strlen-length fuel s mem cs h f =
    let start : Holds mem (s + 0) cs = (let e : s + 0 ≡ s = omega arith in rw e h) in
    strlen_loop-length fuel s 0 mem cs start f ∙ ap some (omega arith)

-- `strncmp` returns 0 exactly if the strings agree on their first n bytes.
pub strncmp-zero :
    (n p q : ℕ) (mem : Mem) (cs ds : List ℕ)
    → Holds mem p cs
    → Holds mem q ds
    → (strncmp p q n mem ≡ pos 0) ↔ (take n cs ≡ take n ds)
unfolding strncmp
strncmp-zero zero p q mem cs ds h k = (λ e. refl, λ e. refl)
strncmp-zero (suc n) p q mem [] [] h k = (λ e. refl, λ e. ground arith)
strncmp-zero (suc n) p q mem [] (d ∷ ds) h k = (λ e. absurd (ground arith), λ e. cc)
strncmp-zero (suc n) p q mem (c ∷ cs) [] h k = (λ e. absurd (ground arith), λ e. cc)
strncmp-zero (suc n) p q mem (c ∷ cs) (d ∷ ds) h k =
    let rest = strncmp-zero n (p + 1) (q + 1) mem cs ds h.2 k.2 in
    (λ e. ground (arith, rest, h.0, h.1, k.0), λ e. ground (arith, rest, h.0, h.1, k.0))

-- The n bytes from `s` on and the m from `t` on do not overlap.
abbrev pub Apart : ℕ → ℕ → ℕ → ℕ → Type 0
Apart s n t m = (s + n ≤ t) ⊎ (t + m ≤ s)

-- The string that `safestrcpy` leaves, and the addresses that it leaves alone.
abbrev pub Copied : ℕ → ℕ → List ℕ → Mem → Mem → Type 0
Copied s k cs mem mem' =
    Holds mem' s (take k cs) × ((a : ℕ) → within s (suc k) a ≡ false → mem' a ≡ mem a)

safe_loop-next :
    (s t k : ℕ) (mem : Mem)
    → mem t ≢ 0
    → safe_loop s t (suc k) mem ≡ safe_loop (s + 1) (t + 1) k (update mem s (mem t))
unfolding safe_loop
safe_loop-next s t k mem h = rw (ne→== _ _ h)

get_or-cons :
    (c : ℕ) (cs : List ℕ) (j : ℕ)
    → get_or (c ∷ cs) j 0 ≡ (if j == 0 then c else get_or cs (j - 1) 0)
get_or-cons c cs zero = refl
get_or-cons c cs (suc j) =
    let e : j ≡ suc j - 1 = omega arith in ground (arith, ap (λ i. get_or cs i 0) e)

safe_loop-Copied :
    (k s t : ℕ) (mem : Mem) (cs : List ℕ)
    → Holds mem t cs
    → Apart s (suc k) t (suc (length cs))
    → Copied s k cs mem (safe_loop s t k mem)
safe_loop-Copied zero s t mem cs h apart = unfold safe_loop in (ground arith, λ a w. ground arith)
safe_loop-Copied (suc k) s t mem [] h apart =
    unfold safe_loop in rw (eq→== _ _ h) (ground arith, λ a w. ground arith)
safe_loop-Copied (suc k) s t mem (c ∷ cs) h apart =
    let mem' = update mem s (mem t) in
    let (copy, same) =
      safe_loop-Copied k (s + 1) (t + 1) mem' cs
        (Holds-frame mem mem' (t + 1) cs (λ a w. ground arith) h.2) (ground arith) in
    let copied : Copied s (suc k) (c ∷ cs) mem (safe_loop (s + 1) (t + 1) k mem') =
      ((ground (arith, same s, h.0), h.1, copy), λ a w. ground (arith, same a)) in
    subst (λ m. Copied s (suc k) (c ∷ cs) mem m)
      (sym (safe_loop-next s t k mem (ground (arith, h.0, h.1)))) copied

-- `safestrcpy` leaves at `s` the first n - 1 bytes of the string at `t`, with a NUL behind them, and
-- changes no address but the n from `s` on.
pub safestrcpy-Copied :
    (n s t : ℕ) (mem : Mem) (cs : List ℕ)
    → Holds mem t cs
    → Apart s (suc n) t (suc (length cs))
    → Copied s n cs mem (safestrcpy s t (suc n) mem)
unfolding safestrcpy
safestrcpy-Copied n s t mem cs h apart = safe_loop-Copied n s t mem cs h apart

zero_loop-within :
    (n s : ℕ) (mem : Mem) (a : ℕ) → zero_loop s n mem a ≡ (if within s n a then 0 else mem a)
unfolding zero_loop
zero_loop-within zero s mem a = ground arith
zero_loop-within (suc n) s mem a = ground (arith, zero_loop-within n (s + 1) (update mem s 0) a)

-- `strncpy` fills the n bytes from `s` on with the string's first bytes, padded with NULs, and
-- changes no other address. Where the string has n bytes or more, no NUL ends them.
pub strncpy-get_or :
    (n s t : ℕ) (mem : Mem) (cs : List ℕ)
    → Holds mem t cs
    → Apart s n t (suc (length cs))
    → (a : ℕ) → strncpy s t n mem a ≡ (if within s n a then get_or cs (a - s) 0 else mem a)
unfolding strncpy
strncpy-get_or zero s t mem cs h apart a = ground arith
strncpy-get_or (suc n) s t mem [] h apart a =
    rw (eq→== _ _ h) (ground (arith, zero_loop-within n (s + 1) (update mem s (mem t)) a, h))
strncpy-get_or (suc n) s t mem (c ∷ cs) h apart a =
    let mem' = update mem s (mem t) in
    let rest =
      strncpy-get_or n (s + 1) (t + 1) mem' cs
        (Holds-frame mem mem' (t + 1) cs (λ a w. ground arith) h.2) (ground arith) a in
    let index : (a - s - 1 ≡ a - (s + 1)) = omega arith in
    rw (ne→== (mem t) 0 (ground (arith, h.0, h.1)))
      (rest ∙ ground (arith, get_or-cons c cs (a - s), ap (λ i. get_or cs i 0) index, h.0))
