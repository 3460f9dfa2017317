-- ===== src/Ulib/Comparing.antt =====
-- `strcmp` and `strchr` of user/ulib.c against the strings that memory holds.
use cs202lab.Prelude.{
  ℕ, zero, suc, ◌+◌, ◌<◌, ◌≡◌, refl, ◌↔◌, ◌≢◌, false, none, some, List, [], ◌∷◌, arith, pos, length,
  has,
}
use cs202lab.KernelString.{Mem}
use cs202lab.KernelString.Strings.{Holds}
use cs202lab.Ulib.{strcmp, strchr}

-- Given fuel for the first string and its NUL, `strcmp` returns, and returns 0 exactly if the strings
-- are equal.
pub strcmp-zero :
    (fuel p q : ℕ) (mem : Mem) (cs ds : List ℕ)
    → Holds mem p cs
    → Holds mem q ds
    → length cs < fuel
    → (strcmp fuel p q mem ≢ none) × ((strcmp fuel p q mem ≡ some (pos 0)) ↔ (cs ≡ ds))
unfolding strcmp
strcmp-zero zero p q mem cs ds h k f = absurd (omega arith)
strcmp-zero (suc fuel) p q mem [] [] h k f =
    (λ e. ground (arith, h, e), (λ e. refl, λ e. ground (arith, h, k)))
strcmp-zero (suc fuel) p q mem [] (d ∷ ds) h k f =
    (λ e. ground (arith, h, e), (λ e. absurd (ground (arith, h, k.0, k.1)), λ e. cc))
strcmp-zero (suc fuel) p q mem (c ∷ cs) [] h k f =
    (λ e. ground (arith, h.0, h.1, k, e), (λ e. absurd (ground (arith, h.0, h.1, k)), λ e. cc))
strcmp-zero (suc fuel) p q mem (c ∷ cs) (d ∷ ds) h k f =
    let (returns, zero_iff) = strcmp-zero fuel (p + 1) (q + 1) mem cs ds h.2 k.2 (omega arith) in
    (
      λ e. ground (arith, returns, h.0, h.1, k.0, e),
      (λ e. ground (arith, zero_iff, h.0, h.1, k.0), λ e. ground (arith, zero_iff, h.0, h.1, k.0)),
    )

-- Given fuel for the string and its NUL, `strchr` returns the null pointer exactly if the character
-- does not stand in the string, which itself does not lie at the null pointer.
pub strchr-has :
    (fuel s c : ℕ) (mem : Mem) (cs : List ℕ)
    → Holds mem s cs
    → length cs < fuel
    → 0 < s
    → (strchr fuel s c mem ≡ some 0) ↔ (has c cs ≡ false)
unfolding strchr
strchr-has zero s c mem cs h f pos_s = absurd (omega arith)
strchr-has (suc fuel) s c mem [] h f pos_s = (λ e. refl, λ e. ground (arith, h))
strchr-has (suc fuel) s c mem (d ∷ cs) h f pos_s =
    let rest = strchr-has fuel (s + 1) c mem cs h.2 (omega arith) (omega arith) in
    (λ e. ground (arith, rest, h.0, h.1), λ e. ground (arith, rest, h.0, h.1))
