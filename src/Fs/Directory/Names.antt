-- ===== src/Fs/Directory/Names.antt =====
-- `namecmp` of kernel/fs.c: names are the same up to the first NUL, or in all DIRSIZ bytes.
use cs202lab.Prelude.{
  ℕ, zero, suc, ◌+◌, ◌≤◌, ◌<◌, ◌≡◌, ◌↔◌, refl, true, not, ◌&&◌, List, [], ◌∷◌, arith, pos,
  sub_ℕ-zero, ◌==◌, if◌then◌else◌, inl, inr, Bool-cases, eq→==, ==→eq, subst,
}
use cs202lab.KernelString.{Mem, strncmp}
use cs202lab.Fs.Directory.{dirsiz, same_chars, namecmp}

-- The bytes of a name of at most n bytes from position k on, up to a NUL.
abbrev pub clip : (n k : ℕ) → (ℕ → ℕ) → List ℕ
clip zero k s = []
clip (suc n) k s = let rest = clip n (k + 1) s in if s k == 0 then [] else s k ∷ rest

same_chars-clip : (n k : ℕ) (s t : ℕ → ℕ) → (same_chars n k s t ≡ true) ↔ (clip n k s ≡ clip n k t)
unfolding same_chars
same_chars-clip zero k s t = (λ e. refl, λ e. refl)
same_chars-clip (suc n) k s t =
    let (to, from) = same_chars-clip n (k + 1) s t in
    (λ e. ground (arith, to), λ e. ground (arith, from))

-- `namecmp` tells exactly whether the names are equal.
pub namecmp-clip : (s t : ℕ → ℕ) → (namecmp s t ≡ true) ↔ (clip dirsiz 0 s ≡ clip dirsiz 0 t)
unfolding namecmp
namecmp-clip s t = same_chars-clip dirsiz 0 s t

strncmp-same_chars :
    (mem : Mem) (p q n k : ℕ)
    → (strncmp (p + k) (q + k) n mem ≡ pos 0)
      ↔ (same_chars n k (λ j. mem (p + j)) (λ j. mem (q + j)) ≡ true)
unfolding strncmp same_chars
strncmp-same_chars mem p q zero k = (λ e. refl, λ e. refl)
strncmp-same_chars mem p q (suc n) k =
    let (to, from) = strncmp-same_chars mem p q n (k + 1) in
    let z = sub_ℕ-zero (mem (p + k)) (mem (q + k)) in
    let ep : p + k + 1 ≡ p + (k + 1) = omega arith in
    let eq : q + k + 1 ≡ q + (k + 1) = omega arith in
    elim (Bool-cases (not (mem (p + k) == 0) && (mem (p + k) == mem (q + k)))) [
      | inl more ↦ rw (ep, eq, strncmp, same_chars, more) (to, from)
      | inr stop ↦
          rw (ep, eq, strncmp, same_chars, stop)
            (
              λ e. eq→== (mem (p + k)) (mem (q + k)) (z.0 e),
              λ e. z.1 (==→eq (mem (p + k)) (mem (q + k)) e),
            )
    ]

-- `namecmp(s, t)` is `strncmp(s, t, DIRSIZ)` of kernel/string.c.
pub strncmp-namecmp :
    (mem : Mem) (p q : ℕ)
    → (strncmp p q dirsiz mem ≡ pos 0) ↔ (namecmp (λ j. mem (p + j)) (λ j. mem (q + j)) ≡ true)
unfolding namecmp
strncmp-namecmp mem p q =
    let y : p + 0 ≡ p = omega arith in
    let z : q + 0 ≡ q = omega arith in
    subst
      (λ a.
        (strncmp a q dirsiz mem ≡ pos 0) ↔ (namecmp (λ j. mem (p + j)) (λ j. mem (q + j)) ≡ true))
      y
      (subst
        (λ b.
          (strncmp (p + 0) b dirsiz mem ≡ pos 0)
          ↔ (namecmp (λ j. mem (p + j)) (λ j. mem (q + j)) ≡ true))
        z (strncmp-same_chars mem p q dirsiz 0))

same_chars-ext :
    (n k : ℕ) (s t u : ℕ → ℕ)
    → ((j : ℕ) → k ≤ j → j < k + n → t j ≡ u j)
    → same_chars n k s t ≡ same_chars n k s u
unfolding same_chars
same_chars-ext zero k s t u h = refl
same_chars-ext (suc n) k s t u h =
    rw
      (
        h k (omega arith) (omega arith),
        same_chars-ext n (k + 1) s t u (λ j lo hi. h j (omega arith) (omega arith)),
      )
      refl

-- It looks at DIRSIZ bytes only.
pub namecmp-ext : (s t u : ℕ → ℕ) → ((j : ℕ) → j < dirsiz → t j ≡ u j) → namecmp s t ≡ namecmp s u
unfolding namecmp
namecmp-ext s t u h = same_chars-ext dirsiz 0 s t u (λ j lo hi. h j (omega arith))
