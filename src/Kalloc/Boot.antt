-- ===== src/Kalloc/Boot.antt =====
-- `kinit` of kernel/kalloc.c frees every page between the kernel and the end of memory.
use cs202lab.Prelude.{
  ℕ, zero, suc, ◌+◌, ◌*◌, ◌/◌, ◌%◌, ◌≤◌, ◌<◌, ◌≡◌, refl, ◌∙◌, ◌⊎◌, ◌↔◌, inl, inr, true, false,
  Option, some, List, [], ◌∷◌, arith, leb, has, All, Bool-cases,
}
use cs202lab.Kalloc.{page_size, phystop, page_round_up, Kmem, kfree, free_loop, freerange, kinit}
use cs202lab.Kalloc.Pages.{Page, IsValid, kfree-IsValid}

module _ (last : ℕ) (positive : 0 < last) where
  -- Freeing from the page `p` on: what is free afterwards.
  record Freed (p : ℕ) (free : List ℕ) (r : Option Kmem) : Type 0 where
    memory : Kmem
    now : List ℕ
    returns : r ≡ some memory
    valid : IsValid last memory now
    those : (a : ℕ) → (has a now ≡ true) ↔ ((has a free ≡ true) ⊎ (Page last a × (p ≤ a)))

  not-has-above : (p : ℕ) (free : List ℕ) → All (λ a. a < p) free → has p free ≡ false
  not-has-above p [] h = refl
  not-has-above p (x ∷ free) h = ground (arith, h.0, not-has-above p free h.1)

  All-below : (p q : ℕ) (free : List ℕ) → p ≤ q → All (λ a. a < p) free → All (λ a. a < q) free
  All-below p q [] l h = tt
  All-below p q (x ∷ free) l h = (omega (arith, h.0), All-below p q free l h.1)

  free_loop-more :
      (fuel p : ℕ) (s t : Kmem)
      → leb (p + page_size) phystop ≡ true
      → kfree last p s ≡ some t
      → free_loop last (suc fuel) p phystop s ≡ free_loop last fuel (p + page_size) phystop t
  unfolding free_loop
  free_loop-more fuel p s t e run = ground arith

  free_loop-done :
      (fuel p : ℕ) {s : Kmem}
      → leb (p + page_size) phystop ≡ false
      → free_loop last (suc fuel) p phystop s ≡ some s
  unfolding free_loop
  free_loop-done fuel p e = ground arith

  free_loop-Freed :
      (fuel p : ℕ) {s : Kmem} (free : List ℕ)
      → p % page_size ≡ 0
      → last ≤ p
      → phystop < p + page_size + fuel * page_size
      → All (λ a. a < p) free
      → IsValid last s free
      → Freed p free (free_loop last fuel p phystop s)
  free_loop-Freed zero p {s} free al lo enough below v = record {
    memory = s;
    now = free;
    returns = unfold free_loop in refl;
    valid = v;
    those = λ a. (λ h. inl h, λ h. ground arith);
  }
  free_loop-Freed (suc fuel) p {s} free al lo enough below v =
      elim (Bool-cases (leb (p + page_size) phystop)) [
        | inl more ↦
            let page : Page last p = ground arith in
            let (t, run, w) = kfree-IsValid last positive v p page (not-has-above p free below) in
            let rest =
              free_loop-Freed fuel (p + page_size) (p ∷ free) (omega arith) (omega arith)
                (omega arith) (omega arith, All-below p (p + page_size) free (omega arith) below)
                w in
            record {
              memory = rest.memory;
              now = rest.now;
              returns = free_loop-more fuel p s t more run ∙ rest.returns;
              valid = rest.valid;
              those =
                  λ a. (λ h. ground (arith, rest.those a), λ h. ground (arith, rest.those a, page));
            }
        | inr done ↦ record {
          memory = s;
          now = free;
          returns = free_loop-done fuel p done;
          valid = v;
          those = λ a. (λ h. inl h, λ h. ground arith);
        }
      ]

  -- From an empty list `kinit` succeeds, and afterwards the free pages are exactly the page-aligned
  -- addresses from the end of the kernel up to PHYSTOP, each once.
  pub kinit-Page :
      (s : Kmem)
      → s.freelist ≡ 0
      → (t : Kmem) × (free : List ℕ) × (kinit last s ≡ some t)
        × IsValid last t free
        × ((a : ℕ) → (has a free ≡ true) ↔ Page last a)
  unfolding kinit freerange
  kinit-Page s empty =
      let f =
        free_loop-Freed (phystop / page_size + 1) (page_round_up last) {s = s} [] (omega arith)
          (omega arith) (omega arith) tt (record { chain = empty; pages = tt; distinct = tt }) in
      (
        f.memory,
        f.now,
        f.returns,
        f.valid,
        λ a. (λ h. ground (arith, f.those a), λ h. ground (arith, f.those a)),
      )
