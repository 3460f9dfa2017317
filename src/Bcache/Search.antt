-- ===== src/Bcache/Search.antt =====
-- Searching the buffer list of kernel/bio.c.
use cs202lab.Prelude.{
  ℕ, ◌≡◌, sym, subst, ◌∙◌, ap, inl, inr, Bool, true, false, none, some, List, [], ◌∷◌, arith, ◌==◌,
  has, Bool-cases, Option-cases, ==→eq,
}
use cs202lab.Bcache.{find, find_last}

module _ (p : ℕ → Bool) where
  pub find-some : (is : List ℕ) (i : ℕ) → find p is ≡ some i → (has i is ≡ true) × (p i ≡ true)
  unfolding find
  find-some [] i e = absurd (ground arith)
  find-some (j ∷ is) i e = elim (Bool-cases (p j)) [
    | inl here ↦ let e' : some j ≡ some i = rw here at e in ground (arith, here, e')
    | inr there ↦ let e' : find p is ≡ some i = rw there at e in ground (arith, find-some is i e')
  ]

  pub find-none : (is : List ℕ) → find p is ≡ none → (i : ℕ) → has i is ≡ true → p i ≡ false
  unfolding find
  find-none [] e i h = absurd (ground arith)
  find-none (j ∷ is) e i h = elim (Bool-cases (p j)) [
    | inl here ↦ absurd (ground (arith, here, e))
    | inr there ↦
        let e' : find p is ≡ none = rw there at e in
        elim (Bool-cases (i == j)) [
          | inl same ↦ let at : i ≡ j = ==→eq i j same in subst (λ k. p k ≡ false) (sym at) there
          | inr other ↦ find-none is e' i (ground arith)
        ]
  ]

  pub find_last-some :
      (is : List ℕ) (i : ℕ) → find_last p is ≡ some i → (has i is ≡ true) × (p i ≡ true)
  unfolding find_last
  find_last-some [] i e = absurd (ground arith)
  find_last-some (j ∷ is) i e = elim (Option-cases (find_last p is)) [
    | inr (k, later) ↦
        let e' : some k ≡ some i = rw later at e in ground (arith, find_last-some is i, later, e')
    | inl nothing ↦ elim (Bool-cases (p j)) [
      | inl here ↦ let e' : some j ≡ some i = rw (nothing, here) at e in ground (arith, here, e')
      | inr there ↦ absurd (ground (arith, nothing, there, e))
    ]
  ]

  pub unique_find :
      (is : List ℕ) (i : ℕ)
      → has i is ≡ true
      → p i ≡ true
      → ((j : ℕ) → has j is ≡ true → p j ≡ true → j ≡ i)
      → find p is ≡ some i
  unique_find is i h pi one = elim (Option-cases (find p is)) [
    | inl nothing ↦ absurd (ground (arith, find-none is nothing i h, pi))
    | inr (j, e) ↦ let (hj, pj) = find-some is j e in e ∙ ap some (one j hj pj)
  ]

  pub no_find : (is : List ℕ) → ((j : ℕ) → has j is ≡ true → p j ≡ false) → find p is ≡ none
  no_find is none_of = elim (Option-cases (find p is)) [
    | inl e ↦ e
    | inr (j, e) ↦ let (hj, pj) = find-some is j e in absurd (ground (arith, none_of j hj, pj))
  ]

  pub find_last-none :
      (is : List ℕ) → find_last p is ≡ none → (i : ℕ) → has i is ≡ true → p i ≡ false
  unfolding find_last
  find_last-none [] e i h = absurd (ground arith)
  find_last-none (j ∷ is) e i h = elim (Option-cases (find_last p is)) [
    | inr (k, later) ↦ absurd (ground (arith, later, e))
    | inl nothing ↦ elim (Bool-cases (p j)) [
      | inl here ↦ absurd (ground (arith, nothing, here, e))
      | inr there ↦ elim (Bool-cases (i == j)) [
        | inl same ↦ let at : i ≡ j = ==→eq i j same in subst (λ k. p k ≡ false) (sym at) there
        | inr other ↦ find_last-none is nothing i (ground arith)
      ]
    ]
  ]
