-- ===== src/Kalloc/Owners.antt =====
-- Callers of kernel/kalloc.c: every page is free or has one owner, whatever is allocated and freed.
use cs202lab.Prelude.{
  ℕ, ◌+◌, ◌≤◌, ◌<◌, ◌≡◌, ap, ◌≢◌, ◌⊎◌, ◌↔◌, inl, inr, true, false, none, some, List, [], ◌∷◌, ◌++◌,
  arith, ◌==◌, if◌then◌else◌, has, All, All-append, update,
}
use cs202lab.Kalloc.{page_size, Kmem, kfree, kinit, kalloc}
use cs202lab.Kalloc.Pages.{
  Page, Distinct, IsValid, Chain-frame, kfree-IsValid, kalloc-cons, kalloc-nil, All-has,
}
use cs202lab.Kalloc.Boot.{kinit-Page}

abbrev pub count : ℕ → List ℕ → ℕ
count a [] = 0
count a (x ∷ xs) = (if a == x then 1 else 0) + count a xs

pub count-append : (l r : List ℕ) (page : ℕ) → count page (l ++ r) ≡ count page r + count page l
count-append [] r page = omega arith
count-append (y ∷ l) r page = ground (arith, count-append l r page)

has-count : (a : ℕ) (xs : List ℕ) → (has a xs ≡ true) ↔ (0 < count a xs)
has-count a [] = (λ h. cc, λ h. elim h [ ])
has-count a (x ∷ xs) = (λ h. ground (arith, has-count a xs), λ h. ground (arith, has-count a xs))

count-Distinct : (a : ℕ) (xs : List ℕ) → Distinct xs → count a xs ≤ 1
count-Distinct a [] d = omega arith
count-Distinct a (x ∷ xs) d = ground (arith, count-Distinct a xs d.1, has-count a xs, d.0)

module _ (last : ℕ) where
  -- The pages that callers own, and what they do: allocate, free a page of theirs, write to one.
  pub data Step : Kmem → List ℕ → Kmem → List ℕ → Type 0 where
    alloc : {s t : Kmem} {x : ℕ} {q : List ℕ} → kalloc s ≡ (x, t) → x ≢ 0 → Step s q t (x ∷ q)
    release :
        {s t : Kmem} (l r : List ℕ) (x : ℕ) {q q' : List ℕ}
        → kfree last x s ≡ some t
        → q ≡ l ++ x ∷ r
        → q' ≡ l ++ r
        → Step s q t q'
    store :
        {s : Kmem} (x a word : ℕ) {q : List ℕ}
        → has x q ≡ true
        → x ≤ a
        → a < x + page_size
        → Step s q (record s { mem = update s.mem a word }) q

  pub data Reach : Kmem → List ℕ → Type 0 where
    boot : (s : Kmem) {t : Kmem} → s.freelist ≡ 0 → kinit last s ≡ some t → Reach t []
    next : {s t : Kmem} {q r : List ℕ} → Reach s q → Step s q t r → Reach t r

  pub record Accounted (s : Kmem) (q : List ℕ) : Type 0 where
    pub unused : List ℕ
    pub valid : IsValid last s unused
    pub owned : All (Page last) q
    pub once : (a : ℕ) → Page last a → count a unused + count a q ≡ 1

  module _ (positive : 0 < last) where
    -- A page is in use or free, never both.
    owned-not-free :
        {s : Kmem} {q : List ℕ} (k : Accounted s q) (x : ℕ)
        → has x q ≡ true
        → has x k.unused ≡ false
    owned-not-free {q} k x h =
        let p : Page last x = All-has (Page last) q x k.owned h in
        ground (arith, has-count x q, has-count x k.unused, k.once x p)

    Accounted-alloc :
        {s t : Kmem} {x : ℕ} {q : List ℕ}
        → kalloc s ≡ (x, t)
        → x ≢ 0
        → Accounted s q
        → Accounted t (x ∷ q)
    Accounted-alloc {s} {t} {x} {q} run n k = go k.unused k.valid k.once
      where
        go :
            (unused : List ℕ)
            → IsValid last s unused
            → ((a : ℕ) → Page last a → count a unused + count a q ≡ 1)
            → Accounted t (x ∷ q)
        go [] v once = absurd (n (ground (arith, run, kalloc-nil last s v)))
        go (y ∷ rest) v once =
            let (e, w, page, out) = kalloc-cons last s y rest positive v in
            let same_x : x ≡ y = ground (arith, run) in
            let same_t : (kalloc s).1 ≡ t = ground (arith, run) in
            record {
              unused = rest;
              valid = rw same_t at w;
              owned = (rw same_x page, k.owned);
              once = λ a p. ground (arith, once a p);
            }

    Accounted-release :
        {s t : Kmem} (l r : List ℕ) (x : ℕ)
        → kfree last x s ≡ some t
        → Accounted s (l ++ x ∷ r)
        → Accounted t (l ++ r)
    Accounted-release {s} {t} l r x run k =
        let parts = (All-append (Page last) l (x ∷ r)).0 k.owned in
        let page : Page last x = parts.1.0 in
        let out : has x k.unused ≡ false =
          owned-not-free k x
            ((has-count x (l ++ x ∷ r)).1 (ground (arith, count-append l (x ∷ r) x))) in
        let (u, run', w) = kfree-IsValid last positive k.valid x page out in
        let same : u ≡ t = ground (arith, run, run') in
        record {
          unused = x ∷ k.unused;
          valid = rw same at w;
          owned = (All-append (Page last) l r).1 (parts.0, parts.1.1);
          once = λ a p. omega (arith, k.once a p, count-append l (x ∷ r) a, count-append l r a);
        }

    Accounted-store :
        {s : Kmem} (x a word : ℕ) {q : List ℕ}
        → has x q ≡ true
        → x ≤ a
        → a < x + page_size
        → Accounted s q
        → Accounted (record s { mem = update s.mem a word }) q
    Accounted-store {s} x a word {q} h lo hi k = record {
      unused = k.unused;
      valid = record {
        chain =
            Chain-frame s.mem _ s.freelist k.unused
              (λ b i.
                let p : Page last b = All-has (Page last) k.unused b k.valid.pages i in
                let p' : Page last x = All-has (Page last) q x k.owned h in
                let other : x ≢ b = λ e. ground (arith, owned-not-free k x h) in
                ground (arith, other))
              k.valid.chain;
        pages = k.valid.pages;
        distinct = k.valid.distinct;
      };
      owned = k.owned;
      once = k.once;
    }

    Reach-Accounted : {s : Kmem} {q : List ℕ} → Reach s q → Accounted s q
    Reach-Accounted (boot s {t} empty run) =
        let (u, free, run', v, all) = kinit-Page last positive s empty in
        let same : u ≡ t = ground (arith, run, run') in
        record {
          unused = free;
          valid = rw same at v;
          owned = tt;
          once = λ a p. ground (arith, has-count a free, all a, count-Distinct a free v.distinct);
        }
    Reach-Accounted (next r (alloc run n)) = Accounted-alloc run n (Reach-Accounted r)
    Reach-Accounted (next r (release l r' x run e e')) =
        rw e' (Accounted-release l r' x run (rw e at (Reach-Accounted r)))
    Reach-Accounted (next r (store x a word h lo hi)) =
        Accounted-store x a word h lo hi (Reach-Accounted r)

    -- Whatever the callers did before: `kalloc` returns a page of the machine that no caller owns, or
    -- 0 when every page has an owner; and freeing a page that one owns does not panic.
    pub kalloc-owners :
        (s : Kmem) (q : List ℕ)
        → Reach s q
        → ((((kalloc s).0 ≡ 0) × ((a : ℕ) → Page last a → has a q ≡ true))
            ⊎ (Page last (kalloc s).0 × (has (kalloc s).0 q ≡ false)))
          × ((x : ℕ) → has x q ≡ true → kfree last x s ≢ none)
    kalloc-owners s q r = (alloc_cases k.unused k.valid k.once, released)
      where
        k : Accounted s q
        k = Reach-Accounted r

        alloc_cases :
            (unused : List ℕ)
            → IsValid last s unused
            → ((a : ℕ) → Page last a → count a unused + count a q ≡ 1)
            → (((kalloc s).0 ≡ 0) × ((a : ℕ) → Page last a → has a q ≡ true))
              ⊎ (Page last (kalloc s).0 × (has (kalloc s).0 q ≡ false))
        alloc_cases [] v once =
            inl
              (ap (λ r. r.0) (kalloc-nil last s v), λ a p. ground (arith, has-count a q, once a p))
        alloc_cases (y ∷ rest) v once =
            let (e, w, page, out) = kalloc-cons last s y rest positive v in
            inr (rw e (page, ground (arith, has-count y q, once y page)))

        released : (x : ℕ) → has x q ≡ true → kfree last x s ≢ none
        released x h bad =
            let page : Page last x = All-has (Page last) q x k.owned h in
            let (t, run, w) = kfree-IsValid last positive k.valid x page (owned-not-free k x h) in
            ground (arith, run)
