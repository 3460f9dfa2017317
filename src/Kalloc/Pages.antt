-- ===== src/Kalloc/Pages.antt =====
-- The free list of kernel/kalloc.c: distinct pages of the machine, linked through their first words.
use cs202lab.Prelude.{
  ℕ, ◌%◌, ◌≤◌, ◌<◌, ◌≡◌, refl, ◌≢◌, true, false, some, List, [], ◌∷◌, arith, ◌==◌, update, has, All,
}
use cs202lab.Kalloc.{page_size, phystop, Kmem, fill_page, kfree, kalloc}

-- From `p` the first words lead through the pages `xs` to 0.
abbrev pub Chain : (ℕ → ℕ) → ℕ → List ℕ → Type 0
Chain mem p [] = p ≡ 0
Chain mem p (x ∷ xs) = (p ≡ x) × Chain mem (mem x) xs

abbrev pub Distinct : List ℕ → Type 0
Distinct [] = Unit {0}
Distinct (x ∷ xs) = (has x xs ≡ false) × Distinct xs

-- A page that `kfree` accepts.
abbrev pub Page : ℕ → ℕ → Type 0
Page last a = (a % page_size ≡ 0) × (last ≤ a) × (a < phystop)

-- Memory may change outside the first words of the pages.
pub Chain-frame :
    (mem mem' : ℕ → ℕ) (p : ℕ) (xs : List ℕ)
    → ((a : ℕ) → has a xs ≡ true → mem' a ≡ mem a)
    → Chain mem p xs
    → Chain mem' p xs
Chain-frame mem mem' p [] same c = c
Chain-frame mem mem' p (x ∷ xs) same c = (
  c.0,
  rw (same x (ground arith)) (Chain-frame mem mem' (mem x) xs (λ a h. same a (ground arith)) c.1),
)

pub All-has : (P : ℕ → Type 0) (xs : List ℕ) (a : ℕ) → All P xs → has a xs ≡ true → P a
All-has P [] a h i = cc
All-has P (x ∷ xs) a h i =
    elim (a == x) as (λ b. (a == x) ≡ b → P a) [
      | true ↦ λ e. let same : a ≡ x = ground arith in rw same h.0
      | false ↦ λ e. All-has P xs a h.1 (ground arith)
    ]
      refl

module _ (last : ℕ) where
  pub record IsValid (s : Kmem) (free : List ℕ) : Type 0 where
    pub chain : Chain s.mem s.freelist free
    pub pages : All (Page last) free
    pub distinct : Distinct free

  module _ (positive : 0 < last) {s : Kmem} {free : List ℕ} (v : IsValid s free) where
    -- The first words of the other pages lie outside a page that is filled.
    fill-other :
        (x a word : ℕ)
        → Page last x
        → has x free ≡ false
        → has a free ≡ true
        → (update (fill_page s.mem x word) x s.freelist a ≡ s.mem a)
          × (fill_page s.mem x word a ≡ s.mem a)
    fill-other x a word p out i =
        let q : Page last a = All-has (Page last) free a v.pages i in
        let other : x ≢ a = λ e. ground (arith, i) in ground (arith, p, q, other)

    -- `kfree` of a page that is not free puts it in front of the free list.
    pub kfree-IsValid :
        (pa : ℕ)
        → Page last pa
        → has pa free ≡ false
        → (t : Kmem) × (kfree last pa s ≡ some t) × IsValid t (pa ∷ free)
    unfolding kfree
    kfree-IsValid pa p out = (
      record {
        freelist = pa;
        mem = update (fill_page s.mem pa 0x0101_0101_0101_0101) pa s.freelist;
      },
      ground (arith, p),
      record {
        chain = (
          refl,
          let e : update (fill_page s.mem pa 0x0101_0101_0101_0101) pa s.freelist pa ≡ s.freelist =
                ground arith in
              rw e (
                Chain-frame s.mem _ s.freelist free (λ a i. (fill-other pa a _ p out i).0) v.chain),
        );
        pages = (p, v.pages);
        distinct = (out, v.distinct);
      },
    )

  -- `kalloc` takes the first free page, and returns 0 only if there is none.
  pub kalloc-cons :
      (s : Kmem) (x : ℕ) (free : List ℕ)
      → 0 < last
      → IsValid s (x ∷ free)
      → ((kalloc s).0 ≡ x) × IsValid (kalloc s).1 free × Page last x × (has x free ≡ false)
  unfolding kalloc
  kalloc-cons s x free positive v =
      let page : Page last x = v.pages.0 in
      let first : s.freelist ≡ x = v.chain.0 in
      let nonzero : (s.freelist == 0) ≡ false = ground arith in
      rw nonzero (
        first,
        record {
          chain = rw first (
              Chain-frame s.mem _ (s.mem x) free
                (λ a i. (fill-other positive rest x a 0x0505_0505_0505_0505 page v.distinct.0 i).1)
                v.chain.1);
          pages = v.pages.1;
          distinct = v.distinct.1;
        },
        page,
        v.distinct.0,
      )
    where
      rest : IsValid (record s { freelist = s.mem x }) free
      rest = record { chain = v.chain.1; pages = v.pages.1; distinct = v.distinct.1 }

  pub kalloc-nil : (s : Kmem) → IsValid s [] → kalloc s ≡ (0, s)
  unfolding kalloc
  kalloc-nil s v = ground (arith, v.chain)
