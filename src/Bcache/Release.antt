-- ===== src/Bcache/Release.antt =====
-- `brelse` of kernel/bio.c: the order of the list, and what it is good for.
use cs202lab.Prelude.{
  ℕ, ◌-◌, ◌<◌, ◌≡◌, refl, sym, ◌∙◌, ap, ◌≢◌, inl, inr, Bool, true, false, none, some, List, [], ◌∷◌,
  arith, ◌==◌, update, has, Bool-cases, Option-cases, ==→eq,
}
use cs202lab.Bcache.{Buf, Bcache, find, find_last, is_block, unused, set, recycle, remove, brelse}
use cs202lab.Bcache.Search.{find-some, find-none, find_last-some, find_last-none}
use cs202lab.Bcache.View.{IsValid, shown, view, view-none, view-some, set-IsValid, view-set}

-- No buffer stands in the list twice.
abbrev pub Distinct : List ℕ → Type 0
Distinct [] = Unit
Distinct (i ∷ is) = (has i is ≡ false) × Distinct is

remove-has : (i j : ℕ) (is : List ℕ) → has i is ≡ true → has j (i ∷ remove i is) ≡ has j is
unfolding remove
remove-has i j [] h = absurd (ground arith)
remove-has i j (k ∷ is) h = elim (Bool-cases (k == i)) [
  | inl here ↦ rw here (ground (arith, here))
  | inr there ↦ rw there (ground (arith, there, remove-has i j is, h))
]

remove-other : (i : ℕ) (is : List ℕ) → Distinct is → has i (remove i is) ≡ false
unfolding remove
remove-other i [] d = refl
remove-other i (k ∷ is) d = elim (Bool-cases (k == i)) [
  | inl here ↦ rw here (ground (arith, here, d.0, ap (λ j. has j is) (==→eq k i here)))
  | inr there ↦ rw there (ground (arith, there, remove-other i is d.1))
]

module _ (disk : ℕ → ℕ → ℕ) where
  -- The view depends on which buffers are in the list, not on their order.
  view-order :
      (c d : Bcache)
      → IsValid c
      → d.buf ≡ c.buf
      → ((j : ℕ) → has j d.order ≡ has j c.order)
      → (dev blockno : ℕ) → 0 < dev
      → view disk d dev blockno ≡ view disk c dev blockno
  view-order c d v same members dev blockno pos =
      elim (Option-cases (find (is_block c dev blockno) c.order)) [
        | inl nothing ↦
            view-none disk d dev blockno (λ j hj.
              ground
                (arith, same, members j, find-none (is_block c dev blockno) c.order nothing j, hj))
            ∙ sym
                (view-none disk c dev blockno (find-none (is_block c dev blockno) c.order nothing))
        | inr (k, found) ↦
            let (hk, ek) = find-some (is_block c dev blockno) c.order k found in
            view-some disk d dev blockno k
              (λ i j hi hj p e n.
                ground (arith, v i j, same, members i, members j, hi, hj, p, e, n))
              pos (members k ∙ hk) (ground (arith, ek, same))
            ∙ ap (λ f. shown disk (f k)) same
            ∙ sym (view-some disk c dev blockno k v pos hk ek)
      ]

find_last-front :
    (p : ℕ → Bool) (i : ℕ) (is : List ℕ)
    → find_last p (i ∷ is) ≡ some i
    → has i is ≡ false
    → find_last p is ≡ none
unfolding find_last
find_last-front p i is e out = elim (Option-cases (find_last p is)) [
  | inl nothing ↦ nothing
  | inr (k, later) ↦
      let last : some k ≡ some i = rw later at e in
      absurd (ground (arith, find_last-some p is i (later ∙ last), out))
]

recycle-front :
    (dev blockno i : ℕ) (is : List ℕ) (d e : Bcache)
    → d.order ≡ i ∷ is
    → has i is ≡ false
    → recycle dev blockno d ≡ some (i, e)
    → (j : ℕ) → has j is ≡ true
    → 0 < (d.buf j).refcnt
unfolding recycle
recycle-front dev blockno i is d e front out run j hj =
    elim (Option-cases (find_last (unused d) d.order)) [
      | inl nothing ↦ absurd (ground (arith, nothing, run))
      | inr (k, found) ↦
          let picked : k ≡ i = ground (arith, found, run) in
          let found' : find_last (unused d) (i ∷ is) ≡ some i =
            ap (λ l. find_last (unused d) l) (sym front) ∙ found ∙ ap some picked in
          ground
            (arith, find_last-none (unused d) is (find_last-front (unused d) i is found' out) j hj)
    ]

module _ (disk : ℕ → ℕ → ℕ) (c : Bcache) (v : IsValid c) (i : ℕ) (h : has i c.order ≡ true) where
  -- One user less; every block shows what it did. When the last user is gone the buffer comes to the
  -- front: it is recycled only when every other buffer is in use.
  pub record Releases (d : Bcache) : Type 0 where
    pub members : (j : ℕ) → has j d.order ≡ has j c.order
    pub counted : (d.buf i).refcnt ≡ (c.buf i).refcnt - 1
    pub others : (j : ℕ) → j ≢ i → d.buf j ≡ c.buf j
    pub valid : IsValid d
    pub views : (dev blockno : ℕ) → 0 < dev → view disk d dev blockno ≡ view disk c dev blockno
    pub recent :
        (c.buf i).refcnt ≡ 1
        → Distinct c.order
        → (dev blockno : ℕ) (e : Bcache) → recycle dev blockno d ≡ some (i, e)
        → (j : ℕ) → j ≢ i
        → has j c.order ≡ true
        → 0 < (c.buf j).refcnt

  abbrev one_less : Buf
  one_less = record (c.buf i) { refcnt = (c.buf i).refcnt - 1 }

  abbrev moved : Bcache
  moved = record c { buf = update c.buf i one_less; order = i ∷ remove i c.order }

  members-moved : (j : ℕ) → has j moved.order ≡ has j c.order
  members-moved j = remove-has i j c.order h

  dropped-IsValid : IsValid (set c i one_less)
  dropped-IsValid = set-IsValid disk c v i one_less refl refl

  moved-Releases : Releases moved
  moved-Releases = record {
    members = members-moved;
    counted = ground arith;
    others = λ j ne. ground (arith, ne);
    valid = λ j k hj hk p e n.
        dropped-IsValid j k (sym (members-moved j) ∙ hj) (sym (members-moved k) ∙ hk) p e n;
    views = λ dev blockno pos.
        view-order disk (set c i one_less) moved dropped-IsValid refl members-moved dev blockno pos
        ∙ view-set disk c v i one_less refl refl refl dev blockno pos;
    recent = λ one distinct dev blockno e run j ne hj. ground (
      arith,
      recycle-front dev blockno i (remove i c.order) moved e refl (remove-other i c.order distinct)
          run j,
      members-moved j,
      hj,
      ne,
    );
  }

  pub brelse-Releases : Releases (brelse i c)
  unfolding brelse
  brelse-Releases = elim (Bool-cases ((update c.buf i one_less i).refcnt == 0)) [
    | inl last ↦ rw last moved-Releases
    | inr more ↦ rw more (record {
      members = λ j. refl;
      counted = ground arith;
      others = λ j ne. ground (arith, ne);
      valid = dropped-IsValid;
      views = view-set disk c v i one_less refl refl refl;
      recent = λ one. absurd (ground (arith, one, more));
    })
  ]
