-- ===== src/Bcache/Read.antt =====
-- `bget` and `bread` of kernel/bio.c: the right buffer comes back, and no block seems to change.
use cs202lab.Prelude.{
  ℕ, ◌+◌, ◌<◌, ◌≡◌, refl, sym, subst, ◌∙◌, ap, ◌≢◌, ◌⊎◌, inl, inr, true, false, ◌&&◌, none, some,
  arith, ◌==◌, has, Bool-cases, Option-cases, ==→eq,
}
use cs202lab.Bcache.{
  Buf, Bcache, find, find_last, is_block, unused, set, recycle, bget, fill, bread,
}
use cs202lab.Bcache.Search.{find-some, find-none, find_last-some, find_last-none}
use cs202lab.Bcache.View.{IsValid, shown, view, Clean, view-none, view-some, set-IsValid, view-set}

module _ (disk : ℕ → ℕ → ℕ) (c : Bcache) (v : IsValid c) (clean : Clean disk c) (dev blockno : ℕ)
    (pos : 0 < dev) where
  -- A free buffer that is given to a block that no buffer has.
  module _ (i : ℕ) (h : has i c.order ≡ true) (free : (c.buf i).refcnt ≡ 0)
      (absent : (j : ℕ) → has j c.order ≡ true → is_block c dev blockno j ≡ false) where
    abbrev fresh : Buf
    fresh = record (c.buf i) { dev = dev; blockno = blockno; valid = false; refcnt = 1 }

    fresh-IsValid : IsValid (set c i fresh)
    fresh-IsValid j k hj hk p d n = ground (arith, v j k hj hk, p, d, n, absent j hj, absent k hk)

    view-fresh :
        (dev' blockno' : ℕ)
        → 0 < dev'
        → view disk (set c i fresh) dev' blockno' ≡ view disk c dev' blockno'
    view-fresh dev' blockno' pos' = elim (Bool-cases ((dev == dev') && (blockno == blockno'))) [
      | inl this ↦
          view-some disk (set c i fresh) dev' blockno' i fresh-IsValid pos' h (ground (arith, this))
          ∙ ground (arith, this)
          ∙ sym (view-none disk c dev' blockno' (λ j hj. ground (arith, absent j hj, this)))
      | inr other ↦ elim (Option-cases (find (is_block c dev' blockno') c.order)) [
        | inl nothing ↦
            view-none disk (set c i fresh) dev' blockno' (λ j hj.
              ground (arith, find-none (is_block c dev' blockno') c.order nothing j hj, other))
            ∙ sym (
                view-none disk c dev' blockno'
                  (find-none (is_block c dev' blockno') c.order nothing))
        | inr (k, found) ↦
            let (hk, ek) = find-some (is_block c dev' blockno') c.order k found in
            elim (Bool-cases (k == i)) [
              | inl evicted ↦
                  view-none disk (set c i fresh) dev' blockno'
                    (λ j hj. ground (arith, v j k hj hk, ek, pos', other, evicted))
                  ∙ ground (arith, clean i h free, ek, evicted, ap disk, ==→eq k i evicted)
                  ∙ sym (view-some disk c dev' blockno' k v pos' hk ek)
              | inr kept ↦
                  view-some disk (set c i fresh) dev' blockno' k fresh-IsValid pos' hk
                    (ground (arith, ek, kept))
                  ∙ ground (arith, kept)
                  ∙ sym (view-some disk c dev' blockno' k v pos' hk ek)
            ]
      ]
    ]

  -- Buffer i holds the block and has a new user, and nothing else is to be seen of it: the other buffers
  -- are the same, a buffer that is in use is not recycled, and every block shows what it did.
  pub record Gets (i : ℕ) (d : Bcache) : Type 0 where
    pub member : has i c.order ≡ true
    pub order : d.order ≡ c.order
    pub holds : ((d.buf i).dev ≡ dev) × ((d.buf i).blockno ≡ blockno)
    pub counted : (d.buf i).refcnt ≡ (c.buf i).refcnt + 1
    pub in_use : 0 < (c.buf i).refcnt → ((c.buf i).dev ≡ dev) × ((c.buf i).blockno ≡ blockno)
    pub others : (j : ℕ) → j ≢ i → d.buf j ≡ c.buf j
    pub valid : IsValid d
    pub views :
        (dev' blockno' : ℕ) → 0 < dev' → view disk d dev' blockno' ≡ view disk c dev' blockno'

  -- Where the call panics.
  abbrev pub AllInUse : Type 0
  AllInUse =
      (j : ℕ) → has j c.order ≡ true → (0 < (c.buf j).refcnt) × (is_block c dev blockno j ≡ false)

  bget-hit :
      (i : ℕ)
      → has i c.order ≡ true
      → is_block c dev blockno i ≡ true
      → Gets i (set c i (record (c.buf i) { refcnt = (c.buf i).refcnt + 1 }))
  bget-hit i h e =
      let b = record (c.buf i) { refcnt = (c.buf i).refcnt + 1 } in
      record {
        member = h;
        order = refl;
        holds = ground (arith, e);
        counted = ground arith;
        in_use = λ _. ground (arith, e);
        others = λ j ne. ground (arith, ne);
        valid = set-IsValid disk c v i b refl refl;
        views = view-set disk c v i b refl refl refl;
      }

  bget-miss :
      (i : ℕ)
      → has i c.order ≡ true
      → (c.buf i).refcnt ≡ 0
      → ((j : ℕ) → has j c.order ≡ true → is_block c dev blockno j ≡ false)
      → Gets i
          (set c i (record (c.buf i) { dev = dev; blockno = blockno; valid = false; refcnt = 1 }))
  bget-miss i h free absent = record {
    member = h;
    order = refl;
    holds = ground arith;
    counted = ground (arith, free);
    in_use = λ used. absurd (omega (arith, free));
    others = λ j ne. ground (arith, ne);
    valid = fresh-IsValid i h free absent;
    views = view-fresh i h free absent;
  }

  pub bget-Gets :
      ((bget dev blockno c ≡ none) × AllInUse)
      ⊎ ((i : ℕ) × (d : Bcache) × (bget dev blockno c ≡ some (i, d)) × Gets i d)
  unfolding bget
  bget-Gets = elim (Option-cases (find (is_block c dev blockno) c.order)) [
    | inr (i, found) ↦
        let (h, e) = find-some (is_block c dev blockno) c.order i found in
        inr (i, _, hit found, bget-hit i h e)
    | inl nothing ↦
        let absent = find-none (is_block c dev blockno) c.order nothing in
        elim (Option-cases (find_last (unused c) c.order)) [
          | inl none_free ↦ inl (
            miss_none nothing none_free,
            λ j hj. (ground (arith, find_last-none (unused c) c.order none_free j hj), absent j hj),
          )
          | inr (i, found) ↦
              let (h, e) = find_last-some (unused c) c.order i found in
              inr (i, _, miss nothing found, bget-miss i h (ground (arith, e)) absent)
        ]
  ]
    where
      hit :
          {i : ℕ}
          → find (is_block c dev blockno) c.order ≡ some i
          → bget dev blockno c
            ≡ some (i, set c i (record (c.buf i) { refcnt = (c.buf i).refcnt + 1 }))
      hit found = rw (found, bget) refl

      miss_none :
          find (is_block c dev blockno) c.order ≡ none
          → find_last (unused c) c.order ≡ none
          → bget dev blockno c ≡ none
      miss_none nothing none_free = rw (nothing, none_free, bget, recycle) refl

      miss :
          {i : ℕ}
          → find (is_block c dev blockno) c.order ≡ none
          → find_last (unused c) c.order ≡ some i
          → bget dev blockno c
            ≡ some (
              i,
              set c i
                  (record (c.buf i) { dev = dev; blockno = blockno; valid = false; refcnt = 1 }),
            )
      miss nothing found = rw (nothing, found, bget, recycle) refl

  -- The buffer holds what the block shows, in memory.
  pub record Reads (i : ℕ) (d : Bcache) : Type 0 where
    pub gets : Gets i d
    pub loaded : (d.buf i).valid ≡ true
    pub contents : (d.buf i).contents ≡ view disk c dev blockno
    pub still_clean : Clean disk d

  module _ (i : ℕ) (d : Bcache) (g : Gets i d) where
    has_i : has i d.order ≡ true
    has_i = ap (λ l. has i l) g.order ∙ g.member

    shows : shown disk (d.buf i) ≡ view disk c dev blockno
    shows =
        sym (view-some disk d dev blockno i g.valid pos has_i (ground (arith, g.holds)))
        ∙ g.views dev blockno pos

    others-Clean :
        (e : Bcache)
        → e.order ≡ c.order
        → 0 < (e.buf i).refcnt
        → ((j : ℕ) → j ≢ i → e.buf j ≡ c.buf j)
        → Clean disk e
    others-Clean e order used others j hj free = elim (Bool-cases (j == i)) [
      | inl same ↦ absurd (ground (arith, used, free, same))
      | inr other ↦
          let same : e.buf j ≡ c.buf j = others j (ground (arith, other)) in
          let hc : has j c.order ≡ true = ap (λ l. has j l) (sym order) ∙ hj in
          let was_free : (c.buf j).refcnt ≡ 0 = ap (λ b. b.refcnt) (sym same) ∙ free in
          subst (λ b. shown disk b ≡ disk b.dev b.blockno) (sym same) (clean j hc was_free)
    ]

    fill-Reads : Reads i (fill disk i d)
    unfolding fill
    fill-Reads = elim (Bool-cases (d.buf i).valid) [
      | inl loaded ↦ rw loaded (record {
        gets = g;
        loaded = loaded;
        contents = ground (arith, loaded, shows);
        still_clean = others-Clean d g.order (ground (arith, g.counted)) g.others;
      })
      | inr absent ↦
          let read = record (d.buf i) {
            contents = disk (d.buf i).dev (d.buf i).blockno;
            valid = true;
          } in
          let same : shown disk read ≡ shown disk (d.buf i) = ground (arith, absent) in
          let others : (j : ℕ) → j ≢ i → (set d i read).buf j ≡ c.buf j =
            λ j ne. ground (arith, g.others j ne, ne) in
          rw absent (record {
            gets = record {
              member = g.member;
              order = g.order;
              holds = ground (arith, g.holds);
              counted = ground (arith, g.counted);
              in_use = g.in_use;
              others = others;
              valid = set-IsValid disk d g.valid i read refl refl;
              views = λ dev' blockno' p.
                  view-set disk d g.valid i read refl refl same dev' blockno' p
                  ∙ g.views dev' blockno' p;
            };
            loaded = ground arith;
            contents = ground (arith, same, shows);
            still_clean = others-Clean (set d i read) g.order (ground (arith, g.counted)) others;
          })
    ]

  -- `bread` panics only if every buffer is in use and none holds the block. Otherwise it returns a buffer
  -- with what the block shows, to a new user; no buffer that is in use is recycled, and no block seems
  -- to change.
  pub bread-Reads :
      ((bread disk dev blockno c ≡ none) × AllInUse)
      ⊎ ((i : ℕ) × (d : Bcache) × (bread disk dev blockno c ≡ some (i, d)) × Reads i d)
  unfolding bread
  bread-Reads = elim bget-Gets [
    | inl (e, busy) ↦ inl (rw (e, bread) refl, busy)
    | inr (i, d, e, g) ↦ inr (i, fill disk i d, rw (e, bread) refl, fill-Reads i d g)
  ]
