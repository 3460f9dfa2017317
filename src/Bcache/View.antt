-- ===== src/Bcache/View.antt =====
-- What a block of kernel/bio.c contains: the cached data, or else those on disk.
use cs202lab.Prelude.{
  ℕ, ◌<◌, ◌≡◌, refl, sym, ◌∙◌, inl, inr, true, false, none, some, arith, if◌then◌else◌, has,
  Option-cases,
}
use cs202lab.Bcache.{Buf, Bcache, find, is_block, set}
use cs202lab.Bcache.Search.{find-some, find-none, unique_find, no_find}

-- Two buffers of one block of a device are one. Device 0 is none: the buffers start with it.
abbrev pub IsValid : Bcache → Type 0
IsValid c =
    (i j : ℕ)
    → has i c.order ≡ true
    → has j c.order ≡ true
    → 0 < (c.buf i).dev
    → (c.buf i).dev ≡ (c.buf j).dev
    → (c.buf i).blockno ≡ (c.buf j).blockno
    → i ≡ j

module _ (disk : ℕ → ℕ → ℕ) where
  abbrev pub shown : Buf → ℕ
  shown b = if b.valid then b.contents else disk b.dev b.blockno

  pub view : Bcache → ℕ → ℕ → ℕ
  unfolding find
  view c dev blockno = elim (find (is_block c dev blockno) c.order) [
    | none ↦ disk dev blockno
    | some i ↦ shown (c.buf i)
  ]

  -- Buffers that nobody uses are as on disk: a dirty block is pinned.
  abbrev pub Clean : Bcache → Type 0
  Clean c =
      (i : ℕ)
      → has i c.order ≡ true
      → (c.buf i).refcnt ≡ 0
      → shown (c.buf i) ≡ disk (c.buf i).dev (c.buf i).blockno

  pub view-none :
      (c : Bcache) (dev blockno : ℕ)
      → ((j : ℕ) → has j c.order ≡ true → is_block c dev blockno j ≡ false)
      → view c dev blockno ≡ disk dev blockno
  unfolding view
  view-none c dev blockno none_of = rw (no_find (is_block c dev blockno) c.order none_of, view) refl

  pub view-some :
      (c : Bcache) (dev blockno i : ℕ)
      → IsValid c
      → 0 < dev
      → has i c.order ≡ true
      → is_block c dev blockno i ≡ true
      → view c dev blockno ≡ shown (c.buf i)
  unfolding view
  view-some c dev blockno i v pos h e =
      rw
        (
          unique_find (is_block c dev blockno) c.order i h e
              (λ j hj ej. ground (arith, v j i hj h, e, ej, pos)),
          view,
        )
        refl

  -- A buffer that changes under the same block leaves every view as it is if it shows the same.
  module _ (c : Bcache) (v : IsValid c) (i : ℕ) (b : Buf) (same_dev : b.dev ≡ (c.buf i).dev)
      (same_block : b.blockno ≡ (c.buf i).blockno) where
    pub set-IsValid : IsValid (set c i b)
    set-IsValid j k hj hk pos d n = ground (arith, v j k hj hk, pos, d, n, same_dev, same_block)

    pub view-set :
        shown b ≡ shown (c.buf i)
        → (dev blockno : ℕ) → 0 < dev
        → view (set c i b) dev blockno ≡ view c dev blockno
    view-set same dev blockno pos = elim (Option-cases (find (is_block c dev blockno) c.order)) [
      | inl nothing ↦
          view-none (set c i b) dev blockno (λ j hj.
            ground (
              arith,
              find-none (is_block c dev blockno) c.order nothing j hj,
              same_dev,
              same_block,
            ))
          ∙ sym (view-none c dev blockno (find-none (is_block c dev blockno) c.order nothing))
      | inr (k, found) ↦
          let (hk, ek) = find-some (is_block c dev blockno) c.order k found in
          view-some (set c i b) dev blockno k set-IsValid pos hk
            (ground (arith, ek, same_dev, same_block))
          ∙ ground (arith, same)
          ∙ sym (view-some c dev blockno k v pos hk ek)
    ]
