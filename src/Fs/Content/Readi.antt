-- ===== src/Fs/Content/Readi.antt =====
-- All of `readi` of kernel/fs.c.
use cs202lab.Prelude.{
  ℕ, zero, suc, ◌+◌, ◌-◌, ◌*◌, ◌/◌, ◌%◌, ◌^◌, ◌≤◌, ◌<◌, ◌≡◌, ◌≢◌, ◌⊎◌, inl, inr, refl, ◌∙◌, ap, sym,
  Bool, true, false, ◌||◌, none, some, arith, ltb, ◌==◌, ==→eq, ==→ne, if◌then◌else◌, Bool-cases,
  min, [], add_uint,
}
use cs202lab.Fs.Disk.{bsize, Superblock, Fs}
use cs202lab.Fs.Content.{maxfile, slice, readi_loop, readi}
use cs202lab.Fs.Content.Blocks.{addr_of, Good}
use cs202lab.Fs.Content.Mapped.{Mapped}
use cs202lab.Fs.Content.Bmap.{bmap-Mapped}
use cs202lab.Fs.Content.Bytes.{byte_at-held, byte_at-Step}
use cs202lab.Fs.Content.Reads.{
  at, Kept-Mapped, Stop, all, no_block, no_copy, Got, Got-Stop, Got-more, slice-same,
}

module _ (sb : Superblock) (i : ℕ) (copyout : ℕ → ℕ → Bool) where
  -- A piece of a block is a piece of the file.
  slice-at :
      (off m a : ℕ) (f f1 : Fs)
      → Good sb f (f.itable i)
      → off + m ≤ maxfile * bsize
      → m ≤ bsize - off % bsize
      → off / bsize < maxfile
      → Mapped sb i (off / bsize) f a f1
      → a ≢ 0
      → slice m (f1.block a) (off % bsize) ≡ slice m (at sb i copyout f) off
  slice-at off m a f f1 g room fits lt mp pos =
      slice-same m (f1.block a) (at sb i copyout f) (off % bsize) off (λ j lj.
        let p = off + j in
        let q : p / bsize ≡ off / bsize = omega arith in
        let r : p % bsize ≡ off % bsize + j = omega arith in
        let here : addr_of f1.block (f1.itable i) (p / bsize) ≡ a = rw q (mp.addr lt) in
        let e = byte_at-held f1.block (f1.itable i) p a here pos in
        ap (f1.block a) (sym r) ∙ sym e ∙ byte_at-Step sb g mp.step p (omega arith))

  readi_loop-Got :
      (k tot n off dst : ℕ) (f : Fs)
      → Good sb f (f.itable i)
      → n - tot ≤ k
      → tot ≤ n
      → off + (n - tot) ≤ maxfile * bsize
      → Got sb i copyout tot n off dst f (readi_loop sb i copyout k tot n off dst f)
  unfolding readi_loop
  readi_loop-Got zero tot n off dst f g hk le room =
      Got-Stop sb i copyout (all (omega arith) (omega arith)) (λ p lp. refl)
        ((λ c lc h. refl), (λ j ne. refl)) g refl
  readi_loop-Got (suc k) tot n off dst f g hk le room = elim (Bool-cases (ltb tot n)) [
    | inr finished ↦
        let ge : n ≤ tot = ground (arith, finished) in
        rw (finished, readi_loop)
          (Got-Stop sb i copyout (all (omega arith) (omega arith)) (λ p lp. refl)
            ((λ c lc h. refl), (λ j ne. refl)) g refl)
    | inl more ↦
        let lt : tot < n = ground (arith, more) in
        let in_file : off / bsize < maxfile = omega arith in
        let (a, f1, e, m) = bmap-Mapped sb i (off / bsize) f g in_file in
        let size = min (n - tot) (bsize - off % bsize) in
        let same_bytes = byte_at-Step sb g m.step in
        elim (Bool-cases (a == 0)) [
          | inl z ↦
              let q : off + 0 ≡ off = omega arith in
              let hole : addr_of f1.block (f1.itable i) ((off + 0) / bsize) ≡ 0 =
                rw q (m.addr in_file ∙ ==→eq a 0 z) in
              rw (more, readi_loop, e, z)
                (Got-Stop sb i copyout (no_block (omega arith) hole (m.full (==→eq a 0 z)))
                  same_bytes (Kept-Mapped sb i copyout m) m.step.good m.step.same)
          | inr h ↦
              let pos = ==→ne a 0 h in
              elim (Bool-cases (copyout dst size)) [
                | inr fault ↦
                    let q : dst + 0 ≡ dst = omega arith in
                    let stop : Stop sb i copyout (n - tot) off dst tot 0 f1 none =
                      no_copy size (omega arith) (rw q fault) in
                    rw (more, readi_loop, e, h, fault)
                      (Got-Stop sb i copyout stop same_bytes (Kept-Mapped sb i copyout m)
                        m.step.good m.step.same)
                | inl ok ↦
                    let piece =
                      slice-at off size a f f1 g (omega arith) (omega arith) in_file m pos in
                    rw (more, readi_loop, e, h, ok)
                      (Got-more sb i copyout (omega arith) (omega arith) ok (omega arith) room piece
                        same_bytes (Kept-Mapped sb i copyout m) m.step.same
                        (readi_loop-Got k (tot + size) n (off + size) (dst + size) f1 m.step.good
                          (omega arith) (omega arith) (omega arith)))
              ]
        ]
  ]

  -- `readi` copies out the bytes of the file from off on, n of them or as many as there are before the
  -- end of the file. It returns how many, and all of them unless a hole cannot be filled because the
  -- device has no free block. It returns -1 exactly if a copy fails, which ends the read: every piece
  -- in front of that, and without it every piece, was copied. The bytes of the file do not change.
  pub readi-Got :
      (dst off n : ℕ) (f : Fs)
      → Good sb f (f.itable i)
      → (f.itable i).size ≤ maxfile * bsize
      → off ≤ (f.itable i).size
      → off + n < 2 ^ 32
      → Got sb i copyout 0
          (min n ((f.itable i).size - off))
          off
          dst
          f
          (readi sb i copyout dst off n f)
  unfolding readi
  readi-Got dst off n f g fits start room =
      let size = (f.itable i).size in
      let pass : (ltb size off || ltb (add_uint off n) off) ≡ false = ground (arith, start, room) in
      let e : (if ltb size (add_uint off n) then size - off else n) ≡ min n (size - off) =
        ground (arith, start, room) in
      rw (pass, readi, e)
        (readi_loop-Got (min n (size - off)) 0 (min n (size - off)) off dst f g (omega arith)
          (omega arith) (omega arith))

  -- `readi` returns 0 and copies nothing when the read starts behind the end of the file, and when
  -- off + n does not fit a `uint`.
  pub readi-empty :
      (dst off n : ℕ) (f : Fs)
      → off < 2 ^ 32
      → n < 2 ^ 32
      → ((f.itable i).size < off) ⊎ (2 ^ 32 ≤ off + n)
      → readi sb i copyout dst off n f ≡ some (some 0, [], f)
  unfolding readi
  readi-empty dst off n f ho hn h =
      let pass : (ltb (f.itable i).size off || ltb (add_uint off n) off) ≡ true =
        ground (arith, h) in
      rw (pass, readi) refl
