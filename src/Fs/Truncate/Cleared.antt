-- ===== src/Fs/Truncate/Cleared.antt =====
-- States between the start and the end of `itrunc` of kernel/fs.c.
use cs202lab.Prelude.{
  ℕ, ◌≤◌, ◌≡◌, ◌≢◌, refl, ◌∙◌, ap, subst, Bool, false, not, ◌&&◌, ◌||◌, some, arith, ◌==◌, eq→==,
  ne→==, if◌then◌else◌, update,
}
use cs202lab.Fs.Disk.{Inode, Superblock, Fs}
use cs202lab.Fs.Bitmap.{bfree}
use cs202lab.Fs.Bitmap.Marks.{is_used, data_start}
use cs202lab.Fs.Content.{store_slot}
use cs202lab.Fs.Content.Blocks.{InUse}
use cs202lab.Fs.Truncate.Freeing.{Freeing, free-one}

module _ (sb : Superblock) (i : ℕ) where
  -- On the way from f to h, blocks in `gone` were freed and the slots in `zeroed` of inode i set to 0.
  pub record Cleared (gone zeroed : ℕ → Bool) (f h : Fs) : Type 0 where
    pub freeing : Freeing sb gone f h
    pub addrs : (c : ℕ) → (h.itable i).addrs c ≡ (if zeroed c then 0 else (f.itable i).addrs c)
    pub same : h.itable i ≡ record (f.itable i) { addrs = (h.itable i).addrs }
    pub others : (j : ℕ) → j ≢ i → h.itable j ≡ f.itable j
    pub pid : h.pid ≡ f.pid

  pub Freeing-table :
      (gone : ℕ → Bool) (f h : Fs) (t : ℕ → Inode)
      → Freeing sb gone f h
      → Freeing sb gone f (record h { itable = t })
  Freeing-table gone f h t w = record {
    marks = w.marks;
    blocks = w.blocks;
    marked = record { fits = w.marked.fits; byte = w.marked.byte; reserved = w.marked.reserved };
  }

  -- The same blocks, told otherwise.
  pub Cleared-gone :
      {gone gone' zeroed zeroed' : ℕ → Bool} {f h : Fs}
      → ((c : ℕ) → data_start sb ≤ c → gone c ≡ gone' c)
      → ((c : ℕ)
          → (if zeroed c then 0 else (f.itable i).addrs c)
            ≡ (if zeroed' c then 0 else (f.itable i).addrs c))
      → Cleared gone zeroed f h
      → Cleared gone' zeroed' f h
  Cleared-gone {f = f} {h = h} e z w = record {
    freeing = record {
      marks = λ c lo hi.
          subst (λ b. is_used sb h c ≡ not b && is_used sb f c) (e c lo) (w.freeing.marks c lo hi);
      blocks = w.freeing.blocks;
      marked = w.freeing.marked;
    };
    addrs = λ c. w.addrs c ∙ z c;
    same = w.same;
    others = w.others;
    pid = w.pid;
  }

  module _ {gone zeroed : ℕ → Bool} {f h : Fs} (w : Cleared gone zeroed f h) (a : ℕ)
      (u : InUse sb f a) (still : gone a ≡ false) where
    -- One more block is freed,
    pub free-Cleared :
        (h' : Fs) × (bfree sb a h ≡ some h') × Cleared (λ c. (c == a) || gone c) zeroed f h'
    free-Cleared =
        let (h', e, fr, memory) = free-one sb w.freeing a u still in
        let t : h'.itable ≡ h.itable = ap (λ (x : Fs). x.itable) memory in
        (
          h',
          e,
          record {
            freeing = fr;
            addrs = λ c. ap (λ (y : ℕ → Inode). (y i).addrs c) t ∙ w.addrs c;
            same = rw t w.same;
            others = λ j ne. rw t (w.others j ne);
            pid = ap (λ (x : Fs). x.pid) memory ∙ w.pid;
          },
        )

    -- and its slot n is set to 0.
    pub free-slot :
        (n : ℕ)
        → (h' : Fs) × (bfree sb a h ≡ some h')
          × Cleared (λ c. (c == a) || gone c) (λ c. (c == n) || zeroed c) f (store_slot i n 0 h')
    free-slot n =
        let (h', e, c') = free-Cleared in
        let at : (store_slot i n 0 h').itable i
            ≡ record (h'.itable i) { addrs = update (h'.itable i).addrs n 0 } =
          rw (eq→== i i refl) refl in
        (
          h',
          e,
          record {
            freeing = Freeing-table _ f h' _ c'.freeing;
            addrs = λ c. ap (λ (q : Inode). q.addrs c) at ∙ ground (arith, c'.addrs c);
            same =
                rw at
                  (ap (λ (q : Inode). record q { addrs = update (h'.itable i).addrs n 0 }) c'.same);
            others = λ j ne. rw (ne→== j i ne) (c'.others j ne);
            pid = c'.pid;
          },
        )
