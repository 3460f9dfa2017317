-- ===== src/Fs/Truncate/Freeing.antt =====
-- Freeing the blocks of a file of kernel/fs.c one after the other.
use cs202lab.Prelude.{
  ℕ, zero, suc, ◌≤◌, ◌<◌, ◌≡◌, ◌≢◌, refl, ◌∙◌, Bool, true, false, not, ◌&&◌, ◌||◌, some, arith,
  ◌==◌,
}
use cs202lab.Fs.Disk.{Superblock, Fs}
use cs202lab.Fs.Bitmap.{bfree}
use cs202lab.Fs.Bitmap.Marks.{is_used, data_start, Marked}
use cs202lab.Fs.Bitmap.Alloc.{bfree-Freed}
use cs202lab.Fs.Content.Blocks.{InUse}

-- Whether c is one of addr 0 to addr (k - 1).
unfoldable pub among : (ℕ → ℕ) → (k c : ℕ) → Bool
among addr zero c = false
among addr (suc k) c = (c == addr k) || among addr k c

pub among-false : (addr : ℕ → ℕ) (k c : ℕ) → ((d : ℕ) → d < k → addr d ≢ c) → among addr k c ≡ false
unfolding among
among-false addr zero c h = refl
among-false addr (suc k) c h =
    ground (arith, h k (omega arith), among-false addr k c (λ d lt. h d (omega arith)))

module _ (sb : Superblock) where
  -- From f to h the blocks for which `gone` holds_inode were freed, and nothing else changed on the disk.
  pub record Freeing (gone : ℕ → Bool) (f h : Fs) : Type 0 where
    pub marks :
        (c : ℕ) → data_start sb ≤ c → c < sb.size → is_used sb h c ≡ not (gone c) && is_used sb f c
    pub blocks : (c : ℕ) → data_start sb ≤ c → h.block c ≡ f.block c
    pub marked : Marked sb h

  module _ {gone : ℕ → Bool} {f h : Fs} (w : Freeing gone f h) (a : ℕ) (u : InUse sb f a)
      (still : gone a ≡ false) where
    -- One more.
    pub free-one :
        (h' : Fs) × (bfree sb a h ≡ some h')
        × Freeing (λ c. (c == a) || gone c) f h'
        × (h' ≡ record h { block = h'.block; logged = h'.logged })
    free-one =
        let used : is_used sb h a ≡ true = ground (arith, w.marks a u.low u.high, u.used, still) in
        let (h', e, fr) = bfree-Freed sb w.marked a u.low u.high used in
        (
          h',
          e,
          record {
            marks = λ c lo hi. ground (arith, fr.marks c hi, w.marks c lo hi);
            blocks = λ c lo. fr.others c lo ∙ w.blocks c lo;
            marked = fr.marked;
          },
          fr.memory,
        )
