-- ===== src/Fs/Bitmap/Frame.antt =====
-- A write to a block that is not of the bitmap of kernel/fs.c leaves the marks.
use cs202lab.Prelude.{ℕ, ◌≤◌, ◌<◌, ◌≡◌, refl, arith}
use cs202lab.Fs.Disk.{Superblock, Fs}
use cs202lab.Fs.Bitmap.{bblock}
use cs202lab.Fs.Bitmap.Marks.{is_used, data_start, Marked}

module _ (sb : Superblock) {f : Fs} (m : Marked sb f) (f' : Fs)
    (low : (b : ℕ) → sb.bmapstart ≤ b → b < data_start sb → f'.block b ≡ f.block b) where
  pub is_used-frame : (c : ℕ) → c < sb.size → is_used sb f' c ≡ is_used sb f c
  is_used-frame c lt =
      let h : bblock sb c < data_start sb = omega arith in
      rw (low (bblock sb c) (omega arith) h) refl

  pub Marked-frame : ((b o : ℕ) → f'.block b o < 256) → Marked sb f'
  Marked-frame byte = record {
    fits = m.fits;
    byte = byte;
    reserved = λ b lt.
        let lt' : b < sb.size = omega (arith, m.fits) in rw (is_used-frame b lt') (m.reserved b lt);
  }
