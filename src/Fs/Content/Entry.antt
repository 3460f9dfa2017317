-- ===== src/Fs/Content/Entry.antt =====
-- Growing the map of one file of kernel/fs.c by a new entry of its indirect block.
use cs202lab.Prelude.{
  ℕ, ◌+◌, ◌-◌, ◌*◌, ◌≤◌, ◌<◌, ◌≡◌, ◌≢◌, inl, inr, refl, ◌∙◌, sym, subst, false, arith, ltb, ◌==◌,
  eq→==, ne→==, if◌then◌else◌, Bool-cases,
}
use cs202lab.Fs.Disk.{bsize, word, put_word, Inode, Superblock, Fs}
use cs202lab.Fs.Disk.Words.{word-put_word, word-put_word_other}
use cs202lab.Fs.Bitmap.Marks.{is_used, data_start}
use cs202lab.Fs.Bitmap.Alloc.{Allocated}
use cs202lab.Fs.Bitmap.Frame.{is_used-frame, Marked-frame}
use cs202lab.Fs.Content.{ndirect, nindirect, maxfile, store_entry}
use cs202lab.Fs.Content.Blocks.{addr_of, Map-extend, InUse, Good}
use cs202lab.Fs.Content.Steps.{Step, other-block, kept-block, mono-alloc, new-InUse}

module _ (sb : Superblock) where
  module _ {f : Fs} {ip : Inode} (g : Good sb f ip) {a : ℕ} {f1 : Fs}
      (al : Allocated sb f a f1) where
    -- A new entry of the indirect block.
    module _ (n : ℕ) (lt : n < nindirect) (is_set : ip.addrs ndirect ≢ 0)
        (unset : addr_of f.block ip (n + ndirect) ≡ 0) where
      abbrev pub entered : Fs
      entered = store_entry (ip.addrs ndirect) n a f1

      root_InUse : InUse sb f (ip.addrs ndirect)
      root_InUse = g.owned.top is_set

      entered-low : (b : ℕ) → b < data_start sb → entered.block b ≡ f1.block b
      entered-low b h =
          let s : (b == ip.addrs ndirect) ≡ false = ground (arith, root_InUse.low) in rw s refl

      entered-block : (b : ℕ) → InUse sb f b → b ≢ ip.addrs ndirect → entered.block b ≡ f.block b
      entered-block b u ne = rw (ne→== b (ip.addrs ndirect) ne) (kept-block sb g al b u)

      entered_mono : (b : ℕ) → InUse sb f1 b → InUse sb entered b
      entered_mono b u = record {
        low = u.low;
        high = u.high;
        used = is_used-frame sb al.marked entered (λ c lo h. entered-low c h) b u.high ∙ u.used;
      }

      addr_of-root :
          (h : Fs) (c : ℕ)
          → ndirect ≤ c
          → addr_of h.block ip c ≡ word (h.block (ip.addrs ndirect)) (4 * (c - ndirect))
      unfolding addr_of
      addr_of-root h c lo = ground (arith, lo, is_set)

      entered-root :
          entered.block (ip.addrs ndirect) ≡ put_word (f.block (ip.addrs ndirect)) (4 * n) a
      entered-root =
          rw (eq→== (ip.addrs ndirect) _ refl, kept-block sb g al (ip.addrs ndirect) root_InUse)
            refl

      entry-entered : word (entered.block (ip.addrs ndirect)) (4 * (n + ndirect - ndirect)) ≡ a
      entry-entered =
          let e : n + ndirect - ndirect ≡ n = omega arith in
          rw (e, entered-root)
            (word-put_word (f.block (ip.addrs ndirect)) (4 * n) a (omega (arith, al.high, g.small)))

      entry-other :
          (c : ℕ)
          → ndirect ≤ c
          → c ≢ n + ndirect
          → word (entered.block (ip.addrs ndirect)) (4 * (c - ndirect))
            ≡ word (f.block (ip.addrs ndirect)) (4 * (c - ndirect))
      entry-other c lo ne = rw entered-root (
          word-put_word_other (f.block (ip.addrs ndirect)) (4 * n) a (4 * (c - ndirect))
            (omega arith))

      pub addr_of-entered :
          (c : ℕ)
          → c < maxfile
          → addr_of entered.block ip c ≡ (if c == n + ndirect then a else addr_of f.block ip c)
      unfolding addr_of
      addr_of-entered c lc = elim (Bool-cases (c == n + ndirect)) [
        | inl here ↦
            let e : c ≡ n + ndirect = ground (arith, here) in
            rw (here, addr_of-root entered c (omega arith), e) entry-entered
        | inr far ↦
            let ne : c ≢ n + ndirect = ground (arith, far) in
            elim (Bool-cases (ltb c ndirect)) [
              | inl below ↦ rw (far, addr_of, below) refl
              | inr above ↦
                  let lo : ndirect ≤ c = ground (arith, above) in
                  rw (far, addr_of-root entered c lo, addr_of-root f c lo) (entry-other c lo ne)
            ]
      ]

      entered-byte : (b o : ℕ) → entered.block b o < 256
      unfolding put_word
      entered-byte b o = ground (arith, al.marked.byte b o, al.marked.byte (ip.addrs ndirect) o)

      pub entered-Step : a ≢ 0 → Step sb (n + ndirect) f ip entered ip
      entered-Step pos = record {
        others = λ c lc ne. ground (arith, addr_of-entered c lc, ne);
        kept_addr = λ ln h. absurd (h unset);
        fresh = λ ln z h.
            let e : addr_of entered.block ip (n + ndirect) ≡ a =
              ground (arith, addr_of-entered (n + ndirect) ln) in
            let s : (a == ip.addrs ndirect) ≡ false =
              ne→== a _ (λ q. other-block sb g al (ip.addrs ndirect) root_InUse (sym q)) in
            subst
              (λ b.
                (b < sb.size)
                × (is_used sb f b ≡ false)
                × ((o : ℕ) → o < bsize → entered.block b o ≡ 0))
              (sym e) (al.high, al.was_free, rw s al.zeroed);
        content = entered-block;
        root = λ h. refl;
        root_new = λ z h. absurd (h z);
        mono = λ b u. entered_mono b (mono-alloc sb g al b u);
        same = refl;
        good = record {
          small = g.small;
          marked = Marked-frame sb al.marked entered (λ c lo h. entered-low c h) entered-byte;
          owned =
              Map-extend g.owned a pos (λ b u. entered_mono b (mono-alloc sb g al b u))
                (entered_mono a (new-InUse sb g al)) (other-block sb g al) (n + ndirect) unset
                (addr_of entered.block ip) addr_of-entered;
        };
      }
