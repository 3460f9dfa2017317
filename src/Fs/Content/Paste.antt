-- ===== src/Fs/Content/Paste.antt =====
-- A write into one block of a file of kernel/fs.c.
use cs202lab.Prelude.{
  ℕ, ◌+◌, ◌-◌, ◌*◌, ◌/◌, ◌%◌, ◌<◌, ◌≡◌, ◌≢◌, inl, inr, refl, ◌∙◌, sym, subst, ◌&&◌, arith, ltb, leb,
  ◌==◌, ==→eq, ==→ne, eq→==, ne→==, if◌then◌else◌, update, Bool-cases,
}
use cs202lab.Fs.Disk.{bsize, Inode, Superblock, Fs}
use cs202lab.Fs.Bitmap.Marks.{data_start}
use cs202lab.Fs.Bitmap.Frame.{is_used-frame, Marked-frame}
use cs202lab.Fs.Content.{ndirect, maxfile, paste}
use cs202lab.Fs.Content.Blocks.{addr_of, InUse, Good}
use cs202lab.Fs.Content.Mapped.{Map-mono}
use cs202lab.Fs.Content.Bytes.{byte_at}

module _ (sb : Superblock) {f : Fs} {ip : Inode} (g : Good sb f ip) (bn a : ℕ) (ln : bn < maxfile)
    (is_addr : addr_of f.block ip bn ≡ a) (pos : a ≢ 0) (o n : ℕ) (source : ℕ → ℕ) (src : ℕ)
    (byte : (q : ℕ) → source q < 256) (f' : Fs)
    (e : f'.block ≡ update f.block a (paste (f.block a) o n source src)) where
  a_InUse : InUse sb f a
  a_InUse = subst (InUse sb f) is_addr (g.owned.held bn ln (λ z. pos (sym is_addr ∙ z)))

  not_root : ip.addrs ndirect ≢ a
  not_root q = g.owned.apart bn ln (λ z. pos (sym is_addr ∙ z)) (is_addr ∙ sym q)

  paste-low : (b : ℕ) → b < data_start sb → f'.block b ≡ f.block b
  paste-low b h = rw e (rw (ne→== b a (λ q. absurd (omega (arith, a_InUse.low)))) refl)

  paste-byte : (b p : ℕ) → f'.block b p < 256
  unfolding paste
  paste-byte b p = rw e (ground (arith, g.marked.byte b p, g.marked.byte a p, byte (src + (p - o))))

  paste-InUse : (b : ℕ) → InUse sb f b → InUse sb f' b
  paste-InUse b u = record {
    low = u.low;
    high = u.high;
    used = is_used-frame sb g.marked f' (λ c lo h. paste-low c h) b u.high ∙ u.used;
  }

  -- The addresses stay, since the indirect block is not written,
  pub paste-addr : (c : ℕ) → addr_of f'.block ip c ≡ addr_of f.block ip c
  unfolding addr_of
  paste-addr c = rw (e, ne→== (ip.addrs ndirect) a not_root) refl

  pub paste-Good : Good sb f' ip
  paste-Good = record {
    small = g.small;
    marked = Marked-frame sb g.marked f' (λ c lo h. paste-low c h) paste-byte;
    owned =
        let m = Map-mono {V = InUse sb f'} paste-InUse g.owned in
        record {
          top = m.top;
          held = λ c lc h. rw (paste-addr c) (m.held c lc (λ z. h (paste-addr c ∙ z)));
          apart = λ c lc h. rw (paste-addr c) (m.apart c lc (λ z. h (paste-addr c ∙ z)));
          distinct = λ c d lc ld h q.
              m.distinct c d lc ld (λ z. h (paste-addr c ∙ z))
                (sym (paste-addr c) ∙ q ∙ paste-addr d);
        };
  }

  -- and the bytes o to o + n of block bn are new.
  pub byte_at-paste :
      (p : ℕ)
      → p < maxfile * bsize
      → byte_at f'.block ip p ≡ (
          if (p / bsize == bn) && (leb o (p % bsize) && ltb (p % bsize) (o + n))
          then source (src + (p % bsize - o))
          else byte_at f.block ip p)
  unfolding byte_at paste
  byte_at-paste p lp = elim (Bool-cases (p / bsize == bn)) [
    | inl here ↦
        let q : p / bsize ≡ bn = ==→eq (p / bsize) bn here in
        rw (paste-addr (p / bsize), q, is_addr, ne→== a 0 pos, e, eq→== a a refl, eq→== bn bn refl)
          refl
    | inr far ↦
        rw (paste-addr (p / bsize), far, e)
          (ground (
            arith,
            g.owned.distinct (p / bsize) bn (omega arith) ln,
            ==→ne (p / bsize) bn far,
            is_addr,
          ))
  ]
