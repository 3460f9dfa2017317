-- ===== src/Fs/Directory/Lookup.antt =====
-- Reading an entry of a directory of kernel/fs.c.
use cs202lab.Prelude.{
  ℕ, ◌+◌, ◌-◌, ◌*◌, ◌/◌, ◌%◌, ◌≤◌, ◌<◌, ◌≡◌, ◌≢◌, inl, inr, refl, ◌∙◌, ap, sym, subst, true, Option,
  none, some, List, arith, ◌==◌, ==→eq, ==→ne, if◌then◌else◌, Bool-cases, min,
}
use cs202lab.Prelude.Fallible.{◌>>=◌}
use cs202lab.Fs.Disk.{bsize, Inode, Superblock, Fs}
use cs202lab.Fs.Content.{maxfile, slice, readi}
use cs202lab.Fs.Content.Blocks.{addr_of, Good}
use cs202lab.Fs.Content.Bytes.{byte_at}
use cs202lab.Fs.Content.Reads.{Stop, all, no_block, no_copy}
use cs202lab.Fs.Content.Reads
use cs202lab.Fs.Content.Readi.{readi-Got}
use cs202lab.Fs.Directory.{dirent_size, is_entry_size, read_entry}

abbrev entry_of : Option ℕ × List ℕ × Fs → Option (List ℕ × Fs)
entry_of (r, de, g) = if is_entry_size r then some (de, g) else none

module _ (sb : Superblock) (d : ℕ) where
  abbrev pub at : Fs → ℕ → ℕ
  at f p = byte_at f.block (f.itable d) p

  -- The number and the name of the entry at off.
  abbrev pub entry_inum : Fs → ℕ → ℕ
  entry_inum f off = at f off + 256 * at f (off + 1)

  abbrev pub entry_name : Fs → ℕ → ℕ → ℕ
  entry_name f off k = at f (off + 2 + k)

  -- A directory of whole entries, with a block for each of them.
  pub record IsDirectory (f : Fs) : Type 0 where
    pub good : Good sb f (f.itable d)
    pub whole : (f.itable d).size % dirent_size ≡ 0
    pub fits : (f.itable d).size ≤ maxfile * bsize
    pub no_hole : (c : ℕ) → c * bsize < (f.itable d).size → addr_of f.block (f.itable d) c ≢ 0

  -- Reading moves no byte of the directory and no other inode.
  pub record SameDirectory (f g : Fs) : Type 0 where
    pub directory : IsDirectory g
    pub bytes : (p : ℕ) → p < maxfile * bsize → at g p ≡ at f p
    pub same : g.itable d ≡ record (f.itable d) { addrs = (g.itable d).addrs }
    pub others : (j : ℕ) → j ≢ d → g.itable j ≡ f.itable j

  module _ (off : ℕ) (f : Fs) (h : IsDirectory f) (aligned : off % dirent_size ≡ 0)
      (lt : off < (f.itable d).size) where
    -- A read inside a block that is there gives all 16 bytes.
    full-entry :
        {x : Option (Option ℕ × List ℕ × Fs)}
        → (r : Reads.Got sb d (λ dst m. true) 0 dirent_size off 0 f x) → {v : Option ℕ}
        → Stop sb d (λ dst m. true) dirent_size off 0 0 r.got r.fs v
        → (v ≡ some dirent_size) × (r.got ≡ dirent_size)
    full-entry r (all e g) = (ap some (omega (arith, e, g)), g)
    full-entry r (no_copy m le e) = absurd (cc)
    full-entry r (no_block e z full) = elim (Bool-cases (r.got == dirent_size)) [
      | inl g ↦ let g' = ==→eq r.got dirent_size g in (ap some (omega (arith, e, g')), g')
      | inr more ↦
          let c = (off + r.got) / bsize in
          let less : r.got ≢ dirent_size = ==→ne r.got dirent_size more in
          let there : addr_of f.block (f.itable d) c ≢ 0 =
            h.no_hole c (omega (arith, h.whole, r.some_of)) in
          absurd (there (sym (r.held c (omega (arith, h.whole, h.fits, r.some_of)) there) ∙ z))
    ]

    Got-SameDirectory :
        {x : Option (Option ℕ × List ℕ × Fs)}
        → (r : Reads.Got sb d (λ dst m. true) 0 dirent_size off 0 f x) → SameDirectory f r.fs
    Got-SameDirectory r =
        let e : (r.fs.itable d).size ≡ (f.itable d).size = ap (λ (q : Inode). q.size) r.same in
        record {
          directory = record {
            good = r.good;
            whole = rw e h.whole;
            fits = rw e h.fits;
            no_hole = λ c lc.
                let there = h.no_hole c (rw e at lc) in
                let lc' : c < maxfile = omega (arith, e, lc, h.fits) in
                λ z. there (sym (r.held c lc' there) ∙ z);
          };
          bytes = r.bytes;
          same = r.same;
          others = r.others;
        }

    read_entry-Got :
        {x : Option (Option ℕ × List ℕ × Fs)}
        → (r : Reads.Got sb d (λ dst m. true) 0 dirent_size off 0 f x)
        → (x >>= entry_of ≡ some (slice dirent_size (at f) off, r.fs))
    read_entry-Got r = let (v, g) = full-entry r r.stop in rw (r.result, v, g) refl

    pub read_entry-SameDirectory :
        (g : Fs) × (read_entry sb d off f ≡ some (slice dirent_size (at f) off, g))
        × SameDirectory f g
    unfolding read_entry
    read_entry-SameDirectory =
        let r =
          readi-Got sb d (λ dst m. true) 0 off dirent_size f h.good h.fits (omega arith)
            (omega (arith, h.fits)) in
        let e : min dirent_size ((f.itable d).size - off) ≡ dirent_size = omega (arith, h.whole) in
        let r' =
          subst
            (λ n.
              Reads.Got sb d (λ dst m. true) 0 n off 0 f
                (readi sb d (λ dst m. true) 0 off dirent_size f))
            e r in
        (r'.fs, read_entry-Got r', Got-SameDirectory r')
