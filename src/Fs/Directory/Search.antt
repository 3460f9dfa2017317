-- ===== src/Fs/Directory/Search.antt =====
-- `dirlookup` of kernel/fs.c: the first entry of a directory with a name.
use cs202lab.Prelude.{
  ℕ, zero, suc, ◌+◌, ◌*◌, ◌/◌, ◌%◌, ◌≤◌, ◌<◌, ◌≡◌, ◌≢◌, inl, inr, refl, ◌∙◌, ap, sym, subst, Bool,
  true, false, not, ◌&&◌, ◌||◌, Option, none, some, List, get_or, arith, ltb, ◌==◌, ==→eq, ==→ne,
  Bool-cases,
}
use cs202lab.Prelude.Fallible.{◌>>=◌}
use cs202lab.Fs.Disk.{bsize, Block, Inode, Superblock, Fs}
use cs202lab.Fs.Inodes.{iget}
use cs202lab.Fs.Inodes.Table.{Unique, Full, Got, Gets, iget-Gets}
use cs202lab.Fs.Content.{maxfile, slice}
use cs202lab.Fs.Directory.{
  t_dir, dirent_size, char_at, namecmp, de_inum, de_name, dirlookup_loop, dirlookup,
}
use cs202lab.Fs.Directory.Names.{namecmp-ext}
use cs202lab.Fs.Directory.Lookup.{
  at, entry_inum, entry_name, IsDirectory, SameDirectory, read_entry-SameDirectory,
}
use cs202lab.Fs.Inodes.{holds_inode}

de_morgan : (z m : Bool) → z || not m ≡ not (not z && m)
de_morgan z m = ground arith

get_or-slice : (n k : ℕ) (d : Block) (o : ℕ) → k < n → get_or (slice n d o) k 0 ≡ d (o + k)
unfolding slice
get_or-slice zero k d o lt = absurd (omega arith)
get_or-slice (suc n) zero d o lt = let e : o + 0 ≡ o = omega arith in rw e refl
get_or-slice (suc n) (suc k) d o lt =
    let e : o + 1 + k ≡ o + suc k = omega arith in get_or-slice n k d (o + 1) (omega arith) ∙ ap d e

module _ (sb : Superblock) (d : ℕ) (name : List ℕ) where
  -- The entry at off is in use and has the name.
  abbrev pub matches : Fs → ℕ → Bool
  matches f off = not (entry_inum sb d f off == 0) && namecmp (char_at name) (entry_name sb d f off)

  de_inum-slice :
      (f : Fs) (off : ℕ) → de_inum (slice dirent_size (at sb d f) off) ≡ entry_inum sb d f off
  de_inum-slice f off =
      let z : off + 0 ≡ off = omega arith in
      rw
        (
          get_or-slice dirent_size 0 (at sb d f) off (omega arith),
          get_or-slice dirent_size 1 (at sb d f) off (omega arith),
          z,
        )
        refl

  -- The test of the loop, on the bytes of the entry.
  skips :
      (f : Fs) (off : ℕ)
      → let de = slice dirent_size (at sb d f) off in
        (de_inum de == 0) || not (namecmp (char_at name) (de_name de)) ≡ not (matches f off)
  skips f off =
      let de = slice dirent_size (at sb d f) off in
      let e = namecmp-ext (char_at name) (de_name de) (entry_name sb d f off) (λ j lt.
        let q : off + (2 + j) ≡ off + 2 + j = omega arith in
        get_or-slice dirent_size (2 + j) (at sb d f) off (omega arith) ∙ ap (at sb d f) q) in
      rw (de_inum-slice f off, e)
        (de_morgan (entry_inum sb d f off == 0) (namecmp (char_at name) (entry_name sb d f off)))

  matches-same :
      {f g : Fs} (off : ℕ)
      → SameDirectory sb d f g
      → off + dirent_size ≤ maxfile * bsize
      → matches g off ≡ matches f off
  matches-same {f} {g} off s fits =
      let e =
        namecmp-ext (char_at name) (entry_name sb d g off) (entry_name sb d f off)
          (λ j lt. s.bytes (off + 2 + j) (omega arith)) in
      rw (s.bytes off (omega arith), s.bytes (off + 1) (omega arith), e) refl

  SameDirectory-refl : {f : Fs} → IsDirectory sb d f → SameDirectory sb d f f
  SameDirectory-refl h = record {
    directory = h;
    bytes = λ p lp. refl;
    same = refl;
    others = λ j ne. refl;
  }

  SameDirectory-trans :
      {f g h : Fs} → SameDirectory sb d f g → SameDirectory sb d g h → SameDirectory sb d f h
  SameDirectory-trans {h = h} s t = record {
    directory = t.directory;
    bytes = λ p lp. t.bytes p lp ∙ s.bytes p lp;
    same = t.same ∙ ap (λ (q : Inode). record q { addrs = (h.itable d).addrs }) s.same;
    others = λ j ne. t.others j ne ∙ s.others j ne;
  }

  SameDirectory-Unique : {f g : Fs} → SameDirectory sb d f g → Unique f → Unique g
  SameDirectory-Unique {f} {g} s u = λ dev inum i j li lj hi hj.
      u dev inum i j li lj (sym (same_holds dev inum i) ∙ hi) (sym (same_holds dev inum j) ∙ hj)
    where
      same_holds :
          (dev inum i : ℕ) → holds_inode dev inum (g.itable i) ≡ holds_inode dev inum (f.itable i)
      same_holds dev inum i = elim (Bool-cases (i == d)) [
        | inl here ↦ let e = ==→eq i d here in rw e (ap (holds_inode dev inum) s.same)
        | inr far ↦ ap (holds_inode dev inum) (s.others i (==→ne i d far))
      ]

  -- The first entry with the name from offset `start` on is at off.
  pub record First (f : Fs) (start off : ℕ) : Type 0 where
    pub low : start ≤ off
    pub high : off < (f.itable d).size
    pub aligned : off % dirent_size ≡ 0
    pub matched : matches f off ≡ true
    pub before : (o : ℕ) → start ≤ o → o < off → o % dirent_size ≡ 0 → matches f o ≡ false

  abbrev pub Looks : (f : Fs) (start : ℕ) → Option (Option (ℕ × ℕ) × Fs) → Type 0
  Looks f start none =
      (off : ℕ) × (g : Fs) × First f start off
      × SameDirectory sb d f g
      × Full (f.itable d).dev (entry_inum sb d f off) g
  Looks f start (some (none, g)) =
      ((o : ℕ) → start ≤ o → o < (f.itable d).size → o % dirent_size ≡ 0 → matches f o ≡ false)
      × SameDirectory sb d f g
  Looks f start (some (some (j, off), g')) =
      (g : Fs) × First f start off
      × SameDirectory sb d f g
      × Got (f.itable d).dev (entry_inum sb d f off) g j g'

  dev-same : {f g : Fs} → SameDirectory sb d f g → (g.itable d).dev ≡ (f.itable d).dev
  dev-same s = ap (λ (q : Inode). q.dev) s.same

  size-same : {f g : Fs} → SameDirectory sb d f g → (g.itable d).size ≡ (f.itable d).size
  size-same s = ap (λ (q : Inode). q.size) s.same

  -- The entry at off was read, and it does not match.
  module _ (off : ℕ) {f g : Fs} (h : IsDirectory sb d f) (s : SameDirectory sb d f g)
      (aligned : off % dirent_size ≡ 0) (other : matches f off ≡ false) where
    back : (o : ℕ) → o < (f.itable d).size → o % dirent_size ≡ 0 → matches g o ≡ matches f o
    back o lt al = matches-same o s (omega (arith, h.whole, h.fits))

    no_match :
        (limit : ℕ)
        → limit ≤ (f.itable d).size
        → ((o : ℕ) → off + dirent_size ≤ o → o < limit → o % dirent_size ≡ 0 → matches g o ≡ false)
        → (o : ℕ) → off ≤ o
        → o < limit
        → o % dirent_size ≡ 0
        → matches f o ≡ false
    no_match limit in_size k o lo hi al = elim (Bool-cases (o == off)) [
      | inl here ↦ let e = ==→eq o off here in rw e other
      | inr far ↦
          let ne : o ≢ off = ==→ne o off far in
          sym (back o (omega arith) al) ∙ k o (omega arith) hi al
    ]

    First-next : (o : ℕ) → First g (off + dirent_size) o → First f off o
    First-next o w =
        let lt : o < (f.itable d).size = omega (arith, size-same s, w.high) in
        record {
          low = omega (arith, w.low);
          high = lt;
          aligned = w.aligned;
          matched = sym (back o lt w.aligned) ∙ w.matched;
          before = no_match o (omega arith) w.before;
        }

    inum-next : (o : ℕ) → First g (off + dirent_size) o → entry_inum sb d g o ≡ entry_inum sb d f o
    inum-next o w =
        let lt : o + dirent_size ≤ maxfile * bsize =
          omega (arith, size-same s, w.high, w.aligned, h.whole, h.fits) in
        rw (s.bytes o (omega arith), s.bytes (o + 1) (omega arith)) refl

    Looks-next : (r : Option (Option (ℕ × ℕ) × Fs)) → Looks g (off + dirent_size) r → Looks f off r
    Looks-next none (o, g', w, t, full) = (
      o,
      g',
      First-next o w,
      SameDirectory-trans s t,
      subst (λ n. Full n (entry_inum sb d f o) g') (dev-same s)
          (subst (λ n. Full (g.itable d).dev n g') (inum-next o w) full),
    )
    Looks-next (some (none, g')) (k, t) = (
      no_match (f.itable d).size (omega arith)
          (λ o lo hi al. k o lo (omega (arith, size-same s)) al),
      SameDirectory-trans s t,
    )
    Looks-next (some (some (j, o), g')) (g1, w, t, got) = (
      g1,
      First-next o w,
      SameDirectory-trans s t,
      subst (λ n. Got n (entry_inum sb d f o) g1 j g') (dev-same s)
          (subst (λ n. Got (g.itable d).dev n g1 j g') (inum-next o w) got),
    )

  -- The entry at off matches.
  module _ (off : ℕ) {f g : Fs} (s : SameDirectory sb d f g) (w : First f off off) where
    Looks-found :
        (r : Option (ℕ × Fs))
        → Gets (f.itable d).dev (entry_inum sb d f off) g r
        → Looks f off (r >>= (λ p. some (some (p.0, off), p.1)))
    Looks-found none full = (off, g, w, s, full)
    Looks-found (some (j, g')) got = (g, w, s, got)

    iget-Looks :
        Unique f
        → Looks f off (
            iget (g.itable d).dev (de_inum (slice dirent_size (at sb d f) off)) g
            >>= (λ p. some (some (p.0, off), p.1)))
    iget-Looks u =
        rw (de_inum-slice f off, dev-same s)
          (Looks-found (iget (f.itable d).dev (entry_inum sb d f off) g)
            (iget-Gets (f.itable d).dev (entry_inum sb d f off) g (SameDirectory-Unique s u)))

  dirlookup_loop-Looks :
      (k off : ℕ) (f : Fs)
      → IsDirectory sb d f
      → Unique f
      → off % dirent_size ≡ 0
      → (f.itable d).size ≤ off + k * dirent_size
      → Looks f off (dirlookup_loop sb d name k off f)
  unfolding dirlookup_loop
  dirlookup_loop-Looks zero off f h u al fuel =
      (λ o lo hi al'. absurd (omega arith), SameDirectory-refl h)
  dirlookup_loop-Looks (suc k) off f h u al fuel = elim (Bool-cases (ltb off (f.itable d).size)) [
    | inr past ↦
        let ge : (f.itable d).size ≤ off = ground (arith, past) in
        rw (past, dirlookup_loop) (λ o lo hi al'. absurd (omega arith), SameDirectory-refl h)
    | inl inside ↦
        let lt : off < (f.itable d).size = ground (arith, inside) in
        let (g, e, s) = read_entry-SameDirectory sb d off f h al lt in
        let more = size-same s in
        elim (Bool-cases (matches f off)) [
          | inr other ↦
              rw (inside, dirlookup_loop, e, skips f off, other)
                (Looks-next off h s al other _ (
                  dirlookup_loop-Looks k (off + dirent_size) g s.directory
                    (SameDirectory-Unique s u) (omega arith) (omega arith)))
          | inl hit ↦
              let w : First f off off = record {
                low = omega arith;
                high = lt;
                aligned = al;
                matched = hit;
                before = λ o lo hi al'. absurd (omega arith);
              } in
              rw (inside, dirlookup_loop, e, skips f off, hit) (iget-Looks off s w u)
        ]
  ]

  -- `dirlookup` of a directory looks at every entry in use. It gives 0 exactly when none has the name; with
  -- the first that has it gives its offset and an entry of the table for its inode, with one more
  -- reference; it panics only when the table has no entry left. The directory keeps its bytes.
  pub dirlookup-Looks :
      (f : Fs)
      → IsDirectory sb d f
      → Unique f
      → (f.itable d).type ≡ t_dir
      → Looks f 0 (dirlookup sb d name f)
  unfolding dirlookup
  dirlookup-Looks f h u t =
      rw (t, dirlookup)
        (dirlookup_loop-Looks ((f.itable d).size / dirent_size + 1) 0 f h u refl (omega arith))
