-- ===== src/Fs/Content/Bmap.antt =====
-- All branches of `bmap` of kernel/fs.c.
use cs202lab.Prelude.{
  ℕ, ◌+◌, ◌-◌, ◌≤◌, ◌<◌, ◌≡◌, ◌≢◌, ◌↔◌, inl, inr, refl, ◌∙◌, ap, sym, subst, false, none, some,
  arith, ltb, lt→ltb, ◌==◌, ==→ne, Bool-cases,
}
use cs202lab.Fs.Disk.{Inode, Superblock, Fs}
use cs202lab.Fs.Bitmap.Marks.{is_used, data_start}
use cs202lab.Fs.Content.{
  ndirect, nindirect, maxfile, store_slot, addr_slot, store_entry, entry_slot, bmap,
}
use cs202lab.Fs.Content.Blocks.{addr_of, InUse, Good, or_new-OrNew}
use cs202lab.Fs.Content.Steps.{Step, addr_of-rootless}
use cs202lab.Fs.Content.Mapped.{Mapped, direct-Mapped, root-Mapped, entry-Mapped}

module _ (sb : Superblock) where
  module _ {bn : ℕ} {f f1 f2 : Fs} {ip ip1 ip2 : Inode} (ln : bn < maxfile)
      (s1 : Step sb maxfile f ip f1 ip1) (s2 : Step sb bn f1 ip1 f2 ip2)
      (is_set : ip1.addrs ndirect ≢ 0) where
    same-addr : (c : ℕ) → c < maxfile → addr_of f1.block ip1 c ≡ addr_of f.block ip c
    same-addr c lc = s1.others c lc (λ e. absurd (omega arith))

    still-unused : (a : ℕ) → a < sb.size → is_used sb f1 a ≡ false → is_used sb f a ≡ false
    still-unused a lt free = elim (Bool-cases (is_used sb f a)) [
      | inr unused ↦ unused
      | inl used ↦ elim (Bool-cases (ltb a (data_start sb))) [
        | inl below ↦ let r = s1.good.marked.reserved a (ground (arith, below)) in absurd (cc)
        | inr above ↦
            let u : InUse sb f a = record { low = ground (arith, above); high = lt; used = used } in
            let r = (s1.mono a u).used in absurd (cc)
      ]
    ]

    Step-trans : Step sb bn f ip f2 ip2
    Step-trans = record {
      others = λ c lc ne. s2.others c lc ne ∙ same-addr c lc;
      kept_addr = λ lt h. s2.kept_addr lt (λ z. h (sym (same-addr bn ln) ∙ z)) ∙ same-addr bn ln;
      fresh = λ lt z h.
          let (high, free, zeroed) = s2.fresh lt (same-addr bn ln ∙ z) h in
          (high, still-unused _ high free, zeroed);
      content = λ b u ne.
          s2.content b (s1.mono b u) ne ∙ s1.content b u (λ e. ne (e ∙ sym (s2.root is_set)));
      root = λ h. s2.root is_set ∙ s1.root h;
      root_new =
          λ z h. subst (λ b. is_used sb f b ≡ false) (sym (s2.root is_set)) (s1.root_new z is_set);
      mono = λ b u. s2.mono b (s1.mono b u);
      same = s2.same ∙ ap (λ (q : Inode). record q { addrs = ip2.addrs }) s1.same;
      good = s2.good;
    }

  module _ {bn : ℕ} {f f1 : Fs} {ip ip1 : Inode} (ln : bn < maxfile)
      (s1 : Step sb maxfile f ip f1 ip1) where
    -- A change to no block of the content is one to block bn at most.
    Step-narrow : Step sb bn f ip f1 ip1
    Step-narrow =
        let same : addr_of f1.block ip1 bn ≡ addr_of f.block ip bn =
          s1.others bn ln (λ e. absurd (omega arith)) in
        record {
          others = λ c lc ne. s1.others c lc (λ e. absurd (omega arith));
          kept_addr = λ lt h. same;
          fresh = λ lt z h. absurd (h (same ∙ z));
          content = s1.content;
          root = s1.root;
          root_new = s1.root_new;
          mono = s1.mono;
          same = s1.same;
          good = s1.good;
        }

  Mapped-narrow :
      (i bn : ℕ) {f f1 : Fs}
      → ndirect ≤ bn
      → bn < maxfile
      → Mapped sb i maxfile f 0 f1
      → (f1.itable i).addrs ndirect ≡ 0
      → Mapped sb i bn f 0 f1
  Mapped-narrow i bn {f} {f1} lo ln m z = record {
    addr = λ lt. addr_of-rootless f1.block (f1.itable i) bn lo z;
    full = m.full;
    step = Step-narrow ln m.step;
    others = m.others;
    pid = m.pid;
  }

  Mapped-trans :
      {i bn a1 a2 : ℕ} {f f1 f2 : Fs}
      → bn < maxfile
      → Mapped sb i maxfile f a1 f1
      → Mapped sb i bn f1 a2 f2
      → (f1.itable i).addrs ndirect ≢ 0
      → Mapped sb i bn f a2 f2
  Mapped-trans ln m1 m2 h = record {
    addr = m2.addr;
    full = m2.full;
    step = Step-trans ln m1.step m2.step h;
    others = λ j ne. m2.others j ne ∙ m1.others j ne;
    pid = m2.pid ∙ m1.pid;
  }

  addr_slot-direct :
      (i n : ℕ) (f : Fs)
      → Good sb f (f.itable i)
      → n < ndirect
      → Mapped sb i n f (addr_slot sb i n f).0 (addr_slot sb i n f).1
  unfolding addr_slot
  addr_slot-direct i n f g lt =
      direct-Mapped sb i g n lt (or_new-OrNew sb _ (store_slot i n) f g.marked)

  addr_slot-root :
      (i : ℕ) (f : Fs)
      → Good sb f (f.itable i)
      → let r = addr_slot sb i ndirect f in
        Mapped sb i maxfile f r.0 r.1 × ((r.1.itable i).addrs ndirect ≡ r.0)
  unfolding addr_slot
  addr_slot-root i f g = root-Mapped sb i g (or_new-OrNew sb _ (store_slot i ndirect) f g.marked)

  entry_slot-Mapped :
      (i n b : ℕ) (f : Fs)
      → Good sb f (f.itable i)
      → n < nindirect
      → (f.itable i).addrs ndirect ≡ b
      → b ≢ 0
      → let r = entry_slot sb i b n f in Mapped sb i (n + ndirect) f r.0 r.1
  unfolding entry_slot
  entry_slot-Mapped i n b f g lt e h =
      subst (λ b'. let r = entry_slot sb i b' n f in Mapped sb i (n + ndirect) f r.0 r.1) e
        (entry-Mapped sb i g n lt (λ z. h (sym e ∙ z))
          (or_new-OrNew sb _ (store_entry ((f.itable i).addrs ndirect) n) f g.marked))

  -- `bmap` panics exactly when the block number is out of range.
  pub bmap-panics : (i bn : ℕ) (f : Fs) → (bmap sb i bn f ≡ none) ↔ (maxfile ≤ bn)
  unfolding bmap
  bmap-panics i bn f = (λ e. ground (arith, e), λ h. ground (arith, h))

  -- In range, `bmap` gives the address of the block bn of the file as it is afterwards, with a new zeroed
  -- block where there was none, or 0 when all blocks of the device are in use. No other block of the
  -- file moves, and no block in use changes, but for the indirect block.
  pub bmap-Mapped :
      (i bn : ℕ) (f : Fs)
      → Good sb f (f.itable i)
      → bn < maxfile
      → (a : ℕ) × (f' : Fs) × (bmap sb i bn f ≡ some (a, f')) × Mapped sb i bn f a f'
  unfolding bmap
  bmap-Mapped i bn f g ln = elim (Bool-cases (ltb bn ndirect)) [
    | inl below ↦
        let lt : bn < ndirect = ground (arith, below) in
        rw (below, bmap) (_, _, refl, addr_slot-direct i bn f g lt)
    | inr above ↦
        let lo : ndirect ≤ bn = ground (arith, above) in
        let n = bn - ndirect in
        let lt : n < nindirect = omega arith in
        let (m, at) = addr_slot-root i f g in
        elim (Bool-cases ((addr_slot sb i ndirect f).0 == 0)) [
          | inl z ↦
              let z' : (addr_slot sb i ndirect f).0 ≡ 0 = ground (arith, z) in
              rw (above, lt→ltb n nindirect lt, z, bmap)
                (
                  0,
                  _,
                  refl,
                  Mapped-narrow i bn lo ln
                      (subst (λ a. Mapped sb i maxfile f a (addr_slot sb i ndirect f).1) z' m)
                      (at ∙ z'),
                )
          | inr h ↦
              rw (above, lt→ltb n nindirect lt, h, bmap)
                (
                  _,
                  _,
                  refl,
                  let f1 = (addr_slot sb i ndirect f).1 in
                      let b = (addr_slot sb i ndirect f).0 in
                      let r = entry_slot sb i b n f1 in
                      let pos : b ≢ 0 = ==→ne b 0 h in
                      let m2 = entry_slot-Mapped i n b f1 m.step.good lt at pos in
                      let e : n + ndirect ≡ bn = omega arith in
                      Mapped-trans ln m (subst (λ k. Mapped sb i k f1 r.0 r.1) e m2)
                        (λ z. pos (sym at ∙ z)),
                )
        ]
  ]
