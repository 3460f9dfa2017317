-- ===== src/Fs/Inodes/Table.antt =====
-- The table of inodes in memory of kernel/fs.c: `iget` finds or makes the one entry of an inode.
use cs202lab.Prelude.{
  ℕ, zero, suc, ◌+◌, ◌<◌, ◌≡◌, ◌≢◌, inl, inr, refl, sym, subst, true, false, Option, none, some,
  arith, ◌==◌, if◌then◌else◌, Bool-cases,
}
use cs202lab.Fs.Disk.{Inode, Fs}
use cs202lab.Fs.Inodes.{ninode, Slot, hit, miss, holds_inode, remember, find_slot, take_slot, iget}

module _ (dev inum : ℕ) (t : ℕ → Inode) where
  -- What is known of the entries before i when the loop has remembered `empty`.
  abbrev Seen : (i : ℕ) → Option ℕ → Type 0
  Seen i none = (c : ℕ) → c < i → (0 < (t c).ref) × (holds_inode dev inum (t c) ≡ false)
  Seen i (some e) =
      (e < i) × ((t e).ref ≡ 0) × ((c : ℕ) → c < i → holds_inode dev inum (t c) ≡ false)

  -- Where a search over the first n entries can stop.
  abbrev Stop : (n : ℕ) → Slot → Type 0
  Stop n (hit j) = (j < n) × (holds_inode dev inum (t j) ≡ true)
  Stop n (miss empty) = Seen n empty

  Seen-remember :
      (i : ℕ) (empty : Option ℕ)
      → Seen i empty
      → holds_inode dev inum (t i) ≡ false
      → Seen (i + 1) (remember empty i (t i))
  Seen-remember i (some e) (lt, z, h) other = (
    omega arith,
    z,
    λ c lo. elim (Bool-cases (c == i)) [
      | inl here ↦ let q : c ≡ i = ground (arith, here) in rw q other
      | inr before ↦ h c (ground (arith, before))
    ],
  )
  Seen-remember i none h other = elim (Bool-cases ((t i).ref == 0)) [
    | inl zero_ref ↦ rw zero_ref (
      omega arith,
      ground (arith, zero_ref),
      λ c lo. elim (Bool-cases (c == i)) [
        | inl here ↦ let q : c ≡ i = ground (arith, here) in rw q other
        | inr before ↦ (h c (ground (arith, before))).1
      ],
    )
    | inr taken ↦ rw taken (λ c lo. elim (Bool-cases (c == i)) [
      | inl here ↦ let q : c ≡ i = ground (arith, here) in rw q (ground (arith, taken), other)
      | inr before ↦ h c (ground (arith, before))
    ])
  ]

  find_slot-Stop :
      (k i : ℕ) (empty : Option ℕ) → Seen i empty → Stop (i + k) (find_slot k i empty dev inum t)
  unfolding find_slot
  find_slot-Stop zero i empty s =
      let e : i + 0 ≡ i = omega arith in subst (λ n. Seen n empty) (sym e) s
  find_slot-Stop (suc k) i empty s = elim (Bool-cases (holds_inode dev inum (t i))) [
    | inl here ↦ rw here (omega arith, here)
    | inr other ↦
        let ih = find_slot-Stop k (i + 1) _ (Seen-remember i empty s other) in
        let e : i + 1 + k ≡ i + suc k = omega arith in rw other (rw e at ih)
  ]

-- No inode has two entries in use.
abbrev pub Unique : Fs → Type 0
Unique f =
    (dev inum i j : ℕ)
    → i < ninode
    → j < ninode
    → holds_inode dev inum (f.itable i) ≡ true
    → holds_inode dev inum (f.itable j) ≡ true
    → i ≡ j

-- Entry i got one more reference to the inode, and no other entry changed.
pub record Got (dev inum : ℕ) (f : Fs) (i : ℕ) (f' : Fs) : Type 0 where
  pub index : i < ninode
  pub holds_it : holds_inode dev inum (f'.itable i) ≡ true
  pub count :
      (f'.itable i).ref ≡ (if holds_inode dev inum (f.itable i) then (f.itable i).ref + 1 else 1)
  pub fresh : holds_inode dev inum (f.itable i) ≡ false → (f.itable i).ref ≡ 0
  pub others : (j : ℕ) → j ≢ i → f'.itable j ≡ f.itable j
  pub blocks : f'.block ≡ f.block
  pub unique : Unique f'

-- Every entry is in use, for other inodes.
abbrev pub Full : (dev inum : ℕ) → Fs → Type 0
Full dev inum f =
    (c : ℕ) → c < ninode → (0 < (f.itable c).ref) × (holds_inode dev inum (f.itable c) ≡ false)

abbrev pub Gets : (dev inum : ℕ) → Fs → Option (ℕ × Fs) → Type 0
Gets dev inum f none = Full dev inum f
Gets dev inum f (some (i, f')) = Got dev inum f i f'

module _ (dev inum : ℕ) (f : Fs) (u : Unique f) where
  take_slot-Gets :
      (r : Slot) → Stop dev inum f.itable ninode r → Gets dev inum f (take_slot dev inum f r)
  unfolding take_slot
  take_slot-Gets (miss none) h = h
  take_slot-Gets (hit i) (lt, here) = record {
    index = lt;
    holds_it = ground (arith, here);
    count = ground (arith, here);
    fresh = λ other. absurd (cc);
    others = λ j ne. ground arith;
    blocks = refl;
    unique = λ d n a b la lb ha hb.
        u d n a b la lb (ground (arith, ha, here)) (ground (arith, hb, here));
  }
  take_slot-Gets (miss (some i)) (lt, z, none_holds) = record {
    index = lt;
    holds_it = ground arith;
    count = rw (none_holds i lt) (ground arith);
    fresh = λ other. z;
    others = λ j ne. ground arith;
    blocks = refl;
    unique = λ d n a b la lb ha hb.
        ground (arith, u d n a b la lb, none_holds a la, none_holds b lb, ha, hb);
  }

  -- `iget` panics only when every entry is in use for other inodes; otherwise it gives an entry that
  -- holds_inode the inode, the one that did or one that was free, with one more reference, and leaves the
  -- others; and still no inode has two entries.
  pub iget-Gets : Gets dev inum f (iget dev inum f)
  unfolding iget
  iget-Gets =
      take_slot-Gets _
        (find_slot-Stop dev inum f.itable ninode 0 none (λ c lt. absurd (omega arith)))
