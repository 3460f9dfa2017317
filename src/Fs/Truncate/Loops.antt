-- ===== src/Fs/Truncate/Loops.antt =====
-- The loops of `itrunc` of kernel/fs.c over the blocks of a file.
use cs202lab.Prelude.{
  ℕ, zero, suc, ◌+◌, ◌*◌, ◌≤◌, ◌<◌, ◌≡◌, ◌≢◌, inl, inr, refl, ◌∙◌, ap, sym, subst, false, ◌||◌,
  some, arith, ltb, ◌==◌, ==→eq, ==→ne, Bool-cases,
}
use cs202lab.Fs.Disk.{Block, word, Superblock, Fs}
use cs202lab.Fs.Bitmap.Marks.{data_start}
use cs202lab.Fs.Content.{ndirect, nindirect, maxfile, store_slot}
use cs202lab.Fs.Content.Blocks.{addr_of, InUse, Good}
use cs202lab.Fs.Content.Steps.{addr_of-below_eq, addr_of-above}
use cs202lab.Fs.Truncate.{free_direct, free_entries}
use cs202lab.Fs.Truncate.Freeing.{among, among-false}
use cs202lab.Fs.Truncate.Cleared.{Cleared, Cleared-gone, free-Cleared, free-slot}

module _ (sb : Superblock) (i : ℕ) (f : Fs) (g : Good sb f (f.itable i)) where
  abbrev pub A : ℕ → ℕ
  A = addr_of f.block (f.itable i)

  abbrev root : ℕ
  root = (f.itable i).addrs ndirect

  A-still : (c : ℕ) → c < maxfile → A c ≢ 0 → among A c (A c) ≡ false
  A-still c lc h = among-false A c (A c) (λ d ld e.
      let q = g.owned.distinct d c (omega arith) lc (λ z. h (sym e ∙ z)) e in
      absurd (omega (arith, q)))

  among-next : (j c : ℕ) → data_start sb ≤ c → A j ≡ 0 → among A j c ≡ among A (suc j) c
  unfolding among
  among-next j c lo z = ground (arith, z, lo)

  among-step : (j c a : ℕ) → a ≡ A j → (c == a) || among A j c ≡ among A (suc j) c
  unfolding among
  among-step j c a e = rw e refl

  pub free_direct-Cleared :
      (k j : ℕ) (h : Fs)
      → j + k ≤ ndirect
      → Cleared sb i (among A j) (λ c. ltb c j) f h
      → (h' : Fs) × (free_direct sb i k j h ≡ some h')
        × Cleared sb i (among A (j + k)) (λ c. ltb c (j + k)) f h'
  unfolding free_direct
  free_direct-Cleared zero j h le w = let e : j + 0 ≡ j = omega arith in (h, refl, rw e w)
  free_direct-Cleared (suc k) j h le w =
      let here : (h.itable i).addrs j ≡ (f.itable i).addrs j = ground (arith, w.addrs j) in
      let is_A : A j ≡ (f.itable i).addrs j =
        addr_of-below_eq f.block (f.itable i) j (omega arith) in
      let a = (h.itable i).addrs j in
      let e : suc j + k ≡ j + suc k = omega arith in
      let q : j + 1 ≡ suc j = omega arith in
      elim (Bool-cases (a == 0)) [
        | inl z ↦
            let z' : a ≡ 0 = ==→eq a 0 z in
            let w' : Cleared sb i (among A (suc j)) (λ c. ltb c (suc j)) f h =
              Cleared-gone sb i (λ c lo. among-next j c lo (is_A ∙ sym here ∙ z'))
                (λ c. ground (arith, here, z')) w in
            let (h', r, v) = free_direct-Cleared k (suc j) h (omega arith) w' in
            (h', rw (z, free_direct, q) r, rw e at v)
        | inr n ↦
            let n' : a ≢ 0 = ==→ne a 0 n in
            let u : InUse sb f a =
              subst (InUse sb f) (is_A ∙ sym here)
                (g.owned.held j (omega arith) (λ z. n' (here ∙ sym is_A ∙ z))) in
            let still : among A j a ≡ false =
              subst (λ b. among A j b ≡ false) (is_A ∙ sym here)
                (A-still j (omega arith) (λ z. n' (here ∙ sym is_A ∙ z))) in
            let (h1, r1, w1) = free-slot sb i w a u still j in
            let w' : Cleared sb i (among A (suc j)) (λ c. ltb c (suc j)) f (store_slot i j 0 h1) =
              Cleared-gone sb i (λ c lo. among-step j c a (here ∙ sym is_A)) (λ c. ground arith)
                w1 in
            let (h', r, v) = free_direct-Cleared k (suc j) (store_slot i j 0 h1) (omega arith) w' in
            (h', rw (n, free_direct, r1, q) r, rw e at v)
      ]

  -- The entries of the indirect block follow the direct blocks.
  module _ (is_set : root ≢ 0) where
    root_InUse : InUse sb f root
    root_InUse = g.owned.top is_set

    pub free_entries-Cleared :
        (k j : ℕ) (h : Fs)
        → j + k ≤ nindirect
        → Cleared sb i (among A (j + ndirect)) (λ c. ltb c ndirect) f h
        → (h' : Fs) × (free_entries sb i k j root h ≡ some h')
          × Cleared sb i (among A (j + k + ndirect)) (λ c. ltb c ndirect) f h'
    unfolding free_entries
    free_entries-Cleared zero j h le w = let e : j + 0 ≡ j = omega arith in (h, refl, rw e w)
    free_entries-Cleared (suc k) j h le w =
        let a = word (h.block root) (4 * j) in
        let is_A : A (j + ndirect) ≡ a =
          addr_of-above f.block (f.itable i) j is_set
          ∙ ap (λ (d : Block). word d (4 * j)) (sym (w.freeing.blocks root root_InUse.low)) in
        let e : suc j + k ≡ j + suc k = omega arith in
        let q : j + 1 ≡ suc j = omega arith in
        let p : suc (j + ndirect) ≡ suc j + ndirect = omega arith in
        elim (Bool-cases (a == 0)) [
          | inl z ↦
              let w' : Cleared sb i (among A (suc (j + ndirect))) (λ c. ltb c ndirect) f h =
                Cleared-gone sb i (λ c lo. among-next (j + ndirect) c lo (is_A ∙ ==→eq a 0 z))
                  (λ c. refl) w in
              let (h', r, v) = free_entries-Cleared k (suc j) h (omega arith) (rw p at w') in
              (h', rw (z, free_entries, q) r, rw e at v)
          | inr n ↦
              let n' : A (j + ndirect) ≢ 0 = λ z. ==→ne a 0 n (sym is_A ∙ z) in
              let u : InUse sb f a =
                subst (InUse sb f) is_A (g.owned.held (j + ndirect) (omega arith) n') in
              let still : among A (j + ndirect) a ≡ false =
                subst (λ b. among A (j + ndirect) b ≡ false) is_A
                  (A-still (j + ndirect) (omega arith) n') in
              let (h1, r1, w1) = free-Cleared sb i w a u still in
              let w' : Cleared sb i (among A (suc (j + ndirect))) (λ c. ltb c ndirect) f h1 =
                Cleared-gone sb i (λ c lo. among-step (j + ndirect) c a (sym is_A)) (λ c. refl)
                  w1 in
              let (h', r, v) = free_entries-Cleared k (suc j) h1 (omega arith) (rw p at w') in
              (h', rw (n, free_entries, r1, q) r, rw e at v)
        ]
