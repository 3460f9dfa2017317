-- ===== src/Fs/FilePath/Fuel.antt =====
-- The loop of `namex` of kernel/fs.c ends: every round takes an element from the path.
use cs202lab.Prelude.{
  ℕ, zero, suc, ◌+◌, ◌<◌, ◌≡◌, refl, Bool, ◌&&◌, Option, none, some, List, [], arith, length, inl,
  inr, Option-cases, Bool-cases, ◌==◌, if◌then◌else◌,
}
use cs202lab.Fs.Disk.{Superblock, Fs}
use cs202lab.Fs.Inodes.{ilock, iget, idup}
use cs202lab.Fs.Truncate.{iunlockput}
use cs202lab.Fs.Directory.{t_dir, dirlookup}
use cs202lab.Fs.FilePath.{
  Ending, Found, skipelem, move_on, descend, walk, namex, is_end, starts_at_root,
}
use cs202lab.Fs.FilePath.Elements.{skipelem-shorter}

-- The loop came to its end.
abbrev pub Ends : {A : Type 0} → Ending A → Type 0
Ends {A} e = (o : Option A) × (e ≡ Ending.ended o)

module _ (sb : Superblock) (parent : Bool) where
  move_on-Ends :
      (ip : ℕ) (g : Fs) (next : Fs → Ending (Found sb))
      → ((h : Fs) → Ends (next h))
      → Ends (move_on sb ip g next)
  unfolding move_on
  move_on-Ends ip g next ends = elim (Option-cases (iunlockput sb ip g)) [
    | inl stop ↦ rw (move_on, stop) (none, refl)
    | inr (h, e) ↦ rw (move_on, e) (ends h)
  ]

  descend-Ends :
      (ip : ℕ) (rest name : List ℕ) (f : Fs) (next : ℕ → Fs → Ending (Found sb))
      → ((j : ℕ) (h : Fs) → Ends (next j h))
      → Ends (descend sb parent ip rest name f next)
  unfolding descend
  descend-Ends ip rest name f next ends = elim (Bool-cases ((f.itable ip).type == t_dir)) [
    | inr file ↦ rw (descend, file) (_, refl)
    | inl dir ↦ elim (Bool-cases (parent && is_end rest)) [
      | inl last ↦ rw (descend, dir, last) (_, refl)
      | inr more ↦ elim (Option-cases (dirlookup sb ip name f)) [
        | inl stop ↦ rw (descend, dir, more, stop) (none, refl)
        | inr ((none, g), e) ↦ rw (descend, dir, more, e) (_, refl)
        | inr ((some (j, off), g), e) ↦
            rw (descend, dir, more, e) (move_on-Ends ip g (λ h. next j h) (λ h. ends j h))
      ]
    ]
  ]

  -- With more rounds than the path has bytes.
  walk-Ends :
      (k ip : ℕ) (path name : List ℕ) (f : Fs)
      → length path < k
      → Ends (walk sb k parent ip path name f)
  unfolding walk
  walk-Ends zero ip path name f lt = absurd (omega arith)
  walk-Ends (suc k) ip path name f lt = elim (Option-cases (skipelem path)) [
    | inl over ↦ rw (walk, over) (_, refl)
    | inr ((rest, elem), e) ↦
        let shorter = skipelem-shorter path rest elem e in
        elim (Option-cases (ilock sb (some ip) f)) [
          | inl stop ↦ rw (walk, e, stop) (none, refl)
          | inr (g, locked) ↦
              rw (walk, e, locked)
                (descend-Ends ip rest elem g (λ j h. walk sb k parent j rest elem h)
                  (λ j h. walk-Ends k j rest elem h (omega arith)))
        ]
  ]

  -- `namex` ends on every path: its loop never lacks a round, of which it has one more than the path
  -- has bytes.
  pub namex-Ends : (path : List ℕ) (f : Fs) → Ends (namex sb path parent f)
  unfolding namex
  namex-Ends path f =
      elim (Option-cases (if starts_at_root path then iget 1 1 f else some (f.cwd, idup f.cwd f))) [
        | inl stop ↦ rw (namex, stop) (none, refl)
        | inr ((ip, g), e) ↦ rw (namex, e) (walk-Ends (length path + 1) ip path [] g (omega arith))
      ]
