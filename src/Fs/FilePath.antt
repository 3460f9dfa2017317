-- ===== src/Fs/FilePath.antt =====
-- Path names of kernel/fs.c. A path is the list of its bytes in front of the NUL.
pub mod Elements
pub mod Fuel
use cs202lab.Prelude.{
  ℕ, zero, suc, ◌+◌, Bool, true, false, not, ◌&&◌, ◌||◌, Option, none, some, List, [], ◌∷◌, take,
  length, ◌==◌, if◌then◌else◌,
}
use cs202lab.Prelude.Fallible.{◌>>=◌}
use cs202lab.Fs.Disk.{Inode, Superblock, Fs}
use cs202lab.Fs.Inodes.{iget, idup, ilock, iunlock}
use cs202lab.Fs.Truncate.{iput, iunlockput}
use cs202lab.Fs.Directory.{t_dir, dirsiz, dirlookup}

abbrev pub slash : ℕ
slash = 47

unfoldable pub skip_slashes : List ℕ → List ℕ
skip_slashes [] = []
skip_slashes (c ∷ cs) = let rest = skip_slashes cs in if c == slash then rest else c ∷ cs

-- The bytes up to the next slash, and the rest.
unfoldable pub element : List ℕ → List ℕ × List ℕ
element [] = ([], [])
element (c ∷ cs) = let (e, rest) = element cs in if c == slash then ([], c ∷ cs) else (c ∷ e, rest)

abbrev pub is_end : List ℕ → Bool
is_end [] = true
is_end (c ∷ cs) = false

-- The rest of the path and the name, which is cut to DIRSIZ bytes.
unfoldable pub skipelem : List ℕ → Option (List ℕ × List ℕ)
skipelem path =
    let s = skip_slashes path in
    let r = element s in if is_end s then none else some (skip_slashes r.1, take dirsiz r.0)

abbrev pub starts_at_root : List ℕ → Bool
starts_at_root [] = false
starts_at_root (c ∷ cs) = c == slash

-- How a call ends: with a result, or in a panic or a sleep, which are `ended none`; or the loop has no
-- round left, which never happens.
pub data Ending (A : Type 0) : Type 0 where
  ended : Option A → Ending A
  out_of_rounds : Ending A

module _ (sb : Superblock) where
  -- An inode, or the null pointer, and the name that `skipelem` left.
  abbrev pub Found : Type 0
  Found = Option ℕ × List ℕ × Fs

  -- `iunlockput(ip); return 0`
  abbrev pub give_up : ℕ → List ℕ → Fs → Option Found
  give_up ip name f = iunlockput sb ip f >>= (λ g. some (none, name, g))

  -- `iunlockput(ip); ip = next`, with the rounds after it.
  unfoldable pub move_on : (ip : ℕ) → Fs → (Fs → Ending Found) → Ending Found
  move_on ip g next = elim (iunlockput sb ip g) [ none ↦ Ending.ended none | some h ↦ next h ]

  -- One round of the loop of `namex` at a directory that is locked, with the rounds after it.
  unfoldable pub descend :
      (parent : Bool) (ip : ℕ) (rest name : List ℕ) → Fs → (ℕ → Fs → Ending Found) → Ending Found
  descend parent ip rest name f next =
      if not ((f.itable ip).type == t_dir)
      then Ending.ended (give_up ip name f)
      else if parent && is_end rest
      then Ending.ended (iunlock (some ip) f >>= (λ g. some (some ip, name, g)))
      else elim (dirlookup sb ip name f) [
        | none ↦ Ending.ended none
        | some (none, g) ↦ Ending.ended (give_up ip name g)
        | some (some (j, off), g) ↦ move_on ip g (λ h. next j h)
      ]

  -- The loop of `namex`, with at most k rounds, and what follows it.
  unfoldable pub walk : (k : ℕ) (parent : Bool) (ip : ℕ) (path name : List ℕ) → Fs → Ending Found
  walk zero parent ip path name f = Ending.out_of_rounds
  walk (suc k) parent ip path name f = elim (skipelem path) [
    | none ↦
        Ending.ended
          (if parent then iput sb ip f >>= (λ g. some (none, name, g)) else some (some ip, name, f))
    | some (rest, elem) ↦ elim (ilock sb (some ip) f) [
      | none ↦ Ending.ended none
      | some g ↦ descend parent ip rest elem g (λ j h. walk k parent j rest elem h)
    ]
  ]

  unfoldable pub namex : (path : List ℕ) (parent : Bool) → Fs → Ending Found
  namex path parent f =
      let start = if starts_at_root path then iget 1 1 f else some (f.cwd, idup f.cwd f) in
      elim start [
        | none ↦ Ending.ended none
        | some (ip, g) ↦ walk (length path + 1) parent ip path [] g
      ]

  unfoldable pub namei : List ℕ → Fs → Ending (Option ℕ × Fs)
  namei path f = elim (namex path false f) [
    | Ending.ended o ↦ Ending.ended (o >>= (λ r. some (r.0, r.2)))
    | Ending.out_of_rounds ↦ Ending.out_of_rounds
  ]

  unfoldable pub nameiparent : List ℕ → Fs → Ending Found
  nameiparent path f = namex path true f
