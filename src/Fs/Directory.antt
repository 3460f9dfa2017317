-- ===== src/Fs/Directory.antt =====
-- Directories of kernel/fs.c: files of 16-byte entries, a number of 2 bytes and a name of 14. A name is
-- a list of bytes, none of them NUL, with a NUL behind it.
pub mod Names
pub mod Lookup
pub mod Search
use cs202lab.Prelude.{
  ℕ, zero, suc, ◌+◌, ◌-◌, ◌*◌, ◌/◌, ◌%◌, Bool, true, false, not, ◌&&◌, ◌||◌, Option, none, some,
  List, [], ◌∷◌, get_or, ltb, ◌==◌, if◌then◌else◌,
}
use cs202lab.Prelude.Fallible.{◌>>=◌}
use cs202lab.Fs.Disk.{Inode, Superblock, Fs}
use cs202lab.Fs.Inodes.{iget}
use cs202lab.Fs.Content.{readi, writei}
use cs202lab.Fs.Truncate.{iput}

abbrev pub t_dir : ℕ
t_dir = 1

abbrev pub dirsiz : ℕ
dirsiz = 14

abbrev pub dirent_size : ℕ
dirent_size = 16

-- Byte k of the array that holds_inode a name.
abbrev pub char_at : List ℕ → ℕ → ℕ
char_at name k = get_or name k 0

-- Whether strncmp(s + k, t + k, n) is 0.
unfoldable pub same_chars : (n k : ℕ) → (ℕ → ℕ) → (ℕ → ℕ) → Bool
same_chars zero k s t = true
same_chars (suc n) k s t =
    let rest = same_chars n (k + 1) s t in
    if not (s k == 0) && (s k == t k) then rest else s k == t k

-- Whether namecmp is 0.
unfoldable pub namecmp : (ℕ → ℕ) → (ℕ → ℕ) → Bool
namecmp s t = same_chars dirsiz 0 s t

-- `struct dirent` in 16 bytes.
abbrev pub de_inum : List ℕ → ℕ
de_inum de = get_or de 0 0 + 256 * get_or de 1 0

abbrev pub de_name : List ℕ → ℕ → ℕ
de_name de k = get_or de (2 + k) 0

-- The bytes of an entry after strncpy of the name, from address 0 on.
abbrev pub dirent : List ℕ → ℕ → ℕ → ℕ
dirent name inum p =
    if p == 0
    then inum % 256
    else if p == 1
    then inum / 256 % 256
    else if ltb p dirent_size
    then char_at name (p - 2)
    else 0

abbrev pub is_entry_size : Option ℕ → Bool
is_entry_size none = false
is_entry_size (some r) = r == dirent_size

module _ (sb : Superblock) where
  -- The entry at off; `none` is the panic on a short read.
  unfoldable pub read_entry : (d off : ℕ) → Fs → Option (List ℕ × Fs)
  read_entry d off f = do
    (r, de, g) ← readi sb d (λ dst m. true) 0 off dirent_size f
    if is_entry_size r then some (de, g) else none

  -- The loop of `dirlookup`, with k rounds left: the entry of the table and the offset.
  unfoldable pub dirlookup_loop :
      (d : ℕ) (name : List ℕ) (k off : ℕ) → Fs → Option (Option (ℕ × ℕ) × Fs)
  dirlookup_loop d name zero off f = some (none, f)
  dirlookup_loop d name (suc k) off f =
      let rest = λ (g : Fs). dirlookup_loop d name k (off + dirent_size) g in
      if not (ltb off (f.itable d).size) then some (none, f) else do
        (de, g) ← read_entry d off f
        if (de_inum de == 0) || not (namecmp (char_at name) (de_name de))
            then rest g
            else iget (g.itable d).dev (de_inum de) g >>= (λ p. some (some (p.0, off), p.1))

  -- `none` is a panic.
  unfoldable pub dirlookup : (d : ℕ) (name : List ℕ) → Fs → Option (Option (ℕ × ℕ) × Fs)
  dirlookup d name f =
      if not ((f.itable d).type == t_dir)
      then none
      else dirlookup_loop d name ((f.itable d).size / dirent_size + 1) 0 f

  -- The loop of `dirlink` for an empty entry, with k rounds left: the offset where it stops.
  unfoldable pub free_entry : (d k off : ℕ) → Fs → Option (ℕ × Fs)
  free_entry d zero off f = some (off, f)
  free_entry d (suc k) off f =
      let rest = λ (g : Fs). free_entry d k (off + dirent_size) g in
      if not (ltb off (f.itable d).size)
      then some (off, f)
      else do (de, g) ← read_entry d off f; if de_inum de == 0 then some (off, g) else rest g

  -- Where the name is not there yet: whether the new entry was written.
  unfoldable pub add_entry : (d : ℕ) (name : List ℕ) (inum : ℕ) → Fs → Option (Bool × Fs)
  add_entry d name inum f = do
    (off, g) ← free_entry d ((f.itable d).size / dirent_size + 1) 0 f
    (r, h) ← writei sb d (dirent name inum) (λ src m. m) 0 off dirent_size g
    some (is_entry_size r, h)

  -- `true` for 0 and `false` for -1.
  unfoldable pub dirlink : (d : ℕ) (name : List ℕ) (inum : ℕ) → Fs → Option (Bool × Fs)
  dirlink d name inum f = do
    (found, g) ← dirlookup d name f
    elim found [
      | some (j, off) ↦ iput sb j g >>= (λ h. some (false, h))
      | none ↦ add_entry d name inum g
    ]
