-- ===== src/Fs/Examples/Paths.antt =====
-- The theorems on directories and paths of kernel/fs.c at the small disk.
use cs202lab.Prelude.{ℕ, ◌≡◌, refl, false, List, [], ◌∷◌, arith}
use cs202lab.Fs.Content.Blocks.{addr_of}
use cs202lab.Fs.Directory.{dirlookup}
use cs202lab.Fs.Directory.Lookup.{IsDirectory}
use cs202lab.Fs.Directory.Search.{Looks, dirlookup-Looks}
use cs202lab.Fs.FilePath.{namex}
use cs202lab.Fs.FilePath.Elements.{elements, print, names, elements-print}
use cs202lab.Fs.FilePath.Fuel.{Ends, namex-Ends}
use cs202lab.Fs.Examples.{small, disk, directory-Good}
use cs202lab.Fs.Examples.Blocks.{disk-Unique}

whole-IsDirectory : IsDirectory small 1 disk
unfolding addr_of
whole-IsDirectory = record {
  good = directory-Good;
  whole = refl;
  fits = omega arith;
  no_hole = λ c lc. ground arith;
}

dirlookup-Looks_example : Looks small 1 (97 ∷ []) disk 0 (dirlookup small 1 (97 ∷ []) disk)
dirlookup-Looks_example = dirlookup-Looks small 1 (97 ∷ []) disk whole-IsDirectory disk-Unique refl

-- "/a//bc/"
abbrev sample : List (ℕ × List ℕ)
sample = (0, 97 ∷ []) ∷ (1, 98 ∷ 99 ∷ []) ∷ []

elements-print_example : elements 3 (print 1 sample) ≡ names sample
elements-print_example = elements-print 3 1 sample refl (omega arith)

namex-Ends_example : Ends (namex small (97 ∷ 47 ∷ []) false disk)
namex-Ends_example = namex-Ends small false (97 ∷ 47 ∷ []) disk
