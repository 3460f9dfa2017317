-- ===== src/Fs/Examples/Files.antt =====
-- The theorems on the content of files of kernel/fs.c at the small disk.
use cs202lab.Prelude.{ℕ, ◌≡◌, inr, refl, Bool, true, none, some, arith, ◌-◌, min}
use cs202lab.Fs.Disk.{Fs}
use cs202lab.Fs.Content.{bmap, readi, writei}
use cs202lab.Fs.Content.Mapped.{Mapped}
use cs202lab.Fs.Content.Bmap.{bmap-Mapped}
use cs202lab.Fs.Content.Reads.{Got}
use cs202lab.Fs.Content.Readi.{readi-Got}
use cs202lab.Fs.Content.Writei.{Written, writei-Written, writei-refuses}
use cs202lab.Fs.Truncate.{itrunc, iput}
use cs202lab.Fs.Truncate.Itrunc.{Truncated, itrunc-Truncated}
use cs202lab.Fs.Truncate.Iput.{Gone, iput-Gone}
use cs202lab.Fs.Examples.{small, disk, file-Good, file-InRange}

-- A block behind the direct ones, which needs the indirect block and another.
bmap-Mapped_example :
    (a : ℕ) × (f' : Fs) × (bmap small 0 20 disk ≡ some (a, f')) × Mapped small 0 20 disk a f'
bmap-Mapped_example = bmap-Mapped small 0 20 disk file-Good (omega arith)

abbrev letters : ℕ → ℕ
letters p = 65

abbrev whole : ℕ → ℕ → ℕ
whole src m = m

-- 1030 bytes from offset 3 on, over the end of a block.
writei-Written_example :
    (tot : ℕ) × (f' : Fs) × (writei small 0 letters whole 0 3 1030 disk ≡ some (some tot, f'))
    × Written small 0 letters whole 0 3 1030 disk tot f'
writei-Written_example =
    writei-Written small 0 letters whole (λ q. omega arith) (λ src m. omega arith) 0 3 1030 disk
      file-Good file-InRange (omega arith) (omega arith) (omega arith)

writei-refuses_example : writei small 0 letters whole 0 5 0xffff_ffff disk ≡ some (none, disk)
writei-refuses_example =
    writei-refuses small 0 letters whole 0 5 0xffff_ffff disk (omega arith) (omega arith)
      (inr (omega arith))

abbrev copies : ℕ → ℕ → Bool
copies dst m = true

readi-Got_example : Got small 0 copies 0 (min 9 (5 - 2)) 2 0 disk (readi small 0 copies 0 2 9 disk)
readi-Got_example =
    readi-Got small 0 copies 0 2 9 disk file-Good (omega arith) (omega arith) (omega arith)

itrunc-Truncated_example : (f' : Fs) × (itrunc small 0 disk ≡ some f') × Truncated small 0 disk f'
itrunc-Truncated_example = itrunc-Truncated small 0 disk file-Good file-InRange (omega arith)

iput-Gone_example : (f' : Fs) × (iput small 0 disk ≡ some f') × Gone small 0 disk f'
iput-Gone_example = iput-Gone small 0 disk file-Good file-InRange (omega arith) refl refl refl refl
