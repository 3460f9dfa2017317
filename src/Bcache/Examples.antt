-- ===== src/Bcache/Examples.antt =====
-- Runs of kernel/bio.c, and the theorems at them.
use cs202lab.Prelude.{has, ℕ, ◌*◌, ◌≡◌, refl, ◌⊎◌, true, false, Option, none, some, arith}
use cs202lab.Bcache.{Bcache, nbuf, chain, binit, bread, brelse}
use cs202lab.Bcache.View.{IsValid, Clean}
use cs202lab.Bcache.Read.{AllInUse, Reads, bread-Reads}
use cs202lab.Bcache.Release.{Releases, brelse-Releases}

abbrev a_disk : ℕ → ℕ → ℕ
a_disk dev blockno = 100 * blockno

abbrev boot : Bcache
unfolding binit
boot = binit (record {
  buf = λ i. record { valid = false; dev = 0; blockno = 0; refcnt = 0; contents = 0 };
  order = chain 0;
})

boot-IsValid : IsValid boot
unfolding boot
boot-IsValid i j hi hj pos d n = absurd (omega (arith, pos))

boot-Clean : Clean a_disk boot
unfolding boot
boot-Clean i h free = refl

abbrev block_of : Option (ℕ × Bcache) → ℕ × ℕ
block_of none = (nbuf, 0)
block_of (some (i, c)) = (i, (c.buf i).contents)

takes_the_last : block_of (bread a_disk 1 5 boot) ≡ (0, 500)
unfolding bread boot
takes_the_last = refl

bread-Reads_example :
    ((bread a_disk 1 5 boot ≡ none)
      × AllInUse a_disk boot boot-IsValid boot-Clean 1 5 (omega arith))
    ⊎ ((i : ℕ) × (d : Bcache) × (bread a_disk 1 5 boot ≡ some (i, d))
        × Reads a_disk boot boot-IsValid boot-Clean 1 5 (omega arith) i d)
bread-Reads_example = bread-Reads a_disk boot boot-IsValid boot-Clean 1 5 (omega arith)

-- Every buffer holds the block of its number, for one user.
abbrev busy : Bcache
busy = record {
  buf = λ i. record { valid = true; dev = 1; blockno = i; refcnt = 1; contents = 100 * i };
  order = chain nbuf;
}

busy-IsValid : IsValid busy
busy-IsValid i j hi hj pos d n = n

three_busy : has 3 (chain nbuf) ≡ true
unfolding chain
three_busy = refl

brelse-Releases_example : Releases a_disk busy busy-IsValid 3 three_busy (brelse 3 busy)
brelse-Releases_example = brelse-Releases a_disk busy busy-IsValid 3 three_busy
