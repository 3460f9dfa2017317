-- ===== src/Fs/Disk/Words.antt =====
-- Numbers in a block of kernel/fs.c: what was put is read again, and nothing else changes.
use cs202lab.Prelude.{ℕ, ◌+◌, ◌^◌, ◌≤◌, ◌<◌, ◌≡◌, ◌⊎◌, arith}
use cs202lab.Fs.Disk.{Block, word, put_word, half, put_half}

pub word-put_word : (d : Block) (o v : ℕ) → v < 2 ^ 32 → word (put_word d o v) o ≡ v
unfolding word put_word
word-put_word d o v h = ground arith

pub put_word-other : (d : Block) (o v p : ℕ) → (p < o) ⊎ (o + 4 ≤ p) → put_word d o v p ≡ d p
unfolding put_word
put_word-other d o v p h = ground arith

pub word-put_word_other :
    (d : Block) (o v p : ℕ) → (p + 4 ≤ o) ⊎ (o + 4 ≤ p) → word (put_word d o v) p ≡ word d p
unfolding word put_word
word-put_word_other d o v p h = ground arith

pub half-put_word_other :
    (d : Block) (o v p : ℕ) → (p + 2 ≤ o) ⊎ (o + 4 ≤ p) → half (put_word d o v) p ≡ half d p
unfolding half put_word
half-put_word_other d o v p h = ground arith

pub half-put_half : (d : Block) (o v : ℕ) → v < 2 ^ 16 → half (put_half d o v) o ≡ v
unfolding half put_half
half-put_half d o v h = ground arith

pub half-put_half_other :
    (d : Block) (o v p : ℕ) → (p + 2 ≤ o) ⊎ (o + 2 ≤ p) → half (put_half d o v) p ≡ half d p
unfolding half put_half
half-put_half_other d o v p h = ground arith

pub put_half-other : (d : Block) (o v p : ℕ) → (p < o) ⊎ (o + 2 ≤ p) → put_half d o v p ≡ d p
unfolding put_half
put_half-other d o v p h = ground arith

pub word-put_half_other :
    (d : Block) (o v p : ℕ) → (p + 4 ≤ o) ⊎ (o + 2 ≤ p) → word (put_half d o v) p ≡ word d p
unfolding word put_half
word-put_half_other d o v p h = ground arith

-- A number depends on its own bytes only.
pub half-same :
    (d e : Block) (o : ℕ) → ((p : ℕ) → o ≤ p → p < o + 2 → d p ≡ e p) → half d o ≡ half e o
unfolding half
half-same d e o h = ground (arith, h o, h (o + 1))

pub word-same :
    (d e : Block) (o : ℕ) → ((p : ℕ) → o ≤ p → p < o + 4 → d p ≡ e p) → word d o ≡ word e o
unfolding word
word-same d e o h = ground (arith, h o, h (o + 1), h (o + 2), h (o + 3))
