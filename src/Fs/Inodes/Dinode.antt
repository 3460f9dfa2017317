-- ===== src/Fs/Inodes/Dinode.antt =====
-- The `struct dinode`s in a block of kernel/fs.c: what is written is read again, and writing one leaves
-- the others.
use cs202lab.Prelude.{
  ℕ, zero, suc, ◌+◌, ◌*◌, ◌^◌, ◌≤◌, ◌<◌, ◌≡◌, ◌⊎◌, inl, inr, refl, ◌∙◌, arith, ◌==◌, Bool-cases,
  lt→ltb,
}
use cs202lab.Fs.Disk.{Block, word, put_word, half, put_half, Inode}
use cs202lab.Fs.Disk.Words.{
  word-put_word, put_word-other, word-put_word_other, half-put_word_other, half-put_half,
  half-put_half_other, put_half-other, half-same, word-same,
}
use cs202lab.Fs.Inodes.{read_dinode, put_words, write_dinode}

-- The fields that are kept on the disk are the same.
pub record SameFile (ip iq : Inode) : Type 0 where
  pub type : ip.type ≡ iq.type
  pub major : ip.major ≡ iq.major
  pub minor : ip.minor ≡ iq.minor
  pub nlink : ip.nlink ≡ iq.nlink
  pub size : ip.size ≡ iq.size
  pub addrs : (i : ℕ) → i < 13 → ip.addrs i ≡ iq.addrs i

-- The fields are in the range of their types.
pub record InRange (ip : Inode) : Type 0 where
  pub type : ip.type < 2 ^ 16
  pub major : ip.major < 2 ^ 16
  pub minor : ip.minor < 2 ^ 16
  pub nlink : ip.nlink < 2 ^ 16
  pub size : ip.size < 2 ^ 32
  pub addrs : (i : ℕ) → i < 13 → ip.addrs i < 2 ^ 32

word-put_words :
    (k : ℕ) (d : Block) (o : ℕ) (a : ℕ → ℕ) (i : ℕ)
    → i < k
    → a i < 2 ^ 32
    → word (put_words k d o a) (o + 4 * i) ≡ a i
unfolding put_words
word-put_words zero d o a i lt h = absurd (omega arith)
word-put_words (suc k) d o a i lt h = elim (Bool-cases (i == k)) [
  | inl last ↦
      let e : i ≡ k = ground (arith, last) in
      rw e (word-put_word (put_words k d o a) (o + 4 * k) (a k) (rw e at h))
  | inr before ↦
      let ne : i < k = ground (arith, before, lt) in
      word-put_word_other (put_words k d o a) (o + 4 * k) (a k) (o + 4 * i) (inl (omega arith))
      ∙ word-put_words k d o a i ne h
]

module _ (d : Block) (o : ℕ) (a : ℕ → ℕ) (p : ℕ) where
  word-put_words_other :
      (k : ℕ) → (p + 4 ≤ o) ⊎ (o + 4 * k ≤ p) → word (put_words k d o a) p ≡ word d p
  unfolding put_words
  word-put_words_other zero h = refl
  word-put_words_other (suc k) h =
      word-put_word_other (put_words k d o a) (o + 4 * k) (a k) p (omega arith)
      ∙ word-put_words_other k (omega arith)

  half-put_words_other :
      (k : ℕ) → (p + 2 ≤ o) ⊎ (o + 4 * k ≤ p) → half (put_words k d o a) p ≡ half d p
  unfolding put_words
  half-put_words_other zero h = refl
  half-put_words_other (suc k) h =
      half-put_word_other (put_words k d o a) (o + 4 * k) (a k) p (omega arith)
      ∙ half-put_words_other k (omega arith)

  put_words-other : (k : ℕ) → (p < o) ⊎ (o + 4 * k ≤ p) → put_words k d o a p ≡ d p
  unfolding put_words
  put_words-other zero h = refl
  put_words-other (suc k) h =
      put_word-other (put_words k d o a) (o + 4 * k) (a k) p (omega arith)
      ∙ put_words-other k (omega arith)

module _ (d : Block) (o : ℕ) (ip : Inode) where
  pub write_dinode-other : (p : ℕ) → (p < o) ⊎ (o + 64 ≤ p) → write_dinode d o ip p ≡ d p
  unfolding write_dinode
  write_dinode-other p h =
      put_words-other _ (o + 12) ip.addrs p 13 (omega arith)
      ∙ put_word-other _ (o + 8) ip.size p (omega arith)
      ∙ put_half-other _ (o + 6) ip.nlink p (omega arith)
      ∙ put_half-other _ (o + 4) ip.minor p (omega arith)
      ∙ put_half-other _ (o + 2) ip.major p (omega arith)
      ∙ put_half-other _ o ip.type p (omega arith)

  write_dinode-type : ip.type < 2 ^ 16 → half (write_dinode d o ip) o ≡ ip.type
  unfolding write_dinode
  write_dinode-type h =
      half-put_words_other _ (o + 12) ip.addrs o 13 (omega arith)
      ∙ half-put_word_other _ (o + 8) ip.size o (omega arith)
      ∙ half-put_half_other _ (o + 6) ip.nlink o (omega arith)
      ∙ half-put_half_other _ (o + 4) ip.minor o (omega arith)
      ∙ half-put_half_other _ (o + 2) ip.major o (omega arith)
      ∙ half-put_half d o ip.type h

  write_dinode-major : ip.major < 2 ^ 16 → half (write_dinode d o ip) (o + 2) ≡ ip.major
  unfolding write_dinode
  write_dinode-major h =
      half-put_words_other _ (o + 12) ip.addrs (o + 2) 13 (omega arith)
      ∙ half-put_word_other _ (o + 8) ip.size (o + 2) (omega arith)
      ∙ half-put_half_other _ (o + 6) ip.nlink (o + 2) (omega arith)
      ∙ half-put_half_other _ (o + 4) ip.minor (o + 2) (omega arith)
      ∙ half-put_half _ (o + 2) ip.major h

  write_dinode-minor : ip.minor < 2 ^ 16 → half (write_dinode d o ip) (o + 4) ≡ ip.minor
  unfolding write_dinode
  write_dinode-minor h =
      half-put_words_other _ (o + 12) ip.addrs (o + 4) 13 (omega arith)
      ∙ half-put_word_other _ (o + 8) ip.size (o + 4) (omega arith)
      ∙ half-put_half_other _ (o + 6) ip.nlink (o + 4) (omega arith)
      ∙ half-put_half _ (o + 4) ip.minor h

  write_dinode-nlink : ip.nlink < 2 ^ 16 → half (write_dinode d o ip) (o + 6) ≡ ip.nlink
  unfolding write_dinode
  write_dinode-nlink h =
      half-put_words_other _ (o + 12) ip.addrs (o + 6) 13 (omega arith)
      ∙ half-put_word_other _ (o + 8) ip.size (o + 6) (omega arith)
      ∙ half-put_half _ (o + 6) ip.nlink h

  write_dinode-size : ip.size < 2 ^ 32 → word (write_dinode d o ip) (o + 8) ≡ ip.size
  unfolding write_dinode
  write_dinode-size h =
      word-put_words_other _ (o + 12) ip.addrs (o + 8) 13 (omega arith)
      ∙ word-put_word _ (o + 8) ip.size h

  -- A dinode that was written is read again, whatever else the reader's inode held.
  pub read_dinode-write_dinode :
      (iq : Inode) → InRange ip → SameFile (read_dinode (write_dinode d o ip) o iq) ip
  unfolding read_dinode
  read_dinode-write_dinode iq r = record {
    type = write_dinode-type r.type;
    major = write_dinode-major r.major;
    minor = write_dinode-minor r.minor;
    nlink = write_dinode-nlink r.nlink;
    size = write_dinode-size r.size;
    addrs = λ i lt.
        rw (lt→ltb i 13 lt)
          (unfold write_dinode in word-put_words 13 _ (o + 12) ip.addrs i lt (r.addrs i lt));
  }

-- Two blocks that agree on the 64 bytes at o show the same dinode.
pub read_dinode-same :
    (d e : Block) (o : ℕ) (iq : Inode)
    → ((p : ℕ) → o ≤ p → p < o + 64 → d p ≡ e p)
    → SameFile (read_dinode d o iq) (read_dinode e o iq)
unfolding read_dinode
read_dinode-same d e o iq h = record {
  type = half-same d e o (λ p lo hi. h p lo (omega arith));
  major = half-same d e (o + 2) (λ p lo hi. h p (omega arith) (omega arith));
  minor = half-same d e (o + 4) (λ p lo hi. h p (omega arith) (omega arith));
  nlink = half-same d e (o + 6) (λ p lo hi. h p (omega arith) (omega arith));
  size = word-same d e (o + 8) (λ p lo hi. h p (omega arith) (omega arith));
  addrs = λ i lt.
      rw (lt→ltb i 13 lt)
        (word-same d e (o + 12 + 4 * i) (λ p lo hi. h p (omega arith) (omega arith)));
}

put_words-byte :
    (k : ℕ) (d : Block) (o : ℕ) (a : ℕ → ℕ) (p : ℕ) → d p < 256 → put_words k d o a p < 256
unfolding put_words put_word
put_words-byte zero d o a p h = h
put_words-byte (suc k) d o a p h = ground (arith, put_words-byte k d o a p h)

pub write_dinode-byte :
    (d : Block) (o : ℕ) (ip : Inode) (p : ℕ) → d p < 256 → write_dinode d o ip p < 256
unfolding write_dinode put_half put_word
write_dinode-byte d o ip p h = put_words-byte 13 _ (o + 12) ip.addrs p (ground (arith, h))
