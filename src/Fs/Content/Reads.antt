-- ===== src/Fs/Content/Reads.antt =====
-- `readi` of kernel/fs.c: it copies out the bytes of the file.
use cs202lab.Prelude.{
  ℕ, zero, suc, ◌+◌, ◌-◌, ◌*◌, ◌/◌, ◌≤◌, ◌<◌, ◌≡◌, ◌≢◌, inl, inr, refl, ◌∙◌, ap, sym, Bool, true,
  false, Option, none, some, arith, ◌==◌, ==→eq, ==→ne, Bool-cases, List, [], ◌∷◌, ◌++◌,
}
use cs202lab.Fs.Disk.{bsize, Block, Inode, Superblock, Fs}
use cs202lab.Fs.Bitmap.Marks.{is_used}
use cs202lab.Fs.Content.{maxfile, slice, before}
use cs202lab.Fs.Content.Blocks.{addr_of, Good}
use cs202lab.Fs.Content.Mapped.{Mapped}
use cs202lab.Fs.Content.Bytes.{byte_at}

slice-append : (m k : ℕ) (d : Block) (o : ℕ) → slice (m + k) d o ≡ slice m d o ++ slice k d (o + m)
unfolding slice
slice-append zero k d o =
    let z : o + 0 ≡ o = omega arith in let y : 0 + k ≡ k = omega arith in rw (z, y) refl
slice-append (suc m) k d o =
    let e : suc m + k ≡ suc (m + k) = omega arith in
    let q : o + 1 + m ≡ o + suc m = omega arith in
    rw (e, slice)
      (ap (λ l. d o ∷ l)
        (slice-append m k d (o + 1) ∙ ap (λ p. slice m d (o + 1) ++ slice k d p) q))

pub slice-same :
    (n : ℕ) (d e : ℕ → ℕ) (o q : ℕ)
    → ((j : ℕ) → j < n → d (o + j) ≡ e (q + j))
    → slice n d o ≡ slice n e q
unfolding slice
slice-same zero d e o q h = refl
slice-same (suc n) d e o q h =
    let first = h 0 (omega arith) in
    let z : o + 0 ≡ o = omega arith in
    let y : q + 0 ≡ q = omega arith in
    let rest = slice-same n d e (o + 1) (q + 1) (λ j lt.
      let a : o + 1 + j ≡ o + (j + 1) = omega arith in
      let b : q + 1 + j ≡ q + (j + 1) = omega arith in rw (a, b) (h (j + 1) (omega arith))) in
    rw (rw (z, y) at first, rest) refl

module _ (sb : Superblock) (i : ℕ) (copyout : ℕ → ℕ → Bool) where
  abbrev pub at : Fs → ℕ → ℕ
  at f p = byte_at f.block (f.itable i) p

  -- Blocks of the file stay where they are, and other inodes as they are.
  abbrev pub Kept : Fs → Fs → Type 0
  Kept f f' =
      ((c : ℕ)
        → c < maxfile
        → addr_of f.block (f.itable i) c ≢ 0
        → addr_of f'.block (f'.itable i) c ≡ addr_of f.block (f.itable i) c)
      × ((j : ℕ) → j ≢ i → f'.itable j ≡ f.itable j)

  pub Kept-Mapped : {bn a : ℕ} {f f' : Fs} → Mapped sb i bn f a f' → Kept f f'
  Kept-Mapped {bn} m = (
    λ c lc h. elim (Bool-cases (c == bn)) [
      | inl here ↦
          let e : c ≡ bn = ==→eq c bn here in rw e (m.step.kept_addr (rw e at lc) (rw e at h))
      | inr far ↦ m.step.others c lc (==→ne c bn far)
    ],
    m.others,
  )

  -- Why a read of n bytes to dst ends after `got` bytes, with which return value.
  pub data Stop (n off dst base got : ℕ) (f' : Fs) : Option ℕ → Type 0 where
    all : {v : ℕ} → v ≡ base + got → got ≡ n → Stop n off dst base got f' (some v)
    no_block :
        {v : ℕ}
        → v ≡ base + got
        → addr_of f'.block (f'.itable i) ((off + got) / bsize) ≡ 0
        → ((c : ℕ) → c < sb.size → is_used sb f' c ≡ true)
        → Stop n off dst base got f' (some v)
    no_copy :
        (m : ℕ) → got + m ≤ n → copyout (dst + got) m ≡ false → Stop n off dst base got f' none

  -- `got` bytes went to dst in pieces, each a copy that succeeded.
  pub data Copied : (dst got : ℕ) → Type 0 where
    nothing : {dst got : ℕ} → got ≡ 0 → Copied dst got
    piece :
        {dst got : ℕ} (m g : ℕ)
        → 0 < m
        → m ≤ bsize
        → got ≡ m + g
        → copyout dst m ≡ true
        → Copied (dst + m) g
        → Copied dst got

  -- `got` bytes of the file from off on are copied out, and the file has the same bytes afterwards.
  pub record Got (tot n off dst : ℕ) (f : Fs) (x : Option (Option ℕ × List ℕ × Fs)) : Type 0 where
    pub got : ℕ
    pub value : Option ℕ
    pub fs : Fs
    pub result : x ≡ some (value, slice got (at f) off, fs)
    pub some_of : got ≤ n - tot
    pub copied : Copied dst got
    pub stop : Stop (n - tot) off dst tot got fs value
    pub bytes : (p : ℕ) → p < maxfile * bsize → at fs p ≡ at f p
    pub held :
        (c : ℕ)
        → c < maxfile
        → addr_of f.block (f.itable i) c ≢ 0
        → addr_of fs.block (fs.itable i) c ≡ addr_of f.block (f.itable i) c
    pub good : Good sb fs (fs.itable i)
    pub others : (j : ℕ) → j ≢ i → fs.itable j ≡ f.itable j
    pub same : fs.itable i ≡ record (f.itable i) { addrs = (fs.itable i).addrs }

  pub Got-Stop :
      {tot n off dst : ℕ} {f f' : Fs} {v : Option ℕ}
      → Stop (n - tot) off dst tot 0 f' v
      → ((p : ℕ) → p < maxfile * bsize → at f' p ≡ at f p)
      → Kept f f'
      → Good sb f' (f'.itable i)
      → f'.itable i ≡ record (f.itable i) { addrs = (f'.itable i).addrs }
      → Got tot n off dst f (some (v, [], f'))
  unfolding slice
  Got-Stop {f' = f'} {v = v} stop bytes kept good same = record {
    got = 0;
    value = v;
    fs = f';
    result = refl;
    some_of = omega arith;
    copied = nothing refl;
    stop = stop;
    bytes = bytes;
    held = kept.0;
    good = good;
    others = kept.1;
    same = same;
  }

  Stop-shift :
      {n m off dst base g : ℕ} {f' : Fs} {v : Option ℕ}
      → m ≤ n
      → Stop (n - m) (off + m) (dst + m) (base + m) g f' v
      → Stop n off dst base (m + g) f' v
  Stop-shift le (all e h) = all (omega (arith, e)) (omega (arith, h))
  Stop-shift {m = m} {off = off} {g = g} le (no_block e z full) =
      let q : off + m + g ≡ off + (m + g) = omega arith in
      no_block (omega (arith, e)) (rw q at z) full
  Stop-shift {n} {m} {off} {dst} {base} {g} le (no_copy k h c) =
      let q : dst + m + g ≡ dst + (m + g) = omega arith in no_copy k (omega (arith, h)) (rw q at c)

  pub Got-more :
      {tot n off dst m : ℕ} {f f1 : Fs} {x : Option (Option ℕ × List ℕ × Fs)} {front : List ℕ}
      → 0 < m
      → m ≤ bsize
      → copyout dst m ≡ true
      → m ≤ n - tot
      → off + (n - tot) ≤ maxfile * bsize
      → front ≡ slice m (at f) off
      → ((p : ℕ) → p < maxfile * bsize → at f1 p ≡ at f p)
      → Kept f f1
      → f1.itable i ≡ record (f.itable i) { addrs = (f1.itable i).addrs }
      → Got (tot + m) n (off + m) (dst + m) f1 x
      → Got tot n off dst f (before front x)
  Got-more {tot} {n} {off} {dst} {m} {f} {f1} pos small ok le room e same_bytes kept same r =
      let q : n - (tot + m) ≡ n - tot - m = omega arith in
      let rest : slice r.got (at f1) (off + m) ≡ slice r.got (at f) (off + m) =
        slice-same r.got (at f1) (at f) (off + m) (off + m)
          (λ j lt. same_bytes (off + m + j) (omega (arith, r.some_of))) in
      record {
        got = m + r.got;
        value = r.value;
        fs = r.fs;
        result = rw (r.result, e, rest, slice-append m r.got (at f) off) refl;
        some_of = omega (arith, r.some_of);
        copied = piece m r.got pos small refl ok r.copied;
        stop = Stop-shift le (rw q at r.stop);
        bytes = λ p lp. r.bytes p lp ∙ same_bytes p lp;
        held = λ c lc h. r.held c lc (λ z. h (sym (kept.0 c lc h) ∙ z)) ∙ kept.0 c lc h;
        good = r.good;
        others = λ j ne. r.others j ne ∙ kept.1 j ne;
        same = r.same ∙ ap (λ (h : Inode). record h { addrs = (r.fs.itable i).addrs }) same;
      }
