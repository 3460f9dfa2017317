-- ===== src/Fs/Content/Writes.antt =====
-- `writei` of kernel/fs.c: the bytes of the caller are in the file afterwards, and the other bytes of the
-- file are as before.
use cs202lab.Prelude.{
  ℕ, ◌+◌, ◌-◌, ◌*◌, ◌/◌, ◌%◌, ◌≤◌, ◌<◌, ◌≡◌, ◌≢◌, inl, inr, refl, ◌∙◌, ap, sym, subst, true, false,
  ◌&&◌, arith, ltb, leb, ◌==◌, if◌then◌else◌, update, Bool-cases,
}
use cs202lab.Fs.Disk.{bsize, Inode, Superblock, Fs}
use cs202lab.Fs.Content.{maxfile, paste}
use cs202lab.Fs.Content.Blocks.{Good}
use cs202lab.Fs.Content.Mapped.{Mapped}
use cs202lab.Fs.Content.Bytes.{byte_at, byte_at-Step}
use cs202lab.Fs.Content.Paste.{paste-Good, byte_at-paste}

module _ (sb : Superblock) (i : ℕ) (source : ℕ → ℕ) where
  abbrev pub at : Fs → ℕ → ℕ
  at f p = byte_at f.block (f.itable i) p

  -- From f to f', `done` bytes at off became those at src, and `lost` behind them may have changed.
  pub record Wrote (off src : ℕ) (f : Fs) (done lost : ℕ) (f' : Fs) : Type 0 where
    pub inside :
        (p : ℕ)
        → p < maxfile * bsize
        → off ≤ p
        → p < off + done
        → at f' p ≡ source (src + (p - off))
    pub before : (p : ℕ) → p < maxfile * bsize → p < off → at f' p ≡ at f p
    pub after : (p : ℕ) → p < maxfile * bsize → off + done + lost ≤ p → at f' p ≡ at f p
    pub good : Good sb f' (f'.itable i)
    pub same : f'.itable i ≡ record (f.itable i) { addrs = (f'.itable i).addrs }
    pub others : (j : ℕ) → j ≢ i → f'.itable j ≡ f.itable j
    pub pid : f'.pid ≡ f.pid

  pub Wrote-refl : {off src : ℕ} {f : Fs} → Good sb f (f.itable i) → Wrote off src f 0 0 f
  Wrote-refl g = record {
    inside = λ p lp lo hi. absurd (omega arith);
    before = λ p lp lt. refl;
    after = λ p lp ge. refl;
    good = g;
    same = refl;
    others = λ j ne. refl;
    pid = refl;
  }

  pub Wrote-trans :
      {off src m d l : ℕ} {f f2 f3 : Fs}
      → Wrote off src f m 0 f2
      → Wrote (off + m) (src + m) f2 d l f3
      → Wrote off src f (m + d) l f3
  Wrote-trans {off} {src} {m} {d} {l} {f} {f2} {f3} w v = record {
    inside = λ p lp lo hi. elim (Bool-cases (ltb p (off + m))) [
      | inl first ↦
          let lt : p < off + m = ground (arith, first) in v.before p lp lt ∙ w.inside p lp lo lt
      | inr second ↦
          let ge : off + m ≤ p = ground (arith, second) in
          let e : src + m + (p - (off + m)) ≡ src + (p - off) = omega arith in
          v.inside p lp ge (omega arith) ∙ ap source e
    ];
    before = λ p lp lt. v.before p lp (omega arith) ∙ w.before p lp lt;
    after = λ p lp ge. v.after p lp (omega arith) ∙ w.after p lp (omega arith);
    good = v.good;
    same = v.same ∙ ap (λ (q : Inode). record q { addrs = (f3.itable i).addrs }) w.same;
    others = λ j ne. v.others j ne ∙ w.others j ne;
    pid = v.pid ∙ w.pid;
  }

  -- A copy that failed after `done` bytes.
  pub Wrote-lost :
      {off src done : ℕ} {f f' : Fs} → Wrote off src f done 0 f' → Wrote off src f 0 done f'
  Wrote-lost w = record {
    inside = λ p lp lo hi. absurd (omega arith);
    before = w.before;
    after = λ p lp ge. w.after p lp (omega arith);
    good = w.good;
    same = w.same;
    others = w.others;
    pid = w.pid;
  }

  pub Wrote-Mapped :
      {off src bn a : ℕ} {f f1 : Fs}
      → Good sb f (f.itable i)
      → Mapped sb i bn f a f1
      → Wrote off src f 0 0 f1
  Wrote-Mapped g m = record {
    inside = λ p lp lo hi. absurd (omega arith);
    before = λ p lp lt. byte_at-Step sb g m.step p lp;
    after = λ p lp ge. byte_at-Step sb g m.step p lp;
    good = m.step.good;
    same = m.step.same;
    others = m.others;
    pid = m.pid;
  }

  -- One round: the block is mapped, and n bytes go into it.
  module _ (byte : (q : ℕ) → source q < 256) (off src n : ℕ) {a : ℕ} {f f1 : Fs}
      (g : Good sb f (f.itable i)) (lt : off / bsize < maxfile)
      (m : Mapped sb i (off / bsize) f a f1) (pos : a ≢ 0) (fits : n ≤ bsize - off % bsize) where
    module _ (f2 : Fs)
        (eb : f2.block ≡ update f1.block a (paste (f1.block a) (off % bsize) n source src))
        (et : f2.itable ≡ f1.itable) (ep : f2.pid ≡ f1.pid) where
      at-paste :
          (p : ℕ)
          → p < maxfile * bsize
          → at f2 p ≡ (if leb off p && ltb p (off + n) then source (src + (p - off)) else at f p)
      at-paste p lp =
          let e =
            byte_at-paste sb m.step.good (off / bsize) a lt (m.addr lt) pos (off % bsize) n source
              src byte f2 eb p lp in
          let t : at f2 p ≡ byte_at f2.block (f1.itable i) p =
            ap (λ (t : ℕ → Inode). byte_at f2.block (t i) p) et in
          t ∙ elim (Bool-cases (leb off p && ltb p (off + n))) [
            | inl inner ↦
                let c : (p / bsize == off / bsize)
                      && (leb (off % bsize) (p % bsize) && ltb (p % bsize) (off % bsize + n))
                    ≡ true =
                  ground arith in
                let q : p % bsize - off % bsize ≡ p - off = ground arith in
                rw inner (rw (c, q) at e)
            | inr outer ↦
                let c : (p / bsize == off / bsize)
                      && (leb (off % bsize) (p % bsize) && ltb (p % bsize) (off % bsize + n))
                    ≡ false =
                  ground arith in
                rw outer ((rw c at e) ∙ byte_at-Step sb g m.step p lp)
          ]

      pub Wrote-paste : Wrote off src f n 0 f2
      Wrote-paste = record {
        inside = λ p lp lo hi. ground (arith, at-paste p lp);
        before = λ p lp below. ground (arith, at-paste p lp);
        after = λ p lp ge. ground (arith, at-paste p lp);
        good =
            subst (λ (t : ℕ → Inode). Good sb f2 (t i)) (sym et)
              (paste-Good sb m.step.good (off / bsize) a lt (m.addr lt) pos (off % bsize) n source
                src byte f2 eb);
        same = rw et m.step.same;
        others = λ j ne. rw et (m.others j ne);
        pid = ep ∙ m.pid;
      }
