-- ===== src/Fs/Content/Rounds.antt =====
-- The loop of `writei` of kernel/fs.c: how far it gets, and why it stops.
use cs202lab.Prelude.{
  ℕ, zero, suc, ◌+◌, ◌-◌, ◌*◌, ◌/◌, ◌%◌, ◌≤◌, ◌<◌, ◌≡◌, ◌≢◌, inl, inr, refl, subst, true, Option,
  some, arith, ltb, ◌==◌, ==→eq, ==→ne, Bool-cases, min,
}
use cs202lab.Fs.Disk.{bsize, Superblock, Fs, put_block}
use cs202lab.Fs.Bitmap.Marks.{is_used}
use cs202lab.Fs.Content.{maxfile, paste, writei_loop}
use cs202lab.Fs.Content.Blocks.{Good}
use cs202lab.Fs.Content.Bmap.{bmap-Mapped}
use cs202lab.Fs.Content.Writes.{
  Wrote, Wrote-refl, Wrote-trans, Wrote-lost, Wrote-Mapped, Wrote-paste,
}

module _ (sb : Superblock) (i : ℕ) (source : ℕ → ℕ) (copied : ℕ → ℕ → ℕ) where
  -- Why a write of n bytes from src stops after `done`: all is written, the device has no block left,
  -- or a copy from the caller failed, after `lost` of its bytes.
  pub data Stop (n src done lost : ℕ) (f' : Fs) : Type 0 where
    all : done ≡ n → lost ≡ 0 → Stop n src done lost f'
    no_block : lost ≡ 0 → ((c : ℕ) → c < sb.size → is_used sb f' c ≡ true) → Stop n src done lost f'
    no_copy :
        (m : ℕ) → done + m ≤ n → copied (src + done) m ≡ lost → lost ≢ m → Stop n src done lost f'

  pub record Ran (tot n off src : ℕ) (f : Fs) (r : Option (ℕ × ℕ × Fs)) : Type 0 where
    pub done : ℕ
    pub lost : ℕ
    pub fs : Fs
    pub result : r ≡ some (tot + done, off + done, fs)
    pub some_of : done ≤ n - tot
    pub stop : Stop (n - tot) src done lost fs
    pub wrote : Wrote sb i source off src f done lost fs

  Stop-shift :
      {n m src d l : ℕ} {f' : Fs} → m ≤ n → Stop (n - m) (src + m) d l f' → Stop n src (m + d) l f'
  Stop-shift le (all e z) = all (omega arith) z
  Stop-shift le (no_block z full) = no_block z full
  Stop-shift {n} {m} {src} {d} {l} le (no_copy k h e ne) =
      let q : src + m + d ≡ src + (m + d) = omega arith in no_copy k (omega arith) (rw q at e) ne

  Ran-Stop :
      {tot n off src l : ℕ} {f f' : Fs}
      → Stop (n - tot) src 0 l f'
      → Wrote sb i source off src f 0 l f'
      → Ran tot n off src f (some (tot, off, f'))
  Ran-Stop {tot} {n} {off} {src} {l} {f} {f'} stop w =
      let z : tot + 0 ≡ tot = omega arith in
      let y : off + 0 ≡ off = omega arith in
      record {
        done = 0;
        lost = l;
        fs = f';
        result = rw (z, y) refl;
        some_of = omega arith;
        stop = stop;
        wrote = w;
      }

  Ran-more :
      {tot n off src m : ℕ} {f f2 : Fs} {r : Option (ℕ × ℕ × Fs)}
      → m ≤ n - tot
      → Wrote sb i source off src f m 0 f2
      → Ran (tot + m) n (off + m) (src + m) f2 r
      → Ran tot n off src f r
  Ran-more {tot} {n} {off} {src} {m} le w r =
      let z : tot + (m + r.done) ≡ tot + m + r.done = omega arith in
      let y : off + (m + r.done) ≡ off + m + r.done = omega arith in
      let q : n - (tot + m) ≡ n - tot - m = omega arith in
      record {
        done = m + r.done;
        lost = r.lost;
        fs = r.fs;
        result = rw (z, y) r.result;
        some_of = omega (arith, r.some_of);
        stop = Stop-shift le (rw q at r.stop);
        wrote = Wrote-trans sb i source w r.wrote;
      }

  module _ (byte : (q : ℕ) → source q < 256) (bounded : (src m : ℕ) → copied src m ≤ m) where
    pub writei_loop-Ran :
        (k tot n off src : ℕ) (f : Fs)
        → Good sb f (f.itable i)
        → n - tot ≤ k
        → tot ≤ n
        → off + (n - tot) ≤ maxfile * bsize
        → Ran tot n off src f (writei_loop sb i source copied k tot n off src f)
    unfolding writei_loop
    writei_loop-Ran zero tot n off src f g hk le room =
        Ran-Stop (all (omega arith) refl) (Wrote-refl sb i source g)
    writei_loop-Ran (suc k) tot n off src f g hk le room = elim (Bool-cases (ltb tot n)) [
      | inr finished ↦
          let ge : n ≤ tot = ground (arith, finished) in
          rw (finished, writei_loop) (Ran-Stop (all (omega arith) refl) (Wrote-refl sb i source g))
      | inl more ↦
          let lt : tot < n = ground (arith, more) in
          let in_file : off / bsize < maxfile = omega arith in
          let (a, f1, e, m) = bmap-Mapped sb i (off / bsize) f g in_file in
          let size = min (n - tot) (bsize - off % bsize) in
          let fits : copied src size ≤ bsize - off % bsize = omega (arith, bounded src size) in
          let round = Wrote-paste sb i source byte off src (copied src size) g in_file m in
          elim (Bool-cases (a == 0)) [
            | inl z ↦
                rw (more, writei_loop, e, z)
                  (Ran-Stop (no_block refl (m.full (==→eq a 0 z))) (Wrote-Mapped sb i source g m))
            | inr h ↦
                let pos = ==→ne a 0 h in
                elim (Bool-cases (copied src size == size)) [
                  | inr fault ↦
                      let q : src + 0 ≡ src = omega arith in
                      let stop : Stop (n - tot) src 0 (copied src size) _ =
                        no_copy size (omega arith) (rw q refl)
                          (==→ne (copied src size) size fault) in
                      rw (more, writei_loop, e, h, fault)
                        (Ran-Stop stop (Wrote-lost sb i source (round pos fits _ refl refl refl)))
                  | inl whole ↦
                      let c : copied src size ≡ size = ==→eq (copied src size) size whole in
                      let d = paste (f1.block a) (off % bsize) (copied src size) source src in
                      let f2 = put_block a d f1 in
                      let w = round pos fits f2 refl refl refl in
                      let w' : Wrote sb i source off src f size 0 f2 =
                        subst (λ k. Wrote sb i source off src f k 0 f2) c w in
                      rw (more, writei_loop, e, h, whole)
                        (Ran-more (omega arith) w' (
                          writei_loop-Ran k (tot + size) n (off + size) (src + size) f2 w.good
                            (omega arith) (omega arith) (omega arith)))
                ]
          ]
    ]
