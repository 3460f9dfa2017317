-- ===== src/Pipe/Read.antt =====
-- `piperead` of kernel/pipe.c: which bytes leave the queue, and which of them reach the caller.
use cs202lab.Prelude.{
  add_uint, ℕ, zero, suc, ◌+◌, ◌-◌, ◌%◌, ◌≤◌, ◌<◌, ◌≡◌, refl, ◌∙◌, ap, ◌⊎◌, inl, inr, Bool, true,
  false, ◌&&◌, min, Option, none, some, List, [], ◌∷◌, ◌++◌, arith, ◌==◌, if◌then◌else◌, length,
  Bool-cases, ==→eq, ==→ne,
}
use cs202lab.Pipe.{pipe_size, Pipe, wake_writers, read_loop, piperead}
use cs202lab.Pipe.Queue.{used, IsValid, contents, window, window_of_pos, empty_iff}

abbrev pub advance : Pipe → Pipe
advance pi = record pi { nread = add_uint pi.nread 1 }

module _ {pi : Pipe} (v : IsValid pi) (h : 0 < used pi) where
  pub advance-IsValid : IsValid (advance pi) × (used (advance pi) + 1 ≡ used pi)
  advance-IsValid = omega (arith, v.nread, v.nwrite, v.small)

  pub contents-advance : contents pi ≡ pi.buf (pi.nread % pipe_size) ∷ contents (advance pi)
  contents-advance =
      let less : used pi - 1 ≡ used (advance pi) = omega (arith, advance-IsValid.1) in
      window_of_pos pi.buf pi.nread (used pi) h
      ∙ ap (λ k. pi.buf (pi.nread % pipe_size) ∷ window pi.buf (add_uint pi.nread 1) k) less

module _ (copyout : ℕ → Bool) (addr : ℕ) where
  -- The bytes `bs` went to `addr + i` and on, the bytes of `lost` left the queue and went nowhere.
  pub record Taken (k i : ℕ) (pi : Pipe) (bs lost : List ℕ) (pi' : Pipe) : Type 0 where
    pub valid : IsValid pi'
    pub split : contents pi ≡ bs ++ (lost ++ contents pi')
    pub fits : length bs ≤ k
    pub written : (j : ℕ) → j < length bs → copyout (addr + (i + j)) ≡ true
    pub whole : lost ≡ [] → length bs ≡ min k (used pi)
    pub fault : (lost ≡ []) ⊎ ((length lost ≡ 1) × (copyout (addr + (i + length bs)) ≡ false))
    pub readopen : pi'.readopen ≡ pi.readopen
    pub writeopen : pi'.writeopen ≡ pi.writeopen

  pub read_loop-Taken :
      (k i : ℕ) {pi : Pipe}
      → IsValid pi
      → let (bs, pi') = read_loop copyout addr k i pi in (lost : List ℕ) × Taken k i pi bs lost pi'
  unfolding read_loop
  read_loop-Taken zero i v = (
    [],
    record {
      valid = v;
      split = refl;
      fits = omega arith;
      written = λ j lj. absurd (omega arith);
      whole = λ e. omega arith;
      fault = inl refl;
      readopen = refl;
      writeopen = refl;
    },
  )
  read_loop-Taken (suc k) i {pi} v = elim (Bool-cases (pi.nread == pi.nwrite)) [
    | inl empty ↦ rw empty (
      [],
      record {
        valid = v;
        split = refl;
        fits = omega arith;
        written = λ j lj. absurd (omega arith);
        whole = λ e. ground (arith, empty_iff v);
        fault = inl refl;
        readopen = refl;
        writeopen = refl;
      },
    )
    | inr more ↦
        let pos : 0 < used pi = ground (arith, empty_iff v) in
        rw more (elim (Bool-cases (copyout (addr + i))) [
          | inr fault ↦ rw fault (
            pi.buf (pi.nread % pipe_size) ∷ [],
            record {
              valid = (advance-IsValid v pos).0;
              split = contents-advance v pos;
              fits = omega arith;
              written = λ j lj. absurd (omega arith);
              whole = λ e. cc;
              fault = inr (refl, (let e : addr + (i + 0) ≡ addr + i = omega arith in rw e fault));
              readopen = refl;
              writeopen = refl;
            },
          )
          | inl fine ↦ rw fine (
              let (lost, t) = read_loop-Taken k (i + 1) (advance-IsValid v pos).0 in
              (
                lost,
                record {
                  valid = t.valid;
                  split =
                      contents-advance v pos ∙ ap (λ l. pi.buf (pi.nread % pipe_size) ∷ l) t.split;
                  fits = omega (arith, t.fits);
                  written = λ j lj. elim (Bool-cases (j == 0)) [
                    | inl here ↦
                        let e : addr + (i + j) ≡ addr + i = omega (arith, ==→eq _ _ here) in
                        rw e fine
                    | inr later ↦
                        let e : addr + (i + j) ≡ addr + (i + 1 + (j - 1)) =
                          omega (arith, ==→ne _ _ later) in
                        rw e (t.written (j - 1) (omega (arith, ==→ne _ _ later)))
                  ];
                  whole = λ e. omega (arith, t.whole e, (advance-IsValid v pos).1);
                  fault = ground (arith, t.fault);
                  readopen = t.readopen;
                  writeopen = t.writeopen;
                },
              ))
        ])
  ]

Taken-wake :
    (copyout : ℕ → Bool) (addr k i : ℕ) {pi pi' : Pipe} {bs lost : List ℕ}
    → Taken copyout addr k i pi bs lost pi'
    → Taken copyout addr k i pi bs lost (wake_writers pi')
Taken-wake copyout addr k i t = record {
  valid = record { nread = t.valid.nread; nwrite = t.valid.nwrite; small = t.valid.small };
  split = t.split;
  fits = t.fits;
  written = t.written;
  whole = t.whole;
  fault = t.fault;
  readopen = t.readopen;
  writeopen = t.writeopen;
}

-- The three ways in which `piperead` stops: asleep, failed, and with bytes.
abbrev pub ReadStopped : (ℕ → Bool) → ℕ → ℕ → Bool → Pipe → Option (Option (List ℕ)) × Pipe → Type 0
ReadStopped copyout addr n killed pi (none, pi') =
    (used pi ≡ 0) × (pi.writeopen ≡ true) × (killed ≡ false) × (pi' ≡ pi)
ReadStopped copyout addr n killed pi (some none, pi') =
    (used pi ≡ 0) × (pi.writeopen ≡ true) × (killed ≡ true) × (pi' ≡ pi)
ReadStopped copyout addr n killed pi (some (some bs), pi') =
    ((0 < used pi) ⊎ (pi.writeopen ≡ false))
    × ((lost : List ℕ) × Taken copyout addr n 0 pi bs lost pi')

-- `piperead` sleeps only while the queue is empty and the write end open, and fails only if the
-- process was killed then. Otherwise the bytes that it returns are the first of the queue, as many
-- as were asked for or as there are, and each was copied out; where one cannot be copied out, the call
-- stops before it, and that byte has left the queue and is lost.
pub piperead-Stopped :
    (copyout : ℕ → Bool) (addr n : ℕ) (killed : Bool) {pi : Pipe}
    → IsValid pi
    → ReadStopped copyout addr n killed pi (piperead copyout addr killed n pi)
unfolding piperead
piperead-Stopped copyout addr n killed {pi} v =
    elim (Bool-cases ((pi.nread == pi.nwrite) && pi.writeopen)) [
      | inl wait ↦
          rw wait
            (elim killed
              as (λ k. ReadStopped copyout addr n k pi (if k then some none else none, pi)) [
                | true ↦ ground (arith, empty_iff v)
                | false ↦ ground (arith, empty_iff v)
              ])
      | inr go ↦
          let (lost, t) = read_loop-Taken copyout addr n 0 v in
          rw go (ground (arith, empty_iff v), (lost, Taken-wake copyout addr n 0 t))
    ]
