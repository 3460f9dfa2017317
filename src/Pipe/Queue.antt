-- ===== src/Pipe/Queue.antt =====
-- A pipe of kernel/pipe.c is a queue of at most pipe_size bytes, also where its 32-bit counters wrap.
use cs202lab.Prelude.{
  add_uint, ℕ, zero, suc, ◌+◌, ◌-◌, ◌%◌, ◌^◌, ◌≤◌, ◌<◌, ◌≡◌, refl, ◌∙◌, ap, ◌⊎◌, inl, inr, Bool,
  true, false, not, ◌||◌, Option, none, some, List, [], ◌∷◌, ◌++◌, append_assoc, append-nil, arith,
  ◌==◌, update, length, Bool-cases, Option-cases,
}
use cs202lab.Pipe.{pipe_size, Pipe, put, Outcome, wrote, failed, asleep, write_loop, pipewrite}

-- The bytes in use, counted as `uint` subtraction does.
abbrev pub used : Pipe → ℕ
used pi = (pi.nwrite + 2 ^ 32 - pi.nread) % 2 ^ 32

pub record IsValid (pi : Pipe) : Type 0 where
  pub nread : pi.nread < 2 ^ 32
  pub nwrite : pi.nwrite < 2 ^ 32
  pub small : used pi ≤ pipe_size

-- The n bytes from counter r on.
abbrev pub window : (ℕ → ℕ) → ℕ → ℕ → List ℕ
window buf r zero = []
window buf r (suc n) = buf (r % pipe_size) ∷ window buf (add_uint r 1) n

abbrev pub contents : Pipe → List ℕ
contents pi = window pi.buf pi.nread (used pi)

pub length-window : (buf : ℕ → ℕ) (r n : ℕ) → length (window buf r n) ≡ n
length-window buf r zero = refl
length-window buf r (suc n) = ap suc (length-window buf (add_uint r 1) n)

window-put :
    (buf : ℕ → ℕ) (c n r w : ℕ)
    → r < 2 ^ 32
    → n < pipe_size
    → w ≡ add_uint r n
    → window (update buf (w % pipe_size) c) r (suc n) ≡ window buf r n ++ c ∷ []
window-put buf c zero r w hr hn e = ground arith
window-put buf c (suc n) r w hr hn e =
    ground (arith, window-put buf c n (add_uint r 1) w (omega arith) (omega arith) (omega arith))

pub window_of_pos :
    (buf : ℕ → ℕ) (r n : ℕ)
    → 0 < n
    → window buf r n ≡ buf (r % pipe_size) ∷ window buf (add_uint r 1) (n - 1)
window_of_pos buf r zero h = absurd (omega arith)
window_of_pos buf r (suc n) h =
    ap (λ k. buf (r % pipe_size) ∷ window buf (add_uint r 1) k) (omega arith)

module _ {pi : Pipe} (v : IsValid pi) where
  pub full_iff : (pi.nwrite == add_uint pi.nread pipe_size) ≡ (used pi == pipe_size)
  full_iff = ground (arith, v.small)

  pub empty_iff : (pi.nread == pi.nwrite) ≡ (used pi == 0)
  empty_iff = ground arith

  pub put-IsValid :
      (c : ℕ) → used pi < pipe_size → IsValid (put pi c) × (used (put pi c) ≡ used pi + 1)
  unfolding put
  put-IsValid c h = omega (arith, v.nread, v.nwrite)

  pub contents-put : (c : ℕ) → used pi < pipe_size → contents (put pi c) ≡ contents pi ++ c ∷ []
  unfolding put
  contents-put c h =
      let grows : used (put pi c) ≡ suc (used pi) = omega (arith, (put-IsValid c h).1) in
      ap (λ k. window (update pi.buf (pi.nwrite % pipe_size) c) pi.nread k) grows
      ∙ window-put pi.buf c (used pi) pi.nread pi.nwrite v.nread h
          (omega (arith, v.nread, v.nwrite))

-- The bytes at user addresses `a`, `a + 1` and on can be read and are those of the list.
abbrev pub Reads : (ℕ → Option ℕ) → ℕ → List ℕ → Type 0
Reads copyin a [] = Unit
Reads copyin a (b ∷ bs) = (copyin a ≡ some b) × Reads copyin (a + 1) bs

module _ (copyin : ℕ → Option ℕ) (killed : ℕ → Bool) (addr : ℕ) where
  -- Why `pipewrite` stopped after `m` more bytes, of the `k` that were left at `i`.
  abbrev pub Stopped : ℕ → ℕ → ℕ → Pipe → Outcome → Type 0
  Stopped i k m pi (wrote j) = (j ≡ i + m) × ((m ≡ k) ⊎ ((m < k) × (copyin (addr + j) ≡ none)))
  Stopped i k m pi failed = (m < k) × ((pi.readopen ≡ false) ⊎ (killed (i + m) ≡ true))
  Stopped i k m pi (asleep j) = (j ≡ i + m) × (m < k) × (used pi ≡ pipe_size) × (pi.readopen ≡ true)

  pub record Written (i k : ℕ) (pi : Pipe) (out : Outcome) (pi' : Pipe) (bs : List ℕ) : Type 0 where
    pub valid : IsValid pi'
    pub reads : Reads copyin (addr + i) bs
    pub appended : contents pi' ≡ contents pi ++ bs
    pub stopped : Stopped i k (length bs) pi' out
    pub nread : pi'.nread ≡ pi.nread
    pub readopen : pi'.readopen ≡ pi.readopen
    pub writeopen : pi'.writeopen ≡ pi.writeopen

  Written-nil :
      (i k : ℕ) {pi pi' : Pipe} {out : Outcome}
      → IsValid pi
      → pi'.buf ≡ pi.buf
      → pi'.nread ≡ pi.nread
      → pi'.nwrite ≡ pi.nwrite
      → pi'.readopen ≡ pi.readopen
      → pi'.writeopen ≡ pi.writeopen
      → Stopped i k 0 pi' out
      → Written i k pi out pi' []
  Written-nil i k {pi} {pi'} v b r w ro wo why = record {
    valid = ground (arith, v.nread, v.nwrite, v.small);
    reads = tt;
    appended = ground (arith, append-nil (contents pi));
    stopped = why;
    nread = r;
    readopen = ro;
    writeopen = wo;
  }

  Stopped-suc :
      (i k m : ℕ) (pi : Pipe) (out : Outcome)
      → Stopped (i + 1) k m pi out
      → Stopped i (suc k) (suc m) pi out
  Stopped-suc i k m pi (wrote j) h = ground arith
  Stopped-suc i k m pi failed h =
      let e : i + 1 + m ≡ i + suc m = omega arith in ground (arith, ap killed e)
  Stopped-suc i k m pi (asleep j) h = ground arith

  -- One more byte before the rest.
  Written-cons :
      (i k b : ℕ) {pi pi' : Pipe} {out : Outcome} {bs : List ℕ}
      → IsValid pi
      → used pi < pipe_size
      → copyin (addr + i) ≡ some b
      → Written (i + 1) k (put pi b) out pi' bs
      → Written i (suc k) pi out pi' (b ∷ bs)
  unfolding put
  Written-cons i k b {pi} {pi'} {out} {bs} v room e w = record {
    valid = w.valid;
    reads = (e, let same : addr + (i + 1) ≡ addr + i + 1 = omega arith in rw same at w.reads);
    appended =
        w.appended
        ∙ ap (λ l. l ++ bs) (contents-put v b room)
        ∙ append_assoc (contents pi) (b ∷ []) bs;
    stopped = Stopped-suc i k (length bs) pi' out w.stopped;
    nread = w.nread;
    readopen = w.readopen;
    writeopen = w.writeopen;
  }

  pub write_loop-Written :
      (k i : ℕ) {pi : Pipe}
      → IsValid pi
      → let (out, pi') = write_loop copyin killed addr k i pi in
        (bs : List ℕ) × Written i k pi out pi' bs
  unfolding write_loop
  write_loop-Written zero i v =
      ([], Written-nil i 0 v refl refl refl refl refl (omega arith, inl refl))
  write_loop-Written (suc k) i {pi} v = elim (Bool-cases (not pi.readopen || killed i)) [
    | inl stop ↦ rw stop (
      [],
      Written-nil i (suc k) v refl refl refl refl refl
          (let e : i + 0 ≡ i = omega arith in ground (arith, ap killed e)),
    )
    | inr go ↦ rw go (elim (Bool-cases (pi.nwrite == add_uint pi.nread pipe_size)) [
      | inl full ↦
          rw full
            ([], Written-nil i (suc k) v refl refl refl refl refl (ground (arith, full_iff v)))
      | inr room ↦ rw room (elim (Option-cases (copyin (addr + i))) [
        | inl fault ↦ rw fault ([], Written-nil i (suc k) v refl refl refl refl refl (ground arith))
        | inr (b, e) ↦ rw e (
            let less : used pi < pipe_size = ground (arith, v.small, full_iff v) in
            let (bs, w) = write_loop-Written k (i + 1) (put-IsValid v b less).0 in
            (b ∷ bs, Written-cons i k b v less e w))
      ])
    ])
  ]

-- What `pipewrite` does between two sleeps: a prefix of the bytes from `addr + i` on goes to the end
-- of the queue. The call returns n when all of the n - i bytes left are there, returns early only at
-- an address that cannot be read, fails only if the read end is closed or the process was killed, and
-- sleeps only while the queue is full and its read end open.
pub pipewrite-Written :
    (copyin : ℕ → Option ℕ) (killed : ℕ → Bool) (addr n i : ℕ) {pi : Pipe}
    → IsValid pi
    → let (out, pi') = pipewrite copyin killed addr n i pi in
      (bs : List ℕ) × Written copyin killed addr i (n - i) pi out pi' bs
unfolding pipewrite
pipewrite-Written copyin killed addr n i v = write_loop-Written copyin killed addr (n - i) i v
