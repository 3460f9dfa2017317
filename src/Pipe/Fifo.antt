-- ===== src/Pipe/Fifo.antt =====
-- Writers and readers that share a pipe of kernel/pipe.c, in any order of their steps: no byte is
-- lost, duplicated or reordered.
use cs202lab.Prelude.{
  ℕ, zero, suc, ◌+◌, ◌-◌, ◌%◌, ◌^◌, ◌≤◌, ◌≡◌, refl, sym, ◌∙◌, ap, Bool, true, false, Option, none,
  some, List, [], ◌∷◌, ◌++◌, append_assoc, arith, length, length-append,
}
use cs202lab.Pipe.{pipe_size, Pipe, fresh, pipeclose, Outcome, pipewrite, piperead}
use cs202lab.Pipe.Queue.{used, IsValid, contents, length-window, Reads, Written, pipewrite-Written}
use cs202lab.Pipe.Read.{Taken, ReadStopped, piperead-Stopped}

-- A fault-free read of `m` bytes of user memory.
abbrev pub bytes_at : (ℕ → Option ℕ) → ℕ → ℕ → List ℕ
bytes_at copyin a zero = []
bytes_at copyin a (suc m) = elim (copyin a) [ none ↦ [] | some b ↦ b ∷ bytes_at copyin (a + 1) m ]

-- How far `nwrite` went on.
abbrev pub added : Pipe → Pipe → ℕ
added pi pi' = (pi'.nwrite + 2 ^ 32 - pi.nwrite) % 2 ^ 32

-- What was written to a pipe and what was read from it.
pub record History : Type 0 where
  pub pi : Pipe
  pub sent : List ℕ
  pub got : List ℕ

-- A writer runs to its next sleep or its return, from wherever it was; so does a reader whose user
-- memory can be written; or an end is closed.
pub data Step (h : History) (h' : History) : Type 0 where
  write :
      (copyin : ℕ → Option ℕ) (killed : ℕ → Bool) (addr n i : ℕ) (out : Outcome) (pi' : Pipe)
      → pipewrite copyin killed addr n i h.pi ≡ (out, pi')
      → h' ≡ record {
        pi = pi';
        sent = h.sent ++ bytes_at copyin (addr + i) (added h.pi pi');
        got = h.got;
      }
      → Step h h'
  read :
      (addr n : ℕ) (killed : Bool) (bs : List ℕ) (pi' : Pipe)
      → piperead (λ _. true) addr killed n h.pi ≡ (some (some bs), pi')
      → h' ≡ record { pi = pi'; sent = h.sent; got = h.got ++ bs }
      → Step h h'
  close : (writable : Bool) → h' ≡ record h { pi = (pipeclose h.pi writable).0 } → Step h h'

pub data Reach : History → Type 0 where
  start : Reach (record { pi = fresh; sent = []; got = [] })
  next : {h h' : History} → Reach h → Step h h' → Reach h'

-- What was sent is what was got and what is in the pipe.
pub record InOrder (h : History) : Type 0 where
  pub valid : IsValid h.pi
  pub conserved : h.sent ≡ h.got ++ contents h.pi

bytes_at-Reads :
    (copyin : ℕ → Option ℕ) (a : ℕ) (bs : List ℕ)
    → Reads copyin a bs
    → bytes_at copyin a (length bs) ≡ bs
bytes_at-Reads copyin a [] r = refl
bytes_at-Reads copyin a (b ∷ bs) r =
    rw (r.0) (ap (λ l. b ∷ l) (bytes_at-Reads copyin (a + 1) bs r.1))

-- A write moves `nwrite` by the number of its bytes.
added-length :
    {pi pi' : Pipe} (bs : List ℕ)
    → IsValid pi
    → IsValid pi'
    → pi'.nread ≡ pi.nread
    → contents pi' ≡ contents pi ++ bs
    → added pi pi' ≡ length bs
added-length {pi} {pi'} bs v v' r e =
    let total : used pi' ≡ used pi + length bs =
      sym (length-window pi'.buf pi'.nread (used pi'))
      ∙ ap length e
      ∙ length-append (contents pi) bs
      ∙ ap (λ k. k + length bs) (length-window pi.buf pi.nread (used pi)) in
    omega (arith, v.nread, v.nwrite, v'.nwrite, v.small, v'.small)

fresh-InOrder : InOrder (record { pi = fresh; sent = []; got = [] })
unfolding fresh
fresh-InOrder = record { valid = omega arith; conserved = refl }

pipeclose-IsValid : (pi : Pipe) (w : Bool) → IsValid pi → IsValid (pipeclose pi w).0
unfolding pipeclose
pipeclose-IsValid pi true v = record { nread = v.nread; nwrite = v.nwrite; small = v.small }
pipeclose-IsValid pi false v = record { nread = v.nread; nwrite = v.nwrite; small = v.small }

pipeclose-contents : (pi : Pipe) (w : Bool) → contents (pipeclose pi w).0 ≡ contents pi
unfolding pipeclose
pipeclose-contents pi true = refl
pipeclose-contents pi false = refl

module _ {h : History} (o : InOrder h) where
  Written-InOrder :
      (copyin : ℕ → Option ℕ) (killed : ℕ → Bool) (addr i k : ℕ) (out : Outcome) (pi' : Pipe)
      (bs : List ℕ)
      → Written copyin killed addr i k h.pi out pi' bs
      → InOrder (record {
        pi = pi';
        sent = h.sent ++ bytes_at copyin (addr + i) (added h.pi pi');
        got = h.got;
      })
  Written-InOrder copyin killed addr i k out pi' bs w = record {
    valid = w.valid;
    conserved =
        ap (λ m. h.sent ++ bytes_at copyin (addr + i) m)
          (added-length bs o.valid w.valid w.nread w.appended)
        ∙ ap (λ l. h.sent ++ l) (bytes_at-Reads copyin (addr + i) bs w.reads)
        ∙ ap (λ l. l ++ bs) o.conserved
        ∙ append_assoc h.got (contents h.pi) bs
        ∙ ap (λ l. h.got ++ l) (sym w.appended);
  }

  Taken-InOrder :
      (addr n : ℕ) (bs lost : List ℕ) (pi' : Pipe)
      → Taken (λ _. true) addr n 0 h.pi bs lost pi'
      → InOrder (record { pi = pi'; sent = h.sent; got = h.got ++ bs })
  Taken-InOrder addr n bs [] pi' t = record {
    valid = t.valid;
    conserved =
        o.conserved ∙ ap (λ l. h.got ++ l) t.split ∙ sym (append_assoc h.got bs (contents pi'));
  }
  Taken-InOrder addr n bs (b ∷ lost) pi' t = absurd (ground (arith, t.fault))

Step-InOrder : {h h' : History} → Step h h' → InOrder h → InOrder h'
Step-InOrder {h} (write copyin killed addr n i out pi' run e) o =
    let (bs, w) = pipewrite-Written copyin killed addr n i o.valid in
    rw e (Written-InOrder o copyin killed addr i (n - i) out pi' bs (rw run at w))
Step-InOrder {h} (read addr n killed bs pi' run e) o =
    let s : ReadStopped (λ _. true) addr n killed h.pi (some (some bs), pi') =
      rw run at (piperead-Stopped (λ _. true) addr n killed o.valid) in
    rw e (Taken-InOrder o addr n bs (s.1.0) pi' s.1.1)
Step-InOrder {h} (close writable e) o = rw e (record {
  valid = pipeclose-IsValid h.pi writable o.valid;
  conserved = o.conserved ∙ ap (λ l. h.got ++ l) (sym (pipeclose-contents h.pi writable));
})

-- Whatever writers and readers do and in whatever order, the bytes that were written to the pipe are
-- the bytes that readers got, in that order, followed by the at most pipe_size bytes in the pipe. The
-- readers' memory is taken to be writable.
pub pipe_fifo :
    {h : History}
    → Reach h
    → (h.sent ≡ h.got ++ contents h.pi) × (length (contents h.pi) ≤ pipe_size)
pipe_fifo r = let o = go r in (o.conserved, omega (arith, o.valid.small, length-window _ _ _))
  where
    go : {h : History} → Reach h → InOrder h
    go start = fresh-InOrder
    go (next r st) = Step-InOrder st (go r)
