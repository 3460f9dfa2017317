-- ===== src/Console/Read.antt =====
-- `consoleread` of kernel/console.c against a reader of the pending bytes.
use cs202lab.Prelude.{
  add_uint, sub_uint, ==→ne, ℕ, zero, suc, ◌+◌, ◌%◌, ◌≤◌, ◌<◌, ◌≡◌, refl, sym, subst, ◌∙◌, ap, ◌≢◌,
  inl, inr, Bool, not, List, [], ◌∷◌, arith, ltb, ◌==◌, if◌then◌else◌, length, All, Bool-cases,
}
use cs202lab.Console.{input_buf_size, Cons, ctrl, Outcome, returned, failed, asleep, consoleread}
use cs202lab.Console.Ring.{window, ready, pending, line, IsValid}
use cs202lab.Console.Edit.{drop_last}

abbrev pub head : Cons → ℕ
head s = s.buf (s.r % input_buf_size)

module _ {s : Cons} (v : IsValid s) where
  none_ready : (s.r == s.w) ≡ (ready s == 0)
  none_ready = ground (arith, v.r, v.w)

  abbrev advance : Cons
  advance = record s { r = add_uint s.r 1 }

  module _ (some_ready : 0 < ready s) where
    ready-advance : ready s ≡ suc (ready advance)
    ready-advance = omega (arith, v.r, v.w)

    advance-IsValid : IsValid advance
    advance-IsValid = record {
      r = omega arith;
      w = v.w;
      e = v.e;
      small = omega (arith, v.small, ready-advance);
      unbroken = v.unbroken;
    }

    pending-advance : pending s ≡ s.buf (s.r % input_buf_size) ∷ pending advance
    pending-advance = ap (λ n. window s.buf s.r n) ready-advance

  back : sub_uint (add_uint s.r 1) 1 ≡ s.r
  back = omega (arith, v.r)

module _ (copyout : ℕ → Bool) (killed : Bool) (dst : ℕ) where
  -- What a read of the pending bytes is: a line, at most. A ^D ends it and is kept for the next call
  -- if there are bytes in front of it; so is everything behind the line.
  abbrev pub read_line : ℕ → ℕ → List ℕ → Outcome × List ℕ × List ℕ
  read_line zero i p = (returned i, [], p)
  read_line (suc k) i [] = (if killed then failed else asleep i, [], [])
  read_line (suc k) i (c ∷ p) =
      let (out, bytes, last) = read_line k (i + 1) p in
      if c == ctrl b'D'
      then (returned i, [], if ltb 0 i then c ∷ p else p)
      else if not (copyout (dst + i))
      then (returned i, [], p)
      else if c == b'\n'
      then (returned (i + 1), c ∷ [], p)
      else (out, c ∷ bytes, last)

  -- What `consoleread` returns and leaves is what reading the list `p` does.
  pub record Reads (s : Cons) (run : Outcome × List ℕ × Cons) (spec : Outcome × List ℕ × List ℕ)
      : Type 0 where
    pub out : run.0 ≡ spec.0
    pub bytes : run.1 ≡ spec.1
    pub pending : pending run.2 ≡ spec.2
    pub line : line run.2 ≡ line s
    pub valid : IsValid run.2

  Reads-nothing :
      {s t : Cons} (o : Outcome) (p : List ℕ)
      → IsValid t
      → t.buf ≡ s.buf
      → t.w ≡ s.w
      → t.e ≡ s.e
      → pending t ≡ p
      → Reads s (o, [], t) (o, [], p)
  Reads-nothing o p v b w e q = record {
    out = refl;
    bytes = refl;
    pending = q;
    line = ground (arith, b, w, e);
    valid = v;
  }

  -- `consoleread` returns, delivers and leaves in the ring what a reader of lines does with the
  -- pending bytes, for every count, and does not touch the line that is edited.
  pub consoleread-Reads :
      (k i : ℕ) {s : Cons}
      → IsValid s
      → Reads s (consoleread copyout killed dst k i s) (read_line k i (pending s))
  unfolding consoleread
  consoleread-Reads zero i v = record {
    out = refl;
    bytes = refl;
    pending = refl;
    line = refl;
    valid = v;
  }
  consoleread-Reads (suc k) i {s} v = elim (Bool-cases (s.r == s.w)) [
    | inl empty ↦
        let nothing : ready s ≡ 0 = ground (arith, none_ready v) in
        let none_pending : pending s ≡ [] = ap (λ n. window s.buf s.r n) nothing in
        rw (empty, none_pending)
          (Reads-nothing (if killed then failed else asleep i) [] v refl refl refl none_pending)
    | inr some_left ↦
        let some_ready : 0 < ready s = ground (arith, none_ready v) in
        let later = advance-IsValid v some_ready in
        elim (Bool-cases (head s == ctrl b'D')) [
          | inl eof ↦ elim (Bool-cases (ltb 0 i)) [
            | inl some_done ↦
                rw (some_left, pending-advance v some_ready, eof, some_done)
                  (Reads-nothing (returned i) (head s ∷ pending (advance v))
                    (subst (λ r. IsValid (record s { r = r })) (sym (back v)) v) refl refl refl
                    (ap (λ r. window s.buf r (sub_uint s.w r)) (back v)
                      ∙ pending-advance v some_ready))
            | inr none_done ↦
                rw (some_left, pending-advance v some_ready, eof, none_done)
                  (Reads-nothing (returned i) (pending (advance v)) later refl refl refl refl)
          ]
          | inr text ↦ elim (Bool-cases (copyout (dst + i))) [
            | inr fault ↦
                rw (some_left, pending-advance v some_ready, text, fault)
                  (Reads-nothing (returned i) (pending (advance v)) later refl refl refl refl)
            | inl good ↦ elim (Bool-cases (head s == b'\n')) [
              | inl newline ↦
                  rw (some_left, pending-advance v some_ready, text, good, newline)
                    (record {
                      out = refl;
                      bytes = refl;
                      pending = refl;
                      line = refl;
                      valid = later;
                    })
              | inr inside ↦
                  let rest = consoleread-Reads k (i + 1) later in
                  rw (some_left, pending-advance v some_ready, text, good, inside)
                    (record {
                      out = rest.out;
                      bytes = ap (λ l. head s ∷ l) rest.bytes;
                      pending = rest.pending;
                      line = rest.line;
                      valid = rest.valid;
                    })
            ]
          ]
        ]
  ]

All-drop_last-cons :
    (P : ℕ → Type 0) (c : ℕ) (cs : List ℕ) → P c → All P (drop_last cs) → All P (drop_last (c ∷ cs))
All-drop_last-cons P c [] p a = tt
All-drop_last-cons P c (d ∷ cs) p a = (p, a)

-- The bytes are at most the k that were asked for, none is a ^D, and none but the last a newline.
abbrev pub OneLine : ℕ → List ℕ → Type 0
OneLine k bytes =
    (length bytes ≤ k) × All (λ c. c ≢ ctrl b'D') bytes × All (λ c. c ≢ b'\n') (drop_last bytes)

-- What `consoleread` delivers before it sleeps or returns is part of one line, whatever the ring holds.
pub consoleread-OneLine :
    (copyout : ℕ → Bool) (killed : Bool) (dst k i : ℕ) (s : Cons)
    → OneLine k (consoleread copyout killed dst k i s).1
unfolding consoleread
consoleread-OneLine copyout killed dst zero i s = (omega arith, tt, tt)
consoleread-OneLine copyout killed dst (suc k) i s = elim (Bool-cases (s.r == s.w)) [
  | inl empty ↦ rw empty (omega arith, tt, tt)
  | inr some_left ↦ elim (Bool-cases (head s == ctrl b'D')) [
    | inl eof ↦ rw (some_left, eof) (omega arith, tt, tt)
    | inr text ↦ elim (Bool-cases (copyout (dst + i))) [
      | inr fault ↦ rw (some_left, text, fault) (omega arith, tt, tt)
      | inl good ↦ elim (Bool-cases (head s == b'\n')) [
        | inl newline ↦ rw (some_left, text, good, newline) (omega arith, (==→ne _ _ text, tt), tt)
        | inr inside ↦
            let rest =
              consoleread-OneLine copyout killed dst k (i + 1) (record s { r = add_uint s.r 1 }) in
            rw (some_left, text, good, inside)
              (
                omega (arith, rest.0),
                (==→ne _ _ text, rest.1),
                All-drop_last-cons (λ c. c ≢ b'\n') (head s) _ (==→ne _ _ inside) rest.2,
              )
      ]
    ]
  ]
]
