-- ===== src/Grep/Lines.antt =====
-- The reading loop of user/grep.c: how the file is cut into reads does not matter.
use cs202lab.Prelude.{
  ℕ, suc, ◌-◌, ◌≤◌, ◌<◌, ◌≡◌, refl, sym, ◌∙◌, ap, ◌≢◌, inl, inr, true, false, List, [], ◌∷◌, ◌++◌,
  append-nil, append_assoc, arith, min, ◌==◌, if◌then◌else◌, length, length-append, take, drop, All,
  All-append, All-take-drop, take-append-drop, length-drop, Bool-cases, ne→==, ==→ne, ==→eq,
}
use cs202lab.Grep.{match, scan, buf_size, grep}

-- The complete lines of a text, without their newlines, with `line` read already of the first.
pub lines : List ℕ → List ℕ → List (List ℕ)
lines line [] = []
lines line (c ∷ cs) = if c == b'\n' then line ∷ lines [] cs else lines (line ++ c ∷ []) cs

-- The lines that match, each with its newline.
pub matching : List ℕ → List (List ℕ) → List ℕ
matching pattern [] = []
matching pattern (l ∷ ls) =
    if match pattern l then (l ++ b'\n' ∷ []) ++ matching pattern ls else matching pattern ls

-- Every line, the unfinished one too, leaves room in the buffer; m bytes of the first are read.
abbrev pub Short : ℕ → List ℕ → Type 0
Short m [] = suc m < buf_size
Short m (c ∷ cs) = (suc m < buf_size) × Short (if c == b'\n' then 0 else suc m) cs

abbrev pub NoNul : List ℕ → Type 0
NoNul = All (λ c. c ≢ 0)

abbrev Plain : List ℕ → Type 0
Plain = All (λ c. (c ≢ 0) × (c ≢ b'\n'))

module _ (pattern : List ℕ) where
  -- What the end of a line prints.
  abbrev echoed : List ℕ → List ℕ
  echoed line = if match pattern line then line ++ b'\n' ∷ [] else []

  scan-newline :
      (line cs : List ℕ) (c : ℕ)
      → (c == b'\n') ≡ true
      → scan pattern line (c ∷ cs) ≡ (echoed line ++ (scan pattern [] cs).0, (scan pattern [] cs).1)
  unfolding scan
  scan-newline line cs c e = ground arith

  scan-char :
      (line cs : List ℕ) (c : ℕ)
      → c ≢ 0
      → (c == b'\n') ≡ false
      → scan pattern line (c ∷ cs) ≡ scan pattern (line ++ c ∷ []) cs
  unfolding scan
  scan-char line cs c h e = ground arith

  scan-lines :
      (line cs : List ℕ) → NoNul cs → (scan pattern line cs).0 ≡ matching pattern (lines line cs)
  unfolding lines matching
  scan-lines line [] h = unfold scan in refl
  scan-lines line (c ∷ cs) h = elim (Bool-cases (c == b'\n')) [
    | inl end ↦ rw (scan-newline line cs c end) (ground (arith, scan-lines [] cs h.1))
    | inr more ↦
        rw (scan-char line cs c h.0 more) (ground (arith, scan-lines (line ++ c ∷ []) cs h.1))
  ]

  -- A text is scanned in two parts as in one.
  scan-append :
      (line xs ys : List ℕ)
      → NoNul xs
      → scan pattern line (xs ++ ys) ≡ (
        (scan pattern line xs).0 ++ (scan pattern (scan pattern line xs).1 ys).0,
        (scan pattern (scan pattern line xs).1 ys).1,
      )
  scan-append line [] ys h = unfold scan in refl
  scan-append line (c ∷ cs) ys h = elim (Bool-cases (c == b'\n')) [
    | inl end ↦ rw (
      scan-newline line (cs ++ ys) c end,
      scan-newline line cs c end,
      scan-append [] cs ys h.1,
      append_assoc,
    )
    | inr more ↦
        rw (scan-char line (cs ++ ys) c h.0 more, scan-char line cs c h.0 more)
          (scan-append (line ++ c ∷ []) cs ys h.1)
  ]

  scan-Plain :
      (line r ys : List ℕ) → Plain r → scan pattern line (r ++ ys) ≡ scan pattern (line ++ r) ys
  scan-Plain line [] ys h = ap (λ l. scan pattern l ys) (sym (append-nil line))
  scan-Plain line (c ∷ r) ys h =
      scan-char line (r ++ ys) c h.0.0 (ne→== _ _ h.0.1)
      ∙ scan-Plain (line ++ c ∷ []) r ys h.1
      ∙ ap (λ l. scan pattern l ys) (append_assoc line (c ∷ []) r)

  Plain-scan : (line cs : List ℕ) → Plain line → NoNul cs → Plain (scan pattern line cs).1
  Plain-scan line [] l h = unfold scan in l
  Plain-scan line (c ∷ cs) l h = elim (Bool-cases (c == b'\n')) [
    | inl end ↦ rw (scan-newline line cs c end) (Plain-scan [] cs tt h.1)
    | inr more ↦ rw (scan-char line cs c h.0 more) (
        Plain-scan (line ++ c ∷ []) cs
          ((All-append (λ c. (c ≢ 0) × (c ≢ b'\n')) line (c ∷ [])).1
            (l, ((h.0, ==→ne _ _ more), tt)))
          h.1)
  ]

  Short-scan :
      (line xs ys : List ℕ)
      → NoNul xs
      → Short (length line) (xs ++ ys)
      → Short (length (scan pattern line xs).1) ys
  Short-scan line [] ys h s = unfold scan in s
  Short-scan line (c ∷ cs) ys h s = elim (Bool-cases (c == b'\n')) [
    | inl end ↦ rw (scan-newline line cs c end) (Short-scan [] cs ys h.1 (rw end at s.1))
    | inr more ↦
        let grows : length (line ++ c ∷ []) ≡ suc (length line) =
          omega (arith, length-append line (c ∷ [])) in
        rw (scan-char line cs c h.0 more)
          (Short-scan (line ++ c ∷ []) cs ys h.1 (rw grows (rw more at s.1)))
  ]

  Short-room : (m : ℕ) (cs : List ℕ) → Short m cs → suc m < buf_size
  Short-room m [] s = s
  Short-room m (c ∷ cs) s = s.0

  grep-scan :
      (sizes input buf : List ℕ)
      → length input ≤ length sizes
      → All (λ s. 0 < s) sizes
      → Plain buf
      → NoNul input
      → Short (length buf) input
      → grep pattern sizes input buf ≡ (scan pattern buf input).0
  unfolding grep
  grep-scan [] [] buf l pos plain h s = unfold scan in refl
  grep-scan [] (c ∷ cs) buf l pos plain h s = elim l [ ]
  grep-scan (m ∷ sizes) input buf l pos plain h s =
      let n : ℕ = min (min m (buf_size - length buf - 1)) (length input) in
      elim (Bool-cases (n == 0)) [
        | inl none_read ↦ rw none_read (
            empty input
              (omega (arith, ==→eq _ _ none_read, pos.0, Short-room (length buf) input s)))
        | inr some_read ↦
            let parts = All-take-drop (λ c. c ≢ 0) n input h in
            let joined = scan-Plain [] buf (take n input) plain in
            let short : Short (length (scan pattern buf (take n input)).1) (drop n input) =
              Short-scan buf (take n input) (drop n input) parts.0
                (rw (take-append-drop n input) s) in
            let rest =
              grep-scan sizes (drop n input) (scan pattern buf (take n input)).1
                (omega (arith, length-drop n input, ==→ne _ _ some_read)) pos.1
                (Plain-scan buf (take n input) plain parts.0) parts.1 short in
            rw (some_read, joined, rest)
              (sym (ap (λ r. r.0) (scan-append buf (take n input) (drop n input) parts.0))
                ∙ ap (λ l. (scan pattern buf l).0) (take-append-drop n input))
      ]
    where
      empty : (cs : List ℕ) → length cs ≡ 0 → [] ≡ (scan pattern buf cs).0
      empty [] e = unfold scan in refl
      empty (c ∷ cs) e = absurd (omega arith)

-- On a text with no NUL, all of whose lines fit into the buffer, `grep` prints the complete lines
-- that match, each with its newline, in order, and nothing else, however the system cuts the file
-- into reads of at least one byte.
pub grep-matching :
    (pattern sizes input : List ℕ)
    → length input ≤ length sizes
    → All (λ s. 0 < s) sizes
    → NoNul input
    → Short 0 input
    → grep pattern sizes input [] ≡ matching pattern (lines [] input)
grep-matching pattern sizes input l pos h s =
    grep-scan pattern sizes input [] l pos tt h s ∙ scan-lines pattern [] input h
