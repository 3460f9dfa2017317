-- ===== src/Shell/Scanning.antt =====
-- Where `gettoken` and `peek` of user/sh.c stop: they never pass the end of the line, a token moves
-- them on, and a word is one.
use cs202lab.Prelude.{
  ℕ, zero, suc, ◌+◌, ◌-◌, ◌≤◌, ◌<◌, ◌≡◌, ◌≢◌, refl, ◌⊎◌, inl, inr, Bool, true, false, arith, ◌==◌,
  ap, if◌then◌else◌, ==→eq, ==→ne, Bool-cases, List, [], ◌∷◌,
}
use cs202lab.KernelString.{Mem}
use cs202lab.Shell.Tokens.{
  skip, skip_space, is_space, is_ordinary, token_at, gettoken, peek, Token, in_set,
}
use cs202lab.Shell.Words.{IsWord, In}

module _ (text : Mem) (test : ℕ → Bool) where
  skip-bounds : (k s : ℕ) → (s ≤ skip text test k s) × (skip text test k s ≤ s + k)
  unfolding skip
  skip-bounds zero s = (omega arith, omega arith)
  skip-bounds (suc k) s = ground (arith, skip-bounds k (s + 1))

  skip-all : (k s i : ℕ) → s ≤ i → i < skip text test k s → test (text i) ≡ true
  unfolding skip
  skip-all zero s i lo hi = absurd (omega arith)
  skip-all (suc k) s i lo hi = elim (Bool-cases (i == s)) [
    | inl e ↦ ground arith
    | inr ne ↦ ground (arith, skip-all k (s + 1) i)
  ]

  skip-first : (k s : ℕ) → 0 < k → test (text s) ≡ true → s < skip text test k s
  unfolding skip
  skip-first zero s h e = absurd (omega arith)
  skip-first (suc k) s h e = rw (e) (omega (arith, skip-bounds k (s + 1)))

  skip-still : (k s : ℕ) → test (text s) ≡ false → skip text test k s ≡ s
  unfolding skip
  skip-still zero s e = refl
  skip-still (suc k) s e = rw (e) refl

  skip-stops : (k s : ℕ) → (skip text test k s ≡ s + k) ⊎ (test (text (skip text test k s)) ≡ false)
  unfolding skip
  skip-stops zero s = inl (omega arith)
  skip-stops (suc k) s = ground (arith, skip-stops k (s + 1))

-- A byte that starts no other token is ordinary.
other-ordinary :
    (c : ℕ)
    → c ≢ 0
    → is_space c ≡ false
    → in_set c (b'|' ∷ b'(' ∷ b')' ∷ b';' ∷ b'&' ∷ b'<' ∷ []) ≡ false
    → (c == b'>') ≡ false
    → is_ordinary c ≡ true
other-ordinary c nonzero space simple greater = ground (arith, nonzero, space, simple, greater)

in_set-nonzero : (c : ℕ) (set : List ℕ) → in_set c set ≡ true → c ≢ 0
in_set-nonzero c set h e = ground arith

no_letter : (c : ℕ) → in_set c (b'|' ∷ b'(' ∷ b')' ∷ b';' ∷ b'&' ∷ b'<' ∷ []) ≡ true → c ≢ b'a'
no_letter c simple e = ground arith

module _ (text : Mem) (start es : ℕ) (ended : text es ≡ 0) where
  pub skip_space-within :
      (s : ℕ) → s ≤ es → (s ≤ skip_space text es s) × (skip_space text es s ≤ es)
  skip_space-within s h = omega (arith, skip-bounds text is_space (es - s) s)

  skip_space-stops : (s : ℕ) → s ≤ es → is_space (text (skip_space text es s)) ≡ false
  skip_space-stops s h = elim (skip-stops text is_space (es - s) s) [
    | inl at_end ↦ let e : skip_space text es s ≡ es = omega arith in rw (e, ended) refl
    | inr e ↦ e
  ]

  -- What `token_at` gives at a byte that is no space.
  record At (q : ℕ) (t : ℕ × ℕ) : Type 0 where
    within : (q ≤ t.1) × (t.1 ≤ es)
    moves : t.0 ≢ 0 → q < t.1
    word : t.0 ≡ b'a' → start ≤ q → IsWord text start es (record { q = q; eq = t.1 })

  before_end : (q : ℕ) → q ≤ es → text q ≢ 0 → q < es
  before_end q h nonzero = elim (Bool-cases (q == es)) [
    | inl e ↦ let same : text q ≡ text es = ap text (==→eq _ _ e) in absurd (omega arith)
    | inr ne ↦ omega (arith, ==→ne _ _ ne)
  ]

  -- A token of one or two bytes.
  symbol-At : (q ret e : ℕ) → ret ≢ b'a' → q < e → e ≤ es → At q (ret, e)
  symbol-At q ret e other lo hi = record {
    within = (omega arith, omega arith);
    moves = λ n. lo;
    word = λ a b. absurd (other a);
  }

  greater-At :
      (q : ℕ) → q < es → At q (if text (q + 1) == b'>' then (b'+', q + 2) else (b'>', q + 1))
  greater-At q h = elim (Bool-cases (text (q + 1) == b'>')) [
    | inr one ↦ rw (one) (symbol-At q b'>' (q + 1) (λ e. omega arith) (omega arith) (omega arith))
    | inl two ↦
        let more = before_end (q + 1) (omega arith) (λ e. omega (arith, ==→eq _ _ two)) in
        rw (two) (symbol-At q b'+' (q + 2) (λ e. omega arith) (omega arith) (omega arith))
  ]

  word-At :
      (q : ℕ) → q < es → is_ordinary (text q) ≡ true → At q (b'a', skip text is_ordinary (es - q) q)
  word-At q h first =
      let (lo, hi) = skip-bounds text is_ordinary (es - q) q in
      let stops = skip-stops text is_ordinary (es - q) q in
      let one : q < skip text is_ordinary (es - q) q =
        skip-first text is_ordinary (es - q) q (omega arith) first in
      record {
        within = (omega arith, omega arith);
        moves = λ e. one;
        word = λ e from. record {
          from = from;
          nonempty = one;
          inside = omega arith;
          ordinary = skip-all text is_ordinary (es - q) q;
          ends = elim stops [ inl far ↦ inl (omega arith) | inr halt ↦ inr halt ];
        };
      }

  token_at-At : (q : ℕ) → q ≤ es → is_space (text q) ≡ false → At q (token_at text es q)
  unfolding token_at
  token_at-At q h space = elim (Bool-cases (text q == 0)) [
    | inl end ↦ rw (end) (record {
      within = (omega arith, omega arith);
      moves = λ e. absurd (e refl);
      word = λ e b. absurd (omega arith);
    })
    | inr nonzero ↦
        let lt = before_end q h (==→ne _ _ nonzero) in
        elim (Bool-cases (in_set (text q) (b'|' ∷ b'(' ∷ b')' ∷ b';' ∷ b'&' ∷ b'<' ∷ []))) [
          | inl simple ↦
              let other : text q ≢ b'a' = (λ a. no_letter (text q) simple a) in
              rw (token_at, simple, nonzero)
                (symbol-At q (text q) (q + 1) other (omega arith) (omega arith))
          | inr other ↦ elim (Bool-cases (text q == b'>')) [
            | inr lesser ↦
                let first = other-ordinary (text q) (==→ne _ _ nonzero) space other lesser in
                rw (token_at, other, nonzero, lesser) (word-At q lt first)
            | inl greater ↦ rw (token_at, other, nonzero, greater) (greater-At q lt)
          ]
        ]
  ]

  -- What a call of `gettoken` at s gives.
  pub record Gets (s : ℕ) (t : Token) : Type 0 where
    pub from : s ≤ t.ps
    pub inside : t.ps ≤ es
    pub moves : t.ret ≢ 0 → s < t.ps
    pub is_word : t.ret ≡ b'a' → IsWord text start es t.word

  pub gettoken-Gets : (s : ℕ) → In start es s → Gets s (gettoken text es s)
  unfolding gettoken
  gettoken-Gets s h =
      let q = skip_space text es s in
      let (lo, hi) = skip_space-within s h.1 in
      let at = token_at-At q hi (skip_space-stops s h.1) in
      let (lo', hi') = skip_space-within (token_at text es q).1 at.within.1 in
      record {
        from = omega (arith, at.within);
        inside = hi';
        moves = λ n. omega (arith, at.moves n);
        is_word = λ a. at.word a (omega arith);
      }

  pub peek-within :
      (s : ℕ) (toks : List ℕ)
      → In start es s
      → (s ≤ (peek text es s toks).0) × ((peek text es s toks).0 ≤ es)
  unfolding peek
  peek-within s toks h = skip_space-within s h.1

  token_at-nonzero : (q : ℕ) → text q ≢ 0 → (token_at text es q).0 ≢ 0
  unfolding token_at
  token_at-nonzero q h = ground (arith, h)

  gettoken-nonzero : (s : ℕ) → is_space (text s) ≡ false → text s ≢ 0 → (gettoken text es s).ret ≢ 0
  unfolding gettoken
  gettoken-nonzero s space h =
      let e = skip-still text is_space (es - s) s space in rw (e) (token_at-nonzero s h)

  -- What `peek` has seen is a token, which `gettoken` moves past.
  pub peek-moves :
      (s : ℕ) (toks : List ℕ)
      → In start es s
      → (peek text es s toks).1 ≡ true
      → (s < (gettoken text es (peek text es s toks).0).ps)
        × ((gettoken text es (peek text es s toks).0).ps ≤ es)
  unfolding peek
  peek-moves s toks h e =
      let (lo, hi) = skip_space-within s h.1 in
      let nonzero : text (skip_space text es s) ≢ 0 = in_set-nonzero _ toks e in
      let g = gettoken-Gets (skip_space text es s) (omega arith, hi) in
      let moved =
        g.moves (gettoken-nonzero (skip_space text es s) (skip_space-stops s h.1) nonzero) in
      (omega arith, g.inside)
