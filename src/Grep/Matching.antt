-- ===== src/Grep/Matching.antt =====
-- The matcher of user/grep.c decides the language of its pattern.
use cs202lab.Prelude.{
  ℕ, zero, suc, ◌≤◌, ◌≡◌, refl, ◌⊎◌, ◌↔◌, inl, inr, Bool, true, false, ◌||◌, List, [], ◌∷◌, arith,
  ◌==◌, if◌then◌else◌, length, take, drop, All, Bool-cases,
}
use cs202lab.Grep.{matchstar, match_one, is_empty, matchhere, match_loop, match}

-- The parts of a pattern: a character, a starred character, the end of the text.
pub data Item : Type 0 where
  one : ℕ → Item
  star : ℕ → Item
  stop : Item

pub items : List ℕ → List Item
items [] = []
items (c ∷ []) = if c == b'$' then stop ∷ [] else one c ∷ []
items (c ∷ d ∷ re) = elim (d == b'*') [ true ↦ star c ∷ items re | false ↦ one c ∷ items (d ∷ re) ]

-- A pattern character stands for the text character `t`.
abbrev pub Fits : ℕ → ℕ → Type 0
Fits c t = (c ≡ b'.') ⊎ (c ≡ t)

-- A prefix of the text is in the language of the items.
abbrev pub Lang : List Item → List ℕ → Type 0
Lang [] text = Unit {0}
Lang (one c ∷ is) text = (t : ℕ) × (rest : List ℕ) × (text ≡ t ∷ rest) × Fits c t × Lang is rest
Lang (star c ∷ is) text =
    (k : ℕ) × (k ≤ length text) × All (Fits c) (take k text) × Lang is (drop k text)
Lang (stop ∷ is) text = text ≡ []

module _ (c : ℕ) (here : List ℕ → Bool) (is : List Item) where
  abbrev Decides : Type 0
  Decides = (text : List ℕ) → (here text ≡ true) ↔ Lang is text

  matchstar-Lang :
      Decides → (text : List ℕ) → (matchstar c here text ≡ true) ↔ Lang (star c ∷ is) text
  unfolding matchstar
  matchstar-Lang h [] = (λ e. (0, omega arith, tt, (h []).0 e), from)
    where
      from : Lang (star c ∷ is) [] → here [] ≡ true
      from (zero, l, a, g) = (h []).1 g
      from (suc k, l, a, g) = elim l [ ]
  matchstar-Lang h (t ∷ text) = (to (matchstar-Lang h text), from (matchstar-Lang h text))
    where
      Rest : Type 0
      Rest = (matchstar c here text ≡ true) ↔ Lang (star c ∷ is) text

      to :
          Rest
          → (if here (t ∷ text)
              then true
              else if (t == c) || (c == b'.')
              then matchstar c here text
              else false)
            ≡ true
          → Lang (star c ∷ is) (t ∷ text)
      to rest e = elim (Bool-cases (here (t ∷ text))) [
        | inl now ↦ (0, omega arith, tt, (h (t ∷ text)).0 now)
        | inr later ↦
            let (k, l, a, g) = rest.0 (ground arith) in (suc k, omega arith, (ground arith, a), g)
      ]

      from :
          Rest
          → Lang (star c ∷ is) (t ∷ text)
          → (if here (t ∷ text)
              then true
              else if (t == c) || (c == b'.')
              then matchstar c here text
              else false)
            ≡ true
      from rest (zero, l, a, g) = rw ((h (t ∷ text)).1 g)
      from rest (suc k, l, a, g) = ground (arith, rest.1 (k, omega arith, a.1, g), a.0)

  match_one-Lang :
      Decides → (text : List ℕ) → (match_one c here text ≡ true) ↔ Lang (one c ∷ is) text
  unfolding match_one
  match_one-Lang h [] = (λ e. cc, λ (t, rest, e, f, g). cc)
  match_one-Lang h (t ∷ text) = (
    λ e. (t, text, refl, ground arith, (h text).0 (ground arith)),
    λ (x, xs, e, f, g).
        let head : t ≡ x = cc in
        let tail : text ≡ xs = cc in
        let ends : here text ≡ true = (h text).1 (rw tail g) in ground (arith, f),
  )

is_empty_iff : (text : List ℕ) → (is_empty text ≡ true) ↔ (text ≡ [])
is_empty_iff [] = (λ e. refl, λ e. refl)
is_empty_iff (t ∷ text) = (λ e. cc, λ e. cc)

-- `matchhere` accepts exactly the texts with a prefix in the pattern's language.
pub matchhere-Lang : (re text : List ℕ) → (matchhere re text ≡ true) ↔ Lang (items re) text
unfolding matchhere items
matchhere-Lang [] text = (λ e. tt, λ l. refl)
matchhere-Lang (c ∷ []) text = elim (Bool-cases (c == b'$')) [
  | inl end ↦ rw end (is_empty_iff text)
  | inr other ↦ rw other (match_one-Lang c (matchhere []) [] (matchhere-Lang []) text)
]
matchhere-Lang (c ∷ d ∷ re) text = elim (Bool-cases (d == b'*')) [
  | inl starred ↦
      rw (starred, matchhere, items)
        (matchstar-Lang c (matchhere re) (items re) (matchhere-Lang re) text)
  | inr plain ↦
      rw (plain, matchhere, items)
        (match_one-Lang c (matchhere (d ∷ re)) (items (d ∷ re)) (matchhere-Lang (d ∷ re)) text)
]

-- Where a pattern may match: at the start only, or at any place.
abbrev pub Occurs : Bool → List Item → List ℕ → Type 0
Occurs true is text = Lang is text
Occurs false is text = (k : ℕ) × (k ≤ length text) × Lang is (drop k text)

match_loop-Occurs : (re text : List ℕ) → (match_loop re text ≡ true) ↔ Occurs false (items re) text
unfolding match_loop
match_loop-Occurs re [] = (
  λ e. (0, omega arith, (matchhere-Lang re []).0 e),
  λ (k, l, g). (matchhere-Lang re []).1 (let z : k ≡ 0 = omega arith in rw z at g),
)
match_loop-Occurs re (t ∷ text) = (
  λ e. elim (Bool-cases (matchhere re (t ∷ text))) [
    | inl now ↦ (0, omega arith, (matchhere-Lang re (t ∷ text)).0 now)
    | inr later ↦
        let (k, l, g) = (match_loop-Occurs re text).0 (ground arith) in (suc k, omega arith, g)
  ],
  λ o. later (match_loop-Occurs re text) o,
)
  where
    later :
        ((match_loop re text ≡ true) ↔ Occurs false (items re) text)
        → Occurs false (items re) (t ∷ text)
        → (if matchhere re (t ∷ text) then true else match_loop re text) ≡ true
    later rest (zero, l, g) = rw ((matchhere-Lang re (t ∷ text)).1 g)
    later rest (suc k, l, g) = ground (arith, rest.1 (k, omega arith, g))

-- A pattern that begins with ^ is anchored there.
abbrev pub anchored : List ℕ → Bool
anchored [] = false
anchored (c ∷ re) = c == b'^'

abbrev pub unanchored : List ℕ → List ℕ
unanchored [] = []
unanchored (c ∷ re) = if c == b'^' then re else c ∷ re

-- `match` accepts exactly the texts in which the pattern occurs: at the start if the pattern begins
-- with ^, and anywhere, the end included, if not.
pub match-Occurs :
    (re text : List ℕ) → (match re text ≡ true) ↔ Occurs (anchored re) (items (unanchored re)) text
unfolding match
match-Occurs [] text = match_loop-Occurs [] text
match-Occurs (c ∷ re) text = elim (Bool-cases (c == b'^')) [
  | inl start ↦ rw start (matchhere-Lang re text)
  | inr free ↦ rw free (match_loop-Occurs (c ∷ re) text)
]
