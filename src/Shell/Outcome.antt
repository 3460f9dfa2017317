-- ===== src/Shell/Outcome.antt =====
-- What a parser of user/sh.c may do with the line, and how that passes on through a chain of parsers.
use cs202lab.Prelude.{ℕ, ◌≤◌, arith}
use cs202lab.Shell.{Parse, ◌>>=◌}

-- What a parser that starts at s may do: it panics, or it returns a result that has P and `*ps` is
-- between s and the end. It does not run out of fuel.
abbrev pub Outcome {ℓ} : {A : Type ℓ} → (es s : ℕ) (P : A → Type 0) → Parse A → Type 0
Outcome es s P (Parse.parsed a ps) = P a × (s ≤ ps) × (ps ≤ es)
Outcome es s P (Parse.panics e) = Unit
Outcome es s P Parse.out_of_fuel = ⊥

module _ {ℓ} {A : Type ℓ} where
  pub Outcome-from :
      (es s s' : ℕ) (P : A → Type 0) (r : Parse A) → s ≤ s' → Outcome es s' P r → Outcome es s P r
  Outcome-from es s s' P (Parse.parsed a ps) h o = (o.0, omega (arith, o.1), o.2)
  Outcome-from es s s' P (Parse.panics e) h o = tt
  Outcome-from es s s' P Parse.out_of_fuel h o = o

module _ {ℓ κ} {A : Type ℓ} {B : Type κ} where
  pub Outcome-bind :
      (es s : ℕ) (P : A → Type 0) (Q : B → Type 0) (r : Parse A) (k : A × ℕ → Parse B)
      → Outcome es s P r
      → ((a : A) (ps : ℕ) → P a → s ≤ ps → ps ≤ es → Outcome es ps Q (k (a, ps)))
      → Outcome es s Q (r >>= k)
  Outcome-bind es s P Q (Parse.parsed a ps) k o next =
      Outcome-from es s ps Q (k (a, ps)) o.1 (next a ps o.0 o.1 o.2)
  Outcome-bind es s P Q (Parse.panics e) k o next = tt
  Outcome-bind es s P Q Parse.out_of_fuel k o next = absurd o
