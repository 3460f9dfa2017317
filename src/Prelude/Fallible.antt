-- ===== src/Prelude/Fallible.antt =====
-- Chains of calls that may give nothing, as `do` blocks, and what a chain that succeeds went through.
use mathlib.Core.Path.{◌≡◌, refl}
use mathlib.Core.Logic.{◌≢◌}
use mathlib.Core.Option.{Option, none, some}

infixl 10 ◌>>=◌
abbrev pub ◌>>=◌ {ℓ κ} : {A : Type ℓ} {B : Type κ} → Option A → (A → Option B) → Option B
none >>= k = none
some a >>= k = k a

pub bind-some {ℓ κ} :
    {A : Type ℓ} {B : Type κ} (o : Option A) (k : A → Option B) (b : B)
    → o >>= k ≡ some b
    → (a : A) × (o ≡ some a) × (k a ≡ some b)
bind-some none k b e = absurd (cc)
bind-some (some a) k b e = (a, refl, e)

pub none-some {ℓ} : {A : Type ℓ} (a : A) → none ≢ some a
none-some a e = absurd (cc)
