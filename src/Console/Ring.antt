-- ===== src/Console/Ring.antt =====
-- The input ring of kernel/console.c as two lists: the bytes that readers may take, and the line that
-- is still edited.
use cs202lab.Prelude.{
  add_uint, sub_uint, subst, ℕ, zero, suc, ◌+◌, ◌%◌, ◌^◌, ◌≤◌, ◌<◌, ◌≡◌, refl, ◌∙◌, ap, ◌≢◌, List,
  [], ◌∷◌, ◌++◌, arith, update, length, All,
}
use cs202lab.Console.{input_buf_size, Cons}

-- The n bytes from counter r on.
abbrev pub window : (ℕ → ℕ) → ℕ → ℕ → List ℕ
window buf r zero = []
window buf r (suc n) = buf (r % input_buf_size) ∷ window buf (add_uint r 1) n

abbrev pub ready : Cons → ℕ
ready s = sub_uint s.w s.r

abbrev pub edited : Cons → ℕ
edited s = sub_uint s.e s.w

abbrev pub pending : Cons → List ℕ
pending s = window s.buf s.r (ready s)

abbrev pub line : Cons → List ℕ
line s = window s.buf s.w (edited s)

-- The line has no newline: one would have ended it.
pub record IsValid (s : Cons) : Type 0 where
  pub r : s.r < 2 ^ 32
  pub w : s.w < 2 ^ 32
  pub e : s.e < 2 ^ 32
  pub small : ready s + edited s ≤ input_buf_size
  pub unbroken : All (λ c. c ≢ b'\n') (line s)

pub length-window : (buf : ℕ → ℕ) (r n : ℕ) → length (window buf r n) ≡ n
length-window buf r zero = refl
length-window buf r (suc n) = ap suc (length-window buf (add_uint r 1) n)

-- A byte that is stored d places behind the window leaves it as it is.
pub window-update :
    (buf : ℕ → ℕ) (c n r p d : ℕ)
    → r < 2 ^ 32
    → n + d < input_buf_size
    → p ≡ add_uint r (n + d)
    → window (update buf (p % input_buf_size) c) r n ≡ window buf r n
window-update buf c zero r p d hr hn e = refl
window-update buf c (suc n) r p d hr hn e =
    ground
      (arith, window-update buf c n (add_uint r 1) p d (omega arith) (omega arith) (omega arith))

-- Two windows that meet are one.
pub window-add :
    (buf : ℕ → ℕ) (n r m q : ℕ)
    → r < 2 ^ 32
    → q ≡ add_uint r n
    → window buf r (n + m) ≡ window buf r n ++ window buf q m
window-add buf zero r m q hr e =
    let none_before : 0 + m ≡ m = omega arith in
    let here : r ≡ q = omega arith in
    ap (λ k. window buf r k) none_before ∙ ap (λ p. window buf p m) here
window-add buf (suc n) r m q hr e =
    let one_before : suc n + m ≡ suc (n + m) = omega arith in
    ap (λ k. window buf r k) one_before
    ∙ ap (λ l. buf (r % input_buf_size) ∷ l)
        (window-add buf n (add_uint r 1) m q (omega arith) (omega arith))

pub All-window :
    (P : ℕ → Type 0) (buf : ℕ → ℕ) (n r i p : ℕ)
    → r < 2 ^ 32
    → i < n
    → p ≡ add_uint r i
    → All P (window buf r n)
    → P (buf (p % input_buf_size))
All-window P buf zero r i p hr lt e a = absurd (omega arith)
All-window P buf (suc n) r zero p hr lt e a =
    let here : r ≡ p = omega arith in subst (λ q. P (buf (q % input_buf_size))) here a.0
All-window P buf (suc n) r (suc i) p hr lt e a =
    All-window P buf n (add_uint r 1) i p (omega arith) (omega arith) (omega arith) a.1
