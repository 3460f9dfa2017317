-- ===== src/Shell/Tokens.antt =====
-- `gettoken` and `peek` of user/sh.c.
use cs202lab.Prelude.{
  ℕ, zero, suc, ◌+◌, ◌-◌, Bool, not, ◌&&◌, List, [], ◌∷◌, ◌==◌, if◌then◌else◌, has,
}
use cs202lab.KernelString.{Mem}
use cs202lab.Shell.Commands.{Word}

abbrev pub whitespace : List ℕ
whitespace = b' ' ∷ b'\t' ∷ b'\r' ∷ b'\n' ∷ 11 ∷ []

abbrev pub symbols : List ℕ
symbols = b'<' ∷ b'|' ∷ b'>' ∷ b'&' ∷ b';' ∷ b'(' ∷ b')' ∷ []

-- `*s && strchr(set, *s)`: for the sets above, and for NUL, this is what `strchr` tests.
abbrev pub in_set : ℕ → List ℕ → Bool
in_set c set = not (c == 0) && has c set

abbrev pub is_space : ℕ → Bool
is_space c = in_set c whitespace

abbrev pub is_ordinary : ℕ → Bool
is_ordinary c = not (in_set c whitespace) && not (in_set c symbols)

-- while(s < es && test) s++; with k bytes to go
unfoldable pub skip : Mem → (ℕ → Bool) → (k s : ℕ) → ℕ
skip text test zero s = s
skip text test (suc k) s = let rest = skip text test k (s + 1) in if test (text s) then rest else s

-- A token: what `gettoken` returns, the bounds of it, and `*ps`.
pub record Token : Type 0 where
  pub ret : ℕ
  pub word : Word
  pub ps : ℕ

-- The line ends at `es`.
module _ (text : Mem) (es : ℕ) where
  abbrev pub skip_space : ℕ → ℕ
  skip_space s = skip text is_space (es - s) s

  -- The `switch` of `gettoken` at q: the token, and its end.
  unfoldable pub token_at : ℕ → ℕ × ℕ
  token_at q =
      if text q == 0
      then (0, q)
      else if in_set (text q) (b'|' ∷ b'(' ∷ b')' ∷ b';' ∷ b'&' ∷ b'<' ∷ [])
      then (text q, q + 1)
      else if text q == b'>'
      then (if text (q + 1) == b'>' then (b'+', q + 2) else (b'>', q + 1))
      else (b'a', skip text is_ordinary (es - q) q)

  unfoldable pub gettoken : ℕ → Token
  gettoken s =
      let q = skip_space s in
      let t = token_at q in
      record { ret = t.0; word = record { q = q; eq = t.1 }; ps = skip_space t.1 }

  -- `*ps`, and whether a byte of the set stands there.
  unfoldable pub peek : ℕ → List ℕ → ℕ × Bool
  peek s toks = (skip_space s, in_set (text (skip_space s)) toks)

  -- Enough rounds for a loop that reads a byte in each.
  abbrev pub rounds : ℕ → ℕ
  rounds s = es - s + 1
