-- ===== src/Printf.antt =====
-- user/printf.c. The bytes that `putc` writes are the list that a function returns, in order. An `int`
-- is the `uint` of its bits.
pub mod Digits
mod Examples
use cs202lab.Prelude.{
  ℕ, zero, suc, ◌+◌, ◌-◌, ◌*◌, ◌/◌, ◌%◌, ◌^◌, Bool, true, false, ◌&&◌, List, [], ◌∷◌, ◌++◌, Option,
  none, some, leb, ltb, ◌==◌, if◌then◌else◌, get_or, length, sub_uint,
}
use cs202lab.Prelude.Fallible.{◌>>=◌}

abbrev pub digits : List ℕ
digits =
    b'0' ∷ b'1' ∷ b'2' ∷ b'3' ∷ b'4' ∷ b'5' ∷ b'6' ∷ b'7' ∷ b'8' ∷ b'9' ∷ b'A' ∷ b'B' ∷ b'C' ∷ b'D'
    ∷ b'E' ∷ b'F' ∷ []

-- `digits[d]`
abbrev pub digit : ℕ → ℕ
digit d = get_or digits d 0

abbrev pub buf_len : ℕ
buf_len = 16

-- `buf[i++] = c`, where `buf` is the bytes from `buf[0]` to `buf[i - 1]`: none behind its end.
pub store : List ℕ → ℕ → Option (List ℕ)
store buf c = if ltb (length buf) buf_len then some (buf ++ c ∷ []) else none

-- do buf[i++] = digits[x % base]; while((x /= base) != 0);
pub put_digits : (fuel base x : ℕ) → List ℕ → Option (List ℕ)
unfolding store
put_digits zero base x buf = none
put_digits (suc k) base x buf =
    store buf (digit (x % base))
    >>= (λ b. elim (x / base == 0) [ true ↦ some b | false ↦ put_digits k base (x / base) b ])

-- while(--i >= 0) putc(fd, buf[i]);
abbrev pub backwards : List ℕ → List ℕ
backwards [] = []
backwards (c ∷ buf) = backwards buf ++ c ∷ []

-- `xx < 0` of an `int`
abbrev pub is_negative : ℕ → Bool
is_negative xx = leb (2 ^ 31) xx

-- `none` is a write behind `buf`.
pub printint : (xx base : ℕ) (sgn : Bool) → Option (List ℕ)
printint xx base sgn =
    let neg = sgn && is_negative xx in
    let x = if neg then sub_uint 0 xx else xx in
    put_digits 33 base x []
    >>= (λ buf. if neg then store buf b'-' else some buf)
    >>= (λ buf. some (backwards buf))

-- The loop of `printptr`, with k rounds to go: the highest four bits, and x <<= 4.
pub hex_digits : (k x : ℕ) → List ℕ
hex_digits zero x = []
hex_digits (suc k) x = digit (x / 2 ^ 60) ∷ hex_digits k (x * 16 % 2 ^ 64)

pub printptr : ℕ → List ℕ
unfolding hex_digits
printptr x = b'0' ∷ b'x' ∷ hex_digits 16 x

-- An argument of `vprintf`, as `va_arg` takes it: a number, or a string that may be null.
pub data Arg : Type 0 where
  number : ℕ → Arg
  text : Option (List ℕ) → Arg

-- What a conversion prints, and the arguments behind its own: `none` also if that is missing.
pub convert : ℕ → List Arg → Option (List ℕ × List Arg)
convert c args =
    if c == b'd'
    then (elim args [
      | Arg.number n ∷ rest ↦ printint (n % 2 ^ 32) 10 true >>= (λ out. some (out, rest))
      | _ ↦ none
    ])
    else if c == b'l'
    then (elim args [
      | Arg.number n ∷ rest ↦ printint (n % 2 ^ 32) 10 false >>= (λ out. some (out, rest))
      | _ ↦ none
    ])
    else if c == b'x'
    then (elim args [
      | Arg.number n ∷ rest ↦ printint (n % 2 ^ 32) 16 false >>= (λ out. some (out, rest))
      | _ ↦ none
    ])
    else if c == b'p'
    then (elim args [ Arg.number n ∷ rest ↦ some (printptr (n % 2 ^ 64), rest) | _ ↦ none ])
    else if c == b's'
    then (elim args [
      | Arg.text (some s) ∷ rest ↦ some (s, rest)
      | Arg.text none ∷ rest ↦ some (b'(' ∷ b'n' ∷ b'u' ∷ b'l' ∷ b'l' ∷ b')' ∷ [], rest)
      | _ ↦ none
    ])
    else if c == b'c'
    then (elim args [ Arg.number n ∷ rest ↦ some (n % 256 ∷ [], rest) | _ ↦ none ])
    else if c == b'%'
    then some (c ∷ [], args)
    else some (b'%' ∷ c ∷ [], args)

-- The loop of `vprintf` over the bytes of the format: `percent` is whether `state` is '%'.
pub vprintf_loop : (percent : Bool) (fmt : List ℕ) → List Arg → Option (List ℕ)
vprintf_loop percent [] args = some []
vprintf_loop false (c ∷ fmt) args = elim (c == b'%') [
  | true ↦ vprintf_loop true fmt args
  | false ↦ vprintf_loop false fmt args >>= (λ out. some (c ∷ out))
]
vprintf_loop true (c ∷ fmt) args =
    convert c args >>= (λ r. vprintf_loop false fmt r.1 >>= (λ out. some (r.0 ++ out)))

pub vprintf : List ℕ → List Arg → Option (List ℕ)
unfolding vprintf_loop
vprintf fmt args = vprintf_loop false fmt args
