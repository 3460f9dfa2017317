-- ===== src/Printf/Digits.antt =====
-- The digits that `printint` of user/printf.c writes, and `atoi` of user/ulib.c on them.
use native.Mathlib.Nat.{pow-suc, mul_assoc}
use cs202lab.Prelude.{
  ℕ, zero, suc, ◌+◌, ◌-◌, ◌*◌, ◌/◌, ◌%◌, ◌^◌, ◌≤◌, ◌<◌, ◌≡◌, ◌≢◌, refl, sym, subst, ap, ◌∙◌, inl,
  inr, true, false, List, [], ◌∷◌, ◌++◌, Option, some, arith, ◌==◌, if◌then◌else◌, length,
  Bool-cases, sub_uint, ==→eq, ==→ne, All, length-append, append_assoc, append-nil, All-append,
}
use cs202lab.KernelString.{Mem}
use cs202lab.KernelString.Strings.{Holds}
use cs202lab.Ulib.{atoi}
use cs202lab.Ulib.Numbers.{HoldsDigits, decimal, atoi-decimal}
use cs202lab.Printf.{digit, store, put_digits, backwards, is_negative, printint}

-- The value of digits in the order in which `buf` has them, the lowest first.
abbrev value : List ℕ → ℕ
value [] = 0
value (d ∷ ds) = d + value ds * 10

abbrev written : List ℕ → List ℕ
written [] = []
written (d ∷ ds) = (b'0' + d) ∷ written ds

digit-decimal : (d : ℕ) → d < 10 → digit d ≡ b'0' + d
digit-decimal d h = ground arith

store-room : (buf : List ℕ) (c : ℕ) → length buf < 16 → store buf c ≡ some (buf ++ c ∷ [])
unfolding store
store-room buf c h = ground arith

-- The highest digit is not 0.
abbrev Top : List ℕ → Type 0
Top [] = ⊥
Top (d ∷ []) = d ≢ 0
Top (d ∷ e ∷ ds) = Top (e ∷ ds)

Top-cons : (d : ℕ) (ds : List ℕ) → Top ds → Top (d ∷ ds)
Top-cons d [] h = absurd h
Top-cons d (e ∷ ds) h = h

-- A number of at most m decimals takes at most m bytes of `buf`.
record Puts (x m : ℕ) (buf : List ℕ) (r : Option (List ℕ)) : Type 0 where
  ds : List ℕ
  result : r ≡ some (buf ++ written ds)
  small : All (λ d. d ≤ 9) ds
  short : length ds ≤ m
  worth : value ds ≡ x
  null : x ≡ 0 → ds ≡ 0 ∷ []
  top : x ≢ 0 → Top ds

no_more : (x m : ℕ) → m ≡ 0 → x < 10 ^ suc m → (x / 10 == 0) ≡ false → ⊥
no_more x m e h more =
    let h' : x < 10 ^ suc 0 = subst (λ n. x < 10 ^ suc n) e h in ground (arith, h', more)

put_digits-Puts :
    (k x m : ℕ) (buf : List ℕ)
    → x < 10 ^ suc m
    → length buf + suc m ≤ 16
    → m < k
    → Puts x (suc m) buf (put_digits k 10 x buf)
unfolding put_digits
put_digits-Puts zero x m buf h room f = absurd (omega arith)
put_digits-Puts (suc k) x m buf h room f =
    let stored = store-room buf (digit (x % 10)) (omega arith) in
    elim (Bool-cases (x / 10 == 0)) [
      | inl end ↦ record {
        ds = x % 10 ∷ [];
        result = rw (put_digits, stored, end, digit-decimal (x % 10) (omega arith)) refl;
        small = (omega arith, tt);
        short = omega arith;
        worth = ground arith;
        null = λ z. rw z refl;
        top = λ n e. n (ground arith);
      }
      | inr more ↦ elim (Bool-cases (m == 0)) [
        | inl one ↦ let e : m ≡ 0 = ==→eq _ _ one in absurd (no_more x m e h more)
        | inr many ↦
            let step : 10 ^ suc m ≡ 10 ^ suc (m - 1) * 10 =
              (let e : m ≡ suc (m - 1) = omega (arith, ==→ne _ _ many) in
                ap (λ n. 10 ^ suc n) e ∙ pow-suc 10 (suc (m - 1))) in
            let next =
              put_digits-Puts k (x / 10) (m - 1) (buf ++ digit (x % 10) ∷ []) (omega (arith, step))
                (omega (arith, length-append buf (digit (x % 10) ∷ []), ==→ne _ _ many))
                (omega (arith, ==→ne _ _ many)) in
            record {
              ds = x % 10 ∷ next.ds;
              result =
                  rw (put_digits, stored, more)
                    (next.result
                      ∙ ap some (append_assoc buf (digit (x % 10) ∷ []) (written next.ds))
                      ∙ ap (λ c. some (buf ++ c ∷ written next.ds))
                          (digit-decimal (x % 10) (omega arith)));
              small = (omega arith, next.small);
              short = omega (arith, next.short, ==→ne _ _ many);
              worth = omega (arith, next.worth);
              null = λ z. absurd (ground (arith, z, more));
              top = λ n. Top-cons (x % 10) next.ds (next.top (λ z. ==→ne _ _ more z));
            }
      ]
    ]

backwards-append : (xs ys : List ℕ) → backwards (xs ++ ys) ≡ backwards ys ++ backwards xs
backwards-append [] ys = sym (append-nil (backwards ys))
backwards-append (x ∷ xs) ys =
    ap (λ l. l ++ x ∷ []) (backwards-append xs ys)
    ∙ append_assoc (backwards ys) (backwards xs) (x ∷ [])

written-append : (xs ys : List ℕ) → written (xs ++ ys) ≡ written xs ++ written ys
written-append [] ys = refl
written-append (x ∷ xs) ys = ap (λ l. (b'0' + x) ∷ l) (written-append xs ys)

backwards-written : (ds : List ℕ) → backwards (written ds) ≡ written (backwards ds)
backwards-written [] = refl
backwards-written (d ∷ ds) =
    ap (λ l. l ++ (b'0' + d) ∷ []) (backwards-written ds)
    ∙ sym (written-append (backwards ds) (d ∷ []))

length-backwards : (ds : List ℕ) → length (backwards ds) ≡ length ds
length-backwards [] = refl
length-backwards (d ∷ ds) =
    omega (arith, length-append (backwards ds) (d ∷ []), length-backwards ds)

All-backwards : (ds : List ℕ) → All (λ d. d ≤ 9) ds → All (λ d. d ≤ 9) (backwards ds)
All-backwards [] h = tt
All-backwards (d ∷ ds) h =
    (All-append (λ d. d ≤ 9) (backwards ds) (d ∷ [])).1 (All-backwards ds h.1, (h.0, tt))

decimal-append : (ds : List ℕ) (d : ℕ) → decimal (ds ++ d ∷ []) ≡ decimal ds * 10 + d
decimal-append [] d = omega arith
decimal-append (e ∷ ds) d =
    let n = length ds in
    let longer : length (ds ++ d ∷ []) ≡ suc n = omega (arith, length-append ds (d ∷ [])) in
    let power : e * 10 ^ length (ds ++ d ∷ []) ≡ e * 10 ^ n * 10 =
      ap (λ k. e * 10 ^ k) longer
      ∙ ap (λ p. e * p) (pow-suc 10 n)
      ∙ sym (mul_assoc e (10 ^ n) 10) in
    omega (arith, power, decimal-append ds d)

decimal-backwards : (ds : List ℕ) → decimal (backwards ds) ≡ value ds
decimal-backwards [] = refl
decimal-backwards (d ∷ ds) = omega (arith, decimal-append (backwards ds) d, decimal-backwards ds)

-- The first digit is not 0.
abbrev pub Leads : List ℕ → Type 0
Leads [] = ⊥
Leads (d ∷ ds) = d ≢ 0

Leads-append : (xs ys : List ℕ) → Leads xs → Leads (xs ++ ys)
Leads-append [] ys h = absurd h
Leads-append (x ∷ xs) ys h = h

Leads-backwards : (ds : List ℕ) → Top ds → Leads (backwards ds)
Leads-backwards [] h = h
Leads-backwards (d ∷ []) h = h
Leads-backwards (d ∷ e ∷ ds) h =
    Leads-append (backwards (e ∷ ds)) (d ∷ []) (Leads-backwards (e ∷ ds) h)

abbrev pub sign : ℕ → List ℕ
sign xx = if is_negative xx then b'-' ∷ [] else []

abbrev pub magnitude : ℕ → ℕ
magnitude xx = if is_negative xx then 2 ^ 32 - xx else xx

-- What `printint` prints of an int: a sign if it is negative, and the digits of its size, at most ten,
-- which do not begin with 0 unless the number is 0, printed as one 0.
pub record Prints (xx : ℕ) (r : Option (List ℕ)) : Type 0 where
  pub ds : List ℕ
  pub result : r ≡ some (sign xx ++ written ds)
  pub small : All (λ d. d ≤ 9) ds
  pub short : length ds ≤ 10
  pub worth : decimal ds ≡ magnitude xx
  pub null : magnitude xx ≡ 0 → ds ≡ 0 ∷ []
  pub leads : magnitude xx ≢ 0 → Leads ds

length-written : (ds : List ℕ) → length (written ds) ≡ length ds
length-written [] = refl
length-written (d ∷ ds) = ap suc (length-written ds)

-- `printint` of a decimal never writes behind `buf`, and prints the sign and the digits of the number,
-- without leading zeros, and 0 as one digit.
pub printint-Prints : (xx : ℕ) → xx < 2 ^ 32 → Prints xx (printint xx 10 true)
unfolding printint
printint-Prints xx h = elim (Bool-cases (is_negative xx)) [
  | inl neg ↦
      let size : sub_uint 0 xx ≡ 2 ^ 32 - xx = ground (arith, neg) in
      let puts =
        put_digits-Puts 33 (sub_uint 0 xx) 9 [] (omega (arith, size)) (omega arith) (omega arith) in
      let room =
        store-room (written puts.ds) b'-' (omega (arith, length-written puts.ds, puts.short)) in
      record {
        ds = backwards puts.ds;
        result =
            rw (printint, neg, puts.result, room)
              (ap (λ l. some l)
                (backwards-append (written puts.ds) (b'-' ∷ [])
                  ∙ ap (λ l. b'-' ∷ l) (backwards-written puts.ds)));
        small = All-backwards puts.ds puts.small;
        short = omega (arith, length-backwards puts.ds, puts.short);
        worth = rw (neg) (decimal-backwards puts.ds ∙ puts.worth ∙ size);
        null = rw (neg) (λ z. ap backwards (puts.null (size ∙ z)));
        leads = rw (neg) (λ n. Leads-backwards puts.ds (puts.top (λ z. n (sym size ∙ z))));
      }
  | inr plain ↦
      let puts = put_digits-Puts 33 xx 9 [] (omega arith) (omega arith) (omega arith) in
      record {
        ds = backwards puts.ds;
        result = rw (printint, plain, puts.result) (ap some (backwards-written puts.ds));
        small = All-backwards puts.ds puts.small;
        short = omega (arith, length-backwards puts.ds, puts.short);
        worth = rw (plain) (decimal-backwards puts.ds ∙ puts.worth);
        null = rw (plain) (λ z. ap backwards (puts.null z));
        leads = rw (plain) (λ n. Leads-backwards puts.ds (puts.top n));
      }
]

written-HoldsDigits :
    (ds : List ℕ) (s : ℕ) (mem : Mem)
    → All (λ d. d ≤ 9) ds
    → Holds mem s (written ds)
    → HoldsDigits mem s ds
written-HoldsDigits [] s mem a h = ground (arith, h)
written-HoldsDigits (d ∷ ds) s mem a h = (h.0, a.0, written-HoldsDigits ds (s + 1) mem a.1 h.2)

-- A number that is not negative, printed to memory as a string, is what `atoi` reads there, with fuel
-- for the string and its NUL.
pub atoi-printint :
    (xx fuel s : ℕ) (mem : Mem) (out : List ℕ)
    → xx < 2 ^ 31
    → printint xx 10 true ≡ some out
    → Holds mem s out
    → length out < fuel
    → atoi fuel s mem ≡ some xx
atoi-printint xx fuel s mem out h e holds f =
    let prints = printint-Prints xx (omega arith) in
    let plain : is_negative xx ≡ false = ground arith in
    let unsigned : sign xx ++ written prints.ds ≡ written prints.ds = rw (plain) refl in
    let size : magnitude xx ≡ xx = rw (plain) refl in
    let same : some out ≡ some (written prints.ds) =
      sym e ∙ prints.result ∙ ap (λ l. some l) unsigned in
    let digits : out ≡ written prints.ds = cc in
    let there =
      written-HoldsDigits prints.ds s mem prints.small (subst (λ l. Holds mem s l) digits holds) in
    atoi-decimal fuel s mem prints.ds there
      (omega (arith, ap (λ (l : List ℕ). length l) digits, length-written prints.ds))
    ∙ ap (λ n. some n) (prints.worth ∙ size)
