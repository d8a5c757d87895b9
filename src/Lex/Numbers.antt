-- ===== src/Lex/Numbers.antt =====
-- Integers in src/lex.c: `read_number` reads back what `printf("%lu")` writes.
use nscheme.Prelude.{
  ℕ, zero, suc, refl, ap, inl, inr, Bool, true, false, List, [], arith, ltb, leb, Bool-cases, ◌+◌,
  ◌-◌, ◌*◌, ◌/◌, ◌%◌, ◌^◌, ◌≤◌, ◌<◌, ◌≡◌, ◌&&◌, ◌∷◌, ◌++◌, if◌then◌else◌, ◌∙◌,
}
use nscheme.Prelude.Words.{mod64}
use nscheme.Values.{tag_integer, get_integer}
use nscheme.Values.Immediates.{get_integer-tag_integer}
use nscheme.Lex.{ParseState, digits, matches, number_loop, read_number, at}

abbrev pub is_digit : ℕ → Bool
is_digit c = leb 48 c && leb c 57

pub matches-digits : (c : ℕ) → matches c digits ≡ is_digit c
unfolding matches
matches-digits c = ground arith

abbrev pub AllDigits : List ℕ → Type 0
AllDigits [] = Unit
AllDigits (c ∷ cs) = (is_digit c ≡ true) × AllDigits cs

-- The number that digits stand for, behind those that make up `sum`.
unfoldable pub value_of : ℕ → List ℕ → ℕ
value_of sum [] = sum
value_of sum (c ∷ cs) = value_of (sum * 10 + (c - 48)) cs

-- What follows a token does not go on with it.
abbrev pub Stops : (ℕ → Bool) → List ℕ → Type 0
Stops test [] = Unit
Stops test (c ∷ rest) = test c ≡ false

value_of-le : (sum : ℕ) (cs : List ℕ) → sum ≤ value_of sum cs
unfolding value_of
value_of-le sum [] = omega arith
value_of-le sum (c ∷ cs) = omega (arith, value_of-le (sum * 10 + (c - 48)) cs)

-- The loop adds up the digits in front of it and stops behind them, as long as no word overflows.
pub number_loop-value_of :
    (sum : ℕ) (cs rest : List ℕ)
    → AllDigits cs
    → Stops is_digit rest
    → value_of sum cs < mod64
    → number_loop sum (cs ++ rest) ≡ (value_of sum cs, rest)
unfolding number_loop value_of
number_loop-value_of sum [] [] d s b = refl
number_loop-value_of sum [] (c ∷ rest) d s b = rw (matches-digits c, s)
number_loop-value_of sum (c ∷ cs) rest d s b =
    let e : (sum * 10 + (c - 48)) % mod64 ≡ sum * 10 + (c - 48) =
      omega (arith, value_of-le (sum * 10 + (c - 48)) cs) in
    rw (matches-digits c, d.0, e) (number_loop-value_of (sum * 10 + (c - 48)) cs rest d.1 s b)

-- `printf("%lu", n)`: the digits of `n` in front of `rest`, with fuel for the number of digits.
decimal_loop : ℕ → ℕ → List ℕ → List ℕ
decimal_loop zero n rest = rest
decimal_loop (suc k) n rest =
    let more = decimal_loop k (n / 10) ((n % 10 + 48) ∷ rest) in
    if ltb n 10 then (n + 48) ∷ rest else more

-- A number has no more digits than its value plus one.
unfoldable pub decimal : ℕ → List ℕ
unfolding decimal_loop
decimal n = decimal_loop (suc n) n []

value_of-decimal_loop :
    (k n : ℕ) (rest : List ℕ) → n < k → value_of 0 (decimal_loop k n rest) ≡ value_of n rest
unfolding decimal_loop value_of
value_of-decimal_loop zero n rest h = elim h [ ]
value_of-decimal_loop (suc k) n rest h = elim (Bool-cases (ltb n 10)) [
  | inl small ↦ rw small (ap (λ x. value_of x rest) (omega arith))
  | inr big ↦ rw big (
      value_of-decimal_loop k (n / 10) ((n % 10 + 48) ∷ rest) (ground arith)
      ∙ ap (λ x. value_of x rest) (omega arith))
]

AllDigits-decimal_loop :
    (k n : ℕ) (rest : List ℕ) → AllDigits rest → AllDigits (decimal_loop k n rest)
unfolding decimal_loop
AllDigits-decimal_loop zero n rest d = d
AllDigits-decimal_loop (suc k) n rest d =
    ground (arith, AllDigits-decimal_loop k (n / 10) ((n % 10 + 48) ∷ rest))

pub value_of-decimal : (n : ℕ) → value_of 0 (decimal n) ≡ n
unfolding decimal value_of
value_of-decimal n = value_of-decimal_loop (suc n) n [] (omega arith)

pub AllDigits-decimal : (n : ℕ) → AllDigits (decimal n)
unfolding decimal
AllDigits-decimal n = AllDigits-decimal_loop (suc n) n [] tt

-- The digits of a number below 2 ^ 62, with anything behind them that is no digit, are read as the
-- integer that `get_integer` gives back, and the stream is left at what follows.
pub read_number-decimal :
    (st : ParseState) (n : ℕ) (rest : List ℕ)
    → n < 2 ^ 62
    → Stops is_digit rest
    → (read_number (at st (decimal n ++ rest)) ≡ (tag_integer n, at st rest))
      × (get_integer (read_number (at st (decimal n ++ rest))).0 ≡ n)
unfolding read_number
read_number-decimal st n rest h s =
    let read : number_loop 0 (decimal n ++ rest) ≡ (n, rest) =
      number_loop-value_of 0 (decimal n) rest (AllDigits-decimal n) s
        (omega (arith, value_of-decimal n))
      ∙ ap (λ x. (x, rest)) (value_of-decimal n) in
    (
      ap (λ r. (tag_integer r.0, at st r.1)) read,
      ap (λ r. get_integer (tag_integer r.0)) read ∙ (get_integer-tag_integer n).2.1 h,
    )

decimal_loop_first :
    (k n c : ℕ) (cs : List ℕ) → (x : ℕ) × (xs : List ℕ) × (decimal_loop k n (c ∷ cs) ≡ x ∷ xs)
unfolding decimal_loop
decimal_loop_first zero n c cs = (c, cs, refl)
decimal_loop_first (suc k) n c cs = elim (Bool-cases (ltb n 10)) [
  | inl small ↦ rw small (n + 48, c ∷ cs, refl)
  | inr big ↦ rw big (decimal_loop_first k (n / 10) (n % 10 + 48) (c ∷ cs))
]

decimal_nonempty : (n : ℕ) → (x : ℕ) × (xs : List ℕ) × (decimal n ≡ x ∷ xs)
unfolding decimal decimal_loop
decimal_nonempty n = elim (Bool-cases (ltb n 10)) [
  | inl small ↦ rw small (n + 48, [], refl)
  | inr big ↦ rw big (decimal_loop_first n (n / 10) (n % 10 + 48) [])
]

-- A number starts with a digit.
pub decimal_first : (n : ℕ) → (c : ℕ) × (cs : List ℕ) × (decimal n ≡ c ∷ cs) × (is_digit c ≡ true)
decimal_first n =
    let (c, cs, e) = decimal_nonempty n in (c, cs, e, (rw e at (AllDigits-decimal n)).0)
