-- ===== src/Lex/Names.antt =====
-- Names in src/lex.c: where `read_symbol` stops.
use nscheme.Prelude.{
  ℕ, suc, refl, ap, inl, inr, Bool, true, List, [], arith, ltb, Bool-cases, length, ◌+◌, ◌<◌, ◌≡◌,
  ◌⊎◌, ◌∷◌, ◌++◌,
}
use nscheme.Lex.{digits, alphabet, symbols, buf_size, matches, symbol_loop}
use nscheme.Lex.Numbers.{Stops}

-- A byte that a name may hold.
abbrev pub is_name_byte : ℕ → Bool
is_name_byte c = matches c (alphabet ++ digits ++ symbols)

abbrev pub AllNameBytes : List ℕ → Type 0
AllNameBytes [] = Unit
AllNameBytes (c ∷ cs) = (is_name_byte c ≡ true) × AllNameBytes cs

-- `read_symbol` takes bytes of the stream in order, all of them name bytes and 31 at most, and it
-- stops at the end of the stream, at a byte that no name holds, or because it has 31.
pub symbol_loop_longest :
    (i : ℕ) (input : List ℕ)
    → i < buf_size
    → ((symbol_loop i input).0 ++ (symbol_loop i input).1 ≡ input)
      × AllNameBytes (symbol_loop i input).0
      × (i + length (symbol_loop i input).0 < buf_size)
      × (Stops is_name_byte (symbol_loop i input).1 ⊎ (i + length (symbol_loop i input).0 ≡ 31))
unfolding symbol_loop
symbol_loop_longest i [] h = (refl, tt, omega arith, inl tt)
symbol_loop_longest i (c ∷ rest) h = elim (Bool-cases (is_name_byte c)) [
  | inr other ↦ rw other (refl, tt, omega arith, inl other)
  | inl named ↦ elim (Bool-cases (ltb (i + 1) buf_size)) [
    | inl room ↦
        (let (whole, names, short, stop) = symbol_loop_longest (i + 1) rest (ground arith) in
          rw (named, room)
            (
              ap (λ l. c ∷ l) whole,
              (named, names),
              omega arith,
              shift (length (symbol_loop (i + 1) rest).0) stop,
            ))
    | inr full ↦ rw (named, full) (refl, tt, omega arith, inr (ground arith))
  ]
]
  where
    shift : {A : Type 0} (n : ℕ) → A ⊎ (i + 1 + n ≡ 31) → A ⊎ (i + suc n ≡ 31)
    shift n (inl a) = inl a
    shift n (inr e) = inr (omega arith)

-- A name that fits into the buffer is read whole.
pub symbol_loop-name :
    (i : ℕ) (bytes rest : List ℕ)
    → AllNameBytes bytes
    → i + length bytes < buf_size
    → Stops is_name_byte rest
    → symbol_loop i (bytes ++ rest) ≡ (bytes, rest)
unfolding symbol_loop
symbol_loop-name i [] [] n h s = refl
symbol_loop-name i [] (c ∷ rest) n h s = rw s refl
symbol_loop-name i (c ∷ cs) rest (named, n) h s =
    let room : ltb (i + 1) buf_size ≡ true = ground arith in
    rw (named, room, symbol_loop-name (i + 1) cs rest n (omega arith) s) refl
