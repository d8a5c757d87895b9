-- ===== src/Parse/Data/Tokens.antt =====
-- The tokens of a text (src/lex.c), one for each atom and parenthesis.
use nscheme.Prelude.{
  ℕ, zero, suc, refl, ap, inl, inr, Bool, true, false, not, List, [], arith, Bool-cases, length,
  ◌+◌, ◌%◌, ◌^◌, ◌≤◌, ◌<◌, ◌≡◌, ◌&&◌, ◌∷◌, ◌++◌, ◌==◌, if◌then◌else◌, ◌∙◌,
}
use nscheme.Prelude.Words.{mod32}
use nscheme.Values.{
  Value, tag_integer, tag_symbol, tag_boolean, tag_character, tag_parse_val, parse_type_left_paren,
  parse_type_right_paren,
}
use nscheme.Memory.{Memory}
use nscheme.Run.{ok}
use nscheme.Symbols.{try_store_symbol}
use nscheme.Lex.{
  ParseState, at, token_loop, read_next_token, read_number, read_symbol, read_hash, read_character,
  matches, digits, alphabet, symbols, whitespace, buf_size, codes,
}
use nscheme.Lex.Numbers.{
  decimal, Stops, is_digit, matches-digits, decimal_first, read_number-decimal,
}
use nscheme.Lex.Names.{is_name_byte, AllNameBytes, symbol_loop-name}
use nscheme.Parse.{get_next_token}

-- No token is held, and the stream and the memory are these.
abbrev pub Rest : ParseState → List ℕ → Memory → Type 0
Rest st i m = (st.has_next ≡ false) × (st.input ≡ i) × (st.memory ≡ m)

-- The next token is `t`, held or in the stream, and what is left behind it.
abbrev pub Sees : ParseState → Value → List ℕ → Memory → Type 0
Sees st t i m = (s : ParseState) × (get_next_token st ≡ ok (t, s)) × Rest s i m

-- The scanner gets the token from the bytes `i`, and leaves the bytes `j`.
abbrev pub Lexes : (i : List ℕ) → Memory → Value → (j : List ℕ) → Memory → Type 0
Lexes i m t j m' =
    (k : ℕ) (st : ParseState)
    → length i ≤ k
    → st.has_next ≡ false
    → st.memory ≡ m
    → (s : ParseState) × (token_loop (suc k) st i ≡ ok (t, s)) × Rest s j m'

get_next_token-fresh :
    (st : ParseState) → st.has_next ≡ false → get_next_token st ≡ read_next_token st
unfolding get_next_token
get_next_token-fresh st h = ground arith

pub Lexes-Sees :
    (st : ParseState) (i j : List ℕ) (m m' : Memory) (t : Value)
    → Lexes i m t j m'
    → Rest st i m
    → Sees st t j m'
unfolding read_next_token
Lexes-Sees st i j m m' t l (h, e, e') =
    let (s, run, r) = l (length i) st (omega arith) h e' in
    (s, get_next_token-fresh st h ∙ ap (λ x. token_loop (suc (length x)) st x) e ∙ run, r)

pub lex_space :
    (i j : List ℕ) (m m' : Memory) (t : Value) → Lexes i m t j m' → Lexes (0x20 ∷ i) m t j m'
unfolding token_loop matches
lex_space i j m m' t l zero st b h e = absurd (omega arith)
lex_space i j m m' t l (suc k) st b h e =
    l k (record st { charpos = (st.charpos + 1) % mod32 }) (omega arith) h e

pub lex_left :
    (i : List ℕ) (m : Memory) → Lexes (b'(' ∷ i) m (tag_parse_val parse_type_left_paren) i m
unfolding token_loop
lex_left i m k st b h e = (at st i, refl, (h, refl, e))

pub lex_right :
    (i : List ℕ) (m : Memory) → Lexes (b')' ∷ i) m (tag_parse_val parse_type_right_paren) i m
unfolding token_loop
lex_right i m k st b h e = (at st i, refl, (h, refl, e))

pub lex_boolean :
    (b : Bool) (i : List ℕ) (m : Memory)
    → Lexes ((if b then codes "#t" else codes "#f") ++ i) m (tag_boolean b) i m
unfolding token_loop read_hash matches
lex_boolean true i m k st b h e = (at st i, refl, (h, refl, e))
lex_boolean false i m k st b h e = (at st i, refl, (h, refl, e))

pub lex_character :
    (c : ℕ) (i : List ℕ) (m : Memory) → Lexes (b'#' ∷ 0x5c ∷ c ∷ i) m (tag_character c) i m
unfolding token_loop read_hash read_character matches
lex_character c i m k st b h e = (at st i, refl, (h, refl, e))

token_loop-digit :
    (k : ℕ) (st : ParseState) (c : ℕ) (i : List ℕ)
    → is_digit c ≡ true
    → token_loop (suc k) st (c ∷ i) ≡ ok (read_number (at st (c ∷ i)))
unfolding token_loop matches
token_loop-digit k st c i h = ground (arith, matches-digits c)

pub lex_integer :
    (n : ℕ) (i : List ℕ) (m : Memory)
    → n < 2 ^ 62
    → Stops is_digit i
    → Lexes (decimal n ++ i) m (tag_integer n) i m
lex_integer n i m b s k st l h e =
    let (c, cs, d, f) = decimal_first n in
    (
      at st i,
      rw d (token_loop-digit k st c (cs ++ i) f)
          ∙ ap (λ r. ok r) (rw d at (read_number-decimal st n i b s).0),
      (h, refl, e),
    )

-- What holds of every byte of a string holds of one that matches.
all : (ℕ → Bool) → List ℕ → Bool
all test [] = true
all test (d ∷ str) = test d && all test str

matches-all :
    (test : ℕ → Bool) (c : ℕ) (str : List ℕ)
    → all test str ≡ true
    → matches c str ≡ true
    → test c ≡ true
unfolding matches all
matches-all test c [] a h = cc
matches-all test c (d ∷ str) a h = elim (Bool-cases (c == d)) [
  | inl e ↦ (let same : c ≡ d = ground arith in rw same (ground arith))
  | inr e ↦ matches-all test c str (ground arith) (rw e at h)
]

-- The scanner takes a name where a byte is of the alphabet or a symbol.
starts_name : ℕ → Bool
starts_name c =
    not (c == 0x0a)
    && not (c == b';')
    && not (c == b'(')
    && not (c == b')')
    && not (c == 0x27)
    && not (matches c whitespace)
    && not (matches c digits)
    && is_name_byte c

first_byte : (c : ℕ) → matches c (alphabet ++ symbols) ≡ true → starts_name c ≡ true
unfolding all starts_name matches
first_byte c h = matches-all starts_name c (alphabet ++ symbols) refl h

and-true : (a b : Bool) → (a && b) ≡ true → (a ≡ true) × (b ≡ true)
and-true a b h = ground arith

not-true : (a : Bool) → not a ≡ true → a ≡ false
not-true a h = ground arith

pub starts_name-is_name_byte :
    (c : ℕ) → matches c (alphabet ++ symbols) ≡ true → is_name_byte c ≡ true
unfolding starts_name
starts_name-is_name_byte c h = (and-true _ _ (first_byte c h)).1

token_loop-name :
    (k : ℕ) (st : ParseState) (c : ℕ) (i : List ℕ)
    → matches c (alphabet ++ symbols) ≡ true
    → token_loop (suc k) st (c ∷ i) ≡ ok (read_symbol (at st (c ∷ i)))
unfolding token_loop starts_name
token_loop-name k st c i h =
    let s = first_byte c h in
    let line : (c == 0x0a) ≡ false = ground arith in
    let comment : (c == b';') ≡ false = ground arith in
    let left : (c == b'(') ≡ false = ground arith in
    let right : (c == b')') ≡ false = ground arith in
    let quote : (c == 0x27) ≡ false = ground arith in
    let white : matches c whitespace ≡ false = ground arith in
    let digit : matches c digits ≡ false = ground arith in
    rw (line, comment, left, right, quote, white, digit, h) refl

pub lex_name :
    (c : ℕ) (cs i : List ℕ) (m : Memory)
    → matches c (alphabet ++ symbols) ≡ true
    → AllNameBytes cs
    → suc (length cs) < buf_size
    → Stops is_name_byte i
    → Lexes
        ((c ∷ cs) ++ i)
        m
        (tag_symbol (try_store_symbol m (c ∷ cs)).0)
        i
        (try_store_symbol m (c ∷ cs)).1
unfolding read_symbol
lex_name c cs i m first names short s k st l h e =
    let whole : AllNameBytes (c ∷ cs) = (starts_name-is_name_byte c first, names) in
    let loop = symbol_loop-name 0 (c ∷ cs) i whole (omega arith) s in
    (
      record (at st i) { memory = (try_store_symbol m (c ∷ cs)).1 },
      token_loop-name k st c (cs ++ i) first ∙ rw (loop, e) refl,
      (h, refl, refl),
    )

-- What ends a name ends a number.
digit_name : (c : ℕ) → is_name_byte c ≡ false → is_digit c ≡ false
unfolding all matches
digit_name c n = elim (Bool-cases (is_digit c)) [
  | inr f ↦ f
  | inl t ↦ (let named = matches-all is_name_byte c digits refl (matches-digits c ∙ t) in absurd cc)
]

pub Stops-digit : (rest : List ℕ) → Stops is_name_byte rest → Stops is_digit rest
Stops-digit [] s = tt
Stops-digit (c ∷ rest) s = digit_name c s
