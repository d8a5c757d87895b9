-- ===== src/Parse/Data/Texts.antt =====
-- The first token of a datum's text, and what follows a datum in a list.
use nscheme.Prelude.{ℕ, refl, List, [], ◌∷◌, ◌++◌}
use mathlib.Core.List.{append_assoc}
use nscheme.Values.{
  Value, tag_integer, tag_symbol, tag_boolean, tag_character, tag_parse_val, parse_type_left_paren,
  parse_type_right_paren,
}
use nscheme.Memory.{Memory}
use nscheme.Symbols.{try_store_symbol}
use nscheme.Lex.{ParseState, matches}
use nscheme.Lex.Numbers.{Stops}
use nscheme.Lex.Names.{is_name_byte}
use nscheme.Parse.Data.{
  integer, name, boolean, character, empty, Datum, atom, cons, atom_text, text, tail, IsDatum,
}
use nscheme.Parse.Data.Tokens.{
  Lexes, Rest, Sees, Lexes-Sees, Stops-digit, lex_space, lex_left, lex_integer, lex_name,
  lex_boolean, lex_character,
}

abbrev pub left_paren : Value
left_paren = tag_parse_val parse_type_left_paren

abbrev pub right_paren : Value
right_paren = tag_parse_val parse_type_right_paren

-- The first token of the text, the bytes behind it in front of `rest`, and the memory behind it.
abbrev pub token_of : Memory → Datum → Value
token_of m (atom (integer n)) = tag_integer n
token_of m (atom (name bytes)) = tag_symbol (try_store_symbol m bytes).0
token_of m (atom (boolean b)) = tag_boolean b
token_of m (atom (character c)) = tag_character c
token_of m (atom empty) = left_paren
token_of m (cons a d) = left_paren

abbrev pub left_of : Datum → List ℕ → List ℕ
left_of (atom (integer n)) rest = rest
left_of (atom (name bytes)) rest = rest
left_of (atom (boolean b)) rest = rest
left_of (atom (character c)) rest = rest
left_of (atom empty) rest = b')' ∷ rest
left_of (cons a d) rest = text a ++ (tail d ++ rest)

abbrev pub memory_of : Memory → Datum → Memory
memory_of m (atom (integer n)) = m
memory_of m (atom (name bytes)) = (try_store_symbol m bytes).1
memory_of m (atom (boolean b)) = m
memory_of m (atom (character c)) = m
memory_of m (atom empty) = m
memory_of m (cons a d) = m

-- The parser is about to read the datum, and then `rest`.
abbrev pub Starts : ParseState → Memory → Datum → List ℕ → Type 0
Starts st m d rest = Sees st (token_of m d) (left_of d rest) (memory_of m d)

pub lex_text :
    (d : Datum) (rest : List ℕ) (m : Memory)
    → IsDatum d
    → Stops is_name_byte rest
    → Lexes (text d ++ rest) m (token_of m d) (left_of d rest) (memory_of m d)
unfolding text atom_text
lex_text (atom (integer n)) rest m v s = lex_integer n rest m v (Stops-digit rest s)
lex_text (atom (name [])) rest m v s = absurd v
lex_text (atom (name (c ∷ cs))) rest m (first, names, short, dot) s =
    lex_name c cs rest m first names short s
lex_text (atom (boolean b)) rest m v s = lex_boolean b rest m
lex_text (atom (character c)) rest m v s = lex_character c rest m
lex_text (atom empty) rest m v s = lex_left (b')' ∷ rest) m
lex_text (cons a d) rest m v s =
    rw (append_assoc (text a) (tail d) rest) (lex_left (text a ++ (tail d ++ rest)) m)

-- A list goes on with a space or a parenthesis.
pub tail-Stops : (d : Datum) (rest : List ℕ) → Stops is_name_byte (tail d ++ rest)
unfolding tail matches
tail-Stops (atom (integer n)) rest = refl
tail-Stops (atom (name bytes)) rest = refl
tail-Stops (atom (boolean b)) rest = refl
tail-Stops (atom (character c)) rest = refl
tail-Stops (atom empty) rest = refl
tail-Stops (cons a d) rest = refl

pub text-Starts :
    (st : ParseState) (d : Datum) (rest : List ℕ) (m : Memory)
    → IsDatum d
    → Stops is_name_byte rest
    → Rest st (text d ++ rest) m
    → Starts st m d rest
text-Starts st d rest m v s r =
    Lexes-Sees st (text d ++ rest) (left_of d rest) m (memory_of m d) (token_of m d)
      (lex_text d rest m v s) r

pub space-Starts :
    (st : ParseState) (d : Datum) (rest : List ℕ) (m : Memory)
    → IsDatum d
    → Stops is_name_byte rest
    → Rest st (0x20 ∷ (text d ++ rest)) m
    → Starts st m d rest
space-Starts st d rest m v s r =
    Lexes-Sees st (0x20 ∷ (text d ++ rest)) (left_of d rest) m (memory_of m d) (token_of m d)
      (lex_space (text d ++ rest) (left_of d rest) m (memory_of m d) (token_of m d)
        (lex_text d rest m v s))
      r

-- The rest of a list: a space, and the next element.
pub tail-Starts :
    (st : ParseState) (a d : Datum) (rest : List ℕ) (m : Memory)
    → IsDatum a
    → Rest st (tail (cons a d) ++ rest) m
    → Starts st m a (tail d ++ rest)
unfolding tail
tail-Starts st a d rest m v r =
    space-Starts st a (tail d ++ rest) m v (tail-Stops d rest)
      (rw (append_assoc (text a) (tail d) rest) at r)
