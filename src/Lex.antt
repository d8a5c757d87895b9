-- ===== src/Lex.antt =====
-- src/lex.c: tokens from a stream of bytes. The stream is the list of the bytes that `fgetc` is yet
-- to return; `ungetc` puts a byte in front of it. Past the end `fgetc` returns `EOF` and `feof`
-- holds, which is so exactly where the list is empty. The program's messages are left out.
mod Examples
pub mod Tokens
pub mod Numbers
pub mod Names
use Prim.Native.Char.{code}
use Prim.Native.String
use Prim.Native.String.{String}
use nscheme.Prelude.{
  ℕ, zero, suc, Bool, true, false, List, [], ltb, length, ◌+◌, ◌-◌, ◌*◌, ◌%◌, ◌&&◌, ◌||◌, ◌∷◌, ◌++◌,
  ◌==◌, if◌then◌else◌,
}
use nscheme.Prelude.Words.{mod32, mod64}
use nscheme.Values.{
  Value, tag_parse_val, tag_integer, tag_symbol, tag_boolean, tag_character, parse_type_eof,
  parse_type_left_paren, parse_type_right_paren, parse_type_apostrophe, parse_type_octothorpe,
}
use nscheme.Memory.{Memory}
use nscheme.Symbols.{try_store_symbol}
use nscheme.Run.{Run, ok, out_of_fuel}

-- `parse_state_t` (include/nscheme/parse.h)
pub record ParseState : Type 0 where
  pub input : List ℕ
  -- the memory of the machine that `vm` points to
  pub memory : Memory
  pub next_token : Value
  pub has_next : Bool
  pub linenum : ℕ
  pub charpos : ℕ

-- The bytes of an ASCII text.
abbrev pub codes : String → List ℕ
codes String.[] = []
codes (String.◌∷◌ c s) = code c ∷ codes s

abbrev pub whitespace : List ℕ
whitespace = 0x20 ∷ 0x09 ∷ 0x0b ∷ 0x0a ∷ []

abbrev pub digits : List ℕ
digits = codes "0123456789"

abbrev pub alphabet : List ℕ
alphabet = codes "ABCDEFGHIJKLMNOPQRSTUVWXYZabcdefghijklmnopqrstuvwxyz"

abbrev pub symbols : List ℕ
symbols = codes "<>+-*/:?^%&@!_=|."

-- `EOF`, -1 as an `int`
abbrev pub eof : ℕ
eof = 0xffff_ffff

-- the size of `buf` in `read_symbol`
abbrev pub buf_size : ℕ
buf_size = 32

unfoldable pub matches : ℕ → List ℕ → Bool
matches c [] = false
matches c (d ∷ str) = if c == d then true else matches c str

-- The loop of `read_number`, and the bytes that are left.
unfoldable pub number_loop : ℕ → List ℕ → ℕ × List ℕ
number_loop sum [] = (sum, [])
number_loop sum (c ∷ rest) =
    let more = number_loop ((sum * 10 + (c - 48)) % mod64) rest in
    if matches c digits then more else (sum, c ∷ rest)

unfoldable pub read_number : ParseState → Value × ParseState
unfolding number_loop tag_integer
read_number st =
    let (sum, rest) = number_loop 0 st.input in (tag_integer sum, record st { input = rest })

-- The loop of `read_symbol` from index `i` of the buffer: what it puts there, and what is left.
unfoldable pub symbol_loop : ℕ → List ℕ → List ℕ × List ℕ
symbol_loop i [] = ([], [])
symbol_loop i (c ∷ rest) =
    let more = symbol_loop (i + 1) rest in
    if matches c (alphabet ++ digits ++ symbols) && ltb (i + 1) buf_size
    then (c ∷ more.0, more.1)
    else ([], c ∷ rest)

unfoldable pub read_symbol : ParseState → Value × ParseState
unfolding symbol_loop try_store_symbol tag_symbol
read_symbol st =
    let (buf, rest) = symbol_loop 0 st.input in
    let (str, memory) = try_store_symbol st.memory buf in
    (tag_symbol str, record st { input = rest; memory = memory })

-- The rest of a comment, up to the end of its line.
unfoldable pub skip_comment : List ℕ → List ℕ
skip_comment [] = []
skip_comment (c ∷ rest) = if c == 0x0a then c ∷ rest else skip_comment rest

-- What follows `#\`.
unfoldable pub read_character : List ℕ → Value × List ℕ
unfolding tag_character
read_character [] = (tag_character eof, [])
read_character (next ∷ rest) = (tag_character next, rest)

-- What follows `#`. Where that is none of the three, the byte behind `#` is dropped and `#` itself
-- goes back to the stream.
unfoldable pub read_hash : List ℕ → Value × List ℕ
unfolding tag_boolean tag_parse_val read_character
read_hash [] = (tag_parse_val parse_type_octothorpe, b'#' ∷ [])
read_hash (next ∷ rest) =
    if next == b't' || next == b'f'
    then (tag_boolean (next == b't'), rest)
    else if next == 0x5c
    then read_character rest
    else (tag_parse_val parse_type_octothorpe, b'#' ∷ rest)

abbrev pub at : ParseState → List ℕ → ParseState
at st rest = record st { input = rest }

-- The loop of `read_next_token`: one round takes the first byte of the stream.
unfoldable pub token_loop : ℕ → ParseState → List ℕ → Run (Value × ParseState)
token_loop zero st input = out_of_fuel
token_loop (suc k) st [] = ok (tag_parse_val parse_type_eof, at st [])
token_loop (suc k) st (c ∷ rest) =
    let next_line =
      token_loop k (record st { linenum = (st.linenum + 1) % mod32; charpos = 0 }) rest in
    let after_comment = token_loop k st (skip_comment rest) in
    let next_char = token_loop k (record st { charpos = (st.charpos + 1) % mod32 }) rest in
    let next_byte = token_loop k st rest in
    if c == 0x0a
    then next_line
    else if c == b';'
    then after_comment
    else if c == b'('
    then ok (tag_parse_val parse_type_left_paren, at st rest)
    else if c == b')'
    then ok (tag_parse_val parse_type_right_paren, at st rest)
    else if c == 0x27
    then ok (tag_parse_val parse_type_apostrophe, at st rest)
    else if matches c whitespace
    then next_char
    else if matches c digits
    then ok (read_number (at st (c ∷ rest)))
    else if matches c (alphabet ++ symbols)
    then ok (read_symbol (at st (c ∷ rest)))
    else if c == b'#'
    then (let (token, rest') = read_hash rest in ok (token, at st rest'))
    else next_byte

-- Each round takes a byte of the stream, so it is enough to allow one more than there are.
unfoldable pub read_next_token : ParseState → Run (Value × ParseState)
unfolding token_loop
read_next_token st = token_loop (suc (length st.input)) st st.input
