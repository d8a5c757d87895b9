-- ===== src/Lex/Examples.antt =====
-- The scanner at short inputs.
use nscheme.Prelude.{ℕ, refl, false, List, [], arith, length, ◌+◌, ◌<◌, ◌≡◌, ◌⊎◌, ◌∷◌, ◌++◌}
use nscheme.Values.{tag_integer, get_integer}
use nscheme.Memory.{Memory, null}
use nscheme.Lex.{ParseState, read_next_token, read_number, symbol_loop, at, buf_size}
use nscheme.Lex.Tokens.{Scanned, read_next_token-Scanned}
use nscheme.Lex.Numbers.{decimal, Stops, read_number-decimal}
use nscheme.Lex.Names.{is_name_byte, AllNameBytes, symbol_loop_longest}

abbrev no_memory : Memory
no_memory = record {
  brk = 16;
  strings = λ p. [];
  symbol_tree = null;
  gc = record { base = 0; end = 0; allocend = 0 };
  blocks = λ p. record { uintptr = 0; flags = 0; size = 0 };
  pairs = λ p. record { car = 0; cdr = 0 };
}

-- `42)`
abbrev text : List ℕ
text = 52 ∷ 50 ∷ 41 ∷ []

abbrev start : ParseState
start = record {
  input = text;
  memory = no_memory;
  next_token = 0;
  has_next = false;
  linenum = 0;
  charpos = 0;
}

read_next_token-Scanned_example : Scanned start.input (read_next_token start)
read_next_token-Scanned_example = read_next_token-Scanned start

read_number-decimal_example :
    (read_number (at start (decimal 42 ++ 41 ∷ [])) ≡ (tag_integer 42, at start (41 ∷ [])))
    × (get_integer (read_number (at start (decimal 42 ++ 41 ∷ []))).0 ≡ 42)
read_number-decimal_example = read_number-decimal start 42 (41 ∷ []) (omega arith) refl

symbol_loop_longest_example :
    ((symbol_loop 0 (97 ∷ text)).0 ++ (symbol_loop 0 (97 ∷ text)).1 ≡ 97 ∷ text)
    × AllNameBytes (symbol_loop 0 (97 ∷ text)).0
    × (0 + length (symbol_loop 0 (97 ∷ text)).0 < buf_size)
    × (Stops is_name_byte (symbol_loop 0 (97 ∷ text)).1
        ⊎ (0 + length (symbol_loop 0 (97 ∷ text)).0 ≡ 31))
symbol_loop_longest_example = symbol_loop_longest 0 (97 ∷ text) (omega arith)
