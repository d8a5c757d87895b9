-- ===== src/Lex/Tokens.antt =====
-- The scanner of src/lex.c: it always returns, and what it skips.
use nscheme.Prelude.{ℕ, zero, suc, List, [], arith, length, ◌+◌, ◌-◌, ◌*◌, ◌%◌, ◌^◌, ◌≤◌, ◌<◌, ◌∷◌}
use nscheme.Prelude.Words.{mod32}
use nscheme.Values.{Value}
use nscheme.Run.{Run, ok, fault, panic, out_of_fuel}
use nscheme.Lex.{
  ParseState, number_loop, symbol_loop, skip_comment, read_hash, read_number, read_symbol,
  token_loop, read_next_token,
}

number_loop_rest : (sum : ℕ) (input : List ℕ) → length (number_loop sum input).1 ≤ length input
unfolding number_loop
number_loop_rest sum [] = omega arith
number_loop_rest sum (c ∷ rest) =
    ground (arith, number_loop_rest ((sum * 10 + (c - 48)) % 2 ^ 64) rest)

symbol_loop_rest : (i : ℕ) (input : List ℕ) → length (symbol_loop i input).1 ≤ length input
unfolding symbol_loop
symbol_loop_rest i [] = omega arith
symbol_loop_rest i (c ∷ rest) = ground (arith, symbol_loop_rest (i + 1) rest)

skip_comment_rest : (input : List ℕ) → length (skip_comment input) ≤ length input
unfolding skip_comment
skip_comment_rest [] = omega arith
skip_comment_rest (c ∷ rest) = ground (arith, skip_comment_rest rest)

read_hash_rest : (input : List ℕ) → length (read_hash input).1 ≤ length input + 1
unfolding read_hash
read_hash_rest [] = omega arith
read_hash_rest (next ∷ []) = ground arith
read_hash_rest (next ∷ c ∷ rest) = ground arith

-- A token, and no more input than before.
abbrev pub Scanned : List ℕ → Run (Value × ParseState) → Type 0
Scanned input (ok (v, st)) = length st.input ≤ length input
Scanned input fault = ⊥
Scanned input panic = ⊥
Scanned input out_of_fuel = ⊥

Scanned-mono :
    (a b : List ℕ) (r : Run (Value × ParseState)) → length a ≤ length b → Scanned a r → Scanned b r
Scanned-mono a b (ok (v, st)) h s = omega arith
Scanned-mono a b fault h s = s
Scanned-mono a b panic h s = s
Scanned-mono a b out_of_fuel h s = s

token_loop-Scanned :
    (k : ℕ) (st : ParseState) (input : List ℕ)
    → length input < k
    → Scanned input (token_loop k st input)
unfolding token_loop read_number read_symbol
token_loop-Scanned zero st input h = elim h [ ]
token_loop-Scanned (suc k) st [] h = omega arith
token_loop-Scanned (suc k) st (c ∷ rest) h = ground (
  arith,
  Scanned-mono rest (c ∷ rest)
      (token_loop k (record st { linenum = (st.linenum + 1) % mod32; charpos = 0 }) rest)
      (omega arith)
      (token_loop-Scanned k (record st { linenum = (st.linenum + 1) % mod32; charpos = 0 }) rest
        (omega arith)),
  Scanned-mono (skip_comment rest) (c ∷ rest) (token_loop k st (skip_comment rest))
      (omega (arith, skip_comment_rest rest))
      (token_loop-Scanned k st (skip_comment rest) (omega (arith, skip_comment_rest rest))),
  Scanned-mono rest (c ∷ rest)
      (token_loop k (record st { charpos = (st.charpos + 1) % mod32 }) rest) (omega arith)
      (token_loop-Scanned k (record st { charpos = (st.charpos + 1) % mod32 }) rest (omega arith)),
  Scanned-mono rest (c ∷ rest) (token_loop k st rest) (omega arith)
      (token_loop-Scanned k st rest (omega arith)),
  number_loop_rest 0 (c ∷ rest),
  symbol_loop_rest 0 (c ∷ rest),
  read_hash_rest rest,
)

-- `read_next_token` returns a token for every stream, and never leaves more of it than there was.
pub read_next_token-Scanned : (st : ParseState) → Scanned st.input (read_next_token st)
unfolding read_next_token
read_next_token-Scanned st = token_loop-Scanned (suc (length st.input)) st st.input (omega arith)
