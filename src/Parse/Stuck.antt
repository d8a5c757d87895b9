-- ===== src/Parse/Stuck.antt =====
-- Where src/parse.c makes no progress: tokens that no rule of the grammar takes, and the end of the
-- input inside a list.
use nscheme.Prelude.{ℕ, zero, suc, refl, true, false, List, [], arith, ◌≡◌, ◌∷◌}
use nscheme.Values.{
  Value, tag_parse_val, is_integer, is_symbol, is_eof, is_boolean, is_character, is_parse_val,
  get_parse_val, parse_type_left_paren, parse_type_eof,
}
use nscheme.Memory.{Memory}
use nscheme.Run.{ok, out_of_fuel}
use nscheme.Lex.{ParseState, token_loop, read_next_token}
use nscheme.Parse.{
  TypeTest, none_token, get_next_token, peek_next_token, parse_accept, atom_tests, parse_expect,
  accept_first, is_left_paren, is_apostrophe, is_period, is_none_type, parse_token,
  parse_list_tokens, parse_list, parse_expression, is_right_paren,
}
use nscheme.Parse.State.{cached, emptied}

-- A token of the scanner that starts no datum: a right parenthesis, or a lone `#`.
pub record StartsNothing (t : Value) : Type 0 where
  pub token : is_parse_val t ≡ true
  pub no_list : is_left_paren t ≡ false
  pub no_quote : is_apostrophe t ≡ false
  pub no_end : is_eof t ≡ false

accept_none :
    (test : TypeTest) (st : ParseState) (t : Value)
    → test st.memory t ≡ false
    → parse_accept test (cached st t) ≡ ok (none_token, cached st t)
unfolding parse_accept
accept_none test st t e = rw e

-- None of the tests takes the token.
abbrev pub NoneOf : List TypeTest → Memory → Value → Type 0
NoneOf [] m t = Unit
NoneOf (test ∷ tests) m t = (test m t ≡ false) × NoneOf tests m t

accept_first_none :
    (tests : List TypeTest) (st : ParseState) (t : Value)
    → NoneOf tests st.memory t
    → accept_first tests (cached st t) ≡ ok (none_token, cached st t)
unfolding accept_first tag_parse_val
accept_first_none [] st t h = refl
accept_first_none (test ∷ tests) st t h =
    rw (accept_none test st t h.0) (accept_first_none tests st t h.1)

pub token_NoneOf :
    (m : Memory) (t : Value) → is_parse_val t ≡ true → is_eof t ≡ false → NoneOf atom_tests m t
unfolding is_parse_val is_integer is_symbol is_boolean is_character is_period
token_NoneOf m t h e =
    (ground arith, (ground arith, (e, (ground arith, (ground arith, (ground arith, tt))))))

parse_token_stuck :
    (k : ℕ) (st : ParseState) (t : Value)
    → StartsNothing t
    → parse_token (suc k) (cached st t) ≡ ok (none_token, cached st t)
unfolding parse_token peek_next_token tag_parse_val
parse_token_stuck k st t s = ground (
  arith,
  accept_first_none atom_tests st t (token_NoneOf st.memory t s.token s.no_end),
  s.no_list,
  s.no_quote,
)

-- At such a token `parse_expression`, given a depth of 2 at least, returns `PARSE_TYPE_NONE` and
-- leaves its state as it is.
pub parse_expression_stuck :
    (k : ℕ) (st : ParseState) (t : Value)
    → StartsNothing t
    → parse_expression (suc (suc k)) (cached st t) ≡ ok (none_token, cached st t)
unfolding parse_expression peek_next_token
parse_expression_stuck k st t s = ground (arith, s.no_list, parse_token_stuck k st t s)

-- The state at the end of the input, with no token kept.
abbrev pub ended : ParseState → ParseState
ended st = record (emptied st) { input = [] }

-- There `parse_token` returns the end of file as if it were a datum.
parse_token-ended :
    (k : ℕ) (st : ParseState)
    → parse_token (suc k) (ended st) ≡ ok (tag_parse_val parse_type_eof, ended st)
unfolding parse_token accept_first parse_accept get_next_token read_next_token token_loop
    tag_parse_val is_integer is_symbol is_eof
parse_token-ended k st = refl

parse_list_tokens-ended : (k : ℕ) (st : ParseState) → parse_list_tokens k (ended st) ≡ out_of_fuel
unfolding parse_list_tokens parse_token is_period is_none_type is_parse_val get_parse_val
    tag_parse_val is_symbol
parse_list_tokens-ended zero st = refl
parse_list_tokens-ended (suc zero) st = refl
parse_list_tokens-ended (suc (suc k)) st =
    rw (parse_token-ended k st) (rw (parse_list_tokens-ended (suc k) st))

-- The same where the end was already seen and kept.
abbrev eof_kept : ParseState → ParseState
eof_kept st = cached (ended st) (tag_parse_val parse_type_eof)

parse_token-eof_kept :
    (k : ℕ) (st : ParseState)
    → parse_token (suc k) (eof_kept st) ≡ ok (tag_parse_val parse_type_eof, ended st)
unfolding parse_token accept_first parse_accept get_next_token tag_parse_val is_integer is_symbol
    is_eof
parse_token-eof_kept k st = refl

parse_list_tokens-eof_kept :
    (k : ℕ) (st : ParseState) → parse_list_tokens k (eof_kept st) ≡ out_of_fuel
unfolding parse_list_tokens parse_token is_period is_none_type is_parse_val get_parse_val
    tag_parse_val is_symbol
parse_list_tokens-eof_kept zero st = refl
parse_list_tokens-eof_kept (suc zero) st = refl
parse_list_tokens-eof_kept (suc (suc k)) st =
    rw (parse_token-eof_kept k st) (rw (parse_list_tokens-ended (suc k) st))

-- No right parenthesis is accepted at the end of the input.
accept_close-ended :
    (st : ParseState) → parse_accept (λ m. is_right_paren) (ended st) ≡ ok (none_token, eof_kept st)
unfolding parse_accept get_next_token read_next_token token_loop tag_parse_val is_right_paren
    is_parse_val get_parse_val
accept_close-ended st = refl

-- A list that the end of the input cuts off behind its left parenthesis is never returned, whatever
-- the depth that is allowed.
pub parse_list_unterminated :
    (k : ℕ) (st : ParseState)
    → parse_list k (cached (ended st) (tag_parse_val parse_type_left_paren)) ≡ out_of_fuel
unfolding parse_list parse_expect is_none_type tag_parse_val is_parse_val get_parse_val
parse_list_unterminated zero st = refl
parse_list_unterminated (suc k) st =
    ground (arith, accept_close-ended st, parse_list_tokens-eof_kept k st)
