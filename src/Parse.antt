-- ===== src/Parse.antt =====
-- src/parse.c: from tokens to values. A function of the source that changes `parse_state_t` takes
-- the state and returns the new one. The functions that call one another run on fuel, which bounds
-- how deep they call; a list takes one level for each of its elements, as in the source.
mod Examples
pub mod State
pub mod Stuck
pub mod Data
use nscheme.Prelude.{ℕ, zero, suc, Bool, true, false, List, [], ◌&&◌, ◌∷◌, ◌==◌, if◌then◌else◌}
use nscheme.Values.{
  Value, tag_parse_val, tag_symbol, is_integer, is_symbol, is_eof, is_boolean, is_character,
  is_parse_val, get_parse_val, get_symbol, parse_type_none, parse_type_left_paren,
  parse_type_right_paren, parse_type_apostrophe, scm_type_null,
}
use nscheme.Memory.{Memory}
use nscheme.Symbols.{try_store_symbol}
use nscheme.Gc.{construct_pair}
use nscheme.Run.{Run, ok, fault, panic, out_of_fuel, ◌>>=◌}
use nscheme.Lex.{ParseState, codes, read_next_token}

unfoldable pub get_next_token : ParseState → Run (Value × ParseState)
get_next_token st =
    if st.has_next
    then ok (st.next_token, record st { has_next = false; next_token = 0 })
    else read_next_token st

unfoldable pub peek_next_token : ParseState → Run (Value × ParseState)
peek_next_token st = if st.has_next then ok (st.next_token, st) else do
  (ret, st') ← read_next_token st
  ok (ret, record st' { has_next = true; next_token = ret })

unfoldable pub cache_next_token : ParseState → Value → ParseState
cache_next_token st token = record st { next_token = token; has_next = true }

-- `scm_type_test_t`; `is_period` looks at the bytes of a symbol.
abbrev pub TypeTest : Type 0
TypeTest = Memory → Value → Bool

abbrev pub none_token : Value
none_token = tag_parse_val parse_type_none

unfoldable pub parse_accept : TypeTest → ParseState → Run (Value × ParseState)
unfolding get_next_token cache_next_token
parse_accept test st = do
  (temp, st') ← get_next_token st
  if test st'.memory temp then ok (temp, st') else ok (none_token, cache_next_token st' temp)

-- The token is consumed also where it is not the one that is expected.
unfoldable pub parse_expect : TypeTest → ParseState → Run (Value × ParseState)
unfolding get_next_token
parse_expect test st = do
  (temp, st') ← get_next_token st
  ok (if test st'.memory temp then temp else none_token, st')

unfoldable pub is_left_paren : Value → Bool
is_left_paren value = is_parse_val value && get_parse_val value == parse_type_left_paren

unfoldable pub is_right_paren : Value → Bool
is_right_paren value = is_parse_val value && get_parse_val value == parse_type_right_paren

unfoldable pub is_apostrophe : Value → Bool
is_apostrophe value = is_parse_val value && get_parse_val value == parse_type_apostrophe

-- The text has one byte, a period.
unfoldable pub is_dot : List ℕ → Bool
is_dot (c ∷ []) = c == b'.'
is_dot _ = false

unfoldable pub is_period : TypeTest
unfolding is_dot
is_period m value = is_symbol value && is_dot (m.strings (get_symbol value))

unfoldable pub is_none_type : Value → Bool
is_none_type value = is_parse_val value && get_parse_val value == parse_type_none

-- `ACCEPT_AND_RETURN` for each test in turn, then `PARSE_TYPE_NONE`.
unfoldable pub accept_first : List TypeTest → ParseState → Run (Value × ParseState)
unfolding parse_accept
accept_first [] st = ok (none_token, st)
accept_first (test ∷ tests) st = do
  (temp, st') ← parse_accept test st
  (let rest = accept_first tests st' in if temp == none_token then rest else ok (temp, st'))

-- The tests of `parse_token`, in its order.
abbrev pub atom_tests : List TypeTest
atom_tests =
    (λ m. is_integer)
    ∷ (λ m. is_symbol)
    ∷ (λ m. is_eof)
    ∷ (λ m. is_boolean)
    ∷ (λ m. is_character)
    ∷ is_period
    ∷ []

unfoldable mutual
  pub parse_quoted : ℕ → ParseState → Run (Value × ParseState)
  parse_quoted zero st = out_of_fuel
  parse_quoted (suc k) st =
      let (str, memory) = try_store_symbol st.memory (codes "quote") in
      do
        (_, st₁) ← parse_expect (λ m. is_apostrophe) (record st { memory = memory })
        (datum, st₂) ← parse_expression k st₁
        (inner, m₁) ← construct_pair st₂.memory datum scm_type_null
        (outer, m₂) ← construct_pair m₁ (tag_symbol str) inner
        ok (outer, record st₂ { memory = m₂ })

  pub parse_token : ℕ → ParseState → Run (Value × ParseState)
  parse_token zero st = out_of_fuel
  parse_token (suc k) st = do
    (atom, st₁) ← accept_first atom_tests st
    elim (atom == none_token) [
      | false ↦ ok (atom, st₁)
      | true ↦ do
        (next, st₂) ← peek_next_token st₁
        elim (is_left_paren next) [
          | true ↦ parse_list k st₂
          | false ↦ do
            (next', st₃) ← peek_next_token st₂
            elim (is_apostrophe next') [ true ↦ parse_quoted k st₃ | false ↦ ok (none_token, st₃) ]
        ]
    ]

  pub parse_pair_token : ℕ → ParseState → Run (Value × ParseState)
  parse_pair_token zero st = out_of_fuel
  parse_pair_token (suc k) st = do
    (temp, st₁) ← parse_token k st
    ok (if is_none_type temp then scm_type_null else temp, st₁)

  pub parse_list_tokens : ℕ → ParseState → Run (Value × ParseState)
  parse_list_tokens zero st = out_of_fuel
  parse_list_tokens (suc k) st = do
    (temp, st₁) ← parse_token k st
    elim (is_period st₁.memory temp) [
      | true ↦ parse_pair_token k st₁
      | false ↦ elim (is_none_type temp) [
        | true ↦ ok (scm_type_null, st₁)
        | false ↦ do
          (rest, st₂) ← parse_list_tokens k st₁
          (pair, m) ← construct_pair st₂.memory temp rest
          ok (pair, record st₂ { memory = m })
      ]
    ]

  pub parse_list : ℕ → ParseState → Run (Value × ParseState)
  parse_list zero st = out_of_fuel
  parse_list (suc k) st = do
    (_, st₁) ← parse_expect (λ m. is_left_paren) st
    (close, st₂) ← parse_accept (λ m. is_right_paren) st₁
    elim (is_none_type close) [
      | false ↦ ok (scm_type_null, st₂)
      | true ↦ do
        (temp, st₃) ← parse_list_tokens k st₂
        (_, st₄) ← parse_expect (λ m. is_right_paren) st₃
        ok (temp, st₄)
    ]

  pub parse_expression : ℕ → ParseState → Run (Value × ParseState)
  parse_expression zero st = out_of_fuel
  parse_expression (suc k) st = do
    (next, st₁) ← peek_next_token st
    elim (is_left_paren next) [ true ↦ parse_list k st₁ | false ↦ parse_token k st₁ ]
