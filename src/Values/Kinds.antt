-- ===== src/Values/Kinds.antt =====
-- The type tests of include/nscheme/values.h exclude one another.
use nscheme.Prelude.{ℕ, ◌+◌, ◌≤◌, Bool, arith, if◌then◌else◌}
use nscheme.Values.{
  Value, is_integer, is_pair, is_closure, is_symbol, is_syntax_rules, is_character, is_boolean,
  is_null, is_parse_val, is_run_type,
}

abbrev pub count : Bool → ℕ
count b = if b then 1 else 0

-- How many of the type tests a word passes.
pub kinds : Value → ℕ
kinds v =
    count (is_integer v)
    + count (is_pair v)
    + count (is_closure v)
    + count (is_symbol v)
    + count (is_syntax_rules v)
    + count (is_character v)
    + count (is_boolean v)
    + count (is_null v)
    + count (is_parse_val v)
    + count (is_run_type v)

-- No word passes two of the type tests.
pub kinds-le-one : (v : Value) → kinds v ≤ 1
unfolding kinds is_integer is_pair is_closure is_symbol is_syntax_rules is_character is_boolean
    is_null is_parse_val is_run_type
kinds-le-one v = ground arith
