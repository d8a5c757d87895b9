-- ===== src/Values.antt =====
-- include/nscheme/values.h: a Scheme value is one 64-bit word, a heap address or an immediate with
-- a tag in its low bits. A `long int` is its two's complement bit pattern, below 2 ^ 64. What the
-- addresses of pairs point to is the argument `pairs`.
mod Examples
pub mod Tagging
pub mod Immediates
pub mod Kinds
use nscheme.Prelude.{
  ℕ, ◌-◌, ◌*◌, ◌/◌, ◌%◌, Bool, true, false, ◌&&◌, ◌||◌, not, bit_or, ◌==◌, if◌then◌else◌,
}
use nscheme.Prelude.Words.{mod32, mod64}

-- `scm_value_t`
abbrev pub Value : Type 0
Value = ℕ

-- An address; `NULL` is 0.
abbrev pub Ptr : Type 0
Ptr = ℕ

-- `enum parse_types`
abbrev pub parse_type_none : ℕ
parse_type_none = 0

abbrev pub parse_type_left_paren : ℕ
parse_type_left_paren = 1

abbrev pub parse_type_right_paren : ℕ
parse_type_right_paren = 2

abbrev pub parse_type_octothorpe : ℕ
parse_type_octothorpe = 3

abbrev pub parse_type_eof : ℕ
parse_type_eof = 4

abbrev pub parse_type_apostrophe : ℕ
parse_type_apostrophe = 5

-- `enum runtime_types`
abbrev pub run_type_none : ℕ
run_type_none = 0

abbrev pub run_type_lambda : ℕ
run_type_lambda = 1

abbrev pub run_type_define : ℕ
run_type_define = 2

abbrev pub run_type_define_syntax : ℕ
run_type_define_syntax = 3

abbrev pub run_type_set : ℕ
run_type_set = 4

abbrev pub run_type_if : ℕ
run_type_if = 5

abbrev pub run_type_begin : ℕ
run_type_begin = 6

abbrev pub run_type_quote : ℕ
run_type_quote = 7

abbrev pub run_type_eval : ℕ
run_type_eval = 8

abbrev pub run_type_set_ptr : ℕ
run_type_set_ptr = 9

abbrev pub run_type_syntax_rules : ℕ
run_type_syntax_rules = 10

-- `enum token_type`
abbrev pub scm_type_integer : ℕ
scm_type_integer = 0x0

abbrev pub scm_type_pair : ℕ
scm_type_pair = 0x1

abbrev pub scm_type_vector : ℕ
scm_type_vector = 0x2

abbrev pub scm_type_string : ℕ
scm_type_string = 0x3

abbrev pub scm_type_closure : ℕ
scm_type_closure = 0x5

abbrev pub scm_type_symbol : ℕ
scm_type_symbol = 0x6

abbrev pub scm_type_syntax_rules : ℕ
scm_type_syntax_rules = 0x7

abbrev pub scm_type_external_ptr : ℕ
scm_type_external_ptr = 0x9

abbrev pub scm_type_big_number : ℕ
scm_type_big_number = 0xa

abbrev pub scm_type_char : ℕ
scm_type_char = 0xf

abbrev pub scm_type_boolean : ℕ
scm_type_boolean = 0x4f

abbrev pub scm_type_null : ℕ
scm_type_null = 0x2f

abbrev pub scm_type_parse_val : ℕ
scm_type_parse_val = 0x8f

abbrev pub scm_type_run_type : ℕ
scm_type_run_type = 0xcf

-- `scm_pair_t`
pub record Pair : Type 0 where
  pub car : Value
  pub cdr : Value

-- `scm_syntax_rules_t`; both fields point to pairs.
pub record SyntaxRules : Type 0 where
  pub keywords : Ptr
  pub patterns : Ptr

-- Tagging.
unfoldable pub tag_integer : ℕ → Value
tag_integer integer = (integer * 4) % mod64

unfoldable pub tag_parse_val : ℕ → Value
tag_parse_val type = bit_or ((type * 256) % mod32) scm_type_parse_val

unfoldable pub tag_run_type : ℕ → Value
tag_run_type type = bit_or ((type * 256) % mod32) scm_type_run_type

unfoldable pub tag_pair : Ptr → Value
tag_pair pair = bit_or pair scm_type_pair

unfoldable pub tag_heap_type : Ptr → ℕ → Value
tag_heap_type ptr type = bit_or ptr type

unfoldable pub tag_symbol : Ptr → Value
tag_symbol str = bit_or str scm_type_symbol

unfoldable pub tag_closure : Ptr → Value
tag_closure closure = bit_or closure scm_type_closure

unfoldable pub tag_boolean : Bool → Value
tag_boolean boolean = bit_or ((if boolean then 1 else 0) * 256) scm_type_boolean

unfoldable pub tag_character : ℕ → Value
tag_character character = bit_or ((character * 256) % mod32) scm_type_char

-- Type tests; `value & 0x3`, `value & 0xf` and `value & 0xff` are remainders.
unfoldable pub is_integer : Value → Bool
is_integer value = value % 4 == scm_type_integer

unfoldable pub is_parse_val : Value → Bool
is_parse_val value = value % 256 == scm_type_parse_val

unfoldable pub is_run_type : Value → Bool
is_run_type value = value % 256 == scm_type_run_type

unfoldable pub get_heap_type : Value → ℕ
get_heap_type value = value % 16

unfoldable pub is_pair : Value → Bool
unfolding get_heap_type
is_pair value = get_heap_type value == scm_type_pair

unfoldable pub is_syntax_rules : Value → Bool
unfolding get_heap_type
is_syntax_rules value = get_heap_type value == scm_type_syntax_rules

unfoldable pub is_null : Value → Bool
is_null value = value == scm_type_null

unfoldable pub is_symbol : Value → Bool
is_symbol value = value % 16 == scm_type_symbol

unfoldable pub is_closure : Value → Bool
is_closure value = value % 16 == scm_type_closure

unfoldable pub is_eof : Value → Bool
unfolding is_parse_val
is_eof value = is_parse_val value && value / 256 == parse_type_eof

unfoldable pub is_boolean : Value → Bool
is_boolean value = value % 256 == scm_type_boolean

unfoldable pub is_character : Value → Bool
is_character value = value % 256 == scm_type_char

-- Data retrieval. `value >> 2` shifts the unsigned word; `value & ~0xf` clears four bits.
unfoldable pub get_integer : Value → ℕ
get_integer value = value / 4

unfoldable pub get_parse_val : Value → ℕ
get_parse_val value = (value / 256) % mod32

unfoldable pub get_run_type : Value → ℕ
get_run_type value = (value / 256) % mod32

unfoldable pub get_heap_tagged_value : Value → Ptr
get_heap_tagged_value value = value - value % 16

unfoldable pub get_pair : Value → Ptr
unfolding get_heap_tagged_value
get_pair value = get_heap_tagged_value value

unfoldable pub get_syntax_rules : Value → Ptr
unfolding get_heap_tagged_value
get_syntax_rules value = get_heap_tagged_value value

unfoldable pub get_symbol : Value → Ptr
get_symbol value = value - value % 16

unfoldable pub get_closure : Value → Ptr
get_closure value = value - value % 16

unfoldable pub get_boolean : Value → Bool
get_boolean value = not (value / 256 == 0)

unfoldable pub get_character : Value → ℕ
get_character value = (value / 256) % mod32

unfoldable pub is_special_form : Value → Bool
unfolding is_run_type get_run_type
is_special_form value =
    if is_run_type value
    then (let type = get_run_type value in
        type == run_type_lambda
        || type == run_type_define
        || type == run_type_define_syntax
        || type == run_type_set
        || type == run_type_if
        || type == run_type_begin
        || type == run_type_quote
        || type == run_type_syntax_rules)
    else false

unfoldable pub scm_car : (Ptr → Pair) → Value → Value
unfolding is_pair get_pair
scm_car pairs value = if is_pair value then (pairs (get_pair value)).car else scm_type_null

unfoldable pub scm_cdr : (Ptr → Pair) → Value → Value
unfolding is_pair get_pair
scm_cdr pairs value = if is_pair value then (pairs (get_pair value)).cdr else scm_type_null
