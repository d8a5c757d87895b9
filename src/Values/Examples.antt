-- ===== src/Values/Examples.antt =====
-- The theorems on tagged words at concrete words.
use nscheme.Prelude.{true, ◌-◌, ◌^◌, ◌≤◌, ◌<◌, ◌≡◌, ◌↔◌, ◌==◌, if◌then◌else◌}
use nscheme.Values.{
  Ptr, Pair, tag_integer, tag_boolean, is_integer, get_integer, is_boolean, get_boolean,
}
use nscheme.Values.Immediates.{get_integer-tag_integer, get_boolean-tag_boolean}
use nscheme.Values.Kinds.{kinds, kinds-le-one}

-- A memory with one pair, at 64.
abbrev one_pair : Ptr → Pair
one_pair p = if p == 64 then record { car = 4; cdr = 8 } else record { car = 0; cdr = 0 }

-- Minus one, as a `long int`.
get_integer-tag_integer_example :
    (is_integer (tag_integer (2 ^ 64 - 1)) ≡ true)
    × (get_integer (tag_integer (2 ^ 64 - 1)) ≡ 2 ^ 62 - 1)
    × ((get_integer (tag_integer (2 ^ 64 - 1)) ≡ 2 ^ 64 - 1) ↔ (2 ^ 64 - 1 < 2 ^ 62))
get_integer-tag_integer_example = get_integer-tag_integer (2 ^ 64 - 1)

get_boolean-tag_boolean_example :
    (is_boolean (tag_boolean true) ≡ true) × (get_boolean (tag_boolean true) ≡ true)
get_boolean-tag_boolean_example = get_boolean-tag_boolean true

kinds-le-one_example : kinds 65 ≤ 1
kinds-le-one_example = kinds-le-one 65
