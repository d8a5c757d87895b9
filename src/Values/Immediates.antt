-- ===== src/Values/Immediates.antt =====
-- Immediates (include/nscheme/values.h): integers, characters, booleans and the parser's and the
-- machine's own tokens, and what their 64 bits can carry.
use nscheme.Prelude.{ℕ, bit_or, refl, Bool, true, false, arith, ◌+◌, ◌*◌, ◌%◌, ◌^◌, ◌<◌, ◌≡◌, ◌↔◌}
use nscheme.Prelude.Words.{mod32, bit_or_low}
use nscheme.Values.{
  tag_integer, tag_boolean, tag_character, tag_parse_val, tag_run_type, is_integer, is_boolean,
  is_character, get_integer, get_boolean, get_character,
}

-- The eight tag bits below a payload that has been shifted past them.
bit_or_byte : (c t : ℕ) → t < 256 → bit_or ((c * 256) % mod32) t ≡ (c % 2 ^ 24) * 256 + t
bit_or_byte c t h =
    let x : ℕ = c % 2 ^ 24 in
    let e : (c * 256) % mod32 ≡ 2 * (2 * (2 * (2 * (2 * (2 * (2 * (2 * (c % 2 ^ 24)))))))) =
      omega arith in
    rw e (omega (arith, bit_or_low 8 (c % 2 ^ 24) t (omega arith)))

-- A tagged integer tests as one and comes back modulo 2 ^ 62, so it comes back unchanged exactly
-- when it is below 2 ^ 62.
pub get_integer-tag_integer :
    (i : ℕ)
    → (is_integer (tag_integer i) ≡ true)
      × (get_integer (tag_integer i) ≡ i % 2 ^ 62)
      × ((get_integer (tag_integer i) ≡ i) ↔ (i < 2 ^ 62))
unfolding is_integer tag_integer get_integer
get_integer-tag_integer i = (ground arith, omega arith, (λ h. omega arith, λ h. omega arith))

-- A character keeps its low 24 bits: `character << 8` is computed on 32 bits.
pub get_character-tag_character :
    (c : ℕ)
    → (is_character (tag_character c) ≡ true) × (get_character (tag_character c) ≡ c % 2 ^ 24)
unfolding is_character tag_character get_character
get_character-tag_character c = rw (bit_or_byte c 0xf (omega arith)) (ground arith, omega arith)

-- Both booleans come back.
pub get_boolean-tag_boolean :
    (b : Bool) → (is_boolean (tag_boolean b) ≡ true) × (get_boolean (tag_boolean b) ≡ b)
unfolding is_boolean tag_boolean get_boolean
get_boolean-tag_boolean true = (refl, refl)
get_boolean-tag_boolean false = (refl, refl)

pub tag_parse_val-eq : (t : ℕ) → tag_parse_val t ≡ (t % 2 ^ 24) * 256 + 0x8f
unfolding tag_parse_val
tag_parse_val-eq t = bit_or_byte t 0x8f (omega arith)

pub tag_run_type-eq : (t : ℕ) → tag_run_type t ≡ (t % 2 ^ 24) * 256 + 0xcf
unfolding tag_run_type
tag_run_type-eq t = bit_or_byte t 0xcf (omega arith)
