-- ===== src/Values/Tagging.antt =====
-- Tagged heap addresses (include/nscheme/values.h). Allocators return multiples of 16, so the four
-- tag bits are free.
use nscheme.Prelude.{ℕ, ◌+◌, ◌/◌, ◌*◌, ◌%◌, ◌<◌, ◌≡◌, true, bit_or, arith}
use nscheme.Prelude.Words.{bit_or_low}
use nscheme.Values.{
  Ptr, Pair, tag_pair, tag_heap_type, tag_symbol, tag_closure, get_heap_type, get_heap_tagged_value,
  get_pair, get_symbol, get_closure, is_pair, is_symbol, is_closure, scm_car, scm_cdr,
}

-- An address that any of the allocators may return.
abbrev pub IsAligned : Ptr → Type 0
IsAligned p = p % 16 ≡ 0

pub bit_or-aligned : (p t : ℕ) → t < 16 → IsAligned p → bit_or p t ≡ p + t
bit_or-aligned p t h a =
    let e : p ≡ 2 * (2 * (2 * (2 * (p / 16)))) = omega arith in
    rw e (bit_or_low 4 (p / 16) t (omega arith))

-- A tagged aligned address keeps its tag in the low four bits, and gives the address back.
pub heap_type_roundtrip :
    (p t : ℕ)
    → t < 16
    → IsAligned p
    → (get_heap_type (tag_heap_type p t) ≡ t) × (get_heap_tagged_value (tag_heap_type p t) ≡ p)
unfolding tag_heap_type get_heap_type get_heap_tagged_value
heap_type_roundtrip p t h a = rw (bit_or-aligned p t h a) (omega arith, omega arith)

module _ (p : Ptr) (a : IsAligned p) where
  pub tag_pair-eq : tag_pair p ≡ p + 1
  unfolding tag_pair
  tag_pair-eq = bit_or-aligned p 1 (omega arith) a

  pub tag_closure-eq : tag_closure p ≡ p + 5
  unfolding tag_closure
  tag_closure-eq = bit_or-aligned p 5 (omega arith) a

  pub tag_symbol-eq : tag_symbol p ≡ p + 6
  unfolding tag_symbol
  tag_symbol-eq = bit_or-aligned p 6 (omega arith) a

  pub is_pair-tag_pair : is_pair (tag_pair p) ≡ true
  unfolding is_pair
  is_pair-tag_pair = rw tag_pair-eq (ground arith)

  pub get_pair-tag_pair : get_pair (tag_pair p) ≡ p
  unfolding get_pair
  get_pair-tag_pair = rw tag_pair-eq (omega arith)

  pub is_closure-tag_closure : is_closure (tag_closure p) ≡ true
  unfolding is_closure
  is_closure-tag_closure = rw tag_closure-eq (ground arith)

  pub get_closure-tag_closure : get_closure (tag_closure p) ≡ p
  unfolding get_closure
  get_closure-tag_closure = rw tag_closure-eq (omega arith)

  pub is_symbol-tag_symbol : is_symbol (tag_symbol p) ≡ true
  unfolding is_symbol
  is_symbol-tag_symbol = rw tag_symbol-eq (ground arith)

  pub get_symbol-tag_symbol : get_symbol (tag_symbol p) ≡ p
  unfolding get_symbol
  get_symbol-tag_symbol = rw tag_symbol-eq (omega arith)

-- `scm_car` and `scm_cdr` of a tagged pair read the pair that its address points to.
pub scm_car_cdr-tag_pair :
    (pairs : Ptr → Pair) (p : Ptr)
    → IsAligned p
    → (scm_car pairs (tag_pair p) ≡ (pairs p).car) × (scm_cdr pairs (tag_pair p) ≡ (pairs p).cdr)
unfolding scm_car scm_cdr
scm_car_cdr-tag_pair pairs p a = (
  rw (is_pair-tag_pair p a, get_pair-tag_pair p a),
  rw (is_pair-tag_pair p a, get_pair-tag_pair p a),
)
