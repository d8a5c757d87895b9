-- ===== src/SyntaxRules/Templates.antt =====
-- What a macro's template (src/syntax-rules.c) is filled with.
use nscheme.Prelude.{
  ℕ, refl, inl, inr, true, false, none, some, List, arith, ◌+◌, ◌^◌, ◌≤◌, ◌<◌, ◌≡◌, ◌⊎◌,
  if◌then◌else◌, ◌∙◌,
}
use nscheme.Values.{Value, Ptr, is_pair, is_symbol, get_pair, get_symbol, scm_type_null}
use nscheme.Memory.{Memory}
use nscheme.Gc.Alloc.{IsHeap}
use nscheme.SyntaxRules.{Binding, find_binding}

-- A template: values that are no pairs, in pairs.
pub data Template : Type 0 where
  atom : Value → Template
  pair : (car cdr : Template) → Template

abbrev pub size : Template → ℕ
size (atom v) = 0
size (pair a d) = size a + size d + 1

-- An expansion: values, in new pairs.
pub data Datum : Type 0 where
  whole : Value → Datum
  cons : (car cdr : Datum) → Datum

-- How many new pairs an expansion takes.
abbrev pub pairs : Datum → ℕ
pairs (whole v) = 0
pairs (cons a d) = pairs a + pairs d + 1

-- The template stands in the used part of the heap.
abbrev pub Reads : Memory → Value → Template → Type 0
Reads m v (atom w) = (v ≡ w) × (is_pair w ≡ false)
Reads m v (pair a d) =
    (is_pair v ≡ true)
    × (get_pair v < m.gc.allocend)
    × Reads m (m.pairs (get_pair v)).car a
    × Reads m (m.pairs (get_pair v)).cdr d

-- The expansion stands in the used part of the heap, its pairs at addresses from `b` on.
abbrev pub Holds : Ptr → Memory → Value → Datum → Type 0
Holds b m v (whole w) = v ≡ w
Holds b m v (cons a d) =
    (is_pair v ≡ true)
    × (b ≤ get_pair v)
    × (get_pair v < m.gc.allocend)
    × Holds b m (m.pairs (get_pair v)).car a
    × Holds b m (m.pairs (get_pair v)).cdr d

-- A name that is bound stands for its value, and before an ellipsis for the rest of the list too.
unfoldable pub fill_first : List Binding → Value → Datum → Datum
unfolding is_symbol get_symbol find_binding
fill_first bindings v rest = elim (is_symbol v) [
  | false ↦ cons (whole v) rest
  | true ↦ elim (find_binding bindings (get_symbol v)) [
    | none ↦ cons (whole v) rest
    | some b ↦ if b.is_variable_length then whole b.value else cons (whole b.value) rest
  ]
]

-- The template with its names replaced. Whatever ends a list is the empty list afterwards.
unfoldable pub fill : List Binding → Template → Datum
unfolding fill_first
fill bindings (atom v) = whole scm_type_null
fill bindings (pair (atom v) d) = fill_first bindings v (fill bindings d)
fill bindings (pair (pair a b) d) = cons (fill bindings (pair a b)) (fill bindings d)

-- More of the heap is in use, and what was in use is as it was.
pub record Grows (m m' : Memory) : Type 0 where
  pub kept : (q : Ptr) → (m.gc.allocend ≤ q) ⊎ (m'.pairs q ≡ m.pairs q)
  pub more : m.gc.allocend ≤ m'.gc.allocend
  pub heap : IsHeap m'.gc
  pub end : m'.gc.end ≡ m.gc.end

-- The heap lies below 2 ^ 62.
abbrev pub IsLow : Memory → Type 0
IsLow m = IsHeap m.gc × (m.gc.end < 2 ^ 62)

pub Grows-refl : (m : Memory) → IsLow m → Grows m m
Grows-refl m low = record { kept = λ q. inr refl; more = omega arith; heap = low.0; end = refl }

pub Grows-trans : (a b c : Memory) → Grows a b → Grows b c → Grows a c
Grows-trans a b c g h =
    let more = g.more in
    let more' = h.more in
    record {
      kept = λ q. elim (g.kept q) [
        | inl l ↦ inl l
        | inr e ↦ elim (h.kept q) [ inl l ↦ inl (omega arith) | inr d ↦ inr (d ∙ e) ]
      ];
      more = omega arith;
      heap = h.heap;
      end = h.end ∙ g.end;
    }

pub Reads-kept :
    (m m' : Memory) (v : Value) (t : Template) → Grows m m' → Reads m v t → Reads m' v t
Reads-kept m m' v (atom w) g r = r
Reads-kept m m' v (pair a d) g (y, l, ra, rd) =
    let more = g.more in
    elim (g.kept (get_pair v)) [
      | inl far ↦ absurd (omega arith)
      | inr e ↦ (
        y,
        omega arith,
        rw e (Reads-kept m m' (m.pairs (get_pair v)).car a g ra),
        rw e (Reads-kept m m' (m.pairs (get_pair v)).cdr d g rd),
      )
    ]

pub Holds-kept :
    (b : Ptr) (m m' : Memory) (v : Value) (t : Datum) → Grows m m' → Holds b m v t → Holds b m' v t
Holds-kept b m m' v (whole w) g r = r
Holds-kept b m m' v (cons a d) g (y, n, l, ra, rd) =
    let more = g.more in
    elim (g.kept (get_pair v)) [
      | inl far ↦ absurd (omega arith)
      | inr e ↦ (
        y,
        n,
        omega arith,
        rw e (Holds-kept b m m' (m.pairs (get_pair v)).car a g ra),
        rw e (Holds-kept b m m' (m.pairs (get_pair v)).cdr d g rd),
      )
    ]

-- Addresses from a later one on.
pub Holds-base :
    (b b' : Ptr) (m : Memory) (v : Value) (t : Datum) → b' ≤ b → Holds b m v t → Holds b' m v t
Holds-base b b' m v (whole w) l r = r
Holds-base b b' m v (cons a d) l (y, n, u, ra, rd) = (
  y,
  omega arith,
  u,
  Holds-base b b' m (m.pairs (get_pair v)).car a l ra,
  Holds-base b b' m (m.pairs (get_pair v)).cdr d l rd,
)
