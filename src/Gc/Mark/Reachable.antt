-- ===== src/Gc/Mark/Reachable.antt =====
-- `mark_traverse` (src/gc.c): it marks what a value refers to.
use nscheme.Prelude.{refl, inl, inr, true, false, [], arith, Bool-cases, ◌+◌, ◌%◌, ◌≡◌, ◌⊎◌}
use nscheme.Values.{Value, is_pair}
use nscheme.Memory.{Memory}
use nscheme.Run.{ok}
use nscheme.Gc.Mark.{mark_traverse}
use nscheme.Gc.Mark.Queue.{addr, Headers, white_bound}
use nscheme.Gc.Mark.Traverse.{on_heap, Covers, IsDone, IsPairOnHeap, HasPairs, Extends-refl}
use nscheme.Gc.Mark.Linking.{should_link_cases}
use nscheme.Gc.Mark.Rounds.{IsTraced, Traces, mark_loop-Traces}

-- On a heap whose pairs refer to no other blocks of it than pairs, and on which everything marked is
-- traced, `mark_traverse` ends: then everything marked is traced again, the value is a marked block
-- too if it is one of the heap, no block has lost its mark, and only headers have changed.
pub mark_traverse-Traces :
    (m : Memory) (root : Value)
    → HasPairs m
    → IsTraced m m.blocks
    → IsPairOnHeap m root
    → Traces m m.blocks root (mark_traverse m root)
unfolding mark_traverse
mark_traverse-Traces m root pairs traced pair = elim (should_link_cases m m.blocks root) [
  | inr (n, covers) ↦ rw (n, mark_traverse) (m.blocks, refl, traced, Extends-refl m.blocks, covers)
  | inl (y, h, z) ↦
      (let is_pair_root : is_pair root ≡ true = elim pair [ inl o ↦ cc | inr p ↦ p ] in
        let bound = white_bound m.blocks m.gc.allocend in
        rw (y, mark_traverse)
          (mark_loop-Traces (m.gc.allocend + 1) m m.blocks root [] root pairs
            (record {
              queue = (refl, traced.clear (addr root) z);
              flagged = tt;
              heap = (h, is_pair_root, tt);
              done = λ p f. elim (traced.done p) [ inl e ↦ absurd (omega arith) | inr d ↦ inr d ];
              clear = traced.clear;
            })
            (omega arith)))
]

-- What a value refers to through the pairs of the heap.
pub data IsReachable (m : Memory) (root : Value) : Value → Type 0 where
  reached_root : IsReachable m root root
  reached_car :
      {v : Value}
      → IsReachable m root v
      → on_heap m v ≡ true
      → IsReachable m root (m.pairs (addr v)).car
  reached_cdr :
      {v : Value}
      → IsReachable m root v
      → on_heap m v ≡ true
      → IsReachable m root (m.pairs (addr v)).cdr

traced_parts :
    (m : Memory) (b : Headers) (v : Value)
    → IsTraced m b
    → Covers m b v
    → on_heap m v ≡ true
    → IsDone m b (addr v)
traced_parts m b v t (inl o) h = cc
traced_parts m b v t (inr f) h = elim (t.done (addr v)) [ inl z ↦ absurd (omega arith) | inr d ↦ d ]

reachable-Covers :
    (m : Memory) (b : Headers) {root v : Value}
    → IsTraced m b
    → Covers m b root
    → IsReachable m root v
    → Covers m b v
reachable-Covers m b t c reached_root = c
reachable-Covers m b t c (reached_car r h) = (traced_parts m b _ t (reachable-Covers m b t c r) h).1
reachable-Covers m b t c (reached_cdr r h) = (traced_parts m b _ t (reachable-Covers m b t c r) h).2

-- Where everything marked is traced, what a marked value refers to is marked.
pub reachable_marked :
    (m : Memory) (b : Headers) {root v : Value}
    → IsTraced m b
    → Covers m b root
    → IsReachable m root v
    → (on_heap m v ≡ false) ⊎ ((b (addr v)).flags % 2 ≡ 1)
reachable_marked m b {root} {v} t c r = elim (Bool-cases (on_heap m v)) [
  | inr n ↦ inl n
  | inl h ↦ inr (traced_parts m b v t (reachable-Covers m b t c r) h).0
]

-- On a heap whose pairs refer to no other blocks of it than pairs, and on which everything marked is
-- traced, `mark_traverse` ends, changes only headers, and has then marked every block of the heap that
-- the value refers to through pairs.
pub mark_traverse-IsReachable :
    (m : Memory) (root : Value)
    → HasPairs m
    → IsTraced m m.blocks
    → IsPairOnHeap m root
    → (b' : Headers) × (mark_traverse m root ≡ ok (record m { blocks = b' }))
      × ((v : Value) → IsReachable m root v → (on_heap m v ≡ false) ⊎ ((b' (addr v)).flags % 2 ≡ 1))
mark_traverse-IsReachable m root pairs traced pair =
    let (b', e, t, x, c) = mark_traverse-Traces m root pairs traced pair in
    (b', e, λ v r. reachable_marked m b' t c r)
