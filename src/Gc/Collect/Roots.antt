-- ===== src/Gc/Collect/Roots.antt =====
-- Marking from the roots of the machine (src/gc.c): nothing but headers changes.
use nscheme.Prelude.{refl, inl, inr, false, [], arith, Bool-cases, ◌≡◌, ◌⊎◌, ◌∷◌, ◌∙◌}
use nscheme.Values.{Value, Ptr}
use nscheme.Memory.{Memory, update}
use nscheme.Env.{Node, null, node, Envs, NodeRef}
use nscheme.Run.{Run, ok}
use nscheme.Gc.Mark.{is_gc_ptr, set_marked, gc_mark_pointer, mark_traverse}
use nscheme.Gc.Mark.Queue.{Headers}
use nscheme.Gc.Mark.Traverse.{
  on_heap, Covers, IsDone-mono, IsPairOnHeap, HasPairs, Extends, Extends-refl,
}
use nscheme.Gc.Mark.Rounds.{IsTraced}
use nscheme.Gc.Mark.Reachable.{mark_traverse-Traces}
use nscheme.Gc.Collect.{Addresses}
use native.Mathlib.Decide.{ℕ_discrete}

-- The keys and values of a tree.
abbrev pub TreePairs : Memory → Node → Type 0
TreePairs m null = Unit
TreePairs m (node key value left right) =
    IsPairOnHeap m key × IsPairOnHeap m value × TreePairs m left × TreePairs m right

abbrev pub EnvPairs : Memory → Envs → Type 0
EnvPairs m [] = Unit
EnvPairs m (e ∷ older) = TreePairs m e.root × EnvPairs m older

-- What the allocators promise of addresses: `calloc` returns none of the collected heap, and no pair
-- stands where the array of a closure does.
pub record IsPlaced (at : Addresses) (m : Memory) : Type 0 where
  pub environments : (p : Ptr) → is_gc_ptr m.gc (at.environments p) ≡ false
  pub nodes : (r : NodeRef) → is_gc_ptr m.gc (at.nodes r) ≡ false
  pub arrays :
      (p : Ptr)
      → (is_gc_ptr m.gc (at.closures p) ≡ false)
        ⊎ ((on_heap m (m.pairs (at.closures p)).car ≡ false)
            × (on_heap m (m.pairs (at.closures p)).cdr ≡ false))

-- A computation that marks: it ends, only headers change, and what is marked is traced.
abbrev pub Marks : Memory → Headers → Run Memory → Type 0
Marks m b r = (b' : Headers) × (r ≡ ok (record m { blocks = b' })) × IsTraced m b' × Extends b b'

-- One that marks a value, too.
abbrev pub Marked : Memory → Headers → Value → Run Memory → Type 0
Marked m b v r =
    (b' : Headers) × (r ≡ ok (record m { blocks = b' }))
    × IsTraced m b'
    × Extends b b'
    × Covers m b' v

pub traverse_marks :
    (m : Memory) (b : Headers) (v : Value)
    → HasPairs m
    → IsTraced m b
    → IsPairOnHeap m v
    → Marked m b v (mark_traverse (record m { blocks = b }) v)
traverse_marks m b v pairs t p =
    let n = record m { blocks = b } in
    let (b', e, t', x, c) =
      mark_traverse-Traces n v (record { cars = pairs.cars; cdrs = pairs.cdrs })
        (record { done = t.done; clear = t.clear }) p in
    (b', e, record { done = t'.done; clear = t'.clear }, x, c)

-- A pointer outside the collected heap.
pub mark_outside : (m : Memory) (p : Ptr) → is_gc_ptr m.gc p ≡ false → gc_mark_pointer m p ≡ m
unfolding gc_mark_pointer
mark_outside m p h = rw h refl

pub mark_array :
    (at : Addresses) (m : Memory) (b : Headers) (p : Ptr)
    → IsPlaced at m
    → IsTraced m b
    → Marks m b (ok (gc_mark_pointer (record m { blocks = b }) (at.closures p)))
unfolding gc_mark_pointer set_marked
mark_array at m b p placed t =
    let q = at.closures p in
    let t_clear = t.clear in
    elim (Bool-cases (is_gc_ptr m.gc q)) [
      | inr n ↦ rw n (b, refl, t, Extends-refl b)
      | inl y ↦ elim (placed.arrays p) [
        | inl n ↦ cc
        | inr (car, cdr) ↦
            (let b' = update b q (set_marked (b q)) in
              let x : Extends b b' = record {
                flags = λ r. ground arith;
                marks = λ r. ground arith;
              } in
              rw y (
                b',
                refl,
                record {
                  done = λ r. elim (ℕ_discrete r q) [
                    | yes e ↦ inr (rw e (ground arith, inl car, inl cdr))
                    | no d ↦
                        (let same : (b' r).flags ≡ (b r).flags = ground arith in
                          elim (t.done r) [
                            | inl z ↦ inl (same ∙ z)
                            | inr f ↦ inr (IsDone-mono m b b' r x f)
                          ])
                  ];
                  clear = λ r z. ground (arith, t_clear r);
                },
                x,
              ))
      ]
    ]
