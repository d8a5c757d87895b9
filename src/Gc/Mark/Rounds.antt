-- ===== src/Gc/Mark/Rounds.antt =====
-- The loop of `mark_traverse` (src/gc.c).
use nscheme.Prelude.{
  ℕ, zero, suc, refl, sym, inl, inr, true, false, List, [], arith, Bool-cases, length, ◌+◌, ◌%◌,
  ◌≤◌, ◌<◌, ◌≡◌, ◌⊎◌, ◌∷◌, ◌==◌, ◌∙◌,
}
use nscheme.Values.{Value, Ptr, is_pair}
use nscheme.Memory.{Memory}
use nscheme.Run.{Run, ok}
use nscheme.Gc.Mark.{
  is_heap_type, gc_mark_pointer, gc_mark_value, link_next, try_link, link_parts, mark_loop,
}
use nscheme.Gc.Mark.Queue.{addr, Headers, white, white_mono}
use nscheme.Gc.Mark.Traverse.{
  on_heap, Covers, IsDone, HasPairs, IsMarking, Extends, Extends-flags, Extends-refl, Extends-trans,
  Covers-mono, marked, marked-Extends, marked_self, marked-IsMarking,
}
use nscheme.Gc.Mark.Linking.{try_link-Links}

part_pairs :
    (m : Memory) (b : Headers) (v end : Value)
    → is_pair v ≡ true
    → link_parts (record m { blocks = b }) v end ≡ (
        let (m', end') = try_link (record m { blocks = b }) end (m.pairs (addr v)).car in
        try_link m' end' (m.pairs (addr v)).cdr)
unfolding link_parts is_pair
part_pairs m b v end h = rw h refl

-- What linking both parts of the pair comes to.
abbrev LinksBoth : Memory → Headers → (v : Value) → List Value → Memory × Value → Type 0
LinksBoth m b v q r =
    (b' : Headers) × (q' : List Value) × (r.0 ≡ record m { blocks = b' })
    × IsMarking m b' v q' r.1
    × Extends b b'
    × Covers m b' (m.pairs (addr v)).car
    × Covers m b' (m.pairs (addr v)).cdr
    × (white b' m.gc.allocend + length q' ≤ white b m.gc.allocend + length q)

link_parts-LinksBoth :
    (m : Memory) (b : Headers) (v : Value) (q : List Value) (end : Value)
    → HasPairs m
    → IsMarking m b v q end
    → 0 < (b (addr v)).flags
    → LinksBoth m b v q (link_parts (record m { blocks = b }) v end)
link_parts-LinksBoth m b v q end pairs i f =
    let r = try_link (record m { blocks = b }) end (m.pairs (addr v)).car in
    let (b₁, q₁, e₁, i₁, x₁, c₁, l₁) =
      try_link-Links m b v q end (m.pairs (addr v)).car i f (pairs.cars (addr v)) in
    let (b₂, q₂, e₂, i₂, x₂, c₂, l₂) =
      try_link-Links m b₁ v q₁ r.1 (m.pairs (addr v)).cdr i₁ (Extends-flags b b₁ x₁ (addr v) f)
        (pairs.cdrs (addr v)) in
    rw (part_pairs m b v end i.heap.1) (
      rw e₁ (
        b₂,
        q₂,
        e₂,
        i₂,
        Extends-trans b b₁ b₂ x₁ x₂,
        Covers-mono m b₁ b₂ (m.pairs (addr v)).car x₂ c₁,
        c₂,
        omega arith,
      ))

on_heap_nonzero : (m : Memory) (v : Value) → on_heap m v ≡ true → (v == 0) ≡ false
unfolding is_heap_type
on_heap_nonzero m v h = elim (Bool-cases (v == 0)) [
  | inr n ↦ n
  | inl y ↦ (let e : v ≡ 0 = ground arith in let h' = rw e at h in cc)
]

gc_mark_value-marked :
    (m : Memory) (b : Headers) (v : Value)
    → on_heap m v ≡ true
    → gc_mark_value (record m { blocks = b }) v ≡ record m { blocks = marked b v }
unfolding gc_mark_value gc_mark_pointer
gc_mark_value-marked m b v h = elim (Bool-cases (is_heap_type v)) [
  | inr n ↦ (let h' = rw n at h in cc)
  | inl y ↦ (let h' = rw y at h in rw (y, h') refl)
]

-- Every block that has flags is marked, what its pair refers to has flags, and a block without flags
-- is not linked.
pub record IsTraced (m : Memory) (b : Headers) : Type 0 where
  pub done : (p : Ptr) → ((b p).flags ≡ 0) ⊎ IsDone m b p
  pub clear : (p : Ptr) → (b p).flags ≡ 0 → (b p).uintptr ≡ 0

-- What marking from `v` comes to.
abbrev pub Traces : Memory → Headers → Value → Run Memory → Type 0
Traces m b v r =
    (b' : Headers) × (r ≡ ok (record m { blocks = b' }))
    × IsTraced m b'
    × Extends b b'
    × Covers m b' v

ℕ_cases : (n : ℕ) → (n ≡ 0) ⊎ (0 < n)
ℕ_cases zero = inl refl
ℕ_cases (suc n) = inr (omega arith)

IsDone-same : (m : Memory) (b : Headers) (p r : Ptr) → p ≡ r → IsDone m b p → IsDone m b r
IsDone-same m b p r e d = rw (sym e) d

mark_loop_end : (k : ℕ) (m : Memory) (end : Value) → mark_loop k m 0 end ≡ ok m
unfolding mark_loop
mark_loop_end zero m end = refl
mark_loop_end (suc k) m end = refl

-- One round, at `v`: the loop goes on with what `link_parts` has linked.
mark_loop_round :
    (k : ℕ) (m : Memory) (b : Headers) (v : Value) (q : List Value) (end : Value)
    → HasPairs m
    → IsMarking m b v q end
    → (b₁ : Headers) × (q₁ : List Value) × (end₁ : Value) × (mark_loop
          (suc k)
          (record m { blocks = b })
          v
          end
        ≡ mark_loop k (record m { blocks = b₁ }) (b₁ (addr v)).uintptr end₁)
      × IsMarking m b₁ v q₁ end₁
      × IsDone m b₁ (addr v)
      × Extends b b₁
      × (white b₁ m.gc.allocend + length q₁ ≤ white b m.gc.allocend + length q)
unfolding mark_loop link_next
mark_loop_round k m b v q end pairs i =
    let c = marked b v in
    let x = marked-Extends b v in
    let odd = marked_self b v in
    let some_flags : 0 < (c (addr v)).flags = ground arith in
    let (b₁, q₁, e₁, i₁, x₁, car, cdr, l) =
      link_parts-LinksBoth m c v q end pairs (marked-IsMarking m b v q end i) some_flags in
    let fewer = white_mono b c m.gc.allocend x.flags in
    let nonzero = on_heap_nonzero m v i.heap.0 in
    let still_odd : (b₁ (addr v)).flags % 2 ≡ 1 = elim (x₁.marks (addr v)) [
      | inl z ↦ absurd (omega arith)
      | inr (inl z) ↦ absurd (omega arith)
      | inr (inr o) ↦ o
    ] in
    (
      b₁,
      q₁,
      _,
      rw (nonzero, gc_mark_value-marked m b v i.heap.0, e₁) refl,
      i₁,
      (still_odd, car, cdr),
      Extends-trans b c b₁ x x₁,
      omega arith,
    )

-- From where the loop stands behind a traversed block, if it can go on from any other.
rest-IsTraced :
    (k : ℕ) (m : Memory) (b : Headers) (v : Value) (q : List Value) (end : Value)
    → ((w : Value) (q' : List Value)
        → IsMarking m b w q' end
        → white b m.gc.allocend + length q' < k
        → Traces m b w (mark_loop k (record m { blocks = b }) w end))
    → IsMarking m b v q end
    → IsDone m b (addr v)
    → white b m.gc.allocend + length q < suc k
    → (b' : Headers) × (mark_loop k (record m { blocks = b }) (b (addr v)).uintptr end
        ≡ ok (record m { blocks = b' }))
      × IsTraced m b'
      × Extends b b'
rest-IsTraced k m b v [] end go i done l =
    let clear = i.clear in
    (
      b,
      rw (i.queue.1) (mark_loop_end k (record m { blocks = b }) end),
      record {
        done = λ p. elim (ℕ_cases (b p).flags) [
          | inl z ↦ inl z
          | inr f ↦ elim (i.done p f) [
            | inl (inl e) ↦ inr (IsDone-same m b (addr v) p e done)
            | inl (inr n) ↦ absurd n
            | inr d ↦ inr d
          ]
        ];
        clear = clear;
      },
      Extends-refl b,
    )
rest-IsTraced k m b v (w ∷ q) end go i done l =
    let (u, apart, queue) = i.queue in
    let (b', e, traced, x, covers) =
      go w q
        (record {
          queue = queue;
          flagged = i.flagged.1;
          heap = i.heap.2;
          done = λ p f. elim (i.done p f) [
            | inl (inl e) ↦ inr (IsDone-same m b (addr v) p e done)
            | inl (inr n) ↦ inl n
            | inr d ↦ inr d
          ];
          clear = i.clear;
        })
        (omega arith) in
    (b', rw u e, traced, x)

-- The loop ends, once it has as much fuel as there are blocks without flags or yet to traverse.
pub mark_loop-Traces :
    (k : ℕ) (m : Memory) (b : Headers) (v : Value) (q : List Value) (end : Value)
    → HasPairs m
    → IsMarking m b v q end
    → white b m.gc.allocend + length q < k
    → Traces m b v (mark_loop k (record m { blocks = b }) v end)
mark_loop-Traces zero m b v q end pairs i l = absurd (omega arith)
mark_loop-Traces (suc k) m b v q end pairs i l =
    let (b₁, q₁, end₁, e₁, i₁, done, x, fewer) = mark_loop_round k m b v q end pairs i in
    let (b', e', traced, x') =
      rest-IsTraced k m b₁ v q₁ end₁ (λ w q' j f. mark_loop-Traces k m b₁ w q' end₁ pairs j f) i₁
        done (omega arith) in
    let odd = done.0 in
    (
      b',
      e₁ ∙ e',
      traced,
      Extends-trans b b₁ b' x x',
      inr (Extends-flags b₁ b' x' (addr v) (ground arith)),
    )
