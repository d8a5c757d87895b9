-- ===== src/Gc/Mark/Traverse.antt =====
-- What the marking of src/gc.c traverses: all blocks that a value refers to.
use nscheme.Prelude.{
  sym, inl, inr, Bool, true, false, List, [], arith, ◌%◌, ◌<◌, ◌≡◌, ◌⊎◌, ◌&&◌, ◌∷◌, ◌++◌,
}
use nscheme.Values.{Value, Ptr, is_pair}
use nscheme.Memory.{Memory, update}
use nscheme.Gc.Mark.{is_heap_type, is_gc_ptr, set_marked}
use nscheme.Gc.Mark.Queue.{
  addr, Headers, Within, IsQueue, AllFlagged, IsQueue-same, AllFlagged-mono,
}
use native.Mathlib.Decide.{ℕ_discrete}

-- The value is the address of a block of the collected heap.
abbrev pub on_heap : Memory → Value → Bool
on_heap m v = is_heap_type v && is_gc_ptr m.gc (addr v)

-- If the value is a block of the heap, its header has flags.
abbrev pub Covers : Memory → Headers → Value → Type 0
Covers m b v = (on_heap m v ≡ false) ⊎ (0 < (b (addr v)).flags)

-- The block at the address is marked, and what its pair refers to has flags.
abbrev pub IsDone : Memory → Headers → Ptr → Type 0
IsDone m b p = ((b p).flags % 2 ≡ 1) × Covers m b (m.pairs p).car × Covers m b (m.pairs p).cdr

-- Of the blocks of the heap, pairs refer to pairs only.
abbrev pub IsPairOnHeap : Memory → Value → Type 0
IsPairOnHeap m v = (on_heap m v ≡ false) ⊎ (is_pair v ≡ true)

pub record HasPairs (m : Memory) : Type 0 where
  pub cars : (p : Ptr) → IsPairOnHeap m (m.pairs p).car
  pub cdrs : (p : Ptr) → IsPairOnHeap m (m.pairs p).cdr

abbrev pub AllPairs : Memory → List Value → Type 0
AllPairs m [] = Unit
AllPairs m (u ∷ q) = (on_heap m u ≡ true) × (is_pair u ≡ true) × AllPairs m q

pub AllPairs-append :
    (m : Memory) (q : List Value) (u : Value)
    → AllPairs m q
    → on_heap m u ≡ true
    → is_pair u ≡ true
    → AllPairs m (q ++ u ∷ [])
AllPairs-append m [] u a h p = (h, p, a)
AllPairs-append m (w ∷ q) u (h', p', a) h p = (h', p', AllPairs-append m q u a h p)

-- The loop is at `v`, and the blocks of `q` are grey.
pub record IsMarking (m : Memory) (b : Headers) (v : Value) (q : List Value) (end : Value)
    : Type 0 where
  pub queue : IsQueue b v q end
  pub flagged : AllFlagged b q
  pub heap : AllPairs m (v ∷ q)
  pub done : (p : Ptr) → 0 < (b p).flags → Within p (v ∷ q) ⊎ IsDone m b p
  pub clear : (p : Ptr) → (b p).flags ≡ 0 → (b p).uintptr ≡ 0

-- Flags stay, and the marks of the blocks that have flags.
pub record Extends (b b' : Headers) : Type 0 where
  pub flags : (p : Ptr) → ((b p).flags ≡ 0) ⊎ (0 < (b' p).flags)
  pub marks : (p : Ptr) → ((b p).flags ≡ 0) ⊎ ((b p).flags % 2 ≡ 0) ⊎ ((b' p).flags % 2 ≡ 1)

pub Extends-flags : (b b' : Headers) → Extends b b' → (p : Ptr) → 0 < (b p).flags → 0 < (b' p).flags
Extends-flags b b' e p l = elim (e.flags p) [ inl z ↦ absurd (omega arith) | inr k ↦ k ]

pub Extends-refl : (b : Headers) → Extends b b
Extends-refl b = record { flags = λ p. ground arith; marks = λ p. ground arith }

pub Extends-trans : (b c d : Headers) → Extends b c → Extends c d → Extends b d
Extends-trans b c d e f = record {
  flags = λ p. elim (e.flags p) [ inl z ↦ inl z | inr k ↦ inr (Extends-flags c d f p k) ];
  marks = λ p. elim (e.marks p) [
    | inl z ↦ inl z
    | inr (inl z) ↦ inr (inl z)
    | inr (inr k) ↦ elim (f.marks p) [
      | inl z ↦ absurd (ground arith)
      | inr (inl z) ↦ absurd (omega arith)
      | inr (inr l) ↦ inr (inr l)
    ]
  ];
}

pub Covers-mono :
    (m : Memory) (b b' : Headers) (v : Value) → Extends b b' → Covers m b v → Covers m b' v
Covers-mono m b b' v e (inl o) = inl o
Covers-mono m b b' v e (inr l) = inr (Extends-flags b b' e (addr v) l)

pub IsDone-mono :
    (m : Memory) (b b' : Headers) (p : Ptr) → Extends b b' → IsDone m b p → IsDone m b' p
IsDone-mono m b b' p e (f, c, d) = (
  elim (e.marks p) [
    | inl z ↦ absurd (ground arith)
    | inr (inl z) ↦ absurd (omega arith)
    | inr (inr l) ↦ l
  ],
  Covers-mono m b b' _ e c,
  Covers-mono m b b' _ e d,
)

-- Marking the block that the loop is at.
abbrev pub marked : Headers → Value → Headers
marked b v = update b (addr v) (set_marked (b (addr v)))

pub marked-Extends : (b : Headers) (v : Value) → Extends b (marked b v)
unfolding set_marked
marked-Extends b v = record { flags = λ p. ground arith; marks = λ p. ground arith }

pub marked_self : (b : Headers) (v : Value) → (marked b v (addr v)).flags % 2 ≡ 1
unfolding set_marked
marked_self b v = ground arith

pub marked-IsMarking :
    (m : Memory) (b : Headers) (v : Value) (q : List Value) (end : Value)
    → IsMarking m b v q end
    → IsMarking m (marked b v) v q end
unfolding set_marked
marked-IsMarking m b v q end i =
    let e = marked-Extends b v in
    let clear = i.clear in
    record {
      queue = IsQueue-same b (marked b v) v q end (λ p. ground arith) i.queue;
      flagged = AllFlagged-mono b (marked b v) q (Extends-flags b (marked b v) e) i.flagged;
      heap = i.heap;
      done = λ p l. elim (ℕ_discrete p (addr v)) [
        | yes d ↦ inl (inl (sym d))
        | no d ↦
            (let same : (marked b v p).flags ≡ (b p).flags = ground arith in
              elim (i.done p (omega arith)) [
                | inl w ↦ inl w
                | inr f ↦ inr (IsDone-mono m b (marked b v) p e f)
              ])
      ];
      clear = λ p z. ground (arith, clear p);
    }
