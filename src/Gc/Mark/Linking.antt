-- ===== src/Gc/Mark/Linking.antt =====
-- What linking a block to the list of grey blocks (src/gc.c) keeps.
use nscheme.Prelude.{
  refl, sym, ap, inl, inr, true, false, List, [], arith, Bool-cases, length, length-append, ◌+◌,
  ◌≤◌, ◌<◌, ◌≡◌, ◌⊎◌, ◌∷◌, ◌++◌, ◌==◌, ◌∙◌,
}
use nscheme.Values.{Value, Ptr, is_pair}
use nscheme.Memory.{Memory}
use nscheme.Gc.Mark.{
  is_heap_type, is_gc_ptr, link_end, is_unmarked, is_unmarked_ptr, should_link, try_link,
}
use nscheme.Gc.Mark.Queue.{
  addr, Headers, Within, AllFlagged, end-Within, Within-same, Within-before, Within-last, IsLinked,
  link_end-IsLinked, link-IsQueue, AllFlagged-mono, AllFlagged-append, white, white-less,
}
use nscheme.Gc.Mark.Traverse.{
  on_heap, Covers, IsPairOnHeap, AllPairs-append, IsMarking, Extends, Extends-flags, Extends-refl,
  IsDone-mono,
}

Within-flagged :
    (b : Headers) (p : Ptr) (q : List Value) → Within p q → AllFlagged b q → 0 < (b p).flags
Within-flagged b p [] n f = absurd n
Within-flagged b p (u ∷ q) (inl e) (f, fs) = let d = ap (λ r. (b r).flags) e in omega arith
Within-flagged b p (u ∷ q) (inr i) (f, fs) = Within-flagged b p q i fs

linked-Extends :
    (b b' : Headers) (end next : Value)
    → IsLinked b b' end next
    → (b (addr next)).flags ≡ 0
    → Extends b b'
linked-Extends b b' end next l z = record {
  flags = λ p. elim (l.flags_same p) [
    | inl e ↦ inl (ap (λ r. (b r).flags) e ∙ z)
    | inr d ↦ ground arith
  ];
  marks = λ p. elim (l.flags_same p) [
    | inl e ↦ inl (ap (λ r. (b r).flags) e ∙ z)
    | inr d ↦ ground arith
  ];
}

linked-IsMarking :
    (m : Memory) (b b' : Headers) (v : Value) (q : List Value) (end next : Value)
    → IsLinked b b' end next
    → IsMarking m b v q end
    → 0 < (b (addr v)).flags
    → (b (addr next)).flags ≡ 0
    → on_heap m next ≡ true
    → is_pair next ≡ true
    → IsMarking m b' v (q ++ next ∷ []) next
linked-IsMarking m b b' v q end next l i f z h p =
    let e = linked-Extends b b' end next l z in
    let end_flagged : 0 < (b (addr end)).flags =
      Within-flagged b (addr end) (v ∷ q) (end-Within b v q end i.queue) (f, i.flagged) in
    let next_flags = l.next_flags in
    let next_uintptr = l.next_uintptr in
    record {
      queue = link-IsQueue b b' v q end next l i.queue (f, i.flagged) z;
      flagged =
          AllFlagged-append b' q next (AllFlagged-mono b b' q (Extends-flags b b' e) i.flagged)
            (omega arith);
      heap = (i.heap.0, i.heap.1, AllPairs-append m q next i.heap.2 h p);
      done = λ r k. elim (l.flags_same r) [
        | inl d ↦
            inl
              (Within-same (addr next) r (v ∷ (q ++ next ∷ [])) (sym d) (inr (Within-last q next)))
        | inr d ↦ elim (i.done r (omega arith)) [
          | inl w ↦ inl (Within-before r (v ∷ q) next w)
          | inr g ↦ inr (IsDone-mono m b b' r e g)
        ]
      ];
      clear = λ r k. elim (l.flags_same r) [
        | inl d ↦ ap (λ x. (b' x).uintptr) d ∙ next_uintptr
        | inr d ↦ elim (l.uintptr_same r) [
          | inl c ↦ (let d' = ap (λ x. (b x).flags) c in absurd (omega arith))
          | inr (inl c) ↦ ap (λ x. (b' x).uintptr) c ∙ next_uintptr
          | inr (inr c) ↦ c ∙ i.clear r (sym d ∙ k)
        ]
      ];
    }

-- What linking a part of the pair at `v` comes to.
abbrev pub Links :
    Memory → Headers → (v : Value) → List Value → (part : Value) → Memory × Value → Type 0
Links m b v q part r =
    (b' : Headers) × (q' : List Value) × (r.0 ≡ record m { blocks = b' })
    × IsMarking m b' v q' r.1
    × Extends b b'
    × Covers m b' part
    × (white b' m.gc.allocend + length q' ≤ white b m.gc.allocend + length q)

pub should_link_cases :
    (m : Memory) (b : Headers) (v : Value)
    → ((should_link (record m { blocks = b }) v ≡ true)
        × (on_heap m v ≡ true)
        × ((b (addr v)).flags ≡ 0))
      ⊎ ((should_link (record m { blocks = b }) v ≡ false) × Covers m b v)
unfolding should_link is_unmarked is_unmarked_ptr
should_link_cases m b v = elim (Bool-cases (is_heap_type v)) [
  | inr n ↦ inr (rw n refl, inl (rw n refl))
  | inl y ↦ elim (Bool-cases (is_gc_ptr m.gc (addr v))) [
    | inr n ↦ inr (rw (y, n) refl, inl (rw (y, n) refl))
    | inl g ↦ elim (Bool-cases ((b (addr v)).flags == 0)) [
      | inl z ↦ inl (rw (y, g, z) refl, rw (y, g) refl, ground arith)
      | inr n ↦ inr (rw (y, g, n) refl, inr (ground arith))
    ]
  ]
]

on_heap_below : (m : Memory) (v : Value) → on_heap m v ≡ true → addr v < m.gc.allocend
unfolding is_gc_ptr
on_heap_below m v h = elim (Bool-cases (is_heap_type v)) [
  | inr n ↦ (let h' = rw n at h in cc)
  | inl y ↦ (let h' = rw y at h in ground arith)
]

pub try_link-Links :
    (m : Memory) (b : Headers) (v : Value) (q : List Value) (end part : Value)
    → IsMarking m b v q end
    → 0 < (b (addr v)).flags
    → IsPairOnHeap m part
    → Links m b v q part (try_link (record m { blocks = b }) end part)
unfolding try_link
try_link-Links m b v q end part i f pair = elim (should_link_cases m b part) [
  | inr (n, c) ↦ rw (n, try_link) (b, q, refl, i, Extends-refl b, c, omega arith)
  | inl (y, h, z) ↦
      (let end_flagged : 0 < (b (addr end)).flags =
          Within-flagged b (addr end) (v ∷ q) (end-Within b v q end i.queue) (f, i.flagged) in
        let apart : ¬ (addr end ≡ addr part) =
          λ e. (let d = ap (λ r. (b r).flags) e in absurd (omega arith)) in
        let b' = link_end b end part in
        let l = link_end-IsLinked b end part apart in
        let e = linked-Extends b b' end part l z in
        let is_pair_part : is_pair part ≡ true = elim pair [ inl o ↦ cc | inr p ↦ p ] in
        let next_flags = l.next_flags in
        let less =
          white-less b b' (addr part) m.gc.allocend e.flags z (omega arith)
            (on_heap_below m part h) in
        let marking = linked-IsMarking m b b' v q end part l i f z h is_pair_part in
        rw (y, try_link)
          (
            b',
            q ++ part ∷ [],
            refl,
            marking,
            e,
            inr (omega arith),
            omega (arith, length-append q (part ∷ [])),
          ))
]
