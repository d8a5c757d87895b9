-- ===== src/Gc/Examples.antt =====
-- The allocator, and the marking, at a heap of 1024 bytes from address 8 that nothing was
-- allocated in, and at one with two pairs.
use native.Mathlib.Decide.{ℕ_discrete}
use nscheme.Values.{Value, is_pair, get_heap_tagged_value}
use nscheme.Gc.Mark.{is_heap_type, is_gc_ptr, mark_traverse}
use nscheme.Gc.Mark.Queue.{addr, Headers}
use nscheme.Gc.Mark.Traverse.{HasPairs, IsPairOnHeap, on_heap}
use nscheme.Gc.Mark.Rounds.{IsTraced}
use nscheme.Gc.Collect.{Addresses, gc_collect_vm}
use nscheme.Gc.Collect.Complete.{
  IsRoot, on_stack, at_hand, in_frame, of_closure, IsRooted, gc_collect_vm-Complete,
}
use nscheme.Vm.State.{Vm}
use nscheme.Vm.Walks.{walking}
use nscheme.Gc.Mark.Reachable.{IsReachable, mark_traverse-IsReachable}
use nscheme.Prelude.{refl, inl, inr, false, [], arith, ◌%◌, ◌≡◌, ◌⊎◌, ◌∷◌}
use nscheme.Env.{null, node}
use nscheme.Memory.{Memory, update}
use nscheme.Memory
use nscheme.Run.{ok}
use nscheme.Gc.{gc_alloc, construct_pair}
use nscheme.Gc.Alloc.{IsHeap, Outcome, PairOrPanic, gc_alloc-Outcome, construct_pair_outcome}

abbrev fresh_memory : Memory
fresh_memory = record {
  brk = 2048;
  strings = λ p. [];
  symbol_tree = Memory.null;
  gc = record { base = 8; end = 1032; allocend = 16 };
  blocks = λ p. record { uintptr = 0; flags = 0; size = 0 };
  pairs = λ p. record { car = 0; cdr = 0 };
}

fresh_memory-IsHeap : IsHeap fresh_memory.gc
fresh_memory-IsHeap = record {
  base_allocend = omega arith;
  allocend_end = omega arith;
  end_small = omega arith;
}

gc_alloc-Outcome_example : Outcome fresh_memory 48 (gc_alloc fresh_memory 48)
gc_alloc-Outcome_example =
    gc_alloc-Outcome fresh_memory 48 fresh_memory-IsHeap (omega arith) (omega arith)

construct_pair_outcome_example : PairOrPanic fresh_memory 4 8 (construct_pair fresh_memory 4 8)
construct_pair_outcome_example =
    construct_pair_outcome fresh_memory 4 8 fresh_memory-IsHeap (omega arith)

-- Two pairs that refer to each other, at 32 and at 64, and a heap on which nothing is marked.
abbrev two_pairs : Memory
two_pairs = record fresh_memory {
  gc = record { base = 8; end = 1032; allocend = 128 };
  pairs =
      update (update fresh_memory.pairs 32 (record { car = 8; cdr = 65 })) 64
        (record { car = 33; cdr = 8 });
}

two_pairs-HasPairs : HasPairs two_pairs
unfolding is_heap_type is_gc_ptr get_heap_tagged_value is_pair
two_pairs-HasPairs = record {
  cars = λ p. elim (ℕ_discrete p 64) [
    | yes e ↦ inr (rw e refl)
    | no n ↦ elim (ℕ_discrete p 32) [ yes e ↦ inl (rw e refl) | no k ↦ inl (ground arith) ]
  ];
  cdrs = λ p. elim (ℕ_discrete p 64) [
    | yes e ↦ inl (rw e refl)
    | no n ↦ elim (ℕ_discrete p 32) [ yes e ↦ inr (rw e refl) | no k ↦ inl (ground arith) ]
  ];
}

two_pairs-IsTraced : IsTraced two_pairs two_pairs.blocks
two_pairs-IsTraced = record { done = λ p. inl refl; clear = λ p z. refl }

mark_traverse-IsReachable_example :
    (b' : Headers) × (mark_traverse two_pairs 33 ≡ ok (record two_pairs { blocks = b' }))
    × ((v : Value)
        → IsReachable two_pairs 33 v
        → (on_heap two_pairs v ≡ false) ⊎ ((b' (addr v)).flags % 2 ≡ 1))
unfolding is_pair
mark_traverse-IsReachable_example =
    mark_traverse-IsReachable two_pairs 33 two_pairs-HasPairs two_pairs-IsTraced (inr refl)

-- A machine that evaluates the second pair, with the first on its stack, with a frame that evaluates nothing, and whose only
-- environment binds a name to 40.
abbrev collecting : Vm
collecting = record walking {
  memory = two_pairs;
  stack = λ i. 33;
  callp = 1;
  ptr = 65;
  envs = record { root = node 2070 40 null null; last = 0 } ∷ [];
}

-- Environments and their nodes stand above the heap, and the array of every closure at 96.
abbrev addresses : Addresses
addresses = record { environments = λ p. 2048; nodes = λ r. 2080; closures = λ p. 96 }

collecting-roots : (v : Value) → IsRoot collecting v → IsPairOnHeap two_pairs v
unfolding is_heap_type is_gc_ptr get_heap_tagged_value is_pair
collecting-roots v (on_stack l) = inr refl
collecting-roots v at_hand = inr refl
collecting-roots v (in_frame l e) = inl refl
collecting-roots v (of_closure l) = inl refl

collecting-IsRooted : IsRooted addresses collecting
unfolding is_heap_type is_gc_ptr get_heap_tagged_value is_pair
collecting-IsRooted = record {
  pairs = two_pairs-HasPairs;
  placed = record { environments = λ p. refl; nodes = λ r. refl; arrays = λ p. inr (refl, refl) };
  traced = two_pairs-IsTraced;
  roots = collecting-roots;
  envs = ((inl refl, inl refl, tt, tt), tt);
  stack = omega arith;
  calls = omega arith;
}

gc_collect_vm-Complete_example :
    (b' : Headers) × (gc_collect_vm addresses collecting
      ≡ ok (0, record collecting { memory = record two_pairs { blocks = b' } }))
    × IsTraced two_pairs b'
    × ((root v : Value)
        → IsRoot collecting root
        → IsReachable two_pairs root v
        → (on_heap two_pairs v ≡ false) ⊎ ((b' (addr v)).flags % 2 ≡ 1))
gc_collect_vm-Complete_example = gc_collect_vm-Complete addresses collecting collecting-IsRooted
