-- ===== src/Gc/Collect/Retry.antt =====
-- `vm_alloc` (src/gc.c) with the collection that it starts where the heap is full.
use nscheme.Prelude.{ℕ, refl, inl, inr, none, some, arith, Option-cases, ◌≡◌}
use nscheme.Memory.{Memory}
use nscheme.Run.{Run, ok, ◌>>=◌}
use nscheme.Vm.State.{Vm}
use nscheme.Gc.{gc_alloc, vm_alloc, panic}
use nscheme.Gc.Collect.{Addresses, gc_collect_vm}
use nscheme.Gc.Mark.Queue.{Headers}
use nscheme.Gc.Collect.Complete.{IsRooted, gc_collect_vm-Complete}

-- `gc_collect_vm` on the machine, seen as a change of its memory.
abbrev collect : Addresses → Vm → Memory → Run Memory
collect at vm m = gc_collect_vm at (record vm { memory = m }) >>= λ r. ok r.1.memory

-- `gc_alloc` does not read headers.
gc_alloc_headers :
    (m : Memory) (b : Headers) (n : ℕ)
    → gc_alloc m n ≡ none
    → gc_alloc (record m { blocks = b }) n ≡ none
unfolding gc_alloc
gc_alloc_headers m b n e = ground arith

-- A collection that changes headers alone makes no difference to `vm_alloc`.
vm_alloc-headers :
    (f : Memory → Run Memory) (m : Memory) (b : Headers) (n : ℕ)
    → f m ≡ ok (record m { blocks = b })
    → vm_alloc f m n ≡ vm_alloc ok m n
unfolding vm_alloc
vm_alloc-headers f m b n c = elim (Option-cases (gc_alloc m n)) [
  | inr (p, e) ↦ rw (e, vm_alloc) refl
  | inl e ↦
      (let again : (elim (gc_alloc (record m { blocks = b }) n) [ some r ↦ ok r | none ↦ panic ])
            ≡ (elim (gc_alloc m n) [ some r ↦ ok r | none ↦ panic ]) =
          rw (gc_alloc_headers m b n e, e) refl in
        rw (e, vm_alloc) (rw c again))
]

-- On a machine on which a collection ends, `vm_alloc` with it gives what it gives without.
vm_alloc-collect :
    (at : Addresses) (vm : Vm) (n : ℕ)
    → IsRooted at vm
    → vm_alloc (collect at vm) vm.memory n ≡ vm_alloc ok vm.memory n
vm_alloc-collect at vm n r =
    let (b, c, t, rest) = gc_collect_vm-Complete at vm r in
    vm_alloc-headers (collect at vm) vm.memory b n (rw c refl)
