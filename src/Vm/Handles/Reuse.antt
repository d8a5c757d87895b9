-- ===== src/Vm/Handles/Reuse.antt =====
-- What the handles of src/vm.c promise, and what becomes of a freed handle.
use nscheme.Prelude.{
  ℕ, refl, true, false, none, some, arith, ◌-◌, ◌≤◌, ◌<◌, ◌≡◌, ◌⊎◌, ◌&&◌, ◌==◌, if◌then◌else◌,
}
use nscheme.Values.{Value}
use nscheme.Memory.{update}
use nscheme.Vm.State.{Vm}
use nscheme.Vm.Handles.{
  vm_handle_alloc, vm_handle_free, vm_handle_valid, vm_handle_get, vm_handle_set,
}

-- A value set at a valid handle is got back, every other handle keeps its value, and no handle
-- becomes valid or invalid. At an invalid handle nothing changes, and null is got.
pub vm_handle_get-set :
    (vm : Vm) (h g : ℕ) (v : Value)
    → (vm_handle_get (vm_handle_set vm h v) g
        ≡ (if vm_handle_valid vm h && g == h then v else vm_handle_get vm g))
      × (vm_handle_valid (vm_handle_set vm h v) g ≡ vm_handle_valid vm g)
unfolding vm_handle_get vm_handle_set vm_handle_valid
vm_handle_get-set vm h g v = (ground arith, ground arith)

-- The slots that are available are unused: true at the start, and kept by allocation.
pub record IsFresh (vm : Vm) : Type 0 where
  pub bound : vm.handles.num_avail ≤ vm.handles.max_avail
  pub unused : (i : ℕ) → (vm.handles.num_avail ≤ i) ⊎ ((vm.handles.slots i).used ≡ false)

next_unused :
    (vm : Vm)
    → IsFresh vm
    → 0 < vm.handles.num_avail
    → (vm.handles.slots (vm.handles.num_avail - 1)).used ≡ false
next_unused vm v h = ground (arith, v.unused (vm.handles.num_avail - 1))

alloc_fresh :
    (vm : Vm)
    → IsFresh vm
    → 0 < vm.handles.num_avail
    → vm_handle_alloc vm ≡ (
      some (vm.handles.num_avail - 1),
      record vm {
        handles = record vm.handles {
          num_avail = vm.handles.num_avail - 1;
          slots =
              update vm.handles.slots
                (vm.handles.num_avail - 1)
                (record (vm.handles.slots (vm.handles.num_avail - 1)) { used = true });
        };
      },
    )
unfolding vm_handle_alloc
alloc_fresh vm v h =
    let some_left : (vm.handles.num_avail == 0) ≡ false = ground arith in
    rw (some_left, next_unused vm v h)

-- While the available slots are unused and one is left, an allocation takes the last of them, which
-- was not valid and becomes valid, no other becomes valid or invalid, and the available slots stay
-- unused.
pub vm_handle_alloc-IsFresh :
    (vm : Vm)
    → IsFresh vm
    → 0 < vm.handles.num_avail
    → ((vm_handle_alloc vm).0 ≡ some (vm.handles.num_avail - 1))
      × (vm_handle_valid vm (vm.handles.num_avail - 1) ≡ false)
      × ((g : ℕ)
          → vm_handle_valid (vm_handle_alloc vm).1 g
            ≡ (if g == vm.handles.num_avail - 1 then true else vm_handle_valid vm g))
      × IsFresh (vm_handle_alloc vm).1
unfolding vm_handle_valid
vm_handle_alloc-IsFresh vm v h =
    let left = next_unused vm v h in
    rw (alloc_fresh vm v h) (
      refl,
      ground arith,
      λ g. ground (arith, v.bound),
      record { bound = omega (arith, v.bound); unused = λ i. ground (arith, v.unused i) },
    )

-- A handle that is allocated and freed stays valid, counts as available again, and the allocation
-- that comes next fails.
pub vm_handle_free_leaks :
    (vm : Vm) (h : ℕ)
    → (vm_handle_alloc vm).0 ≡ some h
    → vm.handles.num_avail ≤ vm.handles.max_avail
    → let freed = vm_handle_free (vm_handle_alloc vm).1 h in
      (vm_handle_valid freed h ≡ true)
      × (freed.handles.num_avail ≡ vm.handles.num_avail)
      × ((vm_handle_alloc freed).0 ≡ none)
unfolding vm_handle_alloc vm_handle_free vm_handle_valid
vm_handle_free_leaks vm h e b = (ground arith, ground arith, ground arith)
