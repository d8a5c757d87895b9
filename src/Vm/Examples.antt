-- ===== src/Vm/Examples.antt =====
-- The theorems on the machine at a call of a function with the integers 20 and 6.
use nscheme.Prelude.{
  ℕ, refl, inr, true, false, none, some, [], arith, ◌≡◌, ◌∷◌, ◌==◌, if◌then◌else◌,
}
use nscheme.Values.{tag_integer, tag_boolean}
use nscheme.Memory.{update}
use nscheme.Run.{ok}
use nscheme.Vm.State.{Vm, RunMode}
use nscheme.Vm.Handles.{vm_handle_alloc, vm_handle_free, vm_handle_valid}
use nscheme.Vm.Handles.Reuse.{IsFresh, vm_handle_alloc-IsFresh, vm_handle_free_leaks}
use nscheme.Vm.Init.{no_closure, no_frame, start_memory}
use nscheme.Vm.Arith.{
  vm_op_add, vm_op_sub, vm_op_div, vm_op_lessthan, vm_op_equal, vm_op_greaterthan,
}
use nscheme.Vm.Arith.Loops.{IsCall, returned}
use nscheme.Vm.Arith.Integers.{
  vm_op_add-integers, vm_op_sub-integers, vm_op_div-integers, compare-integers,
}

abbrev calling : Vm
calling = record {
  ip = 0;
  sp = 3;
  callp = 0;
  running = true;
  closure = 0;
  stack = update (update (λ i. 0) 1 80) 2 24;
  calls = λ i. no_frame;
  env = 1;
  ptr = 0;
  argnum = 3;
  stack_size = 64;
  calls_size = 64;
  runmode = RunMode.compiled;
  errormsg = none;
  handles = record {
    slots = λ i. record { value = 0; used = false };
    avail = λ i. i;
    num_avail = 8;
    max_avail = 8;
  };
  memory = start_memory;
  envs = [];
  closures = λ p. no_closure;
  rules = λ p. record { keywords = 0; patterns = 0 };
  statics = record { return_last = 0; intern_define = 0; intern_set = 0; intern_if = 0 };
  root_closure = 0;
  stdin = [];
  stdout = [];
}

calling-IsCall : IsCall calling 0 2
calling-IsCall = record { sp = refl; argnum = refl; bound = omega arith; small = omega arith }

vm_op_add-integers_example : vm_op_add calling ≡ ok (true, returned calling 0 (tag_integer 26))
unfolding tag_integer
vm_op_add-integers_example = vm_op_add-integers calling 0 2 (6 ∷ 20 ∷ []) calling-IsCall refl

vm_op_sub-integers_example : vm_op_sub calling ≡ ok (true, returned calling 0 (tag_integer 14))
unfolding tag_integer
vm_op_sub-integers_example = vm_op_sub-integers calling 0 1 20 (6 ∷ []) calling-IsCall refl refl

vm_op_div-integers_example : vm_op_div calling ≡ ok (true, returned calling 0 (tag_integer 3))
unfolding tag_integer
vm_op_div-integers_example =
    vm_op_div-integers calling 0 20 6 calling-IsCall refl refl (omega arith) (omega arith)

compare-integers_example :
    (vm_op_lessthan calling ≡ ok (true, returned calling 0 (tag_boolean false)))
    × (vm_op_equal calling ≡ ok (true, returned calling 0 (tag_boolean false)))
    × (vm_op_greaterthan calling ≡ ok (true, returned calling 0 (tag_boolean true)))
unfolding tag_integer
compare-integers_example =
    compare-integers calling 0 20 6 calling-IsCall refl refl (omega arith) (omega arith)

calling-IsFresh : IsFresh calling
calling-IsFresh = record { bound = omega arith; unused = λ i. inr refl }

vm_handle_alloc-IsFresh_example :
    ((vm_handle_alloc calling).0 ≡ some 7)
    × (vm_handle_valid calling 7 ≡ false)
    × ((g : ℕ)
        → vm_handle_valid (vm_handle_alloc calling).1 g
          ≡ (if g == 7 then true else vm_handle_valid calling g))
    × IsFresh (vm_handle_alloc calling).1
vm_handle_alloc-IsFresh_example = vm_handle_alloc-IsFresh calling calling-IsFresh (omega arith)

vm_handle_free_leaks_example :
    let freed = vm_handle_free (vm_handle_alloc calling).1 7 in
    (vm_handle_valid freed 7 ≡ true)
    × (freed.handles.num_avail ≡ 8)
    × ((vm_handle_alloc freed).0 ≡ none)
vm_handle_free_leaks_example =
    vm_handle_free_leaks calling 7 (vm_handle_alloc-IsFresh calling calling-IsFresh (omega arith)).0
      (omega arith)
