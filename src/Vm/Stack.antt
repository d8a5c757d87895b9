-- ===== src/Vm/Stack.antt =====
-- The stack and the call frames (include/nscheme/vm_ops.h): pushing and popping, and calling and
-- returning.
use nscheme.Prelude.{
  ℕ, zero, suc, true, false, List, [], arith, ltb, ◌+◌, ◌-◌, ◌%◌, ◌≤◌, ◌<◌, ◌≡◌, ◌∷◌, ◌==◌,
}
use nscheme.Prelude.Words.{mod32, sub32}
use nscheme.Values.{Value}
use nscheme.Memory.{update}
use nscheme.Run.{ok}
use nscheme.Vm.State.{Vm, stack_at, stack_set, vm_stack_push, vm_stack_pop}

-- The n values on top of the stack, the topmost first.
abbrev pub top_values : ℕ → ℕ → (ℕ → Value) → List Value
top_values zero sp stack = []
top_values (suc n) sp stack = stack (sp - 1) ∷ top_values n (sp - 1) stack

-- One pop in range.
pub vm_stack_pop-ok :
    (vm : Vm)
    → 0 < vm.sp
    → vm.sp ≤ vm.stack_size
    → vm_stack_pop vm
      ≡ ok (vm.stack (vm.sp - 1), record vm { sp = vm.sp - 1; argnum = sub32 vm.argnum 1 })
unfolding vm_stack_pop stack_at
vm_stack_pop-ok vm h b =
    let e₁ : (vm.sp == 0) ≡ false = ground arith in
    let e₂ : ltb (vm.sp - 1) vm.stack_size ≡ true = ground arith in rw (e₁, e₂)

-- One push in range.
pub vm_stack_push-ok :
    (vm : Vm) (v : Value)
    → vm.sp < vm.stack_size
    → vm_stack_push vm v
      ≡ ok (record vm {
        stack = update vm.stack vm.sp v;
        sp = vm.sp + 1;
        argnum = (vm.argnum + 1) % mod32;
      })
unfolding vm_stack_push stack_set
vm_stack_push-ok vm v h = let e : ltb vm.sp vm.stack_size ≡ true = ground arith in rw e
