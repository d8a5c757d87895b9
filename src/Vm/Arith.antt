-- ===== src/Vm/Arith.antt =====
-- The arithmetic, comparison and list operations of src/vm_ops.c. An operation returns the Boolean
-- of the source, which says whether to go on to the next instruction. Its messages are left out.
use nscheme.Prelude.{
  ℕ, zero, suc, Bool, true, false, not, Option, none, some, ltb, ◌+◌, ◌-◌, ◌*◌, ◌/◌, ◌%◌, ◌==◌,
  if◌then◌else◌,
}
pub mod Integers
pub mod Loops
use nscheme.Prelude.Words.{mod32, mod64, sub32}
use nscheme.Values.{Value, tag_integer, tag_boolean, get_integer, is_pair, scm_type_null}
use nscheme.Gc.{construct_pair}
use nscheme.Run.{Run, ok, ◌>>=◌}
use nscheme.Vm.State.{Vm, stack_at, vm_stack_push, vm_stack_pop, deref_pair, vm_error}

-- `for (args = …; args; args--) sum = f(sum, vm_stack_pop(vm))`
unfoldable pub pop_loop : (ℕ → Value → ℕ) → ℕ → ℕ → Vm → Run (ℕ × Vm)
unfolding vm_stack_pop
pop_loop f zero sum vm = ok (sum, vm)
pop_loop f (suc args) sum vm = do (value, vm') ← vm_stack_pop vm; pop_loop f args (f sum value) vm'

-- `args` starts at `vm->argnum - 1`, an `unsigned` that wraps around.
unfoldable pub vm_op_add : Vm → Run (Bool × Vm)
unfolding pop_loop vm_stack_pop vm_stack_push
vm_op_add vm = do
  (sum, vm₁) ← pop_loop (λ sum value. (sum + value) % mod64) (sub32 vm.argnum 1) 0 vm
  (_, vm₂) ← vm_stack_pop vm₁
  vm₃ ← vm_stack_push vm₂ sum
  ok (true, vm₃)

unfoldable pub vm_op_sub : Vm → Run (Bool × Vm)
unfolding pop_loop vm_stack_pop vm_stack_push stack_at
vm_op_sub vm = do
  first ← stack_at vm ((sub32 vm.sp vm.argnum + 1) % mod32)
  (sum, vm₁) ← pop_loop (λ sum value. (sum + mod64 - value) % mod64) (sub32 vm.argnum 2) first vm
  (_, vm₂) ← vm_stack_pop vm₁
  (_, vm₃) ← vm_stack_pop vm₂
  vm₄ ← vm_stack_push vm₃ sum
  ok (true, vm₄)

unfoldable pub vm_op_mul : Vm → Run (Bool × Vm)
unfolding pop_loop vm_stack_pop vm_stack_push get_integer tag_integer
vm_op_mul vm = do
  (sum, vm₁) ← pop_loop (λ sum value. (sum * get_integer value) % mod64) (sub32 vm.argnum 1) 1 vm
  (_, vm₂) ← vm_stack_pop vm₁
  vm₃ ← vm_stack_push vm₂ (tag_integer sum)
  ok (true, vm₃)

-- The loop of `vm_op_div`; `none` is its early return.
unfoldable pub div_loop : ℕ → ℕ → Vm → Run (Option ℕ × Vm)
unfolding vm_stack_pop
div_loop zero sum vm = ok (some sum, vm)
div_loop (suc args) sum vm = do
  (temp, vm') ← vm_stack_pop vm
  elim (temp == 0) [
    | false ↦ div_loop args (sum / temp) vm'
    | true ↦ ok (none, vm_error vm' "divide by zero!")
  ]

unfoldable pub vm_op_div : Vm → Run (Bool × Vm)
unfolding div_loop vm_stack_pop vm_stack_push stack_at tag_integer
vm_op_div vm = do
  first ← stack_at vm ((sub32 vm.sp vm.argnum + 1) % mod32)
  (quotient, vm₁) ← div_loop (sub32 vm.argnum 2) first vm
  elim quotient [
    | none ↦ ok (true, vm₁)
    | some sum ↦ do
      (_, vm₂) ← vm_stack_pop vm₁
      (_, vm₃) ← vm_stack_pop vm₂
      vm₄ ← vm_stack_push vm₃ (tag_integer sum)
      ok (true, vm₄)
  ]

unfoldable pub vm_op_cons : Vm → Run (Bool × Vm)
unfolding vm_stack_pop vm_stack_push
vm_op_cons vm = if not (vm.argnum == 3) then ok (true, vm_error vm "cons: not enough args") else do
  (cdr, vm₁) ← vm_stack_pop vm
  (car, vm₂) ← vm_stack_pop vm₁
  (_, vm₃) ← vm_stack_pop vm₂
  (pair, memory) ← construct_pair vm₃.memory car cdr
  vm₄ ← vm_stack_push (record vm₃ { memory = memory }) pair
  ok (true, vm₄)

unfoldable pub vm_op_car : Vm → Run (Bool × Vm)
unfolding vm_stack_pop vm_stack_push deref_pair
vm_op_car vm =
    if not (vm.argnum == 2)
    then ok (true, vm_error vm "Invalid number of arguments for car")
    else do
      (value, vm₁) ← vm_stack_pop vm
      (_, vm₂) ← vm_stack_pop vm₁
      if not (is_pair value)
          then ok (true, vm_error vm₂ "Value given to car is not a pair")
          else do pair ← deref_pair vm₂ value; vm₃ ← vm_stack_push vm₂ pair.car; ok (true, vm₃)

unfoldable pub vm_op_cdr : Vm → Run (Bool × Vm)
unfolding vm_stack_pop vm_stack_push deref_pair
vm_op_cdr vm =
    if not (vm.argnum == 2)
    then ok (true, vm_error vm "Invalid number of arguments for cdr")
    else do
      (value, vm₁) ← vm_stack_pop vm
      (_, vm₂) ← vm_stack_pop vm₁
      if not (is_pair value)
          then ok (true, vm_error vm₂ "Value given to cdr is not a pair")
          else do pair ← deref_pair vm₂ value; vm₃ ← vm_stack_push vm₂ pair.cdr; ok (true, vm₃)

-- Pops two operands and the function, and pushes the test of the second against the first.
unfoldable pub compare_top : (Value → Value → Bool) → Vm → Run (Bool × Vm)
unfolding vm_stack_pop vm_stack_push
compare_top test vm = do
  (op1, vm₁) ← vm_stack_pop vm
  (op2, vm₂) ← vm_stack_pop vm₁
  (_, vm₃) ← vm_stack_pop vm₂
  vm₄ ← vm_stack_push vm₃ (tag_boolean (test op2 op1))
  ok (true, vm₄)

unfoldable pub vm_op_lessthan : Vm → Run (Bool × Vm)
unfolding compare_top
vm_op_lessthan vm =
    if not (vm.argnum == 3)
    then ok (true, vm_error vm "Invalid number of arguments for lessthan")
    else compare_top ltb vm

unfoldable pub vm_op_equal : Vm → Run (Bool × Vm)
unfolding compare_top
vm_op_equal vm =
    if not (vm.argnum == 3)
    then ok (true, vm_error vm "Invalid number of arguments for equal")
    else compare_top ◌==◌ vm

unfoldable pub vm_op_greaterthan : Vm → Run (Bool × Vm)
unfolding compare_top
vm_op_greaterthan vm =
    if not (vm.argnum == 3)
    then ok (true, vm_error vm "Invalid number of arguments for greaterthan")
    else compare_top (λ op2 op1. ltb op1 op2) vm

-- A wrong number of arguments is reported and is no error.
unfoldable pub vm_op_is_null : Vm → Run (Bool × Vm)
unfolding vm_stack_pop vm_stack_push
vm_op_is_null vm = if not (vm.argnum == 2) then ok (true, vm) else do
  (value, vm₁) ← vm_stack_pop vm
  (_, vm₂) ← vm_stack_pop vm₁
  vm₃ ← vm_stack_push vm₂ (tag_boolean (value == scm_type_null))
  ok (true, vm₃)

unfoldable pub vm_op_is_pair : Vm → Run (Bool × Vm)
unfolding vm_stack_pop vm_stack_push
vm_op_is_pair vm = if not (vm.argnum == 2) then ok (true, vm) else do
  (value, vm₁) ← vm_stack_pop vm
  (_, vm₂) ← vm_stack_pop vm₁
  vm₃ ← vm_stack_push vm₂ (tag_boolean (is_pair value))
  ok (true, vm₃)
