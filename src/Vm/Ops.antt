-- ===== src/Vm/Ops.antt =====
-- The other operations of src/vm_ops.c: returning, jumps, references, definitions, conditionals and
-- the ones that read and write. The calls stand in Vm/Apply.antt.
use nscheme.Prelude.{
  ℕ, sym, Bool, true, false, not, none, some, [], length, get_elem?, ◌+◌, ◌*◌, ◌%◌, ◌∷◌, ◌++◌, ◌==◌,
  if◌then◌else◌,
}
use nscheme.Prelude.Words.{mod64, sub32}
use nscheme.Values.{tag_boolean, is_symbol}
use nscheme.Env.{env_set, env_set_recurse, node_value}
use nscheme.Run.{Run, ok, fault, ◌>>=◌}
use nscheme.Parse.{parse_expression}
use nscheme.Write.{write_value}
use nscheme.Vm.State.{
  Vm, stack_at, stack_set, vm_stack_push, vm_stack_pop, vm_call_return, vm_error,
}

unfoldable pub vm_op_return : Vm → Run (Bool × Vm)
unfolding vm_call_return
vm_op_return vm = ok (false, vm_call_return vm)

-- `vm->stack[vm->sp - vm->argnum] = vm_stack_pop(vm)`: popping lowers `sp` and `argnum` alike, so
-- the place is the same before and after it.
unfoldable pub vm_op_return_last : Vm → Run (Bool × Vm)
unfolding vm_stack_pop stack_set vm_call_return
vm_op_return_last vm = do
  (value, vm₁) ← vm_stack_pop vm
  vm₂ ← stack_set vm₁ (sub32 vm₁.sp vm₁.argnum) value
  ok (false, vm_call_return vm₂)

unfoldable pub vm_op_jump : Vm → ℕ → Run (Bool × Vm)
vm_op_jump vm arg = ok (false, record vm { ip = arg })

unfoldable pub vm_op_jump_if_false : Vm → ℕ → Run (Bool × Vm)
unfolding vm_stack_pop tag_boolean
vm_op_jump_if_false vm arg = do
  (value, vm₁) ← vm_stack_pop vm
  if value == tag_boolean false then ok (false, record vm₁ { ip = arg }) else ok (true, vm₁)

-- The value of the node that a reference of the closure points to.
unfoldable pub vm_op_closure_ref : Vm → ℕ → Run (Bool × Vm)
unfolding vm_stack_push node_value
vm_op_closure_ref vm arg = elim (get_elem? (vm.closures vm.closure).closures arg) [
  | none ↦ fault
  | some var ↦ elim (node_value vm.envs var) [
    | none ↦ fault
    | some value ↦ do vm' ← vm_stack_push vm value; ok (true, vm')
  ]
]

unfoldable pub vm_op_stack_ref : Vm → ℕ → Run (Bool × Vm)
unfolding stack_at vm_stack_push
vm_op_stack_ref vm arg = do
  value ← stack_at vm ((sub32 vm.sp vm.argnum + arg) % mod64)
  vm' ← vm_stack_push vm value
  ok (true, vm')

unfoldable pub vm_op_push_const : Vm → ℕ → Run (Bool × Vm)
unfolding vm_stack_push
vm_op_push_const vm arg = do vm' ← vm_stack_push vm arg; ok (true, vm')

unfoldable pub vm_op_intern_define : Vm → Run (Bool × Vm)
unfolding vm_stack_pop env_set
vm_op_intern_define vm =
    if not (vm.argnum == 3)
    then ok (true, vm_error vm "Invalid number of arguments for define")
    else do
      (datum, vm₁) ← vm_stack_pop vm
      (sym, vm₂) ← vm_stack_pop vm₁
      if not (is_symbol sym)
          then ok (true, vm_error vm₂ "Invalid value type given to define")
          else ok (true, record vm₂ { envs = env_set vm₂.envs vm₂.env sym datum })

unfoldable pub vm_op_intern_set : Vm → Run (Bool × Vm)
unfolding vm_stack_pop env_set_recurse
vm_op_intern_set vm =
    if not (vm.argnum == 3)
    then ok (true, vm_error vm "Invalid number of arguments given to set")
    else do
      (datum, vm₁) ← vm_stack_pop vm
      (sym, vm₂) ← vm_stack_pop vm₁
      if not (is_symbol sym)
          then ok (true, vm_error vm₂ "Invalid value type given to define")
          else ok (true, record vm₂ { envs = env_set_recurse vm₂.envs vm₂.env sym datum })

unfoldable pub vm_op_intern_if : Vm → Run (Bool × Vm)
unfolding vm_stack_pop vm_stack_push tag_boolean
vm_op_intern_if vm = if not (vm.argnum == 4) then ok (true, vm) else do
  (test, vm₁) ← vm_stack_pop vm
  (false_path, vm₂) ← vm_stack_pop vm₁
  (true_path, vm₃) ← vm_stack_pop vm₂
  (_, vm₄) ← vm_stack_pop vm₃
  vm₅ ← vm_stack_push vm₄ (if test == tag_boolean false then false_path else true_path)
  ok (true, vm₅)

-- A value has fuel for twice the end of the heap's used part: see src/write.c.
unfoldable pub vm_op_display : Vm → Run (Bool × Vm)
unfolding vm_stack_pop write_value
vm_op_display vm = if not (vm.argnum == 2) then ok (true, vm) else do
  (value, vm₁) ← vm_stack_pop vm
  text ← write_value (2 * vm.memory.gc.allocend + 2) vm₁ value
  ok (true, record vm₁ { stdout = vm₁.stdout ++ text })

unfoldable pub vm_op_newline : Vm → Run (Bool × Vm)
vm_op_newline vm = ok (true, record vm { stdout = vm.stdout ++ (0x0a ∷ []) })

-- A new `parse_state_t` for each call. Each byte of the input starts at most one token, and a token
-- takes at most three levels of calls.
unfoldable pub vm_op_read : Vm → Run (Bool × Vm)
unfolding parse_expression vm_stack_pop vm_stack_push
vm_op_read vm = do
  (value, input) ← parse_expression (3 * length vm.stdin + 4) (record {
    input = vm.stdin;
    memory = vm.memory;
    next_token = 0;
    has_next = false;
    linenum = 0;
    charpos = 0;
  })
  (_, vm₁) ← vm_stack_pop (record vm { stdin = input.input; memory = input.memory })
  vm₂ ← vm_stack_push vm₁ value
  ok (true, vm₂)
