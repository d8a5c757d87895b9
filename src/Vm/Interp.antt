-- ===== src/Vm/Interp.antt =====
-- The tree walker and the main loop of src/vm.c. The lines that the source prints for debugging are
-- left out.
use nscheme.Prelude.{
  ℕ, zero, suc, sym, Bool, true, false, Option, none, some, get_elem?, ◌+◌, ◌%◌, ◌==◌,
  if◌then◌else◌,
}
use nscheme.Prelude.Words.{mod32}
use nscheme.Values.{
  Value, Ptr, is_pair, is_null, is_symbol, is_special_form, is_syntax_rules, get_syntax_rules,
  get_pair, scm_type_null,
}
use nscheme.Env.{env_find_recurse, node_value}
use nscheme.Memory.{update}
use nscheme.Run.{Run, ok, fault, out_of_fuel, ◌>>=◌}
use nscheme.Vm.State.{
  Vm, VmFunc, RunMode, stack_set, vm_stack_push, vm_call_eval, vm_call_return, vm_error, op_return,
  op_return_last, op_jump, op_jump_if_false, op_closure_ref, op_stack_ref, op_push_const,
  op_do_call, op_do_tailcall, op_add, op_sub, op_mul, op_div, op_cons, op_car, op_cdr, op_lessthan,
  op_equal, op_greaterthan, op_is_null, op_is_pair, op_intern_define, op_intern_set, op_intern_if,
  op_display, op_newline, op_read,
}
use nscheme.Vm.Arith.{
  vm_op_add, vm_op_sub, vm_op_mul, vm_op_div, vm_op_cons, vm_op_car, vm_op_cdr, vm_op_lessthan,
  vm_op_equal, vm_op_greaterthan, vm_op_is_null, vm_op_is_pair,
}
use nscheme.Vm.Ops.{
  vm_op_return, vm_op_return_last, vm_op_jump, vm_op_jump_if_false, vm_op_closure_ref,
  vm_op_stack_ref, vm_op_push_const, vm_op_intern_define, vm_op_intern_set, vm_op_intern_if,
  vm_op_display, vm_op_newline, vm_op_read,
}
use nscheme.Vm.Forms.{vm_handle_sform}
use nscheme.SyntaxRules.{expand_syntax_rules}
use nscheme.Vm.Closures.{push_static, vm_func_return_last}
use nscheme.Vm.Apply.{vm_call_apply, vm_op_do_call, vm_op_do_tailcall}

-- The value of the node that `env_find_recurse` returns, or `none` for `NULL`.
unfoldable pub lookup : Vm → Value → Option Value
unfolding env_find_recurse node_value
lookup vm sym = elim (env_find_recurse vm.envs vm.env sym) [
  | none ↦ none
  | some foo ↦ node_value vm.envs foo
]

-- A symbol at the front of a list whose value is a macro.
unfoldable pub expand_macro : Vm → Value → Ptr → Run Vm
unfolding expand_syntax_rules push_static vm_func_return_last vm_stack_push get_syntax_rules
    vm_call_eval
expand_macro vm value pair = do
  vm₁ ← push_static vm_func_return_last vm
  vm₂ ← vm_stack_push vm₁ scm_type_null
  (values, vm₃) ←
      expand_syntax_rules (record vm₂ { ptr = scm_type_null }) (vm₂.rules (get_syntax_rules value))
        pair
  vm₄ ← vm_call_eval vm₃ values
  push_static vm_func_return_last vm₄

unfoldable pub vm_step_interpreter : Vm → Run Vm
unfolding vm_call_eval vm_handle_sform expand_macro vm_stack_push vm_error vm_call_apply stack_set
    vm_call_return lookup
vm_step_interpreter vm =
    if is_pair vm.ptr
    then (let pair = vm.memory.pairs (get_pair vm.ptr) in
        let vm₁ = record vm { ptr = pair.cdr } in
        if is_pair pair.car
        then vm_call_eval vm₁ pair.car
        else if is_symbol pair.car
        then elim (lookup vm₁ pair.car) [
          | none ↦ ok (vm_error vm₁ "undefined symbol")
          | some value ↦
              (if vm₁.argnum == 0
                then (if is_special_form value
                    then vm_handle_sform vm₁ value pair.cdr
                    else if is_syntax_rules value
                    then expand_macro vm₁ value (get_pair vm.ptr)
                    else vm_stack_push vm₁ value)
                else vm_stack_push vm₁ value)
        ]
        else vm_stack_push vm₁ pair.car)
    else if is_null vm.ptr
    then vm_call_apply vm
    else if is_symbol vm.ptr
    then elim (lookup vm vm.ptr) [
      | none ↦ do
        vm₁ ← stack_set (vm_error vm "undefined symbol") vm.sp vm.ptr
        ok (vm_call_return vm₁)
      | some value ↦ do vm₁ ← stack_set vm vm.sp value; ok (vm_call_return vm₁)
    ]
    else do vm₁ ← stack_set vm vm.sp vm.ptr; ok (vm_call_return vm₁)

-- A call through `vm_func`.
unfoldable pub call_func : VmFunc → Vm → ℕ → Run (Bool × Vm)
call_func op_return vm arg = vm_op_return vm
call_func op_return_last vm arg = vm_op_return_last vm
call_func op_jump vm arg = vm_op_jump vm arg
call_func op_jump_if_false vm arg = vm_op_jump_if_false vm arg
call_func op_closure_ref vm arg = vm_op_closure_ref vm arg
call_func op_stack_ref vm arg = vm_op_stack_ref vm arg
call_func op_push_const vm arg = vm_op_push_const vm arg
call_func op_do_call vm arg = vm_op_do_call vm arg
call_func op_do_tailcall vm arg = vm_op_do_tailcall vm arg
call_func op_add vm arg = vm_op_add vm
call_func op_sub vm arg = vm_op_sub vm
call_func op_mul vm arg = vm_op_mul vm
call_func op_div vm arg = vm_op_div vm
call_func op_cons vm arg = vm_op_cons vm
call_func op_car vm arg = vm_op_car vm
call_func op_cdr vm arg = vm_op_cdr vm
call_func op_lessthan vm arg = vm_op_lessthan vm
call_func op_equal vm arg = vm_op_equal vm
call_func op_greaterthan vm arg = vm_op_greaterthan vm
call_func op_is_null vm arg = vm_op_is_null vm
call_func op_is_pair vm arg = vm_op_is_pair vm
call_func op_intern_define vm arg = vm_op_intern_define vm
call_func op_intern_set vm arg = vm_op_intern_set vm
call_func op_intern_if vm arg = vm_op_intern_if vm
call_func op_display vm arg = vm_op_display vm
call_func op_newline vm arg = vm_op_newline vm
call_func op_read vm arg = vm_op_read vm

-- `vm->ip += code->func(vm, code->arg)`, where `vm->ip` is read after the call, as the jumps need.
unfoldable pub vm_step_compiled : Vm → Run Vm
unfolding call_func
vm_step_compiled vm = elim (get_elem? (vm.closures vm.closure).code vm.ip) [
  | none ↦ fault
  | some code ↦ do
    (next, vm') ← call_func code.func vm code.arg
    ok (record vm' { ip = (vm'.ip + (if next then 1 else 0)) % mod32 })
]

unfoldable pub vm_step : Vm → Run Vm
unfolding vm_step_compiled vm_step_interpreter
vm_step vm = elim vm.runmode [
  | RunMode.compiled ↦ vm_step_compiled vm
  | RunMode.interp ↦ vm_step_interpreter vm
]

-- The loop, with fuel for its rounds.
unfoldable pub vm_run : ℕ → Vm → Run Vm
unfolding vm_step
vm_run zero vm = if vm.running then out_of_fuel else ok vm
vm_run (suc k) vm = elim vm.running [ false ↦ ok vm | true ↦ vm_step vm >>= vm_run k ]

-- `vm_r7rs_environment()` is the first environment that was created.
unfoldable pub vm_evaluate_expr : ℕ → Vm → Value → Run (Value × Vm)
unfolding vm_run
vm_evaluate_expr k vm expr = do
  vm' ← vm_run k (record vm {
    ptr = expr;
    running = true;
    closure = vm.root_closure;
    closures =
        update vm.closures vm.root_closure
          (record (vm.closures vm.root_closure) { definition = expr });
    argnum = 0;
    env = 1;
    runmode = RunMode.interp;
  })
  ok (vm'.stack 0, vm')
