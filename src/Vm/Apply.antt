-- ===== src/Vm/Apply.antt =====
-- Calls in src/vm_ops.c.
use nscheme.Prelude.{ℕ, zero, suc, Bool, true, false, not, ltb, leb, ◌+◌, ◌%◌, ◌==◌, if◌then◌else◌}
use nscheme.Prelude.Words.{mod32, sub32}
use nscheme.Values.{Value, Ptr, tag_run_type, is_closure, get_closure, is_pair, run_type_set_ptr}
use nscheme.Env.{env_create, env_set}
use nscheme.Memory.{update}
use nscheme.Run.{Run, ok, fault, out_of_fuel, ◌>>=◌}
use nscheme.Vm.State.{Vm, RunMode, stack_at, stack_set, vm_stack_pop, deref_pair, vm_error}
use nscheme.Vm.Closures.{push_static, vm_func_return_last}
use nscheme.Compiler.{vm_compile_closure}

-- The loop of `vm_load_lambda_args`; each round reads the stack one place further, so the size of
-- the stack is enough fuel. It returns the `i` that it ends with.
unfoldable pub load_loop : ℕ → ℕ → Value → Vm → Run (ℕ × Vm)
unfolding stack_at deref_pair env_set
load_loop zero i arg vm = out_of_fuel
load_loop (suc k) i arg vm = elim (is_pair arg) [
  | false ↦ ok (i, vm)
  | true ↦ do
    pair ← deref_pair vm arg
    value ← stack_at vm (vm.sp + i)
    load_loop k (i + 1) pair.cdr (record vm { envs = env_set vm.envs vm.env pair.car value })
]

unfoldable pub vm_load_lambda_args : Vm → ℕ → Value → Run Vm
unfolding load_loop vm_error
vm_load_lambda_args vm argnum args = do
  (i, vm') ← load_loop (suc vm.stack_size) 1 args vm
  ok (if i == argnum then vm' else vm_error vm' "Invalid number of arguments given to lambda args")

-- `for (i = 0; i < newargnum; i++) stack[start + i] = stack[newstart + i];`
unfoldable pub move_loop : ℕ → ℕ → ℕ → Vm → Run Vm
unfolding stack_at stack_set
move_loop zero start newstart vm = ok vm
move_loop (suc n) start newstart vm = do
  value ← stack_at vm newstart
  vm' ← stack_set vm start value
  move_loop n (start + 1) (newstart + 1) vm'

-- The call of a closure that is not compiled.
unfoldable pub apply_interpreted : Vm → Ptr → Run Vm
unfolding vm_compile_closure env_create vm_load_lambda_args push_static vm_func_return_last
apply_interpreted vm p =
    let clsr = vm.closures p in
    let called_args = vm.argnum in
    let (envs, env) = env_create vm.envs clsr.env in
    let num_calls = (clsr.num_calls + 1) % mod32 in
    let vm₁ = record vm {
      closure = p;
      runmode = RunMode.interp;
      envs = envs;
      env = env;
      ptr = clsr.definition;
      sp = sub32 vm.sp vm.argnum;
      argnum = 0;
      closures = update vm.closures p (record clsr { num_calls = num_calls });
    } in
    do
      (compiled, vm₂) ← (if leb 3 num_calls then vm_compile_closure vm₁ p else ok (true, vm₁))
      elim compiled [
        | false ↦ ok vm₂
        | true ↦ do
          vm₃ ← vm_load_lambda_args vm₂ called_args (vm₂.closures p).args
          push_static vm_func_return_last vm₃
      ]

unfoldable pub vm_call_apply : Vm → Run Vm
unfolding apply_interpreted stack_at vm_stack_pop vm_error tag_run_type
vm_call_apply vm = do
  func ← stack_at vm (sub32 vm.sp vm.argnum)
  if is_closure func
      then (let p = get_closure func in
          if (vm.closures p).compiled
          then ok (record vm { closure = p; runmode = RunMode.compiled; ip = 0 })
          else apply_interpreted vm p)
      else if func == tag_run_type run_type_set_ptr
      then (if not (vm.argnum == 2) then ok (vm_error vm "can't eval") else do
        (ptr, vm₁) ← vm_stack_pop vm
        (_, vm₂) ← vm_stack_pop vm₁
        ok (record vm₂ { ptr = ptr }))
      else ok (vm_error vm "can't apply value which is not a function")

unfoldable pub vm_op_do_call : Vm → ℕ → Run (Bool × Vm)
unfolding vm_call_apply
vm_op_do_call vm arg =
    if ltb vm.callp vm.calls_size
    then (let start = (sub32 vm.sp vm.argnum + arg) % mod32 in
        let argnum = sub32 vm.sp start in
        do
          vm' ← vm_call_apply (record vm {
            calls = update vm.calls vm.callp (record (vm.calls vm.callp) {
              closure = vm.closure;
              ip = (vm.ip + 1) % mod32;
              sp = start;
              argnum = sub32 vm.argnum argnum;
              runmode = vm.runmode;
            });
            callp = vm.callp + 1;
            argnum = argnum;
          })
          ok (false, vm'))
    else fault

unfoldable pub vm_op_do_tailcall : Vm → ℕ → Run (Bool × Vm)
unfolding move_loop vm_call_apply
vm_op_do_tailcall vm arg =
    let newstart = (sub32 vm.sp vm.argnum + arg) % mod32 in
    let newargnum = sub32 vm.sp newstart in
    let start = sub32 vm.sp vm.argnum in
    do
      vm₁ ← move_loop newargnum start newstart vm
      vm₂ ←
          vm_call_apply
            (record vm₁ { sp = (start + newargnum) % mod32; argnum = newargnum; ip = 0 })
      ok (false, vm₂)
