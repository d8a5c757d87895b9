-- ===== src/Vm/Closures.antt =====
-- The closures of machine code that src/vm_ops.c makes at their first use.
use nscheme.Prelude.{ℕ, true, List, [], ◌∷◌, ◌==◌, if◌then◌else◌}
use nscheme.Values.{Value, Ptr, tag_closure}
use nscheme.Memory.{malloc, update}
use nscheme.Run.{Run}
use nscheme.Vm.State.{
  Vm, VmFunc, VmOp, Closure, Statics, vm_stack_push, op_return_last, op_intern_define,
  op_intern_set, op_intern_if, op_return,
}

-- `sizeof(scm_closure_t)`
abbrev pub closure_size : ℕ
closure_size = 56

unfoldable pub new_closure : Vm → Closure → Ptr × Vm
unfolding malloc
new_closure vm closure =
    let (p, memory) = malloc vm.memory closure_size in
    (p, record vm { memory = memory; closures = update vm.closures p closure })

-- A closure of machine code, as `calloc` and the stores that follow it leave it.
abbrev pub native_closure : List VmOp → Closure
native_closure code = record {
  code = code;
  closures = [];
  definition = 0;
  compiled = true;
  num_calls = 0;
  env = 0;
  args = 0;
}

abbrev pub instr : VmFunc → VmOp
instr f = record { func = f; arg = 0 }

-- `if (!ret) { ret = calloc(…); … } return tag_closure(ret);` for a `static` variable `ret`.
unfoldable pub static_closure : Ptr → List VmOp → (Statics → Ptr → Statics) → Vm → Value × Vm
unfolding new_closure tag_closure
static_closure ret code assign vm =
    if ret == 0
    then (let (p, vm') = new_closure vm (native_closure code) in
        (tag_closure p, record vm' { statics = assign vm'.statics p }))
    else (tag_closure ret, vm)

unfoldable pub vm_func_return_last : Vm → Value × Vm
unfolding static_closure
vm_func_return_last vm =
    static_closure vm.statics.return_last (instr op_return_last ∷ [])
      (λ s p. record s { return_last = p }) vm

unfoldable pub vm_func_intern_define : Vm → Value × Vm
unfolding static_closure
vm_func_intern_define vm =
    static_closure vm.statics.intern_define (instr op_intern_define ∷ instr op_return ∷ [])
      (λ s p. record s { intern_define = p }) vm

unfoldable pub vm_func_intern_set : Vm → Value × Vm
unfolding static_closure
vm_func_intern_set vm =
    static_closure vm.statics.intern_set (instr op_intern_set ∷ instr op_return ∷ [])
      (λ s p. record s { intern_set = p }) vm

unfoldable pub vm_func_intern_if : Vm → Value × Vm
unfolding static_closure
vm_func_intern_if vm =
    static_closure vm.statics.intern_if (instr op_intern_if ∷ instr op_return ∷ [])
      (λ s p. record s { intern_if = p }) vm

-- Pushes one of them.
unfoldable pub push_static : (Vm → Value × Vm) → Vm → Run Vm
unfolding vm_stack_push
push_static func vm = let (value, vm') = func vm in vm_stack_push vm' value
