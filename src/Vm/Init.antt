-- ===== src/Vm/Init.antt =====
-- `vm_init` of src/vm.c: the machine that a process starts with.
use nscheme.Prelude.{ℕ, false, none, List, [], ◌∷◌}
use nscheme.Values.{
  Value, tag_symbol, tag_closure, tag_run_type, run_type_lambda, run_type_define,
  run_type_define_syntax, run_type_set, run_type_if, run_type_begin, run_type_quote,
  run_type_syntax_rules,
}
use nscheme.Env.{env_create, env_set}
use nscheme.Memory.{Memory, GcContext, GcBlock, malloc}
use nscheme.Memory
use nscheme.Symbols.{copy_string, store_symbol}
use nscheme.Gc.{gc_init}
use nscheme.Lex.{codes}
use nscheme.Vm.State.{
  Vm, VmFunc, Closure, CallFrame, RunMode, op_add, op_sub, op_mul, op_div, op_equal, op_lessthan,
  op_greaterthan, op_is_null, op_is_pair, op_display, op_newline, op_read, op_cons, op_car, op_cdr,
  op_return,
}
use nscheme.Vm.Closures.{new_closure, native_closure, instr}
use nscheme.Vm.Handles.{vm_handles_init}

-- `foo = tag_symbol(store_symbol(strdup(name)));`
unfoldable pub intern_name : Vm → List ℕ → Value × Vm
unfolding copy_string store_symbol tag_symbol
intern_name vm name =
    let (str, memory) = copy_string vm.memory name in
    (tag_symbol str, record vm { memory = store_symbol memory str })

unfoldable pub vm_add_arithmetic_op : Vm → List ℕ → VmFunc → Vm
unfolding new_closure intern_name env_set tag_closure
vm_add_arithmetic_op vm name func =
    let (meh, vm₁) = new_closure vm (native_closure (instr func ∷ instr op_return ∷ [])) in
    let (foo, vm₂) = intern_name vm₁ name in
    record vm₂ { envs = env_set vm₂.envs vm₂.env foo (tag_closure meh) }

-- The name of a special form.
unfoldable pub add_form : Vm → List ℕ → ℕ → Vm
unfolding intern_name env_set tag_run_type
add_form vm name type =
    let (foo, vm₁) = intern_name vm name in
    record vm₁ { envs = env_set vm₁.envs vm₁.env foo (tag_run_type type) }

add_ops : List (List ℕ × VmFunc) → Vm → Vm
unfolding vm_add_arithmetic_op
add_ops [] vm = vm
add_ops ((name, func) ∷ ops) vm = add_ops ops (vm_add_arithmetic_op vm name func)

add_forms : List (List ℕ × ℕ) → Vm → Vm
unfolding add_form
add_forms [] vm = vm
add_forms ((name, type) ∷ forms) vm = add_forms forms (add_form vm name type)

abbrev pub builtin_ops : List (List ℕ × VmFunc)
builtin_ops =
    (codes "+", op_add)
    ∷ (codes "-", op_sub)
    ∷ (codes "*", op_mul)
    ∷ (codes "/", op_div)
    ∷ (codes "eq?", op_equal)
    ∷ (codes "<", op_lessthan)
    ∷ (codes ">", op_greaterthan)
    ∷ (codes "null?", op_is_null)
    ∷ (codes "pair?", op_is_pair)
    ∷ (codes "display", op_display)
    ∷ (codes "newline", op_newline)
    ∷ (codes "read", op_read)
    ∷ (codes "cons", op_cons)
    ∷ (codes "car", op_car)
    ∷ (codes "cdr", op_cdr)
    ∷ []

abbrev pub builtin_forms : List (List ℕ × ℕ)
builtin_forms =
    (codes "lambda", run_type_lambda)
    ∷ (codes "define", run_type_define)
    ∷ (codes "define-syntax", run_type_define_syntax)
    ∷ (codes "set!", run_type_set)
    ∷ (codes "if", run_type_if)
    ∷ (codes "begin", run_type_begin)
    ∷ (codes "quote", run_type_quote)
    ∷ (codes "syntax-rules", run_type_syntax_rules)
    ∷ []

-- Cleared memory.
abbrev pub no_closure : Closure
no_closure = record {
  code = [];
  closures = [];
  definition = 0;
  compiled = false;
  num_calls = 0;
  env = 0;
  args = 0;
}

abbrev pub no_frame : CallFrame
no_frame = record {
  closure = 0;
  sp = 0;
  argnum = 0;
  runmode = RunMode.interp;
  ip = 0;
  ptr = 0;
  env = 0;
}

-- The memory of the process before `main`, from which the allocator goes up.
abbrev pub start_memory : Memory
start_memory = record {
  brk = 0x10_0000;
  strings = λ p. [];
  symbol_tree = Memory.TreeNode.null;
  gc = record { base = 0; end = 0; allocend = 0 };
  blocks = λ p. record { uintptr = 0; flags = 0; size = 0 };
  pairs = λ p. record { car = 0; cdr = 0 };
}

-- The machine after `calloc`, `gc_init`, `vm_handles_init` and the stores that follow.
bare_vm : List ℕ → Vm
unfolding malloc gc_init vm_handles_init env_create
bare_vm stdin =
    let (heap, memory₁) = malloc start_memory 0x8000 in
    let (root, memory₂) = malloc memory₁ 56 in
    let (envs, env) = env_create [] 0 in
    record {
      ip = 0;
      sp = 0;
      callp = 0;
      running = false;
      closure = root;
      stack = λ i. 0;
      calls = λ i. no_frame;
      env = env;
      ptr = 0;
      argnum = 0;
      stack_size = 0x1000;
      calls_size = 0x1000;
      runmode = RunMode.interp;
      errormsg = none;
      handles = vm_handles_init 0x1000;
      memory = record memory₂ { gc = gc_init heap 0x8000 };
      envs = envs;
      closures = λ p. no_closure;
      rules = λ p. record { keywords = 0; patterns = 0 };
      statics = record { return_last = 0; intern_define = 0; intern_set = 0; intern_if = 0 };
      root_closure = root;
      stdin = stdin;
      stdout = [];
    }

unfoldable pub vm_init : List ℕ → Vm
unfolding bare_vm add_ops add_forms
vm_init stdin = add_forms builtin_forms (add_ops builtin_ops (bare_vm stdin))
