-- ===== src/Vm/Forms.antt =====
-- The special forms of src/vm.c: lambda, define and set!, if, begin, quote and syntax-rules. The lines
-- that the source prints for debugging are left out.
use nscheme.Prelude.{ℕ, Bool, false, not, [], ◌&&◌, ◌||◌, ◌==◌, if◌then◌else◌}
use nscheme.Values.{
  Value, Ptr, Pair, tag_closure, tag_run_type, tag_heap_type, is_pair, is_null, is_symbol,
  get_run_type, get_pair, scm_car, scm_type_null, scm_type_syntax_rules, run_type_lambda,
  run_type_define, run_type_define_syntax, run_type_set, run_type_if, run_type_begin,
  run_type_quote, run_type_set_ptr, run_type_syntax_rules,
}
use nscheme.Memory.{malloc, update}
use nscheme.Run.{Run, ok, ◌>>=◌}
use nscheme.Vm.State.{Vm, vm_stack_push, deref_pair, vm_call_eval, vm_call_return, vm_error}
use nscheme.Vm.Closures.{
  new_closure, push_static, vm_func_return_last, vm_func_intern_define, vm_func_intern_set,
  vm_func_intern_if,
}

unfoldable pub vm_make_closure : Vm → (args body : Value) → (env : Ptr) → Ptr × Vm
unfolding new_closure
vm_make_closure vm args body env = new_closure vm (record {
  code = [];
  closures = [];
  definition = body;
  compiled = false;
  num_calls = 0;
  env = env;
  args = args;
})

unfoldable pub is_valid_lambda : Pair → Bool
unfolding is_pair is_null
is_valid_lambda pair = (is_pair pair.car || is_null pair.car) && is_pair pair.cdr

-- A form that is no valid lambda is reported, and the walk goes on with its parts.
unfoldable pub vm_handle_lambda : Vm → Value → Run Vm
unfolding deref_pair is_valid_lambda vm_make_closure tag_closure vm_stack_push vm_call_return
vm_handle_lambda vm expr = do
  pair ← deref_pair vm expr
  if is_valid_lambda pair
      then (let (tmp, vm₁) = vm_make_closure vm pair.car pair.cdr vm.env in
          do vm₂ ← vm_stack_push vm₁ (tag_closure tmp); ok (vm_call_return vm₂))
      else ok vm

unfoldable pub vm_handle_define : Vm → Value → ℕ → Run Vm
unfolding deref_pair push_static vm_func_intern_set vm_func_intern_define vm_stack_push
    vm_make_closure tag_closure
vm_handle_define vm expr type = do
  pair ← deref_pair vm expr
  vm₁ ← push_static (if type == run_type_set then vm_func_intern_set else vm_func_intern_define) vm
  if is_symbol pair.car
      then (do vm₂ ← vm_stack_push vm₁ pair.car; ok (record vm₂ { ptr = pair.cdr }))
      else if is_pair pair.car
      then (do
        temp ← deref_pair vm₁ pair.car
        (let (clsr, vm₂) = vm_make_closure vm₁ temp.cdr pair.cdr vm₁.env in
            do
              vm₃ ← vm_stack_push vm₂ temp.car
              vm₄ ← vm_stack_push vm₃ (tag_closure clsr)
              ok (record vm₄ { ptr = scm_type_null })))
      else ok vm₁

unfoldable pub vm_handle_if : Vm → Value → Run Vm
unfolding deref_pair vm_stack_push tag_run_type vm_call_eval push_static vm_func_intern_if vm_error
vm_handle_if vm expr = do
  pair ← deref_pair vm expr
  vm₁ ← vm_stack_push vm (tag_run_type run_type_set_ptr)
  vm₂ ← vm_call_eval (record vm₁ { ptr = scm_type_null }) scm_type_null
  vm₃ ← push_static vm_func_intern_if vm₂
  if not (is_pair pair.cdr) then ok (vm_error vm₃ "Expected pair (first path)") else do
    first ← deref_pair vm₃ pair.cdr
    vm₄ ← vm_stack_push vm₃ first.car
    if not (is_pair first.cdr) then ok (vm_error vm₄ "Expected pair (second path)") else do
      second ← deref_pair vm₄ first.cdr
      vm₅ ← vm_stack_push vm₄ second.car
      vm_call_eval vm₅ pair.car

unfoldable pub vm_handle_begin : Vm → Value → Run Vm
unfolding push_static vm_func_return_last
vm_handle_begin vm expr = do
  vm₁ ← push_static vm_func_return_last vm
  ok (record vm₁ { ptr = expr })

unfoldable pub vm_handle_quote : Vm → Value → Run Vm
unfolding push_static vm_func_return_last vm_stack_push scm_car
vm_handle_quote vm expr = do
  vm₁ ← push_static vm_func_return_last vm
  vm₂ ← vm_stack_push vm₁ (scm_car vm₁.memory.pairs expr)
  ok (record vm₂ { ptr = scm_type_null })

-- `sizeof(scm_syntax_rules_t)`
abbrev pub syntax_rules_size : ℕ
syntax_rules_size = 16

unfoldable pub vm_handle_syntax_rules : Vm → Value → Run Vm
unfolding malloc deref_pair is_null get_pair push_static vm_func_return_last vm_stack_push
    tag_heap_type
vm_handle_syntax_rules vm expr =
    let (ret, memory) = malloc vm.memory syntax_rules_size in
    do
      pair ← deref_pair vm expr
      vm₁ ← push_static vm_func_return_last (record vm {
        memory = memory;
        rules = update vm.rules ret (record {
          keywords = if is_null pair.car then 0 else get_pair pair.car;
          patterns = get_pair pair.cdr;
        });
      })
      vm₂ ← vm_stack_push vm₁ (tag_heap_type ret scm_type_syntax_rules)
      ok (record vm₂ { ptr = scm_type_null })

unfoldable pub vm_handle_sform : Vm → Value → Value → Run Vm
unfolding get_run_type
vm_handle_sform vm form expr =
    let type = get_run_type form in
    if type == run_type_lambda
    then vm_handle_lambda vm expr
    else if type == run_type_define || type == run_type_set || type == run_type_define_syntax
    then vm_handle_define vm expr type
    else if type == run_type_if
    then vm_handle_if vm expr
    else if type == run_type_begin
    then vm_handle_begin vm expr
    else if type == run_type_quote
    then vm_handle_quote vm expr
    else if type == run_type_syntax_rules
    then vm_handle_syntax_rules vm expr
    else ok vm
