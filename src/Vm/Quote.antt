-- ===== src/Vm/Quote.antt =====
-- `quote` at the top level (src/vm.c): the value that stands in the expression.
pub mod TopLevel
use nscheme.Prelude.{
  ℕ, zero, suc, refl, ap, true, false, some, [], arith, ltb, ◌≤◌, ◌<◌, ◌≡◌, ◌⊎◌, ◌∷◌, ◌∙◌,
}
use nscheme.Values.{
  Value, Ptr, Pair, is_pair, is_symbol, is_closure, get_pair, get_closure, scm_car, scm_type_null,
  tag_closure, tag_run_type, run_type_quote, get_run_type, is_special_form,
}
use nscheme.Values.Tagging.{IsAligned, is_closure-tag_closure, get_closure-tag_closure}
use nscheme.Memory.{Memory, update, malloc}
use nscheme.Env.Chain.{resolve}
use nscheme.Run.{Run, ok, ◌>>=◌}
use nscheme.Vm.State.{
  Vm, RunMode, Closure, Statics, op_return_last, vm_stack_push, stack_set, stack_at, vm_stack_pop,
  vm_call_return,
}
use nscheme.Vm.Closures.{
  native_closure, instr, vm_func_return_last, push_static, static_closure, new_closure,
  closure_size,
}
use nscheme.Vm.Forms.{vm_handle_sform, vm_handle_quote}
use nscheme.Vm.Stack.{vm_stack_pop-ok}
use nscheme.Vm.Apply.{vm_call_apply}
use nscheme.Vm.Ops.{vm_op_return_last}
use nscheme.Vm.Operands.{lookup-resolve, walk, apply_at_end}
use nscheme.Vm.Interp.{
  vm_step_interpreter, vm_step_compiled, vm_step, vm_run, vm_evaluate_expr, lookup, call_func,
}

abbrev pub IsReturnLast : Closure → Type 0
IsReturnLast clsr = (clsr.compiled ≡ true) × (clsr.code ≡ instr op_return_last ∷ [])

-- `return_last` has not been made yet, and the next address is in order, or it was made.
abbrev pub HasReturnLast : Vm → Type 0
HasReturnLast vm =
    (IsAligned vm.memory.brk × (vm.statics.return_last ≡ 0))
    ⊎ (IsAligned vm.statics.return_last
        × (0 < vm.statics.return_last)
        × IsReturnLast (vm.closures vm.statics.return_last))

-- A machine at the start of an evaluation, with nothing on its stack.
abbrev pub idle : Vm → Vm
idle vm = record vm { sp = 0; callp = 0; argnum = 0; running = true; runmode = RunMode.interp }

-- What `vm_func_return_last` changes of a machine.
abbrev pub with_return_last : Vm → Memory → (Ptr → Closure) → Statics → Vm
with_return_last vm memory closures statics = record vm {
  memory = memory;
  closures = closures;
  statics = statics;
}

pub record Returns (vm : Vm) (p : Ptr) (memory : Memory) (closures : Ptr → Closure)
    (statics : Statics) : Type 0 where
  pub made : vm_func_return_last vm ≡ (tag_closure p, with_return_last vm memory closures statics)
  pub aligned : IsAligned p
  pub code : IsReturnLast (closures p)
  pub pairs : memory.pairs ≡ vm.memory.pairs
  pub strings : memory.strings ≡ vm.memory.strings
  pub heap : memory.gc ≡ vm.memory.gc
  pub table : memory.symbol_tree ≡ vm.memory.symbol_tree
  pub brk : vm.memory.brk ≤ memory.brk
  pub next : IsAligned vm.memory.brk → IsAligned memory.brk
  pub kept : HasReturnLast (with_return_last vm memory closures statics)

-- The machine with `return_last` and a value on its stack.
abbrev quoting : Vm → Ptr → Value → Vm
quoting vm p v = record vm {
  stack = update (update vm.stack 0 (tag_closure p)) 1 v;
  sp = 2;
  argnum = 2;
  ptr = scm_type_null;
}

push_last :
    (vm : Vm) (p : Ptr) (memory : Memory) (closures : Ptr → Closure) (statics : Statics)
    → Returns (idle vm) p memory closures statics
    → 2 ≤ vm.stack_size
    → push_static vm_func_return_last (idle vm)
      ≡ ok (record (with_return_last (idle vm) memory closures statics) {
        stack = update vm.stack 0 (tag_closure p);
        sp = 1;
        argnum = 1;
      })
unfolding push_static vm_stack_push stack_set
push_last vm p memory closures statics r b =
    let room : ltb 0 vm.stack_size ≡ true = ground arith in
    let made = r.made in rw (push_static, made) (rw room refl)

push_value :
    (vm : Vm) (v : Value)
    → 2 ≤ vm.stack_size
    → vm_stack_push (record vm { sp = 1; argnum = 1 }) v
      ≡ ok (record vm { stack = update vm.stack 1 v; sp = 2; argnum = 2 })
unfolding vm_stack_push stack_set
push_value vm v b = let room : ltb 1 vm.stack_size ≡ true = ground arith in rw room refl

quote_step :
    (vm : Vm) (expr : Value) (p : Ptr) (memory : Memory) (closures : Ptr → Closure)
    (statics : Statics)
    → Returns (idle vm) p memory closures statics
    → 2 ≤ vm.stack_size
    → vm_handle_quote (idle vm) expr
      ≡ ok (
          quoting
            (with_return_last (idle vm) memory closures statics)
            p
            (scm_car memory.pairs expr))
unfolding vm_handle_quote
quote_step vm expr p memory closures statics r b =
    let f = push_last vm p memory closures statics r b in
    let w = with_return_last (idle vm) memory closures statics in
    let pushed = record w { stack = update vm.stack 0 (tag_closure p); sp = 1; argnum = 1 } in
    let v = scm_car memory.pairs expr in
    let e : vm_stack_push pushed v
        ≡ ok (record pushed { stack = update pushed.stack 1 v; sp = 2; argnum = 2 }) =
      push_value pushed v b in
    rw (vm_handle_quote, f) (rw e refl)

apply_step :
    (vm : Vm) (p : Ptr) (v : Value)
    → IsAligned p
    → IsReturnLast (vm.closures p)
    → 2 ≤ vm.stack_size
    → vm_call_apply (quoting (idle vm) p v)
      ≡ ok (record (quoting (idle vm) p v) { closure = p; runmode = RunMode.compiled; ip = 0 })
unfolding vm_call_apply stack_at
apply_step vm p v a c b =
    let room : ltb 0 vm.stack_size ≡ true = ground arith in
    rw (room, is_closure-tag_closure p a, get_closure-tag_closure p a, c.0) refl

-- The machine when it has stopped, with the value at the bottom of its stack.
abbrev pub stopped : Vm → Ptr → Value → Vm
stopped vm p v = record (quoting (idle vm) p v) {
  closure = p;
  runmode = RunMode.compiled;
  ip = 0;
  stack = update (update (update vm.stack 0 (tag_closure p)) 1 v) 0 v;
  sp = 0;
  argnum = 1;
  running = false;
}

-- `return_last` at work on it.
abbrev returning : Vm → Ptr → Value → Vm
returning vm p v = record (quoting (idle vm) p v) {
  closure = p;
  runmode = RunMode.compiled;
  ip = 0;
}

return_last_top :
    (vm : Vm) (p : Ptr) (v : Value)
    → 2 ≤ vm.stack_size
    → vm_op_return_last (returning vm p v) ≡ ok (false, stopped vm p v)
unfolding vm_op_return_last stack_set vm_call_return
return_last_top vm p v b =
    let low : ltb 0 vm.stack_size ≡ true = ground arith in
    let pop = vm_stack_pop-ok (returning vm p v) (omega arith) b in
    rw (vm_op_return_last, pop) (rw low refl)

return_step :
    (vm : Vm) (p : Ptr) (v : Value)
    → IsReturnLast (vm.closures p)
    → 2 ≤ vm.stack_size
    → vm_step_compiled (returning vm p v) ≡ ok (stopped vm p v)
unfolding vm_step_compiled call_func
return_step vm p v c b = rw (vm_step_compiled, c.1) (rw (return_last_top vm p v b) refl)

symbol_no_pair : (v : Value) → is_symbol v ≡ true → is_pair v ≡ false
unfolding is_symbol is_pair
symbol_no_pair v h = ground arith

sform_quote :
    (vm : Vm) (expr : Value)
    → vm_handle_sform vm (tag_run_type run_type_quote) expr ≡ vm_handle_quote vm expr
unfolding vm_handle_sform get_run_type tag_run_type
sform_quote vm expr = refl

quote_special : is_special_form (tag_run_type run_type_quote) ≡ true
unfolding is_special_form tag_run_type
quote_special = refl

-- The step that takes the special form.
form_step :
    (vm : Vm) (q rest : Value)
    → is_pair vm.ptr ≡ true
    → vm.memory.pairs (get_pair vm.ptr) ≡ record { car = q; cdr = rest }
    → is_symbol q ≡ true
    → resolve vm.envs vm.env q ≡ some (tag_run_type run_type_quote)
    → vm_step_interpreter (idle vm) ≡ vm_handle_quote (idle (record vm { ptr = rest })) rest
unfolding vm_step_interpreter
form_step vm q rest y e s r =
    let look : lookup (idle (record vm { ptr = rest })) q ≡ some (tag_run_type run_type_quote) =
      lookup-resolve (idle (record vm { ptr = rest })) q ∙ r in
    rw (vm_step_interpreter, y, e, symbol_no_pair q s, s)
      (rw look (rw (quote_special, e) (sform_quote (idle (record vm { ptr = rest })) rest)))

run_compiled :
    (vm : Vm) (k : ℕ)
    → vm.running ≡ true
    → vm.runmode ≡ RunMode.compiled
    → vm_run (suc k) vm ≡ (vm_step_compiled vm >>= vm_run k)
unfolding vm_run vm_step
run_compiled vm k r m = simp (vm_run, r, m, vm_step)

run_stopped : (k : ℕ) (vm : Vm) → vm.running ≡ false → vm_run k vm ≡ ok vm
unfolding vm_run
run_stopped zero vm r = rw r refl
run_stopped (suc k) vm r = rw r refl

-- Three rounds from an idle machine at `(quote …)`.
pub quote_rounds :
    (k : ℕ) (vm : Vm) (q rest : Value) (p : Ptr) (memory : Memory) (closures : Ptr → Closure)
    (statics : Statics)
    → is_pair vm.ptr ≡ true
    → vm.memory.pairs (get_pair vm.ptr) ≡ record { car = q; cdr = rest }
    → is_symbol q ≡ true
    → resolve vm.envs vm.env q ≡ some (tag_run_type run_type_quote)
    → Returns (idle (record vm { ptr = rest })) p memory closures statics
    → 2 ≤ vm.stack_size
    → vm_run (suc (suc (suc k))) (idle vm)
      ≡ ok (stopped (with_return_last vm memory closures statics) p (scm_car memory.pairs rest))
quote_rounds k vm q rest p memory closures statics y e s r t b =
    let w = record vm { ptr = rest } in
    let v = scm_car memory.pairs rest in
    let w' = with_return_last w memory closures statics in
    let first = form_step vm q rest y e s r ∙ quote_step w rest p memory closures statics t b in
    let second = apply_step w' p v t.aligned t.code b in
    let third = return_step w' p v t.code b in
    walk (idle vm) (suc (suc k)) refl refl
    ∙ ap (λ x. x >>= vm_run (suc (suc k))) first
    ∙ walk (quoting (idle w') p v) (suc k) refl refl
    ∙ ap (λ x. x >>= vm_run (suc k)) (apply_at_end (quoting (idle w') p v) refl ∙ second)
    ∙ run_compiled (returning w' p v) k refl refl
    ∙ ap (λ x. x >>= vm_run k) third
    ∙ run_stopped k (stopped w' p v) refl
