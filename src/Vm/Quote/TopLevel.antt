-- ===== src/Vm/Quote/TopLevel.antt =====
-- `quote` through `vm_evaluate_expr` of src/vm.c.
use nscheme.Prelude.{
  ℕ, zero, suc, refl, ap, inl, inr, true, false, some, [], arith, Bool-cases, ◌+◌, ◌*◌, ◌/◌, ◌≤◌,
  ◌<◌, ◌≡◌, ◌∷◌, ◌==◌, ◌∙◌,
}
use nscheme.Values.{Value, Ptr, is_pair, is_symbol, get_pair, scm_car, tag_run_type, run_type_quote}
use nscheme.Values.Tagging.{IsAligned}
use nscheme.Memory.{Memory, update, malloc}
use nscheme.Env.Chain.{resolve}
use nscheme.Run.{ok, ◌>>=◌}
use nscheme.Vm.State.{Vm, RunMode, Closure, Statics, op_return_last}
use nscheme.Vm.Closures.{
  native_closure, instr, vm_func_return_last, static_closure, new_closure, closure_size,
}
use nscheme.Vm.Interp.{vm_run, vm_evaluate_expr}
use nscheme.Vm.Quote.{HasReturnLast, idle, with_return_last, Returns, stopped, quote_rounds}

HasReturnLast-update :
    (vm : Vm) (p : Ptr) (expr : Value)
    → HasReturnLast vm
    → HasReturnLast (record vm {
      closures = update vm.closures p (record (vm.closures p) { definition = expr });
    })
HasReturnLast-update vm p expr (inl h) = inl h
HasReturnLast-update vm p expr (inr (a, made, c)) =
    elim (Bool-cases (vm.statics.return_last == p)) [
      | inl e ↦
          (let same : vm.statics.return_last ≡ p = ground arith in
            inr (a, made, rw e (rw same at c)))
      | inr e ↦ inr (a, made, rw e c)
    ]

-- The closure that `vm_func_return_last` returns.
returns :
    (vm : Vm)
    → HasReturnLast vm
    → 0 < vm.memory.brk
    → (p : Ptr) × (memory : Memory) × (closures : Ptr → Closure) × (statics : Statics) × Returns vm
        p memory closures statics
unfolding vm_func_return_last static_closure new_closure malloc
returns vm (inl (a, z)) b =
    let p = vm.memory.brk in
    let memory = record vm.memory { brk = p + 16 * (closure_size / 16 + 1) } in
    let closures = update vm.closures p (native_closure (instr op_return_last ∷ [])) in
    let same : (p == p) ≡ true = ground arith in
    (
      p,
      memory,
      closures,
      record vm.statics { return_last = p },
      record {
        made = rw z refl;
        aligned = a;
        code = rw same (refl, refl);
        pairs = refl;
        strings = refl;
        heap = refl;
        table = refl;
        brk = omega arith;
        next = λ a. omega arith;
        kept = inr (a, b, rw same (refl, refl));
      },
    )
returns vm (inr (a, made, c)) b =
    let p = vm.statics.return_last in
    let there : (p == 0) ≡ false = ground arith in
    (
      p,
      vm.memory,
      vm.closures,
      vm.statics,
      record {
        made = rw there refl;
        aligned = a;
        code = c;
        pairs = refl;
        strings = refl;
        heap = refl;
        table = refl;
        brk = omega arith;
        next = λ a. a;
        kept = inr (a, made, c);
      },
    )

-- The machine that `vm_evaluate_expr` runs.
abbrev evaluating : Vm → Value → Vm
evaluating vm expr = record vm {
  ptr = expr;
  running = true;
  closure = vm.root_closure;
  closures =
      update vm.closures vm.root_closure
        (record (vm.closures vm.root_closure) { definition = expr });
  argnum = 0;
  env = 1;
  runmode = RunMode.interp;
}

evaluating-idle :
    (vm : Vm) (expr : Value)
    → vm.sp ≡ 0
    → vm.callp ≡ 0
    → evaluating vm expr ≡ idle (evaluating vm expr)
evaluating-idle vm expr s c =
    ap (λ n. record (evaluating vm expr) { sp = n }) s
    ∙ ap (λ n. record (evaluating vm expr) { sp = 0; callp = n }) c

-- What an evaluation at the top level leaves as it was.
pub record Evaluated (vm vm' : Vm) : Type 0 where
  pub sp : vm'.sp ≡ 0
  pub callp : vm'.callp ≡ 0
  pub stack_size : vm'.stack_size ≡ vm.stack_size
  pub envs : vm'.envs ≡ vm.envs
  pub errormsg : vm'.errormsg ≡ vm.errormsg
  pub stdout : vm'.stdout ≡ vm.stdout
  pub pairs : vm'.memory.pairs ≡ vm.memory.pairs
  pub strings : vm'.memory.strings ≡ vm.memory.strings
  pub heap : vm'.memory.gc ≡ vm.memory.gc
  pub table : vm'.memory.symbol_tree ≡ vm.memory.symbol_tree
  pub brk : vm.memory.brk ≤ vm'.memory.brk
  pub next : IsAligned vm.memory.brk → IsAligned vm'.memory.brk
  pub return_last : HasReturnLast vm'

-- With empty stacks, three rounds are enough for `vm_evaluate_expr` to evaluate `(quote v)` to `v`,
-- where the name at the front of the list is bound to the special form. It leaves empty stacks, and
-- the environments, the pairs and the strings as they were.
pub vm_evaluate_expr-quote :
    (k : ℕ) (vm : Vm) (expr q rest v : Value)
    → vm.sp ≡ 0
    → vm.callp ≡ 0
    → 2 ≤ vm.stack_size
    → 0 < vm.memory.brk
    → HasReturnLast vm
    → is_pair expr ≡ true
    → vm.memory.pairs (get_pair expr) ≡ record { car = q; cdr = rest }
    → is_symbol q ≡ true
    → resolve vm.envs 1 q ≡ some (tag_run_type run_type_quote)
    → is_pair rest ≡ true
    → (vm.memory.pairs (get_pair rest)).car ≡ v
    → 3 ≤ k
    → (vm' : Vm) × (vm_evaluate_expr k vm expr ≡ ok (v, vm')) × Evaluated vm vm'
unfolding vm_evaluate_expr scm_car
vm_evaluate_expr-quote zero vm expr q rest v s c b m h y e n r y' e' f = absurd (omega arith)
vm_evaluate_expr-quote (suc zero) vm expr q rest v s c b m h y e n r y' e' f = absurd (omega arith)
vm_evaluate_expr-quote (suc (suc zero)) vm expr q rest v s c b m h y e n r y' e' f =
    absurd (omega arith)
vm_evaluate_expr-quote (suc (suc (suc k))) vm expr q rest v s c b m h y e n r y' e' f =
    let u = evaluating vm expr in
    let (p, memory, closures, statics, t) =
      returns (idle (record u { ptr = rest })) (HasReturnLast-update vm vm.root_closure expr h) m in
    let run : vm_run (suc (suc (suc k))) u
        ≡ ok (stopped (with_return_last u memory closures statics) p (scm_car memory.pairs rest)) =
      ap (λ w. vm_run (suc (suc (suc k))) w) (evaluating-idle vm expr s c)
      ∙ quote_rounds k u q rest p memory closures statics y e n r t b in
    let same = t.pairs in
    let w = stopped (with_return_last u memory closures statics) p (scm_car memory.pairs rest) in
    let value : scm_car memory.pairs rest ≡ v = rw (same, y') e' in
    (
      w,
      ap (λ x. x >>= λ x. ok (x.stack 0, x)) run ∙ ap (λ x. ok (x, w)) value,
      record {
        sp = refl;
        callp = refl;
        stack_size = refl;
        envs = refl;
        errormsg = refl;
        stdout = refl;
        pairs = t.pairs;
        strings = t.strings;
        heap = t.heap;
        table = t.table;
        brk = t.brk;
        next = t.next;
        return_last = t.kept;
      },
    )
