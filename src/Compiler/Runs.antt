-- ===== src/Compiler/Runs.antt =====
-- The machine (src/vm.c, src/vm_ops.c) on the code that the compiler emits for an expression without
-- calls.
use nscheme.Prelude.{
  ℕ, refl, inl, inr, true, false, some, arith, Bool-cases, get_elem?, ◌+◌, ◌-◌, ◌%◌, ◌≤◌, ◌<◌, ◌≡◌,
  ◌⊎◌, ◌==◌, if◌then◌else◌, ◌∙◌,
}
use nscheme.Prelude.Words.{mod32, sub32}
use nscheme.Values.{Value, tag_boolean}
use nscheme.Memory.{update}
use nscheme.Run.{ok, ◌>>=◌}
use native.Mathlib.Decide.{dec_lt}
use nscheme.Vm.State.{op_jump, op_jump_if_false, Vm, VmOp, RunMode, vm_stack_push}
use nscheme.Vm.Stack.{vm_stack_pop-ok, vm_stack_push-ok}
use nscheme.Vm.Ops.{vm_op_jump, vm_op_jump_if_false}
use nscheme.Vm.Interp.{call_func}
use nscheme.Vm.Reaches.{Reaches, Reaches-trans, Reaches-mono, Reaches-instr}
use nscheme.Compiler.Expr.{Expr, size, code}
use nscheme.Compiler.Values.{IsWithin, IsStored}

-- A machine about to run the code for `e` in a frame that begins at `base`.
pub record IsAt (vm : Vm) (base : ℕ) (e : Expr) : Type 0 where
  pub running : vm.running ≡ true
  pub compiled : vm.runmode ≡ RunMode.compiled
  pub frame : vm.sp ≡ base + vm.argnum
  pub room : vm.sp < vm.stack_size
  pub small : vm.stack_size < mod32
  pub within : IsWithin base vm.sp e
  pub stored : IsStored (vm.closures vm.closure).code vm.ip (code vm.ip e)
  pub end_small : vm.ip + size e < mod32

-- The machine behind that code, with a value pushed.
abbrev pub behind : Vm → Expr → (ℕ → Value) → Vm
behind vm e stack = record vm {
  ip = vm.ip + size e;
  sp = vm.sp + 1;
  argnum = vm.argnum + 1;
  stack = stack;
}

-- The new stack: the value on top of what was there.
abbrev pub IsPushed : Vm → Value → (ℕ → Value) → Type 0
IsPushed vm v stack = (stack vm.sp ≡ v) × ((i : ℕ) → (vm.sp ≤ i) ⊎ (stack i ≡ vm.stack i))

abbrev pub Computes : Vm → Expr → Value → Type 0
Computes vm e v =
    (stack : ℕ → Value) × IsPushed vm v stack × Reaches (size e) vm (behind vm e stack)

IsPushed-update : (vm : Vm) (v : Value) → IsPushed vm v (update vm.stack vm.sp v)
IsPushed-update vm v = (
  ground arith,
  λ i. elim (dec_lt i vm.sp) [ yes l ↦ inr (ground arith) | no n ↦ inl (omega arith) ],
)

-- An instruction that pushes a value.
pub push-Computes :
    (vm : Vm) (e : Expr) (v : Value) (op : VmOp)
    → size e ≡ 1
    → vm.running ≡ true
    → vm.runmode ≡ RunMode.compiled
    → vm.sp < vm.stack_size
    → vm.argnum + 1 < mod32
    → vm.ip + 1 < mod32
    → get_elem? (vm.closures vm.closure).code vm.ip ≡ some op
    → call_func op.func vm op.arg ≡ (vm_stack_push vm v >>= λ vm'. ok (true, vm'))
    → Computes vm e v
push-Computes vm e v op one r m h a p g c =
    let stack = update vm.stack vm.sp v in
    let pushed = record vm { stack = stack; sp = vm.sp + 1; argnum = (vm.argnum + 1) % mod32 } in
    let step = Reaches-instr vm pushed op true r m g (c ∙ rw (vm_stack_push-ok vm v h) refl) in
    let e₁ : (vm.argnum + 1) % mod32 ≡ vm.argnum + 1 = omega arith in
    let e₂ : (vm.ip + 1) % mod32 ≡ vm.ip + 1 = omega arith in
    (stack, IsPushed-update vm v, rw one (rw (e₁, e₂) at step))

-- The machine between the parts of an expression: where it was, but for the cells above its stack.
abbrev pub between : Vm → ℕ → (ℕ → Value) → Vm
between vm ip stack = record vm { ip = ip; stack = stack }

-- The test of a conditional.
pub test-Reaches :
    (vm : Vm) (pc target : ℕ) (stack : ℕ → Value)
    → vm.running ≡ true
    → vm.runmode ≡ RunMode.compiled
    → vm.sp < vm.stack_size
    → vm.argnum + 1 < mod32
    → pc + 1 < mod32
    → target < mod32
    → get_elem? (vm.closures vm.closure).code pc
      ≡ some (record { func = op_jump_if_false; arg = target })
    → Reaches 1
        (record vm { ip = pc; sp = vm.sp + 1; argnum = vm.argnum + 1; stack = stack })
        (between vm (if stack vm.sp == tag_boolean false then target else pc + 1) stack)
unfolding call_func vm_op_jump_if_false
test-Reaches vm pc target stack r m h a p t g =
    let m₁ = record vm { ip = pc; sp = vm.sp + 1; argnum = vm.argnum + 1; stack = stack } in
    let pop = vm_stack_pop-ok m₁ (omega arith) (omega arith) in
    let e₁ : vm.sp + 1 - 1 ≡ vm.sp = omega arith in
    let e₂ : sub32 (vm.argnum + 1) 1 ≡ vm.argnum = omega arith in
    let e₃ : (target + 0) % mod32 ≡ target = omega arith in
    let e₄ : (pc + 1) % mod32 ≡ pc + 1 = omega arith in
    elim (Bool-cases (stack vm.sp == tag_boolean false)) [
      | inl y ↦
          (let step =
              Reaches-instr m₁ (between vm target stack) _ false r m g
                (rw (pop, e₁, e₂) (rw y refl)) in
            rw y (rw e₃ at step))
      | inr n ↦
          (let step =
              Reaches-instr m₁ (between vm pc stack) _ true r m g (rw (pop, e₁, e₂) (rw n refl)) in
            rw n (rw e₄ at step))
    ]

-- The jump behind the first branch.
pub jump-Reaches :
    (vm : Vm) (target : ℕ)
    → vm.running ≡ true
    → vm.runmode ≡ RunMode.compiled
    → target < mod32
    → get_elem? (vm.closures vm.closure).code vm.ip ≡ some (record { func = op_jump; arg = target })
    → Reaches 1 vm (record vm { ip = target })
unfolding call_func vm_op_jump
jump-Reaches vm target r m t g =
    let e : (target + 0) % mod32 ≡ target = omega arith in
    let step = Reaches-instr vm (record vm { ip = target }) _ false r m g refl in rw e at step

-- A conditional computes what the branch computes that it gets to.
pub branch-Computes :
    (vm : Vm) (e e' : Expr) (v : Value) (ip i l : ℕ) (stack : ℕ → Value)
    → ((j : ℕ) → (vm.sp ≤ j) ⊎ (stack j ≡ vm.stack j))
    → Reaches i vm (between vm ip stack)
    → Computes (between vm ip stack) e' v
    → ((stack' : ℕ → Value)
        → Reaches l (behind (between vm ip stack) e' stack') (behind vm e stack'))
    → i + size e' + l ≤ size e
    → Computes vm e v
branch-Computes vm e e' v ip i l stack b f (stack', (top, below), g) h n =
    let there = behind (between vm ip stack) e' stack' in
    let run =
      Reaches-trans vm there (behind vm e stack') (i + size e') l
        (Reaches-trans vm (between vm ip stack) there i (size e') f g) (h stack') in
    (
      stack',
      (top, λ j. both (b j) (below j)),
      Reaches-mono vm (behind vm e stack') (i + size e' + l) (size e) n run,
    )
  where
    both :
        {j : ℕ}
        → (vm.sp ≤ j) ⊎ (stack j ≡ vm.stack j)
        → (vm.sp ≤ j) ⊎ (stack' j ≡ stack j)
        → (vm.sp ≤ j) ⊎ (stack' j ≡ vm.stack j)
    both (inl x) y = inl x
    both (inr x) (inl y) = inl y
    both (inr x) (inr y) = inr (y ∙ x)
