-- ===== src/Vm/Operands.antt =====
-- The tree walker of src/vm.c on the operands of a call: constants and names.
use nscheme.Prelude.{
  ℕ, zero, suc, sym, ap, inl, inr, true, false, some, List, [], arith, ltb, Option-cases, length,
  ◌+◌, ◌%◌, ◌≤◌, ◌<◌, ◌≡◌, ◌⊎◌, ◌∷◌, ◌==◌, ◌∙◌,
}
use nscheme.Prelude.Words.{mod32}
use nscheme.Values.{Value, Ptr, Pair, is_pair, is_null, is_symbol, get_pair, scm_type_null}
use nscheme.Env.{Envs, env_find_recurse}
use nscheme.Env.Chain.{resolve, env_find_recurse-resolve}
use nscheme.Memory.{update}
use nscheme.Run.{ok, ◌>>=◌}
use nscheme.Vm.State.{Vm, RunMode, vm_stack_push}
use nscheme.Vm.Stack.{vm_stack_push-ok}
use nscheme.Vm.Apply.{vm_call_apply}
use nscheme.Vm.Interp.{lookup, vm_step_interpreter, vm_step, vm_run}

-- A list of Scheme that is in memory.
abbrev pub IsList : (Ptr → Pair) → Value → List Value → Type 0
IsList pairs l [] = l ≡ scm_type_null
IsList pairs l (x ∷ xs) =
    (is_pair l ≡ true) × ((pairs (get_pair l)).car ≡ x) × IsList pairs (pairs (get_pair l)).cdr xs

-- An operand that needs no frame: a constant, or a name that is bound.
abbrev pub Means : Envs → Ptr → Value → Value → Type 0
Means envs env x v =
    (is_pair x ≡ false)
    × (((is_symbol x ≡ false) × (x ≡ v)) ⊎ ((is_symbol x ≡ true) × (resolve envs env x ≡ some v)))

abbrev pub AllMean : Envs → Ptr → List Value → List Value → Type 0
AllMean envs env [] [] = Unit
AllMean envs env [] (v ∷ vs) = ⊥
AllMean envs env (x ∷ xs) [] = ⊥
AllMean envs env (x ∷ xs) (v ∷ vs) = Means envs env x v × AllMean envs env xs vs

-- The machine with one more operand and the list that follows it.
abbrev pub pushed : Vm → Value → Value → Vm
pushed vm v rest = record vm {
  ptr = rest;
  stack = update vm.stack vm.sp v;
  sp = vm.sp + 1;
  argnum = vm.argnum + 1;
}

-- The values, written one above the other from `sp` on.
abbrev pub stack_all : List Value → ℕ → (ℕ → Value) → ℕ → Value
stack_all [] sp stack = stack
stack_all (v ∷ vs) sp stack = stack_all vs (sp + 1) (update stack sp v)

-- The machine with all operands pushed, at the end of their list.
abbrev pub push_all : Vm → List Value → Vm
push_all vm vs = record vm {
  ptr = scm_type_null;
  stack = stack_all vs vm.sp vm.stack;
  sp = vm.sp + length vs;
  argnum = vm.argnum + length vs;
}

pub lookup-resolve : (vm : Vm) (x : Value) → lookup vm x ≡ resolve vm.envs vm.env x
unfolding lookup
lookup-resolve vm x =
    let h = env_find_recurse-resolve vm.envs vm.env x in
    elim (Option-cases (env_find_recurse vm.envs vm.env x)) [
      | inl e ↦ rw (lookup, e) (rw e at h)
      | inr (n, e) ↦ rw (lookup, e) (rw e at h)
    ]

push_all-nil : (vm : Vm) → push_all vm [] ≡ record vm { ptr = scm_type_null }
push_all-nil vm =
    let e₁ : vm.sp + 0 ≡ vm.sp = omega arith in
    let e₂ : vm.argnum + 0 ≡ vm.argnum = omega arith in rw (e₁, e₂)

push_all-cons :
    (vm : Vm) (v rest : Value) (vs : List Value)
    → push_all (pushed vm v rest) vs ≡ push_all vm (v ∷ vs)
push_all-cons vm v rest vs =
    let e₁ : vm.sp + 1 + length vs ≡ vm.sp + length (v ∷ vs) = omega arith in
    let e₂ : vm.argnum + 1 + length vs ≡ vm.argnum + length (v ∷ vs) = omega arith in rw (e₁, e₂)

push_operand :
    (vm : Vm) (v rest : Value)
    → vm.sp < vm.stack_size
    → vm.argnum + 1 < mod32
    → vm_stack_push (record vm { ptr = rest }) v ≡ ok (pushed vm v rest)
push_operand vm v rest h b =
    let e : (vm.argnum + 1) % mod32 ≡ vm.argnum + 1 = omega arith in
    rw (vm_stack_push-ok (record vm { ptr = rest }) v h, e)

step_operand :
    (vm : Vm) (x v rest : Value)
    → is_pair vm.ptr ≡ true
    → vm.memory.pairs (get_pair vm.ptr) ≡ record { car = x; cdr = rest }
    → Means vm.envs vm.env x v
    → 0 < vm.argnum
    → vm.sp < vm.stack_size
    → vm.argnum + 1 < mod32
    → vm_step_interpreter vm ≡ ok (pushed vm v rest)
unfolding vm_step_interpreter lookup
step_operand vm x v rest p e (np, inl (ns, same)) a h b =
    let room : ltb vm.sp vm.stack_size ≡ true = ground arith in
    let count : (vm.argnum + 1) % mod32 ≡ vm.argnum + 1 = omega arith in
    rw (vm_step_interpreter, p, e, np, ns) (rw (room, count, same))
step_operand vm x v rest p e (np, inr (s, r)) a h b =
    let n : (vm.argnum == 0) ≡ false = ground arith in
    let look : lookup vm x ≡ some v = lookup-resolve vm x ∙ r in
    rw (vm_step_interpreter, p, e, np, s) (rw look (rw (n, e) (push_operand vm v rest h b)))

pub walk :
    (vm : Vm) (k : ℕ)
    → vm.running ≡ true
    → vm.runmode ≡ RunMode.interp
    → vm_run (suc k) vm ≡ (vm_step_interpreter vm >>= vm_run k)
unfolding vm_run vm_step
walk vm k r m = simp (vm_run, r, m, vm_step)

pub apply_at_end :
    (vm : Vm)
    → vm.ptr ≡ scm_type_null
    → vm_step_interpreter vm ≡ vm_call_apply (record vm { ptr = scm_type_null })
unfolding vm_step_interpreter is_pair is_null
apply_at_end vm l = rw (vm_step_interpreter, l)

-- In a call whose function is on the stack, with operands that are constants and bound names, the
-- tree walker pushes what the operands mean, in order, and then applies the function, as long as
-- the stack and the count of arguments have room.
pub vm_run-operands :
    (vm : Vm) (fuel k : ℕ) (xs vs : List Value)
    → fuel ≡ length xs + suc k
    → vm.running ≡ true
    → vm.runmode ≡ RunMode.interp
    → IsList vm.memory.pairs vm.ptr xs
    → AllMean vm.envs vm.env xs vs
    → 0 < vm.argnum
    → vm.sp + length xs ≤ vm.stack_size
    → vm.argnum + length xs < mod32
    → vm_run fuel vm ≡ (vm_call_apply (push_all vm vs) >>= vm_run k)
vm_run-operands vm zero k xs vs f r m l w a h b = absurd (omega arith)
vm_run-operands vm (suc fuel) k [] [] f r m l w a h b =
    let e : fuel ≡ k = omega arith in
    rw e (
      walk vm k r m
      ∙ ap (λ s. s >>= vm_run k) (apply_at_end vm l ∙ ap (vm_call_apply) (sym (push_all-nil vm))))
vm_run-operands vm (suc fuel) k [] (v ∷ vs) f r m l w a h b = absurd w
vm_run-operands vm (suc fuel) k (x ∷ xs) [] f r m l w a h b = absurd w
vm_run-operands vm (suc fuel) k (x ∷ xs) (v ∷ vs) f r m (p, c, l) (w, ws) a h b =
    let rest = (vm.memory.pairs (get_pair vm.ptr)).cdr in
    walk vm fuel r m
    ∙ ap (λ s. s >>= vm_run fuel)
        (step_operand vm x v rest p (ap (λ car. record { car = car; cdr = rest }) c) w a
          (omega arith) (omega arith))
    ∙ vm_run-operands (pushed vm v rest) fuel k xs vs (omega arith) r m l ws (omega arith)
        (omega arith) (omega arith)
    ∙ ap (λ m'. vm_call_apply m' >>= vm_run k) (push_all-cons vm v rest vs)
