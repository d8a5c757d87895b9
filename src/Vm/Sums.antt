-- ===== src/Vm/Sums.antt =====
-- A whole call from the tree walker: `+` with constants and names that mean integers.
use nscheme.Prelude.{
  ℕ, zero, suc, refl, sym, ap, true, false, List, [], map, arith, ltb, length, ◌+◌, ◌-◌, ◌≤◌, ◌<◌,
  ◌≡◌, ◌∷◌, ◌==◌, ◌∙◌,
}
use nscheme.Prelude.Words.{mod32, sub32}
use nscheme.Values.{Value, Ptr, tag_integer, tag_closure}
use nscheme.Values.Tagging.{IsAligned, is_closure-tag_closure, get_closure-tag_closure}
use nscheme.Memory.{update}
use nscheme.Run.{ok, ◌>>=◌}
use nscheme.Vm.State.{Vm, RunMode, op_add, op_return, stack_at}
use nscheme.Vm.Stack.{top_values}
use nscheme.Vm.Calls.{IsEvaluating, resumed}
use nscheme.Vm.Builtins.{IsBuiltinCall, builtin_first, builtin_second}
use nscheme.Vm.Operands.{IsList, AllMean, push_all, stack_all, vm_run-operands}
use nscheme.Vm.Arith.Loops.{IsCall, returned, fold}
use nscheme.Vm.Arith.Integers.{vm_op_add-integers}
use nscheme.Vm.Closures.{instr}
use nscheme.Vm.Apply.{vm_call_apply}
use nscheme.Vm.Interp.{vm_step, vm_run, call_func}

-- The reverse of the first list in front of the second.
abbrev rev_onto {ℓ} : {A : Type ℓ} → List A → List A → List A
rev_onto [] acc = acc
rev_onto (x ∷ xs) acc = rev_onto xs (x ∷ acc)

map-rev_onto :
    (xs acc : List ℕ)
    → rev_onto (map tag_integer xs) (map tag_integer acc) ≡ map tag_integer (rev_onto xs acc)
map-rev_onto [] acc = refl
map-rev_onto (x ∷ xs) acc = map-rev_onto xs (x ∷ acc)

abbrev pub sum_from : ℕ → List ℕ → ℕ
sum_from = fold (λ sum x. sum + x)

sum_from_shift : (s a : ℕ) (xs : List ℕ) → sum_from (s + a) xs ≡ sum_from s xs + a
sum_from_shift s a [] = refl
sum_from_shift s a (x ∷ xs) =
    let e : s + a + x ≡ s + x + a = omega arith in
    ap (λ t. sum_from t xs) e ∙ sum_from_shift (s + x) a xs

sum_from-rev_onto :
    (s : ℕ) (xs acc : List ℕ) → sum_from s (rev_onto xs acc) ≡ sum_from (sum_from s xs) acc
sum_from-rev_onto s [] acc = refl
sum_from-rev_onto s (x ∷ xs) acc =
    sum_from-rev_onto s xs (x ∷ acc) ∙ ap (λ t. sum_from t acc) (sym (sum_from_shift s x xs))

top_values-update :
    (n sp j : ℕ) (stack : ℕ → Value) (v : Value)
    → n ≤ sp
    → sp ≤ j
    → top_values n sp (update stack j v) ≡ top_values n sp stack
top_values-update zero sp j stack v h l = refl
top_values-update (suc n) sp j stack v h l =
    let e : (sp - 1 == j) ≡ false = ground arith in
    rw e (
      ap (λ vs. stack (sp - 1) ∷ vs)
        (top_values-update n (sp - 1) j stack v (omega arith) (omega arith)))

top_values-stack_all :
    (vs : List Value) (n sp : ℕ) (stack : ℕ → Value)
    → n ≤ sp
    → top_values (length vs + n) (sp + length vs) (stack_all vs sp stack)
      ≡ rev_onto vs (top_values n sp stack)
top_values-stack_all [] n sp stack h =
    let e : sp + 0 ≡ sp = omega arith in let e' : 0 + n ≡ n = omega arith in rw (e, e')
top_values-stack_all (v ∷ vs) n sp stack h =
    let e₁ : length (v ∷ vs) + n ≡ length vs + suc n = omega arith in
    let e₂ : sp + length (v ∷ vs) ≡ sp + 1 + length vs = omega arith in
    let e₃ : sp + 1 - 1 ≡ sp = omega arith in
    let e₄ : (sp == sp) ≡ true = ground arith in
    rw (e₁, e₂)
      (top_values-stack_all vs (suc n) (sp + 1) (update stack sp v) (omega arith)
        ∙ ap (rev_onto vs)
            (rw (e₃, e₄) (ap (λ l. v ∷ l) (top_values-update n sp sp stack v h (omega arith)))))

stack_all-below :
    (vs : List Value) (sp i : ℕ) (stack : ℕ → Value) → i < sp → stack_all vs sp stack i ≡ stack i
stack_all-below [] sp i stack h = refl
stack_all-below (v ∷ vs) sp i stack h =
    let e : (i == sp) ≡ false = ground arith in
    stack_all-below vs (sp + 1) i (update stack sp v) (omega arith) ∙ rw e refl

-- The machine `m` walks the operands of a call, for `vm`, of the closure at `p`, which is on the
-- stack; the operands mean the integers `is`.
pub record IsSum (vm m : Vm) (p : Ptr) (xs : List Value) (is : List ℕ) : Type 0 where
  pub evaluating : IsEvaluating vm m
  pub running : m.running ≡ true
  pub interp : m.runmode ≡ RunMode.interp
  pub sp : m.sp ≡ vm.sp + 1
  pub argnum : m.argnum ≡ 1
  pub aligned : IsAligned p
  pub function : m.stack vm.sp ≡ tag_closure p
  pub compiled : (m.closures p).compiled ≡ true
  pub code : (m.closures p).code ≡ instr op_add ∷ instr op_return ∷ []
  pub list : IsList m.memory.pairs m.ptr xs
  pub mean : AllMean m.envs m.env xs (map tag_integer is)
  pub count : length xs ≡ length (map tag_integer is)
  pub room : m.sp + length xs ≤ m.stack_size
  pub small : m.stack_size < mod32

apply_compiled :
    (m : Vm) (base p : ℕ)
    → m.sp ≡ base + m.argnum
    → base < m.stack_size
    → m.sp < mod32
    → m.stack base ≡ tag_closure p
    → IsAligned p
    → (m.closures p).compiled ≡ true
    → vm_call_apply m ≡ ok (record m { closure = p; runmode = RunMode.compiled; ip = 0 })
unfolding vm_call_apply stack_at
apply_compiled m base p s b w f a c =
    let e : sub32 m.sp m.argnum ≡ base = omega arith in
    let room : ltb base m.stack_size ≡ true = ground arith in
    rw (e, room, f, is_closure-tag_closure p a, get_closure-tag_closure p a, c) refl

run_compiled : (m : Vm) (k : ℕ) → m.running ≡ true → vm_run (suc k) m ≡ (vm_step m >>= vm_run k)
unfolding vm_run
run_compiled m k r = simp (vm_run, r)

module _ (vm m : Vm) (p k : ℕ) (xs : List Value) (is : List ℕ) (s : IsSum vm m p xs is) where
  abbrev all_pushed : Vm
  all_pushed = push_all m (map tag_integer is)

  abbrev entered : Vm
  entered = record all_pushed { closure = p; runmode = RunMode.compiled; ip = 0 }

  applied : vm_call_apply all_pushed ≡ ok entered
  applied =
      let sp = s.sp in
      let argnum = s.argnum in
      let room = s.room in
      let count = s.count in
      let small = s.small in
      apply_compiled all_pushed vm.sp p (omega arith) (omega arith) (omega arith)
        (stack_all-below (map tag_integer is) m.sp vm.sp m.stack (omega arith) ∙ s.function)
        s.aligned s.compiled

  entered-IsCall : IsCall entered vm.sp (length (map tag_integer is))
  entered-IsCall =
      let sp = s.sp in
      let argnum = s.argnum in
      let room = s.room in
      let count = s.count in
      let small = s.small in
      record { sp = omega arith; argnum = omega arith; bound = omega arith; small = small }

  entered-IsBuiltinCall : IsBuiltinCall vm entered op_add (length (map tag_integer is))
  entered-IsBuiltinCall = record {
    code = s.code;
    compiled = refl;
    first = refl;
    evaluating = record {
      frames = s.evaluating.frames;
      frame = s.evaluating.frame;
      small = s.evaluating.small;
      counted = s.evaluating.counted;
    };
    call = entered-IsCall;
  }

  operands_on_top :
      top_values (length (map tag_integer is)) entered.sp entered.stack
      ≡ map tag_integer (rev_onto is [])
  operands_on_top =
      let e : length (map tag_integer is) + 0 ≡ length (map tag_integer is) = omega arith in
      let h = top_values-stack_all (map tag_integer is) 0 m.sp m.stack (omega arith) in
      (rw e at h) ∙ map-rev_onto is []

  added :
      call_func op_add entered 0 ≡ ok (true, returned entered vm.sp (tag_integer (sum_from 0 is)))
  unfolding call_func
  added =
      vm_op_add-integers entered vm.sp (length (map tag_integer is)) (rev_onto is []) entered-IsCall
        operands_on_top
      ∙ ap (λ t. ok (true, returned entered vm.sp (tag_integer t))) (sum_from-rev_onto 0 is [])

  -- A call of `+`, in a frame, whose function is on the stack and whose operands are constants and
  -- bound names that mean integers runs, within three rounds more than it has operands, to the
  -- machine in which the caller goes on with the sum of the integers, in 62 bits, pushed where the
  -- call stood, as long as the stack has room.
  pub vm_run-sum :
      (fuel : ℕ)
      → fuel ≡ length xs + suc (suc (suc k))
      → vm_run fuel m
        ≡ vm_run k
            (record (resumed vm (returned entered vm.sp (tag_integer (sum_from 0 is)))) { ip = 1 })
  vm_run-sum fuel f =
      let sp = s.sp in
      let argnum = s.argnum in
      let room = s.room in
      let small = s.small in
      let v = tag_integer (sum_from 0 is) in
      let n = length (map tag_integer is) in
      let first = builtin_first vm entered op_add n v entered-IsBuiltinCall added in
      let second = builtin_second vm entered op_add n v entered-IsBuiltinCall in
      let step = vm_run in
      vm_run-operands m fuel (suc (suc k)) xs (map tag_integer is) f s.running s.interp s.list
        s.mean (omega arith) room (omega arith)
      ∙ ap (λ r. r >>= step (suc (suc k))) applied
      ∙ run_compiled entered (suc k) s.running
      ∙ ap (λ r. r >>= step (suc k)) first
      ∙ run_compiled (record (returned entered vm.sp v) { ip = 1 }) k s.running
      ∙ ap (λ r. r >>= step k) second
