-- ===== src/Vm/Arith/Loops.antt =====
-- The arithmetic operations of src/vm_ops.c on the stack: what they leave for a call of a function
-- with n arguments, for every n.
use nscheme.Prelude.{
  ℕ, zero, suc, refl, inl, inr, Bool, true, false, Option, none, some, List, [], arith, ltb,
  Bool-cases, ◌+◌, ◌-◌, ◌*◌, ◌/◌, ◌%◌, ◌≤◌, ◌<◌, ◌≡◌, ◌∷◌, ◌==◌, if◌then◌else◌,
}
use nscheme.Prelude.Words.{mod32, mod64, sub32}
use nscheme.Values.{Value, tag_integer, tag_boolean, get_integer}
use nscheme.Memory.{update}
use nscheme.Run.{ok, ◌>>=◌, Run}
use nscheme.Vm.State.{Vm, vm_stack_pop, vm_stack_push, stack_at, vm_error}
use nscheme.Vm.Stack.{top_values, vm_stack_pop-ok, vm_stack_push-ok}
use nscheme.Vm.Arith.{compare_top, pop_loop, vm_op_add, vm_op_sub, vm_op_mul, vm_op_div, div_loop}

abbrev pub fold : {A : Type 0} → (ℕ → A → ℕ) → ℕ → List A → ℕ
fold f acc [] = acc
fold f acc (x ∷ xs) = fold f (f acc x) xs

-- A call in progress: the function stands at `base`, with `n` arguments above it.
pub record IsCall (vm : Vm) (base n : ℕ) : Type 0 where
  pub sp : vm.sp ≡ base + suc n
  pub argnum : vm.argnum ≡ suc n
  pub bound : vm.sp ≤ vm.stack_size
  pub small : vm.stack_size < mod32

-- The machine after such a call: the value in place of the function and its arguments.
abbrev pub returned : Vm → ℕ → Value → Vm
returned vm base v = record vm { stack = update vm.stack base v; sp = base + 1; argnum = 1 }

-- The loop takes the values on top of the stack, the topmost first.
pub pop_loop-fold :
    (f : ℕ → Value → ℕ) (n acc : ℕ) (vm : Vm) (sp argnum : ℕ)
    → vm.sp ≡ sp + n
    → vm.argnum ≡ argnum + n
    → vm.sp ≤ vm.stack_size
    → vm.argnum < mod32
    → pop_loop f n acc vm
      ≡ ok (fold f acc (top_values n vm.sp vm.stack), record vm { sp = sp; argnum = argnum })
unfolding pop_loop
pop_loop-fold f zero acc vm sp argnum e a b s =
    let e' : sp ≡ vm.sp = omega arith in let a' : argnum ≡ vm.argnum = omega arith in rw (e', a')
pop_loop-fold f (suc n) acc vm sp argnum e a b s =
    let a' : sub32 vm.argnum 1 ≡ argnum + n = omega arith in
    rw (vm_stack_pop-ok vm (omega arith) b) (
      pop_loop-fold f n (f acc (vm.stack (vm.sp - 1)))
        (record vm { sp = vm.sp - 1; argnum = sub32 vm.argnum 1 }) sp argnum (omega arith) a'
        (omega arith) (omega arith))

-- A pop in a machine whose stack holds more than one value.
drop-ok :
    (vm : Vm) (sp argnum : ℕ)
    → vm.sp ≡ suc sp
    → vm.argnum ≡ suc argnum
    → sp < vm.stack_size
    → argnum + 1 < mod32
    → vm_stack_pop vm ≡ ok (vm.stack sp, record vm { sp = sp; argnum = argnum })
drop-ok vm sp argnum e a b s =
    let e' : vm.sp - 1 ≡ sp = omega arith in
    let a' : sub32 vm.argnum 1 ≡ argnum = omega arith in
    rw (vm_stack_pop-ok vm (omega arith) (omega arith), e', a')

-- `+` adds up the arguments, as tagged words.
pub vm_op_add-fold :
    (vm : Vm) (base n : ℕ)
    → IsCall vm base n
    → vm_op_add vm
      ≡ ok (
        true,
        returned vm base
            (fold (λ sum value. (sum + value) % mod64) 0 (top_values n vm.sp vm.stack)),
      )
unfolding vm_op_add
vm_op_add-fold vm base n c =
    let sp = c.sp in
    let argnum = c.argnum in
    let bound = c.bound in
    let small = c.small in
    let e : sub32 vm.argnum 1 ≡ n = omega arith in
    let f = λ (sum : ℕ) (value : Value). (sum + value) % mod64 in
    let looped = record vm { sp = suc base; argnum = 1 } in
    let dropped = record vm { sp = base; argnum = 0 } in
    rw (
      e,
      pop_loop-fold f n 0 vm (suc base) 1 (omega arith) (omega arith) bound (omega arith),
      drop-ok looped base 0 refl refl (omega arith) (omega arith),
      vm_stack_push-ok dropped (fold f 0 (top_values n vm.sp vm.stack)) (omega arith),
    )

-- `-` takes the arguments but the first from the first.
pub vm_op_sub-fold :
    (vm : Vm) (base n : ℕ)
    → IsCall vm base (suc n)
    → vm_op_sub vm
      ≡ ok (
        true,
        returned vm base (
            fold
              (λ sum value. (sum + mod64 - value) % mod64)
              (vm.stack (base + 1))
              (top_values n vm.sp vm.stack)),
      )
unfolding vm_op_sub stack_at
vm_op_sub-fold vm base n c =
    let sp = c.sp in
    let argnum = c.argnum in
    let bound = c.bound in
    let small = c.small in
    let e : sub32 vm.argnum 2 ≡ n = omega arith in
    let e₁ : (sub32 vm.sp vm.argnum + 1) % mod32 ≡ base + 1 = omega arith in
    let e₂ : ltb (base + 1) vm.stack_size ≡ true = ground arith in
    let f = λ (sum : ℕ) (value : Value). (sum + mod64 - value) % mod64 in
    let looped = record vm { sp = suc (suc base); argnum = 2 } in
    let popped = record vm { sp = suc base; argnum = 1 } in
    let dropped = record vm { sp = base; argnum = 0 } in
    rw (
      e,
      e₁,
      e₂,
      pop_loop-fold f n (vm.stack (base + 1)) vm (suc (suc base)) 2 (omega arith) (omega arith)
          bound (omega arith),
      drop-ok looped (suc base) 1 refl refl (omega arith) (omega arith),
      drop-ok popped base 0 refl refl (omega arith) (omega arith),
      vm_stack_push-ok dropped (fold f (vm.stack (base + 1)) (top_values n vm.sp vm.stack))
          (omega arith),
    )

-- `*` multiplies the integers of the arguments.
pub vm_op_mul-fold :
    (vm : Vm) (base n : ℕ)
    → IsCall vm base n
    → vm_op_mul vm
      ≡ ok (
        true,
        returned vm base (
            tag_integer (
              fold
                (λ sum value. (sum * get_integer value) % mod64)
                1
                (top_values n vm.sp vm.stack))),
      )
unfolding vm_op_mul
vm_op_mul-fold vm base n c =
    let sp = c.sp in
    let argnum = c.argnum in
    let bound = c.bound in
    let small = c.small in
    let e : sub32 vm.argnum 1 ≡ n = omega arith in
    let f = λ (sum : ℕ) (value : Value). (sum * get_integer value) % mod64 in
    let looped = record vm { sp = suc base; argnum = 1 } in
    let dropped = record vm { sp = base; argnum = 0 } in
    rw (
      e,
      pop_loop-fold f n 1 vm (suc base) 1 (omega arith) (omega arith) bound (omega arith),
      drop-ok looped base 0 refl refl (omega arith) (omega arith),
      vm_stack_push-ok dropped (tag_integer (fold f 1 (top_values n vm.sp vm.stack))) (omega arith),
    )

-- What `vm_op_div` does with its loop's result.
after_div : (Option ℕ × Vm) → Run (Bool × Vm)
after_div r = elim r.0 [
  | none ↦ ok (true, r.1)
  | some sum ↦ do
    (_, vm₂) ← vm_stack_pop r.1
    (_, vm₃) ← vm_stack_pop vm₂
    vm₄ ← vm_stack_push vm₃ (tag_integer sum)
    ok (true, vm₄)
]

quotient-branch :
    (b : Bool) (vm : Vm) (quotient : ℕ) (result : Vm)
    → after_div (some quotient, vm) ≡ ok (true, result)
    → ((if b then ok (none, vm_error vm "divide by zero!") else ok (some quotient, vm))
        >>= after_div)
      ≡ ok (true, if b then vm_error vm "divide by zero!" else result)
unfolding after_div
quotient-branch true vm quotient result h = refl
quotient-branch false vm quotient result h = h

div_branch :
    (sum temp : ℕ) (vm : Vm)
    → Path
        (Run (Option ℕ × Vm))
        (elim (temp == 0) [
          | false ↦ ok (some (sum / temp), vm)
          | true ↦ ok (none, vm_error vm "divide by zero!")
        ])
        (if temp == 0 then ok (none, vm_error vm "divide by zero!") else ok (some (sum / temp), vm))
div_branch sum temp vm = elim (Bool-cases (temp == 0)) [ inl t ↦ rw t | inr t ↦ rw t ]

div_loop-one :
    (sum temp : ℕ) (vm vm' : Vm)
    → vm_stack_pop vm ≡ ok (temp, vm')
    → div_loop 1 sum vm ≡ (
        if temp == 0
        then ok (none, vm_error vm' "divide by zero!")
        else ok (some (sum / temp), vm'))
unfolding div_loop
div_loop-one sum temp vm vm' p = rw p (div_branch sum temp vm')

-- `/` with two arguments: the tagged words are divided, and the quotient is tagged once more;
-- where the divisor is 0, the machine stops with the error.
pub vm_op_div_binary :
    (vm : Vm) (base : ℕ)
    → IsCall vm base 2
    → vm_op_div vm
      ≡ ok (
        true,
        if vm.stack (base + 2) == 0
            then vm_error (record vm { sp = base + 2; argnum = 2 }) "divide by zero!"
            else returned vm base (tag_integer (vm.stack (base + 1) / vm.stack (base + 2))),
      )
unfolding vm_op_div stack_at after_div
vm_op_div_binary vm base c =
    let sp = c.sp in
    let argnum = c.argnum in
    let bound = c.bound in
    let small = c.small in
    let e : sub32 vm.argnum 2 ≡ 1 = omega arith in
    let e₁ : (sub32 vm.sp vm.argnum + 1) % mod32 ≡ base + 1 = omega arith in
    let e₂ : ltb (base + 1) vm.stack_size ≡ true = ground arith in
    let looped = record vm { sp = (base + 2); argnum = 2 } in
    let popped = record vm { sp = (base + 1); argnum = 1 } in
    let dropped = record vm { sp = base; argnum = 0 } in
    let pop₁ = drop-ok vm (base + 2) 2 (omega arith) argnum (omega arith) (omega arith) in
    let pop₂ = drop-ok looped (base + 1) 1 (omega arith) refl (omega arith) (omega arith) in
    let pop₃ = drop-ok popped base 0 (omega arith) refl (omega arith) (omega arith) in
    let v = tag_integer (vm.stack (base + 1) / vm.stack (base + 2)) in
    let push = vm_stack_push-ok dropped v (omega arith) in
    rw (e, e₁, e₂)
      (rw (div_loop-one (vm.stack (base + 1)) (vm.stack (base + 2)) vm looped pop₁) (
        quotient-branch (vm.stack (base + 2) == 0) looped
          (vm.stack (base + 1) / vm.stack (base + 2)) (returned vm base v) (rw (pop₂, pop₃, push))))

-- The comparisons, with the second value from the top on the left.
pub compare_top-ok :
    (test : Value → Value → Bool) (vm : Vm) (base : ℕ)
    → IsCall vm base 2
    → compare_top test vm
      ≡ ok (true, returned vm base (tag_boolean (test (vm.stack (base + 1)) (vm.stack (base + 2)))))
unfolding compare_top
compare_top-ok test vm base c =
    let sp = c.sp in
    let argnum = c.argnum in
    let bound = c.bound in
    let small = c.small in
    let looped = record vm { sp = (base + 2); argnum = 2 } in
    let popped = record vm { sp = (base + 1); argnum = 1 } in
    let dropped = record vm { sp = base; argnum = 0 } in
    let pop₁ = drop-ok vm (base + 2) 2 (omega arith) argnum (omega arith) (omega arith) in
    let pop₂ = drop-ok looped (base + 1) 1 (omega arith) refl (omega arith) (omega arith) in
    let pop₃ = drop-ok popped base 0 (omega arith) refl (omega arith) (omega arith) in
    let v = tag_boolean (test (vm.stack (base + 1)) (vm.stack (base + 2))) in
    rw (pop₁, pop₂, pop₃, vm_stack_push-ok dropped v (omega arith))
