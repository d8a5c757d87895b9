-- ===== src/Vm/Builtins.antt =====
-- The call of a builtin function from the tree walker (src/vm.c): its closure's two instructions.
use nscheme.Prelude.{ℕ, refl, ap, true, some, [], get_elem?, ◌+◌, ◌%◌, ◌≡◌, ◌∷◌, if◌then◌else◌, ◌∙◌}
use nscheme.Prelude.Words.{mod32}
use nscheme.Values.{Value}
use nscheme.Run.{ok, ◌>>=◌}
use nscheme.Vm.State.{Vm, VmFunc, VmOp, RunMode, op_return}
use nscheme.Vm.Calls.{IsEvaluating, resumed, vm_call_return-resumed}
use nscheme.Vm.Arith.Loops.{IsCall, returned}
use nscheme.Vm.Ops.{vm_op_return}
use nscheme.Vm.Closures.{instr}
use nscheme.Vm.Interp.{call_func, vm_step_compiled, vm_step}

-- The machine is about to run the builtin function `func`, with n arguments, for `vm`.
pub record IsBuiltinCall (vm m : Vm) (func : VmFunc) (n : ℕ) : Type 0 where
  pub code : (m.closures m.closure).code ≡ instr func ∷ instr op_return ∷ []
  pub compiled : m.runmode ≡ RunMode.compiled
  pub first : m.ip ≡ 0
  pub evaluating : IsEvaluating vm m
  pub call : IsCall m vm.sp n

compiled_step : (m : Vm) → m.runmode ≡ RunMode.compiled → vm_step m ≡ vm_step_compiled m
unfolding vm_step
compiled_step m c = simp (c, vm_step)

pub step_at :
    (m : Vm) (code : VmOp)
    → m.runmode ≡ RunMode.compiled
    → get_elem? (m.closures m.closure).code m.ip ≡ some code
    → vm_step m ≡ (
        call_func code.func m code.arg >>= λ r.
        ok (record r.1 { ip = (r.1.ip + (if r.0 then 1 else 0)) % mod32 }))
unfolding vm_step_compiled
step_at m code c g = compiled_step m c ∙ rw (g, vm_step_compiled)

-- The first instruction.
pub builtin_first :
    (vm m : Vm) (func : VmFunc) (n : ℕ) (v : Value)
    → IsBuiltinCall vm m func n
    → call_func func m 0 ≡ ok (true, returned m vm.sp v)
    → vm_step m ≡ ok (record (returned m vm.sp v) { ip = 1 })
builtin_first vm m func n v b e =
    let g : get_elem? (m.closures m.closure).code m.ip ≡ some (instr func) =
      rw (b.code, b.first) refl in
    let ip : (m.ip + 1) % mod32 ≡ 1 = rw (b.first) refl in
    rw (step_at m (instr func) b.compiled g, e, ip) refl

-- The second, which returns.
pub builtin_second :
    (vm m : Vm) (func : VmFunc) (n : ℕ) (v : Value)
    → IsBuiltinCall vm m func n
    → vm_step (record (returned m vm.sp v) { ip = 1 })
      ≡ ok (record (resumed vm (returned m vm.sp v)) { ip = 1 })
unfolding call_func vm_op_return
builtin_second vm m func n v b =
    let second = record (returned m vm.sp v) { ip = 1 } in
    let ev = b.evaluating in
    let e : IsEvaluating vm second = record {
      frames = ev.frames;
      frame = ev.frame;
      small = ev.small;
      counted = ev.counted;
    } in
    let g : get_elem? (m.closures m.closure).code 1 ≡ some (instr op_return) = rw (b.code) refl in
    rw (step_at second (instr op_return) b.compiled g)
      (rw (vm_call_return-resumed vm second e) refl)

-- Where the operation leaves a value in place of the call, the second instruction hands it to the
-- frame below, which goes on as if it had pushed that value.
pub builtin-resumed :
    (vm m : Vm) (func : VmFunc) (n : ℕ) (v : Value)
    → IsBuiltinCall vm m func n
    → call_func func m 0 ≡ ok (true, returned m vm.sp v)
    → (vm_step m >>= vm_step) ≡ ok (record (resumed vm (returned m vm.sp v)) { ip = 1 })
builtin-resumed vm m func n v b e =
    ap (λ s. s >>= vm_step) (builtin_first vm m func n v b e) ∙ builtin_second vm m func n v b
