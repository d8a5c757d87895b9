-- ===== src/Vm/Calls.antt =====
-- Frames of the tree walker (include/nscheme/vm_ops.h): evaluating a part of an expression, and
-- coming back from it.
use nscheme.Prelude.{suc, ap, true, false, arith, ltb, ◌+◌, ◌-◌, ◌%◌, ◌≤◌, ◌<◌, ◌≡◌}
use nscheme.Prelude.Words.{mod32, sub32}
use nscheme.Values.{Value}
use nscheme.Memory.{update}
use nscheme.Run.{ok}
use nscheme.Vm.State.{Vm, CallFrame, RunMode, stack_set, vm_call_eval, vm_call_return, restore_mode}
use nscheme.Vm.Stack.{vm_stack_pop-ok}
use nscheme.Vm.Ops.{vm_op_return_last}

-- What `vm_call_eval` saves of the machine.
abbrev pub saved : Vm → CallFrame
saved vm = record (vm.calls vm.callp) {
  closure = vm.closure;
  sp = vm.sp;
  argnum = vm.argnum;
  runmode = RunMode.interp;
  ptr = vm.ptr;
  env = vm.env;
}

-- The machine `m` is at work on a part of an expression for `vm`, directly above its frame.
pub record IsEvaluating (vm m : Vm) : Type 0 where
  pub frames : m.callp ≡ suc vm.callp
  pub frame : m.calls vm.callp ≡ saved vm
  pub small : vm.sp + 1 < mod32
  pub counted : vm.argnum + 1 < mod32

-- The machine `m` when `vm` goes on, with one more operand.
abbrev pub resumed : Vm → Vm → Vm
resumed vm m = record m {
  callp = vm.callp;
  sp = vm.sp + 1;
  argnum = vm.argnum + 1;
  closure = vm.closure;
  runmode = RunMode.interp;
  ptr = vm.ptr;
  env = vm.env;
}

pub vm_call_return-resumed : (vm m : Vm) → IsEvaluating vm m → vm_call_return m ≡ resumed vm m
unfolding vm_call_return restore_mode
vm_call_return-resumed vm m e =
    let frames = e.frames in
    let small = e.small in
    let counted = e.counted in
    let some_frame : ltb 0 m.callp ≡ true = ground arith in
    let p : m.callp - 1 ≡ vm.callp = omega arith in
    let e₁ : (vm.sp + 1) % mod32 ≡ vm.sp + 1 = omega arith in
    let e₂ : (vm.argnum + 1) % mod32 ≡ vm.argnum + 1 = omega arith in
    rw (some_frame, p) (rw (e.frame) (rw (e₁, e₂)))

-- The machine that starts on a part of an expression.
abbrev pub started : Vm → Value → Vm
started vm expr = record vm {
  calls = update vm.calls vm.callp (saved vm);
  callp = vm.callp + 1;
  argnum = 0;
  ptr = expr;
}

-- Below the limit of frames, `vm_call_eval` leaves a machine that is at work on the expression for
-- this one, with no operand yet.
pub vm_call_eval-IsEvaluating :
    (vm : Vm) (expr : Value)
    → vm.callp < vm.calls_size
    → vm.sp + 1 < mod32
    → vm.argnum + 1 < mod32
    → (vm_call_eval vm expr ≡ ok (started vm expr)) × IsEvaluating vm (started vm expr)
unfolding vm_call_eval
vm_call_eval-IsEvaluating vm expr h s a =
    let e : ltb vm.callp vm.calls_size ≡ true = ground arith in
    (rw e, record { frames = omega arith; frame = ground arith; small = s; counted = a })

-- `return_last` hands the value on top of the stack to the frame below, which goes on as if it had
-- pushed that value where its part of the stack ends.
pub vm_op_return_last-resumed :
    (vm m : Vm)
    → IsEvaluating vm m
    → m.sp ≡ vm.sp + m.argnum
    → 0 < m.argnum
    → m.sp ≤ m.stack_size
    → m.stack_size < mod32
    → vm_op_return_last m
      ≡ ok (false, resumed vm (record m { stack = update m.stack vm.sp (m.stack (m.sp - 1)) }))
unfolding vm_op_return_last stack_set
vm_op_return_last-resumed vm m e s n b w =
    let e₁ : sub32 (m.sp - 1) (sub32 m.argnum 1) ≡ vm.sp = omega arith in
    let e₂ : ltb vm.sp m.stack_size ≡ true = ground arith in
    let popped = record m {
      sp = m.sp - 1;
      argnum = sub32 m.argnum 1;
      stack = update m.stack vm.sp (m.stack (m.sp - 1));
    } in
    rw (vm_stack_pop-ok m (omega arith) b, e₁, e₂)
      (ap (λ r. ok (false, r))
        (vm_call_return-resumed vm popped
          (record { frames = e.frames; frame = e.frame; small = e.small; counted = e.counted })))
