-- ===== src/Compiler/Calls.antt =====
-- Calls of compiled closures (src/compiler.c, src/vm_ops.c) by the tree walker.
use mathlib.Core.List.{append_assoc}
use native.Mathlib.Decide.{dec_lt}
use nscheme.Prelude.{
  ℕ, refl, sym, inl, inr, true, false, some, List, [], arith, length, length-append, get_elem?, ◌+◌,
  ◌-◌, ◌%◌, ◌≤◌, ◌<◌, ◌≡◌, ◌⊎◌, ◌∷◌, ◌++◌, ◌∙◌,
}
use nscheme.Prelude.Words.{mod32}
use nscheme.Values.{Value}
use nscheme.Memory.{update}
use nscheme.Run.{ok, fault, panic, out_of_fuel, Run, ◌>>=◌}
use nscheme.Vm.State.{Vm, VmOp, VmFunc, RunMode, op_return_last}
use nscheme.Vm.Calls.{IsEvaluating, resumed, vm_op_return_last-resumed}
use nscheme.Vm.Interp.{call_func}
use nscheme.Vm.Reaches.{Reaches, Reaches-trans, Reaches-instr}
use nscheme.Compiler.State.{InstrNode, instr_return}
use nscheme.Compiler.Code.{op_func, store_instructions}
use nscheme.Compiler.Expr.{Expr, size, code, length-code, instr_node}
use nscheme.Compiler.Values.{value, op_of, IsWithin, IsStored, IsStored-append}
use nscheme.Compiler.Runs.{behind}
use nscheme.Compiler.Computes.{code-Computes}

bind_ok :
    {A B : Type 0} (r : Run A) (f : A → Run B) (y : B)
    → (r >>= f) ≡ ok y
    → (x : A) × (r ≡ ok x) × (f x ≡ ok y)
bind_ok (ok x) f y e = (x, refl, e)
bind_ok fault f y e = cc
bind_ok panic f y e = cc
bind_ok out_of_fuel f y e = cc

get_elem?-behind :
    (pre ops : List VmOp) (op : VmOp) → get_elem? (pre ++ op ∷ ops) (length pre) ≡ some op
get_elem?-behind [] ops op = refl
get_elem?-behind (x ∷ pre) ops op = get_elem?-behind pre ops op

IsStored-instr :
    (pre rest ops : List VmOp) (n : InstrNode) (ns : List InstrNode) (f : VmFunc)
    → op_func n.instr ≡ ok f
    → record { func = f; arg = n.op } ∷ rest ≡ ops
    → IsStored
        ((pre ++ record { func = f; arg = n.op } ∷ []) ++ rest)
        (length (pre ++ record { func = f; arg = n.op } ∷ []))
        ns
    → IsStored (pre ++ ops) (length pre) (n ∷ ns)
unfolding op_of
IsStored-instr pre rest ops n ns f g d later =
    let op : VmOp = record { func = f; arg = n.op } in
    let shape : (pre ++ op ∷ []) ++ rest ≡ pre ++ op ∷ rest = simp append_assoc in
    let l : length (pre ++ op ∷ []) ≡ length pre + 1 = omega (arith, length-append pre (op ∷ [])) in
    let later' = rw (shape, d, l) at later in
    (rw (sym d) (get_elem?-behind pre rest op ∙ rw (g, op_of) refl), later')

-- Where `store_instructions` succeeds, the closure has the instructions of the list in their order.
pub store_instructions-IsStored :
    (pre : List VmOp) (ns : List InstrNode) (ops : List VmOp)
    → store_instructions ns ≡ ok ops
    → IsStored (pre ++ ops) (length pre) ns
unfolding store_instructions
store_instructions-IsStored pre [] ops e = tt
store_instructions-IsStored pre (n ∷ ns) ops e =
    let (f, g, e₁) = bind_ok (op_func n.instr) _ ops e in
    let (rest, h, e₂) = bind_ok (store_instructions ns) _ ops e₁ in
    let d : record { func = f; arg = n.op } ∷ rest ≡ ops = cc in
    IsStored-instr pre rest ops n ns f g d
      (store_instructions-IsStored (pre ++ record { func = f; arg = n.op } ∷ []) ns rest h)

-- The machine `m` enters, for `vm`, a compiled closure whose body is `e`.
pub record IsCompiledCall (vm m : Vm) (e : Expr) : Type 0 where
  pub running : m.running ≡ true
  pub compiled : m.runmode ≡ RunMode.compiled
  pub first : m.ip ≡ 0
  pub frame : m.sp ≡ vm.sp + m.argnum
  pub room : m.sp < m.stack_size
  pub small : m.stack_size < mod32
  pub within : IsWithin vm.sp m.sp e
  pub short : size e + 1 < mod32
  pub stored :
      store_instructions (code 0 e ++ instr_node instr_return 0 ∷ [])
      ≡ ok (m.closures m.closure).code
  pub evaluating : IsEvaluating vm m

-- A compiled closure whose body is an expression without calls, entered for a frame of the tree
-- walker, hands what the body means to that frame within as many rounds as it has instructions: the
-- frame goes on as if it had pushed the value where its part of the stack ends, and what stands below
-- is as it was.
pub compiled_call :
    (vm m : Vm) (e : Expr) (v : Value)
    → IsCompiledCall vm m e
    → value m e ≡ some v
    → (stack : ℕ → Value) × (stack vm.sp ≡ v)
      × ((i : ℕ) → (vm.sp ≤ i) ⊎ (stack i ≡ m.stack i))
      × Reaches (size e + 1) m (resumed vm (record m { ip = size e; stack = stack }))
unfolding call_func op_of op_func
compiled_call vm m e v c h =
    let first = c.first in
    let room = c.room in
    let frame = c.frame in
    let small = c.small in
    let short = c.short in
    let ops = (m.closures m.closure).code in
    let ret = instr_node instr_return 0 in
    let all = store_instructions-IsStored [] (code 0 e ++ ret ∷ []) ops c.stored in
    let (stored, last) = IsStored-append ops 0 (code 0 e) (ret ∷ []) all in
    let (stack, (top, below), run) =
      code-Computes e m vm.sp v
        (record {
          running = c.running;
          compiled = c.compiled;
          frame = frame;
          room = room;
          small = small;
          within = c.within;
          stored = rw first stored;
          end_small = omega arith;
        })
        h in
    let b = behind m e stack in
    let ev = c.evaluating in
    let back =
      vm_op_return_last-resumed vm b
        (record { frames = ev.frames; frame = ev.frame; small = ev.small; counted = ev.counted })
        (omega arith) (omega arith) (omega arith) small in
    let g : get_elem? ops (m.ip + size e) ≡ some (record { func = op_return_last; arg = 0 }) =
      rw (first) (rw (length-code 0 e) at last).0 in
    let end = m.ip + size e in
    let handed = update stack vm.sp (stack m.sp) in
    let top' : m.sp + 1 - 1 ≡ m.sp = omega arith in
    let back' = rw top' at back in
    let step = Reaches-instr b _ _ false c.running c.compiled g back' in
    let ip : (m.ip + size e + 0) % mod32 ≡ size e = omega arith in
    let step' = rw ip at step in
    (
      handed,
      (ground arith),
      (λ i. elim (dec_lt i vm.sp) [
        | no n ↦ inl (omega arith)
        | yes l ↦ elim (below i) [ inl k ↦ absurd (omega arith) | inr d ↦ inr (ground arith) ]
      ]),
      Reaches-trans m b _ (size e) 1 run step',
    )
