-- ===== src/Compiler/Computes.antt =====
-- Compiled code (src/compiler.c) on the machine: it computes what the expression means.
use nscheme.Prelude.{
  ℕ, refl, ap, inl, inr, true, false, Option, none, some, arith, ltb, Bool-cases, Option-cases,
  get_elem?, ◌+◌, ◌%◌, ◌<◌, ◌≡◌, ◌∷◌, ◌++◌, ◌==◌, if◌then◌else◌, ◌∙◌,
}
use nscheme.Prelude.Words.{mod32, mod64, sub32}
use nscheme.Values.{Value, tag_boolean}
use nscheme.Run.{ok, ◌>>=◌}
use nscheme.Vm.State.{op_jump, op_jump_if_false, Vm, stack_at, vm_stack_push}
use nscheme.Vm.Ops.{vm_op_push_const, vm_op_stack_ref, vm_op_closure_ref}
use nscheme.Vm.Interp.{call_func}
use nscheme.Vm.Reaches.{Reaches-trans, Reaches-same}
use nscheme.Compiler.State.{instr_jump, instr_jump_if_false}
use nscheme.Compiler.Code.{op_func}
use nscheme.Compiler.Expr.{
  Expr, constant, stack_value, closed_value, conditional, size, code, length-code, instr_node,
}
use nscheme.Compiler.Values.{value, choose, value-above, op_of, IsStored, IsStored-append}
use nscheme.Compiler.Runs.{
  IsAt, behind, Computes, between, push-Computes, test-Reaches, jump-Reaches, branch-Computes,
}

-- A read of the frame.
stack_ref-ok :
    (vm : Vm) (base i : ℕ)
    → vm.sp ≡ base + vm.argnum
    → base + i < vm.sp
    → vm.sp < vm.stack_size
    → vm.stack_size < mod32
    → vm_op_stack_ref vm i ≡ (
        vm_stack_push vm (vm.stack ((sub32 vm.sp vm.argnum + i) % mod64)) >>= λ vm'. ok (true, vm'))
unfolding vm_op_stack_ref stack_at
stack_ref-ok vm base i f h r s =
    let e : ltb ((sub32 vm.sp vm.argnum + i) % mod64) vm.stack_size ≡ true = ground arith in
    rw e refl

closed_cases :
    (vm : Vm) (i : ℕ) (v : Value)
    → value vm (closed_value i) ≡ some v
    → vm_op_closure_ref vm i ≡ (vm_stack_push vm v >>= λ vm'. ok (true, vm'))
unfolding value vm_op_closure_ref
closed_cases vm i v h = elim (Option-cases (get_elem? (vm.closures vm.closure).closures i)) [
  | inl e ↦ (let h' = rw (e, value) at h in cc)
  | inr (var, e) ↦ (let h' = rw (e, value) at h in rw (vm_op_closure_ref, e, h') refl)
]

-- Where the parts of a conditional are stored.
abbrev StoredParts : Vm → (c t f : Expr) → Type 0
StoredParts vm c t f =
    let stored = (vm.closures vm.closure).code in
    let pc = vm.ip in
    IsStored stored pc (code pc c)
    × (get_elem? stored (pc + size c)
        ≡ some (record { func = op_jump_if_false; arg = pc + size c + 1 + size t + 1 }))
    × IsStored stored (pc + size c + 1) (code (pc + size c + 1) t)
    × (get_elem? stored (pc + size c + 1 + size t)
        ≡ some (record { func = op_jump; arg = pc + size (conditional c t f) }))
    × IsStored stored (pc + size c + 1 + size t + 1) (code (pc + size c + 1 + size t + 1) f)

stored_parts :
    (vm : Vm) (c t f : Expr)
    → IsStored (vm.closures vm.closure).code vm.ip (code vm.ip (conditional c t f))
    → StoredParts vm c t f
unfolding op_of op_func
stored_parts vm c t f s =
    let pc = vm.ip in
    let stored = (vm.closures vm.closure).code in
    let C = code pc c in
    let T = code (pc + size c + 1) t in
    let F = code (pc + size c + 1 + size t + 1) f in
    let jump = instr_node instr_jump (pc + size (conditional c t f)) in
    let jif = instr_node instr_jump_if_false (pc + size c + 1 + size t + 1) in
    let (sc, rest) = IsStored-append stored pc C (jif ∷ (T ++ jump ∷ F)) s in
    let (gj, rest') = rw (length-code pc c) at rest in
    let (st, rest'') = IsStored-append stored (pc + size c + 1) T (jump ∷ F) rest' in
    let (gk, sf) = rw (length-code (pc + size c + 1) t) at rest'' in (sc, gj, st, gk, sf)

choose_cases :
    (o p q : Option Value) (w : Value)
    → choose o p q ≡ some w
    → (v : Value) × (o ≡ some v) × ((if v == tag_boolean false then q else p) ≡ some w)
unfolding choose
choose_cases none p q w h = cc
choose_cases (some v) p q w h = (v, refl, h)

-- The code for an expression without calls, run in a frame that the expression stays within, pushes
-- what the expression means in the frame, within as many rounds as it has instructions, and leaves
-- everything else of the machine as it was, but for the instruction pointer, which stands behind it,
-- and for the cells above the stack.
pub code-Computes :
    (e : Expr) (vm : Vm) (base : ℕ) (v : Value)
    → IsAt vm base e
    → value vm e ≡ some v
    → Computes vm e v
unfolding value op_of op_func call_func vm_op_push_const
code-Computes (constant v) vm base w s e =
    let d : v ≡ w = cc in
    let room = s.room in
    let frame = s.frame in
    let small = s.small in
    push-Computes vm (constant v) w _ refl s.running s.compiled room (omega arith) s.end_small
      s.stored.0 (ap (λ x. vm_stack_push vm x >>= λ vm'. ok (true, vm')) d)
code-Computes (stack_value i) vm base w s e =
    let d : vm.stack ((sub32 vm.sp vm.argnum + i) % mod64) ≡ w = cc in
    let room = s.room in
    let frame = s.frame in
    let small = s.small in
    push-Computes vm (stack_value i) w _ refl s.running s.compiled room (omega arith) s.end_small
      s.stored.0
      (stack_ref-ok vm base i frame s.within room small
        ∙ ap (λ x. vm_stack_push vm x >>= λ vm'. ok (true, vm')) d)
code-Computes (closed_value i) vm base w s e =
    let room = s.room in
    let frame = s.frame in
    let small = s.small in
    push-Computes vm (closed_value i) w _ refl s.running s.compiled room (omega arith) s.end_small
      s.stored.0 (closed_cases vm i w e)
code-Computes (conditional c t f) vm base w s e =
    let room = s.room in
    let frame = s.frame in
    let small = s.small in
    let within = s.within in
    let pc = vm.ip in
    let bound = s.end_small in
    let (vc, ec, branch) = choose_cases (value vm c) (value vm t) (value vm f) w e in
    let (sc, gj, st, gk, sf) = stored_parts vm c t f s.stored in
    let (stack, (top, below), run) =
      code-Computes c vm base vc
        (record {
          running = s.running;
          compiled = s.compiled;
          frame = frame;
          room = room;
          small = small;
          within = within.0;
          stored = sc;
          end_small = omega arith;
        })
        ec in
    let tested =
      test-Reaches vm (pc + size c) (pc + size c + 1 + size t + 1) stack s.running s.compiled room
        (omega arith) (omega arith) (omega arith) gj in
    let to_branch = Reaches-trans vm (behind vm c stack) _ (size c) 1 run (rw top at tested) in
    elim (Bool-cases (vc == tag_boolean false)) [
      | inl y ↦
          (let ip = pc + size c + 1 + size t + 1 in
            let m = between vm ip stack in
            let value_f =
              value-above vm f base ip stack frame (omega arith) within.2 below
              ∙ (rw y at branch) in
            let second =
              code-Computes f m base w
                (record {
                  running = s.running;
                  compiled = s.compiled;
                  frame = frame;
                  room = room;
                  small = small;
                  within = within.2;
                  stored = sf;
                  end_small = omega arith;
                })
                value_f in
            let end : ip + size f ≡ pc + size (conditional c t f) = omega arith in
            let over = λ (stack' : ℕ → Value).
              Reaches-same (behind m f stack') (behind vm (conditional c t f) stack')
                (ap (λ q. record (behind m f stack') { ip = q }) end) in
            branch-Computes vm (conditional c t f) f w ip (size c + 1) 0 stack below
              (rw y at to_branch) second over (omega arith))
      | inr n ↦
          (let ip = pc + size c + 1 in
            let m = between vm ip stack in
            let value_t =
              value-above vm t base ip stack frame (omega arith) within.1 below
              ∙ (rw n at branch) in
            let first =
              code-Computes t m base w
                (record {
                  running = s.running;
                  compiled = s.compiled;
                  frame = frame;
                  room = room;
                  small = small;
                  within = within.1;
                  stored = st;
                  end_small = omega arith;
                })
                value_t in
            let over = λ (stack' : ℕ → Value).
              jump-Reaches (behind m t stack') (pc + size (conditional c t f)) s.running s.compiled
                bound gk in
            branch-Computes vm (conditional c t f) t w ip (size c + 1) 1 stack below
              (rw n at to_branch) first over (omega arith))
    ]
