-- ===== src/Compiler/Code.antt =====
-- src/compiler.c: the instructions for the expressions of a closure's body.
use nscheme.Prelude.{
  ℕ, zero, suc, Bool, true, false, Option, none, some, List, [], length, ◌+◌, ◌%◌, ◌&&◌, ◌∷◌, ◌==◌,
  if◌then◌else◌,
}
use nscheme.Prelude.Words.{mod32}
use nscheme.Values.{Value, Ptr, Pair, is_pair, get_pair, scm_type_null}
use nscheme.Run.{Run, ok, fault, out_of_fuel, ◌>>=◌}
use nscheme.Vm.State.{
  VmFunc, VmOp, op_do_call, op_do_tailcall, op_jump_if_false, op_jump, op_push_const,
  op_closure_ref, op_stack_ref, op_return_last,
}
use nscheme.Env.{NodeRef}
use nscheme.Compiler.State.{
  InstrType, InstrNode, ClosureNode, ScopeType, ScopeNode, CompNode, CompState, null, comp_node,
  instr_none, instr_do_call, instr_do_tailcall, instr_jump_if_false, instr_jump,
  instr_push_constant, instr_closure_ref, instr_stack_ref, instr_return, scope_parameter,
  scope_local, scope_closure, scope_mutable_parameter, scope_mutable_local, add_instr_node,
  is_if_statement, is_define_statement, is_begin_statement,
}

-- The `switch` of `compile_value`.
unfoldable pub compile_ref : CompState → ScopeType → ℕ → CompState
unfolding add_instr_node
compile_ref state scope_parameter loc = add_instr_node state instr_stack_ref loc
compile_ref state scope_local loc = add_instr_node state instr_stack_ref loc
compile_ref state scope_closure loc = add_instr_node state instr_closure_ref loc
compile_ref state scope_mutable_parameter loc = state
compile_ref state scope_mutable_local loc = state

unfoldable pub compile_value : CompState → Value → Option ScopeNode → CompState
unfolding compile_ref add_instr_node
compile_value state value sn =
    let state' : CompState = elim sn [
      | some n ↦ compile_ref state n.type n.location
      | none ↦ add_instr_node state instr_push_constant value
    ] in
    record state' { stack_ptr = (state'.stack_ptr + 1) % mod32 }

-- `node->op = op` for the instruction at an index.
unfoldable pub set_op : List InstrNode → ℕ → ℕ → List InstrNode
set_op [] i op = []
set_op (n ∷ nodes) zero op = record n { op = op } ∷ nodes
set_op (n ∷ nodes) (suc i) op = n ∷ set_op nodes i op

-- `cdr && cdr->value == SCM_TYPE_NULL`
unfoldable pub ends_list : CompNode → Bool
ends_list null = false
ends_list (comp_node car cdr value sn) = value == scm_type_null

-- The jumps around the two branches of a conditional: `before` is the state behind the test, where
-- `false_jump` goes, `first` and `second` compile the branches. `sp` is the stack at the start.
unfoldable pub compile_branches :
    ℕ → CompState → (CompState → Run CompState) → (CompState → Run CompState) → Run CompState
unfolding add_instr_node set_op
compile_branches sp before first second = do
  let state₁ = add_instr_node before instr_jump_if_false 0
  state₂ ← first (record state₁ { stack_ptr = sp })
  let state₃ = add_instr_node state₂ instr_jump 0
  state₄ ← second (record state₃ { stack_ptr = sp })
  ok (record state₄ {
    instrs =
        set_op (set_op state₄.instrs before.instr_ptr state₃.instr_ptr) state₂.instr_ptr
          state₄.instr_ptr;
  })

-- `compile_car` is the body of the loop of `compile_expression_list`, for `comp->car`; `last` says
-- whether it ends the list. A list of one, which the source puts around each part of a conditional
-- (`codebuf`), is its body for that part. The list that a call compiles is `comp->car` itself.
unfoldable mutual
  pub compile_expression_list : CompState → CompNode → (tail : Bool) → Run CompState
  compile_expression_list state null tail = ok state
  compile_expression_list state (comp_node car cdr value sn) tail = do
    state' ← compile_car state car (ends_list cdr) tail
    compile_expression_list state' cdr tail

  pub compile_car : CompState → CompNode → (last tail : Bool) → Run CompState
  compile_car state null last tail = ok state
  compile_car state (comp_node car cdr value sn) last tail =
      let node = comp_node car cdr value sn in
      let is_tail_call = tail && last in
      let sp = state.stack_ptr in
      elim (is_pair value) [
        | false ↦ ok (compile_value state value sn)
        | true ↦ do
          state' ← elim (is_if_statement state.envs state.env node) [
            | true ↦ compile_if_expression state cdr is_tail_call
            | false ↦ elim (is_define_statement state.envs state.env node) [
              | true ↦ compile_definition state cdr
              | false ↦ elim (is_begin_statement state.envs state.env node) [
                | true ↦ compile_expression_list state cdr is_tail_call
                | false ↦ do
                  state₁ ← compile_car state car (ends_list cdr) false
                  state₂ ← compile_expression_list state₁ cdr false
                  ok (
                      add_instr_node state₂
                        (if is_tail_call then instr_do_tailcall else instr_do_call) sp)
              ]
            ]
          ]
          ok (record state' { stack_ptr = (sp + 1) % mod32 })
      ]

  -- `comp->car->cdr->cdr`, from `comp->car->cdr`
  pub compile_definition : CompState → CompNode → Run CompState
  compile_definition state null = fault
  compile_definition state (comp_node name body value sn) = compile_expression_list state body false

  -- From `comp->cdr`.
  pub compile_if_expression : CompState → CompNode → (tail : Bool) → Run CompState
  compile_if_expression state
        (comp_node test (comp_node first (comp_node second d v₂ n₂) v₁ n₁) v₀ n₀) tail =
      do
        before ← compile_car state test true false
        compile_branches state.stack_ptr before (λ s. compile_car s first true tail)
            (λ s. compile_car s second true tail)
  compile_if_expression state _ tail = fault

-- The code of the body, once its scopes are known.
unfoldable pub compile_body : CompState → CompNode → Run CompState
unfolding compile_expression_list add_instr_node
compile_body state values = do
  state' ← compile_expression_list state values true
  ok (add_instr_node state' instr_return 0)

-- `closures[i--] = temp->var_ref`, from the newest down.
unfoldable pub closed_refs : List ClosureNode → List NodeRef → List NodeRef
closed_refs [] refs = refs
closed_refs (temp ∷ next) refs = closed_refs next (temp.var_ref ∷ refs)

-- `opfuncs`; the first is `NULL`.
unfoldable pub op_func : InstrType → Run VmFunc
op_func instr_none = fault
op_func instr_do_call = ok op_do_call
op_func instr_do_tailcall = ok op_do_tailcall
op_func instr_jump_if_false = ok op_jump_if_false
op_func instr_jump = ok op_jump
op_func instr_push_constant = ok op_push_const
op_func instr_closure_ref = ok op_closure_ref
op_func instr_stack_ref = ok op_stack_ref
op_func instr_return = ok op_return_last

unfoldable pub store_instructions : List InstrNode → Run (List VmOp)
unfolding op_func
store_instructions [] = ok []
store_instructions (node ∷ next) = do
  func ← op_func node.instr
  code ← store_instructions next
  ok (record { func = func; arg = node.op } ∷ code)

unfoldable pub wrap_comp_values : ℕ → (Ptr → Pair) → Value → Run CompNode
unfolding is_pair get_pair
wrap_comp_values zero pairs value = out_of_fuel
wrap_comp_values (suc k) pairs value = elim (is_pair value) [
  | false ↦ ok (comp_node null null value none)
  | true ↦ do
    car ← wrap_comp_values k pairs (pairs (get_pair value)).car
    cdr ← wrap_comp_values k pairs (pairs (get_pair value)).cdr
    ok (comp_node car cdr value none)
]

-- The loop over the pairs of a list.
unfoldable pub list_length : ℕ → (Ptr → Pair) → Value → Run ℕ
unfolding is_pair get_pair
list_length zero pairs value = out_of_fuel
list_length (suc k) pairs value = elim (is_pair value) [
  | false ↦ ok 0
  | true ↦ do length ← list_length k pairs (pairs (get_pair value)).cdr; ok ((length + 1) % mod32)
]
