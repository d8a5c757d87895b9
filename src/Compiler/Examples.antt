-- ===== src/Compiler/Examples.antt =====
-- The theorems on the compiler at the body (if x y 1) of a closure with the parameters y and x, which
-- is called with 20 and 6. The symbol `if` is 4 here.
use nscheme.Prelude.{
  ℕ, refl, true, Option, none, some, List, [], arith, ◌+◌, ◌*◌, ◌≤◌, ◌≡◌, ◌⊎◌, ◌∷◌, ◌++◌,
}
use nscheme.Memory.{update}
use nscheme.Run.{ok}
use nscheme.Values.{
  Ptr, Pair, Value, scm_type_null, run_type_if, tag_symbol, tag_pair, tag_integer, tag_boolean,
  tag_run_type, is_pair, is_symbol,
}
use nscheme.Env.{Envs, node, null, env_find_recurse, find_node, node_value}
use nscheme.Vm.State.{
  Vm, VmOp, RunMode, op_stack_ref, op_jump_if_false, op_jump, op_push_const, op_return_last,
}
use nscheme.Vm.Calls.{saved, resumed}
use nscheme.Vm.Init.{no_closure}
use nscheme.Vm.Reaches.{Reaches}
use nscheme.Vm.Walks.{walking}
use nscheme.Compiler.State.{
  CompNode, CompState, ScopeNode, comp_node, scope_parameter, instr_return, is_if_statement,
  is_run_statement, is_runtime_token,
}
use nscheme.Compiler.Code.{compile_car, compile_body, op_func, store_instructions}
use nscheme.Compiler.Expr.{
  Expr, constant, stack_value, conditional, code, instr_node, compiled, Reads, reads_if,
  reads_parameter, reads_constant,
}
use nscheme.Compiler.Correct.{body_of, compile_car-code, compile_body-code}
use nscheme.Compiler.Values.{value, choose, op_of}
use nscheme.Compiler.Runs.{Computes}
use nscheme.Compiler.Computes.{code-Computes}
use nscheme.Compiler.Calls.{IsCompiledCall, compiled_call}

-- `tag_symbol` of the address 16, and `tag_pair` of the address 32.
abbrev if_symbol : Value
if_symbol = tag_symbol 16

abbrev some_pair : Value
some_pair = tag_pair 32

abbrev if_env : Envs
if_env = record { root = node if_symbol (tag_run_type run_type_if) null null; last = 0 } ∷ []

abbrev leaf : Value → Option ScopeNode → CompNode
leaf v sn = comp_node CompNode.null CompNode.null v sn

abbrev parameter_node : ℕ → CompNode
parameter_node i =
    leaf (tag_symbol (16 * i + 48))
      (some (record { sym = tag_symbol (16 * i + 48); type = scope_parameter; location = i }))

abbrev if_node : CompNode
if_node =
    comp_node (leaf if_symbol none)
      (comp_node (parameter_node 2)
        (comp_node (parameter_node 1)
          (comp_node (leaf (tag_integer 1) none) (leaf scm_type_null none) some_pair none) some_pair
          none)
        some_pair none)
      some_pair none

abbrev if_expr : Expr
if_expr = conditional (stack_value 2) (stack_value 1) (constant (tag_integer 1))

if_node-Reads : Reads if_env 1 if_node if_expr
unfolding is_pair is_if_statement is_run_statement is_runtime_token is_symbol env_find_recurse
    find_node node_value tag_run_type tag_symbol tag_pair tag_integer
if_node-Reads =
    reads_if refl refl (reads_parameter refl) (reads_parameter refl) (reads_constant refl)

abbrev empty_state : CompState
empty_state = record {
  envs = if_env;
  env = 1;
  closed_vars = [];
  instrs = [];
  stack_ptr = 3;
  closure_ptr = 0;
  instr_ptr = 0;
}

compile_car-code_example :
    compile_car empty_state if_node true true ≡ ok (compiled empty_state if_expr)
compile_car-code_example =
    compile_car-code if_env 1 empty_state true true if_node-Reads refl refl refl (omega arith)

compile_body-code_example :
    compile_body empty_state (body_of if_node some_pair)
    ≡ ok (record (compiled empty_state if_expr) {
      instrs = code 0 if_expr ++ instr_node instr_return 0 ∷ [];
      instr_ptr = 6;
    })
compile_body-code_example =
    compile_body-code if_env 1 if_expr empty_state some_pair if_node-Reads refl refl refl refl
      (omega arith)

abbrev if_ops : List VmOp
if_ops =
    record { func = op_stack_ref; arg = 2 }
    ∷ record { func = op_jump_if_false; arg = 4 }
    ∷ record { func = op_stack_ref; arg = 1 }
    ∷ record { func = op_jump; arg = 5 }
    ∷ record { func = op_push_const; arg = tag_integer 1 }
    ∷ record { func = op_return_last; arg = 0 }
    ∷ []

-- The machine that the caller enters the closure with, over a stack with the function at the bottom.
abbrev callee : Vm
callee = record walking {
  ip = 0;
  sp = 4;
  argnum = 3;
  callp = 1;
  runmode = RunMode.compiled;
  stack = update (update walking.stack 2 (tag_integer 20)) 3 (tag_integer 6);
  calls = update walking.calls 0 (saved walking);
  closures = λ p. record no_closure { code = if_ops; compiled = true };
}

callee_value : value callee if_expr ≡ some (tag_integer 20)
unfolding value choose tag_integer tag_boolean
callee_value = refl

code-Computes_example : Computes callee if_expr (tag_integer 20)
unfolding op_of op_func tag_integer
code-Computes_example =
    code-Computes if_expr callee 1 (tag_integer 20)
      (record {
        running = refl;
        compiled = refl;
        frame = refl;
        room = omega arith;
        small = omega arith;
        within = (omega arith, omega arith, tt);
        stored = (refl, (refl, (refl, (refl, (refl, tt)))));
        end_small = omega arith;
      })
      callee_value

callee-IsCompiledCall : IsCompiledCall walking callee if_expr
unfolding store_instructions op_func tag_integer
callee-IsCompiledCall = record {
  running = refl;
  compiled = refl;
  first = refl;
  frame = refl;
  room = omega arith;
  small = omega arith;
  within = (omega arith, omega arith, tt);
  short = omega arith;
  stored = refl;
  evaluating = record { frames = refl; frame = refl; small = omega arith; counted = omega arith };
}

compiled_call_example :
    (stack : ℕ → Value) × (stack 1 ≡ tag_integer 20)
    × ((i : ℕ) → (1 ≤ i) ⊎ (stack i ≡ callee.stack i))
    × Reaches 6 callee (resumed walking (record callee { ip = 5; stack = stack }))
compiled_call_example =
    compiled_call walking callee if_expr (tag_integer 20) callee-IsCompiledCall callee_value

-- An environment that binds the symbol at 64 too, and a body with that name and the
-- second parameter's.
abbrev closing_state : CompState
closing_state = record empty_state {
  envs =
      record {
        root =
            node if_symbol (tag_run_type run_type_if) null
              (node (tag_symbol 64) (tag_integer 7) null null);
        last = 0;
      }
      ∷ [];
}

-- The list of the symbols at 48 and 80, at the addresses 32 and 96.
abbrev parameters : Ptr → Pair
parameters =
    update (λ p. record { car = tag_symbol 48; cdr = tag_pair 96 }) 96
      (record { car = tag_symbol 80; cdr = scm_type_null })

abbrev parameter_names : List Value
parameter_names = tag_symbol 48 ∷ tag_symbol 80 ∷ []

abbrev closing_body : CompNode
closing_body =
    comp_node (leaf (tag_symbol 80) none)
      (comp_node (leaf (tag_symbol 64) none) (leaf scm_type_null none) some_pair none) some_pair
      none
