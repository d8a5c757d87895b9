-- ===== src/Compiler.antt =====
-- src/compiler.c: compiling a closure. Scopes (src/scope.c) stand in Compiler/Scope.antt and the code
-- for expressions in Compiler/Code.antt.
pub mod State
pub mod Scope
pub mod Closed
pub mod Finding
pub mod Names
pub mod Unresolved
pub mod Resolved
pub mod Layout
pub mod Top
pub mod Code
pub mod Expr
pub mod Values
pub mod Runs
pub mod Computes
pub mod Correct
pub mod Calls
mod Examples
use nscheme.Prelude.{ℕ, Bool, true, false, none, some, [], length, ◌+◌, ◌*◌, ◌%◌}
use nscheme.Prelude.Words.{mod32, mod64}
use nscheme.Values.{Ptr}
use nscheme.Memory.{update}
use nscheme.Gc.{vm_alloc}
use nscheme.Run.{Run, ok, ◌>>=◌}
use nscheme.Vm.State.{Vm, Closure, vm_error}
use nscheme.Compiler.State.{CompState, CompNode, instr_return, add_instr_node}
use nscheme.Compiler.Scope.{Scopes, gen_top_scope}
use nscheme.Compiler.Code.{
  list_length, wrap_comp_values, compile_body, closed_refs, store_instructions,
}

-- The state that `vm_compile_closure` starts with.
unfoldable pub start_state : ℕ → Vm → Closure → Run CompState
unfolding list_length
start_state k vm closure = do
  length ← list_length k vm.memory.pairs closure.args
  ok (record {
    envs = vm.envs;
    env = closure.env;
    closed_vars = [];
    instrs = [];
    stack_ptr = (length + 1) % mod32;
    closure_ptr = 0;
    instr_ptr = 0;
  })

-- `store_closed_vars` and `store_instructions`, and the flag. The array of closed variables is a
-- block of the collected heap; the collection that `vm_alloc` may start is left out, as in
-- `construct_pair`.
unfoldable pub store_closure : Vm → Ptr → CompState → Run Vm
unfolding vm_alloc closed_refs store_instructions
store_closure vm p state = do
  (_, memory) ← vm_alloc ok vm.memory ((8 * state.closure_ptr) % mod64)
  code ← store_instructions state.instrs
  ok (record vm {
    memory = memory;
    closures = update vm.closures p (record (vm.closures p) {
      closures = closed_refs state.closed_vars [];
      code = code;
      compiled = true;
    });
  })

-- Whether the closure was compiled. No list and no nesting of pairs is longer than the heap's used
-- part, unless it is cyclic.
unfoldable pub vm_compile_closure : Vm → Ptr → Run (Bool × Vm)
unfolding start_state wrap_comp_values gen_top_scope vm_error compile_body store_closure
vm_compile_closure vm p =
    let closure = vm.closures p in
    let k = 2 * vm.memory.gc.allocend + 2 in
    do
      state ← start_state k vm closure
      values ← wrap_comp_values k vm.memory.pairs closure.definition
      scoped ← gen_top_scope k vm.memory.pairs values state [] closure.args 1
      elim scoped [
        | none ↦ ok (false, vm_error vm "Couldn't define the top scope!")
        | some (state₁, (scope, values₁)) ↦ do
          state₂ ← compile_body state₁ values₁
          vm' ← store_closure vm p state₂
          ok (true, vm')
      ]
