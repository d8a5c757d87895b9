-- ===== src/Compiler/State.antt =====
-- The compiler's data (include/nscheme/compiler.h), and adding to it (src/compiler.c).
--
-- The lists of closed variables and of instructions are lists; `closed_vars` has the newest first,
-- as in the source, and `instrs` is in the order of the code. `last_instr` is the end of that list.
use nscheme.Prelude.{
  ℕ, sym, Bool, false, Option, none, some, List, [], ◌+◌, ◌%◌, ◌&&◌, ◌∷◌, ◌++◌, ◌==◌, if◌then◌else◌,
}
use nscheme.Prelude.Words.{mod32, sub32}
use nscheme.Values.{
  Value, Ptr, is_symbol, tag_run_type, run_type_if, run_type_define, run_type_begin,
}
use nscheme.Env.{Envs, NodeRef, env_find_recurse, node_value}

pub data InstrType : Type 0 where
  instr_none instr_do_call instr_do_tailcall instr_jump_if_false instr_jump instr_push_constant
        instr_closure_ref instr_stack_ref instr_return :
      InstrType

pub data ScopeType : Type 0 where
  scope_parameter scope_mutable_parameter scope_closure scope_local scope_mutable_local : ScopeType

-- `closure_node_t`
pub record ClosureNode : Type 0 where
  pub sym : Value
  pub var_ref : NodeRef

-- `instr_node_t`
pub record InstrNode : Type 0 where
  pub instr : InstrType
  pub op : ℕ

-- `comp_state_t`, with the store that `env` points into. `closure` and `vm` are passed to the
-- functions that use them.
pub record CompState : Type 0 where
  pub envs : Envs
  pub env : Ptr
  pub closed_vars : List ClosureNode
  pub instrs : List InstrNode
  pub stack_ptr : ℕ
  pub closure_ptr : ℕ
  pub instr_ptr : ℕ

-- `scope_node_t`
pub record ScopeNode : Type 0 where
  pub sym : Value
  pub type : ScopeType
  pub location : ℕ

-- `comp_node_t *`. Once the field `node` of a `comp_node_t` points to a node of a scope, that node
-- is not changed any more, so it is written as a copy. `scope` is not read.
pub data CompNode : Type 0 where
  null : CompNode
  comp_node : (car cdr : CompNode) (value : Value) (node : Option ScopeNode) → CompNode

-- The search of `add_closure_node`: `i` goes down from the newest entry's index.
unfoldable pub closed_index : List ClosureNode → ℕ → Value → Option ℕ
closed_index [] i sym = none
closed_index (temp ∷ next) i sym =
    let rest = closed_index next (sub32 i 1) sym in if temp.sym == sym then some i else rest

unfoldable pub add_closure_node : CompState → NodeRef → Value → ℕ × CompState
unfolding closed_index
add_closure_node state node sym =
    elim (closed_index state.closed_vars (sub32 state.closure_ptr 1) sym) [
      | some i ↦ (i, state)
      | none ↦ (
        state.closure_ptr,
        record state {
          closed_vars = record { sym = sym; var_ref = node } ∷ state.closed_vars;
          closure_ptr = (state.closure_ptr + 1) % mod32;
        },
      )
    ]

-- The new node stands at the index that `instr_ptr` had.
unfoldable pub add_instr_node : CompState → InstrType → ℕ → CompState
add_instr_node state instruction argument = record state {
  instrs = state.instrs ++ (record { instr = instruction; op = argument } ∷ []);
  instr_ptr = (state.instr_ptr + 1) % mod32;
}

unfoldable pub is_runtime_token : Envs → Ptr → Value → ℕ → Bool
unfolding is_symbol env_find_recurse node_value tag_run_type
is_runtime_token envs env sym type = is_symbol sym && elim (env_find_recurse envs env sym) [
  | none ↦ false
  | some var ↦ elim (node_value envs var) [ none ↦ false | some value ↦ value == tag_run_type type ]
]

-- `is_run_statement`, with the type of the checker.
unfoldable pub is_run_statement : Envs → Ptr → CompNode → ℕ → Bool
unfolding is_symbol is_runtime_token
is_run_statement envs env null type = false
is_run_statement envs env (comp_node null cdr value sn) type = false
is_run_statement envs env (comp_node (comp_node caar cdar name n) cdr value sn) type =
    is_symbol name && is_runtime_token envs env name type

unfoldable pub is_if_token : Envs → Ptr → Value → Bool
unfolding is_runtime_token
is_if_token envs env sym = is_runtime_token envs env sym run_type_if

unfoldable pub is_if_statement : Envs → Ptr → CompNode → Bool
unfolding is_run_statement
is_if_statement envs env node = is_run_statement envs env node run_type_if

unfoldable pub is_define_statement : Envs → Ptr → CompNode → Bool
unfolding is_run_statement
is_define_statement envs env node = is_run_statement envs env node run_type_define

unfoldable pub is_begin_statement : Envs → Ptr → CompNode → Bool
unfolding is_run_statement
is_begin_statement envs env node = is_run_statement envs env node run_type_begin
