-- ===== src/Compiler/Unresolved.antt =====
-- Bodies that the scope analysis (src/scope.c) cannot resolve, or cannot read.
use nscheme.Prelude.{sym, true, Option, none, ◌≡◌}
use nscheme.Values.{Ptr, Value}
use nscheme.Compiler.State.{ScopeNode, CompNode, CompState, null, comp_node, is_define_statement}
use nscheme.Compiler.Scope.{is_symbol_node, node_sym}
use nscheme.Env.{Envs, env_find_recurse}
use nscheme.Compiler.Closed.{Grows}

-- The body, or a part of it, has a name that no environment binds and of which `N` holds, or a definition
-- that stands where an expression should.
pub data IsUnresolved (N : Value → Type 0) (envs : Envs) (env : Ptr) : CompNode → Type 0 where
  unbound :
      {car cdr : CompNode} {value : Value} {sn : Option ScopeNode}
      → is_symbol_node car ≡ true
      → env_find_recurse envs env (node_sym car) ≡ none
      → N (node_sym car)
      → IsUnresolved N envs env (comp_node car cdr value sn)
  misplaced :
      {car cdr : CompNode} {value : Value} {sn : Option ScopeNode}
      → is_symbol_node car ≡ true
      → is_define_statement envs env (comp_node car cdr value sn) ≡ true
      → IsUnresolved N envs env (comp_node car cdr value sn)
  in_car :
      {car cdr : CompNode} {value : Value} {sn : Option ScopeNode}
      → IsUnresolved N envs env car
      → IsUnresolved N envs env (comp_node car cdr value sn)
  in_cdr :
      {car cdr : CompNode} {value : Value} {sn : Option ScopeNode}
      → IsUnresolved N envs env cdr
      → IsUnresolved N envs env (comp_node car cdr value sn)

pub IsUnresolved-same :
    (N : Value → Type 0) (st st' : CompState) (comp : CompNode)
    → Grows st st'
    → IsUnresolved N st'.envs st'.env comp
    → IsUnresolved N st.envs st.env comp
IsUnresolved-same N st st' comp (e, n, front, rest) h = rw (sym e, sym n) h

-- The name in `(define name ...)`
abbrev pub name_of : CompNode → CompNode
name_of null = null
name_of (comp_node caar null value sn) = null
name_of (comp_node caar (comp_node name cddar v n) value sn) = name

-- The definitions in front are not followed by an expression, or one of them has no name.
pub data IsUnfinished (envs : Envs) (env : Ptr) : CompNode → Type 0 where
  missing : IsUnfinished envs env null
  nameless :
      {car cdr : CompNode} {value : Value} {sn : Option ScopeNode}
      → is_define_statement envs env car ≡ true
      → name_of car ≡ null
      → IsUnfinished envs env (comp_node car cdr value sn)
  behind :
      {car cdr : CompNode} {value : Value} {sn : Option ScopeNode}
      → is_define_statement envs env car ≡ true
      → IsUnfinished envs env cdr
      → IsUnfinished envs env (comp_node car cdr value sn)

pub IsUnfinished-same :
    (st st' : CompState) (comp : CompNode)
    → Grows st st'
    → IsUnfinished st'.envs st'.env comp
    → IsUnfinished st.envs st.env comp
IsUnfinished-same st st' comp (e, n, front, rest) h = rw (sym e, sym n) h
