-- ===== src/Compiler/Finding.antt =====
-- What the search for a name in a scope (src/scope.c) finds after a name was added.
use nscheme.Prelude.{
  ℕ, refl, sym, inl, inr, true, false, none, List, [], arith, Option-cases, ◌≡◌, ◌≢◌, ◌∷◌,
}
use nscheme.Values.{Value}
use nscheme.Compiler.State.{ScopeType, ScopeNode}
use nscheme.Compiler.Scope.{Scopes, find_in, scope_find, overwrite, scope_add_node}

find_overwritten :
    (nodes : List ScopeNode) (name other : Value) (type : ScopeType) (i : ℕ)
    → find_in (overwrite nodes name type i) other ≡ none
    → find_in nodes other ≡ none
unfolding find_in overwrite
find_overwritten [] name other type i h = refl
find_overwritten (n ∷ nodes) name other type i h =
    ground (arith, find_overwritten nodes name other type i)

-- A name that is not found after another was added was not found before.
pub find_added :
    (scope : Scopes) (name other : Value) (type : ScopeType) (i : ℕ)
    → scope_find (scope_add_node scope name type i) other true ≡ none
    → scope_find scope other true ≡ none
unfolding find_in scope_find scope_add_node
find_added [] name other type i h = refl
find_added (nodes ∷ last) name other type i h =
    ground (arith, find_overwritten nodes name other type i)

-- A scope that a name can be added to.
abbrev pub IsOpen : Scopes → Type 0
IsOpen [] = ⊥
IsOpen (nodes ∷ last) = Unit

pub scope_add_node-IsOpen :
    (scope : Scopes) (name : Value) (type : ScopeType) (i : ℕ)
    → IsOpen scope
    → IsOpen (scope_add_node scope name type i)
unfolding scope_add_node
scope_add_node-IsOpen [] name type i h = h
scope_add_node-IsOpen (nodes ∷ last) name type i h =
    elim (Option-cases (scope_find (nodes ∷ last) name false)) [
      | inl e ↦ rw (e, scope_add_node) tt
      | inr (n, e) ↦ rw (e, scope_add_node) tt
    ]

find_added_self :
    (scope : Scopes) (name : Value) (type : ScopeType) (i : ℕ)
    → IsOpen scope
    → scope_find (scope_add_node scope name type i) name true ≢ none
unfolding find_in scope_find scope_add_node
find_added_self [] name type i o h = o
find_added_self (nodes ∷ last) name type i o h =
    ground (arith, find_overwritten nodes name name type i)

-- A name that is not found is not the one that was added.
pub not_added :
    (scope : Scopes) (name other : Value) (type : ScopeType) (i : ℕ)
    → IsOpen scope
    → scope_find (scope_add_node scope name type i) other true ≡ none
    → name ≢ other
not_added scope name other type i o e q =
    let e' = rw (sym q) at e in find_added_self scope name type i o e'
