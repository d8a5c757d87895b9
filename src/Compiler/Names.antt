-- ===== src/Compiler/Names.antt =====
-- The scope analysis (src/scope.c) finds what the names of a closure mean.
use nscheme.Prelude.{
  ℕ, refl, inl, inr, true, false, Option, none, some, List, [], arith, Bool-cases, Option-cases,
  length, ◌+◌, ◌≤◌, ◌<◌, ◌≡◌, ◌∷◌, ◌==◌,
}
use nscheme.Prelude.Words.{mod32}
use nscheme.Values.{Value}
use nscheme.Env.{env_find_recurse}
use nscheme.Compiler.State.{
  ScopeType, ScopeNode, CompNode, CompState, null, comp_node, scope_closure, scope_parameter,
  scope_mutable_parameter, scope_local, scope_mutable_local, add_closure_node,
}
use nscheme.Compiler.Scope.{
  Scopes, find_in, scope_find, overwrite, scope_add_node, scope_handle_symbol,
}
use nscheme.Compiler.Finding.{find_added}
use nscheme.Compiler.Closed.{
  IsClosedAt, IsClosedAt-mono, IsCollecting, Grows, add_closure_node-Adds,
}

-- `P` says what a parameter or a local variable is known to be at, and `N` holds of the names that are
-- neither.
module _ (P : ScopeType → Value → ℕ → Type 0) (N : Value → Type 0) where
  -- A name with the type and location of a scope's node: a closed variable is at the location where
  -- the closure has what the name means.
  abbrev pub IsPlacedAt : CompState → ScopeType → Value → ℕ → Type 0
  IsPlacedAt st scope_closure name i = IsClosedAt st.envs st.env st.closed_vars name i × N name
  IsPlacedAt st scope_parameter name i = P scope_parameter name i
  IsPlacedAt st scope_mutable_parameter name i = P scope_mutable_parameter name i
  IsPlacedAt st scope_local name i = P scope_local name i
  IsPlacedAt st scope_mutable_local name i = P scope_mutable_local name i

  abbrev pub IsPlaced : CompState → ScopeNode → Type 0
  IsPlaced st n = IsPlacedAt st n.type n.sym n.location

  abbrev pub AllPlaced : CompState → List ScopeNode → Type 0
  AllPlaced st [] = Unit
  AllPlaced st (n ∷ nodes) = IsPlaced st n × AllPlaced st nodes

  abbrev pub NodesPlaced : CompState → Scopes → Type 0
  NodesPlaced st [] = Unit
  NodesPlaced st (nodes ∷ last) = AllPlaced st nodes × NodesPlaced st last

  -- A symbol's node has its name and a place; other nodes have no node of a scope.
  abbrev pub IsNamed : CompState → Value → Option ScopeNode → Type 0
  IsNamed st value none = Unit
  IsNamed st value (some n) = IsPlaced st n × (n.sym ≡ value)

  abbrev pub AllNamed : CompState → CompNode → Type 0
  AllNamed st null = Unit
  AllNamed st (comp_node car cdr value sn) = IsNamed st value sn × AllNamed st car × AllNamed st cdr

  IsPlacedAt-mono :
      (st st' : CompState) (type : ScopeType) (name : Value) (i : ℕ)
      → Grows st st'
      → IsPlacedAt st type name i
      → IsPlacedAt st' type name i
  IsPlacedAt-mono st st' scope_closure name i g (h, f) = (IsClosedAt-mono st st' name i g h, f)
  IsPlacedAt-mono st st' scope_parameter name i g h = h
  IsPlacedAt-mono st st' scope_mutable_parameter name i g h = h
  IsPlacedAt-mono st st' scope_local name i g h = h
  IsPlacedAt-mono st st' scope_mutable_local name i g h = h

  AllPlaced-mono :
      (st st' : CompState) (nodes : List ScopeNode)
      → Grows st st'
      → AllPlaced st nodes
      → AllPlaced st' nodes
  AllPlaced-mono st st' [] g h = tt
  AllPlaced-mono st st' (n ∷ nodes) g (p, h) =
      (IsPlacedAt-mono st st' n.type n.sym n.location g p, AllPlaced-mono st st' nodes g h)

  pub NodesPlaced-mono :
      (st st' : CompState) (scope : Scopes)
      → Grows st st'
      → NodesPlaced st scope
      → NodesPlaced st' scope
  NodesPlaced-mono st st' [] g h = tt
  NodesPlaced-mono st st' (nodes ∷ last) g (p, h) =
      (AllPlaced-mono st st' nodes g p, NodesPlaced-mono st st' last g h)

  pub IsNamed-mono :
      (st st' : CompState) (value : Value) (sn : Option ScopeNode)
      → Grows st st'
      → IsNamed st value sn
      → IsNamed st' value sn
  IsNamed-mono st st' value none g h = tt
  IsNamed-mono st st' value (some sn) g (p, e) =
      (IsPlacedAt-mono st st' sn.type sn.sym sn.location g p, e)

  pub AllNamed-mono :
      (st st' : CompState) (comp : CompNode) → Grows st st' → AllNamed st comp → AllNamed st' comp
  AllNamed-mono st st' null g h = tt
  AllNamed-mono st st' (comp_node car cdr value sn) g (n, a, d) =
      (IsNamed-mono st st' value sn g n, AllNamed-mono st st' car g a, AllNamed-mono st st' cdr g d)

  find_in-IsNamed :
      (st : CompState) (nodes : List ScopeNode) (name : Value)
      → AllPlaced st nodes
      → IsNamed st name (find_in nodes name)
  unfolding find_in
  find_in-IsNamed st [] name h = tt
  find_in-IsNamed st (n ∷ nodes) name (p, h) = elim (Bool-cases (n.sym == name)) [
    | inl y ↦ rw y (p, ground arith)
    | inr k ↦ rw k (find_in-IsNamed st nodes name h)
  ]

  scope_find-IsNamed :
      (st : CompState) (scope : Scopes) (name : Value)
      → NodesPlaced st scope
      → IsNamed st name (scope_find scope name true)
  unfolding scope_find
  scope_find-IsNamed st [] name h = tt
  scope_find-IsNamed st (nodes ∷ last) name (p, h) =
      let found = find_in-IsNamed st nodes name p in
      elim (Option-cases (find_in nodes name)) [
        | inl e ↦ rw (e, scope_find) (scope_find-IsNamed st last name h)
        | inr (n, e) ↦ (let found' = rw e at found in rw (e, scope_find) found')
      ]

  overwrite-AllPlaced :
      (st : CompState) (nodes : List ScopeNode) (name : Value) (type : ScopeType) (i : ℕ)
      → IsPlacedAt st type name i
      → AllPlaced st nodes
      → AllPlaced st (overwrite nodes name type i)
  unfolding overwrite
  overwrite-AllPlaced st [] name type i p h = tt
  overwrite-AllPlaced st (n ∷ nodes) name type i p (q, h) = elim (Bool-cases (n.sym == name)) [
    | inl y ↦ (let e : n.sym ≡ name = ground arith in rw y (rw e p, h))
    | inr k ↦ rw k (q, overwrite-AllPlaced st nodes name type i p h)
  ]

  pub scope_add_node-NodesPlaced :
      (st : CompState) (scope : Scopes) (name : Value) (type : ScopeType) (i : ℕ)
      → IsPlacedAt st type name i
      → NodesPlaced st scope
      → NodesPlaced st (scope_add_node scope name type i)
  unfolding scope_add_node
  scope_add_node-NodesPlaced st [] name type i p h = tt
  scope_add_node-NodesPlaced st (nodes ∷ last) name type i p (q, h) =
      elim (Option-cases (scope_find (nodes ∷ last) name false)) [
        | inl e ↦ rw (e, scope_add_node) ((p, q), h)
        | inr (n, e) ↦ rw (e, scope_add_node) (overwrite-AllPlaced st nodes name type i p q, h)
      ]

  -- The nodes have their places, and every name that is not found is neither a parameter nor a local
  -- variable.
  abbrev pub ScopesPlaced : CompState → Scopes → Type 0
  ScopesPlaced st scope =
      NodesPlaced st scope × ((name : Value) → scope_find scope name true ≡ none → N name)

  scope_add_node-ScopesPlaced :
      (st : CompState) (scope : Scopes) (name : Value) (type : ScopeType) (i : ℕ)
      → IsPlacedAt st type name i
      → NodesPlaced st scope
      → ((other : Value) → scope_find scope other true ≡ none → N other)
      → ScopesPlaced st (scope_add_node scope name type i)
  scope_add_node-ScopesPlaced st scope name type i at p f = (
    scope_add_node-NodesPlaced st scope name type i at p,
    λ other e. f other (find_added scope name other type i e),
  )

  -- What looking up a name promises: where it fails, no environment binds the name.
  abbrev pub Handles : CompState → Value → Option (CompState × (Scopes × ScopeNode)) → Type 0
  Handles st name none = (env_find_recurse st.envs st.env name ≡ none) × N name
  Handles st name (some (st', (scope', n))) =
      IsCollecting st'
      × Grows st st'
      × ScopesPlaced st' scope'
      × IsNamed st' name (some n)
      × (length st'.closed_vars ≤ length st.closed_vars + 1)

  pub scope_handle_symbol-Handles :
      (st : CompState) (scope : Scopes) (name : Value)
      → IsCollecting st
      → ScopesPlaced st scope
      → length st.closed_vars + 1 < mod32
      → Handles st name (scope_handle_symbol st scope name)
  unfolding scope_handle_symbol
  scope_handle_symbol-Handles st scope name c p l =
      let found = scope_find-IsNamed st scope name p.0 in
      elim (Option-cases (scope_find scope name true)) [
        | inr (n, e) ↦
            (let found' = rw e at found in
              rw (e, scope_handle_symbol) (c, (refl, refl, [], refl), p, found', omega arith))
        | inl e ↦ elim (Option-cases (env_find_recurse st.envs st.env name)) [
          | inl k ↦ rw (e, scope_handle_symbol) (rw (k, scope_handle_symbol) (k, p.1 name e))
          | inr (ref, k) ↦
              (let r = add_closure_node st ref name in
                let (c', g, at, b) = add_closure_node-Adds st ref name c l k in
                rw (e, scope_handle_symbol)
                  (rw (k, scope_handle_symbol)
                    (
                      c',
                      g,
                      scope_add_node-ScopesPlaced r.1 scope name scope_closure r.0 (at, p.1 name e)
                          (NodesPlaced-mono st r.1 scope g p.0) p.1,
                      ((at, p.1 name e), refl),
                      b,
                    )))
        ]
      ]
