-- ===== src/Compiler/Layout.antt =====
-- The scope analysis (src/scope.c) gives each parameter and each definition of a body its place.
use nscheme.Prelude.{
  ℕ, zero, suc, refl, sym, inl, inr, true, false, Option, none, List, [], arith, Bool-cases, length,
  ◌+◌, ◌%◌, ◌<◌, ◌≡◌, ◌≢◌, ◌⊎◌, ◌∷◌,
}
use nscheme.Prelude.Words.{mod32}
use nscheme.Values.{Value, Ptr, Pair, get_pair}
use nscheme.Run.{Run, ok, fault, panic, out_of_fuel}
use nscheme.Compiler.State.{
  ScopeType, ScopeNode, CompNode, CompState, null, comp_node, scope_parameter, scope_local,
  scope_closure, scope_mutable_parameter, scope_mutable_local, is_define_statement, ScopeNode,
}
use nscheme.Compiler.Scope.{
  scope_find, node_sym, Scopes, scope_add_node, add_parameters, define_names,
}
use nscheme.Env.{Envs}
use nscheme.Compiler.Finding.{IsOpen, scope_add_node-IsOpen, find_added, not_added}
use nscheme.Compiler.Unresolved.{name_of, IsUnfinished, missing, nameless, behind}
use nscheme.Vm.Operands.{IsList}
use nscheme.Compiler.Names.{ScopesPlaced, IsPlacedAt, scope_add_node-NodesPlaced, NodesPlaced}

-- The names of the definitions in front of a body.
abbrev pub definitions : Envs → Ptr → CompNode → List Value
definitions envs env null = []
definitions envs env (comp_node car cdr value sn) = elim (is_define_statement envs env car) [
  | false ↦ []
  | true ↦ node_sym (name_of car) ∷ definitions envs env cdr
]

definitions-cons :
    (envs : Envs) (env : Ptr) (car cdr : CompNode) (value : Value) (sn : Option ScopeNode)
    → is_define_statement envs env car ≡ true
    → definitions envs env (comp_node car cdr value sn)
      ≡ node_sym (name_of car) ∷ definitions envs env cdr
definitions-cons envs env car cdr value sn y = rw (y, definitions) refl

-- The name stands in the list, and its place is `sp` and the number of names before it.
abbrev pub IsAt : List Value → ℕ → Value → ℕ → Type 0
IsAt [] sp name i = ⊥
IsAt (n ∷ names) sp name i = ((n ≡ name) × (i ≡ sp)) ⊎ IsAt names ((sp + 1) % mod32) name i

-- The place behind those of the names.
abbrev pub place_after : List Value → ℕ → ℕ
place_after [] sp = sp
place_after (n ∷ names) sp = place_after names ((sp + 1) % mod32)

-- The name does not stand in the list.
abbrev pub IsOutside : List Value → Value → Type 0
IsOutside [] name = Unit
IsOutside (n ∷ names) name = (n ≢ name) × IsOutside names name

-- The name is neither a parameter nor a local variable.
abbrev pub IsForeign : (names locals : List Value) → Value → Type 0
IsForeign names locals name = IsOutside names name × IsOutside locals name

-- The places of parameters and local variables: the parameters from `sp` on in their order, and then
-- the definitions in theirs. The analysis marks no variable as mutable.
abbrev pub IsLaidOut : (names locals : List Value) (sp : ℕ) → ScopeType → Value → ℕ → Type 0
IsLaidOut names locals sp scope_closure name i = ⊥
IsLaidOut names locals sp scope_parameter name i = IsAt names sp name i
IsLaidOut names locals sp scope_mutable_parameter name i = ⊥
IsLaidOut names locals sp scope_local name i = IsAt locals (place_after names sp) name i
IsLaidOut names locals sp scope_mutable_local name i = ⊥

-- `P` says what a parameter or a local variable is known to be at, and `N` holds of the names that are
-- neither.
module _ (P : ScopeType → Value → ℕ → Type 0) (N : Value → Type 0) where
  -- The scopes that the analysis of the names leaves.
  abbrev pub EndsPlaced : CompState → CompNode → Run Scopes → Type 0
  EndsPlaced st comp (ok scope) = ScopesPlaced P N st scope
  EndsPlaced st comp fault = IsUnfinished st.envs st.env comp
  EndsPlaced st comp panic = ⊥
  EndsPlaced st comp out_of_fuel = ⊥

  abbrev pub EndsPlacedAt :
      (Value → Type 0) → CompState → List Value → ℕ → Run (ℕ × Scopes) → Type 0
  EndsPlacedAt G st names sp (ok (sp', scope)) =
      (sp' ≡ place_after names sp)
      × IsOpen scope
      × NodesPlaced P N st scope
      × ((name : Value) → scope_find scope name true ≡ none → G name)
  EndsPlacedAt G st names sp fault = ⊥
  EndsPlacedAt G st names sp panic = ⊥
  EndsPlacedAt G st names sp out_of_fuel = ⊥

  EndsPlaced-behind :
      (st : CompState) (car cdr : CompNode) (value : Value) (sn : Option ScopeNode)
      → is_define_statement st.envs st.env car ≡ true
      → (r : Run Scopes) → EndsPlaced st cdr r
      → EndsPlaced st (comp_node car cdr value sn) r
  EndsPlaced-behind st car cdr value sn y (ok scope) h = h
  EndsPlaced-behind st car cdr value sn y fault h = behind y h
  EndsPlaced-behind st car cdr value sn y panic h = h
  EndsPlaced-behind st car cdr value sn y out_of_fuel h = h

  -- One more name is in the scope.
  added :
      (G : Value → Type 0) (scope : Scopes) (n : Value) (names : List Value) (type : ScopeType)
      (i : ℕ)
      → IsOpen scope
      → ((name : Value) → scope_find scope name true ≡ none → IsOutside (n ∷ names) name → G name)
      → (name : Value) → scope_find (scope_add_node scope n type i) name true ≡ none
      → IsOutside names name
      → G name
  added G scope n names type i o f name e out =
      f name (find_added scope n name type i e) (not_added scope n name type i o e, out)

  -- `G` holds of what is not found in the scope before, and is no parameter.
  pub add_parameters-EndsPlaced :
      (G : Value → Type 0) (st : CompState) (k : ℕ) (pairs : Ptr → Pair) (type : ScopeType)
      (syms : Value) (names : List Value) (sp : ℕ) (scope : Scopes)
      → IsList pairs syms names
      → length names < k
      → ((name : Value) (i : ℕ) → IsAt names sp name i → IsPlacedAt P N st type name i)
      → IsOpen scope
      → NodesPlaced P N st scope
      → ((name : Value) → scope_find scope name true ≡ none → IsOutside names name → G name)
      → EndsPlacedAt G st names sp (add_parameters k pairs type syms sp scope)
  unfolding add_parameters
  add_parameters-EndsPlaced G st zero pairs type syms names sp scope l b h o p f =
      absurd (omega arith)
  add_parameters-EndsPlaced G st (suc k) pairs type syms [] sp scope l b h o p f =
      rw (l, add_parameters) (refl, o, p, λ name e. f name e tt)
  add_parameters-EndsPlaced G st (suc k) pairs type syms (name ∷ names) sp scope (y, c, l) b h o p
        f =
      let sym' = (pairs (get_pair syms)).car in
      let f' = rw (sym c) at f in
      let later =
        add_parameters-EndsPlaced G st k pairs type (pairs (get_pair syms)).cdr names
          ((sp + 1) % mod32) (scope_add_node scope sym' type sp) l (omega arith)
          (λ name' i at. h name' i (inr at)) (scope_add_node-IsOpen scope sym' type sp o)
          (scope_add_node-NodesPlaced P N st scope sym' type sp (h sym' sp (inl (sym c, refl))) p)
          (added G scope sym' names type sp o f') in
      rw (y, add_parameters) later

  pub define_names-EndsPlaced :
      (st : CompState) (comp : CompNode) (sp : ℕ) (scope : Scopes)
      → ((name : Value) (i : ℕ)
          → IsAt (definitions st.envs st.env comp) sp name i
          → P scope_local name i)
      → IsOpen scope
      → NodesPlaced P N st scope
      → ((name : Value)
          → scope_find scope name true ≡ none
          → IsOutside (definitions st.envs st.env comp) name
          → N name)
      → EndsPlaced st comp (define_names st comp sp scope)
  unfolding define_names node_sym
  define_names-EndsPlaced st null sp scope h o p f = missing
  define_names-EndsPlaced st (comp_node null cdr value sn) sp scope h o p f =
      (p, λ name e. f name e tt)
  define_names-EndsPlaced st (comp_node (comp_node caar null v₁ n) cdr value sn) sp scope h o p f =
      elim (Bool-cases (is_define_statement st.envs st.env (comp_node caar null v₁ n))) [
        | inr k ↦ rw (k, define_names) (p, λ name e. f name e (rw (k, definitions) tt))
        | inl y ↦ rw (y, define_names) (nameless y refl)
      ]
  define_names-EndsPlaced st
        (comp_node (comp_node caar (comp_node null cddar v₂ n₂) v₁ n) cdr value sn) sp scope h o p
        f =
      elim (Bool-cases
        (is_define_statement st.envs st.env (comp_node caar (comp_node null cddar v₂ n₂) v₁ n))) [
          | inr k ↦ rw (k, define_names) (p, λ name e. f name e (rw (k, definitions) tt))
          | inl y ↦ rw (y, define_names) (nameless y refl)
        ]
  define_names-EndsPlaced st
        (comp_node
          (comp_node caar (comp_node (comp_node a d name n₁) cddar v₂ n₂) v₁ n)
          cdr
          value
          sn)
        sp scope h o p f =
      let car = comp_node caar (comp_node (comp_node a d name n₁) cddar v₂ n₂) v₁ n in
      let locals = definitions-cons st.envs st.env car cdr value sn in
      elim (Bool-cases (is_define_statement st.envs st.env car)) [
        | inr k ↦ rw (k, define_names) (p, λ name e. f name e (rw (k, definitions) tt))
        | inl y ↦
            (let first : P scope_local name sp = h name sp (rw (locals y) (inl (refl, refl))) in
              let f' = rw (locals y) at f in
              let later =
                λ (name' : Value) (i : ℕ)
                    (at : IsAt (definitions st.envs st.env cdr) ((sp + 1) % mod32) name' i).
                  h name' i (rw (locals y) (inr at)) in
              rw (y, define_names)
                (EndsPlaced-behind st car cdr value sn y _ (
                  define_names-EndsPlaced st cdr ((sp + 1) % mod32)
                    (scope_add_node scope name scope_local sp) later
                    (scope_add_node-IsOpen scope name scope_local sp o)
                    (scope_add_node-NodesPlaced P N st scope name scope_local sp first p)
                    (added N scope name (definitions st.envs st.env cdr) scope_local sp o f'))))
      ]
