-- ===== src/Compiler/Scope.antt =====
-- src/scope.c: where the names of a closure's body are found.
--
-- A `scope_t *` is the list of the nodes of the scope and of those outside it, from the inner one
-- out. `false` is `none`, since the compiler then stops and drops its state.
use nscheme.Prelude.{
  ℕ, zero, suc, sym, Bool, true, false, Option, none, some, List, [], ◌+◌, ◌%◌, ◌∷◌, ◌==◌,
  if◌then◌else◌,
}
use nscheme.Prelude.Words.{mod32}
use nscheme.Values.{Value, Ptr, Pair, is_pair, is_symbol, scm_car, scm_cdr}
use nscheme.Env.{env_find_recurse}
use nscheme.Run.{Run, ok, fault, out_of_fuel, ◌>>=◌}
use nscheme.Compiler.State.{
  ScopeType, ScopeNode, CompNode, CompState, null, comp_node, scope_closure, scope_parameter,
  scope_local, add_closure_node, is_if_token, is_define_statement,
}

abbrev pub Scopes : Type 0
Scopes = List (List ScopeNode)

-- The loop over the nodes of one scope.
unfoldable pub find_in : List ScopeNode → Value → Option ScopeNode
find_in [] sym = none
find_in (temp ∷ next) sym =
    let rest = find_in next sym in if temp.sym == sym then some temp else rest

unfoldable pub scope_find : Scopes → Value → Bool → Option ScopeNode
unfolding find_in
scope_find [] sym recurse = none
scope_find (nodes ∷ last) sym recurse = elim (find_in nodes sym) [
  | some temp ↦ some temp
  | none ↦ elim recurse [ false ↦ none | true ↦ scope_find last sym true ]
]

-- The node that has the name takes the type and the location.
unfoldable pub overwrite : List ScopeNode → Value → ScopeType → ℕ → List ScopeNode
overwrite [] sym type location = []
overwrite (temp ∷ next) sym type location =
    let rest = overwrite next sym type location in
    if temp.sym == sym then record temp { type = type; location = location } ∷ next else temp ∷ rest

unfoldable pub scope_add_node : Scopes → Value → ScopeType → ℕ → Scopes
unfolding scope_find overwrite
scope_add_node [] sym type location = []
scope_add_node (nodes ∷ last) sym type location = elim (scope_find (nodes ∷ last) sym false) [
  | some found ↦ overwrite nodes sym type location ∷ last
  | none ↦ (record { sym = sym; type = type; location = location } ∷ nodes) ∷ last
]

-- `comp->car`, a symbol, with its node; and what is added to the state and to the scope.
unfoldable pub scope_handle_symbol :
    CompState → Scopes → Value → Option (CompState × (Scopes × ScopeNode))
unfolding scope_find env_find_recurse add_closure_node scope_add_node
scope_handle_symbol state scope sym = elim (scope_find scope sym true) [
  | some temp ↦ some (state, (scope, temp))
  | none ↦ elim (env_find_recurse state.envs state.env sym) [
    | none ↦ none
    | some env ↦
        (let (index, state') = add_closure_node state env sym in
          some (
            state',
            (
              scope_add_node scope sym scope_closure index,
              record { sym = sym; type = scope_closure; location = index },
            ),
          ))
  ]
]

-- `comp->car && is_symbol(comp->car->value)`
unfoldable pub is_symbol_node : CompNode → Bool
unfolding is_symbol
is_symbol_node null = false
is_symbol_node (comp_node car cdr value sn) = is_symbol value

-- `comp->car->value`
unfoldable pub node_sym : CompNode → Value
node_sym null = 0
node_sym (comp_node car cdr value sn) = value

unfoldable pub set_scope_node : CompNode → ScopeNode → CompNode
set_scope_node null n = null
set_scope_node (comp_node car cdr value sn) n = comp_node car cdr value (some n)

-- The body of the loop of `gen_sub_scope` for a symbol `comp->car`.
unfoldable pub handle_car :
    CompState → Scopes → CompNode → CompNode → Option (CompState × (Scopes × CompNode))
unfolding is_if_token is_define_statement scope_handle_symbol node_sym set_scope_node
handle_car state scope comp car =
    if is_if_token state.envs state.env (node_sym car)
    then some (state, (scope, car))
    else if is_define_statement state.envs state.env comp
    then none
    else elim (scope_handle_symbol state scope (node_sym car)) [
      | none ↦ none
      | some (state', (scope', n)) ↦ some (state', (scope', set_scope_node car n))
    ]

unfoldable pub gen_sub_scope :
    CompState → Scopes → CompNode → Option (CompState × (Scopes × CompNode))
unfolding is_symbol_node handle_car is_pair
gen_sub_scope state scope null = some (state, (scope, null))
gen_sub_scope state scope (comp_node car cdr value sn) =
    let handled : Option (CompState × (Scopes × CompNode)) = elim (is_symbol_node car) [
      | true ↦ handle_car state scope (comp_node car cdr value sn) car
      | false ↦ elim (is_pair value) [
        | true ↦ gen_sub_scope state scope car
        | false ↦ some (state, (scope, car))
      ]
    ] in
    elim handled [
      | none ↦ none
      | some (state', (scope', car')) ↦ elim (gen_sub_scope state' scope' cdr) [
        | none ↦ none
        | some (state'', (scope'', cdr')) ↦ some (state'', (scope'', comp_node car' cdr' value sn))
      ]
    ]

-- The loop over the parameters, with the `sp` that it ends with.
unfoldable pub add_parameters : ℕ → (Ptr → Pair) → ScopeType → Value → ℕ → Scopes → Run (ℕ × Scopes)
unfolding is_pair scm_car scm_cdr scope_add_node
add_parameters zero pairs type syms sp scope = out_of_fuel
add_parameters (suc k) pairs type syms sp scope =
    let rest =
      add_parameters k pairs type (scm_cdr pairs syms) ((sp + 1) % mod32)
        (scope_add_node scope (scm_car pairs syms) type sp) in
    if is_pair syms then rest else ok (sp, scope)

-- The first loop over the definitions: their names. A definition without a name is a read of `NULL`.
unfoldable pub define_names : CompState → CompNode → ℕ → Scopes → Run Scopes
unfolding is_define_statement scope_add_node
define_names state null sp scope = fault
define_names state (comp_node car cdr value sn) sp scope =
    elim (is_define_statement state.envs state.env car) [
      | false ↦ ok scope
      | true ↦ elim car [
        | comp_node caar (comp_node (comp_node a d name n₁) cddar v₂ n₂) v₁ n ↦
            define_names state cdr ((sp + 1) % mod32) (scope_add_node scope name scope_local sp)
        | _ ↦ fault
      ]
    ]

-- The second loop: their bodies; and then the expressions that follow.
unfoldable pub define_bodies :
    CompState → Scopes → CompNode → Run (Option (CompState × (Scopes × CompNode)))
unfolding is_define_statement gen_sub_scope
define_bodies state scope null = fault
define_bodies state scope (comp_node car cdr value sn) =
    elim (is_define_statement state.envs state.env car) [
      | false ↦ ok (gen_sub_scope state scope (comp_node car cdr value sn))
      | true ↦ elim car [
        | comp_node caar (comp_node cadar body v₂ n₂) v₁ n₁ ↦
            elim (gen_sub_scope state scope body) [
              | none ↦ ok none
              | some (state', (scope', body')) ↦ do
                rest ← define_bodies state' scope' cdr
                elim rest [
                  | none ↦ ok none
                  | some (state'', (scope'', cdr')) ↦ ok (
                      some (
                        state'',
                        (
                          scope'',
                          comp_node (comp_node caar (comp_node cadar body' v₂ n₂) v₁ n₁) cdr' value
                              sn,
                        ),
                      ))
                ]
            ]
        | _ ↦ fault
      ]
    ]

unfoldable pub gen_top_scope :
    ℕ
    → (Ptr → Pair)
    → CompNode
    → CompState
    → Scopes
    → Value
    → ℕ
    → Run (Option (CompState × (Scopes × CompNode)))
unfolding add_parameters define_names define_bodies
gen_top_scope k pairs comp state cur_scope syms sp = do
  (sp', scope) ←
      add_parameters k pairs (elim cur_scope [ [] ↦ scope_parameter | _ ∷ _ ↦ scope_local ]) syms sp
        ([] ∷ cur_scope)
  scope' ← define_names state comp sp' scope
  define_bodies state scope' comp
