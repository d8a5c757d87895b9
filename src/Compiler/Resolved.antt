-- ===== src/Compiler/Resolved.antt =====
-- The scope analysis (src/scope.c) of the expressions of a body: each name gets its place.
use nscheme.Prelude.{
  ℕ, refl, inl, inr, true, Option, none, some, [], arith, Bool-cases, Option-cases, length, ◌+◌,
  ◌≤◌, ◌<◌, ◌≡◌,
}
use nscheme.Prelude.Words.{mod32}
use nscheme.Values.{Value, is_pair}
use nscheme.Compiler.State.{
  ScopeType, ScopeNode, CompNode, CompState, null, comp_node, is_if_token, is_define_statement,
  ScopeNode,
}
use nscheme.Compiler.Scope.{
  Scopes, scope_handle_symbol, is_symbol_node, node_sym, set_scope_node, handle_car, gen_sub_scope,
}
use nscheme.Env.{env_find_recurse}
use nscheme.Compiler.Closed.{IsCollecting, Grows, Grows-trans}
use nscheme.Compiler.Unresolved.{
  IsUnresolved, unbound, misplaced, in_car, in_cdr, IsUnresolved-same,
}
use nscheme.Compiler.Names.{
  AllNamed, IsNamed, IsNamed-mono, AllNamed-mono, ScopesPlaced, Handles,
  scope_handle_symbol-Handles,
}

abbrev pub nodes : CompNode → ℕ
nodes null = 0
nodes (comp_node car cdr value sn) = nodes car + nodes cdr + 1

-- `P` says what a parameter or a local variable is known to be at, and `N` holds of the names that are
-- neither.
module _ (P : ScopeType → Value → ℕ → Type 0) (N : Value → Type 0) where
  -- What the analysis of a part of the body promises: the names that have a node have their place, and at
  -- most `n` more variables are closed over; or it fails, and then `F` holds.
  abbrev pub Resolves : Type 0 → ℕ → CompState → Option (CompState × (Scopes × CompNode)) → Type 0
  Resolves F n st none = F
  Resolves F n st (some (st', (scope', comp'))) =
      IsCollecting st'
      × Grows st st'
      × ScopesPlaced P N st' scope'
      × AllNamed P N st' comp'
      × (length st'.closed_vars ≤ length st.closed_vars + n)

  Resolves-same :
      (F : Type 0) (n : ℕ) (st : CompState) (scope : Scopes) (comp : CompNode)
      → IsCollecting st
      → ScopesPlaced P N st scope
      → AllNamed P N st comp
      → Resolves F n st (some (st, (scope, comp)))
  Resolves-same F n st scope comp c p a = (c, (refl, refl, [], refl), p, a, omega arith)

  pub Resolves-more :
      (F F' : Type 0) (i j : ℕ) (st : CompState) (r : Option (CompState × (Scopes × CompNode)))
      → (F → F')
      → i ≤ j
      → Resolves F i st r
      → Resolves F' j st r
  Resolves-more F F' i j st none f l h = f h
  Resolves-more F F' i j st (some (st', (scope', comp'))) f l (c, g, p, a, b) =
      (c, g, p, a, omega arith)

  set_scope_node-AllNamed :
      (st : CompState) (car : CompNode) (sn : ScopeNode)
      → AllNamed P N st car
      → IsNamed P N st (node_sym car) (some sn)
      → AllNamed P N st (set_scope_node car sn)
  unfolding set_scope_node node_sym
  set_scope_node-AllNamed st null sn a m = tt
  set_scope_node-AllNamed st (comp_node car cdr value old) sn (m', a, d) m = (m, a, d)

  set_scope_node-Resolves :
      (F : Type 0) (n : ℕ) (st : CompState) (scope : Scopes) (car : CompNode)
      → AllNamed P N st car
      → 0 < n
      → ((env_find_recurse st.envs st.env (node_sym car) ≡ none) × N (node_sym car) → F)
      → (r : Option (CompState × (Scopes × ScopeNode))) → Handles P N st (node_sym car) r
      → Resolves F n st (elim r [
        | none ↦ none
        | some (st', (scope', sn)) ↦ some (st', (scope', set_scope_node car sn))
      ])
  set_scope_node-Resolves F n st scope car a l f none h = f h
  set_scope_node-Resolves F n st scope car a l f (some (st', (scope', sn))) (c, g, p, m, b) = (
    c,
    g,
    p,
    set_scope_node-AllNamed st' car sn (AllNamed-mono P N st st' car g a) m,
    omega arith,
  )

  handle_car-Resolves :
      (F : Type 0) (st : CompState) (scope : Scopes) (comp car : CompNode)
      → IsCollecting st
      → ScopesPlaced P N st scope
      → AllNamed P N st car
      → length st.closed_vars + 1 < mod32
      → ((env_find_recurse st.envs st.env (node_sym car) ≡ none) × N (node_sym car) → F)
      → (is_define_statement st.envs st.env comp ≡ true → F)
      → Resolves F (nodes car + 1) st (handle_car st scope comp car)
  unfolding handle_car
  handle_car-Resolves F st scope comp car c p a l f g =
      elim (Bool-cases (is_if_token st.envs st.env (node_sym car))) [
        | inl y ↦ rw (y, handle_car) (Resolves-same F (nodes car + 1) st scope car c p a)
        | inr n ↦ elim (Bool-cases (is_define_statement st.envs st.env comp)) [
          | inl y ↦ rw (n, handle_car) (rw (y, handle_car) (g y))
          | inr k ↦
              rw (n, handle_car)
                (rw (k, handle_car)
                  (set_scope_node-Resolves F (nodes car + 1) st scope car a (omega arith) f
                    (scope_handle_symbol st scope (node_sym car))
                    (scope_handle_symbol-Handles P N st scope (node_sym car) c p l)))
        ]
      ]

  -- The parts of a pair, one after the other.
  both-Resolves :
      (st : CompState) (car cdr : CompNode) (value : Value) (sn : Option ScopeNode)
      → AllNamed P N st (comp_node car cdr value sn)
      → (r : Option (CompState × (Scopes × CompNode)))
      → Resolves (IsUnresolved N st.envs st.env (comp_node car cdr value sn)) (nodes car + 1) st r
      → ((st' : CompState) (scope' : Scopes)
          → IsCollecting st'
          → ScopesPlaced P N st' scope'
          → AllNamed P N st' cdr
          → length st'.closed_vars ≤ length st.closed_vars + (nodes car + 1)
          → Resolves
              (IsUnresolved N st'.envs st'.env cdr)
              (nodes cdr)
              st'
              (gen_sub_scope st' scope' cdr))
      → Resolves
          (IsUnresolved N st.envs st.env (comp_node car cdr value sn))
          (nodes car + nodes cdr + 1)
          st
          (elim r [
            | none ↦ none
            | some (st', (scope', car')) ↦ elim (gen_sub_scope st' scope' cdr) [
              | none ↦ none
              | some (st'', (scope'', cdr')) ↦ some (st'', (scope'', comp_node car' cdr' value sn))
            ]
          ])
  both-Resolves st car cdr value sn a none h go = h
  both-Resolves st car cdr value sn (m, a, d) (some (st', (scope', car'))) (c, g, p, n, b) go =
      let later = go st' scope' c p (AllNamed-mono P N st st' cdr g d) b in
      elim (Option-cases (gen_sub_scope st' scope' cdr)) [
        | inl e ↦ (let u = rw e at later in rw e ((in_cdr (IsUnresolved-same N st st' cdr g u))))
        | inr ((st'', (scope'', cdr')), e) ↦
            (let (c', g', p', n', b') = rw e at later in
              let whole = Grows-trans st st' st'' g g' in
              rw e (
                c',
                whole,
                p',
                (
                  IsNamed-mono P N st st'' value sn whole m,
                  AllNamed-mono P N st' st'' car' g' n,
                  n',
                ),
                omega arith,
              ))
      ]

  -- Where the analysis of a body's expressions succeeds, every name that has got a node of a scope has
  -- its own, every closed variable is at the location where the closure will have the variable that
  -- its name means, and the same holds for the scopes. Where it fails, some name is bound by no
  -- environment, or a definition stands where an expression should.
  pub gen_sub_scope-Resolves :
      (st : CompState) (scope : Scopes) (comp : CompNode)
      → IsCollecting st
      → ScopesPlaced P N st scope
      → AllNamed P N st comp
      → length st.closed_vars + nodes comp < mod32
      → Resolves (IsUnresolved N st.envs st.env comp) (nodes comp) st (gen_sub_scope st scope comp)
  unfolding gen_sub_scope
  gen_sub_scope-Resolves st scope null c p a l = Resolves-same ⊥ 0 st scope null c p a
  gen_sub_scope-Resolves st scope (comp_node car cdr value sn) c p (m, a, d) l =
      let F = IsUnresolved N st.envs st.env (comp_node car cdr value sn) in
      let rest =
        λ (r : Option (CompState × (Scopes × CompNode))) (h : Resolves F (nodes car + 1) st r).
          both-Resolves st car cdr value sn (m, a, d) r h
            (λ st' scope' c' p' d' b.
              gen_sub_scope-Resolves st' scope' cdr c' p' d' (omega arith)) in
      elim (Bool-cases (is_symbol_node car)) [
        | inl y ↦
            rw (y, gen_sub_scope)
              (rest (handle_car st scope (comp_node car cdr value sn) car) (
                handle_car-Resolves F st scope (comp_node car cdr value sn) car c p a (omega arith)
                  (λ u. unbound y u.0 u.1) (λ u. misplaced y u)))
        | inr n ↦ elim (Bool-cases (is_pair value)) [
          | inl y ↦
              (let parts = gen_sub_scope-Resolves st scope car c p a (omega arith) in
                rw (n, gen_sub_scope)
                  (rw (y, gen_sub_scope)
                    (rest (gen_sub_scope st scope car) (
                      Resolves-more (IsUnresolved N st.envs st.env car) F (nodes car)
                        (nodes car + 1) st _ (λ u. in_car u) (omega arith) parts))))
          | inr k ↦
              rw (n, gen_sub_scope)
                (rw (k, gen_sub_scope)
                  (rest (some (st, (scope, car)))
                    (Resolves-same F (nodes car + 1) st scope car c p a)))
        ]
      ]
