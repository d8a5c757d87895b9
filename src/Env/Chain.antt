-- ===== src/Env/Chain.antt =====
-- Chains of environments (src/env.c): what a name is bound to, seen from an environment, after
-- `env_create`, `env_set` (define) and `env_set_recurse` (set!).
use native.Mathlib.Decide.{dec_lt, ℕ_discrete}
use nscheme.Prelude.{
  ℕ, suc, refl, sym, inl, inr, Option, none, some, [], arith, Option-cases, length, ◌≤◌, ◌<◌, ◌≡◌,
  ◌≢◌, ◌⊎◌, ◌∷◌, ◌==◌, if◌then◌else◌,
}
use nscheme.Values.{Value, Ptr}
use nscheme.Env.{
  Envs, NodeRef, find_node, env_create, env_set, env_find, env_find_recurse, env_set_recurse,
  node_value, write_node,
}
use nscheme.Env.Tree.{find_node-set_node}

-- The address of an environment of the store.
abbrev pub IsEnv : Envs → Ptr → Type 0
IsEnv envs p = (0 < p) × (p ≤ length envs)

length-env_set : (envs : Envs) (p : Ptr) (k v : Value) → length (env_set envs p k v) ≡ length envs
unfolding env_set
length-env_set [] p k v = refl
length-env_set (e ∷ older) p k v = ground (arith, length-env_set older p k v)

-- A search in one environment after a set in one: the new value at that environment and key, and
-- everything else as before.
pub env_find-env_set :
    (envs : Envs) (p q : Ptr) (k j v : Value)
    → IsEnv envs p
    → env_find (env_set envs p k v) q j
      ≡ (if q == p then (if j == k then some v else env_find envs q j) else env_find envs q j)
unfolding env_set env_find
env_find-env_set [] p q k j v h = absurd (omega arith)
env_find-env_set (e ∷ older) p q k j v h = ground (
  arith,
  length-env_set older p k v,
  find_node-set_node e.root k j v,
  env_find-env_set older p q k j v,
)

-- What a name means in an environment: its binding there, or else what it means in the outer one.
unfoldable pub resolve : Envs → Ptr → Value → Option Value
resolve [] p k = none
resolve (e ∷ older) p k =
    let outer = resolve older (if p == suc (length older) then e.last else p) k in
    if p == suc (length older)
    then elim (find_node e.root k) [ some v ↦ some v | none ↦ outer ]
    else outer

-- A node that the search returns is in the store, and has the key.
find_recurse_some :
    (envs : Envs) (p k : Value) (n : NodeRef)
    → env_find_recurse envs p k ≡ some n
    → IsEnv envs n.env × (n.key ≡ k) × (resolve envs p k ≡ node_value envs n)
unfolding env_find_recurse resolve node_value
find_recurse_some [] p k n h = cc
find_recurse_some (e ∷ older) p k n h =
    ground (arith, find_recurse_some older (if p == suc (length older) then e.last else p) k n)

find_recurse_none :
    (envs : Envs) (p k : Value) → env_find_recurse envs p k ≡ none → resolve envs p k ≡ none
unfolding env_find_recurse resolve
find_recurse_none [] p k h = refl
find_recurse_none (e ∷ older) p k h =
    ground (arith, find_recurse_none older (if p == suc (length older) then e.last else p) k)

-- The value of the node that `env_find_recurse` returns.
abbrev pub value_of : Envs → Option NodeRef → Option Value
value_of envs none = none
value_of envs (some n) = node_value envs n

-- The node that `env_find_recurse` returns has the value of the innermost binding of the name along
-- the chain; where it returns none, no environment of the chain binds the name.
pub env_find_recurse-resolve :
    (envs : Envs) (p : Ptr) (k : Value)
    → value_of envs (env_find_recurse envs p k) ≡ resolve envs p k
env_find_recurse-resolve envs p k = elim (Option-cases (env_find_recurse envs p k)) [
  | inl e ↦ rw e (sym (find_recurse_none envs p k e))
  | inr (n, e) ↦ rw e (sym (find_recurse_some envs p k n e).2)
]

resolve-env_set_ne :
    (envs : Envs) (p q : Ptr) (k j v : Value)
    → j ≢ k
    → resolve (env_set envs p k v) q j ≡ resolve envs q j
unfolding resolve env_set
resolve-env_set_ne [] p q k j v h = refl
resolve-env_set_ne (e ∷ older) p q k j v h = ground (
  arith,
  length-env_set older p k v,
  find_node-set_node e.root k j v,
  resolve-env_set_ne older p (if q == suc (length older) then e.last else q) k j v,
)

resolve-env_set_self :
    (envs : Envs) (p : Ptr) (k v : Value) → IsEnv envs p → resolve (env_set envs p k v) p k ≡ some v
unfolding resolve env_set
resolve-env_set_self [] p k v h = absurd (omega arith)
resolve-env_set_self (e ∷ older) p k v h = ground (
  arith,
  length-env_set older p k v,
  find_node-set_node e.root k k v,
  resolve-env_set_self older p k v,
)

resolve-env_set_outer :
    (envs : Envs) (p q : Ptr) (k j v : Value)
    → IsEnv envs p
    → q < p
    → resolve (env_set envs p k v) q j ≡ resolve envs q j
unfolding resolve env_set
resolve-env_set_outer [] p q k j v i h = refl
resolve-env_set_outer (e ∷ older) p q k j v i h =
    ground (arith, length-env_set older p k v, resolve-env_set_outer older p q k j v)

key_cases : {A : Type 0} (j k : ℕ) → (j ≢ k → A) → (j ≡ k) ⊎ A
key_cases j k f = elim (ℕ_discrete j k) [ yes e ↦ inl e | no n ↦ inr (f n) ]

address_cases : {A : Type 0} (p q : ℕ) → (q < p → A) → (p ≤ q) ⊎ A
address_cases p q f = elim (dec_lt q p) [ yes l ↦ inr (f l) | no n ↦ inl (omega arith) ]

-- A definition in an environment of the store binds the name there, leaves every other name as it
-- was wherever it is used, and is not seen from older environments.
pub env_set_define :
    (envs : Envs) (p : Ptr) (k v : Value)
    → IsEnv envs p
    → (resolve (env_set envs p k v) p k ≡ some v)
      × ((q : Ptr) (j : Value) → (j ≡ k) ⊎ (resolve (env_set envs p k v) q j ≡ resolve envs q j))
      × ((q : Ptr) (j : Value) → (p ≤ q) ⊎ (resolve (env_set envs p k v) q j ≡ resolve envs q j))
env_set_define envs p k v h = (
  resolve-env_set_self envs p k v h,
  λ q j. key_cases j k (resolve-env_set_ne envs p q k j v),
  λ q j. address_cases p q (resolve-env_set_outer envs p q k j v h),
)

-- A write to the node that a name means is seen wherever the name means that node.
resolve-write :
    (envs : Envs) (q : Ptr) (k v : Value) (n : NodeRef)
    → env_find_recurse envs q k ≡ some n
    → resolve (env_set envs n.env k v) q k ≡ some v
unfolding env_find_recurse resolve env_set
resolve-write [] q k v n h = cc
resolve-write (e ∷ older) q k v n h =
    let q' = if q == suc (length older) then e.last else q in
    ground (
      arith,
      length-env_set older n.env k v,
      find_node-set_node e.root k k v,
      find_recurse_some older q' k n,
      resolve-write older q' k v n,
    )

set_recurse_found :
    (envs : Envs) (p k v : Value) (n : NodeRef)
    → env_find_recurse envs p k ≡ some n
    → env_set_recurse envs p k v ≡ env_set envs n.env k v
unfolding env_set_recurse write_node
set_recurse_found envs p k v n e = ground (arith, find_recurse_some envs p k n)

set_recurse_new :
    (envs : Envs) (p k v : Value)
    → env_find_recurse envs p k ≡ none
    → env_set_recurse envs p k v ≡ env_set envs p k v
unfolding env_set_recurse
set_recurse_new envs p k v e = ground arith

-- The environment whose node `env_set_recurse` writes: the one of the node that the search along the
-- chain finds, or else the one it starts in.
abbrev pub target : Ptr → Option NodeRef → Ptr
target p none = p
target p (some n) = n.env

-- `env_set_recurse` (set!) in an environment of the store gives the name its new value there and
-- leaves what every other name means everywhere. Of all the bindings in the store it changes one: the
-- binding of that name in the environment where the search along the chain finds it, or, where the
-- search finds none, in the environment that it starts in.
pub env_set_recurse_assign :
    (envs : Envs) (p : Ptr) (k v : Value)
    → IsEnv envs p
    → (resolve (env_set_recurse envs p k v) p k ≡ some v)
      × ((q : Ptr) (j : Value)
          → (j ≡ k) ⊎ (resolve (env_set_recurse envs p k v) q j ≡ resolve envs q j))
      × ((q : Ptr) (j : Value)
          → env_find (env_set_recurse envs p k v) q j ≡ (
              if q == target p (env_find_recurse envs p k)
              then (if j == k then some v else env_find envs q j)
              else env_find envs q j))
env_set_recurse_assign envs p k v h = elim (Option-cases (env_find_recurse envs p k)) [
  | inl e ↦ rw (set_recurse_new envs p k v e) (
    resolve-env_set_self envs p k v h,
    λ q j. key_cases j k (resolve-env_set_ne envs p q k j v),
    λ q j. rw e (env_find-env_set envs p q k j v h),
  )
  | inr (m, e) ↦ rw (set_recurse_found envs p k v m e) (
    resolve-write envs p k v m e,
    λ q j. key_cases j k (resolve-env_set_ne envs m.env q k j v),
    λ q j. rw e (env_find-env_set envs m.env q k j v (find_recurse_some envs p k m e).0),
  )
]

-- A new environment means by every name what the environment means that it was created in, and
-- the names of the older environments mean what they did.
pub env_create-resolve :
    (envs : Envs) (last : Ptr) (k : Value)
    → last ≤ length envs
    → IsEnv (env_create envs last).0 (env_create envs last).1
      × (resolve (env_create envs last).0 (env_create envs last).1 k ≡ resolve envs last k)
      × ((q : Ptr) → (length envs < q) ⊎ (resolve (env_create envs last).0 q k ≡ resolve envs q k))
unfolding env_create resolve find_node
env_create-resolve envs last k h =
    (omega arith, ground arith, λ q. address_cases (suc (length envs)) q (λ l. ground arith))
