-- ===== src/Env.antt =====
-- src/env.c and include/nscheme/env.h: environments as binary search trees of bindings, chained
-- from an inner environment to the outer one by `last`.
--
-- Environments are never freed, and `last` is written by `env_create` alone. So the store is the
-- list of all environments, the newest first, and the address of one is its number in order of
-- creation, from 1; 0 is `NULL`. A walk along `last` goes down the list. The nodes of a tree are
-- never moved or removed, so the address of a node is written as its environment with its key.
-- Every address that `env.c` is called with is one of the store; at any other, which the C code
-- would dereference, a search here finds nothing and `env_set` changes nothing.
pub mod Tree
mod Examples
pub mod Chain
use nscheme.Prelude.{
  ℕ, suc, ◌+◌, Bool, true, false, Option, none, some, List, [], ◌∷◌, ltb, ◌==◌, if◌then◌else◌,
  length,
}
use nscheme.Values.{Value, Ptr}

-- `env_node_t *`
pub data Node : Type 0 where
  null : Node
  node : (key value : Value) (left right : Node) → Node

-- `environment_t`
pub record Environment : Type 0 where
  pub root : Node
  pub last : Ptr

abbrev pub Envs : Type 0
Envs = List Environment

-- A node of a tree of the store.
pub record NodeRef : Type 0 where
  pub env : Ptr
  pub key : Value

-- The walk of `env_set`: down by the order of the keys to the node that has the key, which takes
-- the value, or to the free place, which takes a new node.
unfoldable pub set_node : Node → Value → Value → Node
set_node null key value = node key value null null
set_node (node k v left right) key value =
    if key == k
    then node key value left right
    else if ltb key k
    then node k v (set_node left key value) right
    else node k v left (set_node right key value)

-- The loop of `env_find`, with the value of the node that it ends at.
unfoldable pub find_node : Node → Value → Option Value
find_node null key = none
find_node (node k v left right) key =
    if key == k then some v else (if ltb key k then find_node left key else find_node right key)

-- A new environment is the newest; its address is the length of the new store.
unfoldable pub env_create : Envs → Ptr → Envs × Ptr
env_create envs last = (record { root = null; last = last } ∷ envs, suc (length envs))

unfoldable pub env_set : Envs → Ptr → Value → Value → Envs
env_set [] env key value = []
env_set (e ∷ older) env key value =
    if env == suc (length older)
    then record e { root = set_node e.root key value } ∷ older
    else e ∷ env_set older env key value

-- `env_find`, from an address.
unfoldable pub env_find : Envs → Ptr → Value → Option Value
env_find [] env key = none
env_find (e ∷ older) env key =
    if env == suc (length older) then find_node e.root key else env_find older env key

-- The loop of `env_find_recurse`: this environment, or else the one at `last`.
unfoldable pub env_find_recurse : Envs → Ptr → Value → Option NodeRef
env_find_recurse [] env key = none
env_find_recurse (e ∷ older) env key =
    let rest = env_find_recurse older (if env == suc (length older) then e.last else env) key in
    if env == suc (length older)
    then elim (find_node e.root key) [
      | some _ ↦ some (record { env = env; key = key })
      | none ↦ rest
    ]
    else rest

-- `node->value`
unfoldable pub node_value : Envs → NodeRef → Option Value
unfolding env_find
node_value envs n = env_find envs n.env n.key

-- `node->value = value`, at a node that is there.
unfoldable pub write_node : Envs → NodeRef → Value → Envs
unfolding env_set
write_node envs n value = env_set envs n.env n.key value

unfoldable pub env_set_recurse : Envs → Ptr → Value → Value → Envs
unfolding env_find_recurse write_node env_set
env_set_recurse envs env key value = elim (env_find_recurse envs env key) [
  | some n ↦ write_node envs n value
  | none ↦ env_set envs env key value
]
