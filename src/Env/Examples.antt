-- ===== src/Env/Examples.antt =====
-- The theorems on environments at an inner environment, which binds 5, of an outer one, which
-- binds 7.
use nscheme.Prelude.{ℕ, some, [], arith, length, ◌≤◌, ◌<◌, ◌≡◌, ◌↔◌, ◌⊎◌, ◌∷◌, ◌==◌, if◌then◌else◌}
use nscheme.Values.{Value}
use nscheme.Env.{
  Envs, Node, null, node, set_node, find_node, env_set, env_create, env_set_recurse,
  env_find_recurse, env_find,
}
use nscheme.Env.Tree.{IsOrdered, Holds, find_node-set_node, find_node-Holds}
use nscheme.Env.Chain.{
  IsEnv, resolve, target, value_of, env_find_recurse-resolve, env_set_define,
  env_set_recurse_assign, env_create-resolve,
}

abbrev three : Node
three = node 5 50 (node 3 30 null null) (node 9 90 null null)

three-IsOrdered : IsOrdered three
three-IsOrdered = ((tt, omega arith, tt), (tt, omega arith, tt), (tt, tt, tt, tt), (tt, tt, tt, tt))

find_node-set_node_example :
    find_node (set_node three 4 40) 9 ≡ (if 9 == 4 then some 40 else find_node three 9)
find_node-set_node_example = find_node-set_node three 4 9 40

find_node-Holds_example : (find_node three 9 ≡ some 90) ↔ Holds 9 90 three
find_node-Holds_example = find_node-Holds three 9 90 three-IsOrdered

abbrev two_envs : Envs
two_envs =
    record { root = node 5 50 null null; last = 1 }
    ∷ record { root = node 7 70 null null; last = 0 }
    ∷ []

inner : IsEnv two_envs 2
inner = (omega arith, omega arith)

env_find_recurse-resolve_example :
    value_of two_envs (env_find_recurse two_envs 2 7) ≡ resolve two_envs 2 7
env_find_recurse-resolve_example = env_find_recurse-resolve two_envs 2 7

env_set_define_example :
    (resolve (env_set two_envs 2 7 71) 2 7 ≡ some 71)
    × ((q : ℕ) (j : Value)
        → (j ≡ 7) ⊎ (resolve (env_set two_envs 2 7 71) q j ≡ resolve two_envs q j))
    × ((q : ℕ) (j : Value)
        → (2 ≤ q) ⊎ (resolve (env_set two_envs 2 7 71) q j ≡ resolve two_envs q j))
env_set_define_example = env_set_define two_envs 2 7 71 inner

env_set_recurse_assign_example :
    (resolve (env_set_recurse two_envs 2 7 71) 2 7 ≡ some 71)
    × ((q : ℕ) (j : Value)
        → (j ≡ 7) ⊎ (resolve (env_set_recurse two_envs 2 7 71) q j ≡ resolve two_envs q j))
    × ((q : ℕ) (j : Value)
        → env_find (env_set_recurse two_envs 2 7 71) q j ≡ (
            if q == target 2 (env_find_recurse two_envs 2 7)
            then (if j == 7 then some 71 else env_find two_envs q j)
            else env_find two_envs q j))
env_set_recurse_assign_example = env_set_recurse_assign two_envs 2 7 71 inner

env_create-resolve_example :
    IsEnv (env_create two_envs 2).0 (env_create two_envs 2).1
    × (resolve (env_create two_envs 2).0 (env_create two_envs 2).1 7 ≡ resolve two_envs 2 7)
    × ((q : ℕ)
        → (length two_envs < q) ⊎ (resolve (env_create two_envs 2).0 q 7 ≡ resolve two_envs q 7))
env_create-resolve_example = env_create-resolve two_envs 2 7 (omega arith)
