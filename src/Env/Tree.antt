-- ===== src/Env/Tree.antt =====
-- One environment's tree (src/env.c): what a search finds after `env_set`, and the search order.
use nscheme.Prelude.{inl, inr, some, arith, ◌<◌, ◌≡◌, ◌↔◌, ◌⊎◌, ◌==◌, if◌then◌else◌}
use mathlib.Core.Path.{subst}
use nscheme.Values.{Value}
use nscheme.Env.{Node, null, node, set_node, find_node}

-- A search after a set: the new value at its key, and every other key as before.
pub find_node-set_node :
    (t : Node) (k j v : Value)
    → find_node (set_node t k v) j ≡ (if j == k then some v else find_node t j)
unfolding set_node find_node
find_node-set_node null k j v = ground arith
find_node-set_node (node x w l r) k j v =
    ground (arith, find_node-set_node l k j v, find_node-set_node r k j v)

-- Every key of the tree satisfies `P`.
abbrev pub All : (Value → Type 0) → Node → Type 0
All P null = Unit
All P (node k v l r) = All P l × P k × All P r

abbrev pub IsOrdered : Node → Type 0
IsOrdered null = Unit
IsOrdered (node k v l r) = All (λ x. x < k) l × All (λ x. k < x) r × IsOrdered l × IsOrdered r

All-set_node :
    (P : Value → Type 0) (t : Node) (k v : Value) → P k → All P t → All P (set_node t k v)
unfolding set_node
All-set_node P null k v p a = (tt, p, tt)
All-set_node P (node x w l r) k v p a = ground (arith, All-set_node P l k v, All-set_node P r k v)

-- `env_set` keeps the keys of a tree in search order.
pub set_node-IsOrdered : (t : Node) (k v : Value) → IsOrdered t → IsOrdered (set_node t k v)
unfolding set_node
set_node-IsOrdered null k v s = (tt, tt, tt, tt)
set_node-IsOrdered (node x w l r) k v s = ground (
  arith,
  set_node-IsOrdered l k v,
  set_node-IsOrdered r k v,
  All-set_node (λ y. y < x) l k v,
  All-set_node (λ y. x < y) r k v,
)

-- The tree holds the binding somewhere, whatever the order.
abbrev pub Holds : Value → Value → Node → Type 0
Holds k v null = ⊥
Holds k v (node x w l r) = ((x ≡ k) × (w ≡ v)) ⊎ (Holds k v l ⊎ Holds k v r)

All-Holds : (P : Value → Type 0) (k v : Value) (t : Node) → All P t → Holds k v t → P k
All-Holds P k v null a h = absurd h
All-Holds P k v (node x w l r) a (inl e) = subst P e.0 a.1
All-Holds P k v (node x w l r) a (inr (inl h)) = All-Holds P k v l a.0 h
All-Holds P k v (node x w l r) a (inr (inr h)) = All-Holds P k v r a.2 h

-- In an ordered tree the search finds every binding that the tree holds, and only those.
pub find_node-Holds :
    (t : Node) (k v : Value) → IsOrdered t → (find_node t k ≡ some v) ↔ Holds k v t
unfolding find_node
find_node-Holds null k v s = (λ e. cc, λ h. absurd h)
find_node-Holds (node x w l r) k v s = (
  λ e. ground (arith, (find_node-Holds l k v s.2).0, (find_node-Holds r k v s.3).0),
  elim [
    | inl e ↦ ground arith
    | inr (inl h) ↦
        ground (arith, All-Holds (λ y. y < x) k v l s.0 h, (find_node-Holds l k v s.2).1 h)
    | inr (inr h) ↦
        ground (arith, All-Holds (λ y. x < y) k v r s.1 h, (find_node-Holds r k v s.3).1 h)
  ],
)
