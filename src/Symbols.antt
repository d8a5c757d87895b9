-- ===== src/Symbols.antt =====
-- src/symbols.c: the table of symbols, a binary search tree of the addresses of their names.
mod Examples
pub mod Table
pub mod Interning
use Prim.Native.Nat.{Ordering}
use nscheme.Prelude.{ℕ, Option, none, some, List, length, ◌+◌}
use nscheme.Values.{Ptr}
use nscheme.Memory.{Memory, TreeNode, null, tree_node, update, malloc, strcmp}

-- The address in the node that `tree_lookup` returns.
unfoldable pub tree_lookup : (Ptr → List ℕ) → TreeNode → List ℕ → Option Ptr
tree_lookup strings null symbol = none
tree_lookup strings (tree_node left right d) symbol = elim (strcmp (strings d) symbol) [
  | Ordering.eq ↦ some d
  | Ordering.lt ↦ tree_lookup strings left symbol
  | Ordering.gt ↦ tree_lookup strings right symbol
]

unfoldable pub tree_insert : (Ptr → List ℕ) → TreeNode → Ptr → TreeNode
tree_insert strings null symbol = tree_node null null symbol
tree_insert strings (tree_node left right d) symbol = elim (strcmp (strings d) (strings symbol)) [
  | Ordering.lt ↦ tree_node (tree_insert strings left symbol) right d
  | Ordering.gt ↦ tree_node left (tree_insert strings right symbol) d
  | Ordering.eq ↦ tree_node left right d
]

unfoldable pub lookup_symbol_address : Memory → List ℕ → Option Ptr
unfolding tree_lookup
lookup_symbol_address m symbol = tree_lookup m.strings m.symbol_tree symbol

-- A tree that is there is changed in place, and `tree_insert` returns it.
unfoldable pub store_symbol : Memory → Ptr → Memory
unfolding tree_insert
store_symbol m symbol = record m { symbol_tree = tree_insert m.strings m.symbol_tree symbol }

-- The new name's block, filled by `strncpy`.
unfoldable pub copy_string : Memory → List ℕ → Ptr × Memory
unfolding malloc
copy_string m symbol =
    let (temp, m') = malloc m (length symbol + 1) in
    (temp, record m' { strings = update m'.strings temp symbol })

unfoldable pub try_store_symbol : Memory → List ℕ → Ptr × Memory
unfolding lookup_symbol_address copy_string store_symbol
try_store_symbol m symbol = elim (lookup_symbol_address m symbol) [
  | some p ↦ (p, m)
  | none ↦ (let (p, m') = copy_string m symbol in (p, store_symbol m' p))
]
