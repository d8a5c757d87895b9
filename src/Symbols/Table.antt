-- ===== src/Symbols/Table.antt =====
-- Interning (src/symbols.c): one address for each name.
use Prim.Native.Nat.{Ordering}
use nscheme.Prelude.{ℕ, Bool, true, false, Option, none, some, List, arith, ◌≡◌, if◌then◌else◌}
use nscheme.Values.{Ptr}
use nscheme.Memory.{TreeNode, null, tree_node, strcmp, eq_of_strcmp}
use nscheme.Symbols.{tree_lookup, tree_insert}

-- What the tree held before, or else the inserted address under its own name.
abbrev pub found_or : Option Ptr → Bool → Ptr → Option Ptr
found_or (some q) hit p = some q
found_or none hit p = if hit then some p else none

abbrev pub same : List ℕ → List ℕ → Bool
same a b = elim (strcmp a b) [ Ordering.eq ↦ true | _ ↦ false ]

pub tree_lookup-tree_insert :
    (strings : Ptr → List ℕ) (t : TreeNode) (p : Ptr) (x : List ℕ)
    → tree_lookup strings (tree_insert strings t p) x
      ≡ found_or (tree_lookup strings t x) (same (strings p) x) p
unfolding tree_lookup tree_insert
tree_lookup-tree_insert strings null p x = ground arith
tree_lookup-tree_insert strings (tree_node l r d) p x = ground (
  arith,
  tree_lookup-tree_insert strings l p x,
  tree_lookup-tree_insert strings r p x,
  eq_of_strcmp (strings d) (strings p),
  eq_of_strcmp (strings p) x,
)

-- What a search returns has the name that was looked for.
pub tree_lookup_sound :
    (strings : Ptr → List ℕ) (t : TreeNode) (x : List ℕ) (p : Ptr)
    → tree_lookup strings t x ≡ some p
    → strings p ≡ x
unfolding tree_lookup
tree_lookup_sound strings null x p h = cc
tree_lookup_sound strings (tree_node l r d) x p h = ground (
  arith,
  eq_of_strcmp (strings d) x,
  tree_lookup_sound strings l x p,
  tree_lookup_sound strings r x p,
)

-- Every address of the tree satisfies `P`.
abbrev pub All : (Ptr → Type 0) → TreeNode → Type 0
All P null = Unit
All P (tree_node l r d) = All P l × P d × All P r
