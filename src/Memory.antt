-- ===== src/Memory.antt =====
-- The memory that the components share, and what they use of the C library.
--
-- An allocated block is known by its address; what it holds stands in a field for its kind. A
-- string is the list of its bytes, without the terminating zero.
use nscheme.Prelude.{ℕ, refl, List, [], arith, ◌+◌, ◌*◌, ◌/◌, ◌≡◌, ◌∷◌, ◌==◌, if◌then◌else◌}
use Prim.Native.Nat.{compare, Ordering}
use nscheme.Values.{Ptr, Pair}

-- `scm_gc_context_t` (include/nscheme/vm.h)
pub record GcContext : Type 0 where
  pub base : Ptr
  pub end : Ptr
  pub allocend : Ptr

-- `scm_gc_block_t` (src/gc.c), the header of a block of the collected heap.
pub record GcBlock : Type 0 where
  pub uintptr : ℕ
  pub flags : ℕ
  pub size : ℕ

-- `tree_node_t` (src/symbols.c)
pub data TreeNode : Type 0 where
  null : TreeNode
  tree_node : (left right : TreeNode) (data_ : Ptr) → TreeNode

pub record Memory : Type 0 where
  -- the next address that `malloc` and `calloc` return
  pub brk : Ptr
  pub strings : Ptr → List ℕ
  -- the variable of that name in src/symbols.c
  pub symbol_tree : TreeNode
  pub gc : GcContext
  -- the header of the block that ends before an address
  pub blocks : Ptr → GcBlock
  pub pairs : Ptr → Pair

-- A memory map, changed at one address.
abbrev pub update {ℓ} : {A : Type ℓ} → (Ptr → A) → Ptr → A → Ptr → A
update f p a q = if q == p then a else f q

-- `malloc` returns a multiple of 16 behind all earlier blocks.
unfoldable pub malloc : Memory → ℕ → Ptr × Memory
malloc m n = (m.brk, record m { brk = m.brk + 16 * (n / 16 + 1) })

-- `strcmp`: the sign of the result.
unfoldable pub strcmp : List ℕ → List ℕ → Ordering
strcmp [] [] = Ordering.eq
strcmp [] (y ∷ ys) = Ordering.lt
strcmp (x ∷ xs) [] = Ordering.gt
strcmp (x ∷ xs) (y ∷ ys) = elim (compare x y) [
  | Ordering.lt ↦ Ordering.lt
  | Ordering.eq ↦ strcmp xs ys
  | Ordering.gt ↦ Ordering.gt
]

pub eq_of_strcmp : (a b : List ℕ) → strcmp a b ≡ Ordering.eq → a ≡ b
unfolding strcmp
eq_of_strcmp [] [] h = refl
eq_of_strcmp [] (y ∷ ys) h = cc
eq_of_strcmp (x ∷ xs) [] h = cc
eq_of_strcmp (x ∷ xs) (y ∷ ys) h = ground (arith, eq_of_strcmp xs ys)

pub strcmp_refl : (a : List ℕ) → strcmp a a ≡ Ordering.eq
unfolding strcmp
strcmp_refl [] = refl
strcmp_refl (x ∷ xs) = ground (arith, strcmp_refl xs)
