-- ===== src/Symbols/Interning.antt =====
-- One address for each name (src/symbols.c): what `try_store_symbol` returns and keeps.
use mathlib.Core.Path.{subst}
use native.Mathlib.Decide.{dec_lt}
use nscheme.Prelude.{
  ℕ, refl, sym, ap, inl, inr, Bool, true, false, Option, none, some, List, arith, Bool-cases,
  Option-cases, ◌≤◌, ◌<◌, ◌≡◌, ◌↔◌, ◌⊎◌, if◌then◌else◌, ◌∙◌,
}
use nscheme.Values.{Ptr}
use nscheme.Values.Tagging.{IsAligned}
use nscheme.Memory.{Memory, TreeNode, null, tree_node, update, strcmp_refl, eq_of_strcmp}
use nscheme.Symbols.{
  tree_lookup, tree_insert, lookup_symbol_address, store_symbol, copy_string, try_store_symbol,
}
use nscheme.Symbols.Table.{tree_lookup-tree_insert, tree_lookup_sound, All, found_or, same}

All-tree_insert :
    (P : Ptr → Type 0) (strings : Ptr → List ℕ) (t : TreeNode) (p : Ptr)
    → P p
    → All P t
    → All P (tree_insert strings t p)
unfolding tree_insert
All-tree_insert P strings null p h a = (tt, h, tt)
All-tree_insert P strings (tree_node l r d) p h a =
    ground (arith, All-tree_insert P strings l p, All-tree_insert P strings r p)

pub All-imp : (P Q : Ptr → Type 0) (t : TreeNode) → ((q : Ptr) → P q → Q q) → All P t → All Q t
All-imp P Q null f a = tt
All-imp P Q (tree_node l r d) f a = (All-imp P Q l f a.0, f d a.1, All-imp P Q r f a.2)

All-tree_lookup :
    (P : Ptr → Type 0) (strings : Ptr → List ℕ) (t : TreeNode) (x : List ℕ) (p : Ptr)
    → All P t
    → tree_lookup strings t x ≡ some p
    → P p
unfolding tree_lookup
All-tree_lookup P strings null x p a h = cc
All-tree_lookup P strings (tree_node l r d) x p a h =
    ground (arith, All-tree_lookup P strings l x p, All-tree_lookup P strings r x p)

-- A string at an address outside the tree changes no search.
tree_lookup-update :
    (strings : Ptr → List ℕ) (t : TreeNode) (fresh : Ptr) (s x : List ℕ)
    → All (λ q. q < fresh) t
    → tree_lookup (update strings fresh s) t x ≡ tree_lookup strings t x
unfolding tree_lookup
tree_lookup-update strings null fresh s x a = refl
tree_lookup-update strings (tree_node l r d) fresh s x a =
    ground (
      arith,
      tree_lookup-update strings l fresh s x a.0,
      tree_lookup-update strings r fresh s x a.2,
    )

abbrev pub IsBlock : Memory → Ptr → Type 0
IsBlock m q = (0 < q) × (q < m.brk) × IsAligned q

-- The table holds addresses of blocks that `malloc` has returned.
pub record IsInterned (m : Memory) : Type 0 where
  pub started : 0 < m.brk
  pub aligned : IsAligned m.brk
  pub blocks : All (IsBlock m) m.symbol_tree

-- What interning `x` promises of the address that it returns and of the memory that it leaves.
pub record Interns (m : Memory) (x : List ℕ) (p : Ptr) (m' : Memory) : Type 0 where
  pub name : m'.strings p ≡ x
  pub stored : lookup_symbol_address m' x ≡ some p
  pub block : IsBlock m' p
  pub interned : IsInterned m'
  pub others :
      (y : List ℕ)
      → lookup_symbol_address m' y ≡ (if same x y then some p else lookup_symbol_address m y)
  pub kept : (q : Ptr) → (m.brk ≤ q) ⊎ (m'.strings q ≡ m.strings q)

eq_of_same : (x y : List ℕ) → same x y ≡ true → x ≡ y
eq_of_same x y h = ground (arith, eq_of_strcmp x y)

same_refl : (x : List ℕ) → same x x ≡ true
same_refl x = ground (arith, strcmp_refl x)

intern_old :
    (m : Memory) (x : List ℕ) (p : Ptr)
    → IsInterned m
    → lookup_symbol_address m x ≡ some p
    → Interns m x p m
unfolding lookup_symbol_address
intern_old m x p v e = record {
  name = tree_lookup_sound m.strings m.symbol_tree x p e;
  stored = e;
  block = All-tree_lookup (IsBlock m) m.strings m.symbol_tree x p v.blocks e;
  interned = v;
  others = old_others;
  kept = λ q. inr refl;
}
  where
    old_others :
        (y : List ℕ)
        → tree_lookup m.strings m.symbol_tree y
          ≡ (if same x y then some p else tree_lookup m.strings m.symbol_tree y)
    old_others y = elim (Bool-cases (same x y)) [
      | inl e' ↦
          rw e' (subst (λ z. tree_lookup m.strings m.symbol_tree z ≡ some p) (eq_of_same x y e') e)
      | inr e' ↦ rw e'
    ]

found_or_if :
    (o : Option Ptr) (hit : Bool) (p : Ptr)
    → o ≡ none ⊎ (hit ≡ false)
    → found_or o hit p ≡ (if hit then some p else o)
found_or_if none hit p h = refl
found_or_if (some q) hit p (inl e) = cc
found_or_if (some q) false p (inr e) = refl
found_or_if (some q) true p (inr e) = cc

module _ (m : Memory) (x : List ℕ) (v : IsInterned m) where
  abbrev copied : Memory
  copied = (copy_string m x).1

  lookup_new :
      (y : List ℕ)
      → lookup_symbol_address (store_symbol copied m.brk) y
        ≡ found_or (lookup_symbol_address m y) (same x y) m.brk
  unfolding lookup_symbol_address store_symbol copy_string
  lookup_new y = ground (
    arith,
    tree_lookup-tree_insert (update m.strings m.brk x) m.symbol_tree m.brk y,
    tree_lookup-update m.strings m.symbol_tree m.brk x y
        (All-imp (IsBlock m) (λ q. q < m.brk) m.symbol_tree (λ q b. b.1) v.blocks),
  )

  -- The names that are found, when `x` was not among them.
  found_new :
      lookup_symbol_address m x ≡ none
      → (y : List ℕ)
      → found_or (lookup_symbol_address m y) (same x y) m.brk
        ≡ (if same x y then some m.brk else lookup_symbol_address m y)
  found_new e y = elim (Bool-cases (same x y)) [
    | inl e' ↦
        found_or_if _ _ m.brk
          (inl (subst (λ z. lookup_symbol_address m z ≡ none) (eq_of_same x y e') e))
    | inr e' ↦ found_or_if _ _ m.brk (inr e')
  ]

  intern_new : lookup_symbol_address m x ≡ none → Interns m x m.brk (store_symbol copied m.brk)
  unfolding store_symbol copy_string
  intern_new e = record {
    name = ground arith;
    stored = rw (lookup_new x, e, same_refl x);
    block = (v.started, omega arith, v.aligned);
    interned = record {
      started = omega arith;
      aligned = omega (arith, v.aligned);
      blocks =
          All-tree_insert (IsBlock (store_symbol copied m.brk)) (update m.strings m.brk x)
            m.symbol_tree m.brk (v.started, omega arith, v.aligned)
            (All-imp (IsBlock m) (IsBlock (store_symbol copied m.brk)) m.symbol_tree
              (λ q b. (b.0, omega (arith, b.1), b.2)) v.blocks);
    };
    others = λ y. lookup_new y ∙ found_new e y;
    kept = λ q. elim (dec_lt q m.brk) [ yes l ↦ inr (ground arith) | no n ↦ inl (omega arith) ];
  }

try_store_old :
    (m : Memory) (x : List ℕ) (p : Ptr)
    → lookup_symbol_address m x ≡ some p
    → try_store_symbol m x ≡ (p, m)
unfolding try_store_symbol
try_store_old m x p e = ground arith

try_store_new :
    (m : Memory) (x : List ℕ)
    → lookup_symbol_address m x ≡ none
    → try_store_symbol m x ≡ (m.brk, store_symbol (copy_string m x).1 m.brk)
unfolding try_store_symbol
try_store_new m x e = ground arith

-- `try_store_symbol` returns the address of the name, which every later search returns, and leaves
-- the other names, their addresses and their bytes as they were.
pub try_store_symbol-Interns :
    (m : Memory) (x : List ℕ)
    → IsInterned m
    → Interns m x (try_store_symbol m x).0 (try_store_symbol m x).1
try_store_symbol-Interns m x v = elim (Option-cases (lookup_symbol_address m x)) [
  | inl e ↦ rw (try_store_new m x e) (intern_new m x v e)
  | inr (p, e) ↦ rw (try_store_old m x p e) (intern_old m x p v e)
]

-- A name that was found is still found, at its address.
pub try_store_symbol_found :
    (m : Memory) (x y : List ℕ) (p : Ptr)
    → IsInterned m
    → lookup_symbol_address m y ≡ some p
    → lookup_symbol_address (try_store_symbol m x).1 y ≡ some p
try_store_symbol_found m x y p v h =
    let i = try_store_symbol-Interns m x v in
    let others = i.others y in
    elim (Bool-cases (same x y)) [
      | inl e ↦
          (let found : lookup_symbol_address m x ≡ some p =
              subst (λ z. lookup_symbol_address m z ≡ some p) (sym (eq_of_same x y e)) h in
            (rw e at others) ∙ ap (λ r. some r.0) (try_store_old m x p found))
      | inr e ↦ (rw e at others) ∙ h
    ]

kept_below : {A : Type 0} {n q : ℕ} → (n ≤ q) ⊎ A → q < n → A
kept_below (inl l) h = absurd (omega arith)
kept_below (inr a) h = a

-- Two names are interned at one address exactly if they are the same name.
pub try_store_symbol_injective :
    (m : Memory) (x y : List ℕ)
    → IsInterned m
    → ((try_store_symbol m x).0 ≡ (try_store_symbol (try_store_symbol m x).1 y).0) ↔ (x ≡ y)
try_store_symbol_injective m x y v =
    let p = (try_store_symbol m x).0 in
    let m' = (try_store_symbol m x).1 in
    let a = try_store_symbol-Interns m x v in
    let m'' = (try_store_symbol m' y).1 in
    let b = try_store_symbol-Interns m' y a.interned in
    (
      λ e. sym a.name ∙ sym (kept_below (b.kept p) a.block.1) ∙ ap m''.strings e ∙ b.name,
      λ e.
          subst (λ z. p ≡ (try_store_symbol m' z).0) e
            (ap (λ r. r.0) (sym (try_store_old m' x p a.stored))),
    )
