-- ===== src/Symbols/Examples.antt =====
-- Interning at a table that holds the name "car".
use nscheme.Prelude.{ℕ, refl, List, [], arith, ◌≡◌, ◌↔◌, ◌∷◌}
use nscheme.Memory.{Memory, null, tree_node, update}
use nscheme.Symbols.{try_store_symbol}
use nscheme.Symbols.Interning.{
  IsInterned, Interns, try_store_symbol-Interns, try_store_symbol_injective,
}

abbrev car_only : Memory
car_only = record {
  brk = 32;
  strings = update (λ p. []) 16 (99 ∷ 97 ∷ 114 ∷ []);
  symbol_tree = tree_node null null 16;
  gc = record { base = 0; end = 0; allocend = 0 };
  blocks = λ p. record { uintptr = 0; flags = 0; size = 0 };
  pairs = λ p. record { car = 0; cdr = 0 };
}

car_only-IsInterned : IsInterned car_only
car_only-IsInterned = record {
  started = omega arith;
  aligned = refl;
  blocks = (tt, (omega arith, omega arith, refl), tt);
}

abbrev cdr : List ℕ
cdr = 99 ∷ 100 ∷ 114 ∷ []

try_store_symbol-Interns_example :
    Interns car_only cdr (try_store_symbol car_only cdr).0 (try_store_symbol car_only cdr).1
try_store_symbol-Interns_example = try_store_symbol-Interns car_only cdr car_only-IsInterned

try_store_symbol_injective_example :
    ((try_store_symbol car_only cdr).0
      ≡ (try_store_symbol (try_store_symbol car_only cdr).1 (99 ∷ 97 ∷ 114 ∷ [])).0)
    ↔ (cdr ≡ 99 ∷ 97 ∷ 114 ∷ [])
try_store_symbol_injective_example =
    try_store_symbol_injective car_only cdr (99 ∷ 97 ∷ 114 ∷ []) car_only-IsInterned
