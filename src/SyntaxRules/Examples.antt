-- ===== src/SyntaxRules/Examples.antt =====
-- The theorem on templates at the template (f x) with x bound to 7, on a heap that holds only it. The
-- symbol f is 21 and x is 53.
use nscheme.Prelude.{false, List, [], ◌∷◌}
use nscheme.Values.{Ptr, Pair}
use nscheme.Memory.{Memory, null, update}
use nscheme.SyntaxRules.{Binding}
use nscheme.SyntaxRules.Templates.{Template, atom, pair}

-- The pair at 32 is followed by the one at 64.
abbrev template_pairs : Ptr → Pair
template_pairs =
    update (update (λ p. record { car = 0; cdr = 0 }) 32 (record { car = 21; cdr = 65 })) 64
      (record { car = 53; cdr = 47 })

abbrev template_memory : Memory
template_memory = record {
  brk = 2048;
  strings = λ p. [];
  symbol_tree = null;
  gc = record { base = 8; end = 1032; allocend = 80 };
  blocks = λ p. record { uintptr = 0; flags = 0; size = 0 };
  pairs = template_pairs;
}

abbrev call_template : Template
call_template = pair (atom 21) (pair (atom 53) (atom 47))

abbrev seven_bound : List Binding
seven_bound = record { name = 48; value = 28; is_variable_length = false } ∷ []
