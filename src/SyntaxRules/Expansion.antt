-- ===== src/SyntaxRules/Expansion.antt =====
-- `expand` (src/syntax-rules.c) fills a macro's template.
use nscheme.Prelude.{ℕ, true, false, List}
use nscheme.Values.{Value, is_pair, get_pair, scm_type_null}
use nscheme.Memory.{Memory}
use nscheme.Run.{Run, ◌>>=◌}
use nscheme.Gc.{construct_pair}
use nscheme.SyntaxRules.{Binding, expand}

-- The end of `expand`: the rest of the template, and the new pair.
abbrev finish : ℕ → Memory → List Binding → (cdr retcar : Value) → Run (Value × Memory)
finish k m bindings cdr retcar = elim (is_pair cdr) [
  | true ↦ expand k m bindings (get_pair cdr) >>= λ r. construct_pair r.1 retcar r.0
  | false ↦ construct_pair m retcar scm_type_null
]
