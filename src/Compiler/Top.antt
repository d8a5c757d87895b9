-- ===== src/Compiler/Top.antt =====
-- The scope analysis (src/scope.c) of a closure's body.
use nscheme.Prelude.{ℕ, Option}
use nscheme.Values.{Value}
use nscheme.Run.{Run, ok, fault, panic, out_of_fuel}
use nscheme.Compiler.State.{ScopeType, CompNode, CompState}
use nscheme.Compiler.Scope.{Scopes}
use nscheme.Compiler.Unresolved.{IsUnresolved, IsUnfinished}
use nscheme.Compiler.Resolved.{nodes, Resolves}

-- `P` says what a parameter or a local variable is known to be at, and `N` holds of the names that are
-- neither.
module _ (P : ScopeType → Value → ℕ → Type 0) (N : Value → Type 0) where
  -- What the analysis of a body promises: it ends; where it succeeds, the names have their places; where
  -- it fails, a name is bound by nothing or a definition is misplaced; and it is undefined only
  -- where the definitions in front are not followed by an expression or one of them has no name.
  abbrev pub EndsResolved :
      CompNode → CompState → Run (Option (CompState × (Scopes × CompNode))) → Type 0
  EndsResolved comp st (ok r) = Resolves P N (IsUnresolved N st.envs st.env comp) (nodes comp) st r
  EndsResolved comp st fault = IsUnfinished st.envs st.env comp
  EndsResolved comp st panic = ⊥
  EndsResolved comp st out_of_fuel = ⊥
