-- ===== src/Compiler/Expr.antt =====
-- Expressions without calls: constants, references and conditionals, as the compiler reads them, and
-- the code for them.
use mathlib.Core.List.{append_assoc}
use nscheme.Prelude.{
  ℕ, suc, refl, sym, ap, true, false, Option, none, some, List, [], arith, length, length-append,
  ◌+◌, ◌%◌, ◌<◌, ◌≡◌, ◌∷◌, ◌++◌, ◌∙◌,
}
use nscheme.Prelude.Words.{mod32}
use nscheme.Values.{Value, Ptr, is_pair}
use nscheme.Env.{Envs}
use nscheme.Run.{ok, Run}
use nscheme.Compiler.State.{
  InstrNode, ScopeNode, CompNode, CompState, comp_node, instr_jump_if_false, instr_jump,
  instr_push_constant, instr_closure_ref, instr_stack_ref, scope_parameter, scope_local,
  scope_closure, add_instr_node, is_if_statement, InstrType,
}
use nscheme.Compiler.Code.{set_op, compile_branches}

pub data Expr : Type 0 where
  constant : Value → Expr
  stack_value closed_value : ℕ → Expr
  conditional : (test first second : Expr) → Expr

abbrev pub size : Expr → ℕ
size (constant v) = 1
size (stack_value i) = 1
size (closed_value i) = 1
size (conditional c t e) = size c + (size t + (size e + 2))

abbrev pub instr_node : InstrType → ℕ → InstrNode
instr_node i n = record { instr = i; op = n }

-- The code for an expression that stands at an index.
abbrev pub code : ℕ → Expr → List InstrNode
code pc (constant v) = instr_node instr_push_constant v ∷ []
code pc (stack_value i) = instr_node instr_stack_ref i ∷ []
code pc (closed_value i) = instr_node instr_closure_ref i ∷ []
code pc (conditional c t e) =
    code pc c
    ++ instr_node instr_jump_if_false (pc + size c + 1 + size t + 1)
      ∷ (code (pc + size c + 1) t
          ++ instr_node instr_jump (pc + size (conditional c t e))
            ∷ code (pc + size c + 1 + size t + 1) e)

-- How the compiler reads a node of the body, with its names found.
pub data Reads (envs : Envs) (env : Ptr) : CompNode → Expr → Type 0 where
  reads_constant :
      {a d : CompNode} {v : Value}
      → is_pair v ≡ false
      → Reads envs env (comp_node a d v none) (constant v)
  reads_parameter :
      {a d : CompNode} {v sym : Value} {i : ℕ}
      → is_pair v ≡ false
      → Reads envs env
          (comp_node a d v (some (record { sym = sym; type = scope_parameter; location = i })))
          (stack_value i)
  reads_local :
      {a d : CompNode} {v sym : Value} {i : ℕ}
      → is_pair v ≡ false
      → Reads envs env
          (comp_node a d v (some (record { sym = sym; type = scope_local; location = i })))
          (stack_value i)
  reads_closure :
      {a d : CompNode} {v sym : Value} {i : ℕ}
      → is_pair v ≡ false
      → Reads envs env
          (comp_node a d v (some (record { sym = sym; type = scope_closure; location = i })))
          (closed_value i)
  reads_if :
      {a d test first second : CompNode} {v v₀ v₁ v₂ : Value} {s s₀ s₁ s₂ : Option ScopeNode}
      {c t e : Expr}
      → is_pair v ≡ true
      → is_if_statement envs env (
          comp_node a (comp_node test (comp_node first (comp_node second d v₂ s₂) v₁ s₁) v₀ s₀) v s)
        ≡ true
      → Reads envs env test c
      → Reads envs env first t
      → Reads envs env second e
      → Reads envs env
          (comp_node a
            (comp_node test (comp_node first (comp_node second d v₂ s₂) v₁ s₁) v₀ s₀)
            v
            s)
          (conditional c t e)

pub length-code : (pc : ℕ) (e : Expr) → length (code pc e) ≡ size e
length-code pc (constant v) = refl
length-code pc (stack_value i) = refl
length-code pc (closed_value i) = refl
length-code pc (conditional c t e) =
    let j = instr_node instr_jump_if_false (pc + size c + 1 + size t + 1) in
    let k = instr_node instr_jump (pc + size (conditional c t e)) in
    let T = code (pc + size c + 1) t in
    let E = code (pc + size c + 1 + size t + 1) e in
    omega (
      arith,
      length-append (code pc c) (j ∷ (T ++ k ∷ E)),
      length-append T (k ∷ E),
      length-code pc c,
      length-code (pc + size c + 1) t,
      length-code (pc + size c + 1 + size t + 1) e,
    )

set_op-append :
    (xs ys : List InstrNode) (k op : ℕ)
    → set_op (xs ++ ys) (length xs + k) op ≡ xs ++ set_op ys k op
unfolding set_op
set_op-append [] ys k op = let e : 0 + k ≡ k = omega arith in rw e refl
set_op-append (x ∷ xs) ys k op =
    let e : length (x ∷ xs) + k ≡ suc (length xs + k) = omega arith in
    rw e (ap (λ l. x ∷ l) (set_op-append xs ys k op))

-- The state with the code for `e` behind its own.
abbrev pub compiled : CompState → Expr → CompState
compiled st e = record st {
  instrs = st.instrs ++ code (length st.instrs) e;
  stack_ptr = (st.stack_ptr + 1) % mod32;
  instr_ptr = length st.instrs + size e;
}

-- The jumps of a conditional, filled in afterwards.
set_op-jumps :
    (I C T E : List InstrNode) (a b p q : ℕ)
    → p ≡ length I + length C
    → q ≡ length I + length C + 1 + length T
    → set_op
        (set_op
          (((((I ++ C) ++ instr_node instr_jump_if_false 0 ∷ []) ++ T)
              ++ instr_node instr_jump 0 ∷ [])
            ++ E)
          p
          a)
        q
        b
      ≡ I ++ (C ++ instr_node instr_jump_if_false a ∷ (T ++ instr_node instr_jump b ∷ E))
unfolding set_op
set_op-jumps I C T E a b p q hp hq =
    let jif = instr_node instr_jump_if_false 0 in
    let jump = instr_node instr_jump 0 in
    let ep : p ≡ length I + (length C + 0) = omega arith in
    let eq : q ≡ length I + (length C + suc (length T + 0)) = omega arith in
    let shape : ((((I ++ C) ++ jif ∷ []) ++ T) ++ jump ∷ []) ++ E
        ≡ I ++ (C ++ jif ∷ (T ++ jump ∷ E)) =
      simp append_assoc in
    rw (shape, ep, eq)
      (ap (λ l. set_op l (length I + (length C + suc (length T + 0))) b)
          (set_op-append I _ (length C + 0) a ∙ ap (λ l. I ++ l) (set_op-append C _ 0 a))
        ∙ set_op-append I _ (length C + suc (length T + 0)) b
        ∙ ap (λ l. I ++ l)
            (set_op-append C _ (suc (length T + 0)) b
              ∙ ap (λ l. C ++ instr_node instr_jump_if_false a ∷ l) (set_op-append T _ 0 b)))

-- `compile_branches` with branches that compile to known code.
pub compile_branches-code :
    (st : CompState) (c t e : Expr) (f g : CompState → Run CompState)
    → length st.instrs + size (conditional c t e) < mod32
    → ((s : CompState)
        → (s.envs ≡ st.envs)
          × (s.env ≡ st.env)
          × (s.instr_ptr ≡ length s.instrs)
          × (length s.instrs + size t < mod32)
        → f s ≡ ok (compiled s t))
    → ((s : CompState)
        → (s.envs ≡ st.envs)
          × (s.env ≡ st.env)
          × (s.instr_ptr ≡ length s.instrs)
          × (length s.instrs + size e < mod32)
        → g s ≡ ok (compiled s e))
    → compile_branches st.stack_ptr (compiled st c) f g ≡ ok (compiled st (conditional c t e))
unfolding compile_branches add_instr_node
compile_branches-code st c t e f g b hf hg =
    let n = length st.instrs in
    let C = code n c in
    let T = code (n + size c + 1) t in
    let E = code (n + size c + 1 + size t + 1) e in
    let J = (st.instrs ++ C) ++ instr_node instr_jump_if_false 0 ∷ [] in
    let K = (J ++ T) ++ instr_node instr_jump 0 ∷ [] in
    let lJ : length J ≡ n + size c + 1 = omega (
      arith,
      length-append (st.instrs ++ C) (instr_node instr_jump_if_false 0 ∷ []),
      length-append st.instrs C,
      length-code n c,
    ) in
    let lK : length K ≡ n + size c + 1 + size t + 1 = omega (
      arith,
      length-append (J ++ T) (instr_node instr_jump 0 ∷ []),
      length-append J T,
      lJ,
      length-code (n + size c + 1) t,
    ) in
    let s₁ = record st { instrs = J; instr_ptr = n + size c + 1 } in
    let s₂ = record st { instrs = K; instr_ptr = n + size c + 1 + size t + 1 } in
    let p₁ : (n + size c + 1) % mod32 ≡ n + size c + 1 = omega arith in
    let p₂ : (n + size c + 1 + size t + 1) % mod32 ≡ n + size c + 1 + size t + 1 = omega arith in
    let p₃ : n + size c + 1 + size t + 1 + size e ≡ n + size (conditional c t e) = omega arith in
    let first = hf s₁ (refl, refl, sym lJ, omega (arith, lJ)) in
    let second = hg s₂ (refl, refl, sym lK, omega (arith, lK)) in
    let jumps =
      set_op-jumps st.instrs C T E (n + size c + 1 + size t + 1) (n + size (conditional c t e))
        (n + size c) (n + size c + 1 + size t) (omega (arith, length-code n c))
        (omega (arith, length-code n c, length-code (n + size c + 1) t)) in
    rw p₁ (rw first (rw lJ (rw p₂ (rw second (rw lK (rw p₃ (rw jumps refl)))))))
