-- ===== src/Compiler/Correct.antt =====
-- The compiler (src/compiler.c) on expressions without calls: it emits the code for them.
use nscheme.Prelude.{
  refl, sym, ap, Bool, true, false, none, [], arith, length, ◌+◌, ◌%◌, ◌<◌, ◌≡◌, ◌&&◌, ◌∷◌, ◌++◌,
  ◌∙◌,
}
use nscheme.Prelude.Words.{mod32}
use nscheme.Values.{Value, Ptr, scm_type_null}
use nscheme.Env.{Envs}
use nscheme.Run.{ok}
use nscheme.Compiler.State.{CompNode, CompState, null, comp_node, instr_return, add_instr_node}
use nscheme.Compiler.Code.{
  ends_list, compile_ref, compile_value, compile_car, compile_if_expression,
  compile_expression_list, compile_body,
}
use nscheme.Compiler.Expr.{
  Expr, size, code, instr_node, Reads, reads_constant, reads_parameter, reads_local, reads_closure,
  reads_if, compiled, compile_branches-code,
}

-- The compiler appends the code for an expression without calls, with all its jumps filled in,
-- whether the expression ends the body or not.
pub compile_car-code :
    (envs : Envs) (env : Ptr) {comp : CompNode} {e : Expr} (st : CompState) (last tail : Bool)
    → Reads envs env comp e
    → st.envs ≡ envs
    → st.env ≡ env
    → st.instr_ptr ≡ length st.instrs
    → length st.instrs + size e < mod32
    → compile_car st comp last tail ≡ ok (compiled st e)
unfolding compile_car compile_value compile_ref add_instr_node compile_if_expression
compile_car-code envs env st last tail (reads_constant v) es en p b =
    let e : (st.instr_ptr + 1) % mod32 ≡ length st.instrs + 1 = omega arith in
    rw (compile_car, v, e) refl
compile_car-code envs env st last tail (reads_parameter v) es en p b =
    let e : (st.instr_ptr + 1) % mod32 ≡ length st.instrs + 1 = omega arith in
    rw (compile_car, v, e) refl
compile_car-code envs env st last tail (reads_local v) es en p b =
    let e : (st.instr_ptr + 1) % mod32 ≡ length st.instrs + 1 = omega arith in
    rw (compile_car, v, e) refl
compile_car-code envs env st last tail (reads_closure v) es en p b =
    let e : (st.instr_ptr + 1) % mod32 ≡ length st.instrs + 1 = omega arith in
    rw (compile_car, v, e) refl
compile_car-code envs env st last tail (reads_if {c = c} {t = t} {e = e} v is_if rc rt re) es en p
      b =
    let test = compile_car-code envs env st true false rc es en p (omega arith) in
    let branches =
      compile_branches-code st c t e (λ s. compile_car s _ true (tail && last))
        (λ s. compile_car s _ true (tail && last)) b
        (λ s (h₁, h₂, h₃, h₄).
          compile_car-code envs env s true (tail && last) rt (h₁ ∙ es) (h₂ ∙ en) h₃ h₄)
        (λ s (h₁, h₂, h₃, h₄).
          compile_car-code envs env s true (tail && last) re (h₁ ∙ es) (h₂ ∙ en) h₃ h₄) in
    let is_if' = rw (sym es, sym en) at is_if in
    rw (compile_car, v, is_if') (rw test (rw branches refl))

-- The list of one expression that a body is.
abbrev pub body_of : CompNode → Value → CompNode
body_of comp v = comp_node comp (comp_node null null scm_type_null none) v none

-- A body that is one expression without calls compiles to the code for it and a return, from a state
-- with no instructions yet.
pub compile_body-code :
    (envs : Envs) (env : Ptr) {comp : CompNode} (e : Expr) (st : CompState) (v : Value)
    → Reads envs env comp e
    → st.envs ≡ envs
    → st.env ≡ env
    → st.instrs ≡ []
    → st.instr_ptr ≡ 0
    → size e + 1 < mod32
    → compile_body st (body_of comp v)
      ≡ ok (record (compiled st e) {
        instrs = code 0 e ++ instr_node instr_return 0 ∷ [];
        instr_ptr = size e + 1;
      })
unfolding compile_body compile_expression_list compile_car add_instr_node ends_list
compile_body-code envs env e st v r es en is p b =
    let l : length st.instrs ≡ 0 = ap length is in
    let car = compile_car-code envs env st true true r es en (p ∙ sym l) (omega (arith, l)) in
    let e₁ : (0 + size e + 1) % mod32 ≡ size e + 1 = omega arith in rw car (rw (is, e₁) refl)
