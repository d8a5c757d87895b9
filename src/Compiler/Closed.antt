-- ===== src/Compiler/Closed.antt =====
-- The closed variables that the compiler collects (src/compiler.c).
use nscheme.Prelude.{
  ℕ, zero, suc, refl, sym, ap, inl, inr, some, List, [], arith, Bool-cases, Option-cases, length,
  length-append, get_elem?, ◌+◌, ◌%◌, ◌≤◌, ◌<◌, ◌≡◌, ◌∷◌, ◌++◌, ◌==◌, ◌∙◌,
}
use mathlib.Core.List.{append_assoc}
use nscheme.Prelude.Words.{mod32, sub32}
use nscheme.Values.{Value, Ptr}
use nscheme.Env.{Envs, NodeRef, env_find_recurse}
use nscheme.Compiler.State.{ClosureNode, CompState, closed_index, add_closure_node}
use nscheme.Compiler.Code.{closed_refs}

abbrev pub refs : List ClosureNode → List NodeRef
refs closed = closed_refs closed []

closed_refs-append :
    (closed : List ClosureNode) (more : List NodeRef)
    → closed_refs closed more ≡ refs closed ++ more
unfolding closed_refs
closed_refs-append [] more = refl
closed_refs-append (x ∷ closed) more =
    closed_refs-append closed (x.var_ref ∷ more)
    ∙ sym (append_assoc (refs closed) (x.var_ref ∷ []) more)
    ∙ ap (λ l. l ++ more) (sym (closed_refs-append closed (x.var_ref ∷ [])))

length-refs : (closed : List ClosureNode) → length (refs closed) ≡ length closed
unfolding closed_refs
length-refs [] = refl
length-refs (x ∷ closed) =
    let e = closed_refs-append closed (x.var_ref ∷ []) in
    let l = length-refs closed in rw e (omega (arith, length-append (refs closed) (x.var_ref ∷ [])))

get_elem?-left :
    (xs ys : List NodeRef) (i : ℕ) (r : NodeRef)
    → get_elem? xs i ≡ some r
    → get_elem? (xs ++ ys) i ≡ some r
get_elem?-left [] ys i r e = cc
get_elem?-left (x ∷ xs) ys zero r e = e
get_elem?-left (x ∷ xs) ys (suc i) r e = get_elem?-left xs ys i r e

get_elem?-last : (xs : List NodeRef) (r : NodeRef) → get_elem? (xs ++ r ∷ []) (length xs) ≡ some r
get_elem?-last [] r = refl
get_elem?-last (x ∷ xs) r = get_elem?-last xs r

-- The variable at an index of the array is the one that the name means where the closure was made.
abbrev pub IsClosedAt : Envs → Ptr → List ClosureNode → Value → ℕ → Type 0
IsClosedAt envs env closed name i =
    (r : NodeRef) × (env_find_recurse envs env name ≡ some r) × (get_elem? (refs closed) i ≡ some r)

pub IsClosedAt-cons :
    (envs : Envs) (env : Ptr) (x : ClosureNode) (closed : List ClosureNode) (name : Value) (i : ℕ)
    → IsClosedAt envs env closed name i
    → IsClosedAt envs env (x ∷ closed) name i
unfolding closed_refs
IsClosedAt-cons envs env x closed name i (r, f, g) = (
  r,
  f,
  rw (closed_refs-append closed (x.var_ref ∷ []))
      (get_elem?-left (refs closed) (x.var_ref ∷ []) i r g),
)

-- The closed variables are those that their names mean.
abbrev pub AllMean : Envs → Ptr → List ClosureNode → Type 0
AllMean envs env [] = Unit
AllMean envs env (x ∷ closed) =
    (env_find_recurse envs env x.sym ≡ some x.var_ref) × AllMean envs env closed

closed_first :
    (envs : Envs) (env : Ptr) (x : ClosureNode) (closed : List ClosureNode)
    → env_find_recurse envs env x.sym ≡ some x.var_ref
    → IsClosedAt envs env (x ∷ closed) x.sym (length closed)
unfolding closed_refs
closed_first envs env x closed f =
    let e = sym (length-refs closed) in
    (
      x.var_ref,
      f,
      rw (closed_refs-append closed (x.var_ref ∷ []))
          (rw e (get_elem?-last (refs closed) x.var_ref)),
    )

closed_index-IsClosedAt :
    (envs : Envs) (env : Ptr) (closed : List ClosureNode) (name : Value) (j : ℕ)
    → AllMean envs env closed
    → length closed < mod32
    → closed_index closed (sub32 (length closed) 1) name ≡ some j
    → IsClosedAt envs env closed name j
unfolding closed_index
closed_index-IsClosedAt envs env [] name j a l e = cc
closed_index-IsClosedAt envs env (x ∷ closed) name j (m, a) l e =
    let i : sub32 (length (x ∷ closed)) 1 ≡ length closed = omega arith in
    elim (Bool-cases (x.sym == name)) [
      | inl y ↦
          (let s : x.sym ≡ name = ground arith in
            let e' = rw (y, i) at e in
            let d : length closed ≡ j = cc in rw (sym s, sym d) (closed_first envs env x closed m))
      | inr n ↦
          (let e' = rw (n, i) at e in
            IsClosedAt-cons envs env x closed name j
              (closed_index-IsClosedAt envs env closed name j a (omega arith) e'))
    ]

-- The closed variables of the compiler's state.
pub record IsCollecting (st : CompState) : Type 0 where
  pub counted : st.closure_ptr ≡ length st.closed_vars
  pub mean : AllMean st.envs st.env st.closed_vars

-- More closed variables, and nothing else that concerns names.
abbrev pub Grows : CompState → CompState → Type 0
Grows st st' =
    (st'.envs ≡ st.envs)
    × (st'.env ≡ st.env)
    × (front : List ClosureNode) × (st'.closed_vars ≡ front ++ st.closed_vars)

pub Grows-trans : (a b c : CompState) → Grows a b → Grows b c → Grows a c
Grows-trans a b c (e₁, n₁, f₁, h₁) (e₂, n₂, f₂, h₂) =
    (e₂ ∙ e₁, n₂ ∙ n₁, f₂ ++ f₁, h₂ ∙ ap (λ l. f₂ ++ l) h₁ ∙ sym (append_assoc f₂ f₁ a.closed_vars))

IsClosedAt-append :
    (envs : Envs) (env : Ptr) (front closed : List ClosureNode) (name : Value) (i : ℕ)
    → IsClosedAt envs env closed name i
    → IsClosedAt envs env (front ++ closed) name i
IsClosedAt-append envs env [] closed name i h = h
IsClosedAt-append envs env (x ∷ front) closed name i h =
    IsClosedAt-cons envs env x (front ++ closed) name i
      (IsClosedAt-append envs env front closed name i h)

pub IsClosedAt-mono :
    (st st' : CompState) (name : Value) (i : ℕ)
    → Grows st st'
    → IsClosedAt st.envs st.env st.closed_vars name i
    → IsClosedAt st'.envs st'.env st'.closed_vars name i
IsClosedAt-mono st st' name i (e, n, front, h) (r, f, g) =
    let (r', f', g') = IsClosedAt-append st.envs st.env front st.closed_vars name i (r, f, g) in
    (r', rw (e, n) f', rw h g')

-- What `add_closure_node` promises of the index and the state that it returns.
abbrev pub Adds : CompState → Value → ℕ × CompState → Type 0
Adds st name r =
    IsCollecting r.1
    × Grows st r.1
    × IsClosedAt r.1.envs r.1.env r.1.closed_vars name r.0
    × (length r.1.closed_vars ≤ length st.closed_vars + 1)

pub add_closure_node-Adds :
    (st : CompState) (ref : NodeRef) (name : Value)
    → IsCollecting st
    → length st.closed_vars + 1 < mod32
    → env_find_recurse st.envs st.env name ≡ some ref
    → Adds st name (add_closure_node st ref name)
unfolding add_closure_node
add_closure_node-Adds st ref name c l f =
    let counted = c.counted in
    elim (Option-cases (closed_index st.closed_vars (sub32 st.closure_ptr 1) name)) [
      | inl e ↦
          (let i : (st.closure_ptr + 1) % mod32 ≡ length st.closed_vars + 1 = omega arith in
            rw (e, add_closure_node)
              (
                record { counted = rw i (omega arith); mean = (f, c.mean) },
                (refl, refl, record { sym = name; var_ref = ref } ∷ [], refl),
                rw counted (
                    closed_first st.envs st.env (record { sym = name; var_ref = ref })
                      st.closed_vars f),
                omega arith,
              ))
      | inr (j, e) ↦
          (let e' = rw counted at e in
            rw (e, add_closure_node)
              (
                c,
                (refl, refl, [], refl),
                closed_index-IsClosedAt st.envs st.env st.closed_vars name j c.mean (omega arith)
                    e',
                omega arith,
              ))
    ]
