-- ===== src/Compiler/Values.antt =====
-- What an expression without calls means to the machine that runs its code, and the code where the
-- compiler has stored it.
use nscheme.Prelude.{
  ℕ, refl, ap, inl, inr, false, Option, none, some, List, [], arith, length, get_elem?, ◌+◌, ◌%◌,
  ◌≤◌, ◌<◌, ◌≡◌, ◌⊎◌, ◌∷◌, ◌++◌, ◌==◌, if◌then◌else◌, ◌∙◌,
}
use nscheme.Prelude.Words.{mod32, mod64, sub32}
use nscheme.Values.{Value, tag_boolean}
use nscheme.Env.{node_value}
use nscheme.Run.{ok}
use nscheme.Vm.State.{Vm, VmOp}
use nscheme.Compiler.State.{InstrNode}
use nscheme.Compiler.Code.{op_func}
use nscheme.Compiler.Expr.{Expr, constant, stack_value, closed_value, conditional}

-- A conditional: everything but `#f` chooses the first branch.
unfoldable pub choose : (test first second : Option Value) → Option Value
unfolding tag_boolean
choose none first second = none
choose (some v) first second = if v == tag_boolean false then second else first

unfoldable pub value : Vm → Expr → Option Value
unfolding node_value choose
value vm (constant v) = some v
value vm (stack_value i) = some (vm.stack ((sub32 vm.sp vm.argnum + i) % mod64))
value vm (closed_value i) = elim (get_elem? (vm.closures vm.closure).closures i) [
  | none ↦ none
  | some var ↦ node_value vm.envs var
]
value vm (conditional c t e) = choose (value vm c) (value vm t) (value vm e)

-- The expression refers to values of the frame that begins at `base` and ends below `top`.
abbrev pub IsWithin : ℕ → ℕ → Expr → Type 0
IsWithin base top (constant v) = Unit
IsWithin base top (stack_value i) = base + i < top
IsWithin base top (closed_value i) = Unit
IsWithin base top (conditional c t e) =
    IsWithin base top c × IsWithin base top t × IsWithin base top e

-- What stands above the frame does not matter.
pub value-above :
    (vm : Vm) (e : Expr) (base ip : ℕ) (stack : ℕ → Value)
    → vm.sp ≡ base + vm.argnum
    → vm.sp < mod32
    → IsWithin base vm.sp e
    → ((i : ℕ) → (vm.sp ≤ i) ⊎ (stack i ≡ vm.stack i))
    → value (record vm { ip = ip; stack = stack }) e ≡ value vm e
unfolding value
value-above vm (constant v) base ip stack s b w h = refl
value-above vm (stack_value i) base ip stack s b w h =
    let e : (sub32 vm.sp vm.argnum + i) % mod64 ≡ base + i = omega arith in
    rw e (elim (h (base + i)) [ inl l ↦ absurd (omega arith) | inr d ↦ rw d refl ])
value-above vm (closed_value i) base ip stack s b w h = refl
value-above vm (conditional c t e) base ip stack s b (wc, wt, we) h =
    let ec = value-above vm c base ip stack s b wc h in
    let et = value-above vm t base ip stack s b wt h in
    let ee = value-above vm e base ip stack s b we h in
    let m = record vm { ip = ip; stack = stack } in
    ap (λ x. choose x (value m t) (value m e)) ec
    ∙ ap (λ x. choose (value vm c) x (value m e)) et
    ∙ ap (λ x. choose (value vm c) (value vm t) x) ee

unfoldable pub op_of : InstrNode → Option VmOp
unfolding op_func
op_of n = elim (op_func n.instr) [ ok f ↦ some (record { func = f; arg = n.op }) | _ ↦ none ]

-- The instructions stand in the code from `pc` on.
abbrev pub IsStored : List VmOp → ℕ → List InstrNode → Type 0
IsStored code pc [] = Unit
IsStored code pc (n ∷ ns) = (get_elem? code pc ≡ op_of n) × IsStored code (pc + 1) ns

pub IsStored-append :
    (code : List VmOp) (pc : ℕ) (xs ys : List InstrNode)
    → IsStored code pc (xs ++ ys)
    → IsStored code pc xs × IsStored code (pc + length xs) ys
IsStored-append code pc [] ys h = let e : pc + 0 ≡ pc = omega arith in (tt, rw e h)
IsStored-append code pc (x ∷ xs) ys (g, h) =
    let (a, b) = IsStored-append code (pc + 1) xs ys h in
    let e : pc + length (x ∷ xs) ≡ pc + 1 + length xs = omega arith in ((g, a), rw e b)
