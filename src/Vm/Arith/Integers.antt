-- ===== src/Vm/Arith/Integers.antt =====
-- The arithmetic and comparison operations of src/vm_ops.c on integers. A word holds the low 62
-- bits of an integer.
use native.Mathlib.Nat.{mul-div-mul_left, mod-add-div', add-mul-mod_self_right}
use nscheme.Prelude.{
  ℕ, suc, refl, sym, ap, true, List, [], map, arith, ltb, ◌+◌, ◌-◌, ◌*◌, ◌/◌, ◌%◌, ◌^◌, ◌<◌, ◌≡◌,
  ◌∷◌, ◌==◌, if◌then◌else◌, ◌∙◌,
}
use nscheme.Prelude.Words.{mod64}
use nscheme.Values.{Value, tag_integer, tag_boolean, get_integer}
use nscheme.Run.{ok}
use nscheme.Vm.State.{Vm, vm_error}
use nscheme.Vm.Stack.{top_values}
use nscheme.Vm.Arith.{
  vm_op_add, vm_op_sub, vm_op_div, vm_op_lessthan, vm_op_greaterthan, vm_op_equal,
}
use nscheme.Vm.Arith.Loops.{
  compare_top-ok, IsCall, returned, fold, vm_op_add-fold, vm_op_sub-fold, vm_op_div_binary,
}

abbrev mod62 : ℕ
mod62 = 2 ^ 62

add_fold :
    (s : ℕ) (xs : List ℕ)
    → fold (λ sum value. (sum + value) % mod64) (tag_integer s) (map tag_integer xs)
      ≡ tag_integer (fold (λ sum x. sum + x) s xs)
unfolding tag_integer
add_fold s [] = refl
add_fold s (x ∷ xs) =
    let e : ((s * 4) % mod64 + (x * 4) % mod64) % mod64 ≡ ((s + x) * 4) % mod64 = omega arith in
    ap (λ acc. fold (λ sum value. (sum + value) % mod64) acc (map tag_integer xs)) e
    ∙ add_fold (s + x) xs

-- The difference of two integers of 62 bits, in two's complement.
abbrev pub sub62 : ℕ → ℕ → ℕ
sub62 a b = (a + mod62 - b % mod62) % mod62

sub_fold :
    (s : ℕ) (xs : List ℕ)
    → fold (λ sum value. (sum + mod64 - value) % mod64) (tag_integer s) (map tag_integer xs)
      ≡ tag_integer (fold sub62 s xs)
unfolding tag_integer
sub_fold s [] = refl
sub_fold s (x ∷ xs) =
    let e : ((s * 4) % mod64 + mod64 - (x * 4) % mod64) % mod64 ≡ (sub62 s x * 4) % mod64 =
      omega arith in
    ap (λ acc. fold (λ sum value. (sum + mod64 - value) % mod64) acc (map tag_integer xs)) e
    ∙ sub_fold (sub62 s x) xs

-- A call of `+` with integers leaves their sum, in 62 bits, in place of the call.
pub vm_op_add-integers :
    (vm : Vm) (base n : ℕ) (xs : List ℕ)
    → IsCall vm base n
    → top_values n vm.sp vm.stack ≡ map tag_integer xs
    → vm_op_add vm ≡ ok (true, returned vm base (tag_integer (fold (λ sum x. sum + x) 0 xs)))
unfolding tag_integer
vm_op_add-integers vm base n xs c t =
    rw (vm_op_add-fold vm base n c, t) (ap (λ v. ok (true, returned vm base v)) (add_fold 0 xs))

-- A call of `-` with a first integer and others leaves their difference, in 62-bit two's
-- complement, in place of the call.
pub vm_op_sub-integers :
    (vm : Vm) (base n a : ℕ) (xs : List ℕ)
    → IsCall vm base (suc n)
    → vm.stack (base + 1) ≡ tag_integer a
    → top_values n vm.sp vm.stack ≡ map tag_integer xs
    → vm_op_sub vm ≡ ok (true, returned vm base (tag_integer (fold sub62 a xs)))
vm_op_sub-integers vm base n a xs c f t = rw (vm_op_sub-fold vm base n c, f, t, sub_fold a xs)

-- A call of `/` with two 62-bit integers, both read as unsigned numbers below 2 ^ 62, leaves the
-- unsigned quotient in place of the call, or stops the machine with the error where the divisor is 0.
-- A negative integer is read as its 62-bit pattern, so 25 divided by -5 is 0.
pub vm_op_div-integers :
    (vm : Vm) (base a b : ℕ)
    → IsCall vm base 2
    → vm.stack (base + 1) ≡ tag_integer a
    → vm.stack (base + 2) ≡ tag_integer b
    → a < mod62
    → b < mod62
    → vm_op_div vm
      ≡ ok (
        true,
        if b == 0
            then vm_error (record vm { sp = base + 2; argnum = 2 }) "divide by zero!"
            else returned vm base (tag_integer (a / b)),
      )
unfolding tag_integer
vm_op_div-integers vm base a b c f g h k =
    let ea : tag_integer a ≡ 4 * a = omega arith in
    let eb : tag_integer b ≡ 4 * b = omega arith in
    let z : (4 * b == 0) ≡ (b == 0) = ground arith in
    let q : 4 * a / (4 * b) ≡ a / b = mul-div-mul_left a b (omega arith) in
    rw (vm_op_div_binary vm base c, f, g, ea, eb, z, q)

mod_mul : (m s x : ℕ) → s % m * x % m ≡ s * x % m
mod_mul m s x =
    let e : s * x ≡ s % m * x + s / m * x * m = grind (arith, mod-add-div' s m) in
    rw e (sym (add-mul-mod_self_right (s % m * x) (s / m * x) m))

mul_fold :
    (s : ℕ) (values : List Value)
    → fold (λ sum value. (sum * get_integer value) % mod64) (s % mod64) values
      ≡ fold (λ product x. product * x) s (map get_integer values) % mod64
mul_fold s [] = refl
mul_fold s (v ∷ values) =
    ap (λ acc. fold (λ sum value. (sum * get_integer value) % mod64) acc values)
      (mod_mul mod64 s (get_integer v))
    ∙ mul_fold (s * get_integer v) values

-- Calls of `<`, `eq?` and `>` with two integers below 2 ^ 62 leave the comparisons of their 62-bit
-- patterns as unsigned numbers.
pub compare-integers :
    (vm : Vm) (base a b : ℕ)
    → IsCall vm base 2
    → vm.stack (base + 1) ≡ tag_integer a
    → vm.stack (base + 2) ≡ tag_integer b
    → a < mod62
    → b < mod62
    → (vm_op_lessthan vm ≡ ok (true, returned vm base (tag_boolean (ltb a b))))
      × (vm_op_equal vm ≡ ok (true, returned vm base (tag_boolean (a == b))))
      × (vm_op_greaterthan vm ≡ ok (true, returned vm base (tag_boolean (ltb b a))))
unfolding vm_op_lessthan vm_op_equal vm_op_greaterthan tag_integer
compare-integers vm base a b c f g h k =
    let argnum = c.argnum in
    let n : (vm.argnum == 3) ≡ true = ground arith in
    let ea : tag_integer a ≡ 4 * a = omega arith in
    let eb : tag_integer b ≡ 4 * b = omega arith in
    let lt : ltb (4 * a) (4 * b) ≡ ltb a b = ground arith in
    let eq : (4 * a == 4 * b) ≡ (a == b) = ground arith in
    let gt : ltb (4 * b) (4 * a) ≡ ltb b a = ground arith in
    (
      rw (n, compare_top-ok ltb vm base c, f, g, ea, eb, lt),
      rw (n, compare_top-ok ◌==◌ vm base c, f, g, ea, eb, eq),
      rw (n, compare_top-ok (λ op2 op1. ltb op1 op2) vm base c, f, g, ea, eb, gt),
    )
