-- ===== src/SyntaxRules.antt =====
-- src/syntax-rules.c: matching a macro's patterns, and expanding its templates.
--
-- Lists are walked by the addresses of their pairs; 0 is `NULL`. A list in memory may be cyclic, so
-- the walks take fuel; what is printed for debugging is left out.
mod Examples
pub mod Templates
pub mod Growth
pub mod Expansion
use nscheme.Prelude.{
  ℕ, zero, suc, Bool, true, false, not, Option, none, some, List, [], ◌+◌, ◌*◌, ◌&&◌, ◌∷◌, ◌==◌,
  if◌then◌else◌,
}
use nscheme.Values.{
  Value, Ptr, Pair, SyntaxRules, is_pair, is_symbol, get_pair, get_symbol, tag_pair, scm_type_null,
}
use nscheme.Memory.{Memory, strcmp}
use Prim.Native.Nat.{Ordering}
use nscheme.Run.{Run, ok, fault, out_of_fuel, ◌>>=◌}
use nscheme.Gc.{construct_pair}
use nscheme.Lex.{codes}
use nscheme.Vm.State.{Vm, vm_stack_push, vm_error, deref_pair}
use nscheme.Vm.Closures.{push_static, vm_func_return_last}

unfoldable pub next : (Ptr → Pair) → Ptr → Ptr
unfolding is_pair get_pair
next pairs pair =
    if pair == 0 then 0 else if is_pair (pairs pair).cdr then get_pair (pairs pair).cdr else 0

abbrev pub ellipsis : List ℕ
ellipsis = codes "..."

unfoldable pub is_ellipsis : (Ptr → List ℕ) → Value → Bool
unfolding is_symbol get_symbol strcmp
is_ellipsis strings value =
    if not (is_symbol value)
    then false
    else elim (strcmp (strings (get_symbol value)) ellipsis) [ Ordering.eq ↦ true | _ ↦ false ]

-- A name is known by its address, since symbols are interned.
unfoldable pub symbol_in_list : ℕ → (Ptr → Pair) → Ptr → Ptr → Run Bool
unfolding is_symbol get_symbol next
symbol_in_list zero pairs it symbol = if it == 0 then ok false else out_of_fuel
symbol_in_list (suc k) pairs it symbol =
    let car = (pairs it).car in
    let rest = symbol_in_list k pairs (next pairs it) symbol in
    if it == 0
    then ok false
    else if is_symbol car && get_symbol car == symbol
    then ok true
    else rest

-- `next(p_it) && is_ellipsis(next(p_it)->car)`
unfoldable pub before_ellipsis : Memory → Ptr → Bool
unfolding next is_ellipsis
before_ellipsis m p_it =
    let p = next m.pairs p_it in not (p == 0) && is_ellipsis m.strings (m.pairs p).car

unfoldable pub matches : ℕ → Memory → (keywords pattern expr : Ptr) → Run Bool
unfolding before_ellipsis is_symbol get_symbol symbol_in_list is_pair get_pair next
matches zero m keywords p_it e_it = out_of_fuel
matches (suc k) m keywords p_it e_it =
    let p = (m.pairs p_it).car in
    let e = (m.pairs e_it).car in
    let rest = matches k m keywords (next m.pairs p_it) (next m.pairs e_it) in
    let sub = matches k m keywords (get_pair p) (get_pair e) in
    if p_it == 0
    then ok (e_it == 0)
    else if before_ellipsis m p_it
    then ok true
    else if e_it == 0
    then ok false
    else if is_symbol p
    then (do
      keyword ← symbol_in_list k m.pairs keywords (get_symbol p)
      if keyword && not (is_symbol e && get_symbol e == get_symbol p) then ok false else rest)
    else if is_pair p
    then (if not (is_pair e) then ok false else do fits ← sub; if not fits then ok false else rest)
    else if not (p == e)
    then ok false
    else rest

-- `struct binding`; a `struct binding_list` is the list, with the newest first.
pub record Binding : Type 0 where
  pub name : Ptr
  pub value : Value
  pub is_variable_length : Bool

unfoldable pub find_binding : List Binding → Ptr → Option Binding
find_binding [] name = none
find_binding (it ∷ list) name =
    let rest = find_binding list name in if it.name == name then some it else rest

unfoldable pub build_bindings :
    ℕ → Memory → (keywords pattern expr : Ptr) → List Binding → Run (List Binding)
unfolding before_ellipsis is_symbol get_symbol symbol_in_list is_pair get_pair next tag_pair
build_bindings zero m keywords p_it e_it bindings = out_of_fuel
build_bindings (suc k) m keywords p_it e_it bindings =
    let p = (m.pairs p_it).car in
    let e = (m.pairs e_it).car in
    let rest : List Binding → Run (List Binding) =
      λ bs. build_bindings k m keywords (next m.pairs p_it) (next m.pairs e_it) bs in
    let bound : List Binding =
      record { name = get_symbol p; value = e; is_variable_length = false } ∷ bindings in
    let tail : Value = if e_it == 0 then scm_type_null else tag_pair e_it in
    elim (p_it == 0) [
      | true ↦ ok bindings
      | false ↦ elim (before_ellipsis m p_it) [
        | true ↦
            ok (record { name = get_symbol p; value = tail; is_variable_length = true } ∷ bindings)
        | false ↦ elim (e_it == 0) [
          | true ↦ ok bindings
          | false ↦ elim (is_symbol p) [
            | true ↦ do
              keyword ← symbol_in_list k m.pairs keywords (get_symbol p)
              elim keyword [ true ↦ rest bindings | false ↦ rest bound ]
            | false ↦ elim (is_pair p) [
              | true ↦ do
                bindings' ← build_bindings k m keywords (get_pair p) (get_pair e) bindings
                rest bindings'
              | false ↦ rest bindings
            ]
          ]
        ]
      ]
    ]

-- `get_pair` of a value that the source takes for a pair.
unfoldable pub checked_pair : Value → Run Ptr
unfolding is_pair get_pair
checked_pair value = if is_pair value then ok (get_pair value) else fault

unfoldable pub expand : ℕ → Memory → List Binding → Ptr → Run (Value × Memory)
unfolding is_symbol get_symbol find_binding is_pair get_pair construct_pair
expand zero m bindings expansion = out_of_fuel
expand (suc k) m bindings expansion =
    let car = (m.pairs expansion).car in
    let cdr = (m.pairs expansion).cdr in
    let finish : Value → Memory → Run (Value × Memory) = λ retcar m. elim (is_pair cdr) [
      | true ↦ do (retcdr, m') ← expand k m bindings (get_pair cdr); construct_pair m' retcar retcdr
      | false ↦ construct_pair m retcar scm_type_null
    ] in
    elim (is_symbol car) [
      | true ↦ elim (find_binding bindings (get_symbol car)) [
        | some bind ↦ if bind.is_variable_length then ok (bind.value, m) else finish bind.value m
        | none ↦ finish car m
      ]
      | false ↦ elim (is_pair car) [
        | true ↦ do (retcar, m') ← expand k m bindings (get_pair car); finish retcar m'
        | false ↦ finish car m
      ]
    ]

-- The loop over the patterns: what the first of them that matches expands to, if any.
unfoldable pub expand_first : ℕ → Vm → (keywords it expr : Ptr) → Run (Option Value × Vm)
unfolding deref_pair checked_pair matches build_bindings expand next
expand_first zero vm keywords it expr = out_of_fuel
expand_first (suc k) vm keywords it expr =
    let rest = expand_first k vm keywords (next vm.memory.pairs it) expr in
    if it == 0 then ok (none, vm) else do
      p ← deref_pair vm (vm.memory.pairs it).car
      pattern ← checked_pair p.car
      fits ← matches k vm.memory keywords pattern expr
      if not fits then rest else do
        expansion ← checked_pair p.cdr
        bindings ← build_bindings k vm.memory keywords pattern expr []
        (ret, memory) ← expand k vm.memory bindings expansion
        ok (some ret, record vm { memory = memory })

-- What `expand_syntax_rules` makes of the search.
unfoldable pub expanded : Option Value → Vm → Value × Vm
unfolding vm_error
expanded (some ret) vm = (ret, vm)
expanded none vm = (scm_type_null, vm_error vm "no matching syntax definition")

-- No list and no nesting of pairs is longer than the heap's used part, unless it is cyclic.
unfoldable pub expand_syntax_rules : Vm → SyntaxRules → Ptr → Run (Value × Vm)
unfolding expand_first expanded push_static vm_func_return_last vm_stack_push
expand_syntax_rules vm rules expr = do
  (found, vm₁) ← expand_first (2 * vm.memory.gc.allocend + 2) vm rules.keywords rules.patterns expr
  let (ret, vm₂) = expanded found vm₁
  vm₃ ← push_static vm_func_return_last vm₂
  vm₄ ← vm_stack_push vm₃ scm_type_null
  ok (ret, vm₄)
