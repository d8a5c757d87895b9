-- ===== src/Write.antt =====
-- src/write.c: what `display` and the reader-evaluator print for a value, as bytes. Pairs point to
-- pairs that were there before them, which have lower addresses, so an address is enough fuel for
-- the pairs below it; each level of a list takes one unit.
pub mod Text
pub mod RoundTrip
mod Examples
use nscheme.Prelude.{
  ℕ, zero, suc, true, false, List, [], ltb, ◌+◌, ◌/◌, ◌%◌, ◌∷◌, ◌++◌, ◌==◌, if◌then◌else◌,
}
use nscheme.Values.{
  Value, is_integer, is_boolean, is_character, is_pair, is_symbol, is_null, is_closure,
  is_syntax_rules, is_run_type, is_eof, get_integer, get_boolean, get_character, get_symbol,
  get_closure, get_run_type, get_pair,
}
use nscheme.Run.{Run, ok, fault, out_of_fuel, ◌>>=◌}
use nscheme.Lex.{codes}
use nscheme.Lex.Numbers.{decimal}
use nscheme.Vm.State.{Vm}

-- `%p`: 0x and the hexadecimal digits.
hex_digit : ℕ → ℕ
hex_digit d = if ltb d 10 then d + 48 else d + 87

hex_loop : ℕ → ℕ → List ℕ → List ℕ
unfolding hex_digit
hex_loop zero n rest = rest
hex_loop (suc k) n rest =
    let more = hex_loop k (n / 16) (hex_digit (n % 16) ∷ rest) in
    if ltb n 16 then hex_digit n ∷ rest else more

unfoldable pub pointer : ℕ → List ℕ
unfolding hex_loop
pointer p = codes "0x" ++ hex_loop 16 p []

-- `strs` in `write_value`
unfoldable pub run_type_name : ℕ → Run (List ℕ)
run_type_name t =
    if t == 0
    then ok (codes "<none>")
    else if t == 1
    then ok (codes "lambda")
    else if t == 2
    then ok (codes "define")
    else if t == 3
    then ok (codes "define-syntax")
    else if t == 4
    then ok (codes "set!")
    else if t == 5
    then ok (codes "if")
    else if t == 6
    then ok (codes "begin")
    else if t == 7
    then ok (codes "quote")
    else if t == 8
    then ok (codes "eval")
    else if t == 9
    then ok (codes "<intern:set-ptr>")
    else if t == 10
    then ok (codes "syntax-rules")
    else fault

-- The values that are no pairs, in the order of the tests of `write_value`.
unfoldable pub write_atom : Vm → Value → Run (List ℕ)
unfolding is_integer is_boolean is_character is_symbol is_null is_closure is_syntax_rules
    is_run_type is_eof get_integer get_boolean get_character get_symbol get_closure get_run_type
    decimal pointer run_type_name
write_atom vm value =
    if is_integer value
    then ok (decimal (get_integer value))
    else if is_boolean value
    then ok (if get_boolean value then codes "#t" else codes "#f")
    else if is_character value
    then ok (b'#' ∷ 0x5c ∷ (get_character value % 256) ∷ [])
    else if is_symbol value
    then ok (vm.memory.strings (get_symbol value))
    else if is_null value
    then ok (codes "()")
    else if is_closure value
    then ok (
        codes "#<closure:"
        ++ ((if (vm.closures (get_closure value)).compiled
              then codes "compiled"
              else codes "interpreted")
            ++ (codes " @ " ++ (pointer (get_closure value) ++ codes ">"))))
    else if is_syntax_rules value
    then ok (codes "#<syntax-rules>")
    else if is_run_type value
    then (do
      name ← run_type_name (get_run_type value)
      ok (codes "#<runtime type:" ++ (name ++ codes ">")))
    else if is_eof value
    then ok (codes "#<end of file>")
    else ok (codes "#<unknown>")

unfoldable mutual
  -- The loop of `write_list`, from the pair at hand to the closing parenthesis.
  pub write_list : ℕ → Vm → Value → Run (List ℕ)
  write_list zero vm pair = out_of_fuel
  write_list (suc k) vm pair = do
    car ← write_value k vm (vm.memory.pairs (get_pair pair)).car
    elim (is_pair (vm.memory.pairs (get_pair pair)).cdr) [
      | true ↦ do
        rest ← write_list k vm (vm.memory.pairs (get_pair pair)).cdr
        ok (car ++ (0x20 ∷ rest))
      | false ↦ elim (is_null (vm.memory.pairs (get_pair pair)).cdr) [
        | true ↦ ok (car ++ codes ")")
        | false ↦ do
          cdr ← write_value k vm (vm.memory.pairs (get_pair pair)).cdr
          ok (car ++ (codes " . " ++ (cdr ++ codes ")")))
      ]
    ]

  pub write_value : ℕ → Vm → Value → Run (List ℕ)
  write_value zero vm value = out_of_fuel
  write_value (suc k) vm value = elim (is_pair value) [
    | true ↦ do rest ← write_list k vm value; ok (b'(' ∷ rest)
    | false ↦ write_atom vm value
  ]
