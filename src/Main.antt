-- ===== src/Main.antt =====
-- src/main.c: evaluating a file, the repl, and the command line. Warnings and errors, on `stderr`,
-- are left out, and so is the freeing of memory.
pub mod Quote
pub mod Start
mod Quoting
mod Examples
use nscheme.Prelude.{
  ℕ, zero, suc, true, false, Option, none, some, List, [], ◌+◌, ◌*◌, ◌∷◌, ◌++◌, ◌==◌, if◌then◌else◌,
}
use nscheme.Values.{Value, Ptr, SyntaxRules, is_eof}
use nscheme.Run.{Run, ok, fault, panic, out_of_fuel, ◌>>=◌}
use nscheme.Lex.{ParseState, codes}
use nscheme.Write.{write_value}
use nscheme.Parse.{parse_expression}
use nscheme.Vm.State.{Vm, vm_clear_error}
use nscheme.Vm.Init.{vm_init}
use nscheme.Vm.Interp.{vm_evaluate_expr}

-- `make_parse_state` for a stream.
unfoldable pub make_parse_state : Vm → List ℕ → ParseState
make_parse_state vm fp = record {
  input = fp;
  memory = vm.memory;
  next_token = 0;
  has_next = false;
  linenum = 0;
  charpos = 0;
}

-- One round of `evaluate_file`: what it reads, and the machine after evaluating it. `depth` and
-- `steps` are fuel for the parser and for the machine. The parser's memory is the machine's.
unfoldable pub read_evaluate : (depth steps : ℕ) → Vm → ParseState → Run (Value × (Vm × ParseState))
unfolding parse_expression vm_evaluate_expr
read_evaluate depth steps vm input = do
  (expr, input') ← parse_expression depth (record input { memory = vm.memory })
  (value, vm') ← vm_evaluate_expr steps (record vm { memory = input'.memory }) expr
  ok (value, (vm', input'))

-- The loop of `evaluate_file`, which ends at the end of file or at the first error.
unfoldable pub evaluate_file : (rounds depth steps : ℕ) → Vm → ParseState → Run Vm
unfolding read_evaluate
evaluate_file zero depth steps vm input = out_of_fuel
evaluate_file (suc rounds) depth steps vm input = do
  (temp, (vm', input')) ← read_evaluate depth steps vm input
  elim vm'.errormsg [
    | some msg ↦ ok vm'
    | none ↦ elim (is_eof temp) [
      | true ↦ ok vm'
      | false ↦ evaluate_file rounds depth steps vm' input'
    ]
  ]

-- What `repl` prints of a value, behind a message for an error on `stderr`.
unfoldable pub show_value : Value → Vm → Run Vm
unfolding vm_clear_error write_value
show_value temp vm = do
  let vm₁ : Vm = elim vm.errormsg [ some msg ↦ vm_clear_error vm | none ↦ vm ]
  text ← write_value (2 * vm₁.memory.gc.allocend + 2) vm₁ temp
  ok (record vm₁ { stdout = vm₁.stdout ++ (codes " => " ++ (text ++ codes "\n")) })

-- The parser of `repl` and the function `read` take bytes from the same stream, `stdin`.
unfoldable pub repl : (rounds depth steps : ℕ) → Vm → ParseState → Run Vm
unfolding show_value parse_expression vm_evaluate_expr
repl zero depth steps vm input = out_of_fuel
repl (suc rounds) depth steps vm input = do
  let vm₁ = record vm { stdout = vm.stdout ++ codes " >> " }
  (expr, input') ← parse_expression depth (record input { memory = vm₁.memory; input = vm₁.stdin })
  (temp, vm₂) ←
      vm_evaluate_expr steps (record vm₁ { memory = input'.memory; stdin = input'.input }) expr
  vm₃ ← show_value temp vm₂
  elim (is_eof temp) [ true ↦ ok vm₃ | false ↦ repl rounds depth steps vm₃ input' ]

-- How a process ends: what it gives to `exit`, and what it has written to `stdout`.
pub record Exit : Type 0 where
  pub status : ℕ
  pub stdout : List ℕ

unfoldable pub print_help : Vm → Exit
print_help vm = record {
  status = 1;
  stdout =
      vm.stdout ++ codes "usage: nscheme [options] files ...\n   -h: print this help and exit\n";
}

-- The loop over the options of the command line: the arguments behind them, or nothing where it comes
-- to `-h`. An argument stands without the zero byte that ends it.
unfoldable pub option_loop : List (List ℕ) → Option (List (List ℕ))
option_loop [] = some []
option_loop ([] ∷ argv) = some ([] ∷ argv)
option_loop ((c ∷ []) ∷ argv) =
    let rest = option_loop argv in if c == b'-' then rest else some ((c ∷ []) ∷ argv)
option_loop ((c ∷ (opt ∷ str)) ∷ argv) =
    let rest = option_loop argv in
    if c == b'-' then if opt == b'h' then none else rest else some ((c ∷ (opt ∷ str)) ∷ argv)

-- The loop over the files, where `fopen` has the bytes of those that can be opened. For the others it
-- returns `NULL`, from which the parser reads.
unfoldable pub file_loop :
    (List ℕ → Option (List ℕ)) → (rounds depth steps : ℕ) → Vm → List (List ℕ) → Run Vm
unfolding evaluate_file make_parse_state
file_loop fopen rounds depth steps vm [] = ok vm
file_loop fopen rounds depth steps vm (name ∷ argv) = elim (fopen name) [
  | none ↦ fault
  | some fp ↦ do
    vm' ← evaluate_file rounds depth steps vm (make_parse_state vm fp)
    file_loop fopen rounds depth steps vm' argv
]

-- `argv` without the name of the program.
unfoldable pub main :
    (List ℕ → Option (List ℕ))
    → (rounds depth steps : ℕ) → (stdin : List ℕ) → List (List ℕ)
    → Run Exit
unfolding vm_init repl make_parse_state option_loop print_help file_loop
main fopen rounds depth steps stdin [] = do
  vm ← repl rounds depth steps (vm_init stdin) (make_parse_state (vm_init stdin) stdin)
  ok (record { status = 0; stdout = vm.stdout })
main fopen rounds depth steps stdin (arg ∷ argv) = elim (option_loop (arg ∷ argv)) [
  | none ↦ ok (print_help (vm_init stdin))
  | some files ↦ do
    vm ← file_loop fopen rounds depth steps (vm_init stdin) files
    ok (record { status = 0; stdout = vm.stdout })
]
