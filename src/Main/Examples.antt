-- ===== src/Main/Examples.antt =====
-- Whole programs, read and evaluated.
use nscheme.Prelude.{ℕ, Option, none, some, List, [], length, ◌∷◌, ◌==◌, if◌then◌else◌}
use nscheme.Run.{Run, ok, fault, panic, out_of_fuel}
use nscheme.Lex.{codes}
use nscheme.Vm.State.{Vm}
use nscheme.Vm.Init.{vm_init}
use nscheme.Main.{make_parse_state, evaluate_file, repl, main}

-- The output of a program, or a code for why there is none.
outcome : Run Vm → List ℕ
outcome (ok vm) = vm.stdout
outcome fault = codes "fault"
outcome panic = codes "panic"
outcome out_of_fuel = codes "fuel"

program : List ℕ → List ℕ
unfolding vm_init evaluate_file make_parse_state outcome
program text = outcome (evaluate_file 20 100 300 (vm_init []) (make_parse_state (vm_init []) text))

p1 : List ℕ
unfolding program
p1 = program (codes "(display (+ 1 2))")

p2 : List ℕ
unfolding program
p2 = program (codes "(define f (lambda (x) (if (< x 2) 1 (* x (f (- x 1)))))) (display (f 5))")

p3 : List ℕ
unfolding program
p3 =
    program (
      codes
        "(define-syntax my-or (syntax-rules () ((my-or a b) (if a a b)))) (display (my-or 3 4))")

-- The last reply is to the end of the file.
dialogue : List ℕ → List ℕ
unfolding vm_init repl make_parse_state outcome
dialogue text = outcome (repl 20 100 300 (vm_init text) (make_parse_state (vm_init text) text))

p4 : List ℕ
unfolding dialogue
p4 = dialogue (codes "(car 5) (+ 1 2)")

-- Two files, told apart by the lengths of their names.
files : List ℕ → Option (List ℕ)
files name =
    if length name == 9
    then some (codes "(display 1) (car 5) (display 2)")
    else if length name == 8
    then some (codes "(display 3) (display 4)")
    else none

command : List (List ℕ) → List ℕ
unfolding main
command argv = elim (main files 20 100 300 [] argv) [
  | ok exit ↦ exit.stdout
  | fault ↦ codes "fault"
  | panic ↦ codes "panic"
  | out_of_fuel ↦ codes "fuel"
]

p5 : List ℕ
unfolding command
p5 = command (codes "-x" ∷ codes "both.scm" ∷ codes "error.scm" ∷ codes "both.scm" ∷ [])

p6 : List ℕ
unfolding command
p6 = command (codes "-" ∷ codes "-hh" ∷ codes "none" ∷ [])

p7 : List ℕ
unfolding command
p7 = command (codes "none" ∷ [])
