-- ===== src/Vm/Reaches.antt =====
-- Running the machine's loop (src/vm.c) from one machine to another, in a bounded number of rounds.
use nscheme.Prelude.{
  ℕ, suc, refl, ap, Bool, true, some, arith, get_elem?, ◌+◌, ◌%◌, ◌≤◌, ◌≡◌, if◌then◌else◌, ◌∙◌,
}
use nscheme.Prelude.Words.{mod32}
use nscheme.Run.{ok}
use nscheme.Vm.State.{Vm, VmOp, RunMode}
use nscheme.Vm.Interp.{call_func, vm_step, vm_run}
use nscheme.Vm.Builtins.{step_at}

-- Whatever fuel is left at the end, the loop needs at most `j` rounds more at the start.
abbrev pub Reaches : ℕ → Vm → Vm → Type 0
Reaches j vm vm' = (k : ℕ) → (n : ℕ) × (n ≤ j + k) × (vm_run n vm ≡ vm_run k vm')

pub Reaches-trans :
    (vm₁ vm₂ vm₃ : Vm) (i j : ℕ) → Reaches i vm₁ vm₂ → Reaches j vm₂ vm₃ → Reaches (i + j) vm₁ vm₃
Reaches-trans vm₁ vm₂ vm₃ i j f g k =
    let (m, h, e) = g k in let (n, l, d) = f m in (n, omega arith, d ∙ e)

pub Reaches-mono : (vm vm' : Vm) (i j : ℕ) → i ≤ j → Reaches i vm vm' → Reaches j vm vm'
Reaches-mono vm vm' i j h f k = let (n, l, e) = f k in (n, omega arith, e)

pub Reaches-step : (vm vm' : Vm) → vm.running ≡ true → vm_step vm ≡ ok vm' → Reaches 1 vm vm'
unfolding vm_run
Reaches-step vm vm' r e k = (suc k, omega arith, simp (vm_run, r, e))

-- One instruction.
pub Reaches-instr :
    (vm vm' : Vm) (code : VmOp) (next : Bool)
    → vm.running ≡ true
    → vm.runmode ≡ RunMode.compiled
    → get_elem? (vm.closures vm.closure).code vm.ip ≡ some code
    → call_func code.func vm code.arg ≡ ok (next, vm')
    → Reaches 1 vm (record vm' { ip = (vm'.ip + (if next then 1 else 0)) % mod32 })
Reaches-instr vm vm' code next r m g e = Reaches-step vm _ r (step_at vm code m g ∙ rw e refl)

pub Reaches-same : (vm vm' : Vm) → vm ≡ vm' → Reaches 0 vm vm'
Reaches-same vm vm' e k = (k, omega arith, ap (vm_run k) e)
