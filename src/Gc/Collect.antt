-- ===== src/Gc/Collect.antt =====
-- src/gc.c: marking from the roots of the machine.
--
-- The store names environments, their nodes and closures by number. Where `calloc` and `vm_alloc` have
-- put them is the argument `Addresses`. What the headers say that `is_unmarked_ptr` reads in front of a
-- block of `calloc` is whatever stands there: the map of the headers has some value at every address.
-- What these functions print for debugging is left out.
pub mod Roots
pub mod Loops
pub mod Complete
mod Retry
use nscheme.Prelude.{ℕ, zero, suc, true, false, [], ltb, length, ◌+◌, ◌∷◌, ◌==◌, if◌then◌else◌}
use nscheme.Values.{Ptr}
use nscheme.Env.{Node, null, node, Envs, NodeRef}
use nscheme.Memory.{Memory}
use nscheme.Run.{Run, ok, fault, ◌>>=◌}
use nscheme.Vm.State.{Vm, Closure, CallFrame, RunMode, stack_at}
use nscheme.Gc.Mark.{gc_mark_pointer, is_unmarked_ptr, mark_traverse}

pub record Addresses : Type 0 where
  pub environments : Ptr → Ptr
  pub nodes : NodeRef → Ptr
  -- the array `closures` of a closure, or `NULL`
  pub closures : Ptr → Ptr

unfoldable pub mark_closure : Addresses → Memory → Ptr → Closure → Run Memory
unfolding mark_traverse gc_mark_pointer
mark_closure at m p clsr = do
  m' ← mark_traverse m clsr.definition
  ok (gc_mark_pointer m' (at.closures p))

-- The nodes below one of the environment `env`.
unfoldable pub mark_env_node : Addresses → Memory → (env : Ptr) → Node → Run Memory
unfolding is_unmarked_ptr gc_mark_pointer mark_traverse
mark_env_node at m env null = ok m
mark_env_node at m env (node key value left right) =
    let p = at.nodes (record { env = env; key = key }) in
    elim (is_unmarked_ptr m p) [
      | false ↦ ok m
      | true ↦ do
        m₁ ← mark_traverse (gc_mark_pointer m p) key
        m₂ ← mark_traverse m₁ value
        m₃ ← mark_env_node at m₂ env left
        mark_env_node at m₃ env right
    ]

-- `cur->root`
unfoldable pub root_of : Envs → Ptr → Node
root_of [] cur = null
root_of (e ∷ older) cur =
    let rest = root_of older cur in if cur == suc (length older) then e.root else rest

-- The loop of `mark_environment`: `env` goes along `last`, and `cur` stays.
unfoldable pub mark_env_loop :
    Addresses → Memory → Envs → (cur : Ptr) → Node → (env : Ptr) → Run Memory
unfolding is_unmarked_ptr gc_mark_pointer mark_env_node
mark_env_loop at m [] cur root env = ok m
mark_env_loop at m (e ∷ older) cur root env = elim (env == suc (length older)) [
  | false ↦ mark_env_loop at m older cur root env
  | true ↦ elim (is_unmarked_ptr m (at.environments env)) [
    | false ↦ ok m
    | true ↦ do
      m' ← mark_env_node at (gc_mark_pointer m (at.environments cur)) cur root
      mark_env_loop at m' older cur root e.last
  ]
]

unfoldable pub mark_environment : Addresses → Memory → Envs → Ptr → Run Memory
unfolding mark_env_loop root_of
mark_environment at m envs env = mark_env_loop at m envs env (root_of envs env) env

-- The first loop of `mark_vm`, over `n` cells of the stack from `i` on.
unfoldable pub mark_stack : ℕ → (i : ℕ) → Vm → Memory → Run Memory
unfolding stack_at mark_traverse
mark_stack zero i vm m = ok m
mark_stack (suc n) i vm m = do
  value ← stack_at vm i
  m' ← mark_traverse m value
  mark_stack n (i + 1) vm m'

unfoldable pub mark_frame : Addresses → Vm → CallFrame → Memory → Run Memory
unfolding mark_traverse mark_closure
mark_frame at vm frame m = do
  m' ← elim frame.runmode [ RunMode.interp ↦ mark_traverse m frame.ptr | RunMode.compiled ↦ ok m ]
  mark_closure at m' frame.closure (vm.closures frame.closure)

-- The second, over `n` frames.
unfoldable pub mark_calls : Addresses → ℕ → (i : ℕ) → Vm → Memory → Run Memory
unfolding mark_frame
mark_calls at zero i vm m = ok m
mark_calls at (suc n) i vm m =
    if ltb i vm.calls_size
    then (do m' ← mark_frame at vm (vm.calls i) m; mark_calls at n (i + 1) vm m')
    else fault

unfoldable pub mark_vm : Addresses → Vm → Run Memory
unfolding mark_stack mark_calls mark_environment mark_traverse
mark_vm at vm = do
  m₁ ← mark_stack vm.sp 0 vm vm.memory
  m₂ ← mark_calls at vm.callp 0 vm m₁
  m₃ ← mark_environment at m₂ vm.envs vm.env
  mark_traverse m₃ vm.ptr

-- It frees nothing, and returns 0.
unfoldable pub gc_collect_vm : Addresses → Vm → Run (ℕ × Vm)
unfolding mark_vm
gc_collect_vm at vm = do m ← mark_vm at vm; ok (0, record vm { memory = m })
