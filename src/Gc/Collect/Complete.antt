-- ===== src/Gc/Collect/Complete.antt =====
-- A collection (src/gc.c) marks all that the machine's roots refer to.
use native.Mathlib.Decide.{dec_lt}
use nscheme.Prelude.{ℕ, refl, inl, inr, false, arith, ◌+◌, ◌%◌, ◌≤◌, ◌<◌, ◌≡◌, ◌⊎◌}
use nscheme.Values.{Value}
use nscheme.Memory.{Memory}
use nscheme.Run.{Run, ok}
use nscheme.Vm.State.{Vm, RunMode}
use nscheme.Gc.Mark.Queue.{addr, Headers}
use nscheme.Gc.Mark.Traverse.{
  on_heap, Covers, Covers-mono, IsPairOnHeap, HasPairs, Extends, Extends-trans,
}
use nscheme.Gc.Mark.Rounds.{IsTraced}
use nscheme.Gc.Mark.Reachable.{IsReachable, reachable_marked}
use nscheme.Gc.Collect.{Addresses, root_of, mark_environment, mark_vm, gc_collect_vm}
use nscheme.Gc.Collect.Roots.{EnvPairs, IsPlaced, traverse_marks}
use nscheme.Gc.Collect.Loops.{
  FramePairs, FrameCovers, FrameCovers-mono, RunMode-cases, mark_env_loop-Marks, root_of-TreePairs,
  mark_stack-Marks, mark_calls-Marks,
}

-- The values that a collection starts from: those on the stack, what is evaluated at hand and in the
-- frames of the tree walker, and the bodies of the closures of all frames.
pub data IsRoot (vm : Vm) : Value → Type 0 where
  on_stack : {i : ℕ} → i < vm.sp → IsRoot vm (vm.stack i)
  at_hand : IsRoot vm vm.ptr
  in_frame :
      {i : ℕ} → i < vm.callp → (vm.calls i).runmode ≡ RunMode.interp → IsRoot vm (vm.calls i).ptr
  of_closure : {i : ℕ} → i < vm.callp → IsRoot vm (vm.closures (vm.calls i).closure).definition

-- A machine whose heap holds pairs only, apart from the arrays of closures, and on which everything
-- marked is traced.
pub record IsRooted (at : Addresses) (vm : Vm) : Type 0 where
  pub pairs : HasPairs vm.memory
  pub placed : IsPlaced at vm.memory
  pub traced : IsTraced vm.memory vm.memory.blocks
  pub roots : (v : Value) → IsRoot vm v → IsPairOnHeap vm.memory v
  pub envs : EnvPairs vm.memory vm.envs
  pub stack : vm.sp ≤ vm.stack_size
  pub calls : vm.callp ≤ vm.calls_size

frame_roots :
    (at : Addresses) (vm : Vm) (j : ℕ)
    → IsRooted at vm
    → (0 + vm.callp ≤ j) ⊎ FramePairs vm.memory vm (vm.calls j)
frame_roots at vm j r = elim (dec_lt j vm.callp) [
  | no k ↦ inl (omega arith)
  | yes l ↦ inr (
    r.roots _ (of_closure l),
    elim (RunMode-cases (vm.calls j).runmode) [
      | inr e ↦ inl e
      | inl e ↦ inr (r.roots _ (in_frame l e))
    ],
  )
]

stack_roots :
    (at : Addresses) (vm : Vm) (j : ℕ)
    → IsRooted at vm
    → (0 + vm.sp ≤ j) ⊎ IsPairOnHeap vm.memory (vm.stack j)
stack_roots at vm j r = elim (dec_lt j vm.sp) [
  | no k ↦ inl (omega arith)
  | yes l ↦ inr (r.roots _ (on_stack l))
]

-- All roots are marked.
abbrev Complete : Vm → Run Memory → Type 0
Complete vm r =
    (b' : Headers) × (r ≡ ok (record vm.memory { blocks = b' }))
    × IsTraced vm.memory b'
    × Extends vm.memory.blocks b'
    × ((v : Value) → IsRoot vm v → Covers vm.memory b' v)

root_covered :
    (vm : Vm) (b : Headers)
    → ((j : ℕ) → (j < 0) ⊎ (0 + vm.sp ≤ j) ⊎ Covers vm.memory b (vm.stack j))
    → ((j : ℕ) → (j < 0) ⊎ (0 + vm.callp ≤ j) ⊎ FrameCovers vm.memory b vm (vm.calls j))
    → Covers vm.memory b vm.ptr
    → {v : Value} → IsRoot vm v
    → Covers vm.memory b v
root_covered vm b s f p (on_stack {i} l) = elim (s i) [
  | inl k ↦ absurd (omega arith)
  | inr (inl k) ↦ absurd (omega arith)
  | inr (inr c) ↦ c
]
root_covered vm b s f p at_hand = p
root_covered vm b s f p (in_frame {i} l e) = elim (f i) [
  | inl k ↦ absurd (omega arith)
  | inr (inl k) ↦ absurd (omega arith)
  | inr (inr (d, inl k)) ↦ cc
  | inr (inr (d, inr c)) ↦ c
]
root_covered vm b s f p (of_closure {i} l) = elim (f i) [
  | inl k ↦ absurd (omega arith)
  | inr (inl k) ↦ absurd (omega arith)
  | inr (inr (d, c)) ↦ d
]

mark_vm-Complete : (at : Addresses) (vm : Vm) → IsRooted at vm → Complete vm (mark_vm at vm)
unfolding mark_vm mark_environment
mark_vm-Complete at vm r =
    let m = vm.memory in
    let stack = r.stack in
    let calls = r.calls in
    let (b₁, e₁, t₁, x₁, s) =
      mark_stack-Marks vm.sp 0 vm m m.blocks r.pairs r.traced (omega arith)
        (λ j. stack_roots at vm j r) in
    let (b₂, e₂, t₂, x₂, f) =
      mark_calls-Marks at vm.callp 0 vm m b₁ r.pairs r.placed t₁ (omega arith)
        (λ j. frame_roots at vm j r) in
    let (b₃, e₃, t₃, x₃) =
      mark_env_loop-Marks at m b₂ vm.envs vm.env (root_of vm.envs vm.env) vm.env r.pairs r.placed t₂
        (root_of-TreePairs m vm.envs vm.env r.envs) in
    let (b₄, e₄, t₄, x₄, c) = traverse_marks m b₃ vm.ptr r.pairs t₃ (r.roots vm.ptr at_hand) in
    let x₃₄ = Extends-trans b₂ b₃ b₄ x₃ x₄ in
    let x₂₄ = Extends-trans b₁ b₂ b₄ x₂ x₃₄ in
    (
      b₄,
      rw e₁ (rw e₂ (rw e₃ e₄)),
      t₄,
      Extends-trans m.blocks b₁ b₄ x₁ x₂₄,
      λ v i.
          root_covered vm b₄
            (λ j. elim (s j) [
              | inl k ↦ inl k
              | inr (inl k) ↦ inr (inl k)
              | inr (inr d) ↦ inr (inr (Covers-mono m b₁ b₄ (vm.stack j) x₂₄ d))
            ])
            (λ j. elim (f j) [
              | inl k ↦ inl k
              | inr (inl k) ↦ inr (inl k)
              | inr (inr d) ↦ inr (inr (FrameCovers-mono m b₂ b₄ vm (vm.calls j) x₃₄ d))
            ])
            c i,
    )

-- A collection on a machine whose heap holds pairs only, apart from the arrays of closures, and on
-- which everything marked is traced, ends. It changes nothing but headers, and has then marked every
-- block of the heap that a root refers to through pairs.
pub gc_collect_vm-Complete :
    (at : Addresses) (vm : Vm)
    → IsRooted at vm
    → (b' : Headers) × (gc_collect_vm at vm
        ≡ ok (0, record vm { memory = record vm.memory { blocks = b' } }))
      × IsTraced vm.memory b'
      × ((root v : Value)
          → IsRoot vm root
          → IsReachable vm.memory root v
          → (on_heap vm.memory v ≡ false) ⊎ ((b' (addr v)).flags % 2 ≡ 1))
unfolding gc_collect_vm
gc_collect_vm-Complete at vm r =
    let (b', e, t, x, c) = mark_vm-Complete at vm r in
    (b', rw e refl, t, λ root v i s. reachable_marked vm.memory b' t (c root i) s)
