-- ===== src/Gc/Collect/Loops.antt =====
-- The loops of a collection (src/gc.c) over environments, the stack and the frames.
use native.Mathlib.Decide.{dec_lt, ℕ_discrete}
use nscheme.Prelude.{
  ℕ, zero, suc, refl, inl, inr, true, [], arith, ltb, Bool-cases, length, ◌+◌, ◌≤◌, ◌<◌, ◌≡◌, ◌⊎◌,
  ◌∷◌, ◌==◌,
}
use nscheme.Values.{Ptr}
use nscheme.Memory.{Memory}
use nscheme.Env.{Node, null, node, Envs}
use nscheme.Run.{ok}
use nscheme.Vm.State.{Vm, Closure, CallFrame, RunMode, stack_at}
use nscheme.Gc.Mark.{is_unmarked_ptr}
use nscheme.Gc.Mark.Queue.{Headers}
use nscheme.Gc.Mark.Traverse.{
  Covers, Covers-mono, IsPairOnHeap, HasPairs, Extends, Extends-refl, Extends-trans,
}
use nscheme.Gc.Mark.Rounds.{IsTraced}
use nscheme.Gc.Collect.{
  Addresses, mark_closure, mark_env_node, root_of, mark_env_loop, mark_stack, mark_frame,
  mark_calls,
}
use nscheme.Gc.Collect.Roots.{
  TreePairs, EnvPairs, IsPlaced, Marks, Marked, traverse_marks, mark_outside, mark_array,
}

mark_closure-Marked :
    (at : Addresses) (m : Memory) (b : Headers) (p : Ptr) (clsr : Closure)
    → HasPairs m
    → IsPlaced at m
    → IsTraced m b
    → IsPairOnHeap m clsr.definition
    → Marked m b clsr.definition (mark_closure at (record m { blocks = b }) p clsr)
unfolding mark_closure
mark_closure-Marked at m b p clsr pairs placed t d =
    let (b₁, e₁, t₁, x₁, c) = traverse_marks m b clsr.definition pairs t d in
    let (b₂, e₂, t₂, x₂) = mark_array at m b₁ p placed t₁ in
    (b₂, rw e₁ e₂, t₂, Extends-trans b b₁ b₂ x₁ x₂, Covers-mono m b₁ b₂ clsr.definition x₂ c)

mark_env_node-Marks :
    (at : Addresses) (m : Memory) (b : Headers) (env : Ptr) (n : Node)
    → HasPairs m
    → IsPlaced at m
    → IsTraced m b
    → TreePairs m n
    → Marks m b (mark_env_node at (record m { blocks = b }) env n)
unfolding mark_env_node
mark_env_node-Marks at m b env null pairs placed t a = (b, refl, t, Extends-refl b)
mark_env_node-Marks at m b env (node key value left right) pairs placed t (k, v, l, r) =
    let mb = record m { blocks = b } in
    let p = at.nodes (record { env = env; key = key }) in
    let outside = mark_outside mb p (placed.nodes (record { env = env; key = key })) in
    elim (Bool-cases (is_unmarked_ptr mb p)) [
      | inr n ↦ rw (n, mark_env_node) (b, refl, t, Extends-refl b)
      | inl y ↦
          (let (b₁, e₁, t₁, x₁, _) = traverse_marks m b key pairs t k in
            let (b₂, e₂, t₂, x₂, _) = traverse_marks m b₁ value pairs t₁ v in
            let (b₃, e₃, t₃, x₃) = mark_env_node-Marks at m b₂ env left pairs placed t₂ l in
            let (b₄, e₄, t₄, x₄) = mark_env_node-Marks at m b₃ env right pairs placed t₃ r in
            (
              b₄,
              rw (y, mark_env_node) (rw outside (rw e₁ (rw e₂ (rw e₃ e₄)))),
              t₄,
              Extends-trans b b₁ b₄ x₁ (Extends-trans b₁ b₂ b₄ x₂ (Extends-trans b₂ b₃ b₄ x₃ x₄)),
            ))
    ]

pub root_of-TreePairs :
    (m : Memory) (envs : Envs) (cur : Ptr) → EnvPairs m envs → TreePairs m (root_of envs cur)
unfolding root_of
root_of-TreePairs m [] cur a = tt
root_of-TreePairs m (e ∷ older) cur (h, a) = elim (Bool-cases (cur == suc (length older))) [
  | inl y ↦ rw y h
  | inr n ↦ rw n (root_of-TreePairs m older cur a)
]

pub mark_env_loop-Marks :
    (at : Addresses) (m : Memory) (b : Headers) (envs : Envs) (cur : Ptr) (root : Node) (env : Ptr)
    → HasPairs m
    → IsPlaced at m
    → IsTraced m b
    → TreePairs m root
    → Marks m b (mark_env_loop at (record m { blocks = b }) envs cur root env)
unfolding mark_env_loop
mark_env_loop-Marks at m b [] cur root env pairs placed t a = (b, refl, t, Extends-refl b)
mark_env_loop-Marks at m b (e ∷ older) cur root env pairs placed t a =
    let mb = record m { blocks = b } in
    elim (Bool-cases (env == suc (length older))) [
      | inr n ↦
          rw (n, mark_env_loop) (mark_env_loop-Marks at m b older cur root env pairs placed t a)
      | inl y ↦ elim (Bool-cases (is_unmarked_ptr mb (at.environments env))) [
        | inr n ↦ rw (y, mark_env_loop) (rw n (b, refl, t, Extends-refl b))
        | inl u ↦
            (let outside = mark_outside mb (at.environments cur) (placed.environments cur) in
              let (b₁, e₁, t₁, x₁) = mark_env_node-Marks at m b cur root pairs placed t a in
              let (b₂, e₂, t₂, x₂) =
                mark_env_loop-Marks at m b₁ older cur root e.last pairs placed t₁ a in
              (
                b₂,
                rw (y, mark_env_loop) (rw u (rw outside (rw e₁ e₂))),
                t₂,
                Extends-trans b b₁ b₂ x₁ x₂,
              ))
      ]
    ]

-- The values of the stack in use.
pub mark_stack-Marks :
    (n i : ℕ) (vm : Vm) (m : Memory) (b : Headers)
    → HasPairs m
    → IsTraced m b
    → i + n ≤ vm.stack_size
    → ((j : ℕ) → (i + n ≤ j) ⊎ IsPairOnHeap m (vm.stack j))
    → (b' : Headers) × (mark_stack n i vm (record m { blocks = b }) ≡ ok (record m { blocks = b' }))
      × IsTraced m b'
      × Extends b b'
      × ((j : ℕ) → (j < i) ⊎ (i + n ≤ j) ⊎ Covers m b' (vm.stack j))
unfolding mark_stack stack_at
mark_stack-Marks zero i vm m b pairs t l h = (
  b,
  refl,
  t,
  Extends-refl b,
  λ j. elim (dec_lt j i) [ yes k ↦ inl k | no k ↦ inr (inl (omega arith)) ],
)
mark_stack-Marks (suc n) i vm m b pairs t l h =
    let here : IsPairOnHeap m (vm.stack i) = elim (h i) [
      | inl k ↦ absurd (omega arith)
      | inr p ↦ p
    ] in
    let inside : ltb i vm.stack_size ≡ true = ground arith in
    let (b₁, e₁, t₁, x₁, c₁) = traverse_marks m b (vm.stack i) pairs t here in
    let (b₂, e₂, t₂, x₂, c₂) =
      mark_stack-Marks n (i + 1) vm m b₁ pairs t₁ (omega arith)
        (λ j. elim (h j) [ inl k ↦ inl (omega arith) | inr p ↦ inr p ]) in
    (
      b₂,
      rw inside (rw e₁ e₂),
      t₂,
      Extends-trans b b₁ b₂ x₁ x₂,
      λ j. elim (c₂ j) [
        | inl k ↦ elim (ℕ_discrete j i) [
          | yes e ↦ inr (inr (rw e (Covers-mono m b₁ b₂ (vm.stack i) x₂ c₁)))
          | no d ↦ inl (omega arith)
        ]
        | inr (inl k) ↦ inr (inl (omega arith))
        | inr (inr c) ↦ inr (inr c)
      ],
    )

-- What a frame refers to is a pair, if it is on the heap.
abbrev pub FramePairs : Memory → Vm → CallFrame → Type 0
FramePairs m vm frame =
    IsPairOnHeap m (vm.closures frame.closure).definition
    × ((frame.runmode ≡ RunMode.compiled) ⊎ IsPairOnHeap m frame.ptr)

abbrev pub FrameCovers : Memory → Headers → Vm → CallFrame → Type 0
FrameCovers m b vm frame =
    Covers m b (vm.closures frame.closure).definition
    × ((frame.runmode ≡ RunMode.compiled) ⊎ Covers m b frame.ptr)

pub FrameCovers-mono :
    (m : Memory) (b b' : Headers) (vm : Vm) (frame : CallFrame)
    → Extends b b'
    → FrameCovers m b vm frame
    → FrameCovers m b' vm frame
FrameCovers-mono m b b' vm frame x (d, inl e) = (Covers-mono m b b' _ x d, inl e)
FrameCovers-mono m b b' vm frame x (d, inr c) =
    (Covers-mono m b b' _ x d, inr (Covers-mono m b b' _ x c))

pub RunMode-cases : (r : RunMode) → (r ≡ RunMode.interp) ⊎ (r ≡ RunMode.compiled)
RunMode-cases RunMode.interp = inl refl
RunMode-cases RunMode.compiled = inr refl

mark_frame-Marks :
    (at : Addresses) (vm : Vm) (frame : CallFrame) (m : Memory) (b : Headers)
    → HasPairs m
    → IsPlaced at m
    → IsTraced m b
    → FramePairs m vm frame
    → (b' : Headers) × (mark_frame at vm frame (record m { blocks = b })
        ≡ ok (record m { blocks = b' }))
      × IsTraced m b'
      × Extends b b'
      × FrameCovers m b' vm frame
unfolding mark_frame
mark_frame-Marks at vm frame m b pairs placed t (d, p) =
    let clsr = vm.closures frame.closure in
    elim (RunMode-cases frame.runmode) [
      | inr e ↦
          (let (b', e', t', x, c) =
              mark_closure-Marked at m b frame.closure clsr pairs placed t d in
            (b', rw (e, mark_frame) e', t', x, (c, inl e)))
      | inl e ↦
          (let ptr : IsPairOnHeap m frame.ptr = elim p [ inl k ↦ cc | inr h ↦ h ] in
            let (b₁, e₁, t₁, x₁, c₁) = traverse_marks m b frame.ptr pairs t ptr in
            let (b₂, e₂, t₂, x₂, c₂) =
              mark_closure-Marked at m b₁ frame.closure clsr pairs placed t₁ d in
            (
              b₂,
              rw (e, mark_frame) (rw e₁ e₂),
              t₂,
              Extends-trans b b₁ b₂ x₁ x₂,
              (c₂, inr (Covers-mono m b₁ b₂ frame.ptr x₂ c₁)),
            ))
    ]

pub mark_calls-Marks :
    (at : Addresses) (n i : ℕ) (vm : Vm) (m : Memory) (b : Headers)
    → HasPairs m
    → IsPlaced at m
    → IsTraced m b
    → i + n ≤ vm.calls_size
    → ((j : ℕ) → (i + n ≤ j) ⊎ FramePairs m vm (vm.calls j))
    → (b' : Headers) × (mark_calls at n i vm (record m { blocks = b })
        ≡ ok (record m { blocks = b' }))
      × IsTraced m b'
      × Extends b b'
      × ((j : ℕ) → (j < i) ⊎ (i + n ≤ j) ⊎ FrameCovers m b' vm (vm.calls j))
unfolding mark_calls
mark_calls-Marks at zero i vm m b pairs placed t l h = (
  b,
  refl,
  t,
  Extends-refl b,
  λ j. elim (dec_lt j i) [ yes k ↦ inl k | no k ↦ inr (inl (omega arith)) ],
)
mark_calls-Marks at (suc n) i vm m b pairs placed t l h =
    let here : FramePairs m vm (vm.calls i) = elim (h i) [
      | inl k ↦ absurd (omega arith)
      | inr p ↦ p
    ] in
    let inside : ltb i vm.calls_size ≡ true = ground arith in
    let (b₁, e₁, t₁, x₁, c₁) = mark_frame-Marks at vm (vm.calls i) m b pairs placed t here in
    let (b₂, e₂, t₂, x₂, c₂) =
      mark_calls-Marks at n (i + 1) vm m b₁ pairs placed t₁ (omega arith)
        (λ j. elim (h j) [ inl k ↦ inl (omega arith) | inr p ↦ inr p ]) in
    (
      b₂,
      rw inside (rw e₁ e₂),
      t₂,
      Extends-trans b b₁ b₂ x₁ x₂,
      λ j. elim (c₂ j) [
        | inl k ↦ elim (ℕ_discrete j i) [
          | yes e ↦ inr (inr (rw e (FrameCovers-mono m b₁ b₂ vm (vm.calls i) x₂ c₁)))
          | no d ↦ inl (omega arith)
        ]
        | inr (inl k) ↦ inr (inl (omega arith))
        | inr (inr c) ↦ inr (inr c)
      ],
    )
