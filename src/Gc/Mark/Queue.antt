-- ===== src/Gc/Mark/Queue.antt =====
-- The list of the blocks that the marking of src/gc.c has yet to traverse, as their headers link it.
use native.Mathlib.Decide.{ℕ_discrete}
use nscheme.Prelude.{
  ℕ, zero, suc, refl, sym, ap, inl, inr, List, [], arith, ◌+◌, ◌≤◌, ◌<◌, ◌≡◌, ◌⊎◌, ◌∷◌, ◌++◌, ◌==◌,
  if◌then◌else◌, ◌∙◌,
}
use nscheme.Values.{Value, Ptr, get_heap_tagged_value}
use nscheme.Memory.{GcBlock}
use nscheme.Gc.Mark.{link_end}

abbrev pub addr : Value → Ptr
addr v = get_heap_tagged_value v

abbrev pub Headers : Type 0
Headers = Ptr → GcBlock

-- The list has the block at the address.
abbrev pub Within : Ptr → List Value → Type 0
Within p [] = ⊥
Within p (u ∷ q) = (addr u ≡ p) ⊎ Within p q

-- The headers link `v`, the values of `q` and no more; the last of them is `end`.
abbrev pub IsQueue : Headers → (v : Value) → List Value → (end : Value) → Type 0
IsQueue b v [] end = (end ≡ v) × ((b (addr v)).uintptr ≡ 0)
IsQueue b v (w ∷ q) end =
    ((b (addr v)).uintptr ≡ w) × (¬ Within (addr v) (w ∷ q)) × IsQueue b w q end

abbrev pub AllFlagged : Headers → List Value → Type 0
AllFlagged b [] = Unit
AllFlagged b (u ∷ q) = (0 < (b (addr u)).flags) × AllFlagged b q

pub end-Within :
    (b : Headers) (v : Value) (q : List Value) (end : Value)
    → IsQueue b v q end
    → Within (addr end) (v ∷ q)
end-Within b v [] end (e, z) = inl (ap addr (sym e))
end-Within b v (w ∷ q) end (u, n, i) = inr (end-Within b w q end i)

pub Within-same : (p r : Ptr) (q : List Value) → p ≡ r → Within p q → Within r q
Within-same p r [] e n = absurd n
Within-same p r (w ∷ q) e (inl d) = inl (d ∙ e)
Within-same p r (w ∷ q) e (inr i) = inr (Within-same p r q e i)

pub Within-append :
    (p : Ptr) (q : List Value) (u : Value) → Within p (q ++ u ∷ []) → Within p q ⊎ (addr u ≡ p)
Within-append p [] u (inl e) = inr e
Within-append p [] u (inr n) = absurd n
Within-append p (w ∷ q) u (inl e) = inl (inl e)
Within-append p (w ∷ q) u (inr r) = elim (Within-append p q u r) [
  | inl i ↦ inl (inr i)
  | inr e ↦ inr e
]

pub Within-before : (p : Ptr) (q : List Value) (u : Value) → Within p q → Within p (q ++ u ∷ [])
Within-before p [] u n = absurd n
Within-before p (w ∷ q) u (inl e) = inl e
Within-before p (w ∷ q) u (inr r) = inr (Within-before p q u r)

pub Within-last : (q : List Value) (u : Value) → Within (addr u) (q ++ u ∷ [])
Within-last [] u = inl refl
Within-last (w ∷ q) u = inr (Within-last q u)

-- What linking `next` behind `end` does to the headers.
pub record IsLinked (b b' : Headers) (end next : Value) : Type 0 where
  pub next_uintptr : (b' (addr next)).uintptr ≡ 0
  pub next_flags : (b' (addr next)).flags ≡ 2
  pub end_uintptr : (b' (addr end)).uintptr ≡ next
  pub uintptr_same : (p : Ptr) → (p ≡ addr end) ⊎ (p ≡ addr next) ⊎ ((b' p).uintptr ≡ (b p).uintptr)
  pub flags_same : (p : Ptr) → (p ≡ addr next) ⊎ ((b' p).flags ≡ (b p).flags)

pub link_end-IsLinked :
    (b : Headers) (end next : Value)
    → ¬ (addr end ≡ addr next)
    → IsLinked b (link_end b end next) end next
unfolding link_end
link_end-IsLinked b end next n =
    let h : addr end ≡ addr next → ⊥ = n in
    record {
      next_uintptr = ground arith;
      next_flags = ground arith;
      end_uintptr = elim (ℕ_discrete (addr end) (addr next)) [
        | yes e ↦ absurd (n e)
        | no d ↦ ground arith
      ];
      uintptr_same = λ p. elim (ℕ_discrete p (addr end)) [
        | yes e ↦ inl e
        | no d ↦ elim (ℕ_discrete p (addr next)) [
          | yes e ↦ inr (inl e)
          | no c ↦ inr (inr (ground arith))
        ]
      ];
      flags_same = λ p. elim (ℕ_discrete p (addr next)) [
        | yes e ↦ inl e
        | no d ↦ inr (elim (ℕ_discrete p (addr end)) [ yes e ↦ ground arith | no c ↦ ground arith ])
      ];
    }

-- A block that no header links yet goes to the end of the list.
pub link-IsQueue :
    (b b' : Headers) (v : Value) (q : List Value) (end next : Value)
    → IsLinked b b' end next
    → IsQueue b v q end
    → AllFlagged b (v ∷ q)
    → (b (addr next)).flags ≡ 0
    → IsQueue b' v (q ++ next ∷ []) next
link-IsQueue b b' v [] end next l (e, z) (f, _) white =
    let n : ¬ Within (addr v) (next ∷ []) =
      λ w. elim w [ inl d ↦ absurd (omega (arith, ap (λ p. (b p).flags) d)) | inr i ↦ i ] in
    (rw (sym e) l.end_uintptr, n, (refl, l.next_uintptr))
link-IsQueue b b' v (w ∷ q) end next l (u, n, i) (f, fs) white =
    let apart : ¬ (addr next ≡ addr v) = λ d. absurd (omega (arith, ap (λ p. (b p).flags) d)) in
    let n' : ¬ Within (addr v) (w ∷ (q ++ next ∷ [])) =
      λ r. elim (Within-append (addr v) (w ∷ q) next r) [ inl i ↦ n i | inr d ↦ apart d ] in
    let u' : (b' (addr v)).uintptr ≡ w = elim (l.uintptr_same (addr v)) [
      | inl d ↦
          absurd (n (Within-same (addr end) (addr v) (w ∷ q) (sym d) (end-Within b w q end i)))
      | inr (inl d) ↦ absurd (apart (sym d))
      | inr (inr d) ↦ d ∙ u
    ] in
    (u', n', link-IsQueue b b' w q end next l i fs white)

-- Headers that link as before.
pub IsQueue-same :
    (b b' : Headers) (v : Value) (q : List Value) (end : Value)
    → ((p : Ptr) → (b' p).uintptr ≡ (b p).uintptr)
    → IsQueue b v q end
    → IsQueue b' v q end
IsQueue-same b b' v [] end h (e, z) = (e, h (addr v) ∙ z)
IsQueue-same b b' v (w ∷ q) end h (u, n, i) = (h (addr v) ∙ u, n, IsQueue-same b b' w q end h i)

pub AllFlagged-mono :
    (b b' : Headers) (q : List Value)
    → ((p : Ptr) → 0 < (b p).flags → 0 < (b' p).flags)
    → AllFlagged b q
    → AllFlagged b' q
AllFlagged-mono b b' [] h f = f
AllFlagged-mono b b' (u ∷ q) h (f, fs) = (h (addr u) f, AllFlagged-mono b b' q h fs)

pub AllFlagged-append :
    (b : Headers) (q : List Value) (u : Value)
    → AllFlagged b q
    → 0 < (b (addr u)).flags
    → AllFlagged b (q ++ u ∷ [])
AllFlagged-append b [] u f h = (h, f)
AllFlagged-append b (w ∷ q) u (g, f) h = (g, AllFlagged-append b q u f h)

-- How many of the addresses below n have no flags.
abbrev pub white : Headers → ℕ → ℕ
white b zero = 0
white b (suc n) = (if (b n).flags == 0 then 1 else 0) + white b n

-- Flags that are set make it less.
pub white_mono :
    (b b' : Headers) (n : ℕ)
    → ((p : Ptr) → (b p).flags ≡ 0 ⊎ (0 < (b' p).flags))
    → white b' n ≤ white b n
white_mono b b' zero h = omega arith
white_mono b b' (suc n) h =
    let rest = white_mono b b' n h in elim (h n) [ inl e ↦ ground arith | inr l ↦ ground arith ]

pub white-less :
    (b b' : Headers) (a n : ℕ)
    → ((p : Ptr) → (b p).flags ≡ 0 ⊎ (0 < (b' p).flags))
    → (b a).flags ≡ 0
    → 0 < (b' a).flags
    → a < n
    → white b' n < white b n
white-less b b' a zero h w f l = absurd (omega arith)
white-less b b' a (suc n) h w f l = elim (ℕ_discrete a n) [
  | yes e ↦
      (let rest = white_mono b b' n h in
        let w' : (b n).flags ≡ 0 = ap (λ p. (b p).flags) (sym e) ∙ w in
        let f' : (b' n).flags ≡ (b' a).flags = ap (λ p. (b' p).flags) (sym e) in ground arith)
  | no d ↦
      (let rest = white-less b b' a n h w f (omega arith) in
        elim (h n) [ inl e ↦ ground arith | inr k ↦ ground arith ])
]

pub white_bound : (b : Headers) (n : ℕ) → white b n ≤ n
white_bound b zero = omega arith
white_bound b (suc n) = let rest = white_bound b n in ground arith
