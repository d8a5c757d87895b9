-- ===== src/SyntaxRules/Growth.antt =====
-- What `expand` (src/syntax-rules.c) takes of the heap: new pairs, and room for them.
use nscheme.Prelude.{ℕ, inl, inr, arith, ◌+◌, ◌*◌, ◌^◌, ◌≤◌, ◌<◌, ◌≡◌}
use nscheme.Values.{Value, Ptr, get_pair, scm_car, scm_cdr}
use nscheme.Memory.{Memory}
use nscheme.Run.{Run, ok, fault, panic, out_of_fuel, Run-cases}
use nscheme.Gc.{construct_pair, align_ptr, block_size, pair_size}
use nscheme.Gc.Alloc.{construct_pair_outcome, align_least}
use nscheme.SyntaxRules.Templates.{Datum, cons, Holds, IsLow, Grows, Grows-trans, Holds-kept, pairs}

-- The expansion stands on the heap with its pairs from `b` on, and at most `n` new pairs, of at most 56
-- bytes each, were taken; or the heap has no room for `n` pairs.
abbrev pub ExpandsFrom : Ptr → ℕ → Memory → Datum → Run (Value × Memory) → Type 0
ExpandsFrom b n m d (ok (v, m')) =
    Holds b m' v d × Grows m m' × (m'.gc.allocend ≤ m.gc.allocend + 56 * n)
ExpandsFrom b n m d panic = m.gc.end ≤ m.gc.allocend + 56 * n
ExpandsFrom b n m d fault = ⊥
ExpandsFrom b n m d out_of_fuel = ⊥

-- The expansion stands on the heap, all its pairs behind what was in use before; or the heap has no
-- room for all its pairs.
abbrev pub Expands : Memory → Datum → Run (Value × Memory) → Type 0
Expands m d r = ExpandsFrom m.gc.allocend (pairs d) m d r

full_heap :
    (m : Memory)
    → IsLow m
    → m.gc.end ≤ align_ptr (m.gc.allocend + block_size) 16 + pair_size
    → m.gc.end ≤ m.gc.allocend + 56
full_heap m (heap, low) h =
    let below = heap.allocend_end in
    let l = align_least (m.gc.allocend + block_size) 16 (omega arith) (omega arith) in omega arith

pub construct_pair-Expands :
    (b : Ptr) (m : Memory) (car cdr : Value) (a d : Datum)
    → IsLow m
    → b ≤ m.gc.allocend
    → Holds b m car a
    → Holds b m cdr d
    → ExpandsFrom b 1 m (cons a d) (construct_pair m car cdr)
unfolding scm_car scm_cdr
construct_pair-Expands b m car cdr a d (heap, low) base ha hd =
    let o = construct_pair_outcome m car cdr heap low in
    elim (Run-cases (construct_pair m car cdr)) [
      | inl ((v, m'), e) ↦
          (let c = rw e at o in
            let new = c.new in
            let used = c.used in
            let room = c.room in
            let g : Grows m m' = record {
              kept = c.kept;
              more = omega arith;
              heap = c.heap;
              end = c.end;
            } in
            let test = c.test in
            let car_of : (m'.pairs (get_pair v)).car ≡ car = rw test at c.car_of in
            let cdr_of : (m'.pairs (get_pair v)).cdr ≡ cdr = rw test at c.cdr_of in
            rw e (
              (
                test,
                omega arith,
                used,
                rw car_of (Holds-kept b m m' car a g ha),
                rw cdr_of (Holds-kept b m m' cdr d g hd),
              ),
              g,
              room,
            ))
      | inr (inl e) ↦ (let n = rw e at o in absurd n)
      | inr (inr (inl e)) ↦ (let full = full_heap m (heap, low) (rw e at o) in rw e full)
      | inr (inr (inr e)) ↦ (let n = rw e at o in absurd n)
    ]

pub Grows-IsLow : (m m' : Memory) → Grows m m' → m.gc.end < 2 ^ 62 → IsLow m'
Grows-IsLow m m' g low = let e = g.end in (g.heap, omega arith)

-- After at most `i` pairs have been taken, at most `n` more.
pub ExpandsFrom-later :
    (b i n : ℕ) (m m' : Memory) (d : Datum) (r : Run (Value × Memory))
    → Grows m m'
    → m'.gc.allocend ≤ m.gc.allocend + 56 * i
    → ExpandsFrom b n m' d r
    → ExpandsFrom b (i + n) m d r
ExpandsFrom-later b i n m m' d (ok (v, m'')) g l (h, g', l') =
    (h, Grows-trans m m' m'' g g', omega arith)
ExpandsFrom-later b i n m m' d panic g l x = let e = g.end in omega arith
ExpandsFrom-later b i n m m' d fault g l x = x
ExpandsFrom-later b i n m m' d out_of_fuel g l x = x

pub ExpandsFrom-more :
    (b i n : ℕ) (m : Memory) (d : Datum) (r : Run (Value × Memory))
    → i ≤ n
    → ExpandsFrom b i m d r
    → ExpandsFrom b n m d r
ExpandsFrom-more b i n m d (ok (v, m')) l (h, g, l') = (h, g, omega arith)
ExpandsFrom-more b i n m d panic l x = omega arith
ExpandsFrom-more b i n m d fault l x = x
ExpandsFrom-more b i n m d out_of_fuel l x = x
