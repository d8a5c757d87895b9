-- ===== src/Gc/Alloc.antt =====
-- The allocator of src/gc.c: alignment, bounds, and blocks that do not overlap.
use native.Mathlib.Nat.{mul-mod_right}
use native.Mathlib.Decide.{dec_lt, ℕ_discrete}
use nscheme.Prelude.{
  ℕ, refl, ap, inl, inr, true, false, Option, none, some, arith, ltb, leb, Bool-cases, Option-cases,
  ◌+◌, ◌-◌, ◌*◌, ◌/◌, ◌%◌, ◌^◌, ◌≤◌, ◌<◌, ◌≡◌, ◌⊎◌, ◌==◌, if◌then◌else◌, ◌∙◌,
}
use nscheme.Prelude.Words.{mod64}
use nscheme.Values.{Value, Ptr, tag_pair, is_pair, get_pair, scm_car, scm_cdr}
use nscheme.Values.Tagging.{IsAligned, is_pair-tag_pair, get_pair-tag_pair, scm_car_cdr-tag_pair}
use nscheme.Memory.{GcContext, Memory, update}
use nscheme.Run.{Run, ok, panic, fault, out_of_fuel}
use nscheme.Gc.{
  align_size, align_ptr, gc_init, gc_alloc, vm_alloc, construct_pair, block_size, pair_size,
}

align_mod : (x a : ℕ) → 0 < a → x + a < mod64 → align_ptr x a % a ≡ 0
unfolding align_ptr
align_mod x a h b = elim (Bool-cases (ltb 0 (x % a))) [
  | inl off ↦
      let e : (x + (a - x % a)) % mod64 ≡ a * (x / a + 1) = grind arith in
      rw (off, e) (mul-mod_right a (x / a + 1))
  | inr even ↦ let e : (x + 0) % mod64 ≡ x = omega arith in rw (even, e) (ground arith)
]

-- Both alignments give the least multiple that is not below the argument, where that fits a word.
pub align_least :
    (x a : ℕ)
    → 0 < a
    → x + a < mod64
    → (align_size x a ≡ align_ptr x a)
      × (align_ptr x a % a ≡ 0)
      × (x ≤ align_ptr x a)
      × (align_ptr x a < x + a)
unfolding align_size align_ptr
align_least x a h b = (refl, align_mod x a h b, ground arith, ground arith)

align_16 :
    (x : ℕ)
    → x + 16 < mod64
    → (align_ptr x 16 % 16 ≡ 0) × (x ≤ align_ptr x 16) × (align_ptr x 16 < x + 16)
unfolding align_ptr
align_16 x b = ground arith

-- The heap lies well inside the address space.
pub record IsHeap (gc : GcContext) : Type 0 where
  pub base_allocend : gc.base ≤ gc.allocend
  pub allocend_end : gc.allocend < gc.end
  pub end_small : gc.end + 64 < mod64

-- `gc_init` sets up a heap, if it is given a block of at least 16 bytes.
pub gc_init-IsHeap :
    (base size : ℕ) → 16 ≤ size → base + size + 64 < mod64 → IsHeap (gc_init base size)
unfolding gc_init
gc_init-IsHeap base size h b = record {
  base_allocend = omega (arith, align_16 base);
  allocend_end = ground (arith, align_16 base);
  end_small = omega arith;
}

-- What an allocation of `n` bytes promises of the address and of the memory that it returns.
pub record Allocates (m : Memory) (n : ℕ) (p : Ptr) (m' : Memory) : Type 0 where
  pub aligned : IsAligned p
  -- the header lies behind everything that was allocated before
  pub behind : m.gc.allocend + block_size ≤ p
  -- the header and the padding take less than 40 bytes
  pub near : p < m.gc.allocend + block_size + 16
  pub next : m'.gc.allocend ≡ p + n
  pub heap : IsHeap m'.gc
  pub unmarked : (m'.blocks p).flags ≡ 0
  pub sized : (m'.blocks p).size ≡ n
  -- the link in the header is not written
  pub link : (m'.blocks p).uintptr ≡ (m.blocks p).uintptr
  pub headers : (q : Ptr) → (q ≡ p) ⊎ (m'.blocks q ≡ m.blocks q)
  pub limit : m'.gc.end ≡ m.gc.end
  pub pairs : m'.pairs ≡ m.pairs

-- `NULL` only where the block with its header and padding would reach the end of the heap.
abbrev pub Outcome : Memory → ℕ → Option (Ptr × Memory) → Type 0
Outcome m n none = m.gc.end ≤ align_ptr (m.gc.allocend + block_size) 16 + n
Outcome m n (some r) = Allocates m n r.0 r.1

-- What `gc_alloc` computes, with no word wrapping around.
gc_alloc_unwrapped :
    (m : Memory) (n p : ℕ)
    → IsHeap m.gc
    → n < 2 ^ 62
    → m.gc.end < 2 ^ 62
    → align_ptr (m.gc.allocend + block_size) 16 ≡ p
    → gc_alloc m n ≡ (
        if leb m.gc.end (p + n)
        then none
        else some (
          p,
          record m {
            gc = record { base = m.gc.base; end = m.gc.end; allocend = p + n };
            blocks =
                update m.blocks p (record { uintptr = (m.blocks p).uintptr; flags = 0; size = n });
          },
        ))
unfolding gc_alloc
gc_alloc_unwrapped m n p v h b e =
    let l = align_16 (m.gc.allocend + block_size) (omega arith) in
    let e₁ : (m.gc.allocend + block_size) % mod64 ≡ m.gc.allocend + block_size = omega arith in
    let e₂ : (p + n) % mod64 ≡ p + n = omega arith in rw (e₁, e, e₂)

-- `gc_alloc`, given a size and a heap below 2 ^ 62, returns an aligned block behind all earlier ones,
-- with its size and no flags in its header, whose link it leaves as it was, and moves the end of the
-- allocated part behind the block, or it returns `NULL` because the heap has no room.
pub gc_alloc-Outcome :
    (m : Memory) (n : ℕ) → IsHeap m.gc → n < 2 ^ 62 → m.gc.end < 2 ^ 62 → Outcome m n (gc_alloc m n)
gc_alloc-Outcome m n v h b =
    let p = align_ptr (m.gc.allocend + block_size) 16 in
    let l = align_16 (m.gc.allocend + block_size) (omega arith) in
    elim (Bool-cases (leb m.gc.end (p + n))) [
      | inl full ↦ rw (gc_alloc_unwrapped m n p v h b refl, full) (ground arith)
      | inr room ↦
          rw (gc_alloc_unwrapped m n p v h b refl, room)
            (record {
              aligned = l.0;
              behind = l.1;
              near = l.2;
              next = refl;
              heap = record {
                base_allocend = omega (arith, v.base_allocend);
                allocend_end = ground arith;
                end_small = v.end_small;
              };
              unmarked = ground arith;
              sized = ground arith;
              link = ground arith;
              headers = λ q. elim (ℕ_discrete q p) [ yes e ↦ inl e | no d ↦ inr (ground arith) ];
              limit = refl;
              pairs = refl;
            })
    ]

-- Where the collection is left out, `vm_alloc` returns what one `gc_alloc` returns, and panics when that
-- is `NULL`.
pub vm_alloc-gc_alloc :
    (m : Memory) (n : ℕ) → vm_alloc ok m n ≡ (elim (gc_alloc m n) [ some r ↦ ok r | none ↦ panic ])
unfolding vm_alloc gc_alloc
vm_alloc-gc_alloc m n = ground arith

-- What `construct_pair` promises when it returns.
pub record Constructs (m : Memory) (car cdr v : Value) (m' : Memory) : Type 0 where
  pub test : is_pair v ≡ true
  pub car_of : scm_car m'.pairs v ≡ car
  pub cdr_of : scm_cdr m'.pairs v ≡ cdr
  -- pairs in the part of the heap that was in use are not touched
  pub kept : (q : Ptr) → (m.gc.allocend ≤ q) ⊎ (m'.pairs q ≡ m.pairs q)
  pub new : m.gc.allocend ≤ get_pair v
  pub used : get_pair v < m'.gc.allocend
  pub room : m'.gc.allocend ≤ m.gc.allocend + 56
  pub heap : IsHeap m'.gc
  pub end : m'.gc.end ≡ m.gc.end

-- A pair or a panic: nothing else can come of it.
abbrev pub PairOrPanic : Memory → (car cdr : Value) → Run (Value × Memory) → Type 0
PairOrPanic m car cdr (ok r) = Constructs m car cdr r.0 r.1
PairOrPanic m car cdr panic = m.gc.end ≤ align_ptr (m.gc.allocend + block_size) 16 + pair_size
PairOrPanic m car cdr fault = ⊥
PairOrPanic m car cdr out_of_fuel = ⊥

pair_of_block :
    (m m' : Memory) (p car cdr : Value)
    → Allocates m pair_size p m'
    → Constructs m car cdr
        (tag_pair p)
        (record m' { pairs = update m'.pairs p (record { car = car; cdr = cdr }) })
pair_of_block m m' p car cdr a =
    let pairs = update m'.pairs p (record { car = car; cdr = cdr }) in
    let acc = scm_car_cdr-tag_pair pairs p a.aligned in
    record {
      test = is_pair-tag_pair p a.aligned;
      car_of = acc.0 ∙ ground arith;
      cdr_of = acc.1 ∙ ground arith;
      kept = λ q. elim (dec_lt q p) [
        | yes l ↦ inr (kept_at q l)
        | no n ↦ inl (omega (arith, a.behind))
      ];
      new = rw (get_pair-tag_pair p a.aligned) (omega (arith, a.behind));
      used = rw (get_pair-tag_pair p a.aligned) (omega (arith, a.next));
      room = omega (arith, a.near, a.next);
      heap = a.heap;
      end = a.limit;
    }
  where
    kept_at : (q : Ptr) → q < p → update m'.pairs p (record { car = car; cdr = cdr }) q ≡ m.pairs q
    kept_at q l = let other : (q == p) ≡ false = ground arith in rw other (ap (λ f. f q) a.pairs)

construct_ok :
    (m m' : Memory) (car cdr : Value) (p : Ptr)
    → gc_alloc m pair_size ≡ some (p, m')
    → construct_pair m car cdr
      ≡ ok (tag_pair p, record m' { pairs = update m'.pairs p (record { car = car; cdr = cdr }) })
unfolding construct_pair
construct_ok m m' car cdr p e = rw (vm_alloc-gc_alloc m pair_size, e)

construct_panic :
    (m : Memory) (car cdr : Value) → gc_alloc m pair_size ≡ none → construct_pair m car cdr ≡ panic
unfolding construct_pair
construct_panic m car cdr e = rw (vm_alloc-gc_alloc m pair_size, e)

-- `construct_pair` returns a value that tests as a pair and has the two parts, at an address that
-- was not in use, or it panics because the heap has no room for a pair.
pub construct_pair_outcome :
    (m : Memory) (car cdr : Value)
    → IsHeap m.gc
    → m.gc.end < 2 ^ 62
    → PairOrPanic m car cdr (construct_pair m car cdr)
construct_pair_outcome m car cdr v b =
    let o = gc_alloc-Outcome m pair_size v (omega arith) b in
    elim (Option-cases (gc_alloc m pair_size)) [
      | inl e ↦ rw (construct_panic m car cdr e) (rw e at o)
      | inr ((p, m'), e) ↦
          rw (construct_ok m m' car cdr p e) (pair_of_block m m' p car cdr (rw e at o))
    ]
