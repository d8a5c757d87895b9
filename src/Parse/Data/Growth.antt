-- ===== src/Parse/Data/Growth.antt =====
-- Reading keeps what is in memory: src/symbols.c and `construct_pair` write behind it.
use nscheme.Prelude.{
  ℕ, refl, ap, inl, inr, List, arith, Option-cases, ◌+◌, ◌*◌, ◌^◌, ◌≤◌, ◌<◌, ◌≡◌, ◌⊎◌, ◌∙◌,
}
use nscheme.Prelude.{some}
use nscheme.Symbols.Interning.{try_store_symbol_found}
use nscheme.Values.{Value, Ptr, get_pair, get_symbol, scm_car, scm_cdr}
use nscheme.Values.Tagging.{IsAligned}
use nscheme.Memory.{Memory, malloc}
use nscheme.Run.{ok, panic, Run-cases}
use nscheme.Symbols.{try_store_symbol, copy_string, store_symbol, lookup_symbol_address}
use nscheme.Symbols.Interning.{IsInterned, All-imp, try_store_symbol-Interns, IsBlock}
use nscheme.Gc.{construct_pair, vm_alloc, gc_alloc, align_ptr, block_size, pair_size}
use nscheme.Gc.Alloc.{IsHeap, Constructs, align_least, construct_pair_outcome}
use nscheme.Parse.Data.{
  Atom, integer, name, boolean, character, empty, Datum, atom, cons, Shows, ShowsAtom,
}

-- The table of names is in order, and the heap lies below 2 ^ 62.
pub record IsReady (m : Memory) : Type 0 where
  pub interned : IsInterned m
  pub heap : IsHeap m.gc
  pub low : m.gc.end < 2 ^ 62

-- What is in use stays, and the heap's used part grows by 56 bytes for each of `n` pairs at most.
pub record Grows (n : ℕ) (m m' : Memory) : Type 0 where
  pub pairs : (q : Ptr) → (m.gc.allocend ≤ q) ⊎ (m'.pairs q ≡ m.pairs q)
  pub strings : (q : Ptr) → (m.brk ≤ q) ⊎ (m'.strings q ≡ m.strings q)
  pub allocend : m.gc.allocend ≤ m'.gc.allocend
  pub room : m'.gc.allocend ≤ m.gc.allocend + 56 * n
  pub end : m'.gc.end ≡ m.gc.end
  pub brk : m.brk ≤ m'.brk
  pub names :
      (y : List ℕ) (p : Ptr)
      → lookup_symbol_address m y ≡ some p
      → lookup_symbol_address m' y ≡ some p

pub Grows-refl : (n : ℕ) (m : Memory) → Grows n m m
Grows-refl n m = record {
  pairs = λ q. inr refl;
  strings = λ q. inr refl;
  allocend = omega arith;
  room = omega arith;
  end = refl;
  brk = omega arith;
  names = λ y p h. h;
}

kept_trans :
    {A : Type 0} {x y z : A} {n n' q : ℕ}
    → n ≤ n'
    → (n ≤ q) ⊎ (y ≡ x)
    → (n' ≤ q) ⊎ (z ≡ y)
    → (n ≤ q) ⊎ (z ≡ x)
kept_trans l (inl a) b = inl a
kept_trans l (inr a) (inl b) = inl (omega arith)
kept_trans l (inr a) (inr b) = inr (b ∙ a)

pub Grows-trans : {n k : ℕ} {a b c : Memory} → Grows n a b → Grows k b c → Grows (n + k) a c
Grows-trans {n} {k} {a} {b} {c} g h =
    let l = g.allocend in
    let l' = h.allocend in
    let s = g.brk in
    let s' = h.brk in
    let room = g.room in
    let room' = h.room in
    record {
      pairs = λ q. kept_trans l (g.pairs q) (h.pairs q);
      strings = λ q. kept_trans s (g.strings q) (h.strings q);
      allocend = omega arith;
      room = omega arith;
      end = h.end ∙ g.end;
      brk = omega arith;
      names = λ y p found. h.names y p (g.names y p found);
    }

ShowsAtom-Grows :
    {n : ℕ} (m m' : Memory) (v : Value) (a : Atom)
    → Grows n m m'
    → ShowsAtom m v a
    → ShowsAtom m' v a
ShowsAtom-Grows m m' v (integer n) g s = s
ShowsAtom-Grows m m' v (name bytes) g (t, below, e, found) =
    let l = g.brk in
    elim (g.strings (get_symbol v)) [
      | inl k ↦ absurd (omega arith)
      | inr k ↦ (t, omega arith, k ∙ e, g.names bytes (get_symbol v) found)
    ]
ShowsAtom-Grows m m' v (boolean b) g s = s
ShowsAtom-Grows m m' v (character c) g s = s
ShowsAtom-Grows m m' v empty g s = s

pub Shows-Grows :
    {n : ℕ} (m m' : Memory) (v : Value) (d : Datum) → Grows n m m' → Shows m v d → Shows m' v d
Shows-Grows m m' v (atom a) g s = ShowsAtom-Grows m m' v a g s
Shows-Grows m m' v (cons a d) g (t, below, car, cdr) =
    let l = g.allocend in
    elim (g.pairs (get_pair v)) [
      | inl k ↦ absurd (omega arith)
      | inr k ↦ (
        t,
        omega arith,
        rw k (Shows-Grows m m' (m.pairs (get_pair v)).car a g car),
        rw k (Shows-Grows m m' (m.pairs (get_pair v)).cdr d g cdr),
      )
    ]

-- The collected heap has no part in the table of names.
try_store_symbol_heap :
    (m : Memory) (x : List ℕ)
    → ((try_store_symbol m x).1.gc ≡ m.gc)
      × ((try_store_symbol m x).1.pairs ≡ m.pairs)
      × (m.brk ≤ (try_store_symbol m x).1.brk)
unfolding try_store_symbol copy_string store_symbol malloc
try_store_symbol_heap m x = elim (Option-cases (lookup_symbol_address m x)) [
  | inl e ↦ rw (try_store_symbol, e) (refl, refl, omega arith)
  | inr (p, e) ↦ rw (try_store_symbol, e) (refl, refl, omega arith)
]

pub try_store_symbol-Grows :
    (n : ℕ) (m : Memory) (x : List ℕ)
    → IsReady m
    → Grows n m (try_store_symbol m x).1 × IsReady (try_store_symbol m x).1
try_store_symbol-Grows n m x r =
    let i = try_store_symbol-Interns m x r.interned in
    let (gc, pairs, brk) = try_store_symbol_heap m x in
    (
      record {
        pairs = λ q. inr (ap (λ f. f q) pairs);
        strings = i.kept;
        allocend = rw gc (omega arith);
        room = rw gc (omega arith);
        end = ap (λ c. c.end) gc;
        brk = brk;
        names = λ y p h. try_store_symbol_found m x y p r.interned h;
      },
      record { interned = i.interned; heap = rw gc r.heap; low = rw gc r.low },
    )

construct_pair_table :
    (m : Memory) (car cdr : Value)
    → (r : Value × Memory) → construct_pair m car cdr ≡ ok r
    → (r.1.brk ≡ m.brk) × (r.1.strings ≡ m.strings) × (r.1.symbol_tree ≡ m.symbol_tree)
unfolding construct_pair vm_alloc gc_alloc
construct_pair_table m car cdr r e = ground arith

-- A table is in order also with more of the memory allocated.
pub IsInterned-more :
    (m m' : Memory)
    → m.brk ≤ m'.brk
    → IsAligned m'.brk
    → m'.symbol_tree ≡ m.symbol_tree
    → IsInterned m
    → IsInterned m'
IsInterned-more m m' brk aligned tree i =
    let started = i.started in
    record {
      started = omega arith;
      aligned = aligned;
      blocks = rw tree (
          All-imp (IsBlock m) (IsBlock m') m.symbol_tree (λ q b. (b.0, omega (arith, b.1), b.2))
            i.blocks);
    }

pub lookup-same :
    (m m' : Memory) (y : List ℕ)
    → m'.strings ≡ m.strings
    → m'.symbol_tree ≡ m.symbol_tree
    → lookup_symbol_address m' y ≡ lookup_symbol_address m y
unfolding lookup_symbol_address
lookup-same m m' y s t = rw (s, t) refl

constructed :
    (m m' : Memory) (car cdr v : Value) (a d : Datum)
    → IsReady m
    → Shows m car a
    → Shows m cdr d
    → construct_pair m car cdr ≡ ok (v, m')
    → Constructs m car cdr v m'
    → Shows m' v (cons a d) × Grows 1 m m' × IsReady m'
unfolding scm_car scm_cdr
constructed m m' car cdr v a d r sa sd e c =
    let (brk, strings, tree) = construct_pair_table m car cdr (v, m') e in
    let low = r.low in
    let end = c.end in
    let new = c.new in
    let used = c.used in
    let test = c.test in
    let first : (m'.pairs (get_pair v)).car ≡ car = ground (arith, c.car_of) in
    let second : (m'.pairs (get_pair v)).cdr ≡ cdr = ground (arith, c.cdr_of) in
    let room = c.room in
    let g : Grows 1 m m' = record {
      pairs = c.kept;
      strings = λ q. inr (ap (λ f. f q) strings);
      allocend = omega arith;
      room = omega arith;
      end = end;
      brk = omega arith;
      names = λ y p h. lookup-same m m' y strings tree ∙ h;
    } in
    (
      (test, used, rw first (Shows-Grows m m' car a g sa), rw second (Shows-Grows m m' cdr d g sd)),
      g,
      record {
        interned = IsInterned-more m m' (omega arith) (rw brk r.interned.aligned) tree r.interned;
        heap = c.heap;
        low = omega arith;
      },
    )

full_heap :
    (m : Memory)
    → IsReady m
    → m.gc.end ≤ align_ptr (m.gc.allocend + block_size) 16 + pair_size
    → m.gc.end ≤ m.gc.allocend + 56
full_heap m r h =
    let low = r.low in
    let below = r.heap.allocend_end in
    let l = align_least (m.gc.allocend + block_size) 16 (omega arith) (omega arith) in omega arith

-- A new pair of what shows two data shows their pair.
pub construct_pair-Shows :
    (m : Memory) (car cdr : Value) (a d : Datum)
    → IsReady m
    → Shows m car a
    → Shows m cdr d
    → ((construct_pair m car cdr ≡ panic) × (m.gc.end ≤ m.gc.allocend + 56))
      ⊎ ((v : Value) × (m' : Memory) × (construct_pair m car cdr ≡ ok (v, m'))
          × Shows m' v (cons a d)
          × Grows 1 m m'
          × IsReady m')
construct_pair-Shows m car cdr a d r sa sd =
    let o = construct_pair_outcome m car cdr r.heap r.low in
    elim (Run-cases (construct_pair m car cdr)) [
      | inl ((v, m'), e) ↦
          (let (s, g, ready) = constructed m m' car cdr v a d r sa sd e (rw e at o) in
            inr (v, m', e, s, g, ready))
      | inr (inl e) ↦ absurd (rw e at o)
      | inr (inr (inl e)) ↦ inl (e, full_heap m r (rw e at o))
      | inr (inr (inr e)) ↦ absurd (rw e at o)
    ]
