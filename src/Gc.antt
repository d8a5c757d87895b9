-- ===== src/Gc.antt =====
-- src/gc.c: the bump allocator of the collected heap, and `construct_pair` of include/nscheme/vm.h.
mod Examples
pub mod Alloc
pub mod Mark
pub mod Collect
use nscheme.Prelude.{ℕ, Option, none, some, ltb, leb, ◌+◌, ◌-◌, ◌%◌, if◌then◌else◌}
use nscheme.Prelude.Words.{mod64}
use nscheme.Values.{Value, Ptr, Pair, tag_pair}
use nscheme.Memory.{GcContext, GcBlock, Memory, update}
use nscheme.Run.{Run, ok, panic, ◌>>=◌}

-- `sizeof(scm_gc_block_t)`
abbrev pub block_size : ℕ
block_size = 24

-- `sizeof(scm_pair_t)`
abbrev pub pair_size : ℕ
pair_size = 16

unfoldable pub align_size : ℕ → ℕ → ℕ
align_size size align =
    let off = size % align in (size + (if ltb 0 off then align - off else 0)) % mod64

unfoldable pub align_ptr : Ptr → ℕ → Ptr
align_ptr ptr align =
    let off = ptr % align in (ptr + (if ltb 0 off then align - off else 0)) % mod64

-- `base` is what `malloc` returns.
unfoldable pub gc_init : Ptr → ℕ → GcContext
unfolding align_ptr
gc_init base initial_size = record {
  base = base;
  end = (base + initial_size) % mod64;
  allocend = align_ptr base 16;
}

-- `none` is `NULL`. A block's header stands right before the address that is returned.
unfoldable pub gc_alloc : Memory → ℕ → Option (Ptr × Memory)
unfolding align_ptr
gc_alloc m n =
    let block_end = align_ptr ((m.gc.allocend + block_size) % mod64) 16 in
    let allocend = (block_end + n) % mod64 in
    if leb m.gc.end allocend
    then none
    else some (
      block_end,
      record m {
        gc = record { base = m.gc.base; end = m.gc.end; allocend = allocend };
        blocks =
            update m.blocks block_end
              (record { uintptr = (m.blocks block_end).uintptr; flags = 0; size = n });
      },
    )

-- Where the heap is full, `vm_alloc` collects and tries again, and panics when that fails too.
-- `collect` is `gc_collect_vm` on the machine that the memory belongs to (see Gc.Collect.Retry). The
-- two messages on stdout are left out.
unfoldable pub vm_alloc : (collect : Memory → Run Memory) → Memory → ℕ → Run (Ptr × Memory)
unfolding gc_alloc
vm_alloc collect m n = elim (gc_alloc m n) [
  | some r ↦ ok r
  | none ↦ (do m' ← collect m; elim (gc_alloc m' n) [ some r ↦ ok r | none ↦ panic ])
]

-- The memory alone is given, without the machine whose roots a collection would follow. So the
-- collection is left out here: it writes headers alone, which `gc_alloc` does not read, and the second
-- try fails as the first did.
unfoldable pub construct_pair : Memory → Value → Value → Run (Value × Memory)
unfolding vm_alloc tag_pair
construct_pair m car cdr = do
  (pair, m') ← vm_alloc ok m pair_size
  ok (tag_pair pair, record m' { pairs = update m'.pairs pair (record { car = car; cdr = cdr }) })
