-- ===== src/Gc/Mark.antt =====
-- src/gc.c: marking what a value refers to. The blocks that are still to be traversed form a list,
-- which their headers link.
pub mod Queue
pub mod Traverse
pub mod Linking
pub mod Rounds
pub mod Reachable
use nscheme.Prelude.{ℕ, zero, suc, Bool, not, ltb, leb, ◌+◌, ◌%◌, ◌&&◌, ◌==◌, if◌then◌else◌}
use nscheme.Values.{Value, Ptr, get_heap_type, get_heap_tagged_value, scm_type_pair}
use nscheme.Memory.{GcContext, GcBlock, Memory, update}
use nscheme.Run.{Run, ok, out_of_fuel}

abbrev pub flag_grey : ℕ
flag_grey = 2

unfoldable pub is_heap_type : Value → Bool
is_heap_type val = not (val % 4 == 0) && not (val % 256 == 0xff)

-- Whether the collector owns what a pointer points to.
unfoldable pub is_gc_ptr : GcContext → Ptr → Bool
is_gc_ptr gc ptr = leb gc.base ptr && ltb ptr gc.allocend

-- `flags |= FLAG_MARKED`, which is the lowest bit.
unfoldable pub set_marked : GcBlock → GcBlock
set_marked blk = record blk { flags = if blk.flags % 2 == 0 then blk.flags + 1 else blk.flags }

unfoldable pub gc_mark_pointer : Memory → Ptr → Memory
unfolding is_gc_ptr set_marked
gc_mark_pointer m ptr =
    if is_gc_ptr m.gc ptr
    then record m { blocks = update m.blocks ptr (set_marked (m.blocks ptr)) }
    else m

unfoldable pub gc_mark_value : Memory → Value → Memory
unfolding is_heap_type gc_mark_pointer get_heap_tagged_value
gc_mark_value m val = if is_heap_type val then gc_mark_pointer m (get_heap_tagged_value val) else m

-- The headers after the list's end has been linked to a grey block. The end is then that block.
unfoldable pub link_end : (Ptr → GcBlock) → (end next : Value) → Ptr → GcBlock
unfolding get_heap_tagged_value
link_end blocks end next =
    let blk = get_heap_tagged_value end in
    let nextblk = get_heap_tagged_value next in
    let linked = update blocks blk (record (blocks blk) { uintptr = next }) in
    update linked nextblk (record (linked nextblk) { flags = flag_grey; uintptr = 0 })

unfoldable pub link_next : Memory → Value → Value
unfolding get_heap_tagged_value
link_next m val = if val == 0 then 0 else (m.blocks (get_heap_tagged_value val)).uintptr

unfoldable pub is_unmarked_ptr : Memory → Ptr → Bool
is_unmarked_ptr m ptr = (m.blocks ptr).flags == 0

unfoldable pub is_unmarked : Memory → Value → Bool
unfolding is_unmarked_ptr get_heap_tagged_value
is_unmarked m val = is_unmarked_ptr m (get_heap_tagged_value val)

unfoldable pub should_link : Memory → Value → Bool
unfolding is_heap_type is_gc_ptr get_heap_tagged_value is_unmarked
should_link m val =
    is_heap_type val && is_gc_ptr m.gc (get_heap_tagged_value val) && is_unmarked m val

-- The memory, and the end of the list.
unfoldable pub try_link : Memory → (end next : Value) → Memory × Value
unfolding should_link link_end
try_link m end next =
    if should_link m next
    then (record m { blocks = link_end m.blocks end next }, next)
    else (m, end)

-- The `switch` of `mark_traverse`: only pairs refer to other values.
unfoldable pub link_parts : Memory → (cur end : Value) → Memory × Value
unfolding get_heap_type get_heap_tagged_value try_link
link_parts m cur end =
    let pair = m.pairs (get_heap_tagged_value cur) in
    let (m', end') = try_link m end pair.car in
    if get_heap_type cur == scm_type_pair then try_link m' end' pair.cdr else (m, end)

-- The loop of `mark_traverse`.
unfoldable pub mark_loop : ℕ → Memory → (cur end : Value) → Run Memory
unfolding gc_mark_value link_parts link_next
mark_loop zero m cur end = if cur == 0 then ok m else out_of_fuel
mark_loop (suc k) m cur end =
    let (m', end') = link_parts (gc_mark_value m cur) cur end in
    let rest = mark_loop k m' (link_next m' cur) end' in if cur == 0 then ok m else rest

-- Each round traverses another block of the heap, so the heap's used part is enough.
unfoldable pub mark_traverse : Memory → (root : Value) → Run Memory
unfolding should_link mark_loop
mark_traverse m root =
    if not (should_link m root) then ok m else mark_loop (m.gc.allocend + 1) m root root
