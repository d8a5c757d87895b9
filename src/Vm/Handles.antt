-- ===== src/Vm/Handles.antt =====
-- The handles of src/vm.c: slots that keep a value from the collector. A returned `int` of -1 is
-- `none`; a negative argument is refused by every function, and is left out.
pub mod Reuse
use nscheme.Prelude.{
  ℕ, Bool, true, false, not, Option, none, some, ltb, leb, ◌+◌, ◌-◌, ◌&&◌, ◌==◌, if◌then◌else◌,
}
use nscheme.Values.{Value, scm_type_null}
use nscheme.Memory.{update}
use nscheme.Vm.State.{Vm, Handle, HandleStack}

abbrev pub unused : Handle
unused = record { value = 0; used = false }

-- `calloc` clears the slots; behind the array there are none.
unfoldable pub vm_handles_init : ℕ → HandleStack
vm_handles_init initial_size = record {
  slots = λ i. unused;
  avail = λ i. if ltb i initial_size then i else 0;
  num_avail = initial_size;
  max_avail = initial_size;
}

unfoldable pub vm_handle_alloc : Vm → Option ℕ × Vm
vm_handle_alloc vm =
    let hs = vm.handles in
    if hs.num_avail == 0
    then (none, vm)
    else (let ret = hs.num_avail - 1 in
        let taken = record vm { handles = record hs { num_avail = ret } } in
        if (hs.slots ret).used then (none, taken) else (
          some ret,
          record vm {
            handles = record hs {
              num_avail = ret;
              slots = update hs.slots ret (record (hs.slots ret) { used = true });
            };
          },
        ))

unfoldable pub vm_handle_free : Vm → ℕ → Vm
vm_handle_free vm handle =
    let hs = vm.handles in
    if leb hs.max_avail hs.num_avail
    then vm
    else if leb hs.max_avail handle
    then vm
    else if not (hs.slots handle).used
    then vm
    else record vm {
      handles = record hs {
        slots = update hs.slots handle (record (hs.slots handle) { used = true });
        avail = update hs.avail hs.num_avail handle;
        num_avail = hs.num_avail + 1;
      };
    }

unfoldable pub vm_handle_valid : Vm → ℕ → Bool
vm_handle_valid vm handle = ltb handle vm.handles.max_avail && (vm.handles.slots handle).used

unfoldable pub vm_handle_get : Vm → ℕ → Value
unfolding vm_handle_valid
vm_handle_get vm handle =
    if vm_handle_valid vm handle then (vm.handles.slots handle).value else scm_type_null

unfoldable pub vm_handle_set : Vm → ℕ → Value → Vm
unfolding vm_handle_valid
vm_handle_set vm handle value =
    if vm_handle_valid vm handle
    then record vm {
      handles = record vm.handles {
        slots = update vm.handles.slots handle (record (vm.handles.slots handle) { value = value });
      };
    }
    else vm
