-- ===== src/Vm.antt =====
-- The virtual machine: include/nscheme/vm.h, vm_ops.h, src/vm.c and src/vm_ops.c.
mod Examples
pub mod Walks
pub mod State
pub mod Stack
pub mod Calls
pub mod Builtins
pub mod Handles
pub mod Closures
pub mod Apply
pub mod Arith
pub mod Operands
pub mod Quote
pub mod Reaches
pub mod Sums
pub mod Ops
pub mod Forms
pub mod Init
pub mod Interp
