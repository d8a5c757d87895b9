-- ===== src/Vm/State.antt =====
-- The state of the machine (include/nscheme/vm.h), its stack and its call frames
-- (include/nscheme/vm_ops.h). A pointer into a block is the address of the block; what a block of
-- a kind holds stands in a field of the machine. `NULL` is 0. An access outside the stack, the
-- frames or a closure's code is a fault.
use Prim.Native.String.{String}
use nscheme.Prelude.{
  ℕ, Bool, true, false, Option, none, some, List, ltb, ◌+◌, ◌-◌, ◌%◌, ◌==◌, if◌then◌else◌,
}
use nscheme.Prelude.Words.{mod32, sub32}
use nscheme.Values.{Value, Ptr, Pair, SyntaxRules, is_pair, get_pair}
use nscheme.Env.{Envs, NodeRef}
use nscheme.Memory.{Memory, update}
use nscheme.Run.{Run, ok, fault, ◌>>=◌}

-- The functions that `vm_func` points to.
pub data VmFunc : Type 0 where
  op_return op_return_last op_jump op_jump_if_false op_closure_ref op_stack_ref op_push_const
        op_do_call op_do_tailcall op_add op_sub op_mul op_div op_cons op_car op_cdr op_lessthan
        op_equal op_greaterthan op_is_null op_is_pair op_intern_define op_intern_set op_intern_if
        op_display op_newline op_read :
      VmFunc

-- `vm_op_t`
pub record VmOp : Type 0 where
  pub func : VmFunc
  pub arg : ℕ

-- `scm_closure_t`, with the arrays that `code` and `closures` point to. The members of the union
-- that are used are `env` and `args`.
pub record Closure : Type 0 where
  pub code : List VmOp
  pub closures : List NodeRef
  pub definition : Value
  pub compiled : Bool
  pub num_calls : ℕ
  pub env : Ptr
  pub args : Value

pub data RunMode : Type 0 where
  interp compiled : RunMode

-- `vm_callframe_t`. `ip` shares its bytes with `ptr` and `env`: the first is used in compiled
-- frames, the others in interpreted ones, and `runmode` says which.
pub record CallFrame : Type 0 where
  pub closure : Ptr
  pub sp : ℕ
  pub argnum : ℕ
  pub runmode : RunMode
  pub ip : ℕ
  pub ptr : Value
  pub env : Ptr

-- `vm_handle_t` and `vm_handle_stack_t`
pub record Handle : Type 0 where
  pub value : Value
  pub used : Bool

pub record HandleStack : Type 0 where
  pub slots : ℕ → Handle
  pub avail : ℕ → ℕ
  pub num_avail : ℕ
  pub max_avail : ℕ

-- The `static` closures of src/vm_ops.c, `NULL` until their first use.
pub record Statics : Type 0 where
  pub return_last : Ptr
  pub intern_define : Ptr
  pub intern_set : Ptr
  pub intern_if : Ptr

-- `vm_t`, with the memory, the standard streams and the variables of the process.
pub record Vm : Type 0 where
  pub ip : ℕ
  pub sp : ℕ
  pub callp : ℕ
  pub running : Bool
  pub closure : Ptr
  pub stack : ℕ → Value
  pub calls : ℕ → CallFrame
  pub env : Ptr
  pub ptr : Value
  pub argnum : ℕ
  pub stack_size : ℕ
  pub calls_size : ℕ
  pub runmode : RunMode
  pub errormsg : Option String
  pub handles : HandleStack
  pub memory : Memory
  pub envs : Envs
  pub closures : Ptr → Closure
  pub rules : Ptr → SyntaxRules
  pub statics : Statics
  pub root_closure : Ptr
  pub stdin : List ℕ
  pub stdout : List ℕ

-- A read of the stack.
unfoldable pub stack_at : Vm → ℕ → Run Value
stack_at vm i = if ltb i vm.stack_size then ok (vm.stack i) else fault

-- A write to it.
unfoldable pub stack_set : Vm → ℕ → Value → Run Vm
stack_set vm i value =
    if ltb i vm.stack_size then ok (record vm { stack = update vm.stack i value }) else fault

-- The pair that a value points to, where it is one.
unfoldable pub deref_pair : Vm → Value → Run Pair
unfolding is_pair get_pair
deref_pair vm value = if is_pair value then ok (vm.memory.pairs (get_pair value)) else fault

unfoldable pub vm_stack_push : Vm → Value → Run Vm
unfolding stack_set
vm_stack_push vm value = do
  vm' ← stack_set vm vm.sp value
  ok (record vm' { sp = vm.sp + 1; argnum = (vm.argnum + 1) % mod32 })

-- At `sp` 0 the index would wrap around to the end of the address space.
unfoldable pub vm_stack_pop : Vm → Run (Value × Vm)
unfolding stack_at
vm_stack_pop vm = if vm.sp == 0 then fault else do
  value ← stack_at vm (vm.sp - 1)
  ok (value, record vm { sp = vm.sp - 1; argnum = sub32 vm.argnum 1 })

unfoldable pub vm_stack_peek : Vm → Run Value
unfolding stack_at
vm_stack_peek vm = if vm.sp == 0 then fault else stack_at vm (vm.sp - 1)

unfoldable pub vm_call_eval : Vm → Value → Run Vm
vm_call_eval vm ptr =
    if ltb vm.callp vm.calls_size
    then ok (record vm {
      calls = update vm.calls vm.callp (record (vm.calls vm.callp) {
        closure = vm.closure;
        sp = vm.sp;
        argnum = vm.argnum;
        runmode = RunMode.interp;
        ptr = vm.ptr;
        env = vm.env;
      });
      callp = vm.callp + 1;
      argnum = 0;
      ptr = ptr;
    })
    else fault

-- What `vm_call_return` takes over from the frame, by its mode.
unfoldable pub restore_mode : CallFrame → RunMode → Vm → Vm
restore_mode frame RunMode.compiled vm = record vm { runmode = RunMode.compiled; ip = frame.ip }
restore_mode frame RunMode.interp vm = record vm {
  runmode = RunMode.interp;
  ptr = frame.ptr;
  env = frame.env;
}

unfoldable pub vm_call_return : Vm → Vm
unfolding restore_mode
vm_call_return vm =
    if ltb 0 vm.callp
    then (let frame = vm.calls (vm.callp - 1) in
        restore_mode frame frame.runmode (record vm {
          callp = vm.callp - 1;
          sp = (frame.sp + 1) % mod32;
          closure = frame.closure;
          argnum = (frame.argnum + 1) % mod32;
        }))
    else record vm { running = false; sp = 0 }

unfoldable pub vm_error : Vm → String → Vm
vm_error vm msg = record vm { running = false; errormsg = some msg }

unfoldable pub vm_clear_error : Vm → Vm
vm_clear_error vm = record vm { running = true; errormsg = none }
