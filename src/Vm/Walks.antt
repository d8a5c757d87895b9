-- ===== src/Vm/Walks.antt =====
-- The theorems on the tree walker at the call of a function with the operands `x` and 2, where `x` is
-- bound to 10.
use nscheme.Prelude.{refl, inl, inr, true, false, none, [], map, arith, ◌≡◌, ◌∷◌}
use nscheme.Values.{Ptr, Pair, is_pair, is_symbol, get_pair, tag_closure, tag_integer}
use nscheme.Env.{node, null, find_node}
use nscheme.Env.Chain.{resolve}
use nscheme.Memory.{update}
use nscheme.Vm.Sums.{IsSum, vm_run-sum}
use nscheme.Run.{ok, ◌>>=◌}
use nscheme.Vm.State.{Vm, RunMode, op_add, op_return}
use nscheme.Vm.Calls.{IsEvaluating, started, resumed, vm_op_return_last-resumed}
use nscheme.Vm.Builtins.{IsBuiltinCall, builtin-resumed}
use nscheme.Vm.Operands.{IsList, AllMean, push_all, vm_run-operands}
use nscheme.Vm.Init.{no_frame, start_memory}
use nscheme.Vm.Arith.Loops.{IsCall, returned}
use nscheme.Vm.Arith.Integers.{vm_op_add-integers}
use nscheme.Vm.Closures.{native_closure, instr}
use nscheme.Vm.Apply.{vm_call_apply}
use nscheme.Vm.Ops.{vm_op_return_last}
use nscheme.Vm.Interp.{vm_step, vm_run, call_func}

-- The list of the name at 22 and the integer 2.
abbrev operands : Ptr → Pair
operands =
    update (update (λ p. record { car = 0; cdr = 0 }) 64 (record { car = 8; cdr = 0x2f })) 80
      (record { car = 22; cdr = 65 })

-- The caller, with the function at the bottom of its stack.
abbrev pub walking : Vm
walking = record {
  ip = 0;
  sp = 1;
  callp = 0;
  running = true;
  closure = 0;
  stack = λ i. 37;
  calls = λ i. no_frame;
  env = 1;
  ptr = 81;
  argnum = 1;
  stack_size = 64;
  calls_size = 64;
  runmode = RunMode.interp;
  errormsg = none;
  handles = record {
    slots = λ i. record { value = 0; used = false };
    avail = λ i. i;
    num_avail = 8;
    max_avail = 8;
  };
  memory = record start_memory { pairs = operands };
  envs = record { root = node 22 40 null null; last = 0 } ∷ [];
  closures = λ p. native_closure (instr op_add ∷ instr op_return ∷ []);
  rules = λ p. record { keywords = 0; patterns = 0 };
  statics = record { return_last = 0; intern_define = 0; intern_set = 0; intern_if = 0 };
  root_closure = 0;
  stdin = [];
  stdout = [];
}

walking-IsList : IsList operands 81 (22 ∷ 8 ∷ [])
unfolding is_pair get_pair
walking-IsList = (refl, refl, (refl, refl, refl))

walking-AllMean : AllMean walking.envs 1 (22 ∷ 8 ∷ []) (40 ∷ 8 ∷ [])
unfolding is_pair is_symbol resolve find_node
walking-AllMean = ((refl, inr (refl, refl)), ((refl, inl (refl, refl)), tt))

vm_run-operands_example :
    vm_run 3 walking ≡ (vm_call_apply (push_all walking (40 ∷ 8 ∷ [])) >>= vm_run 0)
vm_run-operands_example =
    vm_run-operands walking 3 0 (22 ∷ 8 ∷ []) (40 ∷ 8 ∷ []) refl refl refl walking-IsList
      walking-AllMean (omega arith) (omega arith) (omega arith)

-- The machine at work for the caller, with a function and the integers 20 and 6.
abbrev inside : Vm
inside = record (started walking 81) {
  runmode = RunMode.compiled;
  sp = 4;
  argnum = 3;
  stack = update (update walking.stack 2 80) 3 24;
}

inside-IsEvaluating : IsEvaluating walking inside
inside-IsEvaluating = record {
  frames = refl;
  frame = refl;
  small = omega arith;
  counted = omega arith;
}

vm_op_return_last-resumed_example :
    vm_op_return_last inside
    ≡ ok (false, resumed walking (record inside { stack = update inside.stack 1 24 }))
vm_op_return_last-resumed_example =
    vm_op_return_last-resumed walking inside inside-IsEvaluating refl (omega arith) (omega arith)
      (omega arith)

inside-IsCall : IsCall inside 1 2
inside-IsCall = record { sp = refl; argnum = refl; bound = omega arith; small = omega arith }

inside-IsBuiltinCall : IsBuiltinCall walking inside op_add 2
inside-IsBuiltinCall = record {
  code = refl;
  compiled = refl;
  first = refl;
  evaluating = inside-IsEvaluating;
  call = inside-IsCall;
}

inside_adds : call_func op_add inside 0 ≡ ok (true, returned inside 1 (tag_integer 26))
unfolding call_func tag_integer
inside_adds = vm_op_add-integers inside 1 2 (6 ∷ 20 ∷ []) inside-IsCall refl

builtin-resumed_example :
    (vm_step inside >>= vm_step)
    ≡ ok (record (resumed walking (returned inside 1 (tag_integer 26))) { ip = 1 })
builtin-resumed_example =
    builtin-resumed walking inside op_add 2 (tag_integer 26) inside-IsBuiltinCall inside_adds

-- A machine that waits for the value of a part of its expression, and the machine that walks the
-- operands of that part.
abbrev waiting : Vm
waiting = record walking { sp = 0; argnum = 0; ptr = 8 }

abbrev adding : Vm
adding = record (started waiting 81) { sp = 1; argnum = 1 }

adding-IsSum : IsSum waiting adding 32 (22 ∷ 8 ∷ []) (10 ∷ 2 ∷ [])
unfolding tag_closure tag_integer
adding-IsSum = record {
  evaluating = record { frames = refl; frame = refl; small = omega arith; counted = omega arith };
  running = refl;
  interp = refl;
  sp = refl;
  argnum = refl;
  aligned = refl;
  function = refl;
  compiled = refl;
  code = refl;
  list = walking-IsList;
  mean = walking-AllMean;
  count = refl;
  room = omega arith;
  small = omega arith;
}

abbrev entered : Vm
entered = record (push_all adding (map tag_integer (10 ∷ 2 ∷ []))) {
  closure = 32;
  runmode = RunMode.compiled;
  ip = 0;
}

vm_run-sum_example :
    vm_run 7 adding
    ≡ vm_run 2 (record (resumed waiting (returned entered 0 (tag_integer 12))) { ip = 1 })
vm_run-sum_example = vm_run-sum waiting adding 32 2 (22 ∷ 8 ∷ []) (10 ∷ 2 ∷ []) adding-IsSum 7 refl
