-- ===== src/Main/Start.antt =====
-- The machine that `vm_init` of src/vm.c sets up stands between two expressions at the top level.
use nscheme.Prelude.{
  ℕ, refl, inl, inr, Bool, true, List, arith, ltb, ◌+◌, ◌%◌, ◌<◌, ◌≡◌, ◌&&◌, ◌==◌,
}
use nscheme.Values.{Ptr, tag_symbol, tag_run_type}
use nscheme.Memory.{Memory, TreeNode, strcmp, null, tree_node}
use nscheme.Env.Chain.{resolve}
use nscheme.Env.{find_node, set_node}
use nscheme.Symbols.{lookup_symbol_address}
use nscheme.Symbols.Table.{All}
use nscheme.Symbols.Interning.{IsBlock, IsInterned}
use nscheme.Vm.State.{Vm}
use nscheme.Vm.Init.{vm_init}
use nscheme.Values.{Value}
use nscheme.Run.{ok}
use nscheme.Prelude.{◌*◌, ◌≤◌, ◌++◌}
use nscheme.Lex.{ParseState}
use nscheme.Lex.Numbers.{Stops}
use nscheme.Lex.Names.{is_name_byte}
use nscheme.Parse.Data.{Datum, text, size, IsDatum, Shows}
use nscheme.Main.{make_parse_state, read_evaluate}
use nscheme.Main.Quote.{quoted, IsAtTop, read_evaluate-quote}

-- A test for the addresses in a table.
are_blocks : Ptr → TreeNode → Bool
are_blocks brk null = true
are_blocks brk (tree_node l r d) =
    are_blocks brk l && (ltb 0 d && ltb d brk && (d % 16 == 0)) && are_blocks brk r

are_blocks-All : (m : Memory) (t : TreeNode) → are_blocks m.brk t ≡ true → All (IsBlock m) t
unfolding are_blocks
are_blocks-All m null h = tt
are_blocks-All m (tree_node l r d) h = (
  are_blocks-All m l (ground arith),
  (ground arith, ground arith, ground arith),
  are_blocks-All m r (ground arith),
)

init_memory-IsInterned : (stdin : List ℕ) → IsInterned (vm_init stdin).memory
unfolding vm_init are_blocks strcmp
init_memory-IsInterned stdin = record {
  started = omega arith;
  aligned = refl;
  blocks = are_blocks-All (vm_init stdin).memory (vm_init stdin).memory.symbol_tree refl;
}

-- `vm_init` sets up a machine between two expressions at the top level, where `quote` is bound to the
-- special form.
pub vm_init-IsAtTop : (stdin : List ℕ) → IsAtTop 1082720 (vm_init stdin)
unfolding vm_init lookup_symbol_address tag_symbol tag_run_type resolve find_node strcmp set_node
vm_init-IsAtTop stdin = record {
  ready = record {
    interned = init_memory-IsInterned stdin;
    heap = record {
      base_allocend = omega arith;
      allocend_end = omega arith;
      end_small = omega arith;
    };
    low = omega arith;
  };
  sp = refl;
  callp = refl;
  stack = omega arith;
  return_last = inl (refl, refl);
  interned = refl;
  bound = refl;
}

heap_room :
    (stdin : List ℕ) → (vm_init stdin).memory.gc.end ≡ (vm_init stdin).memory.gc.allocend + 0x8000
unfolding vm_init
heap_room stdin = refl

-- A file that starts with the text of `(quote d)`, for a datum `d`, on the machine that `vm_init` sets
-- up: where the text has fewer than 32768 / 56 atoms and pairs, with enough depth for it and three
-- rounds of the machine, the first round of `evaluate_file` returns a value that shows `d` and leaves
-- the stream behind the text.
pub read_evaluate-vm_init :
    (depth steps : ℕ) (stdin : List ℕ) (d : Datum) (rest : List ℕ)
    → IsDatum (quoted d)
    → Stops is_name_byte rest
    → 4 * size (quoted d) < depth
    → 3 ≤ steps
    → 56 * size (quoted d) < 0x8000
    → (v : Value) × (vm' : Vm) × (st' : ParseState) × (read_evaluate depth steps
          (vm_init stdin)
          (make_parse_state (vm_init stdin) (text (quoted d) ++ rest))
        ≡ ok (v, (vm', st')))
      × Shows vm'.memory v d
      × (st'.input ≡ rest)
unfolding make_parse_state
read_evaluate-vm_init depth steps stdin d rest w stops b b' small =
    let room = heap_room stdin in
    elim (read_evaluate-quote depth steps 1082720 (vm_init stdin)
      (make_parse_state (vm_init stdin) (text (quoted d) ++ rest)) d rest w (vm_init-IsAtTop stdin)
      refl refl stops b b') [
        | inl (e, full) ↦ absurd (omega arith)
        | inr (v, vm', st', e, sh, left, held, top) ↦ (v, vm', st', e, sh, left)
      ]
