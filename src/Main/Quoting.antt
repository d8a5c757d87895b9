-- ===== src/Main/Quoting.antt =====
-- The theorems on quoted data at the text `(quote (1 x))`, on a machine with one name, and on the
-- machine of `vm_init`.
use nscheme.Prelude.{refl, inl, false, [], arith, ◌+◌, ◌*◌, ◌≤◌, ◌≡◌, ◌⊎◌, ◌∷◌}
use nscheme.Values.{Value, tag_symbol, tag_run_type}
use nscheme.Memory.{Memory, TreeNode, update, strcmp}
use nscheme.Run.{ok, panic}
use nscheme.Symbols.{lookup_symbol_address, tree_lookup}
use nscheme.Env.{find_node, node, null}
use nscheme.Env.Chain.{resolve}
use nscheme.Lex.{ParseState, codes, matches}
use nscheme.Parse.{is_dot}
use nscheme.Parse.Data.{
  Datum, integer, name, empty, atom, cons, atom_text, text, IsDatum, Shows, size,
}
use nscheme.Parse.Data.Growth.{IsReady}
use nscheme.Vm.State.{Vm}
use nscheme.Vm.Walks.{walking}
use nscheme.Prelude.{◌++◌}
use nscheme.Vm.Init.{vm_init}
use nscheme.Main.Start.{read_evaluate-vm_init}
use nscheme.Main.{make_parse_state, read_evaluate}
use nscheme.Main.Quote.{quoted, IsAtTop, read_evaluate-quote}

-- The name `quote` at 2048, a heap of 1024 bytes from address 8, and on it the list `(quote 1)`.
abbrev quote_memory : Memory
quote_memory = record {
  brk = 2064;
  strings = λ p. codes "quote";
  symbol_tree = TreeNode.tree_node TreeNode.null TreeNode.null 2048;
  gc = record { base = 8; end = 1032; allocend = 128 };
  blocks = λ p. record { uintptr = 0; flags = 0; size = 0 };
  pairs =
      update (update (λ p. record { car = 0; cdr = 0 }) 32 (record { car = 2054; cdr = 65 })) 64
        (record { car = 4; cdr = 0x2f });
}

abbrev top_level : Vm
top_level = record walking {
  sp = 0;
  memory = quote_memory;
  envs = record { root = node 2054 0x7cf null null; last = 0 } ∷ [];
}

quote_memory-IsReady : IsReady quote_memory
quote_memory-IsReady = record {
  interned = record {
    started = omega arith;
    aligned = refl;
    blocks = (tt, (omega arith, omega arith, refl), tt);
  };
  heap = record {
    base_allocend = omega arith;
    allocend_end = omega arith;
    end_small = omega arith;
  };
  low = omega arith;
}

top_level-IsAtTop : IsAtTop 2048 top_level
unfolding lookup_symbol_address tree_lookup strcmp tag_symbol tag_run_type resolve find_node
top_level-IsAtTop = record {
  ready = quote_memory-IsReady;
  sp = refl;
  callp = refl;
  stack = omega arith;
  return_last = inl (refl, refl);
  interned = refl;
  bound = refl;
}

abbrev listed : Datum
listed = cons (atom (integer 1)) (cons (atom (name (codes "x"))) (atom empty))

listed-IsDatum : IsDatum (quoted listed)
unfolding matches is_dot
listed-IsDatum = (
  (refl, (refl, (refl, (refl, (refl, tt)))), omega arith, refl),
  ((omega arith, ((refl, tt, omega arith, refl), tt)), tt),
)

abbrev reading : ParseState
reading = record {
  input = codes "(quote (1 x))";
  memory = quote_memory;
  next_token = 0;
  has_next = false;
  linenum = 0;
  charpos = 0;
}

read_evaluate-quote_example :
    ((read_evaluate 50 3 top_level reading ≡ panic)
      × (quote_memory.gc.end ≤ quote_memory.gc.allocend + 56 * size (quoted listed)))
    ⊎ ((v : Value) × (vm' : Vm) × (st' : ParseState) × (read_evaluate 50 3 top_level reading
          ≡ ok (v, (vm', st')))
        × Shows vm'.memory v listed
        × (st'.input ≡ [])
        × (st'.has_next ≡ false)
        × IsAtTop 2048 vm')
unfolding text atom_text
read_evaluate-quote_example =
    read_evaluate-quote 50 3 2048 top_level reading listed [] listed-IsDatum top_level-IsAtTop refl
      refl tt (omega arith) (omega arith)

read_evaluate-vm_init_example :
    (v : Value) × (vm' : Vm) × (st' : ParseState) × (read_evaluate 50 3
        (vm_init [])
        (make_parse_state (vm_init []) (text (quoted listed) ++ []))
      ≡ ok (v, (vm', st')))
    × Shows vm'.memory v listed
    × (st'.input ≡ [])
read_evaluate-vm_init_example =
    read_evaluate-vm_init 50 3 [] listed [] listed-IsDatum tt (omega arith) (omega arith)
      (omega arith)
