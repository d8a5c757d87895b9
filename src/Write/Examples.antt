-- ===== src/Write/Examples.antt =====
-- The list `(1 x)`, written and read.
use nscheme.Values.{Value, Pair, is_symbol, get_symbol, is_pair, get_pair, tag_integer}
use nscheme.Prelude.{ℕ, refl, arith, ◌+◌, ◌*◌, ◌≤◌, ◌≡◌, ◌⊎◌, ◌++◌}
use nscheme.Memory.{Memory, TreeNode, update}
use nscheme.Symbols.{lookup_symbol_address, tree_lookup}
use nscheme.Memory.{strcmp}
use nscheme.Run.{ok, panic}
use nscheme.Lex.{ParseState, codes, matches}
use nscheme.Parse.{parse_expression, is_dot}
use nscheme.Parse.Data.{
  Datum, integer, name, empty, atom, cons, atom_text, text, IsDatum, Shows, size,
}
use nscheme.Parse.Data.Growth.{IsReady}
use nscheme.Parse.Data.Outcomes.{Whole}
use nscheme.Parse.Data.Expressions.{parse_expression-text}
use nscheme.Vm.State.{Vm}
use nscheme.Vm.Walks.{walking}
use nscheme.Write.{write_value, [], false, List}
use nscheme.Write.Text.{write_value-text}
use nscheme.Write.RoundTrip.{parse_expression-write_value}

-- A heap of 1024 bytes from address 8, and no names.
abbrev empty_memory : Memory
empty_memory = record {
  brk = 2048;
  strings = λ p. [];
  symbol_tree = TreeNode.null;
  gc = record { base = 8; end = 1032; allocend = 16 };
  blocks = λ p. record { uintptr = 0; flags = 0; size = 0 };
  pairs = λ p. record { car = 0; cdr = 0 };
}

empty_memory-IsReady : IsReady empty_memory
empty_memory-IsReady = record {
  interned = record { started = omega arith; aligned = refl; blocks = tt };
  heap = record {
    base_allocend = omega arith;
    allocend_end = omega arith;
    end_small = omega arith;
  };
  low = omega arith;
}

-- The list at 32 and 64, with its name at 2048.
abbrev list_pairs : Pair
list_pairs = record { car = 4; cdr = 65 }

abbrev listing : Vm
listing = record walking {
  memory = record empty_memory {
    brk = 2064;
    strings = λ p. codes "x";
    symbol_tree = TreeNode.tree_node TreeNode.null TreeNode.null 2048;
    gc = record { base = 8; end = 1032; allocend = 128 };
    pairs = update (update empty_memory.pairs 32 list_pairs) 64 (record { car = 2054; cdr = 0x2f });
  };
}

abbrev listed : Datum
listed = cons (atom (integer 1)) (cons (atom (name (codes "x"))) (atom empty))

listed-IsDatum : IsDatum listed
unfolding matches is_dot
listed-IsDatum = (omega arith, ((refl, tt, omega arith, refl), tt))

listing-Shows : Shows listing.memory 33 listed
unfolding is_pair get_pair is_symbol get_symbol tag_integer lookup_symbol_address tree_lookup strcmp
listing-Shows =
    (refl, omega arith, refl, (refl, omega arith, (refl, omega arith, refl, refl), refl))

abbrev reading : ParseState
reading = record {
  input = codes "(1 x) y";
  memory = empty_memory;
  next_token = 0;
  has_next = false;
  linenum = 0;
  charpos = 0;
}

write_value-text_example : write_value 10 listing 33 ≡ ok (text listed)
write_value-text_example =
    write_value-text 10 listing 33 listed listed-IsDatum listing-Shows (omega arith)

parse_expression-text_example : Whole empty_memory listed (codes " y") (parse_expression 21 reading)
unfolding text atom_text matches
parse_expression-text_example =
    parse_expression-text 21 reading listed (codes " y") listed-IsDatum empty_memory-IsReady refl
      refl refl (omega arith)

parse_expression-write_value_example :
    (bytes : List ℕ) × (write_value 10 listing 33 ≡ ok bytes)
    × (((parse_expression 21 (record reading { input = bytes ++ codes " y" }) ≡ panic)
          × (empty_memory.gc.end ≤ empty_memory.gc.allocend + 56 * size listed))
        ⊎ ((v' : Value) × (s : ParseState) × (parse_expression 21
                (record reading { input = bytes ++ codes " y" })
              ≡ ok (v', s))
            × (s.input ≡ codes " y")
            × Shows s.memory v' listed
            × (write_value 10 (record listing { memory = s.memory }) v' ≡ ok bytes)))
unfolding matches
parse_expression-write_value_example =
    parse_expression-write_value 10 21 listing 33 listed reading (codes " y") listed-IsDatum
      listing-Shows (omega arith) empty_memory-IsReady refl refl (omega arith)
