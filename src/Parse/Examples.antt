-- ===== src/Parse/Examples.antt =====
-- The parser at the end of a stream and at a right parenthesis.
use nscheme.Prelude.{refl, false, [], ◌≡◌}
use nscheme.Values.{
  Value, is_parse_val, get_parse_val, is_eof, tag_parse_val, parse_type_right_paren,
  parse_type_left_paren,
}
use nscheme.Memory.{null}
use nscheme.Run.{ok, out_of_fuel}
use nscheme.Lex.{ParseState}
use nscheme.Parse.{
  parse_expression, parse_list, none_token, is_left_paren, is_apostrophe, is_parse_val,
}
use nscheme.Parse.State.{cached}
use nscheme.Parse.Stuck.{StartsNothing, ended, parse_expression_stuck, parse_list_unterminated}

abbrev close : Value
unfolding tag_parse_val
close = tag_parse_val parse_type_right_paren

abbrev no_input : ParseState
no_input = record {
  input = [];
  memory = record {
    brk = 16;
    strings = λ p. [];
    symbol_tree = null;
    gc = record { base = 0; end = 0; allocend = 0 };
    blocks = λ p. record { uintptr = 0; flags = 0; size = 0 };
    pairs = λ p. record { car = 0; cdr = 0 };
  };
  next_token = 0;
  has_next = false;
  linenum = 0;
  charpos = 0;
}

close-StartsNothing : StartsNothing close
unfolding tag_parse_val is_parse_val get_parse_val is_left_paren is_apostrophe is_eof
close-StartsNothing = record { token = refl; no_list = refl; no_quote = refl; no_end = refl }

parse_expression_stuck_example :
    parse_expression 5 (cached no_input close) ≡ ok (none_token, cached no_input close)
parse_expression_stuck_example = parse_expression_stuck 3 no_input close close-StartsNothing

parse_list_unterminated_example :
    parse_list 5 (cached (ended no_input) (tag_parse_val parse_type_left_paren)) ≡ out_of_fuel
parse_list_unterminated_example = parse_list_unterminated 5 no_input
