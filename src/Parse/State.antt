-- ===== src/Parse/State.antt =====
-- The token that src/parse.c keeps between calls.
use nscheme.Prelude.{true, false}
use nscheme.Values.{Value}
use nscheme.Lex.{ParseState}

-- A state that holds a token that was read.
abbrev pub cached : ParseState → Value → ParseState
cached st token = record st { has_next = true; next_token = token }

-- A state that holds none.
abbrev pub emptied : ParseState → ParseState
emptied st = record st { has_next = false; next_token = 0 }
