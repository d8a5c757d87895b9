-- ===== src/Write/RoundTrip.antt =====
-- What src/write.c writes, src/parse.c reads back.
use nscheme.Prelude.{ℕ, refl, inl, inr, false, List, ◌+◌, ◌*◌, ◌≤◌, ◌<◌, ◌≡◌, ◌⊎◌, ◌++◌}
use nscheme.Values.{Value}
use nscheme.Run.{ok, panic}
use nscheme.Lex.{ParseState}
use nscheme.Lex.Numbers.{Stops}
use nscheme.Lex.Names.{is_name_byte}
use nscheme.Vm.State.{Vm}
use nscheme.Parse.{parse_expression}
use nscheme.Parse.Data.{Datum, text, IsDatum, Shows, size}
use nscheme.Parse.Data.Growth.{IsReady}
use nscheme.Parse.Data.Expressions.{parse_expression-text}
use nscheme.Write.{write_value}
use nscheme.Write.Text.{write_value-text}

-- A value that shows a datum is written; `parse_expression` on those bytes, with a memory of its own,
-- returns a value that shows the same datum, is written in the same way, and leaves the stream at
-- what follows, or it panics because its heap has less than 56 bytes left for each atom and pair.
pub parse_expression-write_value :
    (j k : ℕ) (vm : Vm) (v : Value) (d : Datum) (st : ParseState) (rest : List ℕ)
    → IsDatum d
    → Shows vm.memory v d
    → 2 * size d ≤ j
    → IsReady st.memory
    → st.has_next ≡ false
    → Stops is_name_byte rest
    → 4 * size d < k
    → (bytes : List ℕ) × (write_value j vm v ≡ ok bytes)
      × (((parse_expression k (record st { input = bytes ++ rest }) ≡ panic)
            × (st.memory.gc.end ≤ st.memory.gc.allocend + 56 * size d))
          ⊎ ((v' : Value) × (s : ParseState) × (parse_expression k
                  (record st { input = bytes ++ rest })
                ≡ ok (v', s))
              × (s.input ≡ rest)
              × Shows s.memory v' d
              × (write_value j (record vm { memory = s.memory }) v' ≡ ok bytes)))
parse_expression-write_value j k vm v d st rest w sh b y h stops b' =
    (text d, write_value-text j vm v d w sh b, read_back)
  where
    again : ParseState
    again = record st { input = text d ++ rest }

    read_back :
        ((parse_expression k again ≡ panic)
          × (st.memory.gc.end ≤ st.memory.gc.allocend + 56 * size d))
        ⊎ ((v' : Value) × (s : ParseState) × (parse_expression k again ≡ ok (v', s))
            × (s.input ≡ rest)
            × Shows s.memory v' d
            × (write_value j (record vm { memory = s.memory }) v' ≡ ok (text d)))
    read_back = elim (parse_expression-text k again d rest w y h refl stops b') [
      | inl full ↦ inl full
      | inr (v', s, m', e, (held, left, em), g, y', sh') ↦
          (let shown : Shows s.memory v' d = rw em sh' in
            inr (
              v',
              s,
              e,
              left,
              shown,
              write_value-text j (record vm { memory = s.memory }) v' d w shown b,
            ))
    ]
