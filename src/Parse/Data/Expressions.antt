-- ===== src/Parse/Data/Expressions.antt =====
-- `parse_expression` of src/parse.c on the text of a datum.
use nscheme.Prelude.{ℕ, zero, suc, refl, inr, false, List, arith, ◌*◌, ◌≤◌, ◌<◌, ◌≡◌, ◌++◌}
use nscheme.Values.{Value, scm_type_null, is_parse_val, get_parse_val, tag_parse_val}
use nscheme.Memory.{Memory}
use nscheme.Run.{ok}
use nscheme.Lex.{ParseState}
use nscheme.Lex.Numbers.{Stops}
use nscheme.Lex.Names.{is_name_byte}
use nscheme.Parse.{is_left_paren, peek_next_token, parse_token, parse_list, parse_expression}
use nscheme.Parse.Data.{
  Atom, integer, name, boolean, character, empty, Datum, atom, cons, text, IsDatum, size,
}
use nscheme.Parse.Data.Growth.{IsReady, Grows-refl}
use nscheme.Parse.Data.Tokens.{Sees}
use nscheme.Parse.Data.Texts.{left_paren, left_of, Starts, text-Starts}
use nscheme.Parse.Data.Steps.{Held-Sees, peek}
use nscheme.Parse.Data.Atoms.{IsToken}
use nscheme.Parse.Data.Elements.{token_kind}
use nscheme.Parse.Data.Outcomes.{Whole}
use nscheme.Parse.Data.Lists.{empty_list}
use nscheme.Parse.Data.Reads.{parses}

parse_expression-token :
    (k : ℕ) (st s : ParseState) (t : Value)
    → peek_next_token st ≡ ok (t, s)
    → is_left_paren t ≡ false
    → parse_expression (suc k) st ≡ parse_token k s
unfolding parse_expression
parse_expression-token k st s t e n = ground (arith, e, n)

token_left : (t : Value) → is_parse_val t ≡ false → is_left_paren t ≡ false
unfolding is_left_paren
token_left t h = rw h refl

atom_expression :
    (k : ℕ) (st : ParseState) (m : Memory) (x : Atom) (rest : List ℕ)
    → IsToken x
    → IsDatum (atom x)
    → IsReady m
    → Starts st m (atom x) rest
    → 4 ≤ k
    → Whole m (atom x) rest (parse_expression (suc k) st)
atom_expression k st m x rest t w y starts b =
    let (s, e, held) = peek st _ _ _ starts in
    let p = parses k in
    rw (parse_expression-token k st s _ e (token_left _ (token_kind m x y t)))
      (p.token s m (atom x) rest w y (Held-Sees s _ _ _ held) b)

paren_expression :
    (k : ℕ) (st : ParseState) (i : List ℕ) (m : Memory)
    → Sees st left_paren i m
    → (s : ParseState) × (parse_expression (suc k) st ≡ parse_list k s) × Sees s left_paren i m
unfolding parse_expression is_left_paren is_parse_val get_parse_val tag_parse_val
paren_expression k st i m see =
    let (s, e, held) = peek st _ _ _ see in (s, rw e refl, Held-Sees s _ _ _ held)

first_expression :
    (k : ℕ) (st : ParseState) (m : Memory) (d : Datum) (rest : List ℕ)
    → IsDatum d
    → IsReady m
    → Starts st m d rest
    → 4 * size d ≤ k
    → Whole m d rest (parse_expression (suc k) st)
first_expression k st m (atom (integer n)) rest w y s b =
    atom_expression k st m (integer n) rest tt w y s b
first_expression k st m (atom (name bytes)) rest w y s b =
    atom_expression k st m (name bytes) rest tt w y s b
first_expression k st m (atom (boolean c)) rest w y s b =
    atom_expression k st m (boolean c) rest tt w y s b
first_expression k st m (atom (character c)) rest w y s b =
    atom_expression k st m (character c) rest tt w y s b
first_expression zero st m (atom empty) rest w y s b = absurd (omega arith)
first_expression (suc k) st m (atom empty) rest w y s b =
    let (s₁, e, see) = paren_expression (suc k) st (left_of (atom empty) rest) m s in
    let (s₂, e', r) = empty_list k s₁ m rest see in
    inr (scm_type_null, s₂, m, rw e e', r, Grows-refl 1 m, y, refl)
first_expression k st m (cons a d) rest w y s b =
    let (s', e, see) = paren_expression k st (left_of (cons a d) rest) m s in
    let p = parses k in rw e (p.list s' m a d rest w y see (omega arith))

-- On the text of a datum, with anything behind it that no name goes on with, `parse_expression`
-- returns a value that shows the datum, leaves the stream at what follows and keeps what was in
-- memory, or it panics because the heap has less than 56 bytes left for each atom and pair of the
-- datum. Four units of fuel for each of them, and one more, are enough.
pub parse_expression-text :
    (k : ℕ) (st : ParseState) (d : Datum) (rest : List ℕ)
    → IsDatum d
    → IsReady st.memory
    → st.has_next ≡ false
    → st.input ≡ text d ++ rest
    → Stops is_name_byte rest
    → 4 * size d < k
    → Whole st.memory d rest (parse_expression k st)
parse_expression-text zero st d rest w y h e s b = absurd (omega arith)
parse_expression-text (suc k) st d rest w y h e s b =
    first_expression k st st.memory d rest w y (text-Starts st d rest st.memory w s (h, e, refl))
      (omega arith)
