-- ===== src/Parse/Data/Elements.antt =====
-- The elements of a list: src/parse.c takes none for a period or for the end of the list.
use nscheme.Prelude.{ℕ, suc, refl, true, false, List, [], arith, ◌≡◌, ◌∷◌}
use nscheme.Values.{
  Value, is_pair, is_symbol, is_integer, is_parse_val, get_parse_val, tag_integer, tag_boolean,
  tag_character, tag_parse_val,
}
use nscheme.Values.Immediates.{
  get_integer-tag_integer, get_character-tag_character, get_boolean-tag_boolean,
}
use nscheme.Memory.{Memory}
use nscheme.Run.{ok}
use nscheme.Lex.{ParseState}
use nscheme.Parse.{is_none_type, is_period, is_right_paren, parse_token, accept_first, atom_tests}
use nscheme.Parse.Data.{
  Atom, integer, name, boolean, character, empty, Datum, atom, cons, IsAtom, IsDatum, ShowsAtom,
  Shows,
}
use nscheme.Parse.Data.Growth.{IsReady}
use nscheme.Parse.Data.Tokens.{Rest}
use nscheme.Parse.Data.Texts.{token_of, memory_of, Starts}
use nscheme.Parse.Data.Steps.{first_taken, parse_token-atom}
use nscheme.Parse.Data.Atoms.{
  IsToken, symbol_Shows, integer_kind, symbol_kind, boolean_kind, character_kind, not_none,
  symbol_token, boolean_token, character_token,
}

-- The words that the parser returns for data are no tokens of the grammar.
pub token_kind :
    (m : Memory) (a : Atom) → IsReady m → IsToken a → is_parse_val (token_of m (atom a)) ≡ false
token_kind m (integer n) r t = integer_kind (tag_integer n) (get_integer-tag_integer n).0
token_kind m (name bytes) r t = (symbol_kind _ (symbol_Shows m bytes r).0).1
token_kind m (boolean b) r t = (boolean_kind (tag_boolean b) (get_boolean-tag_boolean b).0).1
token_kind m (character c) r t =
    let (o, b, n) = character_kind (tag_character c) (get_character-tag_character c).0 in n
token_kind m empty r t = absurd t

pub parse_token-token :
    (k : ℕ) (st : ParseState) (m : Memory) (a : Atom) (rest : List ℕ)
    → IsReady m
    → IsToken a
    → Starts st m (atom a) rest
    → (s : ParseState) × (parse_token (suc k) st ≡ ok (token_of m (atom a), s))
      × Rest s rest (memory_of m (atom a))
parse_token-token k st m a rest r t see =
    let (s, e, left) = accepted_token st m a rest r t see in
    (s, parse_token-atom k st s (token_of m (atom a)) e (not_none _ (token_kind m a r t)), left)
  where
    accepted_token :
        (st : ParseState) (m : Memory) (a : Atom) (rest : List ℕ)
        → IsReady m
        → IsToken a
        → Starts st m (atom a) rest
        → (s : ParseState) × (accept_first atom_tests st ≡ ok (token_of m (atom a), s))
          × Rest s rest (memory_of m (atom a))
    accepted_token st m (integer n) rest r t see =
        first_taken (λ m. is_integer) _ st (tag_integer n) rest m see (get_integer-tag_integer n).0
          (not_none _ (token_kind m (integer n) r t))
    accepted_token st m (name bytes) rest r t see =
        symbol_token st _ rest _ see (symbol_Shows m bytes r).0
    accepted_token st m (boolean b) rest r t see =
        boolean_token st _ rest m see (get_boolean-tag_boolean b).0
    accepted_token st m (character c) rest r t see =
        character_token st _ rest m see (get_character-tag_character c).0
    accepted_token st m empty rest r t see = absurd t

-- No datum starts with a right parenthesis.
pub token_of-open : (m : Memory) (d : Datum) → IsReady m → is_right_paren (token_of m d) ≡ false
unfolding is_right_paren is_parse_val get_parse_val tag_parse_val
token_of-open m (atom (integer n)) r = rw (token_kind m (integer n) r tt) refl
token_of-open m (atom (name bytes)) r = rw (token_kind m (name bytes) r tt) refl
token_of-open m (atom (boolean b)) r = rw (token_kind m (boolean b) r tt) refl
token_of-open m (atom (character c)) r = rw (token_kind m (character c) r tt) refl
token_of-open m (atom empty) r = refl
token_of-open m (cons a d) r = refl

-- A value that is no token and no period.
abbrev Plain : Memory → Value → Type 0
Plain m v = (is_period m v ≡ false) × (is_none_type v ≡ false)

pair_kind : (v : Value) → is_pair v ≡ true → (is_symbol v ≡ false) × (is_parse_val v ≡ false)
unfolding is_pair is_symbol is_parse_val
pair_kind v h = (ground arith, ground arith)

integer_symbol : (v : Value) → is_integer v ≡ true → is_symbol v ≡ false
unfolding is_integer is_symbol
integer_symbol v h = ground arith

no_symbol : (m : Memory) (v : Value) → is_symbol v ≡ false → is_parse_val v ≡ false → Plain m v
unfolding is_period is_none_type
no_symbol m v s p = (rw s refl, rw p refl)

name-Plain :
    (m : Memory) (v : Value) (bytes : List ℕ)
    → ShowsAtom m v (name bytes)
    → IsAtom (name bytes)
    → Plain m v
unfolding is_period is_none_type
name-Plain m v [] s n = absurd n
name-Plain m v (c ∷ cs) (t, below, e, found) (first, names, short, dot) =
    (rw (t, e) dot, rw (symbol_kind v t).1 refl)

pub Shows-Plain : (m : Memory) (v : Value) (d : Datum) → IsDatum d → Shows m v d → Plain m v
unfolding is_period is_none_type is_symbol is_parse_val
Shows-Plain m v (atom (integer n)) w s =
    let t : is_integer v ≡ true = rw s (get_integer-tag_integer n).0 in
    no_symbol m v (integer_symbol v t) (integer_kind v t)
Shows-Plain m v (atom (name bytes)) w s = name-Plain m v bytes s w
Shows-Plain m v (atom (boolean b)) w s =
    let (o, p) = boolean_kind (tag_boolean b) (get_boolean-tag_boolean b).0 in
    rw s (no_symbol m (tag_boolean b) o.symbols p)
Shows-Plain m v (atom (character c)) w s =
    let (o, b, p) = character_kind (tag_character c) (get_character-tag_character c).0 in
    rw s (no_symbol m (tag_character c) o.symbols p)
Shows-Plain m v (atom empty) w s = rw s (refl, refl)
Shows-Plain m v (cons a d) w s = let (y, p) = pair_kind v s.0 in no_symbol m v y p
