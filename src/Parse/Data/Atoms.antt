-- ===== src/Parse/Data/Atoms.antt =====
-- Atoms: what src/parse.c returns for their tokens.
use nscheme.Prelude.{ℕ, refl, true, false, List, [], arith, ◌≡◌, ◌∷◌, ◌==◌, ◌∙◌}
use nscheme.Values.{
  Value, tag_symbol, is_integer, is_symbol, is_eof, is_boolean, is_character, is_parse_val,
  tag_parse_val,
}
use nscheme.Values.Tagging.{get_symbol-tag_symbol, is_symbol-tag_symbol}
use nscheme.Memory.{Memory}
use nscheme.Run.{ok}
use nscheme.Lex.{ParseState}
use nscheme.Symbols.{try_store_symbol}
use nscheme.Symbols.Interning.{try_store_symbol-Interns}
use nscheme.Parse.{none_token, accept_first, atom_tests, is_period}
use nscheme.Parse.Data.{Atom, integer, name, boolean, character, empty, atom, ShowsAtom}
use nscheme.Parse.Data.Growth.{IsReady, Grows, Grows-refl, try_store_symbol-Grows}
use nscheme.Parse.Data.Tokens.{Rest, Sees}
use nscheme.Parse.Data.Texts.{token_of, memory_of}
use nscheme.Parse.Data.Steps.{Held, Held-Sees, first_taken, first_passed}

-- All atoms but the empty list are one token.
abbrev pub IsToken : Atom → Type 0
IsToken (integer n) = Unit
IsToken (name bytes) = Unit
IsToken (boolean b) = Unit
IsToken (character c) = Unit
IsToken empty = ⊥

-- A name in memory, as a value.
pub symbol_Shows :
    (m : Memory) (bytes : List ℕ)
    → IsReady m
    → ShowsAtom (try_store_symbol m bytes).1 (tag_symbol (try_store_symbol m bytes).0) (name bytes)
symbol_Shows m bytes r =
    let i = try_store_symbol-Interns m bytes r.interned in
    let (positive, below, aligned) = i.block in
    let p = (try_store_symbol m bytes).0 in
    (
      is_symbol-tag_symbol p aligned,
      rw (get_symbol-tag_symbol p aligned) below,
      rw (get_symbol-tag_symbol p aligned) i.name,
      rw (get_symbol-tag_symbol p aligned) i.stored,
    )

pub token_Shows :
    (n : ℕ) (m : Memory) (a : Atom)
    → IsReady m
    → IsToken a
    → ShowsAtom (memory_of m (atom a)) (token_of m (atom a)) a
      × Grows n m (memory_of m (atom a))
      × IsReady (memory_of m (atom a))
token_Shows k m (integer n) r t = (refl, Grows-refl k m, r)
token_Shows k m (name bytes) r t =
    let (g, r') = try_store_symbol-Grows k m bytes r in (symbol_Shows m bytes r, g, r')
token_Shows k m (boolean b) r t = (refl, Grows-refl k m, r)
token_Shows k m (character c) r t = (refl, Grows-refl k m, r)
token_Shows k m empty r t = absurd t

-- The tests by which the parser tells the words apart.
pub record IsOther (v : Value) : Type 0 where
  pub integers : is_integer v ≡ false
  pub symbols : is_symbol v ≡ false
  pub ends : is_eof v ≡ false

pub not_none : (v : Value) → is_parse_val v ≡ false → (v == none_token) ≡ false
unfolding is_parse_val tag_parse_val
not_none v h = ground arith

pub integer_kind : (v : Value) → is_integer v ≡ true → is_parse_val v ≡ false
unfolding is_integer is_parse_val
integer_kind v h = ground arith

pub symbol_kind :
    (v : Value) → is_symbol v ≡ true → (is_integer v ≡ false) × (is_parse_val v ≡ false)
unfolding is_integer is_symbol is_parse_val
symbol_kind v h = (ground arith, ground arith)

pub boolean_kind : (v : Value) → is_boolean v ≡ true → IsOther v × (is_parse_val v ≡ false)
unfolding is_integer is_symbol is_parse_val is_boolean is_eof
boolean_kind v h =
    (record { integers = ground arith; symbols = ground arith; ends = ground arith }, ground arith)

pub character_kind :
    (v : Value)
    → is_character v ≡ true
    → IsOther v × (is_boolean v ≡ false) × (is_parse_val v ≡ false)
unfolding is_integer is_symbol is_parse_val is_boolean is_character is_eof
character_kind v h = (
  record { integers = ground arith; symbols = ground arith; ends = ground arith },
  ground arith,
  ground arith,
)

pub symbol_token :
    (st : ParseState) (t : Value) (i : List ℕ) (m : Memory)
    → Sees st t i m
    → is_symbol t ≡ true
    → (s : ParseState) × (accept_first atom_tests st ≡ ok (t, s)) × Rest s i m
symbol_token st t i m see h =
    let (z, n) = symbol_kind t h in
    let (s, e, held) = first_passed (λ m. is_integer) _ st t i m see z in
    let (s', e', r) =
      first_taken (λ m. is_symbol) _ s t i m (Held-Sees s t i m held) h (not_none t n) in
    (s', e ∙ e', r)

-- What is no integer, symbol or end of file comes to the test for booleans.
other_token :
    (st : ParseState) (t : Value) (i : List ℕ) (m : Memory)
    → Sees st t i m
    → IsOther t
    → (s : ParseState) × (accept_first atom_tests st
        ≡ accept_first ((λ m. is_boolean) ∷ (λ m. is_character) ∷ is_period ∷ []) s)
      × Held s t i m
other_token st t i m see o =
    let (s, e, h) = first_passed (λ m. is_integer) _ st t i m see o.integers in
    let (s', e', h') = first_passed (λ m. is_symbol) _ s t i m (Held-Sees s t i m h) o.symbols in
    let (s'', e'', h'') = first_passed (λ m. is_eof) _ s' t i m (Held-Sees s' t i m h') o.ends in
    (s'', e ∙ e' ∙ e'', h'')

pub boolean_token :
    (st : ParseState) (t : Value) (i : List ℕ) (m : Memory)
    → Sees st t i m
    → is_boolean t ≡ true
    → (s : ParseState) × (accept_first atom_tests st ≡ ok (t, s)) × Rest s i m
boolean_token st t i m see h =
    let (o, n) = boolean_kind t h in
    let (s, e, held) = other_token st t i m see o in
    let (s', e', r) =
      first_taken (λ m. is_boolean) _ s t i m (Held-Sees s t i m held) h (not_none t n) in
    (s', e ∙ e', r)

pub character_token :
    (st : ParseState) (t : Value) (i : List ℕ) (m : Memory)
    → Sees st t i m
    → is_character t ≡ true
    → (s : ParseState) × (accept_first atom_tests st ≡ ok (t, s)) × Rest s i m
character_token st t i m see h =
    let (o, b, n) = character_kind t h in
    let (s, e, held) = other_token st t i m see o in
    let (s', e', held') = first_passed (λ m. is_boolean) _ s t i m (Held-Sees s t i m held) b in
    let (s'', e'', r) =
      first_taken (λ m. is_character) _ s' t i m (Held-Sees s' t i m held') h (not_none t n) in
    (s'', e ∙ e' ∙ e'', r)
