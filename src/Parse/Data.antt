-- ===== src/Parse/Data.antt =====
-- Data that have a text: what src/parse.c reads and src/write.c writes, without tags and addresses.
pub mod Growth
pub mod Tokens
pub mod Texts
pub mod Steps
pub mod Atoms
pub mod Elements
pub mod Outcomes
pub mod Lists
pub mod Reads
pub mod Expressions
use nscheme.Prelude.{
  ℕ, suc, Bool, true, false, List, [], length, ◌+◌, ◌^◌, ◌<◌, ◌≡◌, ◌∷◌, ◌++◌, if◌then◌else◌,
}
use nscheme.Values.{
  Value, is_pair, is_symbol, get_pair, get_symbol, tag_integer, tag_boolean, tag_character,
  scm_type_null,
}
use nscheme.Memory.{Memory}
use nscheme.Symbols.{lookup_symbol_address}
use nscheme.Prelude.{some}
use nscheme.Lex.{codes, alphabet, symbols, buf_size, matches}
use nscheme.Lex.Numbers.{decimal}
use nscheme.Lex.Names.{AllNameBytes}
use nscheme.Parse.{is_dot}

pub data Atom : Type 0 where
  integer : ℕ → Atom
  name : List ℕ → Atom
  boolean : Bool → Atom
  character : ℕ → Atom
  empty : Atom

pub data Datum : Type 0 where
  atom : Atom → Datum
  cons : (car cdr : Datum) → Datum

abbrev pub size : Datum → ℕ
size (atom a) = 1
size (cons a d) = size a + size d + 1

unfoldable pub atom_text : Atom → List ℕ
unfolding decimal
atom_text (integer n) = decimal n
atom_text (name bytes) = bytes
atom_text (boolean b) = if b then codes "#t" else codes "#f"
atom_text (character c) = b'#' ∷ 0x5c ∷ c ∷ []
atom_text empty = codes "()"

-- The text of a list behind an element: the other elements, and a parenthesis.
unfoldable mutual
  pub text : Datum → List ℕ
  text (atom a) = atom_text a
  text (cons a d) = b'(' ∷ (text a ++ tail d)

  pub tail : Datum → List ℕ
  tail (atom (integer n)) = codes " . " ++ (atom_text (integer n) ++ codes ")")
  tail (atom (name bytes)) = codes " . " ++ (bytes ++ codes ")")
  tail (atom (boolean b)) = codes " . " ++ (atom_text (boolean b) ++ codes ")")
  tail (atom (character c)) = codes " . " ++ (atom_text (character c) ++ codes ")")
  tail (atom empty) = codes ")"
  tail (cons a d) = 0x20 ∷ (text a ++ tail d)

-- The bytes are those of one name: no number, no period, and no longer than the scanner's buffer.
abbrev pub IsName : List ℕ → Type 0
IsName [] = ⊥
IsName (c ∷ cs) =
    (matches c (alphabet ++ symbols) ≡ true)
    × AllNameBytes cs
    × (suc (length cs) < buf_size)
    × (is_dot (c ∷ cs) ≡ false)

abbrev pub IsAtom : Atom → Type 0
IsAtom (integer n) = n < 2 ^ 62
IsAtom (name bytes) = IsName bytes
IsAtom (boolean b) = Unit
IsAtom (character c) = c < 256
IsAtom empty = Unit

-- A datum whose text says what it is.
abbrev pub IsDatum : Datum → Type 0
IsDatum (atom a) = IsAtom a
IsDatum (cons a d) = IsDatum a × IsDatum d

-- A name is shown by the symbol at its address in the table.
abbrev pub ShowsAtom : Memory → Value → Atom → Type 0
ShowsAtom m v (integer n) = v ≡ tag_integer n
ShowsAtom m v (name bytes) =
    (is_symbol v ≡ true)
    × (get_symbol v < m.brk)
    × (m.strings (get_symbol v) ≡ bytes)
    × (lookup_symbol_address m bytes ≡ some (get_symbol v))
ShowsAtom m v (boolean b) = v ≡ tag_boolean b
ShowsAtom m v (character c) = v ≡ tag_character c
ShowsAtom m v empty = v ≡ scm_type_null

-- The value is the datum, in the used parts of the memory.
abbrev pub Shows : Memory → Value → Datum → Type 0
Shows m v (atom a) = ShowsAtom m v a
Shows m v (cons a d) =
    (is_pair v ≡ true)
    × (get_pair v < m.gc.allocend)
    × Shows m (m.pairs (get_pair v)).car a
    × Shows m (m.pairs (get_pair v)).cdr d
