-- ===== src/Write/Text.antt =====
-- src/write.c writes the text of the datum that a value shows.
use nscheme.Prelude.{
  ℕ, zero, suc, refl, true, false, List, arith, ◌+◌, ◌*◌, ◌%◌, ◌^◌, ◌≤◌, ◌<◌, ◌≡◌, ◌∷◌, ◌++◌, ◌∙◌,
}
use nscheme.Values.{
  Value, Pair, is_integer, is_boolean, is_character, is_symbol, is_null, is_pair, get_pair,
  tag_integer, tag_boolean, tag_character, scm_type_null,
}
use nscheme.Values.Immediates.{
  get_integer-tag_integer, get_character-tag_character, get_boolean-tag_boolean,
}
use nscheme.Memory.{Memory}
use nscheme.Run.{ok}
use nscheme.Lex.{codes}
use nscheme.Vm.State.{Vm}
use nscheme.Parse.Data.{
  Atom, integer, name, boolean, character, empty, Datum, atom, cons, atom_text, text, tail, IsAtom,
  IsDatum, ShowsAtom, Shows, size,
}
use nscheme.Parse.Data.Atoms.{IsToken}
use nscheme.Parse.Data.Reads.{size_positive}
use nscheme.Write.{write_atom, write_value, write_list}

integer_no_pair : (v : Value) → is_integer v ≡ true → is_pair v ≡ false
unfolding is_integer is_pair
integer_no_pair v h = ground arith

boolean_no_pair : (v : Value) → is_boolean v ≡ true → (is_pair v ≡ false) × (is_integer v ≡ false)
unfolding is_integer is_pair is_boolean
boolean_no_pair v h = (ground arith, ground arith)

character_no_pair :
    (v : Value)
    → is_character v ≡ true
    → (is_pair v ≡ false) × (is_integer v ≡ false) × (is_boolean v ≡ false)
unfolding is_integer is_pair is_boolean is_character
character_no_pair v h = (ground arith, ground arith, ground arith)

symbol_no_pair :
    (v : Value)
    → is_symbol v ≡ true
    → (is_pair v ≡ false)
      × (is_integer v ≡ false)
      × (is_boolean v ≡ false)
      × (is_character v ≡ false)
unfolding is_integer is_pair is_boolean is_character is_symbol
symbol_no_pair v h = (ground arith, ground arith, ground arith, ground arith)

byte_of : (c x : ℕ) → x ≡ c % 2 ^ 24 → c < 256 → x % 256 ≡ c
byte_of c x e w = omega (arith, e)

-- An atom is no pair, and is written as its text.
write_atom-text :
    (vm : Vm) (v : Value) (a : Atom)
    → IsAtom a
    → ShowsAtom vm.memory v a
    → (is_pair v ≡ false) × (write_atom vm v ≡ ok (atom_text a))
unfolding write_atom atom_text is_pair
write_atom-text vm v (integer n) w s =
    let (i, m, same) = get_integer-tag_integer n in
    rw s (integer_no_pair _ i, rw (i, same.1 w) refl)
write_atom-text vm v (name bytes) w (t, below, e, found) =
    let (p, i, b, c) = symbol_no_pair v t in (p, rw (i, b, c, t, e) refl)
write_atom-text vm v (boolean b) w s =
    let (t, e) = get_boolean-tag_boolean b in
    let (p, i) = boolean_no_pair _ t in rw s (p, rw (i, t, e) refl)
write_atom-text vm v (character c) w s =
    let (t, e) = get_character-tag_character c in
    let (p, i, b) = character_no_pair _ t in rw s (p, rw (i, b, t, byte_of c _ e w) refl)
write_atom-text vm v empty w s = rw s (refl, refl)

-- The text of a pair, behind its parenthesis.
abbrev list_text : Datum → Datum → List ℕ
list_text a d = text a ++ tail d

record Writes (k : ℕ) (vm : Vm) : Type 0 where
  pub value :
      (v : Value) (d : Datum)
      → IsDatum d
      → Shows vm.memory v d
      → 2 * size d ≤ k
      → write_value k vm v ≡ ok (text d)
  pub list :
      (v : Value) (a d : Datum)
      → IsDatum (cons a d)
      → Shows vm.memory v (cons a d)
      → 2 * size (cons a d) ≤ k + 1
      → write_list k vm v ≡ ok (list_text a d)

write_value-atom :
    (k : ℕ) (vm : Vm) (v : Value) → is_pair v ≡ false → write_value (suc k) vm v ≡ write_atom vm v
unfolding write_value
write_value-atom k vm v n = ground (arith, n)

write_value-pair :
    (k : ℕ) (vm : Vm) (v : Value) (rest : List ℕ)
    → is_pair v ≡ true
    → write_list k vm v ≡ ok rest
    → write_value (suc k) vm v ≡ ok (b'(' ∷ rest)
unfolding write_value
write_value-pair k vm v rest y e = ground (arith, y, e)

value_step :
    (k : ℕ) (vm : Vm) (v : Value) (d : Datum)
    → Writes k vm
    → IsDatum d
    → Shows vm.memory v d
    → 2 * size d ≤ suc k
    → write_value (suc k) vm v ≡ ok (text d)
unfolding text
value_step k vm v (atom a) p w s b =
    let (n, e) = write_atom-text vm v a w s in write_value-atom k vm v n ∙ e
value_step k vm v (cons a d) p w s b =
    write_value-pair k vm v (list_text a d) s.0 (p.list v a d w s (omega arith))

null_kind : (v : Value) → v ≡ scm_type_null → (is_pair v ≡ false) × (is_null v ≡ true)
unfolding is_pair is_null
null_kind v e = rw e (refl, refl)

module _ (k : ℕ) (vm : Vm) (v : Value) (first : List ℕ) where
  abbrev pair_at : Pair
  pair_at = vm.memory.pairs (get_pair v)

  list_end :
      write_value k vm pair_at.car ≡ ok first
      → pair_at.cdr ≡ scm_type_null
      → write_list (suc k) vm v ≡ ok (first ++ codes ")")
  unfolding write_list
  list_end e n = let (p, z) = null_kind pair_at.cdr n in rw (e, p, z) refl

  list_more :
      (rest : List ℕ)
      → write_value k vm pair_at.car ≡ ok first
      → is_pair pair_at.cdr ≡ true
      → write_list k vm pair_at.cdr ≡ ok rest
      → write_list (suc k) vm v ≡ ok (first ++ (0x20 ∷ rest))
  unfolding write_list
  list_more rest e n r = rw (e, n, r) refl

  list_dot :
      (last : List ℕ)
      → write_value k vm pair_at.car ≡ ok first
      → is_pair pair_at.cdr ≡ false
      → is_null pair_at.cdr ≡ false
      → write_value k vm pair_at.cdr ≡ ok last
      → write_list (suc k) vm v ≡ ok (first ++ (codes " . " ++ (last ++ codes ")")))
  unfolding write_list
  list_dot last e n z r = rw (e, n, z, r) refl

character_not_null : (v : Value) → is_character v ≡ true → is_null v ≡ false
unfolding is_character is_null
character_not_null v y = ground arith

token_not_null :
    (m : Memory) (v : Value) (x : Atom) → IsToken x → ShowsAtom m v x → is_null v ≡ false
unfolding is_null is_symbol tag_integer tag_boolean
token_not_null m v (integer n) t s = rw s (ground arith)
token_not_null m v (name bytes) t (y, below, e, found) = ground arith
token_not_null m v (boolean true) t s = rw s refl
token_not_null m v (boolean false) t s = rw s refl
token_not_null m v (character c) t s =
    let (y, e) = get_character-tag_character c in rw s (character_not_null (tag_character c) y)
token_not_null m v empty t s = absurd t

-- The `cdr` of a pair that ends in a token.
last_text :
    (k : ℕ) (vm : Vm) (v : Value) (a : Datum) (x : Atom)
    → Writes k vm
    → IsToken x
    → IsAtom x
    → ShowsAtom vm.memory (vm.memory.pairs (get_pair v)).cdr x
    → write_value k vm (vm.memory.pairs (get_pair v)).car ≡ ok (text a)
    → 2 ≤ k
    → write_list (suc k) vm v ≡ ok (text a ++ (codes " . " ++ (atom_text x ++ codes ")")))
unfolding text
last_text k vm v a x p t w s e b =
    list_dot k vm v (text a) (atom_text x) e (write_atom-text vm _ x w s).0
      (token_not_null vm.memory _ x t s) (p.value _ (atom x) w s b)

list_step :
    (k : ℕ) (vm : Vm) (v : Value) (a d : Datum)
    → Writes k vm
    → IsDatum (cons a d)
    → Shows vm.memory v (cons a d)
    → 2 * size (cons a d) ≤ k + 2
    → write_list (suc k) vm v ≡ ok (list_text a d)
unfolding tail atom_text
list_step k vm v a (atom (integer n)) p w (y, below, sa, sd) b =
    last_text k vm v a (integer n) p tt w.1 sd (p.value _ a w.0 sa (omega arith))
      (omega (arith, size_positive a))
list_step k vm v a (atom (name bytes)) p w (y, below, sa, sd) b =
    last_text k vm v a (name bytes) p tt w.1 sd (p.value _ a w.0 sa (omega arith))
      (omega (arith, size_positive a))
list_step k vm v a (atom (boolean c)) p w (y, below, sa, sd) b =
    last_text k vm v a (boolean c) p tt w.1 sd (p.value _ a w.0 sa (omega arith))
      (omega (arith, size_positive a))
list_step k vm v a (atom (character c)) p w (y, below, sa, sd) b =
    last_text k vm v a (character c) p tt w.1 sd (p.value _ a w.0 sa (omega arith))
      (omega (arith, size_positive a))
list_step k vm v a (atom empty) p w (y, below, sa, sd) b =
    list_end k vm v (text a) (p.value _ a w.0 sa (omega arith)) sd
list_step k vm v a (cons a' d') p w (y, below, sa, sd) b =
    list_more k vm v (text a) (list_text a' d') (p.value _ a w.0 sa (omega arith)) sd.0
      (p.list _ a' d' w.1 sd (omega (arith, size_positive a)))

writes : (k : ℕ) (vm : Vm) → Writes k vm
writes zero vm = record {
  value = λ v d w s b. absurd (omega (arith, size_positive d));
  list = λ v a d w s b. absurd (omega (arith, size_positive a));
}
writes (suc k) vm =
    let p = writes k vm in
    record {
      value = λ v d w s b. value_step k vm v d p w s b;
      list = λ v a d w s b. list_step k vm v a d p w s (omega arith);
    }

-- `write_value` on a value that shows a datum writes the datum's text. Two units of fuel for each
-- atom and pair of the datum are enough.
pub write_value-text :
    (k : ℕ) (vm : Vm) (v : Value) (d : Datum)
    → IsDatum d
    → Shows vm.memory v d
    → 2 * size d ≤ k
    → write_value k vm v ≡ ok (text d)
write_value-text k vm v d w s b = let p = writes k vm in p.value v d w s b
