-- ===== src/Parse/Data/Reads.antt =====
-- src/parse.c reads the datum that a text is the text of.
use nscheme.Prelude.{ℕ, zero, suc, refl, ap, inl, inr, List, arith, ◌+◌, ◌*◌, ◌≤◌, ◌∷◌, ◌++◌, ◌∙◌}
use mathlib.Core.List.{append_assoc}
use nscheme.Values.{scm_type_null}
use nscheme.Memory.{Memory}
use nscheme.Lex.{ParseState, codes}
use nscheme.Parse.{parse_token, parse_list_tokens}
use nscheme.Parse.Data.{
  Atom, integer, name, boolean, character, empty, Datum, atom, cons, tail, atom_text, IsAtom,
  IsDatum, size,
}
use nscheme.Parse.Data.Growth.{IsReady, Grows-refl}
use nscheme.Parse.Data.Tokens.{Rest}
use nscheme.Parse.Data.Texts.{left_of, token_of, memory_of, Starts, tail-Starts}
use nscheme.Parse.Data.Steps.{parse_token-left}
use nscheme.Parse.Data.Atoms.{IsToken, token_Shows}
use nscheme.Parse.Data.Elements.{parse_token-token}
use nscheme.Parse.Data.Outcomes.{Whole, Open, Parses, list_step, pair_step}
use nscheme.Parse.Data.Lists.{empty_list, last_step, dot_step}

token_step :
    (k : ℕ) (st : ParseState) (m : Memory) (x : Atom) (rest : List ℕ)
    → IsToken x
    → IsReady m
    → Starts st m (atom x) rest
    → Whole m (atom x) rest (parse_token (suc k) st)
token_step k st m x rest t y starts =
    let (s, e, r) = parse_token-token k st m x rest y t starts in
    let (sh, g, y') = token_Shows 1 m x y t in
    inr (token_of m (atom x), s, memory_of m (atom x), e, r, g, y', sh)

empty_step :
    (k : ℕ) (st : ParseState) (m : Memory) (rest : List ℕ)
    → IsReady m
    → Starts st m (atom empty) rest
    → Whole m (atom empty) rest (parse_token (suc (suc k)) st)
empty_step k st m rest y starts =
    let (s, e, see) = parse_token-left (suc k) st (b')' ∷ rest) m starts in
    let (s', e', r) = empty_list k s m rest see in
    inr (scm_type_null, s', m, e ∙ e', r, Grows-refl 1 m, y, refl)

datum_step :
    (k : ℕ) (st : ParseState) (m : Memory) (d : Datum) (rest : List ℕ)
    → Parses k
    → IsDatum d
    → IsReady m
    → Starts st m d rest
    → 4 * size d ≤ suc k
    → Whole m d rest (parse_token (suc k) st)
datum_step k st m (atom (integer n)) rest p w y starts b =
    token_step k st m (integer n) rest tt y starts
datum_step k st m (atom (name bytes)) rest p w y starts b =
    token_step k st m (name bytes) rest tt y starts
datum_step k st m (atom (boolean c)) rest p w y starts b =
    token_step k st m (boolean c) rest tt y starts
datum_step k st m (atom (character c)) rest p w y starts b =
    token_step k st m (character c) rest tt y starts
datum_step zero st m (atom empty) rest p w y starts b = absurd (omega arith)
datum_step (suc k) st m (atom empty) rest p w y starts b = empty_step k st m rest y starts
datum_step k st m (cons a d) rest p w y starts b =
    let (s, e, see) = parse_token-left k st (left_of (cons a d) rest) m starts in
    rw e (p.list s m a d rest w y see (omega arith))

tokens_step :
    (k : ℕ) (st : ParseState) (m : Memory) (a d : Datum) (rest : List ℕ)
    → Parses k
    → IsDatum (cons a d)
    → IsReady m
    → Starts st m a (tail d ++ rest)
    → 4 * size (cons a d) ≤ k + 3
    → Open m (cons a d) rest (parse_list_tokens (suc k) st)
unfolding parse_list_tokens
tokens_step k st m a d rest p w y starts b =
    elim (p.token st m a (tail d ++ rest) w.0 y starts (omega arith)) [
      | inl (q, full) ↦ inl (rw q refl, omega arith)
      | inr (v, s, m₁, e, r, g, y', sh) ↦
          pair_step k st s m m₁ v a d rest e w.0 r g sh
            (p.others s m₁ d rest w.1 y' r (omega arith))
    ]

-- A list that ends with a token behind a period.
last_token :
    (k : ℕ) (st : ParseState) (m : Memory) (x : Atom) (rest : List ℕ)
    → IsAtom x
    → IsToken x
    → IsReady m
    → Rest st (codes " . " ++ (atom_text x ++ codes ")") ++ rest) m
    → 4 ≤ suc k
    → Open m (atom x) rest (parse_list_tokens (suc k) st)
last_token zero st m x rest w t y r b = absurd (omega arith)
last_token (suc zero) st m x rest w t y r b = absurd (omega arith)
last_token (suc (suc k)) st m x rest w t y (h, e, em) b =
    dot_step k st m x rest w t y
      (h, e ∙ ap (λ l. 0x20 ∷ b'.' ∷ 0x20 ∷ l) (append_assoc (atom_text x) (codes ")") rest), em)

others_step :
    (k : ℕ) (st : ParseState) (m : Memory) (d : Datum) (rest : List ℕ)
    → Parses k
    → IsDatum d
    → IsReady m
    → Rest st (tail d ++ rest) m
    → 4 * size d ≤ suc k
    → Open m d rest (parse_list_tokens (suc k) st)
unfolding tail atom_text
others_step k st m (atom (integer n)) rest p w y r b = last_token k st m (integer n) rest w tt y r b
others_step k st m (atom (name bytes)) rest p w y r b =
    last_token k st m (name bytes) rest w tt y r b
others_step k st m (atom (boolean c)) rest p w y r b = last_token k st m (boolean c) rest w tt y r b
others_step k st m (atom (character c)) rest p w y r b =
    last_token k st m (character c) rest w tt y r b
others_step zero st m (atom empty) rest p w y r b = absurd (omega arith)
others_step (suc k) st m (atom empty) rest p w y r b = last_step k st m rest y r
others_step k st m (cons a d) rest p w y r b =
    tokens_step k st m a d rest p w y (tail-Starts st a d rest m w.0 r) (omega arith)

pub size_positive : (d : Datum) → 1 ≤ size d
size_positive (atom a) = omega arith
size_positive (cons a d) = omega arith

pub parses : (k : ℕ) → Parses k
parses zero = record {
  token = λ st m d rest w y s b. absurd (omega (arith, size_positive d));
  list = λ st m a d rest w y s b. absurd (omega (arith, size_positive a));
  tokens = λ st m a d rest w y s b. absurd (omega (arith, size_positive a));
  others = λ st m d rest w y s b. absurd (omega (arith, size_positive d));
}
parses (suc k) =
    let p = parses k in
    record {
      token = λ st m d rest w y s b. datum_step k st m d rest p w y s b;
      list = λ st m a d rest w y s b. list_step k st m a d rest p w y s (omega arith);
      tokens = λ st m a d rest w y s b. tokens_step k st m a d rest p w y s (omega arith);
      others = λ st m d rest w y s b. others_step k st m d rest p w y s b;
    }
