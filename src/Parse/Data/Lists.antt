-- ===== src/Parse/Data/Lists.antt =====
-- The end of a list (src/parse.c): a parenthesis, or a period and what stands in the last `cdr`.
use nscheme.Prelude.{ℕ, suc, refl, inl, inr, true, List, [], arith, ◌≡◌, ◌∷◌, ◌++◌, ◌∙◌}
use nscheme.Values.{Value, is_symbol, scm_type_null, tag_parse_val, is_parse_val, get_parse_val}
use nscheme.Memory.{Memory}
use nscheme.Run.{ok}
use nscheme.Lex.{ParseState, matches}
use nscheme.Parse.{
  is_left_paren, is_none_type, is_period, is_dot, is_right_paren, parse_list, parse_pair_token,
  parse_list_tokens,
}
use nscheme.Parse.Data.{Atom, name, empty, atom, atom_text, text, IsAtom, ShowsAtom}
use nscheme.Parse.Data.Growth.{IsReady, Grows-refl, Grows-trans}
use nscheme.Parse.Data.Tokens.{Rest, Sees, Lexes-Sees, lex_space, lex_right, lex_name}
use nscheme.Parse.Data.Texts.{left_paren, right_paren, token_of, memory_of, Starts, space-Starts}
use nscheme.Parse.Data.Steps.{expect, accept_yes, parse_token-right, parse_list_tokens-dot}
use nscheme.Parse.Data.Atoms.{IsToken, token_Shows}
use nscheme.Parse.Data.Elements.{Shows-Plain, parse_token-token}
use nscheme.Parse.Data.Outcomes.{Open, Rest-Closes, Held-Closes}

pub empty_list :
    (k : ℕ) (st : ParseState) (m : Memory) (rest : List ℕ)
    → Sees st left_paren (b')' ∷ rest) m
    → (s : ParseState) × (parse_list (suc k) st ≡ ok (scm_type_null, s)) × Rest s rest m
unfolding parse_list is_right_paren is_none_type tag_parse_val is_parse_val get_parse_val
empty_list k st m rest see =
    let (x, s, e, r) = expect (λ m. is_left_paren) st left_paren _ m see in
    let close = Lexes-Sees s (b')' ∷ rest) rest m m right_paren (lex_right rest m) r in
    let (s', e', r') = accept_yes (λ m. is_right_paren) s right_paren rest m close refl in
    (s', rw (e, e') refl, r')

pub last_step :
    (k : ℕ) (st : ParseState) (m : Memory) (rest : List ℕ)
    → IsReady m
    → Rest st (b')' ∷ rest) m
    → Open m (atom empty) rest (parse_list_tokens (suc (suc k)) st)
unfolding parse_list_tokens is_period is_none_type tag_parse_val is_parse_val get_parse_val
    is_symbol
last_step k st m rest y r =
    let close = Lexes-Sees st (b')' ∷ rest) rest m m right_paren (lex_right rest m) r in
    let (s, e, held) = parse_token-right k st rest m close in
    inr (scm_type_null, s, m, rw e refl, Held-Closes s rest m held, Grows-refl 1 m, y, refl)

-- The period.
abbrev dot : List ℕ
dot = b'.' ∷ []

dot-Starts :
    (st : ParseState) (m : Memory) (i : List ℕ)
    → Rest st (0x20 ∷ b'.' ∷ 0x20 ∷ i) m
    → Starts st m (atom (name dot)) (0x20 ∷ i)
unfolding matches
dot-Starts st m i r =
    Lexes-Sees st (0x20 ∷ b'.' ∷ 0x20 ∷ i) (0x20 ∷ i) m _ _
      (lex_space (b'.' ∷ 0x20 ∷ i) (0x20 ∷ i) m _ _
        (lex_name b'.' [] (0x20 ∷ i) m refl tt (omega arith) refl))
      r

dot_period :
    (s : ParseState) (m : Memory) (v : Value)
    → s.memory ≡ m
    → ShowsAtom m v (name dot)
    → is_period s.memory v ≡ true
unfolding is_period is_dot
dot_period s m v em (t, below, e, found) = rw (em, t, e) refl

pair_token :
    (k : ℕ) (st : ParseState) (m : Memory) (x : Atom) (rest : List ℕ)
    → IsAtom x
    → IsToken x
    → IsReady m
    → Rest st (0x20 ∷ (atom_text x ++ (b')' ∷ rest))) m
    → Open m (atom x) rest (parse_pair_token (suc (suc k)) st)
unfolding parse_pair_token text matches
pair_token k st m x rest w t y r =
    let starts = space-Starts st (atom x) (b')' ∷ rest) m w refl r in
    let (s, e, left) = parse_token-token k st m x (b')' ∷ rest) y t starts in
    let (sh, g, y') = token_Shows 1 m x y t in
    let (no_period, no_end) =
      Shows-Plain (memory_of m (atom x)) (token_of m (atom x)) (atom x) w sh in
    inr (_, s, _, rw (e, no_end) refl, Rest-Closes s rest _ left, g, y', sh)

pub dot_step :
    (k : ℕ) (st : ParseState) (m : Memory) (x : Atom) (rest : List ℕ)
    → IsAtom x
    → IsToken x
    → IsReady m
    → Rest st (0x20 ∷ b'.' ∷ 0x20 ∷ (atom_text x ++ (b')' ∷ rest))) m
    → Open m (atom x) rest (parse_list_tokens (suc (suc (suc k))) st)
dot_step k st m x rest w t y r =
    let starts = dot-Starts st m (atom_text x ++ (b')' ∷ rest)) r in
    let (s, e, (h, ei, em)) = parse_token-token (suc k) st m (name dot) _ y tt starts in
    let (sh, g, y') = token_Shows 0 m (name dot) y tt in
    let rest_of = parse_list_tokens-dot (suc (suc k)) st s _ e (dot_period s _ _ em sh) in
    elim (pair_token k s (memory_of m (atom (name dot))) x rest w t y' (h, ei, em)) [
      | inl (q, full) ↦ (let room = g.room in let end = g.end in inl (rest_of ∙ q, omega arith))
      | inr (v, s', m', q, c, g', y'', sh') ↦
          inr (v, s', m', rest_of ∙ q, c, Grows-trans g g', y'', sh')
    ]
