-- ===== src/Parse/Data/Outcomes.antt =====
-- What src/parse.c makes of a text: a value that shows the datum, or a panic, since the heap is full.
use nscheme.Prelude.{
  ℕ, suc, refl, inl, inr, false, List, arith, ◌+◌, ◌*◌, ◌≤◌, ◌≡◌, ◌⊎◌, ◌∷◌, ◌++◌, ◌∙◌,
}
use nscheme.Values.{Value, tag_parse_val, is_parse_val, get_parse_val}
use nscheme.Memory.{Memory}
use nscheme.Run.{Run, ok, panic, ◌>>=◌}
use nscheme.Lex.{ParseState}
use nscheme.Gc.{construct_pair}
use nscheme.Parse.{
  is_left_paren, is_right_paren, is_none_type, is_period, parse_expect, parse_token, parse_list,
  parse_list_tokens,
}
use nscheme.Parse.Data.{Datum, cons, text, tail, IsDatum, Shows, size}
use nscheme.Parse.Data.Growth.{IsReady, Grows, Grows-trans, Shows-Grows, construct_pair-Shows}
use nscheme.Parse.Data.Tokens.{Rest, Sees, Lexes-Sees, lex_right}
use nscheme.Parse.Data.Texts.{left_paren, right_paren, Starts, text-Starts, tail-Stops}
use nscheme.Parse.Data.Steps.{Held, Held-Sees, parse_list_tokens-element, expect, accept_no}
use nscheme.Parse.Data.Elements.{Shows-Plain, token_of-open}

-- The parenthesis that ends the list is next, whatever memory the next pair leaves.
abbrev pub Closes : ParseState → List ℕ → Memory → Type 0
Closes st rest m =
    (st.memory ≡ m) × ((n : Memory) → Sees (record st { memory = n }) right_paren rest n)

pub Rest-Closes :
    (st : ParseState) (rest : List ℕ) (m : Memory) → Rest st (b')' ∷ rest) m → Closes st rest m
Rest-Closes st rest m (h, e, em) = (
  em,
  λ n.
      Lexes-Sees (record st { memory = n }) (b')' ∷ rest) rest n n right_paren (lex_right rest n)
        (h, e, refl),
)

pub Held-Closes :
    (st : ParseState) (rest : List ℕ) (m : Memory) → Held st right_paren rest m → Closes st rest m
Held-Closes st rest m (h, e, ei, em) =
    (em, λ n. Held-Sees (record st { memory = n }) right_paren rest n (h, e, ei, refl))

pub Closes-Sees :
    (st : ParseState) (rest : List ℕ) (m : Memory) → Closes st rest m → Sees st right_paren rest m
Closes-Sees st rest m (e, c) = let (s, run, (h, ei, em)) = c st.memory in (s, run, (h, ei, em ∙ e))

-- The whole datum was read.
abbrev pub Whole : Memory → Datum → List ℕ → Run (Value × ParseState) → Type 0
Whole m d rest r =
    ((r ≡ panic) × (m.gc.end ≤ m.gc.allocend + 56 * size d))
    ⊎ ((v : Value) × (s : ParseState) × (m' : Memory) × (r ≡ ok (v, s))
        × Rest s rest m'
        × Grows (size d) m m'
        × IsReady m'
        × Shows m' v d)

-- All of a list was read but the parenthesis that ends it.
abbrev pub Open : Memory → Datum → List ℕ → Run (Value × ParseState) → Type 0
Open m d rest r =
    ((r ≡ panic) × (m.gc.end ≤ m.gc.allocend + 56 * size d))
    ⊎ ((v : Value) × (s : ParseState) × (m' : Memory) × (r ≡ ok (v, s))
        × Closes s rest m'
        × Grows (size d) m m'
        × IsReady m'
        × Shows m' v d)

-- What the functions do that call one another, with the fuel `k`.
pub record Parses (k : ℕ) : Type 0 where
  pub token :
      (st : ParseState) (m : Memory) (d : Datum) (rest : List ℕ)
      → IsDatum d
      → IsReady m
      → Starts st m d rest
      → 4 * size d ≤ k
      → Whole m d rest (parse_token k st)
  pub list :
      (st : ParseState) (m : Memory) (a d : Datum) (rest : List ℕ)
      → IsDatum (cons a d)
      → IsReady m
      → Sees st left_paren (text a ++ (tail d ++ rest)) m
      → 4 * size (cons a d) ≤ k + 1
      → Whole m (cons a d) rest (parse_list k st)
  pub tokens :
      (st : ParseState) (m : Memory) (a d : Datum) (rest : List ℕ)
      → IsDatum (cons a d)
      → IsReady m
      → Starts st m a (tail d ++ rest)
      → 4 * size (cons a d) ≤ k + 2
      → Open m (cons a d) rest (parse_list_tokens k st)
  pub others :
      (st : ParseState) (m : Memory) (d : Datum) (rest : List ℕ)
      → IsDatum d
      → IsReady m
      → Rest st (tail d ++ rest) m
      → 4 * size d ≤ k
      → Open m d rest (parse_list_tokens k st)

-- The parenthesis that ends the list.
pub close_list :
    (st : ParseState) (m : Memory) (d : Datum) (rest : List ℕ) (r : Run (Value × ParseState))
    → Open m d rest r
    → Whole m d rest (r >>= λ x. parse_expect (λ m. is_right_paren) x.1 >>= λ y. ok (x.0, y.1))
close_list st m d rest r (inl (e, full)) = inl (rw e refl, full)
close_list st m d rest r (inr (v, s, m', e, c, g, y, sh)) =
    let (x, s', e', left) =
      expect (λ m. is_right_paren) s right_paren rest m' (Closes-Sees s rest m' c) in
    inr (v, s', m', rw (e, e') refl, left, g, y, sh)

pub list_step :
    (k : ℕ) (st : ParseState) (m : Memory) (a d : Datum) (rest : List ℕ)
    → Parses k
    → IsDatum (cons a d)
    → IsReady m
    → Sees st left_paren (text a ++ (tail d ++ rest)) m
    → 4 * size (cons a d) ≤ k + 2
    → Whole m (cons a d) rest (parse_list (suc k) st)
unfolding parse_list is_none_type tag_parse_val is_parse_val get_parse_val
list_step k st m a d rest p w y see b =
    let (x, s, e, r) = expect (λ m. is_left_paren) st left_paren _ m see in
    let starts = text-Starts s a (tail d ++ rest) m w.0 (tail-Stops d rest) r in
    let (s', e', held) = accept_no (λ m. is_right_paren) s _ _ _ starts (token_of-open m a y) in
    let o = p.tokens s' m a d rest w y (Held-Sees s' _ _ _ held) b in
    rw (e, e') (close_list s' m (cons a d) rest (parse_list_tokens k s') o)

-- An element, the elements behind it, and a pair of both.
pub pair_step :
    (k : ℕ) (st s : ParseState) (m m₁ : Memory) (v : Value) (a d : Datum) (rest : List ℕ)
    → parse_token k st ≡ ok (v, s)
    → IsDatum a
    → Rest s (tail d ++ rest) m₁
    → Grows (size a) m m₁
    → Shows m₁ v a
    → Open m₁ d rest (parse_list_tokens k s)
    → Open m (cons a d) rest (parse_list_tokens (suc k) st)
pair_step k st s m m₁ v a d rest e w (h, ei, em) g sh o =
    let (no_period, no_end) = Shows-Plain m₁ v a w sh in
    let goes_on : is_period s.memory v ≡ false = rw em no_period in
    let first = parse_list_tokens-element k st s v e goes_on no_end in
    let room = g.room in
    let end = g.end in
    elim o [
      | inl (q, full) ↦ inl (rw (first, q) refl, omega arith)
      | inr (v', s', m₂, e', (em', c), g', y, sh') ↦
          (let fits : construct_pair s'.memory v v' ≡ construct_pair m₂ v v' = rw em' refl in
            elim (construct_pair-Shows m₂ v v' a d y (Shows-Grows m₁ m₂ v a g' sh) sh') [
              | inl (q, full) ↦
                  (let room' = g'.room in
                    let end' = g'.end in inl (rw (first, e', fits, q) refl, omega arith))
              | inr (w', m₃, q, sh'', g'', y') ↦ inr (
                w',
                record s' { memory = m₃ },
                m₃,
                rw (first, e', fits, q) refl,
                (refl, c),
                Grows-trans (Grows-trans g g') g'',
                y',
                sh'',
              )
            ])
    ]
