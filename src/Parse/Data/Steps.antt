-- ===== src/Parse/Data/Steps.antt =====
-- The parser's steps (src/parse.c) at a state with a known next token.
use nscheme.Prelude.{
  ℕ, suc, refl, sym, ap, inl, inr, true, false, List, [], arith, Bool-cases, ◌≡◌, ◌∷◌, ◌==◌,
  if◌then◌else◌, ◌∙◌,
}
use nscheme.Values.{Value, is_integer, is_eof, is_parse_val, get_parse_val, tag_parse_val}
use nscheme.Memory.{Memory}
use nscheme.Gc.{construct_pair}
use nscheme.Run.{ok, ◌>>=◌}
use nscheme.Lex.{ParseState, read_next_token}
use nscheme.Parse.{
  TypeTest, none_token, get_next_token, peek_next_token, cache_next_token, parse_accept,
  parse_expect, accept_first, atom_tests, is_left_paren, is_apostrophe, is_none_type, is_period,
  parse_token, parse_list, parse_list_tokens, parse_pair_token,
}
use nscheme.Parse.State.{emptied}
use nscheme.Parse.Stuck.{NoneOf, token_NoneOf}
use nscheme.Parse.Data.Tokens.{Rest, Sees}
use nscheme.Parse.Data.Texts.{left_paren, right_paren}

-- The next token is held.
abbrev pub Held : ParseState → Value → List ℕ → Memory → Type 0
Held st t i m = (st.has_next ≡ true) × (st.next_token ≡ t) × (st.input ≡ i) × (st.memory ≡ m)

pub Held-Sees :
    (st : ParseState) (t : Value) (i : List ℕ) (m : Memory) → Held st t i m → Sees st t i m
unfolding get_next_token
Held-Sees st t i m (h, e, ei, em) = (emptied st, ground arith, (refl, ei, em))

pub accept_yes :
    (test : TypeTest) (st : ParseState) (t : Value) (i : List ℕ) (m : Memory)
    → Sees st t i m
    → test m t ≡ true
    → (s : ParseState) × (parse_accept test st ≡ ok (t, s)) × Rest s i m
unfolding parse_accept
accept_yes test st t i m (s, e, (h, ei, em)) y =
    let passed : test s.memory t ≡ true = rw em y in (s, rw (e, passed) refl, (h, ei, em))

pub accept_no :
    (test : TypeTest) (st : ParseState) (t : Value) (i : List ℕ) (m : Memory)
    → Sees st t i m
    → test m t ≡ false
    → (s : ParseState) × (parse_accept test st ≡ ok (none_token, s)) × Held s t i m
unfolding parse_accept cache_next_token
accept_no test st t i m (s, e, (h, ei, em)) n =
    let failed : test s.memory t ≡ false = rw em n in
    (cache_next_token s t, rw (e, failed) refl, (refl, refl, ei, em))

pub expect :
    (test : TypeTest) (st : ParseState) (t : Value) (i : List ℕ) (m : Memory)
    → Sees st t i m
    → (x : Value) × (s : ParseState) × (parse_expect test st ≡ ok (x, s)) × Rest s i m
unfolding parse_expect
expect test st t i m (s, e, r) = (if test s.memory t then t else none_token, s, rw e refl, r)

pub peek-Held :
    (st : ParseState) (t : Value) (i : List ℕ) (m : Memory)
    → Held st t i m
    → peek_next_token st ≡ ok (t, st)
unfolding peek_next_token
peek-Held st t i m (h, e, ei, em) = ground arith

peek_taken :
    (st s : ParseState) (t : Value)
    → st.has_next ≡ true
    → get_next_token st ≡ ok (t, s)
    → (st.next_token ≡ t) × (emptied st ≡ s)
unfolding get_next_token
peek_taken st s t h e =
    let taken : get_next_token st ≡ ok (st.next_token, emptied st) = ground arith in
    let same = sym taken ∙ e in (cc, cc)

peek_read :
    (st s : ParseState) (t : Value)
    → st.has_next ≡ false
    → get_next_token st ≡ ok (t, s)
    → peek_next_token st ≡ ok (t, record s { has_next = true; next_token = t })
unfolding peek_next_token get_next_token
peek_read st s t h e =
    let taken : get_next_token st ≡ read_next_token st = ground arith in
    let reads = sym taken ∙ e in ground arith

pub peek :
    (st : ParseState) (t : Value) (i : List ℕ) (m : Memory)
    → Sees st t i m
    → (s : ParseState) × (peek_next_token st ≡ ok (t, s)) × Held s t i m
peek st t i m (s, e, (h, ei, em)) = elim (Bool-cases st.has_next) [
  | inl y ↦
      (let (token, left) = peek_taken st s t y e in
        let held : Held st t i m =
          (y, token, ap (λ x. x.input) left ∙ ei, ap (λ x. x.memory) left ∙ em) in
        (st, peek-Held st t i m held, held))
  | inr n ↦
      (record s { has_next = true; next_token = t }, peek_read st s t n e, (refl, refl, ei, em))
]

pub first_taken :
    (test : TypeTest) (tests : List TypeTest) (st : ParseState) (t : Value) (i : List ℕ)
    (m : Memory)
    → Sees st t i m
    → test m t ≡ true
    → (t == none_token) ≡ false
    → (s : ParseState) × (accept_first (test ∷ tests) st ≡ ok (t, s)) × Rest s i m
unfolding accept_first
first_taken test tests st t i m see y n =
    let (s, e, r) = accept_yes test st t i m see y in (s, rw (e, n) refl, r)

pub first_passed :
    (test : TypeTest) (tests : List TypeTest) (st : ParseState) (t : Value) (i : List ℕ)
    (m : Memory)
    → Sees st t i m
    → test m t ≡ false
    → (s : ParseState) × (accept_first (test ∷ tests) st ≡ accept_first tests s) × Held s t i m
unfolding accept_first tag_parse_val
first_passed test tests st t i m see n =
    let (s, e, r) = accept_no test st t i m see n in (s, rw e refl, r)

first_none :
    (tests : List TypeTest) (st : ParseState) (t : Value) (i : List ℕ) (m : Memory)
    → Held st t i m
    → NoneOf tests m t
    → (s : ParseState) × (accept_first tests st ≡ ok (none_token, s)) × Held s t i m
unfolding accept_first
first_none [] st t i m h n = (st, refl, h)
first_none (test ∷ tests) st t i m h (n, ns) =
    let (s, e, h') = first_passed test tests st t i m (Held-Sees st t i m h) n in
    let (s', e', h'') = first_none tests s t i m h' ns in (s', e ∙ e', h'')

-- No test takes a parenthesis.
paren_none :
    (st : ParseState) (t : Value) (i : List ℕ) (m : Memory)
    → Sees st t i m
    → is_parse_val t ≡ true
    → is_eof t ≡ false
    → (s : ParseState) × (accept_first atom_tests st ≡ ok (none_token, s)) × Held s t i m
paren_none st t i m see p n =
    let (z, zs) = token_NoneOf m t p n in
    let (s, e, h) = first_passed (λ m. is_integer) _ st t i m see z in
    let (s', e', h') = first_none _ s t i m h zs in (s', e ∙ e', h')

pub parse_token-left :
    (k : ℕ) (st : ParseState) (i : List ℕ) (m : Memory)
    → Sees st left_paren i m
    → (s : ParseState) × (parse_token (suc k) st ≡ parse_list k s) × Sees s left_paren i m
unfolding parse_token is_left_paren is_parse_val get_parse_val is_eof tag_parse_val
parse_token-left k st i m see =
    let (s, e, h) = paren_none st left_paren i m see refl refl in
    (s, rw (e, peek-Held s left_paren i m h) refl, Held-Sees s left_paren i m h)

pub parse_token-right :
    (k : ℕ) (st : ParseState) (i : List ℕ) (m : Memory)
    → Sees st right_paren i m
    → (s : ParseState) × (parse_token (suc k) st ≡ ok (none_token, s)) × Held s right_paren i m
unfolding parse_token is_left_paren is_apostrophe is_parse_val get_parse_val is_eof tag_parse_val
parse_token-right k st i m see =
    let (s, e, h) = paren_none st right_paren i m see refl refl in
    let p = peek-Held s right_paren i m h in (s, rw (e, p, p) refl, h)

-- A token that the tests take.
pub parse_token-atom :
    (k : ℕ) (st s : ParseState) (t : Value)
    → accept_first atom_tests st ≡ ok (t, s)
    → (t == none_token) ≡ false
    → parse_token (suc k) st ≡ ok (t, s)
unfolding parse_token
parse_token-atom k st s t e n = ground (arith, e, n)

-- An element of a list.
pub parse_list_tokens-element :
    (k : ℕ) (st s : ParseState) (v : Value)
    → parse_token k st ≡ ok (v, s)
    → is_period s.memory v ≡ false
    → is_none_type v ≡ false
    → parse_list_tokens (suc k) st ≡ (
        parse_list_tokens k s >>= λ x.
        construct_pair x.1.memory v x.0 >>= λ y. ok (y.0, record x.1 { memory = y.1 }))
unfolding parse_list_tokens
parse_list_tokens-element k st s v e p n = ground (arith, e, p, n)

pub parse_list_tokens-dot :
    (k : ℕ) (st s : ParseState) (v : Value)
    → parse_token k st ≡ ok (v, s)
    → is_period s.memory v ≡ true
    → parse_list_tokens (suc k) st ≡ parse_pair_token k s
unfolding parse_list_tokens
parse_list_tokens-dot k st s v e p = ground (arith, e, p)
