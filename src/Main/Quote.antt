-- ===== src/Main/Quote.antt =====
-- `evaluate_file` of src/main.c at the text of a quoted datum.
use nscheme.Prelude.{
  ℕ, refl, sym, ap, inl, inr, true, false, some, List, arith, ◌+◌, ◌*◌, ◌%◌, ◌≤◌, ◌<◌, ◌≡◌, ◌⊎◌,
  ◌++◌, ◌∙◌,
}
use mathlib.Core.Path.{subst}
use nscheme.Values.{
  Value, Ptr, is_symbol, get_symbol, get_pair, tag_symbol, tag_run_type, run_type_quote,
}
use nscheme.Values.Tagging.{IsAligned, tag_symbol-eq}
use nscheme.Memory.{Memory}
use nscheme.Env.Chain.{resolve}
use nscheme.Run.{ok, panic}
use nscheme.Symbols.{lookup_symbol_address}
use nscheme.Lex.{ParseState, codes}
use nscheme.Lex.Numbers.{Stops}
use nscheme.Lex.Names.{is_name_byte}
use nscheme.Parse.Data.{Datum, name, empty, atom, cons, text, IsDatum, Shows, size}
use nscheme.Parse.Data.Growth.{IsReady, Grows, Shows-Grows, lookup-same, IsInterned-more}
use nscheme.Parse.Data.Expressions.{parse_expression-text}
use nscheme.Vm.State.{Vm}
use nscheme.Vm.Interp.{vm_evaluate_expr}
use nscheme.Vm.Quote.{HasReturnLast}
use nscheme.Vm.Quote.TopLevel.{Evaluated, vm_evaluate_expr-quote}
use nscheme.Main.{read_evaluate}

-- `(quote d)`
abbrev pub quoted : Datum → Datum
quoted d = cons (atom (name (codes "quote"))) (cons d (atom empty))

-- A machine between two expressions at the top level, where the name `quote` at the address `p` is
-- bound to the special form.
pub record IsAtTop (p : Ptr) (vm : Vm) : Type 0 where
  pub ready : IsReady vm.memory
  pub sp : vm.sp ≡ 0
  pub callp : vm.callp ≡ 0
  pub stack : 2 ≤ vm.stack_size
  pub return_last : HasReturnLast vm
  pub interned : lookup_symbol_address vm.memory (codes "quote") ≡ some p
  pub bound : resolve vm.envs 1 (tag_symbol p) ≡ some (tag_run_type run_type_quote)

-- A symbol is known by its address.
symbol_word : (q : Value) (p : Ptr) → is_symbol q ≡ true → get_symbol q ≡ p → tag_symbol p ≡ q
unfolding is_symbol get_symbol
symbol_word q p s e =
    let six : q % 16 ≡ 6 = ground arith in
    let aligned : IsAligned p = omega arith in tag_symbol-eq p aligned ∙ omega arith

-- Evaluation keeps what was read.
Evaluated-IsReady : (vm vm' : Vm) → Evaluated vm vm' → IsReady vm.memory → IsReady vm'.memory
Evaluated-IsReady vm vm' e y =
    let heap = e.heap in
    record {
      interned =
          IsInterned-more vm.memory vm'.memory e.brk (e.next y.interned.aligned) e.table y.interned;
      heap = rw heap y.heap;
      low = rw heap y.low;
    }

Evaluated-Grows : (vm vm' : Vm) → Evaluated vm vm' → Grows 0 vm.memory vm'.memory
Evaluated-Grows vm vm' e =
    let heap = e.heap in
    let same = lookup-same vm.memory vm'.memory in
    record {
      pairs = λ q. inr (ap (λ f. f q) e.pairs);
      strings = λ q. inr (ap (λ f. f q) e.strings);
      allocend = rw heap (omega arith);
      room = rw heap (omega arith);
      end = ap (λ c. c.end) heap;
      brk = e.brk;
      names = λ y p found. same y e.strings e.table ∙ found;
    }

-- Evaluating a value that shows `(quote d)`.
evaluate_quoted :
    (steps : ℕ) (p : Ptr) (vm : Vm) (expr : Value) (d : Datum)
    → IsAtTop p vm
    → Shows vm.memory expr (quoted d)
    → 3 ≤ steps
    → (v : Value) × (vm' : Vm) × (vm_evaluate_expr steps vm expr ≡ ok (v, vm'))
      × Evaluated vm vm'
      × Shows vm'.memory v d
evaluate_quoted steps p vm expr d t (pair, below, (s, low, bytes, found), (more, b, sh, last)) h =
    let q = (vm.memory.pairs (get_pair expr)).car in
    let rest = (vm.memory.pairs (get_pair expr)).cdr in
    let v = (vm.memory.pairs (get_pair rest)).car in
    let interned = t.interned in
    let address : get_symbol q ≡ p = some_injective _ _ (sym found ∙ interned) in
    let bound = rw (symbol_word q p s address) at t.bound in
    let (vm', run, e) =
      vm_evaluate_expr-quote steps vm expr q rest v t.sp t.callp t.stack t.ready.interned.started
        t.return_last pair refl s bound more refl h in
    (v, vm', run, e, Shows-Grows vm.memory vm'.memory v d (Evaluated-Grows vm vm' e) sh)
  where
    some_injective : (x y : ℕ) → some x ≡ some y → x ≡ y
    some_injective x y h = cc

-- Reading keeps a machine between two expressions.
read-IsAtTop :
    (n : ℕ) (p : Ptr) (vm : Vm) (m : Memory)
    → IsAtTop p vm
    → Grows n vm.memory m
    → IsReady m
    → IsAtTop p (record vm { memory = m })
read-IsAtTop n p vm m t g y = record {
  ready = y;
  sp = t.sp;
  callp = t.callp;
  stack = t.stack;
  return_last = elim t.return_last [
    | inl (a, z) ↦ inl (y.interned.aligned, z)
    | inr made ↦ inr made
  ];
  interned = g.names (codes "quote") p t.interned;
  bound = t.bound;
}

-- And so does evaluating.
Evaluated-IsAtTop : (p : Ptr) (vm vm' : Vm) → IsAtTop p vm → Evaluated vm vm' → IsAtTop p vm'
Evaluated-IsAtTop p vm vm' t e =
    let g = Evaluated-Grows vm vm' e in
    let envs = e.envs in
    let size = e.stack_size in
    let stack = t.stack in
    record {
      ready = Evaluated-IsReady vm vm' e t.ready;
      sp = e.sp;
      callp = e.callp;
      stack = omega arith;
      return_last = e.return_last;
      interned = g.names (codes "quote") p t.interned;
      bound = rw envs t.bound;
    }

-- Between two expressions at the top level, where the next text is that of `(quote d)`, one round of
-- `evaluate_file` returns a value that shows `d`, leaves the stream behind the text, and the machine
-- between two expressions again, or it panics because the heap has less than 56 bytes left for each
-- atom and pair of the text.
pub read_evaluate-quote :
    (depth steps : ℕ) (p : Ptr) (vm : Vm) (st : ParseState) (d : Datum) (rest : List ℕ)
    → IsDatum (quoted d)
    → IsAtTop p vm
    → st.has_next ≡ false
    → st.input ≡ text (quoted d) ++ rest
    → Stops is_name_byte rest
    → 4 * size (quoted d) < depth
    → 3 ≤ steps
    → ((read_evaluate depth steps vm st ≡ panic)
        × (vm.memory.gc.end ≤ vm.memory.gc.allocend + 56 * size (quoted d)))
      ⊎ ((v : Value) × (vm' : Vm) × (st' : ParseState) × (read_evaluate depth steps vm st
            ≡ ok (v, (vm', st')))
          × Shows vm'.memory v d
          × (st'.input ≡ rest)
          × (st'.has_next ≡ false)
          × IsAtTop p vm')
unfolding read_evaluate
read_evaluate-quote depth steps p vm st d rest w t h e stops b b' =
    elim (parse_expression-text depth (record st { memory = vm.memory }) (quoted d) rest w t.ready h
      e stops b) [
        | inl (q, full) ↦ inl (rw q refl, full)
        | inr (expr, s, m, q, (held, left, em), g, y, sh) ↦
            (let read = record vm { memory = s.memory } in
              let top : IsAtTop p read =
                read-IsAtTop (size (quoted d)) p vm s.memory t (rw em g) (rw em y) in
              let (v, vm', run, ev, sv) =
                evaluate_quoted steps p read expr d top
                  (subst (λ x. Shows x expr (quoted d)) (sym em) sh) b' in
              inr (
                v,
                vm',
                s,
                rw q (rw run refl),
                sv,
                left,
                held,
                Evaluated-IsAtTop p read vm' top ev,
              ))
      ]
