-- ===== src/Lib.antt =====
-- nscheme: a verification library of the nscheme interpreter, a Scheme in C.
--
-- The program reads data from a stream (src/lex.c, src/parse.c), evaluates them on a machine with a
-- tree walker and compiled closures (src/vm.c, src/vm_ops.c, include/nscheme/vm.h,
-- include/nscheme/vm_ops.h), which expands macros (src/syntax-rules.c) and compiles a closure at its
-- third call (src/compiler.c, src/scope.c), and writes values (src/write.c). Values are tagged words
-- (include/nscheme/values.h). Names are interned (src/symbols.c) and bound in environments
-- (src/env.c); pairs stand on a collected heap (src/gc.c).
--
-- The modules:
--   Prelude       names of the libraries, passed on; Boolean tests, lists, and words of 64 and 32
--                 bits, whose wrap-around is written out (mod64, mod32, sub32)
--   Values        include/nscheme/values.h: a word is its bit pattern, a number below 2 ^ 64
--   Memory        what the components share: memory by address, malloc, strcmp
--   Env           src/env.c: the store is the list of environments, and `last` points down it
--   Symbols       src/symbols.c
--   Run           the outcome of C code: a result, an undefined access, a panic, or too little fuel
--   Gc            src/gc.c (the allocator) and construct_pair of include/nscheme/vm.h; Mark: the
--                 marking in src/gc.c (the theorems stand in Reachable); Collect: the roots of the
--                 marking, up to gc_collect_vm (the theorem stands in Complete)
--   Lex, Parse    src/lex.c and src/parse.c: a stream is the list of the bytes that are left;
--                 Parse.Data: data without tags and addresses, their texts, and the values that show
--                 them (the theorem stands in Expressions)
--   Vm            State: include/nscheme/vm.h and the inline functions of vm_ops.h; Handles, Forms,
--                 Init and Interp: src/vm.c; Arith, Ops and Apply: src/vm_ops.c
--                 (the theorems stand in Calls, Reaches, Builtins, Operands, Sums and Quote);
--                 Closures: the closures of builtin functions
--   SyntaxRules   src/syntax-rules.c (the theorem stands in Expansion, what it promises in
--                 Growth)
--   Compiler      State: include/nscheme/compiler.h; Scope: src/scope.c; Code and Compiler itself:
--                 src/compiler.c (the theorems stand in Top, on scopes, with the places of Layout,
--                 the searches of Finding and the failures of Unresolved, and in Correct, Computes and Calls, on the
--                 expressions of Expr and their meaning in Values)
--   Write         src/write.c, into a list of bytes (the theorems stand in Text and RoundTrip)
--   Main          src/main.c; what fopen returns for a name is a parameter (the theorems stand
--                 in Quote and Start, on reading and evaluating a quoted datum)
-- The definitions have the names of the C functions. A loop's body is a definition of its own, such
-- as pop_loop for the loops of vm_op_add, vm_op_sub and vm_op_mul. The children of a module hold
-- its theorems, and Examples (Vm.Walks for the tree walker, Main.Quoting for quoted data) hold them
-- at concrete inputs.
--
-- A function that changes shared state takes it and returns it: the machine (Vm), which holds the
-- memory, the environments and the streams, or the parser's state. The statics of src/vm_ops.c are
-- fields of the machine. The loops that go along a finite input are structural. The scanner's loop
-- has the length of the stream plus one as fuel. The loop of mark_traverse has the heap's used part
-- plus one, since each round is for another block of it. Argument loading has the size of the stack
-- plus one, since each round reads one cell further and the first read outside is a fault. The
-- walks of the compiler and of the macros along lists on the heap have twice its used part plus
-- two, since a list that is not cyclic has no more pairs than that. The parser and the writer take
-- fuel for the depth of their recursion, and the machine's loop for its steps; what does not end in
-- the source is out_of_fuel for every bound.
--
-- The functions of src/gc.c that mark environments, their nodes and the arrays of closures read the
-- headers in front of them. The store names these blocks by number, so the addresses that calloc and
-- vm_alloc have given them are a parameter there (Gc.Collect.Addresses); a header in front of a block
-- of calloc is whatever the map of the headers has at that address.
--
-- vm_alloc takes the collection that it starts as an argument. Where gc_collect_vm ends it makes no
-- difference to vm_alloc (Gc.Collect.Retry), since it writes headers alone, which gc_alloc does not
-- read; so construct_pair and the compiler, which have no machine at hand there, leave it out.
--
-- The addresses that src/env.c is called with are those of environments; at any other, which the C
-- code would dereference, the model finds and changes nothing.
--
-- Not modelled: list_index of src/compiler.c is never called. Messages on stderr and for
-- debugging and the freeing of memory are left out, as are the fields of the machine that nothing
-- reads. The build script and the shell driver of the tests are not modelled.
pub mod Prelude
pub mod Values
pub mod Env
pub mod Memory
pub mod Run
pub mod Gc
pub mod Lex
pub mod Parse
pub mod Vm
pub mod Write
pub mod Main
pub mod Symbols
pub mod SyntaxRules
pub mod Compiler
