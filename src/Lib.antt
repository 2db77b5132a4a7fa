-- ===== src/Lib.antt =====
-- The checker of second_opinion, a verifier for Metamath Zero. The program reads a specification
-- (an mmz file) and a proof file (mmb, binary), checks every declaration of the proof file on a stack
-- machine, and compares each with the specification. This library models both halves, the run over
-- the declarations in one thread and in several, and how the two halves meet.
--
-- The parts of the model and the code they follow:
-- - Prelude/Result: `VerifErr`, `Res` and the macros of src/util.rs. A result is a value, an error
--   without its payload, a panic (an assertion, an unwrap, an index out of range, or an overflow:
--   the release profile checks for them), or `hang`, which only stands for used-up fuel.
-- - Prelude/Lists, Prelude/Bits, Prelude/Tests: lists over native numbers, bits, Boolean tests.
-- - Util/Ty: `Type` of src/util.rs (here `Ty`), and `sorts_compatible` of src/mmb/mod.rs.
--   Ty/Deps is about its dependencies, Ty/Position about `bound_pos`.
-- - Util/View: the printers of binary digits. View/Reading reads what they print, and
--   View/Groups is about the underscores.
-- - Util/Bytes: the readers of `bin_parser!`; a slice is a list of numbers.
-- - Util/Cmd: `parse_cmd`, `try_next_cmd`, and the loop over a command stream (`for_cmds`).
--   Cmd/Loop and Cmd/Progress hold its lemmas, Cmd/RoundTrip an encoder of commands.
-- - Util/Stmt, Util/Decl: src/mmb/stmt.rs, and `DeclIter` of src/util.rs.
--   Decl/Numbers is about the numbers that the iterator gives.
-- - Util/Header: `parse_header` (src/mmb/mod.rs) and `parse_index` (src/mmb/index.rs).
--   Util/IndexEntry: the entries that the index points to. IndexEntry/RoundTrip encodes both.
-- - Util/Outline: `Outline`, `Term`, `Assert` and `Args` of src/util.rs.
--   Outline/Backwards is about the arguments from the back.
-- - Mmb/Item, Mmb/State: `MmbItem`, `MmbExpr` and `MmbState` of src/mmb/mod.rs. A reference into the
--   arena is an item with its address; the state counts allocations. A stack has its top at the
--   head, a heap grows at its end.
-- - Mmb/UnifyCmd, Mmb/Unify: src/mmb/unify.rs. Unify/Pattern has the meaning of a unify stream, a
--   pattern, with its matcher; Unify/Machine and Unify/Statement relate the machine to it.
-- - Mmb/ProofCmd, Mmb/Proof: src/mmb/proof.rs, in four groups of commands: Proof/Vars, Proof/Build
--   (`proof_term`), Proof/Apply (`proof_thm`, `proof_unfold`), Proof/Conv. Proof/Disjoint reads the
--   variable conditions of `proof_thm` as a predicate.
-- - Mmb/Step: the proof machine as a step relation, indexed by the command, with one constructor for each.
--   Step/Inversion and Step/Calls say what each command has done, Step/Refinement joins them.
-- - Mmb/Soundness: convertibility and provability as judgments, what the items on the stack and
--   the heap claim (Soundness), what the unifier leaves alone (Soundness/Frame), and runs of the
--   proof machine (Soundness/Steps, Preserve, Run), up to the check of a theorem (Declared).
--   Soundness/Arena has the arena as a list in which each item stands at its address, and Allocate what
--   the commands allocate: so the pointer test of `Refl` is an equality of items. Soundness/Longer is
--   about the heap and the unify stack, Heap about the arguments on the heap, Arity and Sizes
--   about the arguments of an application.
-- - Mmb/Verify: `load_args`, `verify_termdef`, `verify_assert`, `verify1` of src/mmb/mod.rs.
-- - Mmb/Termination: how the check of a declaration ends.
-- - Mmz/Map: a `HashMap`, as an association list in the order of insertion; the source leaves the order
--   of an iteration to the hash function.
-- - Mmz/Data, Mmz/Mem, Mmz/Monad: src/mmz/mod.rs, the data, `MmzMem` and `MmzState`. The operations are
--   actions on the state, which comes back from an error too. `hyps` and `ustack` have their top at
--   the head, the other vectors keep their order.
-- - Mmz/Lexer, Mmz/Token: the scanners of src/mmz/parse.rs and src/mmz/math_parser.rs, and delimiters.
-- - Mmz/Coercion, Mmz/CoercionStmt: `coerce`, the graph of coercions, and the `coercion` statement.
--   Coercion/Target is about the sorts that `coerce` gives, Coercion/Entries, Todo and Graph about the
--   graph that `add_coe_raw` makes.
-- - Mmz/Notation, Mmz/GeneralNotation: notation declarations.
-- - Mmz/Operators, Mmz/MathParser: the precedence parser of src/mmz/math_parser.rs.
-- - Mmz/Binders, Mmz/Statement: binders, types and the statements of a specification.
-- - Mmz/Check: `check_expr`. Check/Machine relates it to the matching of a pattern.
-- - Mmz/Round, Mmz/Until: `parse_until` and `verify1`. Until/Kinds compares kinds of
--   declarations, Until/Reads says what has been read when a declaration is accepted.
-- - Agreement: an expression of the binary file against one of the specification. Agreement/Equality,
--   Slots and Growth have the lemmas on heaps, Apart is about files without definitions, Matching
--   and Statement join the two matchers, and
--   Proved joins them with the proof of the theorem.
-- - Main: src/main.rs. A thread of `verify_mmb` is idle, checks a declaration, has finished or has
--   panicked, and makes one atomic step at a time; a schedule is the list of the threads that make
--   the steps. Main/Weights has lists up to order, Main/Counts the errors and counters of a list of
--   declarations, Main/Invariant and Main/Run what holds between two steps, Main/Equivalence the
--   comparison with one thread, Main/Needs, Others and Progress the end of the threads.
--   Main/Command is `main`; Main/Accepts and Verified say what a run without errors has checked.
-- - Fs: the import graph of src/fs.rs. Reading a file, splitting a text into words, and the path for a file name
--   are parameters. Fs/Open is `new_from`, with the functions of the standard library as a record.
--   Fs/Branches, Imports and Order are about the files that are loaded, Fs/Unseen and Ends
--   about the end of loading.
-- - Tests: test_resources/short.mmb and short.mm0, byte by byte, runs of the parts and of the whole
--   program on them, and the theorems at concrete inputs.
--
-- How they interact: `verify1` loads the arguments of a declaration onto the heap, runs its proof
-- stream on the proof machine, and lets the unifier match the result with the declaration's unify
-- stream. For a public declaration the other `verify1` reads the specification up to its statement,
-- and `check_expr` compares the formulas there with the same unify stream. The proof machine calls the unifier when it applies a theorem or unfolds a definition.
--
-- Fuel: the loops over a stream have one round more than the file has bytes, and each round takes a
-- byte at least; the loop over arguments has a round for each byte, and takes eight. The
-- declaration iterator does not move on a declaration with data 0, and there the model hangs. On the specification side a
-- loop over the text has a round for each byte of the file, and each round passes one; the math
-- parser has eight calls for each byte, as at most five stand between two calls that pass one;
-- `coerce` has a call for each coercion, beyond which a pair of sorts comes back. The import graph takes
-- its fuel as an argument, as the files are not known beforehand: two more than the words of the
-- longest text, for each file that there is, are enough.
--
-- Not modelled: the library that reads the command line (src/main.rs), the time in the report, and the
-- `Debug` instances but that of `Type`, whose texts the standard library puts together. Locks and memory
-- order play no part: the threads share atomic counters only. In the state of the
-- machine the arena is the addresses of items and nothing more.
pub mod Prelude
pub mod Util
pub mod Mmb
pub mod Mmz
pub mod Main
pub mod Agreement
pub mod Fs
mod Tests
