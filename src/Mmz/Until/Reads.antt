-- ===== src/Mmz/Until/Reads.antt =====
-- src/mmz/parse.rs, `parse_until`: what has been read of the specification when it returns without an error.
use second_opinion.Prelude.{
  ℕ, zero, suc, true, false, ◌≡◌, refl, ap, ◌∙◌, subst, Option, none, some, if◌then◌else◌, Res, ok,
  err, panic, hang, Bool-cases, inl, inr,
}
use second_opinion.Util.Stmt.{StmtCmd, is_local}
use second_opinion.Util.Outline.{Term, Assert}
use second_opinion.Mmz.Data.{Str}
use second_opinion.Mmz.Mem.{MmzMem, add_declar}
use second_opinion.Mmz.Monad.{MmzState, Act, new_state, pure, ensure, after, cur, ◌>>=◌, ◌>>◌}
use second_opinion.Mmz.Lexer.{skip_ws, peek_word}
use second_opinion.Mmz.Token.{delims}
use second_opinion.Mmz.Notation.{simple_notation}
use second_opinion.Mmz.CoercionStmt.{coercion}
use second_opinion.Mmz.Statement.{
  parse_sort, parse_termdef, parse_assert, parse_import, gen_notation,
}
use second_opinion.Mmz.Round as Round
use second_opinion.Mmz.Round.{
  Item, no_item, term_item, assert_item, Word, Round, returned, next_round, next_file, word_of,
  is_assert_stmt, on_word, parse_term_item, parse_assert_item, parse_round,
}
use second_opinion.Mmz.Until.{
  next_mmz_file, in_next_file, after_round, until_loop, parse_until, total_bytes, item_of,
  verify_item, count_declar, verify1,
}

-- The statement that ends the reading, by its first word: a sort, or the term or the assertion of the
-- declaration.
pub data Stops (stmt : StmtCmd) (item : Item) (s s' : MmzState) : Word → Type 0 where
  a_sort : parse_sort s ≡ (ok tt, s') → Stops stmt item s s' Round.sort_word
  a_term :
      (t : Term)
      → item ≡ term_item t
      → parse_termdef t s ≡ (ok tt, s')
      → Stops stmt item s s' Round.term_word
  an_assert :
      (a : Assert)
      → item ≡ assert_item a
      → is_assert_stmt stmt ≡ true
      → parse_assert a s ≡ (ok tt, s')
      → Stops stmt item s s' Round.assert_word

-- Rounds that read other statements or go to the next file, and then the statement that ends the
-- reading.
pub data Reads (stmt : StmtCmd) (item : Item) : MmzMem → MmzMem → Type 0 where
  stops :
      {m : MmzMem} {s s' : MmzState} (w : Str)
      → (skip_ws >> peek_word) (new_state m) ≡ (ok w, s)
      → Stops stmt item s s' (word_of w)
      → Reads stmt item m s'.mem
  another :
      {m m' : MmzMem} {s : MmzState}
      → parse_round stmt item (new_state m) ≡ (ok next_round, s)
      → Reads stmt item s.mem m'
      → Reads stmt item m m'
  other_file :
      {m m1 m' : MmzMem} {s : MmzState}
      → parse_round stmt item (new_state m) ≡ (ok next_file, s)
      → next_mmz_file s.mem ≡ (ok tt, m1)
      → Reads stmt item m1 m'
      → Reads stmt item m m'

after-eq-ok :
    {A B : Type 0} (r : Res A × MmzState) (f : A → Act B) {b : B} {s' : MmzState}
    → after r.0 r.1 f ≡ (ok b, s')
    → (a : A) × (s : MmzState) × (r ≡ (ok a, s)) × (f a s ≡ (ok b, s'))
after-eq-ok (ok a, s) f e = (a, s, refl, e)
after-eq-ok (err x, s) f e = cc
after-eq-ok (panic, s) f e = cc
after-eq-ok (hang, s) f e = cc

-- A round that returns behind an action.
then_returned :
    (r : Res (Unit {0}) × MmzState) {s' : MmzState}
    → after r.0 r.1 (λ _. pure returned) ≡ (ok returned, s')
    → r ≡ (ok tt, s')
then_returned (ok u, s) e = cc
then_returned (err x, s) e = cc
then_returned (panic, s) e = cc
then_returned (hang, s) e = cc

-- Other rounds do not return.
not_returned :
    (r : Res (Unit {0}) × MmzState) {s' : MmzState} {k : Round}
    → ¬ (k ≡ returned)
    → ¬ (after r.0 r.1 (λ _. pure k) ≡ (ok returned, s'))
not_returned (ok u, s) n e = n (cc)
not_returned (err x, s) n e = cc
not_returned (panic, s) n e = cc
not_returned (hang, s) n e = cc

term_item-read :
    (item : Item) (s s' : MmzState)
    → parse_term_item item s ≡ (ok tt, s')
    → (t : Term) × (item ≡ term_item t) × (parse_termdef t s ≡ (ok tt, s'))
unfolding parse_term_item
term_item-read (term_item t) s s' e = (t, refl, e)
term_item-read (assert_item a) s s' e = cc
term_item-read no_item s s' e = cc

assert_item-read :
    (item : Item) (s s' : MmzState)
    → parse_assert_item item s ≡ (ok tt, s')
    → (a : Assert) × (item ≡ assert_item a) × (parse_assert a s ≡ (ok tt, s'))
unfolding parse_assert_item
assert_item-read (assert_item a) s s' e = (a, refl, e)
assert_item-read (term_item t) s s' e = cc
assert_item-read no_item s s' e = cc

next≢returned : ¬ (next_round ≡ returned)
next≢returned e = cc

on_word-Stops :
    (stmt : StmtCmd) (item : Item) (w : Word) (s s' : MmzState)
    → on_word stmt item w s ≡ (ok returned, s')
    → Stops stmt item s s' w
unfolding on_word
on_word-Stops stmt item Round.sort_word s s' e = a_sort (then_returned (parse_sort s) e)
on_word-Stops stmt item Round.term_word s s' e =
    let (t, same, read) = term_item-read item s s' (then_returned (parse_term_item item s) e) in
    a_term t same read
on_word-Stops stmt item Round.assert_word s s' e = elim (Bool-cases (is_assert_stmt stmt)) [
  | inl kind ↦
      let e1 : (parse_assert_item item >>= λ _. pure returned) s ≡ (ok returned, s') =
        rw kind at e in
      let (a, same, read) =
        assert_item-read item s s' (then_returned (parse_assert_item item s) e1) in
      an_assert a same kind read
  | inr kind ↦ absurd (failed (rw kind at e))
]
  where
    failed :
        ¬ ((ensure false >> (parse_assert_item item >>= λ _. pure returned)) s ≡ (ok returned, s'))
    failed h = cc
on_word-Stops stmt item Round.delimiter_word s s' e =
    absurd (not_returned (delims s) next≢returned e)
on_word-Stops stmt item Round.fix_word s s' e =
    absurd (not_returned (simple_notation s) next≢returned e)
on_word-Stops stmt item Round.notation_word s s' e =
    absurd (not_returned (gen_notation s) next≢returned e)
on_word-Stops stmt item Round.coercion_word s s' e =
    absurd (not_returned (coercion s) next≢returned e)
on_word-Stops stmt item Round.import_word s s' e =
    absurd (not_returned (parse_import s) next≢returned e)
on_word-Stops stmt item Round.in_out_word s s' e = cc
on_word-Stops stmt item Round.other_word s s' e = cc

-- What a round does at the character that it finds.
abbrev at_char : StmtCmd → Item → Option ℕ → Act Round
at_char stmt item c = elim c [
  | none ↦ pure next_file
  | some _ ↦ (do skip_ws; word ← peek_word; on_word stmt item (word_of word))
]

-- A round that returns has read a statement.
round-Reads :
    (stmt : StmtCmd) (item : Item) (m : MmzMem) (s' : MmzState) (c : Option ℕ)
    → at_char stmt item c (new_state m) ≡ (ok returned, s')
    → Reads stmt item m s'.mem
round-Reads stmt item m s' none e = cc
round-Reads stmt item m s' (some c) e =
    let (u, s1, e1, e2) = after-eq-ok (skip_ws (new_state m)) _ e in
    let (w, s2, e3, e4) = after-eq-ok (peek_word s1) _ e2 in
    stops w (ap (λ (r : Res (Unit {0}) × MmzState). after r.0 r.1 (λ _. peek_word)) e1 ∙ e3)
      (on_word-Stops stmt item (word_of w) s2 s' e4)

until_loop-Reads :
    (fuel : ℕ) (stmt : StmtCmd) (item : Item) (m m' : MmzMem)
    → until_loop fuel stmt item m ≡ (ok tt, m')
    → Reads stmt item m m'
unfolding until_loop after_round parse_round
until_loop-Reads zero stmt item m m' e = cc
until_loop-Reads (suc fuel) stmt item m m' e =
    go (parse_round stmt item (new_state m)) refl e (λ m1. until_loop-Reads fuel stmt item m1 m')
  where
    in_file :
        (s : MmzState) (r : Res (Unit {0}) × MmzMem)
        → parse_round stmt item (new_state m) ≡ (ok next_file, s)
        → next_mmz_file s.mem ≡ r
        → in_next_file r (until_loop fuel stmt item) ≡ (ok tt, m')
        → ((m1 : MmzMem) → until_loop fuel stmt item m1 ≡ (ok tt, m') → Reads stmt item m1 m')
        → Reads stmt item m m'
    in_file s (ok u, m1) round file f again = other_file round file (again m1 f)
    in_file s (err x, m1) round file f again = cc
    in_file s (panic, m1) round file f again = cc
    in_file s (hang, m1) round file f again = cc

    go :
        (r : Res Round × MmzState)
        → parse_round stmt item (new_state m) ≡ r
        → after_round r (until_loop fuel stmt item) ≡ (ok tt, m')
        → ((m1 : MmzMem) → until_loop fuel stmt item m1 ≡ (ok tt, m') → Reads stmt item m1 m')
        → Reads stmt item m m'
    go (ok returned, s) round f again =
        subst (Reads stmt item m) (ap (λ (r : Res (Unit {0}) × MmzMem). r.1) f)
          (round-Reads stmt item m s (cur (new_state m)) round)
    go (ok next_round, s) round f again = another round (again s.mem f)
    go (ok next_file, s) round f again = in_file s (next_mmz_file s.mem) round refl f again
    go (err x, s) round f again = cc
    go (panic, s) round f again = cc
    go (hang, s) round f again = cc

-- What it takes for the specification to accept a declaration, which is then counted: a local one
-- needs nothing, and for any other a statement is read.
pub data Admits (stmt : StmtCmd) (m m' : MmzMem) : Type 0 where
  unread : is_local stmt ≡ true → add_declar stmt m ≡ ok m' → Admits stmt m m'
  stated :
      {m1 : MmzMem} (item : Item)
      → is_local stmt ≡ false
      → item_of m stmt ≡ ok item
      → Reads stmt item m m1
      → add_declar stmt m1 ≡ ok m'
      → Admits stmt m m'

abbrev counting : MmzMem → Res MmzMem → Res (Unit {0}) × MmzMem
counting m1 a = elim a [
  | ok m2 ↦ (ok tt, m2)
  | err x ↦ (err x, m1)
  | panic ↦ (panic, m1)
  | hang ↦ (hang, m1)
]

counted_parts :
    (stmt : StmtCmd) (r : Res (Unit {0}) × MmzMem) (m' : MmzMem)
    → count_declar stmt r ≡ (ok tt, m')
    → (m1 : MmzMem) × (r ≡ (ok tt, m1)) × (add_declar stmt m1 ≡ ok m')
unfolding count_declar
counted_parts stmt (ok u, m1) m' e = (m1, refl, go (add_declar stmt m1) refl e)
  where
    go :
        (a : Res MmzMem)
        → add_declar stmt m1 ≡ a
        → counting m1 a ≡ (ok tt, m')
        → add_declar stmt m1 ≡ ok m'
    go (ok m2) same f = cc
    go (err x) same f = cc
    go panic same f = cc
    go hang same f = cc
counted_parts stmt (err x, m1) m' e = cc
counted_parts stmt (panic, m1) m' e = cc
counted_parts stmt (hang, m1) m' e = cc

verify_item-Reads :
    (stmt : StmtCmd) (m m1 : MmzMem) (r : Res Item)
    → verify_item stmt m r ≡ (ok tt, m1)
    → (item : Item) × (r ≡ ok item) × Reads stmt item m m1
unfolding verify_item parse_until
verify_item-Reads stmt m m1 (ok item) e =
    (item, refl, until_loop-Reads (suc (total_bytes m.mmz_files)) stmt item m m1 e)
verify_item-Reads stmt m m1 (err x) e = cc
verify_item-Reads stmt m m1 panic e = cc
verify_item-Reads stmt m m1 hang e = cc

pub verify1-Admits :
    (stmt : StmtCmd) (m m' : MmzMem) → verify1 stmt m ≡ (ok tt, m') → Admits stmt m m'
unfolding verify1
verify1-Admits stmt m m' e =
    let (m1, e1, e2) =
      counted_parts stmt (if is_local stmt then (ok tt, m) else verify_item stmt m (item_of m stmt))
        m' e in
    elim (Bool-cases (is_local stmt)) [
      | inl here ↦
          let same : m ≡ m1 = ap (λ (r : Res (Unit {0}) × MmzMem). r.1) (rw here at e1) in
          unread here (rw same e2)
      | inr public ↦
          let (item, e3, reads) = verify_item-Reads stmt m m1 (item_of m stmt) (rw public at e1) in
          stated item public e3 reads e2
    ]
