-- ===== src/Mmz/Until/Kinds.antt =====
-- src/mmz/parse.rs, `parse_until`: the kind of the declaration against the keyword of the statement.
use second_opinion.Prelude.{
  ℕ, zero, suc, ◌≡◌, refl, ap, ◌∙◌, Option, none, some, Res, ok, err, panic, hang, fun_ext, false,
}
use second_opinion.Util.Stmt.{axiom_stmt, thm}
use second_opinion.Mmz.Mem.{MmzMem}
use second_opinion.Mmz.Monad.{Act, new_state, pure, gets, cur, ◌>>=◌}
use second_opinion.Mmz.Lexer.{skip_ws, peek_word}
use second_opinion.Mmz.Round.{Item, Round, Word, word_of, next_file, parse_round, on_word}
use second_opinion.Mmz.Round as Round
use second_opinion.Mmz.Until.{
  verify1, total_bytes, after_round, verify_item, until_loop, parse_until, item_of, count_declar,
}

on_word-kind :
    (n m : Option ℕ) (item : Item) (w : Word)
    → on_word (axiom_stmt n) item w ≡ on_word (thm m false) item w
unfolding on_word
on_word-kind n m item Round.sort_word = refl
on_word-kind n m item Round.term_word = refl
on_word-kind n m item Round.assert_word = refl
on_word-kind n m item Round.delimiter_word = refl
on_word-kind n m item Round.fix_word = refl
on_word-kind n m item Round.notation_word = refl
on_word-kind n m item Round.coercion_word = refl
on_word-kind n m item Round.import_word = refl
on_word-kind n m item Round.in_out_word = refl
on_word-kind n m item Round.other_word = refl

parse_round-kind :
    (n m : Option ℕ) (item : Item)
    → parse_round (axiom_stmt n) item ≡ parse_round (thm m false) item
unfolding parse_round
parse_round-kind n m item =
    ap
      (λ (f : Word → Act Round). gets cur >>= λ c. elim c [
        | none ↦ pure next_file
        | some _ ↦ skip_ws >>= λ _. peek_word >>= λ word. f (word_of word)
      ])
      (fun_ext (λ w. on_word-kind n m item w))

abbrev Parse : Type 0
Parse = MmzMem → Res (Unit {0}) × MmzMem

until_loop-kind :
    (fuel : ℕ) (n m : Option ℕ) (item : Item)
    → until_loop fuel (axiom_stmt n) item ≡ until_loop fuel (thm m false) item
unfolding until_loop
until_loop-kind zero n m item = refl
until_loop-kind (suc fuel) n m item =
    ap {B = Parse}
      (λ (f : Act Round) (mem : MmzMem).
        after_round (f (new_state mem)) (until_loop fuel (axiom_stmt n) item))
      (parse_round-kind n m item)
    ∙ ap {B = Parse}
        (λ (again : Parse) (mem : MmzMem).
          after_round (parse_round (thm m false) item (new_state mem)) again)
        (until_loop-kind fuel n m item)

verify_item-kind :
    (n k : Option ℕ) (m : MmzMem) (r : Res Item)
    → verify_item (axiom_stmt n) m r ≡ verify_item (thm k false) m r
unfolding verify_item parse_until
verify_item-kind n k m (ok item) =
    ap (λ (f : Parse). f m) (until_loop-kind (suc (total_bytes m.mmz_files)) n k item)
verify_item-kind n k m (err e) = refl
verify_item-kind n k m panic = refl
verify_item-kind n k m hang = refl

count_declar-kind :
    (n k : Option ℕ) (r : Res (Unit {0}) × MmzMem)
    → count_declar (axiom_stmt n) r ≡ count_declar (thm k false) r
unfolding count_declar
count_declar-kind n k (ok a, m) = refl
count_declar-kind n k (err e, m) = refl
count_declar-kind n k (panic, m) = refl
count_declar-kind n k (hang, m) = refl

-- On the side of the specification an axiom and a public theorem of the binary file are the same: `verify1`
-- has the same outcome, and leaves the same state, for either, whether the specification says `axiom` or
-- `theorem`.
pub verify1-kind :
    (n k : Option ℕ) (m : MmzMem) → verify1 (axiom_stmt n) m ≡ verify1 (thm k false) m
unfolding verify1 item_of
verify1-kind n k m =
    count_declar-kind n k (verify_item (axiom_stmt n) m (item_of m (axiom_stmt n)))
    ∙ ap (count_declar (thm k false)) (verify_item-kind n k m (item_of m (axiom_stmt n)))
