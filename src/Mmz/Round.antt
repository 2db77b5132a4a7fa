-- ===== src/Mmz/Round.antt =====
-- src/mmz/mod.rs and src/mmz/parse.rs, a round of `parse_until`: one statement of the specification.
use second_opinion.Prelude.{
  Bool, true, false, ◌||◌, List, [], ◌∷◌, if◌then◌else◌, none, some, msg, unreachable,
}
use second_opinion.Util.Stmt.{StmtCmd, sort_stmt, termdef, axiom_stmt, thm}
use second_opinion.Util.Outline.{Term, Assert}
use second_opinion.Mmz.Data.{Str, str_eq}
use second_opinion.Mmz.Monad.{Act, pure, fail, gets, ensure, cur, ◌>>=◌, ◌>>◌}
use second_opinion.Mmz.Lexer.{skip_ws, peek_word}
use second_opinion.Mmz.Token.{delims}
use second_opinion.Mmz.Notation.{simple_notation}
use second_opinion.Mmz.CoercionStmt.{coercion}
use second_opinion.Mmz.Statement.{
  parse_sort, parse_termdef, parse_assert, parse_import, gen_notation,
}

-- `Option<Either<Term, Assert>>`
pub data Item : Type 0 where
  no_item : Item
  term_item : Term → Item
  assert_item : Assert → Item

-- The arms of the `match` on a word.
pub data Word : Type 0 where
  sort_word term_word assert_word delimiter_word fix_word notation_word coercion_word import_word :
      Word
  in_out_word other_word : Word

-- Whether the word is one of these.
unfoldable pub one_of : Str → List Str → Bool
unfolding str_eq
one_of w [] = false
one_of w (k ∷ ks) = let rest = one_of w ks in str_eq w k || rest

unfoldable pub word_of : Str → Word
unfolding one_of
word_of w =
    if one_of w (
      (112 ∷ 114 ∷ 111 ∷ 118 ∷ 97 ∷ 98 ∷ 108 ∷ 101 ∷ [])
      ∷ (115 ∷ 116 ∷ 114 ∷ 105 ∷ 99 ∷ 116 ∷ [])
      ∷ (102 ∷ 114 ∷ 101 ∷ 101 ∷ [])
      ∷ (112 ∷ 117 ∷ 114 ∷ 101 ∷ [])
      ∷ (115 ∷ 111 ∷ 114 ∷ 116 ∷ [])
      ∷ [])
    then sort_word
    else if one_of w ((116 ∷ 101 ∷ 114 ∷ 109 ∷ []) ∷ (100 ∷ 101 ∷ 102 ∷ []) ∷ [])
    then term_word
    else if one_of w
        ((97 ∷ 120 ∷ 105 ∷ 111 ∷ 109 ∷ []) ∷ (116 ∷ 104 ∷ 101 ∷ 111 ∷ 114 ∷ 101 ∷ 109 ∷ []) ∷ [])
    then assert_word
    else if one_of w ((100 ∷ 101 ∷ 108 ∷ 105 ∷ 109 ∷ 105 ∷ 116 ∷ 101 ∷ 114 ∷ []) ∷ [])
    then delimiter_word
    else if one_of w (
        (112 ∷ 114 ∷ 101 ∷ 102 ∷ 105 ∷ 120 ∷ [])
        ∷ (105 ∷ 110 ∷ 102 ∷ 105 ∷ 120 ∷ 108 ∷ [])
        ∷ (105 ∷ 110 ∷ 102 ∷ 105 ∷ 120 ∷ 114 ∷ [])
        ∷ [])
    then fix_word
    else if one_of w ((110 ∷ 111 ∷ 116 ∷ 97 ∷ 116 ∷ 105 ∷ 111 ∷ 110 ∷ []) ∷ [])
    then notation_word
    else if one_of w ((99 ∷ 111 ∷ 101 ∷ 114 ∷ 99 ∷ 105 ∷ 111 ∷ 110 ∷ []) ∷ [])
    then coercion_word
    else if one_of w ((105 ∷ 109 ∷ 112 ∷ 111 ∷ 114 ∷ 116 ∷ []) ∷ [])
    then import_word
    else if one_of w
        ((105 ∷ 110 ∷ 112 ∷ 117 ∷ 116 ∷ []) ∷ (111 ∷ 117 ∷ 116 ∷ 112 ∷ 117 ∷ 116 ∷ []) ∷ [])
    then in_out_word
    else other_word

abbrev pub is_assert_stmt : StmtCmd → Bool
is_assert_stmt (axiom_stmt n) = true
is_assert_stmt (thm n l) = true
is_assert_stmt (sort_stmt n) = false
is_assert_stmt (termdef n l) = false

-- How a round of the inner loop ends: `return`, the next round, or `break 'inner`.
pub data Round : Type 0 where
  returned next_round next_file : Round

unfoldable pub parse_term_item : Item → Act (Unit {0})
unfolding parse_termdef
parse_term_item (term_item t) = parse_termdef t
parse_term_item (assert_item a) = fail unreachable
parse_term_item no_item = fail unreachable

unfoldable pub parse_assert_item : Item → Act (Unit {0})
unfolding parse_assert
parse_assert_item (assert_item a) = parse_assert a
parse_assert_item (term_item t) = fail unreachable
parse_assert_item no_item = fail unreachable

unfoldable pub on_word : StmtCmd → Item → Word → Act Round
unfolding parse_sort parse_term_item parse_assert_item delims simple_notation gen_notation coercion
    parse_import
on_word stmt item sort_word = parse_sort >>= λ _. pure returned
on_word stmt item term_word = parse_term_item item >>= λ _. pure returned
on_word stmt item assert_word = do
  ensure (is_assert_stmt stmt)
  parse_assert_item item
  pure returned
on_word stmt item delimiter_word = delims >>= λ _. pure next_round
on_word stmt item fix_word = simple_notation >>= λ _. pure next_round
on_word stmt item notation_word = gen_notation >>= λ _. pure next_round
on_word stmt item coercion_word = coercion >>= λ _. pure next_round
on_word stmt item import_word = parse_import >>= λ _. pure next_round
on_word stmt item in_out_word = fail msg
on_word stmt item other_word = pure next_file

-- A round of the inner loop, on a new state.
unfoldable pub parse_round : StmtCmd → Item → Act Round
unfolding skip_ws peek_word word_of on_word
parse_round stmt item = gets cur >>= λ c. elim c [
  | none ↦ pure next_file
  | some _ ↦ (do skip_ws; word ← peek_word; on_word stmt item (word_of word))
]
