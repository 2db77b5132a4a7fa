-- ===== src/Mmz/Until.antt =====
-- src/mmz/mod.rs and src/mmz/parse.rs, `verify1` and `parse_until`: the specification is read up to the
-- statement of the next declaration.
pub mod Kinds
pub mod Reads
use second_opinion.Prelude.{
  ℕ, zero, suc, ◌+◌, Bool, true, false, not, ◌||◌, List, [], ◌∷◌, length, get_elem?, if◌then◌else◌,
  Option, none, some, Res, ok, err, panic, hang, msg, unreachable, none_err, none_err_err, and_then,
  make_sure, is_empty,
}
use second_opinion.Util.Stmt.{StmtCmd, sort_stmt, termdef, axiom_stmt, thm, is_local}
use second_opinion.Util.Outline.{Term, Assert, get_term_by_num, get_assert_by_num}
use second_opinion.Mmz.Data.{Str, str_eq}
use second_opinion.Mmz.Mem.{MmzMem, add_declar}
use second_opinion.Mmz.Monad.{
  MmzState, new_state, Act, pure, lift, fail, gets, ensure, cur, ◌>>=◌, ◌>>◌,
}
use second_opinion.Mmz.Lexer.{skip_ws, peek_word}
use second_opinion.Mmz.Token.{delims}
use second_opinion.Mmz.Notation.{simple_notation}
use second_opinion.Mmz.CoercionStmt.{coercion}
use second_opinion.Mmz.Statement.{
  parse_sort, parse_termdef, parse_assert, parse_import, gen_notation,
}
use second_opinion.Mmz.Round.{
  Item, no_item, term_item, assert_item, Round, returned, next_round, next_file, parse_round,
}

-- `next_mmz_file`: the number and the position change even if there is no next file.
unfoldable pub next_mmz_file : MmzMem → Res (Unit {0}) × MmzMem
next_mmz_file m =
    let m' = record m { mmz_file_num = m.mmz_file_num + 1; mmz_pos = 0 } in
    elim (get_elem? m.mmz_files (m.mmz_file_num + 1)) [
      | none ↦ (err none_err_err, m')
      | some file ↦ (ok tt, record m' { mmz = file })
    ]

-- What follows `next_mmz_file`.
abbrev pub in_next_file :
    Res (Unit {0}) × MmzMem → (MmzMem → Res (Unit {0}) × MmzMem) → Res (Unit {0}) × MmzMem
in_next_file (ok _, m) again = again m
in_next_file (err e, m) again = (err msg, m)
in_next_file (panic, m) again = (panic, m)
in_next_file (hang, m) again = (hang, m)

-- What follows a round. The state goes, and its `mem` stays.
unfoldable pub after_round :
    Res Round × MmzState → (MmzMem → Res (Unit {0}) × MmzMem) → Res (Unit {0}) × MmzMem
unfolding next_mmz_file
after_round (ok returned, s) again = (ok tt, s.mem)
after_round (ok next_round, s) again = again s.mem
after_round (ok next_file, s) again = in_next_file (next_mmz_file s.mem) again
after_round (err e, s) again = (err e, s.mem)
after_round (panic, s) again = (panic, s.mem)
after_round (hang, s) again = (hang, s.mem)

unfoldable pub until_loop : ℕ → StmtCmd → Item → MmzMem → Res (Unit {0}) × MmzMem
unfolding parse_round after_round
until_loop zero stmt item m = (hang, m)
until_loop (suc fuel) stmt item m =
    after_round (parse_round stmt item (new_state m)) (until_loop fuel stmt item)

unfoldable pub total_bytes : List (List ℕ) → ℕ
total_bytes [] = 0
total_bytes (file ∷ files) = suc (length file) + total_bytes files

-- A round ends the loop, passes a byte, or goes to the next file, so the bytes and the number of the
-- files bound the rounds.
unfoldable pub parse_until : StmtCmd → Item → MmzMem → Res (Unit {0}) × MmzMem
unfolding until_loop total_bytes
parse_until stmt item m = until_loop (suc (total_bytes m.mmz_files)) stmt item m

-- The `item` of `verify1`.
unfoldable pub item_of : MmzMem → StmtCmd → Res Item
unfolding get_term_by_num get_assert_by_num
item_of m (sort_stmt n) = ok no_item
item_of m (termdef n l) =
    and_then (get_term_by_num m.outline m.num_termdefs) (λ t. ok (term_item t))
item_of m (axiom_stmt n) =
    and_then (get_assert_by_num m.outline m.num_asserts) (λ a. ok (assert_item a))
item_of m (thm n l) = and_then (get_assert_by_num m.outline m.num_asserts) (λ a. ok (assert_item a))

-- `self.add_declar(stmt)` behind what may have failed.
unfoldable pub count_declar : StmtCmd → Res (Unit {0}) × MmzMem → Res (Unit {0}) × MmzMem
unfolding add_declar
count_declar stmt (ok _, m) = elim (add_declar stmt m) [
  | ok m' ↦ (ok tt, m')
  | err e ↦ (err e, m)
  | panic ↦ (panic, m)
  | hang ↦ (hang, m)
]
count_declar stmt (err e, m) = (err e, m)
count_declar stmt (panic, m) = (panic, m)
count_declar stmt (hang, m) = (hang, m)

unfoldable pub verify_item : StmtCmd → MmzMem → Res Item → Res (Unit {0}) × MmzMem
unfolding parse_until
verify_item stmt m (ok item) = parse_until stmt item m
verify_item stmt m (err e) = (err e, m)
verify_item stmt m panic = (panic, m)
verify_item stmt m hang = (hang, m)

unfoldable pub verify1 : StmtCmd → MmzMem → Res (Unit {0}) × MmzMem
unfolding is_local item_of verify_item count_declar
verify1 stmt m =
    count_declar stmt (if is_local stmt then (ok tt, m) else verify_item stmt m (item_of m stmt))
