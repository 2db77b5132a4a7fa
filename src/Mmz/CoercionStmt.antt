-- ===== src/Mmz/CoercionStmt.antt =====
-- src/mmz/parse.rs: the `coercion` statement.
use second_opinion.Prelude.{ℕ, not, [], ◌∷◌, ◌==◌, none_err_err, assert}
use second_opinion.Util.Outline.{Term, num_args_no_ret}
use second_opinion.Mmz.Mem.{get_term_by_ident, get_sort_num}
use second_opinion.Mmz.Monad.{Act, lift, fail, gets, modify, localize, on_mem, when, ◌>>=◌, ◌>>◌}
use second_opinion.Mmz.Lexer.{guard, kw, ident}
use second_opinion.Mmz.Coercion.{add_coe_raw, update_provs}

-- What `add_coe_raw` has written stays when it fails.
unfoldable pub add_coe : ℕ → ℕ → ℕ → Act (Unit {0})
unfolding add_coe_raw update_provs
add_coe term_num from to = do
  r ← gets (λ s. add_coe_raw term_num from to s.mem.coes)
  modify (λ s. record s { mem = record s.mem { coes = r.1 } })
  lift r.0
  on_mem update_provs

unfoldable pub elab_coe : Term → ℕ → ℕ → Act (Unit {0})
unfolding num_args_no_ret add_coe
elab_coe term from to = do
  n ← lift (num_args_no_ret term)
  lift (assert (n == 1))
  add_coe term.term_num from to

unfoldable pub coercion : Act (Unit {0})
unfolding kw ident guard get_term_by_ident get_sort_num elab_coe
coercion = do
  found ← kw (99 ∷ 111 ∷ 101 ∷ 114 ∷ 99 ∷ 105 ∷ 111 ∷ 110 ∷ 32 ∷ [])
  when (not found) (fail none_err_err)
  name ← ident
  localize (guard 58)
  from ← ident
  localize (guard 62)
  to ← ident
  localize (guard 59)
  mem ← gets (λ s. s.mem)
  term ← lift (get_term_by_ident mem name)
  from_num ← lift (get_sort_num mem from)
  to_num ← lift (get_sort_num mem to)
  elab_coe term from_num to_num
