-- ===== src/Mmz/Check.antt =====
-- src/mmz/parse.rs, `check_expr`: an expression of the specification against a unify stream of the
-- binary file. It leaves the persistent state alone, and whoever calls it drops the rest of the state
-- on an error, so the outcome is a plain `Res`.
pub mod Machine
use second_opinion.Prelude.{
  ℕ, suc, Bool, true, false, not, List, [], ◌∷◌, ◌++◌, length, map, get_elem?, snoc, ◌==◌,
  if◌then◌else◌, Res, ok, err, msg, make_sure, none_err, unwrap, localize, ◌>>=◌, ◌>>◌,
}
use second_opinion.Util.Ty.{sort}
use second_opinion.Util.Cmd.{for_cmds}
use second_opinion.Mmb.UnifyCmd.{UnifyCmd, UnifyIter, term, ref, dummy, hyp, unify_next}
use second_opinion.Mmb.Unify.{UMode, pop?, is_u_def}
use second_opinion.Mmz.Data.{MmzExpr, var, app, expr_list, mmz_eq}
use second_opinion.Mmz.Monad.{MmzState, Act, changed_state, non_dummy_vars}

unfoldable pub check_ref : ℕ → MmzState → Res MmzState
unfolding mmz_eq
check_ref i s = do
  heap_elem ← unwrap (get_elem? s.uheap i)
  (stack_elem, rest) ← none_err (pop? s.ustack)
  if mmz_eq heap_elem stack_elem then ok (record s { ustack = rest }) else err msg

-- The branch of `UnifyCmd::Term` on the popped element; `us` is the stack below it.
unfoldable pub check_term_at : ℕ → Bool → MmzExpr → List MmzExpr → MmzState → Res MmzState
check_term_at term_num save (app n2 num_args args t) us s = do
  make_sure (term_num == n2)
  ok (record s {
    ustack = expr_list args ++ us;
    uheap = if save then snoc s.uheap (app n2 num_args args t) else s.uheap;
  })
check_term_at term_num save (var v) us s = err msg

unfoldable pub check_term : ℕ → Bool → MmzState → Res MmzState
unfolding check_term_at
check_term term_num save s = do
  (p, us) ← none_err (pop? s.ustack)
  check_term_at term_num save p us s

unfoldable pub check_dummy_at : ℕ → MmzExpr → List MmzExpr → MmzState → Res MmzState
unfolding sort
check_dummy_at sort_id (var v) us s = do
  make_sure (sort_id == sort v.ty)
  make_sure v.is_dummy
  ok (record s { ustack = us; uheap = snoc s.uheap (var v) })
check_dummy_at sort_id (app n k args t) us s = localize (err msg)

unfoldable pub check_dummy : UMode → ℕ → MmzState → Res MmzState
unfolding is_u_def check_dummy_at
check_dummy mode sort_id s = do
  make_sure (is_u_def mode)
  (p, us) ← none_err (pop? s.ustack)
  check_dummy_at sort_id p us s

unfoldable pub check_hyp : MmzState → Res MmzState
check_hyp s = do
  (h, rest) ← none_err (pop? s.hyps)
  ok (record s { hyps = rest; ustack = h.expr ∷ s.ustack })

unfoldable pub check_cmd : UMode → UnifyCmd → MmzState → Res MmzState
unfolding check_ref check_term check_dummy check_hyp
check_cmd mode (ref i) s = check_ref i s
check_cmd mode (term term_num save) s = check_term term_num save s
check_cmd mode (dummy sort_id) s = check_dummy mode sort_id s
check_cmd mode hyp s = check_hyp s

-- The target on the stack, and the variables that are no dummies at the end of the heap.
unfoldable pub check_start : MmzExpr → MmzState → MmzState
unfolding non_dummy_vars
check_start tgt s = record s {
  ustack = tgt ∷ s.ustack;
  uheap = s.uheap ++ map (λ v. var v) (non_dummy_vars s);
}

-- Each command takes a byte at least, so the length of the file is fuel enough.
unfoldable pub check_expr : UnifyIter → MmzExpr → UMode → MmzState → Res MmzState
unfolding check_start unify_next for_cmds check_cmd
check_expr u tgt mode s = do
  s' ← for_cmds (unify_next u.buf) (check_cmd mode) (suc (length u.buf)) u.pos (check_start tgt s)
  ok (record s' { uheap = [] })

-- `check_expr` as an action.
unfoldable pub check : UnifyIter → MmzExpr → UMode → Act (Unit {0})
unfolding check_expr
check u tgt mode s = changed_state (check_expr u tgt mode s) s
