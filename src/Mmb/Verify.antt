-- ===== src/Mmb/Verify.antt =====
-- src/mmb/mod.rs: the check of one declaration of the binary file.
use second_opinion.Prelude.{
  ℕ, suc, ◌-◌, ◌==◌, bit_and, Bool, true, false, not, List, [], ◌∷◌, ◌++◌, length, take, snoc, init,
  is_empty, if◌then◌else◌, Res, ok, err, msg, none_err, make_sure, unwrap, unwrap_res, ◌>>=◌, ◌>>◌,
  ◌&&◌,
}
use second_opinion.Util.Ty.{Ty, sort, is_bound, bound_digit, deps, not64, sorts_compatible}
use second_opinion.Util.Stmt.{StmtCmd, sort_stmt, axiom_stmt, termdef, thm}
use second_opinion.Util.Header.{sort_strict}
use second_opinion.Util.Outline.{
  Outline, Counters, Term, Assert, add_declar, get_sort_mods, get_term_by_num, get_assert_by_num,
  is_def, term_args, assert_args, num_args_no_ret, ret,
}
use second_opinion.Mmb.ProofCmd.{ProofIter, is_null, def_mode, thm_mode}
use second_opinion.Mmb.Item.{MmbItem, var, expr, proof, conv, co_conv, get_ty}
use second_opinion.Mmb.State.{MmbState, init_state, take_next_bv}
use second_opinion.Mmb.Unify.{u_def, u_thm_end, pop?, run_unify}
use second_opinion.Mmb.Proof.{run_proof}

-- The check of one argument in the loop of `load_args`.
unfoldable pub load_arg : Outline → Ty → MmbState → Res MmbState
unfolding is_bound sort get_sort_mods take_next_bv bound_digit deps
load_arg o arg s =
    if is_bound arg
    then (do
      mods ← unwrap_res (get_sort_mods o (sort arg))
      make_sure (bit_and mods sort_strict == 0)
      (this_bv, s') ← take_next_bv s
      d ← bound_digit arg
      make_sure (d == this_bv)
      ok s')
    else (do d ← unwrap_res (deps arg); make_sure (0 == bit_and d (not64 (s.next_bv - 1))); ok s)

-- `self.heap.push(self.alloc(..))`
abbrev pub push_arg : ℕ → Ty → MmbState → MmbState
push_arg idx arg s = record s {
  heap = snoc s.heap (expr s.next_addr (var idx arg));
  next_addr = suc s.next_addr;
}

-- The loop of `load_args`, from position `idx` on.
unfoldable pub load_loop : Outline → ℕ → List Ty → MmbState → Res MmbState
unfolding load_arg
load_loop o idx [] s = ok s
load_loop o idx (arg ∷ args) s = do
  s' ← load_arg o arg s
  load_loop o (suc idx) args (push_arg idx arg s')

abbrev pub is_termdef : StmtCmd → Bool
is_termdef (termdef num local) = true
is_termdef (sort_stmt num) = false
is_termdef (axiom_stmt num) = false
is_termdef (thm num local) = false

unfoldable pub load_args : Outline → List Ty → StmtCmd → MmbState → Res MmbState
unfolding load_loop
load_args o args stmt s = do
  make_sure (is_empty s.heap)
  make_sure (s.next_bv == 1)
  s' ← load_loop o 0 args s
  ok (record s' { heap = if is_termdef stmt then init s'.heap else s'.heap })

-- The body of a definition: its value is checked against the return type and the unify stream.
unfoldable pub verify_def : Outline → Term → ProofIter → MmbState → Res MmbState
unfolding run_proof sorts_compatible ret num_args_no_ret run_unify get_ty
verify_def o t pr s0 = do
  s ← run_proof o def_mode pr s0
  (final_val, rest) ← none_err (pop? s.stack)
  tf ← get_ty final_val
  make_sure (is_empty rest)
  rt ← ret t
  make_sure (sorts_compatible tf rt)
  make_sure (is_empty s.uheap)
  n ← num_args_no_ret t
  run_unify u_def t.unify final_val (record s { stack = rest; uheap = s.uheap ++ take n s.heap })

unfoldable pub verify_termdef : Outline → StmtCmd → Term → ProofIter → MmbState → Res MmbState
unfolding load_args term_args is_def verify_def
verify_termdef o stmt t pr s0 = do
  args ← term_args t
  s ← load_args o args stmt s0
  if is_def t then verify_def o t pr s else ok s

-- The statement that the proof of an assertion leaves: a theorem must have proved it.
unfoldable pub final_statement : StmtCmd → MmbItem → Res MmbItem
final_statement (thm num local) (proof p e) = ok e
final_statement (thm num local) (expr p e) = err msg
final_statement (thm num local) (conv p a b) = err msg
final_statement (thm num local) (co_conv p a b) = err msg
final_statement (axiom_stmt num) e = ok e
final_statement (sort_stmt num) e = err msg
final_statement (termdef num local) e = err msg

unfoldable pub verify_assert : Outline → StmtCmd → Assert → ProofIter → MmbState → Res MmbState
unfolding load_args assert_args run_proof final_statement run_unify
verify_assert o stmt a pr s0 = do
  args ← assert_args a
  s1 ← load_args o args stmt s0
  s ← run_proof o thm_mode pr s1
  (val, rest) ← none_err (pop? s.stack)
  final_val ← final_statement stmt val
  make_sure (is_empty rest)
  make_sure (is_empty s.uheap)
  run_unify u_thm_end a.unify final_val
      (record s { stack = rest; uheap = s.uheap ++ take (length args) s.heap })

-- `MmbState::verify1`, without its last line: the state starts empty.
unfoldable pub check_decl : Outline → StmtCmd → ProofIter → Res MmbState
unfolding is_null get_term_by_num get_assert_by_num is_def verify_termdef verify_assert
check_decl o (sort_stmt num) pr = if is_null pr then ok init_state else err msg
check_decl o (termdef num local) pr = do
  n ← unwrap num
  t ← get_term_by_num o n
  if not (is_def t) && not (is_null pr)
      then err msg
      else verify_termdef o (termdef num local) t pr init_state
check_decl o (axiom_stmt num) pr = do
  n ← unwrap num
  a ← get_assert_by_num o n
  verify_assert o (axiom_stmt num) a pr init_state
check_decl o (thm num local) pr = do
  n ← unwrap num
  a ← get_assert_by_num o n
  verify_assert o (thm num local) a pr init_state

-- `verify1`: only a declaration that passes is counted.
unfoldable pub verify1 : Outline → Counters → StmtCmd → ProofIter → Res Counters
unfolding check_decl add_declar
verify1 o c stmt pr = do s ← check_decl o stmt pr; ok (add_declar c stmt)
