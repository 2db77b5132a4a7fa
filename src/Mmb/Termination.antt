-- ===== src/Mmb/Termination.antt =====
-- src/mmb/mod.rs and src/mmb/proof.rs: how the check of a declaration ends.
mod Unify
mod Build
mod Vars
use second_opinion.Prelude.{
  ℕ, zero, suc, Bool, true, false, List, [], ◌∷◌, length, Option, none, some, Res, ok, ◌≢◌, hang,
  ◌>>=◌, >>=-eq-ok, ◌≡◌, ap, ◌∙◌, ◌+◌, if◌then◌else◌, arith,
}
use mathlib.Core.List.{zip}
use second_opinion.Util.Ty.{Ty, ty, depends_on_, is_bound, has_deps, and_ty, or_ty, not_ty}
use second_opinion.Util.Stmt.{StmtCmd, sort_stmt, axiom_stmt, termdef, thm}
use second_opinion.Util.Cmd.Loop.{
  Ends, Ends-ne-hang, by_ok, by_err, by_panic, >>=-Ends, if-Ends, or_res-Ends, ends, for_cmds-Ends,
  Advances,
}
use second_opinion.Util.Cmd.Progress.{try_next_cmd-Ends, try_next_cmd-Advances}
use second_opinion.Util.Cmd.{try_next_cmd}
use second_opinion.Util.Outline.{Outline, Counters, Term, Assert, add_declar}
use second_opinion.Util.Outline.Termination.{
  fits-Ends, sub_or_panic-Ends, term_args-Ends, assert_args-Ends, args_no_ret-Ends,
  num_args_no_ret-Ends, ret-Ends, get_sort_mods-Ends, get_term_by_num-Ends, get_assert_by_num-Ends,
}
use Unify.{
  run_unify-Ends, get_ty-Ends, bound_digit-Ends, deps-Ends, get_deps-Ends, get_bound_digit-Ends,
  low_bits-Ends, proved-Ends, item_rules,
}
use second_opinion.Mmb.ProofCmd
use second_opinion.Mmb.ProofCmd.{Mode, ProofCmd, ProofIter, proof_try_from, check_end, proof_next}
use second_opinion.Mmb.Item.{MmbExpr, MmbItem, MmbItems, var, app, expr, proof, conv, co_conv}
use second_opinion.Mmb.State.{MmbState, take_next_bv}
use second_opinion.Mmb.Proof.Vars.{
  proof_ref, proof_dummy, proof_hyp, is_def_mode, save_item, proof_save,
}
use second_opinion.Mmb.Proof.Build.{
  stack_bound_by_sig, check_sorts, remove_deps, arg_lowbits, accum_args, add_ret_deps, ret_deps,
  app_type, proof_term,
}
use second_opinion.Mmb.Proof.Apply.{
  disjoint_before, check_bound, check_dep, check_deps, check_unbound, proof_thm, app_parts,
  co_conv_parts, proof_unfold,
}
use second_opinion.Mmb.Proof.Conv.{
  proof_conv, proof_refl, proof_sym, cong_at, proof_cong, proof_conv_cut, conv_ref_at,
  proof_conv_ref, proof_conv_save,
}
use Vars.{
  take_next_bv-Ends, proof_ref-Ends, proof_dummy-Ends, proof_hyp-Ends, proof_save-Ends,
  proof_thm-Ends, proof_unfold-Ends, proof_conv-Ends, proof_refl-Ends, proof_sym-Ends,
  proof_cong-Ends, proof_conv_cut-Ends, proof_conv_ref-Ends, proof_conv_save-Ends,
}
use Build.{proof_term-Ends}
use second_opinion.Mmb.Proof.{proof_cmd, run_proof}
use second_opinion.Mmb.Verify.{
  push_arg, load_arg, load_loop, load_args, verify_def, verify_termdef, final_statement,
  verify_assert, check_decl, verify1,
}

proof_try_from-Ends : (cmd d : ℕ) → Ends (proof_try_from cmd d)
unfolding proof_try_from
proof_try_from-Ends cmd d = search ends depth 24

check_end-Ends : (ends_at pos : ℕ) (c : Option (ProofCmd × ℕ)) → Ends (check_end ends_at pos c)
check_end-Ends ends_at pos none = search ends
check_end-Ends ends_at pos (some c) = by_ok _

proof_next-Ends : (buf : List ℕ) (ends_at pos : ℕ) → Ends (proof_next buf ends_at pos)
unfolding proof_next
proof_next-Ends buf ends_at pos =
    >>=-Ends (try_next_cmd-Ends proof_try_from buf proof_try_from-Ends pos)
      (check_end-Ends ends_at pos)

check_end-eq-some :
    (ends_at pos : ℕ) (o : Option (ProofCmd × ℕ)) {c : ProofCmd} {q : ℕ}
    → check_end ends_at pos o ≡ ok (some (c, q))
    → o ≡ some (c, q)
check_end-eq-some ends_at pos none e = ground arith
check_end-eq-some ends_at pos (some d) e = ground arith

proof_next-Advances : (buf : List ℕ) (ends_at : ℕ) → Advances (length buf) (proof_next buf ends_at)
unfolding proof_next
proof_next-Advances buf ends_at pos q c e =
    let (o, e1, e2) = >>=-eq-ok (try_next_cmd proof_try_from buf pos) _ e in
    try_next_cmd-Advances proof_try_from buf pos q c
      (e1 ∙ ap ok (check_end-eq-some ends_at pos o e2))

proof_cmd-Ends :
    (o : Outline) (mode : Mode) (c : ProofCmd) (s : MmbState) → Ends (proof_cmd o mode c s)
unfolding proof_cmd
proof_cmd-Ends o mode (ProofCmd.ref i) s = proof_ref-Ends i s
proof_cmd-Ends o mode (ProofCmd.dummy n) s = proof_dummy-Ends o n s
proof_cmd-Ends o mode (ProofCmd.term n saved) s = proof_term-Ends o mode n saved s
proof_cmd-Ends o mode (ProofCmd.thm n saved) s = proof_thm-Ends o n saved s
proof_cmd-Ends o mode ProofCmd.hyp s = proof_hyp-Ends o mode s
proof_cmd-Ends o mode ProofCmd.conv s = proof_conv-Ends s
proof_cmd-Ends o mode ProofCmd.refl_cmd s = proof_refl-Ends s
proof_cmd-Ends o mode ProofCmd.sym_cmd s = proof_sym-Ends s
proof_cmd-Ends o mode ProofCmd.cong s = proof_cong-Ends s
proof_cmd-Ends o mode ProofCmd.unfold_cmd s = proof_unfold-Ends o s
proof_cmd-Ends o mode ProofCmd.conv_cut s = proof_conv_cut-Ends s
proof_cmd-Ends o mode (ProofCmd.conv_ref i) s = proof_conv_ref-Ends i s
proof_cmd-Ends o mode ProofCmd.conv_save s = proof_conv_save-Ends s
proof_cmd-Ends o mode ProofCmd.save s = proof_save-Ends s

run_proof-Ends :
    (o : Outline) (mode : Mode) (pr : ProofIter) (s : MmbState) → Ends (run_proof o mode pr s)
unfolding run_proof
run_proof-Ends o mode pr s =
    for_cmds-Ends (length pr.buf) (proof_next pr.buf pr.ends_at) (proof_cmd o mode)
      (proof_next-Advances pr.buf pr.ends_at) (proof_cmd-Ends o mode)
      (proof_next-Ends pr.buf pr.ends_at) (suc (length pr.buf)) pr.pos s (omega arith) (omega arith)

load_arg-Ends : (o : Outline) (arg : Ty) (s : MmbState) → Ends (load_arg o arg s)
unfolding load_arg
load_arg-Ends o arg s = search (item_rules, take_next_bv-Ends) depth 12

load_loop-Ends :
    (o : Outline) (idx : ℕ) (args : List Ty) (s : MmbState) → Ends (load_loop o idx args s)
unfolding load_loop
load_loop-Ends o idx [] s = by_ok s
load_loop-Ends o idx (arg ∷ args) s =
    >>=-Ends (load_arg-Ends o arg s) (λ s'. load_loop-Ends o (suc idx) args (push_arg idx arg s'))

load_args-Ends :
    (o : Outline) (args : List Ty) (stmt : StmtCmd) (s : MmbState) → Ends (load_args o args stmt s)
unfolding load_args
load_args-Ends o args stmt s = search (ends, load_loop-Ends) depth 9

verify_def-Ends :
    (o : Outline) (t : Term) (pr : ProofIter) (s : MmbState) → Ends (verify_def o t pr s)
unfolding verify_def
verify_def-Ends o t pr s =
    search (item_rules, run_proof-Ends, ret-Ends, num_args_no_ret-Ends, run_unify-Ends) depth 14

verify_termdef-Ends :
    (o : Outline) (stmt : StmtCmd) (t : Term) (pr : ProofIter) (s : MmbState)
    → Ends (verify_termdef o stmt t pr s)
unfolding verify_termdef
verify_termdef-Ends o stmt t pr s =
    search (ends, term_args-Ends, load_args-Ends, verify_def-Ends) depth 9

final_statement-Ends : (stmt : StmtCmd) (e : MmbItem) → Ends (final_statement stmt e)
unfolding final_statement
final_statement-Ends (thm num local) (proof p e) = by_ok e
final_statement-Ends (thm num local) (expr p e) = by_err _
final_statement-Ends (thm num local) (conv p a b) = by_err _
final_statement-Ends (thm num local) (co_conv p a b) = by_err _
final_statement-Ends (axiom_stmt num) e = by_ok e
final_statement-Ends (sort_stmt num) e = by_err _
final_statement-Ends (termdef num local) e = by_err _

verify_assert-Ends :
    (o : Outline) (stmt : StmtCmd) (a : Assert) (pr : ProofIter) (s : MmbState)
    → Ends (verify_assert o stmt a pr s)
unfolding verify_assert
verify_assert-Ends o stmt a pr s =
    search
      (ends, assert_args-Ends, load_args-Ends, run_proof-Ends, final_statement-Ends, run_unify-Ends)
      depth 14

check_decl-Ends : (o : Outline) (stmt : StmtCmd) (pr : ProofIter) → Ends (check_decl o stmt pr)
unfolding check_decl
check_decl-Ends o (sort_stmt num) pr = search ends
check_decl-Ends o (termdef num local) pr =
    search (ends, get_term_by_num-Ends, verify_termdef-Ends) depth 9
check_decl-Ends o (axiom_stmt num) pr =
    search (ends, get_assert_by_num-Ends, verify_assert-Ends) depth 9
check_decl-Ends o (thm num local) pr =
    search (ends, get_assert_by_num-Ends, verify_assert-Ends) depth 9

-- Checking a declaration ends, on every file and for every declaration, well formed or not: the
-- fuel of no loop of the checker (proof streams, unify streams, argument lists) is used up.
pub verify1-ne-hang :
    (o : Outline) (c : Counters) (stmt : StmtCmd) (pr : ProofIter) → verify1 o c stmt pr ≢ hang
unfolding verify1
verify1-ne-hang o c stmt pr =
    Ends-ne-hang (>>=-Ends (check_decl-Ends o stmt pr) (λ s. by_ok (add_declar c stmt)))
