-- ===== src/Mmb/Termination/Unify.antt =====
-- src/mmb/unify.rs: how `run_unify` ends.
use second_opinion.Prelude.{ℕ, suc, Bool, List, [], ◌∷◌, length, arith}
use second_opinion.Util.Ty.{Ty}
use second_opinion.Util.Cmd.Loop.{
  Ends, Ends-ne-hang, by_ok, by_err, by_panic, >>=-Ends, ends, for_cmds-Ends,
}
use second_opinion.Util.Cmd.Progress.{try_next_cmd-Ends, try_next_cmd-Advances}
use second_opinion.Util.Outline.Termination.{
  fits-Ends, sub_or_panic-Ends, term_args-Ends, assert_args-Ends, args_no_ret-Ends,
  num_args_no_ret-Ends, ret-Ends, get_sort_mods-Ends, get_term_by_num-Ends, get_assert_by_num-Ends,
}
use second_opinion.Util.Ty.{bound_digit, deps}
use second_opinion.Mmb.UnifyCmd.{UnifyCmd, UnifyIter, unify_try_from, unify_next}
use second_opinion.Mmb.Item.{
  MmbItem, var, app, expr, proof, conv, co_conv, get_ty, low_bits, get_deps, get_bound_digit,
}
use second_opinion.Mmb.State.{MmbState}
use second_opinion.Mmb.Unify.{
  UMode, u_thm, u_def, u_thm_end, unify_ref, unify_term_at, unify_term, fresh_for, unify_dummy_at,
  unify_dummy, proved, unify_hyp, unify_cmd, unify_end, run_unify,
}

unify_try_from-Ends : (cmd d : ℕ) → Ends (unify_try_from cmd d)
unfolding unify_try_from
unify_try_from-Ends cmd d = search ends depth 12

pub get_ty-Ends : (e : MmbItem) → Ends (get_ty e)
unfolding get_ty
get_ty-Ends (expr p e) = by_ok _
get_ty-Ends (proof p e) = by_err _
get_ty-Ends (conv p a b) = by_err _
get_ty-Ends (co_conv p a b) = by_err _

pub bound_digit-Ends : (t : Ty) → Ends (bound_digit t)
unfolding bound_digit
bound_digit-Ends t = search ends

pub deps-Ends : (t : Ty) → Ends (deps t)
unfolding deps
deps-Ends t = search ends

pub get_deps-Ends : (e : MmbItem) → Ends (get_deps e)
unfolding get_deps
get_deps-Ends e = search (ends, get_ty-Ends, deps-Ends)

pub get_bound_digit-Ends : (e : MmbItem) → Ends (get_bound_digit e)
unfolding get_bound_digit
get_bound_digit-Ends e = search (ends, get_ty-Ends, bound_digit-Ends)

pub low_bits-Ends : (e : MmbItem) → Ends (low_bits e)
unfolding low_bits
low_bits-Ends e = search (ends, get_deps-Ends, get_bound_digit-Ends)

unify_ref-Ends : (i : ℕ) (s : MmbState) → Ends (unify_ref i s)
unfolding unify_ref
unify_ref-Ends i s = search ends

unify_term_at-Ends :
    (n : ℕ) (save : Bool) (p : MmbItem) (us : List MmbItem) (s : MmbState)
    → Ends (unify_term_at n save p us s)
unfolding unify_term_at
unify_term_at-Ends n save (expr p (app m xs t)) us s = search ends
unify_term_at-Ends n save (expr p (var i t)) us s = by_err _
unify_term_at-Ends n save (proof p e) us s = by_err _
unify_term_at-Ends n save (conv p a b) us s = by_err _
unify_term_at-Ends n save (co_conv p a b) us s = by_err _

unify_term-Ends : (n : ℕ) (save : Bool) (s : MmbState) → Ends (unify_term n save s)
unfolding unify_term
unify_term-Ends n save s = search (ends, unify_term_at-Ends)

fresh_for-Ends : (d : ℕ) (es : List MmbItem) → Ends (fresh_for d es)
unfolding fresh_for
fresh_for-Ends d [] = by_ok _
fresh_for-Ends d (e ∷ es) = let ih = fresh_for-Ends d es in search (ends, get_ty-Ends, ih)

unify_dummy_at-Ends :
    (n : ℕ) (p : MmbItem) (us : List MmbItem) (s : MmbState) → Ends (unify_dummy_at n p us s)
unfolding unify_dummy_at
unify_dummy_at-Ends n (expr p (var i t)) us s = search (ends, bound_digit-Ends, fresh_for-Ends)
unify_dummy_at-Ends n (expr p (app m xs t)) us s = by_err _
unify_dummy_at-Ends n (proof p e) us s = by_err _
unify_dummy_at-Ends n (conv p a b) us s = by_err _
unify_dummy_at-Ends n (co_conv p a b) us s = by_err _

unify_dummy-Ends : (mode : UMode) (n : ℕ) (s : MmbState) → Ends (unify_dummy mode n s)
unfolding unify_dummy
unify_dummy-Ends mode n s = search (ends, unify_dummy_at-Ends)

pub proved-Ends : (e : MmbItem) → Ends (proved e)
unfolding proved
proved-Ends (expr p e) = by_err _
proved-Ends (proof p e) = by_ok _
proved-Ends (conv p a b) = by_err _
proved-Ends (co_conv p a b) = by_err _

unify_hyp-Ends : (mode : UMode) (s : MmbState) → Ends (unify_hyp mode s)
unfolding unify_hyp
unify_hyp-Ends u_thm s = search (ends, proved-Ends)
unify_hyp-Ends u_thm_end s = search ends
unify_hyp-Ends u_def s = by_err _

unify_cmd-Ends : (mode : UMode) (c : UnifyCmd) (s : MmbState) → Ends (unify_cmd mode c s)
unfolding unify_cmd
unify_cmd-Ends mode (UnifyCmd.ref i) s = unify_ref-Ends i s
unify_cmd-Ends mode (UnifyCmd.term n save) s = unify_term-Ends n save s
unify_cmd-Ends mode (UnifyCmd.dummy n) s = unify_dummy-Ends mode n s
unify_cmd-Ends mode UnifyCmd.hyp s = unify_hyp-Ends mode s

unify_end-Ends : (mode : UMode) (s : MmbState) → Ends (unify_end mode s)
unfolding unify_end
unify_end-Ends u_thm s = search ends
unify_end-Ends u_thm_end s = search ends
unify_end-Ends u_def s = search ends

pub run_unify-Ends :
    (mode : UMode) (unify : UnifyIter) (tgt : MmbItem) (s : MmbState)
    → Ends (run_unify mode unify tgt s)
unfolding run_unify
run_unify-Ends mode unify tgt s =
    >>=-Ends
      (for_cmds-Ends _ (unify_next unify.buf) (unify_cmd mode)
        (try_next_cmd-Advances unify_try_from unify.buf) (unify_cmd-Ends mode)
        (try_next_cmd-Ends unify_try_from unify.buf unify_try_from-Ends) (suc (length unify.buf))
        unify.pos (record s { ustack = tgt ∷ s.ustack }) (omega arith) (omega arith))
      (unify_end-Ends mode)

pub ruleset item_rules = (
  ends, get_ty-Ends, get_deps-Ends, get_bound_digit-Ends, low_bits-Ends, bound_digit-Ends,
  deps-Ends, proved-Ends, fits-Ends, sub_or_panic-Ends, get_sort_mods-Ends,
)
