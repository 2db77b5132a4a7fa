-- ===== src/Mmb/Proof/Build.antt =====
-- src/mmb/proof.rs, `proof_term`: the application of a term to the last elements of the stack, and
-- the computation of its type.
use second_opinion.Prelude.{
  ℕ, suc, ◌+◌, Bool, List, [], ◌∷◌, length, drop, snoc, ltb, if◌then◌else◌, Res, ok, or_res,
  make_sure, sub_or_panic, ◌>>=◌, ◌>>◌,
}
use mathlib.Core.List.{zip}
use second_opinion.Util.Ty.{
  Ty, and_ty, or_ty, not_ty, is_bound, depends_on_, has_deps, new_with_sort, sorts_compatible,
}
use second_opinion.Util.Outline.{
  Outline, Term, get_term_by_num, args_no_ret, num_args_no_ret, term_sort, ret,
}
use second_opinion.Mmb.ProofCmd.{Mode}
use second_opinion.Mmb.Item.{MmbItem, app, expr, from_list, get_ty, get_deps, get_bound_digit}
use second_opinion.Mmb.State.{MmbState, top}
use second_opinion.Mmb.Proof.Vars.{is_def_mode}

-- The digits of the arguments that the signature binds. An error among them counts only where the
-- digit is used.
unfoldable pub stack_bound_by_sig : List (Ty × MmbItem) → List (Res Ty)
unfolding is_bound get_bound_digit
stack_bound_by_sig [] = []
stack_bound_by_sig ((sig, e) ∷ r) =
    let rest = stack_bound_by_sig r in if is_bound sig then get_bound_digit e ∷ rest else rest

unfoldable pub check_sorts : List (Ty × MmbItem) → Res (Unit {0})
unfolding get_ty sorts_compatible
check_sorts [] = ok tt
check_sorts ((sig, e) ∷ r) =
    let rest = check_sorts r in (do t ← get_ty e; make_sure (sorts_compatible t sig); rest)

-- The inner loop over `stack_bound_by_sig`, from index `idx` on.
unfoldable pub remove_deps : Ty → ℕ → List (Res Ty) → Ty → Res Ty
unfolding depends_on_
remove_deps sig idx [] low = ok low
remove_deps sig idx (dep ∷ deps) low = do
  b ← depends_on_ sig (idx + 1)
  low' ← (if b then (do d ← dep; ok (and_ty low (not_ty d))) else ok low)
  remove_deps sig (idx + 1) deps low'

-- `stack_lowbits` of an argument that the signature does not bind.
unfoldable pub arg_lowbits : Mode → List (Res Ty) → Ty → MmbItem → Res Ty
unfolding remove_deps get_deps get_bound_digit
arg_lowbits mode bound sig e = do
  low ← or_res (get_deps e) (get_bound_digit e)
  if is_def_mode mode then remove_deps sig 0 bound low else ok low

unfoldable pub accum_args : Mode → List (Res Ty) → List (Ty × MmbItem) → Ty → Res Ty
unfolding is_bound arg_lowbits
accum_args mode bound [] acc = ok acc
accum_args mode bound ((sig, e) ∷ r) acc = do
  acc' ←
      (if is_bound sig then ok acc else (do low ← arg_lowbits mode bound sig e; ok (or_ty acc low)))
  accum_args mode bound r acc'

-- The loop that adds the dependencies of the return type, from index `idx` on.
unfoldable pub add_ret_deps : Ty → ℕ → List (Res Ty) → Ty → Res Ty
unfolding depends_on_
add_ret_deps rt idx [] acc = ok acc
add_ret_deps rt idx (bvar ∷ bvars) acc = do
  b ← depends_on_ rt (idx + 1)
  acc' ← (if b then (do d ← bvar; ok (or_ty acc d)) else ok acc)
  add_ret_deps rt (idx + 1) bvars acc'

unfoldable pub ret_deps : Mode → Term → List (Res Ty) → Ty → Res Ty
unfolding ret has_deps add_ret_deps
ret_deps mode t bound acc =
    if is_def_mode mode
    then (do rt ← ret t; if has_deps rt then add_ret_deps rt 0 bound acc else ok acc)
    else ok acc

-- The type of `t` applied to `stack_args`.
unfoldable pub app_type : Mode → Term → List MmbItem → Res Ty
unfolding check_sorts accum_args ret_deps stack_bound_by_sig args_no_ret term_sort new_with_sort zip
app_type mode t stack_args = do
  sig_args ← args_no_ret t
  let all_args = zip sig_args stack_args
  let bound = stack_bound_by_sig all_args
  check_sorts all_args
  acc ← accum_args mode bound all_args (new_with_sort (term_sort t))
  ret_deps mode t bound acc

-- The new application on the stack, and on the heap if it is saved.
abbrev pub push_app : ℕ → Bool → Ty → ℕ → MmbState → MmbState
push_app term_num saved t n s =
    let e = expr s.next_addr (app term_num (from_list (top n s.stack)) t) in
    record s {
      stack = e ∷ drop n s.stack;
      heap = if saved then snoc s.heap e else s.heap;
      next_addr = suc s.next_addr;
    }

unfoldable pub proof_term : Outline → Mode → ℕ → Bool → MmbState → Res MmbState
unfolding get_term_by_num num_args_no_ret app_type
proof_term o mode term_num saved s = do
  make_sure (ltb term_num o.header.num_terms)
  termref ← get_term_by_num o term_num
  n ← num_args_no_ret termref
  drain_from ← sub_or_panic (length s.stack) n
  t ← app_type mode termref (top n s.stack)
  ok (push_app term_num saved t n s)
