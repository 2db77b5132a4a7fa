-- ===== src/Mmb/Termination/Build.antt =====
-- src/mmb/proof.rs: how `proof_term` ends.
use second_opinion.Prelude.{ℕ, zero, suc, Bool, true, false, List, [], ◌∷◌, Res, ◌+◌, if◌then◌else◌}
use mathlib.Core.List.{zip}
use second_opinion.Util.Ty.{Ty, depends_on_, is_bound, has_deps, and_ty, or_ty, not_ty}
use second_opinion.Util.Cmd.Loop.{Ends, by_ok, by_panic, >>=-Ends, if-Ends, or_res-Ends}
use second_opinion.Util.Outline.{Outline, Term}
use second_opinion.Util.Outline.Termination.{
  args_no_ret-Ends, num_args_no_ret-Ends, ret-Ends, get_term_by_num-Ends,
}
use second_opinion.Mmb.Termination.Unify.{get_deps-Ends, get_bound_digit-Ends, item_rules}
use second_opinion.Mmb.ProofCmd.{Mode}
use second_opinion.Mmb.Item.{MmbItem}
use second_opinion.Mmb.State.{MmbState}
use second_opinion.Mmb.Proof.Vars.{is_def_mode}
use second_opinion.Mmb.Proof.Build.{
  stack_bound_by_sig, check_sorts, remove_deps, arg_lowbits, accum_args, add_ret_deps, ret_deps,
  app_type, proof_term,
}

depends_on_-Ends : (t : Ty) (j : ℕ) → Ends (depends_on_ t j)
unfolding depends_on_
depends_on_-Ends t zero = by_panic
depends_on_-Ends t (suc j) = search item_rules

check_sorts-Ends : (l : List (Ty × MmbItem)) → Ends (check_sorts l)
unfolding check_sorts
check_sorts-Ends [] = by_ok _
check_sorts-Ends ((sig, e) ∷ r) = let ih = check_sorts-Ends r in search (item_rules, ih)

-- What a list of results holds has ended.
data AllEnd : List (Res Ty) → Type 0 where
  none_left : AllEnd []
  one_more : {r : Res Ty} {rs : List (Res Ty)} → Ends r → AllEnd rs → AllEnd (r ∷ rs)

remove_deps-Ends :
    (sig : Ty) (idx : ℕ) (rs : List (Res Ty)) (low : Ty)
    → AllEnd rs
    → Ends (remove_deps sig idx rs low)
unfolding remove_deps
remove_deps-Ends sig idx [] low h = by_ok low
remove_deps-Ends sig idx (r ∷ rs) low (one_more h hs) =
    >>=-Ends (depends_on_-Ends sig (idx + 1)) (λ b.
      >>=-Ends (if-Ends b (>>=-Ends h (λ d. by_ok (and_ty low (not_ty d)))) (by_ok low))
        (λ low'. remove_deps-Ends sig (idx + 1) rs low' hs))

add_ret_deps-Ends :
    (rt : Ty) (idx : ℕ) (rs : List (Res Ty)) (acc : Ty)
    → AllEnd rs
    → Ends (add_ret_deps rt idx rs acc)
unfolding add_ret_deps
add_ret_deps-Ends rt idx [] acc h = by_ok acc
add_ret_deps-Ends rt idx (r ∷ rs) acc (one_more h hs) =
    >>=-Ends (depends_on_-Ends rt (idx + 1)) (λ b.
      >>=-Ends (if-Ends b (>>=-Ends h (λ d. by_ok (or_ty acc d))) (by_ok acc))
        (λ acc'. add_ret_deps-Ends rt (idx + 1) rs acc' hs))

stack_bound_by_sig-AllEnd : (l : List (Ty × MmbItem)) → AllEnd (stack_bound_by_sig l)
unfolding stack_bound_by_sig
stack_bound_by_sig-AllEnd [] = none_left
stack_bound_by_sig-AllEnd ((sig, e) ∷ r) =
    cond_AllEnd (is_bound sig) (get_bound_digit-Ends e) (stack_bound_by_sig-AllEnd r)
  where
    cond_AllEnd :
        (b : Bool) {x : Res Ty} {xs : List (Res Ty)}
        → Ends x
        → AllEnd xs
        → AllEnd (if b then x ∷ xs else xs)
    cond_AllEnd true h hs = one_more h hs
    cond_AllEnd false h hs = hs

arg_lowbits-Ends :
    (mode : Mode) (bound : List (Res Ty)) (sig : Ty) (e : MmbItem)
    → AllEnd bound
    → Ends (arg_lowbits mode bound sig e)
unfolding arg_lowbits
arg_lowbits-Ends mode bound sig e h =
    >>=-Ends (or_res-Ends (get_deps-Ends e) (get_bound_digit-Ends e))
      (λ low. if-Ends (is_def_mode mode) (remove_deps-Ends sig 0 bound low h) (by_ok low))

accum_args-Ends :
    (mode : Mode) (bound : List (Res Ty)) (l : List (Ty × MmbItem)) (acc : Ty)
    → AllEnd bound
    → Ends (accum_args mode bound l acc)
unfolding accum_args
accum_args-Ends mode bound [] acc h = by_ok acc
accum_args-Ends mode bound ((sig, e) ∷ r) acc h =
    >>=-Ends
      (if-Ends (is_bound sig) (by_ok acc)
        (>>=-Ends (arg_lowbits-Ends mode bound sig e h) (λ low. by_ok (or_ty acc low))))
      (λ acc'. accum_args-Ends mode bound r acc' h)

ret_deps-Ends :
    (mode : Mode) (t : Term) (bound : List (Res Ty)) (acc : Ty)
    → AllEnd bound
    → Ends (ret_deps mode t bound acc)
unfolding ret_deps
ret_deps-Ends mode t bound acc h =
    if-Ends (is_def_mode mode)
      (>>=-Ends (ret-Ends t)
        (λ rt. if-Ends (has_deps rt) (add_ret_deps-Ends rt 0 bound acc h) (by_ok acc)))
      (by_ok acc)

app_type-Ends : (mode : Mode) (t : Term) (es : List MmbItem) → Ends (app_type mode t es)
unfolding app_type
app_type-Ends mode t es = >>=-Ends (args_no_ret-Ends t) (λ sig_args.
    let l : List (Ty × MmbItem) = zip sig_args es in
    let h = stack_bound_by_sig-AllEnd l in
    >>=-Ends (check_sorts-Ends l) (λ _.
      >>=-Ends (accum_args-Ends mode (stack_bound_by_sig l) l _ h)
        (λ acc. ret_deps-Ends mode t (stack_bound_by_sig l) acc h)))

pub proof_term-Ends :
    (o : Outline) (mode : Mode) (n : ℕ) (saved : Bool) (s : MmbState)
    → Ends (proof_term o mode n saved s)
unfolding proof_term
proof_term-Ends o mode n saved s =
    search (item_rules, get_term_by_num-Ends, num_args_no_ret-Ends, app_type-Ends) depth 9
