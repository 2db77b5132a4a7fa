-- ===== src/Util/Outline/Termination.antt =====
-- src/util.rs: how the readers of the term and theorem tables end.
use second_opinion.Prelude.{
  ℕ, zero, suc, ◌≤◌, List, [], ◌∷◌, length, arith, fits, sub_or_panic, unwrap_res-eq-ok,
}
use second_opinion.Util.Cmd.Loop.{Ends, by_ok, >>=-Ends, >>=-Ends_with, unwrap_res-Ends, ends}
use second_opinion.Util.Cmd.Progress.{parse_uint-Ends, parse_uint-length}
use second_opinion.Util.Outline.{
  Outline, Term, Assert, args_loop, args_list, term_args, args_no_ret, num_args_no_ret, ret,
  assert_args, split_at, get_term_by_num, get_assert_by_num, get_sort_mods,
}

pub fits-Ends : (w n : ℕ) → Ends (fits w n)
fits-Ends w n = search ends

pub sub_or_panic-Ends : (a b : ℕ) → Ends (sub_or_panic a b)
sub_or_panic-Ends a b = search ends

args_loop_step :
    (fuel : ℕ) (source : List ℕ)
    → length source ≤ suc fuel
    → ((rest : List ℕ) → length rest ≤ fuel → Ends (args_loop fuel rest))
    → Ends (args_loop (suc fuel) source)
unfolding args_loop
args_loop_step fuel [] h again = by_ok []
args_loop_step fuel (b ∷ bs) h again =
    >>=-Ends_with _ (unwrap_res-Ends (parse_uint-Ends 8 (b ∷ bs))) (λ r e.
      >>=-Ends (again r.1 (omega (arith, parse_uint-length 8 (b ∷ bs) r.1 (unwrap_res-eq-ok _ e))))
        (λ tys. by_ok _))

args_loop-Ends : (fuel : ℕ) (source : List ℕ) → length source ≤ fuel → Ends (args_loop fuel source)
args_loop-Ends zero [] h = unfold args_loop in by_ok []
args_loop-Ends zero (b ∷ bs) h = absurd (omega arith)
args_loop-Ends (suc fuel) source h = args_loop_step fuel source h (args_loop-Ends fuel)

pub args_list-Ends : (source : List ℕ) → Ends (args_list source)
unfolding args_list
args_list-Ends source = args_loop-Ends (length source) source (omega arith)

ruleset tables = (ends, fits-Ends, sub_or_panic-Ends, args_list-Ends, parse_uint-Ends)

pub term_args-Ends : (t : Term) → Ends (term_args t)
unfolding term_args
term_args-Ends t = args_list-Ends t.args_start

pub assert_args-Ends : (a : Assert) → Ends (assert_args a)
unfolding assert_args
assert_args-Ends a = args_list-Ends a.args_start

pub args_no_ret-Ends : (t : Term) → Ends (args_no_ret t)
unfolding args_no_ret
args_no_ret-Ends t = search tables

pub num_args_no_ret-Ends : (t : Term) → Ends (num_args_no_ret t)
unfolding num_args_no_ret
num_args_no_ret-Ends t = search tables

pub ret-Ends : (t : Term) → Ends (ret t)
unfolding ret
ret-Ends t = search tables

pub get_sort_mods-Ends : (o : Outline) (n : ℕ) → Ends (get_sort_mods o n)
unfolding get_sort_mods
get_sort_mods-Ends o n = search tables

split_at-Ends : (bytes : List ℕ) (mid : ℕ) → Ends (split_at bytes mid)
split_at-Ends bytes mid = search ends

pub get_term_by_num-Ends : (o : Outline) (n : ℕ) → Ends (get_term_by_num o n)
unfolding get_term_by_num
get_term_by_num-Ends o n = search (tables, split_at-Ends) depth 12

pub get_assert_by_num-Ends : (o : Outline) (n : ℕ) → Ends (get_assert_by_num o n)
unfolding get_assert_by_num
get_assert_by_num-Ends o n = search (tables, split_at-Ends) depth 12
