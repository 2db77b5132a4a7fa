-- ===== src/Mmb/Proof/Apply.antt =====
-- src/mmb/proof.rs, `proof_thm` and `proof_unfold`: the commands that call the unifier.
use second_opinion.Prelude.{
  ℕ, zero, suc, ◌+◌, Bool, List, [], ◌∷◌, ◌++◌, length, drop, get_elem?, snoc, is_empty, ltb,
  if◌then◌else◌, Res, ok, err, unreachable, none_err, make_sure, unwrap, unwrap_res, sub_or_panic,
  ◌>>=◌, ◌>>◌,
}
use mathlib.Core.List.{zip}
use second_opinion.Util.Ty.{Ty, ty, is_bound, disjoint, shl_one}
use second_opinion.Util.Outline.{Outline, get_term_by_num, get_assert_by_num, assert_args}
use second_opinion.Mmb.Item.{
  MmbItem, MmbItems, var, app, expr, proof, conv, co_conv, to_list, item_eq, get_ty, low_bits,
}
use second_opinion.Mmb.State.{MmbState, top}
use second_opinion.Mmb.Unify.{u_thm, u_def, pop?, run_unify}

-- `bound_by_sig`: the arguments that the signature binds, with their positions from `idx` on.
unfoldable pub bound_by_sig : ℕ → List (Ty × MmbItem) → List (ℕ × MmbItem)
unfolding is_bound
bound_by_sig idx [] = []
bound_by_sig idx ((sig, e) ∷ r) =
    let rest = bound_by_sig (idx + 1) r in if is_bound sig then (idx, e) ∷ rest else rest

-- `for j in 0..idx`: the elements of `uheap` from `j` on, `left` of them, have no bound variable in
-- common with `e`.
unfoldable pub disjoint_before : List MmbItem → MmbItem → ℕ → ℕ → Res (Unit {0})
unfolding get_ty low_bits disjoint
disjoint_before uheap e zero j = ok tt
disjoint_before uheap e (suc left) j =
    let rest = disjoint_before uheap e left (j + 1) in
    (do
      u ← unwrap (get_elem? uheap j)
      t ← unwrap_res (get_ty u)
      low ← low_bits e
      make_sure (disjoint t low)
      rest)

unfoldable pub check_bound : List MmbItem → List (ℕ × MmbItem) → Res (Unit {0})
unfolding disjoint_before
check_bound uheap [] = ok tt
check_bound uheap ((idx, e) ∷ r) =
    let rest = check_bound uheap r in (do disjoint_before uheap e idx 0; rest)

-- One round of the loop over `0..bound_len`: `j` is the number of the bound variable `b`.
unfoldable pub check_dep : Ty → MmbItem → ℕ → MmbItem → Res (Unit {0})
unfolding disjoint low_bits
check_dep sig e j b = do
  m ← shl_one j
  if disjoint sig (ty m)
      then (do low_b ← low_bits b; low_e ← low_bits e; make_sure (disjoint low_b low_e))
      else ok tt

unfoldable pub check_deps : Ty → MmbItem → ℕ → List (ℕ × MmbItem) → Res (Unit {0})
unfolding check_dep
check_deps sig e j [] = ok tt
check_deps sig e j ((idx, b) ∷ bs) =
    let rest = check_deps sig e (j + 1) bs in (do check_dep sig e j b; rest)

unfoldable pub check_unbound : List (ℕ × MmbItem) → List (Ty × MmbItem) → Res (Unit {0})
unfolding is_bound check_deps
check_unbound bound [] = ok tt
check_unbound bound ((sig, e) ∷ r) =
    let rest = check_unbound bound r in
    (do (if is_bound sig then ok tt else check_deps sig e 0 bound); rest)

-- The result of `proof_thm`: the conclusion `a`, now proved.
abbrev pub push_proof : Bool → MmbItem → MmbState → MmbState
push_proof saved a s =
    let e = proof s.next_addr a in
    record s {
      stack = e ∷ s.stack;
      heap = if saved then snoc s.heap e else s.heap;
      next_addr = suc s.next_addr;
    }

unfoldable pub proof_thm : Outline → ℕ → Bool → MmbState → Res MmbState
unfolding get_assert_by_num assert_args zip bound_by_sig check_bound check_unbound run_unify
proof_thm o thm_num saved s = do
  make_sure (ltb thm_num o.header.num_thms)
  thmref ← get_assert_by_num o thm_num
  sig_args ← assert_args thmref
  (a, stack) ← none_err (pop? s.stack)
  drain_from ← sub_or_panic (length stack) (length sig_args)
  let stack_args = top (length sig_args) stack
  let all_args = zip sig_args stack_args
  let uheap = s.uheap ++ stack_args
  check_bound uheap (bound_by_sig 0 all_args)
  check_unbound (bound_by_sig 0 all_args) all_args
  s' ←
      run_unify u_thm thmref.unify a
        (record s { stack = drop (length sig_args) stack; uheap = uheap })
  ok (push_proof saved a s')

-- The term and the arguments of an application.
unfoldable pub app_parts : MmbItem → Res (ℕ × MmbItems)
app_parts (expr p (app n xs t)) = ok (n, xs)
app_parts (expr p (var i t)) = err unreachable
app_parts (proof p e) = err unreachable
app_parts (conv p a b) = err unreachable
app_parts (co_conv p a b) = err unreachable

-- The two sides of a convertibility obligation.
unfoldable pub co_conv_parts : MmbItem → Res (MmbItem × MmbItem)
co_conv_parts (co_conv p a b) = ok (a, b)
co_conv_parts (expr p e) = err unreachable
co_conv_parts (proof p e) = err unreachable
co_conv_parts (conv p a b) = err unreachable

unfoldable pub proof_unfold : Outline → MmbState → Res MmbState
unfolding app_parts co_conv_parts get_term_by_num run_unify
proof_unfold o s = do
  (e_prime, r1) ← none_err (pop? s.stack)
  (f_ebar, r2) ← none_err (pop? r1)
  (term_num, ebar) ← app_parts f_ebar
  make_sure (is_empty s.uheap)
  t ← get_term_by_num o term_num
  s' ← run_unify u_def t.unify e_prime (record s { stack = r2; uheap = s.uheap ++ to_list ebar })
  (cc, r3) ← none_err (pop? s'.stack)
  (f_ebar2, e_doubleprime) ← co_conv_parts cc
  make_sure (item_eq f_ebar f_ebar2)
  ok (record s' {
    stack = co_conv s'.next_addr e_prime e_doubleprime ∷ r3;
    next_addr = suc s'.next_addr;
  })
