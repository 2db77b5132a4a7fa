-- ===== src/Mmb/Unify.antt =====
-- src/mmb/unify.rs: the unifier, a subroutine that matches an expression against the commands of a
-- declaration.
pub mod Pattern
pub mod Machine
pub mod Statement
use second_opinion.Prelude.{
  ℕ, suc, bit_and, Bool, true, false, List, [], ◌∷◌, ◌++◌, length, get_elem?, snoc, is_empty, ◌==◌,
  if◌then◌else◌, Option, none, some, Res, ok, err, msg, unreachable, none_err, make_sure, unwrap,
  unwrap_res, ◌>>=◌, ◌>>◌,
}
use second_opinion.Util.Ty.{sort, bound_digit}
use second_opinion.Util.Cmd.{for_cmds}
use second_opinion.Mmb.UnifyCmd.{UnifyCmd, UnifyIter, term, ref, dummy, hyp, unify_next}
use second_opinion.Mmb.Item.{
  MmbItem, var, app, expr, proof, conv, co_conv, to_list, item_eq, get_ty,
}
use second_opinion.Mmb.State.{MmbState}

pub data UMode : Type 0 where
  u_thm u_def u_thm_end : UMode

-- `Vec::pop`: the popped element and the rest of the stack.
abbrev pub pop? {ℓ} : {A : Type ℓ} → List A → Option (A × List A)
pop? [] = none
pop? (e ∷ s) = some (e, s)

unfoldable pub unify_ref : ℕ → MmbState → Res MmbState
unify_ref i s = do
  heap_elem ← none_err (get_elem? s.uheap i)
  (ustack_elem, rest) ← none_err (pop? s.ustack)
  if item_eq heap_elem ustack_elem then ok (record s { ustack = rest }) else err msg

-- The match of `unify_term` on the popped element `p`; `us` is the stack below it.
unfoldable pub unify_term_at : ℕ → Bool → MmbItem → List MmbItem → MmbState → Res MmbState
unify_term_at n save (expr p (app m args t)) us s = do
  make_sure (n == m)
  ok (record s {
    ustack = to_list args ++ us;
    uheap = if save then snoc s.uheap (expr p (app m args t)) else s.uheap;
  })
unify_term_at n save (expr p (var idx t)) us s = err unreachable
unify_term_at n save (proof p e) us s = err unreachable
unify_term_at n save (conv p a b) us s = err unreachable
unify_term_at n save (co_conv p a b) us s = err unreachable

unfoldable pub unify_term : ℕ → Bool → MmbState → Res MmbState
unfolding unify_term_at
unify_term n save s = do (p, us) ← none_err (pop? s.ustack); unify_term_at n save p us s

-- The loop over `uheap`: no element has the digit of the dummy variable.
unfoldable pub fresh_for : ℕ → List MmbItem → Res (Unit {0})
unfolding get_ty
fresh_for bound_idx [] = ok tt
fresh_for bound_idx (e ∷ es) =
    let rest = fresh_for bound_idx es in
    (do t ← unwrap_res (get_ty e); make_sure (bit_and t.inner bound_idx == 0); rest)

unfoldable pub unify_dummy_at : ℕ → MmbItem → List MmbItem → MmbState → Res MmbState
unfolding fresh_for
unify_dummy_at sort_id (expr p (var idx t)) us s = do
  make_sure (sort_id == sort t)
  bound_idx ← bound_digit t
  fresh_for bound_idx s.uheap
  ok (record s { ustack = us; uheap = snoc s.uheap (expr p (var idx t)) })
unify_dummy_at sort_id (expr p (app m args t)) us s = err unreachable
unify_dummy_at sort_id (proof p e) us s = err unreachable
unify_dummy_at sort_id (conv p a b) us s = err unreachable
unify_dummy_at sort_id (co_conv p a b) us s = err unreachable

unfoldable pub is_u_def : UMode → Bool
is_u_def u_def = true
is_u_def u_thm = false
is_u_def u_thm_end = false

unfoldable pub unify_dummy : UMode → ℕ → MmbState → Res MmbState
unfolding unify_dummy_at is_u_def
unify_dummy mode sort_id s = do
  make_sure (is_u_def mode)
  (p, us) ← unwrap (pop? s.ustack)
  unify_dummy_at sort_id p us s

-- The expression of a proof that was popped.
unfoldable pub proved : MmbItem → Res MmbItem
proved (proof p e) = ok e
proved (expr p e) = err unreachable
proved (conv p a b) = err unreachable
proved (co_conv p a b) = err unreachable

unfoldable pub unify_hyp : UMode → MmbState → Res MmbState
unfolding proved
unify_hyp u_thm s = do
  (p, rest) ← none_err (pop? s.stack)
  e ← proved p
  ok (record s { stack = rest; ustack = e ∷ s.ustack })
unify_hyp u_thm_end s = do
  make_sure (is_empty s.ustack)
  (elem, rest) ← unwrap (pop? s.hstack)
  ok (record s { hstack = rest; ustack = elem ∷ s.ustack })
unify_hyp u_def s = err unreachable

unfoldable pub unify_cmd : UMode → UnifyCmd → MmbState → Res MmbState
unfolding unify_ref unify_term unify_dummy unify_hyp
unify_cmd mode (ref i) s = unify_ref i s
unify_cmd mode (term term_num save) s = unify_term term_num save s
unify_cmd mode (dummy sort_id) s = unify_dummy mode sort_id s
unify_cmd mode hyp s = unify_hyp mode s

-- What stands behind the loop of `run_unify`.
unfoldable pub unify_end : UMode → MmbState → Res MmbState
unify_end u_thm_end s = do
  make_sure (is_empty s.ustack)
  make_sure (is_empty s.hstack)
  ok (record s { uheap = [] })
unify_end u_thm s = do make_sure (is_empty s.ustack); ok (record s { uheap = [] })
unify_end u_def s = do make_sure (is_empty s.ustack); ok (record s { uheap = [] })

-- Each command takes a byte at least, so the length of the file is fuel enough.
unfoldable pub run_unify : UMode → UnifyIter → MmbItem → MmbState → Res MmbState
unfolding unify_next for_cmds unify_cmd unify_end
run_unify mode unify tgt s = do
  s' ←
      for_cmds (unify_next unify.buf) (unify_cmd mode) (suc (length unify.buf)) unify.pos
        (record s { ustack = tgt ∷ s.ustack })
  unify_end mode s'
