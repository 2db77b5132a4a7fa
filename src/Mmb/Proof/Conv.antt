-- ===== src/Mmb/Proof/Conv.antt =====
-- src/mmb/proof.rs: the commands on proofs and convertibility obligations that stay within the
-- stack and the heap.
use second_opinion.Prelude.{
  ℕ, Bool, true, false, length, get_elem?, ◌==◌, Res, ok, err, unreachable, none_err, make_sure,
  localize, ◌>>=◌, ◌>>◌,
}
use second_opinion.Mmb.Item.{
  MmbItem, MmbItems, nil, cons, app, expr, proof, conv, co_conv, to_list, address, item_eq,
}
use second_opinion.Mmb.State.{MmbState, push, push_new, push_heap}
use second_opinion.Mmb.Unify.{pop?, proved}
use second_opinion.Mmb.Proof.Apply.{co_conv_parts}

unfoldable pub proof_conv : MmbState → Res MmbState
unfolding proved
proof_conv s = do
  (e2proof, r1) ← none_err (pop? s.stack)
  (e1, r2) ← none_err (pop? r1)
  conc ← proved e2proof
  ok (push_new (λ p. co_conv p e1 conc) (push_new (λ p. proof p e1) (record s { stack = r2 })))

-- The two sides are the same reference.
unfoldable pub proof_refl : MmbState → Res MmbState
unfolding co_conv_parts
proof_refl s = do
  (e, rest) ← none_err (pop? s.stack)
  (cc1, cc2) ← co_conv_parts e
  make_sure (address cc1 == address cc2)
  ok (record s { stack = rest })

unfoldable pub proof_sym : MmbState → Res MmbState
unfolding co_conv_parts
proof_sym s = do
  (e, rest) ← none_err (pop? s.stack)
  (cc1, cc2) ← co_conv_parts e
  ok (push_new (λ p. co_conv p cc2 cc1) (record s { stack = rest }))

-- The loop over the zipped arguments in reverse: the obligation of the last arguments is pushed
-- first.
unfoldable pub push_pairs : MmbItems → MmbItems → MmbState → MmbState
push_pairs nil ys s = s
push_pairs (cons x xs) nil s = s
push_pairs (cons x xs) (cons y ys) s = push_new (λ p. co_conv p x y) (push_pairs xs ys s)

unfoldable pub cong_at : MmbItem → MmbItem → MmbState → Res MmbState
unfolding push_pairs
cong_at (expr p (app n1 as1 t)) (expr q (app n2 as2 u)) s = do
  make_sure (n1 == n2)
  make_sure (length (to_list as1) == length (to_list as2))
  ok (push_pairs as1 as2 s)
cong_at _ _ s = err unreachable

unfoldable pub proof_cong : MmbState → Res MmbState
unfolding co_conv_parts cong_at
proof_cong s = do
  (e, rest) ← none_err (pop? s.stack)
  (cc1, cc2) ← co_conv_parts e
  cong_at cc1 cc2 (record s { stack = rest })

unfoldable pub proof_conv_cut : MmbState → Res MmbState
unfolding co_conv_parts
proof_conv_cut s = do
  (p, rest) ← none_err (pop? s.stack)
  (cc1, cc2) ← co_conv_parts p
  ok (push p (push_new (λ q. conv q cc1 cc2) (record s { stack = rest })))

-- The match of `proof_conv_ref` on the heap element and the popped element.
unfoldable pub conv_ref_at : MmbItem → MmbItem → MmbState → Res MmbState
conv_ref_at (conv p c1 c2) (co_conv q cc1 cc2) s = do
  make_sure (item_eq c1 cc1)
  make_sure (item_eq c2 cc2)
  ok s
conv_ref_at _ _ s = err unreachable

unfoldable pub proof_conv_ref : ℕ → MmbState → Res MmbState
unfolding conv_ref_at
proof_conv_ref i s = do
  heap_conv ← none_err (get_elem? s.heap i)
  (stack_coconv, rest) ← none_err (pop? s.stack)
  conv_ref_at heap_conv stack_coconv (record s { stack = rest })

unfoldable pub is_conv : MmbItem → Bool
is_conv (conv p a b) = true
is_conv (expr p e) = false
is_conv (proof p e) = false
is_conv (co_conv p a b) = false

unfoldable pub proof_conv_save : MmbState → Res MmbState
unfolding is_conv
proof_conv_save s = do
  (p, rest) ← localize (none_err (pop? s.stack))
  make_sure (is_conv p)
  ok (push_heap p (record s { stack = rest }))
