-- ===== src/Mmb/Proof/Vars.antt =====
-- src/mmb/proof.rs: the commands that read the heap, make a variable, or assume a hypothesis.
use second_opinion.Prelude.{
  ℕ, suc, ◌*◌, ◌/◌, ◌%◌, ◌^◌, bit_and, bit_or, Bool, true, false, not, ◌∷◌, length, get_elem?, snoc,
  ltb, ◌==◌, Res, ok, err, msg, none_err, make_sure, unwrap, unwrap_res, ◌>>=◌, ◌>>◌,
}
use second_opinion.Util.Ty.{ty, sort, type_bound_mask}
use second_opinion.Util.Header.{sort_strict, sort_provable}
use second_opinion.Util.Outline.{Outline, get_sort_mods}
use second_opinion.Mmb.ProofCmd.{Mode, def_mode, thm_mode}
use second_opinion.Mmb.Item.{MmbItem, var, expr, proof, conv, co_conv, get_ty}
use second_opinion.Mmb.State.{MmbState, take_next_bv, push, push_heap}
use second_opinion.Mmb.Unify.{pop?}

-- `self.heap[i]`
unfoldable pub proof_ref : ℕ → MmbState → Res MmbState
proof_ref i s = do heap_elem ← unwrap (get_elem? s.heap i); ok (push heap_elem s)

-- The variable that `proof_dummy` allocates, on the stack and on the heap.
abbrev pub add_var : ℕ → ℕ → MmbState → MmbState
add_var sort_num digit s =
    let e = expr s.next_addr (
      var (length s.heap)
        (ty (bit_or (bit_or type_bound_mask (sort_num * 2 ^ 56 % 2 ^ 64)) digit))) in
    record s { stack = e ∷ s.stack; heap = snoc s.heap e; next_addr = suc s.next_addr }

unfoldable pub proof_dummy : Outline → ℕ → MmbState → Res MmbState
unfolding take_next_bv get_sort_mods
proof_dummy o sort_num s = do
  make_sure (ltb sort_num o.header.num_sorts)
  mods ← unwrap_res (get_sort_mods o sort_num)
  make_sure (bit_and mods sort_strict == 0)
  make_sure (s.next_bv / 2 ^ 56 == 0)
  (digit, s') ← take_next_bv s
  ok (add_var sort_num digit s')

abbrev pub is_def_mode : Mode → Bool
is_def_mode def_mode = true
is_def_mode thm_mode = false

unfoldable pub proof_hyp : Outline → Mode → MmbState → Res MmbState
unfolding get_ty get_sort_mods
proof_hyp o mode s = do
  make_sure (not (is_def_mode mode))
  (e, rest) ← none_err (pop? s.stack)
  t ← get_ty e
  mods ← unwrap_res (get_sort_mods o (sort t))
  make_sure (not (bit_and mods sort_provable == 0))
  ok (record s {
    stack = rest;
    hstack = e ∷ s.hstack;
    heap = snoc s.heap (proof s.next_addr e);
    next_addr = suc s.next_addr;
  })

-- The match of `proof_save` on the last element of the stack.
abbrev pub save_item : MmbItem → MmbState → Res MmbState
save_item (co_conv p a b) s = err msg
save_item (expr p e) s = ok (push_heap (expr p e) s)
save_item (proof p e) s = ok (push_heap (proof p e) s)
save_item (conv p a b) s = ok (push_heap (conv p a b) s)

unfoldable pub proof_save : MmbState → Res MmbState
proof_save s = do (e, rest) ← none_err (pop? s.stack); save_item e s
