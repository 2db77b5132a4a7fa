-- ===== src/Mmb/Step.antt =====
-- The proof machine as a step relation, in the form of the comments on `ProofCmd` in
-- src/mmb/proof.rs.
pub mod Inversion
pub mod Calls
pub mod Refinement
use second_opinion.Prelude.{
  ℕ, suc, ◌+◌, ◌*◌, ◌/◌, ◌<◌, ◌≤◌, ◌^◌, bit_and, Bool, true, false, not, List, [], ◌∷◌, ◌++◌,
  length, drop, get_elem?, snoc, ◌==◌, if◌then◌else◌, ◌≡◌, some, Res, ok,
}
use mathlib.Core.List.{zip}
use second_opinion.Util.Ty.{Ty, sort}
use second_opinion.Util.Header.{sort_provable}
use second_opinion.Util.Outline.{
  Outline, Term, Assert, get_term_by_num, get_assert_by_num, get_sort_mods, assert_args,
  num_args_no_ret,
}
use second_opinion.Mmb.ProofCmd.{Mode, ProofCmd, thm_mode}
use second_opinion.Mmb.Item.{
  MmbExpr, MmbItem, MmbItems, app, expr, proof, conv, co_conv, to_list, address, item_eq, get_ty,
}
use second_opinion.Mmb.State.{MmbState, top}
use second_opinion.Mmb.Unify.{u_thm, u_def, run_unify}
use second_opinion.Mmb.Proof.Vars.{add_var}
use second_opinion.Mmb.Proof.Build.{app_type, push_app}
use second_opinion.Mmb.Proof.Apply.{bound_by_sig, check_bound, check_unbound, push_proof}
use second_opinion.Mmb.Proof.Conv.{push_pairs}

-- `s'` follows `s` by the proof command of the index. A constructor holds what the command has checked,
-- and the new state.
pub data ProofStep (o : Outline) (mode : Mode) (s s' : MmbState) : ProofCmd → Type 0 where
  ref_step :
      (i : ℕ) {e : MmbItem}
      → get_elem? s.heap i ≡ some e
      → s' ≡ record s { stack = e ∷ s.stack }
      → ProofStep o mode s s' (ProofCmd.ref i)
  dummy_step :
      (n : ℕ)
      → n < o.header.num_sorts
      → s.next_bv < 2 ^ 56
      → s' ≡ add_var n s.next_bv (record s { next_bv = s.next_bv * 2 })
      → ProofStep o mode s s' (ProofCmd.dummy n)
  term_step :
      (n : ℕ) (saved : Bool) {k : ℕ} {t : Term} {type : Ty}
      → get_term_by_num o n ≡ ok t
      → num_args_no_ret t ≡ ok k
      → k ≤ length s.stack
      → app_type mode t (top k s.stack) ≡ ok type
      → s' ≡ push_app n saved type k s
      → ProofStep o mode s s' (ProofCmd.term n saved)
  thm_step :
      (n : ℕ) (saved : Bool) {a : MmbItem} {rest : List MmbItem} {t : Assert} {sig : List Ty}
      {s₁ : MmbState}
      → get_assert_by_num o n ≡ ok t
      → assert_args t ≡ ok sig
      → s.stack ≡ a ∷ rest
      → length sig ≤ length rest
      → check_bound
          (s.uheap ++ top (length sig) rest)
          (bound_by_sig 0 (zip sig (top (length sig) rest)))
        ≡ ok tt
      → check_unbound
          (bound_by_sig 0 (zip sig (top (length sig) rest)))
          (zip sig (top (length sig) rest))
        ≡ ok tt
      → run_unify u_thm t.unify a
          (record s { stack = drop (length sig) rest; uheap = s.uheap ++ top (length sig) rest })
        ≡ ok s₁
      → s' ≡ push_proof saved a s₁
      → ProofStep o mode s s' (ProofCmd.thm n saved)
  hyp_step :
      {e : MmbItem} {rest : List MmbItem} {t : Ty} {mods : ℕ}
      → mode ≡ thm_mode
      → s.stack ≡ e ∷ rest
      → get_ty e ≡ ok t
      → get_sort_mods o (sort t) ≡ ok mods
      → not (bit_and mods sort_provable == 0) ≡ true
      → s' ≡ record s {
        stack = rest;
        hstack = e ∷ s.hstack;
        heap = snoc s.heap (proof s.next_addr e);
        next_addr = suc s.next_addr;
      }
      → ProofStep o mode s s' ProofCmd.hyp
  conv_step :
      {p : ℕ} {e1 e2 : MmbItem} {rest : List MmbItem}
      → s.stack ≡ proof p e2 ∷ e1 ∷ rest
      → s' ≡ record s {
        stack = co_conv (suc s.next_addr) e1 e2 ∷ proof s.next_addr e1 ∷ rest;
        next_addr = suc (suc s.next_addr);
      }
      → ProofStep o mode s s' ProofCmd.conv
  refl_step :
      {p : ℕ} {a b : MmbItem} {rest : List MmbItem}
      → s.stack ≡ co_conv p a b ∷ rest
      → address a ≡ address b
      → s' ≡ record s { stack = rest }
      → ProofStep o mode s s' ProofCmd.refl_cmd
  sym_step :
      {p : ℕ} {a b : MmbItem} {rest : List MmbItem}
      → s.stack ≡ co_conv p a b ∷ rest
      → s' ≡ record s { stack = co_conv s.next_addr b a ∷ rest; next_addr = suc s.next_addr }
      → ProofStep o mode s s' ProofCmd.sym_cmd
  cong_step :
      {p q r n : ℕ} {xs ys : MmbItems} {t u : Ty} {rest : List MmbItem}
      → s.stack ≡ co_conv p (expr q (app n xs t)) (expr r (app n ys u)) ∷ rest
      → length (to_list xs) ≡ length (to_list ys)
      → s' ≡ push_pairs xs ys (record s { stack = rest })
      → ProofStep o mode s s' ProofCmd.cong
  unfold_step :
      {p q n : ℕ} {e_prime f_ebar2 e2 : MmbItem} {ebar : MmbItems} {type : Ty}
      {r2 r3 : List MmbItem} {t : Term} {s₁ : MmbState}
      → s.stack ≡ e_prime ∷ expr p (app n ebar type) ∷ r2
      → s.uheap ≡ []
      → get_term_by_num o n ≡ ok t
      → run_unify u_def t.unify e_prime (record s { stack = r2; uheap = to_list ebar }) ≡ ok s₁
      → s₁.stack ≡ co_conv q f_ebar2 e2 ∷ r3
      → item_eq (expr p (app n ebar type)) f_ebar2 ≡ true
      → s'
        ≡ record s₁ { stack = co_conv s₁.next_addr e_prime e2 ∷ r3; next_addr = suc s₁.next_addr }
      → ProofStep o mode s s' ProofCmd.unfold_cmd
  conv_cut_step :
      {p : ℕ} {a b : MmbItem} {rest : List MmbItem}
      → s.stack ≡ co_conv p a b ∷ rest
      → s' ≡ record s {
        stack = co_conv p a b ∷ conv s.next_addr a b ∷ rest;
        next_addr = suc s.next_addr;
      }
      → ProofStep o mode s s' ProofCmd.conv_cut
  conv_ref_step :
      (i : ℕ) {p q : ℕ} {c1 c2 a b : MmbItem} {rest : List MmbItem}
      → get_elem? s.heap i ≡ some (conv p c1 c2)
      → s.stack ≡ co_conv q a b ∷ rest
      → item_eq c1 a ≡ true
      → item_eq c2 b ≡ true
      → s' ≡ record s { stack = rest }
      → ProofStep o mode s s' (ProofCmd.conv_ref i)
  conv_save_step :
      {p : ℕ} {a b : MmbItem} {rest : List MmbItem}
      → s.stack ≡ conv p a b ∷ rest
      → s' ≡ record s { stack = rest; heap = snoc s.heap (conv p a b) }
      → ProofStep o mode s s' ProofCmd.conv_save
  save_step :
      {e : MmbItem} {rest : List MmbItem}
      → s.stack ≡ e ∷ rest
      → ((p : ℕ) (a b : MmbItem) → ¬ (e ≡ co_conv p a b))
      → s' ≡ record s { heap = snoc s.heap e }
      → ProofStep o mode s s' ProofCmd.save
