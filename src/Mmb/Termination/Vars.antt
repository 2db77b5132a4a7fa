-- ===== src/Mmb/Termination/Vars.antt =====
-- src/mmb/proof.rs: how the commands of Proof/Vars, Proof/Apply and Proof/Conv end.
use second_opinion.Prelude.{ℕ, zero, suc, Bool, List, [], ◌∷◌, ◌+◌}
use second_opinion.Util.Ty.{Ty, is_bound}
use second_opinion.Util.Cmd.Loop.{Ends, by_ok, by_err, >>=-Ends, if-Ends, ends}
use second_opinion.Util.Outline.{Outline}
use second_opinion.Util.Outline.Termination.{
  assert_args-Ends, get_term_by_num-Ends, get_assert_by_num-Ends,
}
use second_opinion.Mmb.Termination.Unify.{run_unify-Ends, item_rules}
use second_opinion.Mmb.ProofCmd.{Mode}
use second_opinion.Mmb.Item.{MmbItem, var, app, expr, proof, conv, co_conv}
use second_opinion.Mmb.State.{MmbState, take_next_bv}
use second_opinion.Mmb.Proof.Vars.{proof_ref, proof_dummy, proof_hyp, save_item, proof_save}
use second_opinion.Mmb.Proof.Apply.{
  disjoint_before, check_bound, check_dep, check_deps, check_unbound, proof_thm, app_parts,
  co_conv_parts, proof_unfold,
}
use second_opinion.Mmb.Proof.Conv.{
  proof_conv, proof_refl, proof_sym, cong_at, proof_cong, proof_conv_cut, conv_ref_at,
  proof_conv_ref, proof_conv_save,
}

pub take_next_bv-Ends : (s : MmbState) → Ends (take_next_bv s)
unfolding take_next_bv
take_next_bv-Ends s = search item_rules

-- The commands on variables, hypotheses and the heap.
save_item-Ends : (e : MmbItem) (s : MmbState) → Ends (save_item e s)
save_item-Ends (expr p e) s = by_ok _
save_item-Ends (proof p e) s = by_ok _
save_item-Ends (conv p a b) s = by_ok _
save_item-Ends (co_conv p a b) s = by_err _

pub proof_dummy-Ends : (o : Outline) (n : ℕ) (s : MmbState) → Ends (proof_dummy o n s)
unfolding proof_dummy
proof_dummy-Ends o n s = search (item_rules, take_next_bv-Ends) depth 9

pub proof_hyp-Ends : (o : Outline) (mode : Mode) (s : MmbState) → Ends (proof_hyp o mode s)
unfolding proof_hyp
proof_hyp-Ends o mode s = search item_rules depth 9

pub proof_ref-Ends : (i : ℕ) (s : MmbState) → Ends (proof_ref i s)
unfolding proof_ref
proof_ref-Ends i s = search ends

pub proof_save-Ends : (s : MmbState) → Ends (proof_save s)
unfolding proof_save
proof_save-Ends s = search (ends, save_item-Ends)

disjoint_before-Ends :
    (uheap : List MmbItem) (e : MmbItem) (left j : ℕ) → Ends (disjoint_before uheap e left j)
unfolding disjoint_before
disjoint_before-Ends uheap e zero j = by_ok tt
disjoint_before-Ends uheap e (suc left) j =
    let ih = disjoint_before-Ends uheap e left (j + 1) in search (item_rules, ih) depth 9

check_bound-Ends : (uheap : List MmbItem) (l : List (ℕ × MmbItem)) → Ends (check_bound uheap l)
unfolding check_bound
check_bound-Ends uheap [] = by_ok tt
check_bound-Ends uheap ((idx, e) ∷ r) =
    >>=-Ends (disjoint_before-Ends uheap e idx 0) (λ _. check_bound-Ends uheap r)

check_dep-Ends : (sig : Ty) (e : MmbItem) (j : ℕ) (b : MmbItem) → Ends (check_dep sig e j b)
unfolding check_dep
check_dep-Ends sig e j b = search item_rules depth 9

check_deps-Ends :
    (sig : Ty) (e : MmbItem) (j : ℕ) (l : List (ℕ × MmbItem)) → Ends (check_deps sig e j l)
unfolding check_deps
check_deps-Ends sig e j [] = by_ok tt
check_deps-Ends sig e j ((idx, b) ∷ bs) =
    >>=-Ends (check_dep-Ends sig e j b) (λ _. check_deps-Ends sig e (j + 1) bs)

check_unbound-Ends :
    (bound : List (ℕ × MmbItem)) (l : List (Ty × MmbItem)) → Ends (check_unbound bound l)
unfolding check_unbound
check_unbound-Ends bound [] = by_ok tt
check_unbound-Ends bound ((sig, e) ∷ r) =
    >>=-Ends (if-Ends (is_bound sig) (by_ok tt) (check_deps-Ends sig e 0 bound))
      (λ _. check_unbound-Ends bound r)

pub proof_thm-Ends :
    (o : Outline) (n : ℕ) (saved : Bool) (s : MmbState) → Ends (proof_thm o n saved s)
unfolding proof_thm
proof_thm-Ends o n saved s =
    search
      (
        item_rules, get_assert_by_num-Ends, assert_args-Ends, check_bound-Ends, check_unbound-Ends,
        run_unify-Ends,
      )
      depth 12

app_parts-Ends : (e : MmbItem) → Ends (app_parts e)
unfolding app_parts
app_parts-Ends (expr p (app n xs t)) = by_ok _
app_parts-Ends (expr p (var i t)) = by_err _
app_parts-Ends (proof p e) = by_err _
app_parts-Ends (conv p a b) = by_err _
app_parts-Ends (co_conv p a b) = by_err _

co_conv_parts-Ends : (e : MmbItem) → Ends (co_conv_parts e)
unfolding co_conv_parts
co_conv_parts-Ends (co_conv p a b) = by_ok _
co_conv_parts-Ends (expr p e) = by_err _
co_conv_parts-Ends (proof p e) = by_err _
co_conv_parts-Ends (conv p a b) = by_err _

pub proof_unfold-Ends : (o : Outline) (s : MmbState) → Ends (proof_unfold o s)
unfolding proof_unfold
proof_unfold-Ends o s =
    search (ends, get_term_by_num-Ends, run_unify-Ends, app_parts-Ends, co_conv_parts-Ends) depth 14

pub proof_conv-Ends : (s : MmbState) → Ends (proof_conv s)
unfolding proof_conv
proof_conv-Ends s = search item_rules depth 9

pub proof_refl-Ends : (s : MmbState) → Ends (proof_refl s)
unfolding proof_refl
proof_refl-Ends s = search (ends, co_conv_parts-Ends) depth 9

pub proof_sym-Ends : (s : MmbState) → Ends (proof_sym s)
unfolding proof_sym
proof_sym-Ends s = search (ends, co_conv_parts-Ends) depth 9

cong_at-Ends : (a b : MmbItem) (s : MmbState) → Ends (cong_at a b s)
unfolding cong_at
cong_at-Ends (expr p (app n xs t)) (expr q (app m ys u)) s = search ends
cong_at-Ends _ _ s = by_err _

pub proof_cong-Ends : (s : MmbState) → Ends (proof_cong s)
unfolding proof_cong
proof_cong-Ends s = search (ends, co_conv_parts-Ends, cong_at-Ends) depth 9

pub proof_conv_cut-Ends : (s : MmbState) → Ends (proof_conv_cut s)
unfolding proof_conv_cut
proof_conv_cut-Ends s = search (ends, co_conv_parts-Ends) depth 9

conv_ref_at-Ends : (a b : MmbItem) (s : MmbState) → Ends (conv_ref_at a b s)
unfolding conv_ref_at
conv_ref_at-Ends (conv p a b) (co_conv q c d) s = search ends
conv_ref_at-Ends _ _ s = by_err _

pub proof_conv_ref-Ends : (i : ℕ) (s : MmbState) → Ends (proof_conv_ref i s)
unfolding proof_conv_ref
proof_conv_ref-Ends i s = search (ends, conv_ref_at-Ends) depth 9

pub proof_conv_save-Ends : (s : MmbState) → Ends (proof_conv_save s)
unfolding proof_conv_save
proof_conv_save-Ends s = search ends depth 9
