-- ===== src/Mmb/Step/Calls.antt =====
-- src/mmb/proof.rs: what `Term`, `Thm` and `Unfold` have done when they succeed.
use second_opinion.Prelude.{
  ℕ, ◌≤◌, ltb, Bool, true, List, [], ◌∷◌, ◌++◌, length, drop, ◌≡◌, refl, sym, ap, ◌∙◌, subst, some,
  ok, ok_inj, err≢ok, guarded, none_err-eq-ok, none_err, sub_or_panic, sub_or_panic-eq-ok, is_empty,
  ◌>>=◌, ◌>>◌, >>=-eq-ok, arith,
}
use mathlib.Core.List.{zip}
use second_opinion.Util.Ty.{Ty}
use second_opinion.Util.Outline.{
  Outline, Assert, get_term_by_num, get_assert_by_num, assert_args, num_args_no_ret,
}
use second_opinion.Mmb.ProofCmd.{Mode, ProofCmd}
use second_opinion.Mmb.Item.{
  MmbItem, MmbItems, var, app, expr, proof, conv, co_conv, to_list, item_eq,
}
use second_opinion.Mmb.State.{MmbState, top}
use second_opinion.Mmb.Unify.{pop?, u_thm, u_def, run_unify}
use second_opinion.Mmb.Proof.Build.{app_type, proof_term}
use second_opinion.Mmb.Proof.Apply.{
  bound_by_sig, check_bound, check_unbound, push_proof, proof_thm, app_parts, co_conv_parts,
  proof_unfold,
}
use second_opinion.Mmb.Step.{ProofStep, term_step, thm_step, unfold_step}

pub pop?-eq {ℓ} : {A : Type ℓ} (st : List A) {r : A × List A} → pop? st ≡ some r → st ≡ r.0 ∷ r.1
pop?-eq [] e = ground arith
pop?-eq (x ∷ st) e = cc

is_empty-eq {ℓ} : {A : Type ℓ} (st : List A) → is_empty st ≡ true → st ≡ []
is_empty-eq [] e = refl
is_empty-eq (x ∷ st) e = ground arith

app_parts-eq :
    (f : MmbItem) {r : ℕ × MmbItems}
    → app_parts f ≡ ok r
    → (p : ℕ) × (t : Ty) × (f ≡ expr p (app r.0 r.1 t))
unfolding app_parts
app_parts-eq (expr p (app n xs t)) e =
    (p, t, ap (λ (q : ℕ × MmbItems). expr p (app q.0 q.1 t)) (ok_inj e))
app_parts-eq (expr p (var i t)) e = absurd (err≢ok e)
app_parts-eq (proof p a) e = absurd (err≢ok e)
app_parts-eq (conv p a b) e = absurd (err≢ok e)
app_parts-eq (co_conv p a b) e = absurd (err≢ok e)

co_conv_parts-eq :
    (c : MmbItem) {r : MmbItem × MmbItem}
    → co_conv_parts c ≡ ok r
    → (p : ℕ) × (c ≡ co_conv p r.0 r.1)
unfolding co_conv_parts
co_conv_parts-eq (co_conv p a b) e =
    (p, ap (λ (q : MmbItem × MmbItem). co_conv p q.0 q.1) (ok_inj e))
co_conv_parts-eq (expr p a) e = absurd (err≢ok e)
co_conv_parts-eq (proof p a) e = absurd (err≢ok e)
co_conv_parts-eq (conv p a b) e = absurd (err≢ok e)

module _ (o : Outline) (mode : Mode) (s s' : MmbState) where
  pub term_inv :
      (n : ℕ) (saved : Bool)
      → proof_term o mode n saved s ≡ ok s'
      → ProofStep o mode s s' (ProofCmd.term n saved)
  unfolding proof_term
  term_inv n saved h =
      let (small, h1) = guarded (ltb n o.header.num_terms) _ h in
      let (t, e1, h2) = >>=-eq-ok (get_term_by_num o n) _ h1 in
      let (k, e2, h3) = >>=-eq-ok (num_args_no_ret t) _ h2 in
      let (d, e3, h4) = >>=-eq-ok (sub_or_panic (length s.stack) k) _ h3 in
      let (type, e4, h5) = >>=-eq-ok (app_type mode t (top k s.stack)) _ h4 in
      term_step n saved e1 e2 (sub_or_panic-eq-ok _ _ e3) e4 (sym (ok_inj h5))

  thm_inv_at :
      (n : ℕ) (saved : Bool) (t : Assert) (sig : List Ty) (a : MmbItem) (rest : List MmbItem)
      → get_assert_by_num o n ≡ ok t
      → assert_args t ≡ ok sig
      → s.stack ≡ a ∷ rest
      → length sig ≤ length rest
      → (do
        check_bound
            (s.uheap ++ top (length sig) rest)
            (bound_by_sig 0 (zip sig (top (length sig) rest)))
        check_unbound
            (bound_by_sig 0 (zip sig (top (length sig) rest)))
            (zip sig (top (length sig) rest))
        s₁ ←
            run_unify u_thm t.unify a (record s {
              stack = drop (length sig) rest;
              uheap = s.uheap ++ top (length sig) rest;
            })
        ok (push_proof saved a s₁))
        ≡ ok s'
      → ProofStep o mode s s' (ProofCmd.thm n saved)
  thm_inv_at n saved t sig a rest e1 e2 e3 e4 h =
      let (u, e5, h1) =
        >>=-eq-ok
          (check_bound (s.uheap ++ top (length sig) rest)
            (bound_by_sig 0 (zip sig (top (length sig) rest))))
          _ h in
      let (v, e6, h2) =
        >>=-eq-ok
          (check_unbound (bound_by_sig 0 (zip sig (top (length sig) rest)))
            (zip sig (top (length sig) rest)))
          _ h1 in
      let (s₁, e7, h3) =
        >>=-eq-ok
          (run_unify u_thm t.unify a
            (record s { stack = drop (length sig) rest; uheap = s.uheap ++ top (length sig) rest }))
          _ h2 in
      thm_step n saved e1 e2 e3 e4 e5 e6 e7 (sym (ok_inj h3))

  pub thm_inv :
      (n : ℕ) (saved : Bool)
      → proof_thm o n saved s ≡ ok s'
      → ProofStep o mode s s' (ProofCmd.thm n saved)
  unfolding proof_thm
  thm_inv n saved h =
      let (small, h1) = guarded (ltb n o.header.num_thms) _ h in
      let (t, e1, h2) = >>=-eq-ok (get_assert_by_num o n) _ h1 in
      let (sig, e2, h3) = >>=-eq-ok (assert_args t) _ h2 in
      let (r, e3, h4) = >>=-eq-ok (none_err (pop? s.stack)) _ h3 in
      let (d, e4, h5) = >>=-eq-ok (sub_or_panic (length r.1) (length sig)) _ h4 in
      thm_inv_at n saved t sig r.0 r.1 e1 e2 (pop?-eq s.stack (none_err-eq-ok _ e3))
        (sub_or_panic-eq-ok _ _ e4) h5

  pub unfold_inv : proof_unfold o s ≡ ok s' → ProofStep o mode s s' ProofCmd.unfold_cmd
  unfolding proof_unfold
  unfold_inv h =
      let ((e_prime, r1), e1, h1) = >>=-eq-ok (none_err (pop? s.stack)) _ h in
      let ((f_ebar, r2), e2, h2) = >>=-eq-ok (none_err (pop? r1)) _ h1 in
      let ((n, ebar), e3, h3) = >>=-eq-ok (app_parts f_ebar) _ h2 in
      let (empty, h4) = guarded (is_empty s.uheap) _ h3 in
      let (t, e4, h5) = >>=-eq-ok (get_term_by_num o n) _ h4 in
      let (s₁, e5, h6) = >>=-eq-ok (run_unify u_def t.unify e_prime _) _ h5 in
      let ((c, r3), e6, h7) = >>=-eq-ok (none_err (pop? s₁.stack)) _ h6 in
      let ((f_ebar2, e2'), e7, h8) = >>=-eq-ok (co_conv_parts c) _ h7 in
      let (same, h9) = guarded (item_eq f_ebar f_ebar2) _ h8 in
      let (p, type, ef) = app_parts-eq f_ebar e3 in
      let (q, ec) = co_conv_parts-eq c e7 in
      unfold_step {p = p} {q = q}
        (pop?-eq s.stack (none_err-eq-ok _ e1)
          ∙ ap (λ (r : List MmbItem). e_prime ∷ r)
              (pop?-eq r1 (none_err-eq-ok _ e2) ∙ ap (λ (f : MmbItem). f ∷ r2) ef))
        (is_empty-eq s.uheap empty) e4
        (subst
          (λ uh.
            run_unify u_def t.unify e_prime (record s { stack = r2; uheap = uh ++ to_list ebar })
            ≡ ok s₁)
          (is_empty-eq s.uheap empty) e5)
        (pop?-eq s₁.stack (none_err-eq-ok _ e6) ∙ ap (λ (f : MmbItem). f ∷ r3) ec)
        (subst (λ f. item_eq f f_ebar2 ≡ true) ef same) (sym (ok_inj h9))
