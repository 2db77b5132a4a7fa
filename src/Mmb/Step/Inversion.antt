-- ===== src/Mmb/Step/Inversion.antt =====
-- src/mmb/proof.rs: what each command has done when it succeeds.
use second_opinion.Prelude.{
  ℕ, ◌*◌, ◌/◌, ◌^◌, ltb, bit_and, true, not, List, [], ◌∷◌, length, get_elem?, ◌==◌, ==_iff, ◌≡◌,
  refl, sym, ap, ◌∙◌, subst, some, ok, ok_inj, err≢ok, guarded, none_err-eq-ok, unwrap-eq-ok,
  unwrap_res, none_err, unwrap_res-eq-ok, ◌>>=◌, >>=-eq-ok, ltb→lt, arith,
}
use second_opinion.Util.Ty.{sort}
use second_opinion.Util.Header.{sort_provable, sort_strict}
use second_opinion.Util.Outline.{Outline, get_sort_mods}
use second_opinion.Mmb.ProofCmd.{Mode, ProofCmd, def_mode, thm_mode}
use second_opinion.Mmb.Item.{
  MmbItem, app, expr, proof, conv, co_conv, to_list, address, item_eq, get_ty,
}
use second_opinion.Mmb.State.{MmbState, take_next_bv}
use second_opinion.Mmb.Unify.{pop?}
use second_opinion.Mmb.Proof.Vars.{
  is_def_mode, add_var, proof_ref, proof_dummy, proof_hyp, save_item, proof_save,
}
use second_opinion.Mmb.Proof.Conv.{
  proof_conv, proof_refl, proof_sym, cong_at, proof_cong, proof_conv_cut, conv_ref_at,
  proof_conv_ref, proof_conv_save,
}
use second_opinion.Mmb.Step.{
  ProofStep, ref_step, dummy_step, hyp_step, conv_step, refl_step, sym_step, cong_step,
  conv_cut_step, conv_ref_step, conv_save_step, save_step,
}

module _ (o : Outline) (mode : Mode) (s s' : MmbState) where
  pub ref_inv : (i : ℕ) → proof_ref i s ≡ ok s' → ProofStep o mode s s' (ProofCmd.ref i)
  unfolding proof_ref
  ref_inv i h =
      let (e, e1, e2) = >>=-eq-ok _ _ h in ref_step i (unwrap-eq-ok _ e1) (sym (ok_inj e2))

  pub conv_inv :
      (st : List MmbItem)
      → s.stack ≡ st
      → proof_conv s ≡ ok s'
      → ProofStep o mode s s' ProofCmd.conv
  unfolding proof_conv
  conv_inv [] hs h = absurd (err≢ok (rw hs at h))
  conv_inv (x ∷ []) hs h = absurd (err≢ok (rw hs at h))
  conv_inv (proof p e2 ∷ e1 ∷ rest) hs h = conv_step hs (sym (ok_inj (rw hs at h)))
  conv_inv (_ ∷ e1 ∷ rest) hs h = absurd (err≢ok (rw hs at h))

  pub refl_inv :
      (st : List MmbItem)
      → s.stack ≡ st
      → proof_refl s ≡ ok s'
      → ProofStep o mode s s' ProofCmd.refl_cmd
  unfolding proof_refl
  refl_inv [] hs h = absurd (err≢ok (rw hs at h))
  refl_inv (co_conv p a b ∷ rest) hs h =
      let (same, e) =
        guarded (address a == address b) (ok (record s { stack = rest })) (rw hs at h) in
      refl_step hs ((==_iff _ _).0 same) (sym (ok_inj e))
  refl_inv (_ ∷ rest) hs h = absurd (err≢ok (rw hs at h))

  pub sym_inv :
      (st : List MmbItem)
      → s.stack ≡ st
      → proof_sym s ≡ ok s'
      → ProofStep o mode s s' ProofCmd.sym_cmd
  unfolding proof_sym
  sym_inv [] hs h = absurd (err≢ok (rw hs at h))
  sym_inv (co_conv p a b ∷ rest) hs h = sym_step hs (sym (ok_inj (rw hs at h)))
  sym_inv (_ ∷ rest) hs h = absurd (err≢ok (rw hs at h))

  cong_inv_at :
      (p : ℕ) (a b : MmbItem) (rest : List MmbItem)
      → s.stack ≡ co_conv p a b ∷ rest
      → cong_at a b (record s { stack = rest }) ≡ ok s'
      → ProofStep o mode s s' ProofCmd.cong
  unfolding cong_at
  cong_inv_at p (expr q (app n xs t)) (expr r (app m ys u)) rest hs h =
      let (same, h1) = guarded (n == m) _ h in
      let (lens, h2) = guarded (length (to_list xs) == length (to_list ys)) _ h1 in
      cong_step
        (subst (λ k. s.stack ≡ co_conv p (expr q (app n xs t)) (expr r (app k ys u)) ∷ rest)
          (sym ((==_iff n m).0 same)) hs)
        ((==_iff _ _).0 lens) (sym (ok_inj h2))
  cong_inv_at p _ _ rest hs h = absurd (err≢ok h)

  pub cong_inv :
      (st : List MmbItem)
      → s.stack ≡ st
      → proof_cong s ≡ ok s'
      → ProofStep o mode s s' ProofCmd.cong
  unfolding proof_cong
  cong_inv [] hs h = absurd (err≢ok (rw hs at h))
  cong_inv (co_conv p a b ∷ rest) hs h = cong_inv_at p a b rest hs (rw hs at h)
  cong_inv (_ ∷ rest) hs h = absurd (err≢ok (rw hs at h))

  pub conv_cut_inv :
      (st : List MmbItem)
      → s.stack ≡ st
      → proof_conv_cut s ≡ ok s'
      → ProofStep o mode s s' ProofCmd.conv_cut
  unfolding proof_conv_cut
  conv_cut_inv [] hs h = absurd (err≢ok (rw hs at h))
  conv_cut_inv (co_conv p a b ∷ rest) hs h = conv_cut_step hs (sym (ok_inj (rw hs at h)))
  conv_cut_inv (_ ∷ rest) hs h = absurd (err≢ok (rw hs at h))

  conv_ref_inv_at :
      (i : ℕ) (x y : MmbItem) (rest : List MmbItem)
      → get_elem? s.heap i ≡ some x
      → s.stack ≡ y ∷ rest
      → conv_ref_at x y (record s { stack = rest }) ≡ ok s'
      → ProofStep o mode s s' (ProofCmd.conv_ref i)
  unfolding conv_ref_at
  conv_ref_inv_at i (conv p c1 c2) (co_conv q a b) rest hx hs h =
      let (e1, h1) = guarded (item_eq c1 a) _ h in
      let (e2, h2) = guarded (item_eq c2 b) _ h1 in conv_ref_step i hx hs e1 e2 (sym (ok_inj h2))
  conv_ref_inv_at i _ _ rest hx hs h = absurd (err≢ok h)

  pub conv_ref_inv :
      (i : ℕ) (st : List MmbItem)
      → s.stack ≡ st
      → proof_conv_ref i s ≡ ok s'
      → ProofStep o mode s s' (ProofCmd.conv_ref i)
  unfolding proof_conv_ref
  conv_ref_inv i [] hs h =
      let (x, e1, e2) = >>=-eq-ok (none_err (get_elem? s.heap i)) _ h in
      absurd (err≢ok (rw hs at e2))
  conv_ref_inv i (y ∷ rest) hs h =
      let (x, e1, e2) = >>=-eq-ok (none_err (get_elem? s.heap i)) _ h in
      conv_ref_inv_at i x y rest (none_err-eq-ok _ e1) hs (rw hs at e2)

  pub conv_save_inv :
      (st : List MmbItem)
      → s.stack ≡ st
      → proof_conv_save s ≡ ok s'
      → ProofStep o mode s s' ProofCmd.conv_save
  unfolding proof_conv_save
  conv_save_inv [] hs h = absurd (err≢ok (rw hs at h))
  conv_save_inv (conv p a b ∷ rest) hs h = conv_save_step hs (sym (ok_inj (rw hs at h)))
  conv_save_inv (_ ∷ rest) hs h = absurd (err≢ok (rw hs at h))

  save_inv_at :
      (st : List MmbItem)
      → s.stack ≡ st
      → (do (e, rest) ← none_err (pop? st); save_item e s) ≡ ok s'
      → ProofStep o mode s s' ProofCmd.save
  save_inv_at [] hs h = absurd (err≢ok h)
  save_inv_at (co_conv p a b ∷ rest) hs h = absurd (err≢ok h)
  save_inv_at (expr p e ∷ rest) hs h = save_step hs (λ q a b e. cc) (sym (ok_inj h))
  save_inv_at (proof p e ∷ rest) hs h = save_step hs (λ q a b e. cc) (sym (ok_inj h))
  save_inv_at (conv p a b ∷ rest) hs h = save_step hs (λ q a b e. cc) (sym (ok_inj h))

  pub save_inv : proof_save s ≡ ok s' → ProofStep o mode s s' ProofCmd.save
  unfolding proof_save
  save_inv h = save_inv_at s.stack refl h

  pub hyp_inv :
      (st : List MmbItem)
      → s.stack ≡ st
      → proof_hyp o mode s ≡ ok s'
      → ProofStep o mode s s' ProofCmd.hyp
  unfolding proof_hyp
  hyp_inv [] hs h =
      let (m, h1) = guarded (not (is_def_mode mode)) _ h in absurd (err≢ok (rw hs at h1))
  hyp_inv (e ∷ rest) hs h =
      let (m, h1) = guarded (not (is_def_mode mode)) _ h in
      let (t, e1, h2) = >>=-eq-ok (get_ty e) _ (rw hs at h1) in
      let (mods, e2, h3) = >>=-eq-ok (unwrap_res (get_sort_mods o (sort t))) _ h2 in
      let (prov, h4) = guarded (not (bit_and mods sort_provable == 0)) _ h3 in
      hyp_step (thm_of mode m) hs e1 (unwrap_res-eq-ok _ e2) prov (sym (ok_inj h4))
    where
      thm_of : (md : Mode) → not (is_def_mode md) ≡ true → md ≡ thm_mode
      thm_of thm_mode q = refl
      thm_of def_mode q = ground arith

  pub dummy_inv : (n : ℕ) → proof_dummy o n s ≡ ok s' → ProofStep o mode s s' (ProofCmd.dummy n)
  unfolding proof_dummy
  dummy_inv n h =
      let (small, h1) = guarded (ltb n o.header.num_sorts) _ h in
      let (mods, e1, h2) = >>=-eq-ok (unwrap_res (get_sort_mods o n)) _ h1 in
      let (strict, h3) = guarded (bit_and mods sort_strict == 0) _ h2 in
      let (room, h4) = guarded (s.next_bv / 2 ^ 56 == 0) _ h3 in
      let (r, e2, h5) = >>=-eq-ok (take_next_bv s) _ h4 in
      let (d, bv) = took r e2 in
      dummy_step n (ltb→lt _ _ small) (ground arith)
        (sym (ok_inj h5) ∙ ap (λ (q : ℕ × MmbState). add_var n q.0 q.1) bv)
    where
      took :
          (r : ℕ × MmbState)
          → take_next_bv s ≡ ok r
          → Unit {0} × (r ≡ (s.next_bv, record s { next_bv = s.next_bv * 2 }))
      took r e = ground arith
