-- ===== src/Mmb/Soundness/Preserve.antt =====
-- src/mmb/proof.rs: each command and the soundness of the state.
use second_opinion.Prelude.{
  ℕ, List, [], ◌∷◌, ◌++◌, length, take, drop, All, All-snoc, All-get_elem?, ◌≡◌, refl, sym, subst,
  ok,
}
use mathlib.Core.List.{zip}
use second_opinion.Util.Ty.{Ty}
use second_opinion.Util.Outline.{Outline, Assert, get_assert_by_num, assert_args}
use second_opinion.Mmb.ProofCmd.{Mode, ProofCmd}
use second_opinion.Mmb.Item.{MmbItem, app, expr, proof, conv, co_conv, to_list}
use second_opinion.Mmb.State.{MmbState, top}
use second_opinion.Mmb.Unify.{u_thm, u_def, run_unify}
use second_opinion.Mmb.Proof.Apply.{bound_by_sig, check_bound, check_unbound}
use second_opinion.Mmb.Step.{
  ProofStep, ref_step, dummy_step, term_step, thm_step, hyp_step, conv_step, refl_step, sym_step,
  cong_step, unfold_step, conv_cut_step, conv_ref_step, conv_save_step, save_step,
}
use second_opinion.Mmb.Soundness.Arena.{Stored, same_address, Allocated}
use second_opinion.Mmb.Soundness.{
  Equal, itself, alike, reversed, chained, congruent, unfolded, Provable, assumed, converted,
  applied, Holds, Stacked, Sound, IsExpr,
}
use second_opinion.Mmb.Soundness.Frame.{run_unify-Framed}
use second_opinion.Mmb.Soundness.Steps.{
  TakesExprs, term_args-IsExpr, thm_args-IsExpr, conv_arg-IsExpr, unfold_arg-IsExpr, expr-Met,
  typed-Met, saved_also, Stacked-drop, Stacked-popped, pairs-Stacked, pairs-frame,
}

module _ (o : Outline) (Hyp : MmbItem → Type 0) (s : MmbState) (c : Sound o Hyp s)
    (hyps : All Hyp s.hstack) where
  claims : (st : List MmbItem) → s.stack ≡ st → Stacked o Hyp st
  claims st hs = subst (Stacked o Hyp) hs ((c hyps).0)

  on_heap : All (Holds o Hyp) s.heap
  on_heap = (c hyps).1

  thm-Stacked :
      (n : ℕ) (a : MmbItem) (rest : List MmbItem) (t : Assert) (sig : List Ty) (s₁ : MmbState)
      → s.ustack ≡ []
      → s.uheap ≡ []
      → IsExpr a
      → All IsExpr (take (length sig) rest)
      → get_assert_by_num o n ≡ ok t
      → assert_args t ≡ ok sig
      → s.stack ≡ a ∷ rest
      → check_bound
          (s.uheap ++ top (length sig) rest)
          (bound_by_sig 0 (zip sig (top (length sig) rest)))
        ≡ ok tt
      → check_unbound
          (bound_by_sig 0 (zip sig (top (length sig) rest)))
          (zip sig (top (length sig) rest))
        ≡ ok tt
      → run_unify u_thm t.unify a
          (record s { stack = drop (length sig) rest; uheap = s.uheap ++ top (length sig) rest })
        ≡ ok s₁
      → Provable o Hyp a × Stacked o Hyp s₁.stack
  thm-Stacked n a rest t sig s₁ us u ia ir e1 e2 e3 e5 e6 e7 =
      let with_args : MmbState = record s {
        stack = drop (length sig) rest;
        uheap = top (length sig) rest;
      } in
      let e5' : check_bound (top (length sig) rest)
            (bound_by_sig 0 (zip sig (top (length sig) rest)))
          ≡ ok tt =
        subst
          (λ uh.
            check_bound (uh ++ top (length sig) rest)
              (bound_by_sig 0 (zip sig (top (length sig) rest)))
            ≡ ok tt)
          u e5 in
      let e7' : run_unify u_thm t.unify a with_args ≡ ok s₁ =
        subst
          (λ uh.
            run_unify u_thm t.unify a
              (record s { stack = drop (length sig) rest; uheap = uh ++ top (length sig) rest })
            ≡ ok s₁)
          u e7 in
      let f = run_unify-Framed u_thm t.unify a with_args s₁ (λ q. cc) e7' in
      let below =
        Stacked-drop o Hyp (length sig) rest ir ((claims (a ∷ rest) e3).1 (expr-Met o Hyp a ia)) in
      let (ps, left) =
        Stacked-popped o Hyp f.popped s₁.stack f.were_proofs (subst (Stacked o Hyp) f.took below) in
      (applied n with_args e1 e2 us e5' e6 e7' f.took ps, left)

-- A step of the proof machine that takes expressions only where it expects them keeps the state
-- sound: the claims on the heap stay consequences of the hypotheses, and a claim on the stack stays
-- one of the hypotheses and the obligations above it. The unify stack and heap are empty before the
-- step, as they are between commands, and the items are in the arena.
pub ProofStep-Sound :
    (o : Outline) (Hyp : MmbItem → Type 0) (mode : Mode) (m : List MmbItem) (s s' : MmbState)
    {cmd : ProofCmd} (step : ProofStep o mode s s' cmd)
    → TakesExprs o cmd s
    → s.ustack ≡ []
    → s.uheap ≡ []
    → Allocated m s
    → Sound o Hyp s
    → Sound o Hyp s'
ProofStep-Sound o Hyp mode m s s' (ref_step i {e = e} h q) x us u al c =
    subst (Sound o Hyp) (sym q) (λ hs. (
      (
        All-get_elem? (Holds o Hyp) s.heap i (on_heap o Hyp s c hs) h,
        λ m. claims o Hyp s c hs s.stack refl,
      ),
      on_heap o Hyp s c hs,
    ))
ProofStep-Sound o Hyp mode m s s' (dummy_step n e1 e2 q) x us u al c =
    subst (Sound o Hyp) (sym q) (λ hs. (
      (tt, λ m. claims o Hyp s c hs s.stack refl),
      All-snoc (Holds o Hyp) s.heap _ (on_heap o Hyp s c hs) tt,
    ))
ProofStep-Sound o Hyp mode m s s' (term_step n saved {k = k} {type = type} e1 e2 e3 e4 q) x us u al
      c =
    subst (Sound o Hyp) (sym q) (λ hs. (
      (
        tt,
        λ m.
            Stacked-drop o Hyp k s.stack (term_args-IsExpr o s n k saved e1 e2 x)
              (claims o Hyp s c hs s.stack refl),
      ),
      saved_also o Hyp saved _ s.heap tt (on_heap o Hyp s c hs),
    ))
ProofStep-Sound o Hyp mode m s s'
      (thm_step n saved {a = a} {rest = rest} {t = t} {sig = sig} {s₁ = s₁} e1 e2 e3 e4 e5 e6 e7 q)
      x us u al c =
    subst (Sound o Hyp) (sym q) (λ h.
      let f =
        run_unify-Framed u_thm t.unify a
          (record s { stack = drop (length sig) rest; uheap = s.uheap ++ top (length sig) rest }) s₁
          (λ w. cc) e7 in
      let hs = subst (All Hyp) f.same_hstack h in
      let (ia, ir) = thm_args-IsExpr o s n saved a rest e1 e2 e3 x in
      let r = thm-Stacked o Hyp s c hs n a rest t sig s₁ us u ia ir e1 e2 e3 e5 e6 e7 in
      (
        (r.0, λ m. r.1),
        saved_also o Hyp saved (proof s₁.next_addr a) s₁.heap r.0
            (subst (All (Holds o Hyp)) (sym f.same_heap) (on_heap o Hyp s c hs)),
      ))
ProofStep-Sound o Hyp mode m s s' (hyp_step {e = e} {rest = rest} e1 hs e3 e4 e5 q) x us u al c =
    subst (Sound o Hyp) (sym q) (λ h. (
      (claims o Hyp s c h.1 (e ∷ rest) hs).1 (typed-Met o Hyp e e3),
      All-snoc (Holds o Hyp) s.heap (proof s.next_addr e) (on_heap o Hyp s c h.1) (assumed h.0),
    ))
ProofStep-Sound o Hyp mode m s s' (conv_step {p = p} {e1 = e1} {e2 = e2} {rest = rest} hs q) x us u
      al c =
    subst (Sound o Hyp) (sym q) (λ h.
      let st = claims o Hyp s c h (proof p e2 ∷ e1 ∷ rest) hs in
      (
        (
          tt,
          λ e. (
            converted e st.0,
            λ m. (st.1 tt).1 (expr-Met o Hyp e1 (conv_arg-IsExpr o s (proof p e2) e1 rest hs x)),
          ),
        ),
        on_heap o Hyp s c h,
      ))
ProofStep-Sound o Hyp mode m s s' (refl_step {p = p} {a = a} {b = b} {rest = rest} hs e q) x us u al
      c =
    subst (Sound o Hyp) (sym q) (λ h.
      let st = subst (All (Stored m)) hs al.on_stack in
      let same : a ≡ b = same_address m a b st.0.1 st.0.2 e in
      (
        (claims o Hyp s c h (co_conv p a b ∷ rest) hs).1 (subst (λ z. Equal o a z) same itself),
        on_heap o Hyp s c h,
      ))
ProofStep-Sound o Hyp mode m s s' (sym_step {p = p} {a = a} {b = b} {rest = rest} hs q) x us u al
      c =
    subst (Sound o Hyp) (sym q) (λ h. (
      (tt, λ e. (claims o Hyp s c h (co_conv p a b ∷ rest) hs).1 (reversed e)),
      on_heap o Hyp s c h,
    ))
ProofStep-Sound o Hyp mode m s s'
      (cong_step {p = p} {q = r} {r = r'} {n = n} {xs = xs} {ys = ys} {t = t} {u = v} {rest = rest}
        hs l q)
      x us u al c =
    subst (Sound o Hyp) (sym q) (λ h.
      let fr = pairs-frame o Hyp xs ys (record s { stack = rest }) in
      let hh = subst (All Hyp) fr.1 h in
      (
        pairs-Stacked o Hyp xs ys (record s { stack = rest }) l
            (λ es.
              (claims o Hyp s c hh (co_conv p (expr r (app n xs t)) (expr r' (app n ys v)) ∷ rest)
                  hs).1
                (congruent es)),
        subst (All (Holds o Hyp)) (sym fr.0) (on_heap o Hyp s c hh),
      ))
ProofStep-Sound o Hyp mode m s s'
      (unfold_step {p = p} {q = r} {n = n} {e_prime = e} {f_ebar2 = f2} {e2 = e2} {ebar = ebar}
        {type = type} {r2 = r2} {r3 = r3} {t = t} {s₁ = s₁} hs un e3 e4 e5 e6 q)
      x us u al c =
    subst (Sound o Hyp) (sym q) (λ h.
      let from : MmbState = record s { stack = r2; uheap = to_list ebar } in
      let f = run_unify-Framed u_def t.unify e from s₁ (λ w. cc) e4 in
      let hh = subst (All Hyp) f.same_hstack h in
      let st = claims o Hyp s c hh (e ∷ expr p (app n ebar type) ∷ r2) hs in
      let left = Stacked-popped o Hyp f.popped s₁.stack f.were_proofs (
        subst (Stacked o Hyp) f.took
          ((st.1 (expr-Met o Hyp e (unfold_arg-IsExpr o s e _ hs x))).1 tt)) in
      let after = subst (Stacked o Hyp) e5 left.1 in
      (
        (
          tt,
          λ eq. after.1 (chained (reversed (alike e6)) (chained (unfolded from e3 us refl e4) eq)),
        ),
        subst (All (Holds o Hyp)) (sym f.same_heap) (on_heap o Hyp s c hh),
      ))
ProofStep-Sound o Hyp mode m s s' (conv_cut_step {p = p} {a = a} {b = b} {rest = rest} hs q) x us u
      al c =
    subst (Sound o Hyp) (sym q) (λ h. (
      (tt, λ e. (e, λ m. (claims o Hyp s c h (co_conv p a b ∷ rest) hs).1 e)),
      on_heap o Hyp s c h,
    ))
ProofStep-Sound o Hyp mode m s s'
      (conv_ref_step i {p = p} {q = r} {c1 = c1} {c2 = c2} {a = a} {b = b} {rest = rest} e hs e1 e2
        q)
      x us u al c =
    subst (Sound o Hyp) (sym q) (λ h. (
      (claims o Hyp s c h (co_conv r a b ∷ rest) hs).1 (
          chained (reversed (alike e1))
            (chained (All-get_elem? (Holds o Hyp) s.heap i (on_heap o Hyp s c h) e) (alike e2))),
      on_heap o Hyp s c h,
    ))
ProofStep-Sound o Hyp mode m s s' (conv_save_step {p = p} {a = a} {b = b} {rest = rest} hs q) x us u
      al c =
    subst (Sound o Hyp) (sym q) (λ h.
      let st = claims o Hyp s c h (conv p a b ∷ rest) hs in
      (st.1 tt, All-snoc (Holds o Hyp) s.heap (conv p a b) (on_heap o Hyp s c h) st.0))
ProofStep-Sound o Hyp mode m s s' (save_step {e = e} {rest = rest} hs e1 q) x us u al c =
    subst (Sound o Hyp) (sym q) (λ h. (
      claims o Hyp s c h s.stack refl,
      All-snoc (Holds o Hyp) s.heap e (on_heap o Hyp s c h) (claims o Hyp s c h (e ∷ rest) hs).0,
    ))
