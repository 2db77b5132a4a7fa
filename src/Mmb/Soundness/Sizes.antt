-- ===== src/Mmb/Soundness/Sizes.antt =====
-- src/mmb/proof.rs: the proof machine keeps to the number of arguments of each term.
use second_opinion.Prelude.{
  ℕ, List, [], ◌∷◌, length, ◌≤◌, All, All-drop, All-snoc, All-get_elem?, ◌≡◌, refl, sym, ap, ◌∙◌,
  subst, ok,
}
use second_opinion.Util.Ty.{Ty}
use second_opinion.Util.Outline.{Outline, Term, get_term_by_num, num_args_no_ret}
use second_opinion.Mmb.ProofCmd.{Mode, ProofCmd}
use second_opinion.Mmb.Item.{MmbItem, app, var, expr, proof, conv, co_conv, from_list}
use second_opinion.Mmb.State.{MmbState, top}
use second_opinion.Mmb.Unify.{u_thm, u_def}
use second_opinion.Mmb.Unify.Pattern.{HasArity}
use second_opinion.Mmb.Step.{
  ProofStep, ref_step, dummy_step, term_step, thm_step, hyp_step, conv_step, refl_step, sym_step,
  cong_step, unfold_step, conv_cut_step, conv_ref_step, conv_save_step, save_step,
}
use second_opinion.Mmb.Soundness.{IsVar}
use second_opinion.Mmb.Soundness.Declared.{Loaded}
use second_opinion.Mmb.Soundness.Longer.{u_thm-ne-u_thm_end, u_def-ne-u_thm_end}
use second_opinion.Mmb.Proof.{proof_cmd}
use second_opinion.Mmb.Step.Refinement.{proof_cmd-ProofStep}
use second_opinion.Mmb.Soundness.Run.{Reaches, start, step}
use second_opinion.Mmb.Soundness.Arity.{
  file_arity, length-top, to_list-from_list, Sized, from_list-ItemsHaveArity, All-top, saved_Sized,
  pairs_Sized, run_unify-Sized,
}

module _ (o : Outline) where
  -- Each application has the arguments of its term in the file.
  abbrev Full : MmbItem → Type 0
  Full = HasArity (file_arity o)

  abbrev FullState : MmbState → Type 0
  FullState = Sized (file_arity o)

  on : {st xs : List MmbItem} → st ≡ xs → All Full st → All Full xs
  on e h = subst (All Full) e h

  known_arity :
      (n k : ℕ) {t : Term}
      → get_term_by_num o n ≡ ok t
      → num_args_no_ret t ≡ ok k
      → k ≡ file_arity o n
  unfolding file_arity
  known_arity n k e f = rw (e, f) refl

  app-HasArity :
      (n k p : ℕ) (type : Ty) (st : List MmbItem) {t : Term}
      → get_term_by_num o n ≡ ok t
      → num_args_no_ret t ≡ ok k
      → k ≤ length st
      → All Full st
      → Full (expr p (app n (from_list (top k st)) type))
  app-HasArity n k p type st e f h a = (
    ap length (to_list-from_list (top k st)) ∙ length-top k st h ∙ known_arity n k e f,
    from_list-ItemsHaveArity (file_arity o) (top k st) (All-top (file_arity o) k st a),
  )

  step-Sized :
      (mode : Mode) (s s' : MmbState) {cmd : ProofCmd}
      → ProofStep o mode s s' cmd
      → FullState s
      → FullState s'
  step-Sized mode s s' (ref_step i e q) z = subst FullState (sym q) (record {
    on_stack = (All-get_elem? Full s.heap i z.on_heap e, z.on_stack);
    on_heap = z.on_heap;
    on_hstack = z.on_hstack;
  })
  step-Sized mode s s' (dummy_step n e1 e2 q) z = subst FullState (sym q) (record {
    on_stack = (tt, z.on_stack);
    on_heap = All-snoc Full s.heap _ z.on_heap tt;
    on_hstack = z.on_hstack;
  })
  step-Sized mode s s' (term_step n saved {k = k} {type = type} e1 e2 e3 e4 q) z =
      let new = app-HasArity n k s.next_addr type s.stack e1 e2 e3 z.on_stack in
      subst FullState (sym q) (record {
        on_stack = (new, All-drop Full k s.stack z.on_stack);
        on_heap = saved_Sized (file_arity o) saved _ s.heap new z.on_heap;
        on_hstack = z.on_hstack;
      })
  step-Sized mode s s'
        (thm_step n saved {a = a} {rest = rest} {t = t} {sig = sig} {s₁ = s₁} e1 e2 e3 e4 e5 e6 e7
          q)
        z =
      let st = on e3 z.on_stack in
      let z1 = run_unify-Sized (file_arity o) u_thm t.unify a _ s₁ u_thm-ne-u_thm_end e7 (record {
        on_stack = All-drop Full (length sig) rest st.1;
        on_heap = z.on_heap;
        on_hstack = z.on_hstack;
      }) in
      subst FullState (sym q) (record {
        on_stack = (st.0, z1.on_stack);
        on_heap = saved_Sized (file_arity o) saved _ s₁.heap st.0 z1.on_heap;
        on_hstack = z1.on_hstack;
      })
  step-Sized mode s s' (hyp_step e1 e2 e3 e4 e5 q) z =
      let st = on e2 z.on_stack in
      subst FullState (sym q) (record {
        on_stack = st.1;
        on_heap = All-snoc Full s.heap _ z.on_heap st.0;
        on_hstack = (st.0, z.on_hstack);
      })
  step-Sized mode s s' (conv_step e1 q) z =
      let st = on e1 z.on_stack in
      subst FullState (sym q) (record {
        on_stack = ((st.1.0, st.0), (st.1.0, st.1.1));
        on_heap = z.on_heap;
        on_hstack = z.on_hstack;
      })
  step-Sized mode s s' (refl_step e1 e2 q) z =
      let st = on e1 z.on_stack in
      subst FullState (sym q)
        (record { on_stack = st.1; on_heap = z.on_heap; on_hstack = z.on_hstack })
  step-Sized mode s s' (sym_step e1 q) z =
      let st = on e1 z.on_stack in
      subst FullState (sym q) (record {
        on_stack = ((st.0.1, st.0.0), st.1);
        on_heap = z.on_heap;
        on_hstack = z.on_hstack;
      })
  step-Sized mode s s' (cong_step {xs = xs} {ys = ys} {rest = rest} e1 e2 q) z =
      let st = on e1 z.on_stack in
      subst FullState (sym q) (
        pairs_Sized (file_arity o) xs ys (record s { stack = rest }) st.0.0.1 st.0.1.1
          (record { on_stack = st.1; on_heap = z.on_heap; on_hstack = z.on_hstack }))
  step-Sized mode s s'
        (unfold_step {e_prime = e_prime} {ebar = ebar} {r2 = r2} {t = t} {s₁ = s₁} e1 e2 e3 e4 e5 e6
          q)
        z =
      let st = on e1 z.on_stack in
      let z1 =
        run_unify-Sized (file_arity o) u_def t.unify e_prime _ s₁ u_def-ne-u_thm_end e4
          (record { on_stack = st.1.1; on_heap = z.on_heap; on_hstack = z.on_hstack }) in
      let st1 = on e5 z1.on_stack in
      subst FullState (sym q) (record {
        on_stack = ((st.0, st1.0.1), st1.1);
        on_heap = z1.on_heap;
        on_hstack = z1.on_hstack;
      })
  step-Sized mode s s' (conv_cut_step e1 q) z =
      let st = on e1 z.on_stack in
      subst FullState (sym q)
        (record { on_stack = (st.0, (st.0, st.1)); on_heap = z.on_heap; on_hstack = z.on_hstack })
  step-Sized mode s s' (conv_ref_step i e1 e2 e3 e4 q) z =
      let st = on e2 z.on_stack in
      subst FullState (sym q)
        (record { on_stack = st.1; on_heap = z.on_heap; on_hstack = z.on_hstack })
  step-Sized mode s s' (conv_save_step e1 q) z =
      let st = on e1 z.on_stack in
      subst FullState (sym q) (record {
        on_stack = st.1;
        on_heap = All-snoc Full s.heap _ z.on_heap st.0;
        on_hstack = z.on_hstack;
      })
  step-Sized mode s s' (save_step e1 e2 q) z =
      let st = on e1 z.on_stack in
      subst FullState (sym q) (record {
        on_stack = z.on_stack;
        on_heap = All-snoc Full s.heap _ z.on_heap st.0;
        on_hstack = z.on_hstack;
      })

  -- A command that `run_proof` executes without an error keeps the items to the terms of the file:
  -- when each application on the stack, on the heap and among the hypotheses has as many arguments as
  -- its term in the file, then so it is behind the command.
  pub proof_cmd-Sized :
      (mode : Mode) (cmd : ProofCmd) (s s' : MmbState)
      → Sized (file_arity o) s
      → proof_cmd o mode cmd s ≡ ok s'
      → Sized (file_arity o) s'
  proof_cmd-Sized mode cmd s s' z h = step-Sized mode s s' (proof_cmd-ProofStep o mode cmd s s' h) z

  -- Each application that a run builds has as many arguments as its term in the file.
  pub Reaches-Sized :
      {mode : Mode} {s t : MmbState}
      → Reaches o mode s t
      → Sized (file_arity o) s
      → Sized (file_arity o) t
  Reaches-Sized start z = z
  Reaches-Sized {mode = mode} (step {t = t} {u = u} cmd r e x) z =
      proof_cmd-Sized mode cmd t u (Reaches-Sized r z) e

  IsVar-HasArity : (es : List MmbItem) → All IsVar es → All Full es
  IsVar-HasArity [] h = tt
  IsVar-HasArity (expr p (var i t) ∷ es) h = (tt, IsVar-HasArity es h.1)
  IsVar-HasArity (expr p (app n xs t) ∷ es) h = absurd h.0
  IsVar-HasArity (proof p e ∷ es) h = absurd h.0
  IsVar-HasArity (conv p a b ∷ es) h = absurd h.0
  IsVar-HasArity (co_conv p a b ∷ es) h = absurd h.0

  pub Loaded-Sized : {num : ℕ} {s : MmbState} → Loaded num s → Sized (file_arity o) s
  Loaded-Sized {s = s} l = record {
    on_stack = subst (All Full) (sym l.no_stack) tt;
    on_heap = IsVar-HasArity s.heap l.vars;
    on_hstack = subst (All Full) (sym l.no_hstack) tt;
  }
