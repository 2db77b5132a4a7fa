-- ===== src/Mmb/Unify/Statement.antt =====
-- src/mmb/unify.rs: `run_unify` on the stream of a definition's value, and on the stream of a theorem's statement.
use second_opinion.Prelude.{
  ℕ, suc, List, [], ◌∷◌, length, is_empty, All, ◌≡◌, refl, sym, ap, ◌∙◌, subst, fun_ext, append-nil,
  Res, ok, make_sure, ◌>>=◌, ◌>>◌, arith,
}
use second_opinion.Util.Cmd.Loop.{run_list, Decodes, for_cmds-Decodes}
use second_opinion.Util.Cmd.Progress.{try_next_cmd-Advances}
use second_opinion.Mmb.UnifyCmd.{UnifyCmd, UnifyIter, unify_next, unify_try_from}
use second_opinion.Mmb.Item.{MmbItem, expr, proof, conv, co_conv}
use second_opinion.Mmb.State.{MmbState}
use second_opinion.Mmb.Unify.{UMode, u_thm, u_def, u_thm_end, unify_cmd, unify_end, run_unify}
use second_opinion.Mmb.Unify.Pattern.{
  Pattern, commands, statement, hyp_commands, match_pattern, match_proofs, match_declared, HasArity,
  PatternHasArity,
}
use second_opinion.Mmb.Unify.Machine.{run_cmds, run_cmds-commands, with_unify, bind_assoc}

pub run_unify-Decodes :
    (mode : UMode) (unify : UnifyIter) (tgt : MmbItem) (s : MmbState) (cs : List UnifyCmd)
    → Decodes (unify_next unify.buf) unify.pos cs
    → run_unify mode unify tgt s
      ≡ (run_cmds mode cs (with_unify s (tgt ∷ s.ustack) s.uheap) >>= unify_end mode)
unfolding run_unify
run_unify-Decodes mode unify tgt s cs d =
    ap (λ (r : Res MmbState). r >>= unify_end mode)
      (for_cmds-Decodes (length unify.buf) (unify_next unify.buf) (unify_cmd mode)
        (try_next_cmd-Advances unify_try_from unify.buf) (suc (length unify.buf)) unify.pos cs _
        (omega arith) (omega arith) d)

run_value :
    (mode : UMode) (arity : ℕ → ℕ) (p : Pattern) (e : MmbItem) (s : MmbState) (us h : List MmbItem)
    → PatternHasArity arity p
    → HasArity arity e
    → run_cmds mode (commands p) (with_unify s (e ∷ us) h)
      ≡ (match_pattern mode p e h >>= λ h'. ok (with_unify s us h'))
unfolding run_list
run_value mode arity p e s us h hp he =
    subst
      (λ cs.
        run_cmds mode cs (with_unify s (e ∷ us) h)
        ≡ (match_pattern mode p e h >>= λ h'. ok (with_unify s us h')))
      (append-nil (commands p)) (run_cmds-commands mode arity p e hp he [] s us h)

module _ (unify : UnifyIter) (arity : ℕ → ℕ) (p : Pattern) (tgt : MmbItem) (s : MmbState) where
  -- A definition. When its unify stream holds the commands of `p`, the unify stack is empty and the
  -- arities agree, `run_unify` succeeds exactly when `tgt` matches `p` under the unify heap, and
  -- fails with the error of the match otherwise. It leaves the state as it was, the unify heap
  -- cleared.
  pub run_unify_def :
      Decodes (unify_next unify.buf) unify.pos (commands p)
      → PatternHasArity arity p
      → HasArity arity tgt
      → s.ustack ≡ []
      → run_unify u_def unify tgt s
        ≡ (match_pattern u_def p tgt s.uheap >>= λ h. ok (with_unify s [] []))
  unfolding unify_end
  run_unify_def d hp ht e =
      run_unify-Decodes u_def unify tgt s (commands p) d
      ∙ ap (λ (r : Res MmbState). r >>= unify_end u_def)
          (ap (λ (us : List MmbItem). run_cmds u_def (commands p) (with_unify s (tgt ∷ us) s.uheap))
              e
            ∙ run_value u_def arity p tgt s [] s.uheap hp ht)
      ∙ bind_assoc (match_pattern u_def p tgt s.uheap) _ _

abbrev pub at_hyps : MmbState → List MmbItem → List MmbItem → MmbState
at_hyps s st h = record s { stack = st; ustack = []; uheap = h }

run_hyps :
    (arity : ℕ → ℕ) (hyps : List Pattern) (s : MmbState) (st h : List MmbItem)
    → All (PatternHasArity arity) hyps
    → All (HasArity arity) st
    → run_cmds u_thm (hyp_commands hyps) (at_hyps s st h)
      ≡ (match_proofs hyps st h >>= λ r. ok (at_hyps s r.0 r.1))
unfolding run_list hyp_commands match_proofs unify_cmd
run_hyps arity [] s st h hp hs = refl
run_hyps arity (p ∷ ps) s [] h hp hs = refl
run_hyps arity (p ∷ ps) s (expr q e ∷ st) h hp hs = refl
run_hyps arity (p ∷ ps) s (conv q a b ∷ st) h hp hs = refl
run_hyps arity (p ∷ ps) s (co_conv q a b ∷ st) h hp hs = refl
run_hyps arity (p ∷ ps) s (proof q e ∷ st) h hp hs =
    run_cmds-commands u_thm arity p e hp.0 hs.0 (hyp_commands ps) (at_hyps s st h) [] h
    ∙ ap (λ (k : List MmbItem → Res MmbState). match_pattern u_thm p e h >>= k)
        (fun_ext (λ h'. run_hyps arity ps s st h' hp.1 hs.1))
    ∙ sym (bind_assoc (match_pattern u_thm p e h) _ _)

abbrev pub at_declared : MmbState → List MmbItem → List MmbItem → MmbState
at_declared s hs h = record s { hstack = hs; ustack = []; uheap = h }

run_declared :
    (arity : ℕ → ℕ) (hyps : List Pattern) (s : MmbState) (hs h : List MmbItem)
    → All (PatternHasArity arity) hyps
    → All (HasArity arity) hs
    → run_cmds u_thm_end (hyp_commands hyps) (at_declared s hs h)
      ≡ (match_declared hyps hs h >>= λ r. ok (at_declared s r.0 r.1))
unfolding run_list hyp_commands match_declared unify_cmd
run_declared arity [] s hs h hp ha = refl
run_declared arity (p ∷ ps) s [] h hp ha = refl
run_declared arity (p ∷ ps) s (e ∷ hs) h hp ha =
    run_cmds-commands u_thm_end arity p e hp.0 ha.0 (hyp_commands ps) (at_declared s hs h) [] h
    ∙ ap (λ (k : List MmbItem → Res MmbState). match_pattern u_thm_end p e h >>= k)
        (fun_ext (λ h'. run_declared arity ps s hs h' hp.1 ha.1))
    ∙ sym (bind_assoc (match_pattern u_thm_end p e h) _ _)

-- A whole statement: the conclusion by `run_cmds-commands`, the hypotheses by `rest`.
run_statement :
    (mode : UMode) (arity : ℕ → ℕ) (concl : Pattern) (hyps : List Pattern) (tgt : MmbItem)
    (s : MmbState) (rest : List MmbItem → Res MmbState)
    → PatternHasArity arity concl
    → HasArity arity tgt
    → ((h : List MmbItem) → run_cmds mode (hyp_commands hyps) (with_unify s [] h) ≡ rest h)
    → run_cmds mode (statement concl hyps) (with_unify s (tgt ∷ []) s.uheap)
      ≡ (match_pattern mode concl tgt s.uheap >>= rest)
unfolding statement
run_statement mode arity concl hyps tgt s rest hc ht hr =
    run_cmds-commands mode arity concl tgt hc ht (hyp_commands hyps) s [] s.uheap
    ∙ ap (λ (k : List MmbItem → Res MmbState). match_pattern mode concl tgt s.uheap >>= k)
        (fun_ext hr)

module _ (unify : UnifyIter) (arity : ℕ → ℕ) (concl : Pattern) (hyps : List Pattern) (tgt : MmbItem)
    (s : MmbState) where
  run_unify-statement :
      (mode : UMode) (rest : List MmbItem → Res MmbState)
      → Decodes (unify_next unify.buf) unify.pos (statement concl hyps)
      → PatternHasArity arity concl
      → HasArity arity tgt
      → ((h : List MmbItem) → run_cmds mode (hyp_commands hyps) (with_unify s [] h) ≡ rest h)
      → s.ustack ≡ []
      → run_unify mode unify tgt s
        ≡ ((match_pattern mode concl tgt s.uheap >>= rest) >>= unify_end mode)
  run_unify-statement mode rest d hc ht hr e =
      run_unify-Decodes mode unify tgt s (statement concl hyps) d
      ∙ ap (λ (r : Res MmbState). r >>= unify_end mode)
          (ap
              (λ (us : List MmbItem).
                run_cmds mode (statement concl hyps) (with_unify s (tgt ∷ us) s.uheap))
              e
            ∙ run_statement mode arity concl hyps tgt s rest hc ht hr)

  -- The application of a theorem. When the unify stream holds the statement `concl`, `hyps`, the
  -- unify stack is empty and the arities agree, `run_unify` succeeds exactly when `tgt` matches the
  -- conclusion and the proofs on the main stack, from its top down, match the hypotheses, all under
  -- one growing unify heap. It takes those proofs off the stack, clears the unify heap, and changes
  -- nothing else; otherwise it fails with the error of the match.
  pub run_unify_apply :
      Decodes (unify_next unify.buf) unify.pos (statement concl hyps)
      → PatternHasArity arity concl
      → All (PatternHasArity arity) hyps
      → HasArity arity tgt
      → All (HasArity arity) s.stack
      → s.ustack ≡ []
      → run_unify u_thm unify tgt s ≡ (do
        h ← match_pattern u_thm concl tgt s.uheap
        r ← match_proofs hyps s.stack h
        ok (at_hyps s r.0 []))
  unfolding unify_end
  run_unify_apply d hc hp ht hs e =
      run_unify-statement u_thm _ d hc ht (λ h. run_hyps arity hyps s s.stack h hp hs) e
      ∙ bind_assoc (match_pattern u_thm concl tgt s.uheap) _ _
      ∙ ap (λ (k : List MmbItem → Res MmbState). match_pattern u_thm concl tgt s.uheap >>= k)
          (fun_ext (λ h. bind_assoc (match_proofs hyps s.stack h) _ _))

  -- The declaration of an axiom or a theorem. Here the hypotheses come off the hypothesis stack, the
  -- last one first, and `run_unify` succeeds exactly when the conclusion and they match and no
  -- hypothesis is left over.
  pub run_unify_declare :
      Decodes (unify_next unify.buf) unify.pos (statement concl hyps)
      → PatternHasArity arity concl
      → All (PatternHasArity arity) hyps
      → HasArity arity tgt
      → All (HasArity arity) s.hstack
      → s.ustack ≡ []
      → run_unify u_thm_end unify tgt s ≡ (do
        h ← match_pattern u_thm_end concl tgt s.uheap
        r ← match_declared hyps s.hstack h
        make_sure (is_empty r.0)
        ok (at_declared s r.0 []))
  unfolding unify_end
  run_unify_declare d hc hp ht hs e =
      run_unify-statement u_thm_end _ d hc ht (λ h. run_declared arity hyps s s.hstack h hp hs) e
      ∙ bind_assoc (match_pattern u_thm_end concl tgt s.uheap) _ _
      ∙ ap (λ (k : List MmbItem → Res MmbState). match_pattern u_thm_end concl tgt s.uheap >>= k)
          (fun_ext (λ h. bind_assoc (match_declared hyps s.hstack h) _ _))
