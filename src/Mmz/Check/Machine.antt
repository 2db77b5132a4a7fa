-- ===== src/Mmz/Check/Machine.antt =====
-- src/mmz/parse.rs, `check_expr`, against the matching of an expression with the pattern that a unify
-- stream encodes.
use second_opinion.Prelude.{
  ℕ, suc, List, [], ◌∷◌, ◌++◌, length, map, get_elem?, snoc, ◌==◌, if◌then◌else◌, ◌≡◌, refl, ap,
  fun_ext, append_assoc, sym, ◌∙◌, Res, ok, err, msg, make_sure, unwrap, none_err, localize, ◌>>=◌,
  ◌>>◌, Bool-cases, ==_iff, inl, inr, All, arith,
}
use second_opinion.Util.Ty.{sort}
use second_opinion.Util.Cmd.Loop.{run_list, Decodes, for_cmds-Decodes}
use second_opinion.Util.Cmd.Progress.{try_next_cmd-Advances}
use second_opinion.Mmb.UnifyCmd.{UnifyCmd, UnifyIter, unify_next, unify_try_from}
use second_opinion.Mmb.Unify.{UMode, u_thm, u_def, u_thm_end, is_u_def, pop?}
use second_opinion.Mmb.Unify.Pattern.{
  Pattern, Patterns, ref_pat, term_pat, dummy_pat, no_pats, pats, commands, commands_all, count,
  PatternHasArity, PatternsHaveArity, hyp_commands, statement,
}
use second_opinion.Mmb.Unify.Machine.{bind_assoc}
use second_opinion.Mmz.Data.{MmzExpr, MmzExprs, MmzHyp, nil, cons, var, app, expr_list, mmz_eq}
use second_opinion.Mmz.Monad.{MmzState, non_dummy_vars}
use second_opinion.Mmz.Check.{check_cmd, check_expr, check_start}

-- A dummy variable of the sort.
unfoldable pub spec_dummy : UMode → ℕ → MmzExpr → List MmzExpr → Res (List MmzExpr)
unfolding sort is_u_def
spec_dummy mode sort_id (var v) h = do
  make_sure (is_u_def mode)
  make_sure (sort_id == sort v.ty)
  make_sure v.is_dummy
  ok (snoc h (var v))
spec_dummy mode sort_id (app n k es t) h = do make_sure (is_u_def mode); localize (err msg)

-- An equal expression in the heap.
abbrev pub spec_ref : ℕ → MmzExpr → List MmzExpr → Res (List MmzExpr)
spec_ref i e h = do heap_elem ← unwrap (get_elem? h i); if mmz_eq heap_elem e then ok h else err msg

-- Matching an expression against a pattern under the heap `h` gives the extended heap.
unfoldable mutual
  pub match_spec : UMode → Pattern → MmzExpr → List MmzExpr → Res (List MmzExpr)
  match_spec mode (ref_pat i) e h = spec_ref i e h
  match_spec mode (dummy_pat sort_id) e h = spec_dummy mode sort_id e h
  match_spec mode (term_pat n save ps) (app m k es t) h = do
    make_sure (n == m)
    match_specs mode ps es (if save then snoc h (app m k es t) else h)
  match_spec mode (term_pat n save ps) (var v) h = err msg

  pub match_specs : UMode → Patterns → MmzExprs → List MmzExpr → Res (List MmzExpr)
  match_specs mode no_pats nil h = ok h
  match_specs mode no_pats (cons e es) h = err msg
  match_specs mode (pats p ps) nil h = err msg
  match_specs mode (pats p ps) (cons e es) h = do
    h' ← match_spec mode p e h
    match_specs mode ps es h'

-- Every application of the term `n` has `arity n` arguments.
abbrev mutual
  pub SpecHasArity : (ℕ → ℕ) → MmzExpr → Type 0
  SpecHasArity arity (var v) = Unit
  SpecHasArity arity (app n k es t) = (length (expr_list es) ≡ arity n) × SpecsHaveArity arity es

  pub SpecsHaveArity : (ℕ → ℕ) → MmzExprs → Type 0
  SpecsHaveArity arity nil = Unit
  SpecsHaveArity arity (cons e es) = SpecHasArity arity e × SpecsHaveArity arity es

-- The body of the loop of `check_expr`, over a list of commands.
abbrev pub check_cmds : UMode → List UnifyCmd → MmzState → Res MmzState
check_cmds mode cs s = run_list (check_cmd mode) cs s

abbrev pub with_check : MmzState → List MmzExpr → List MmzExpr → MmzState
with_check s us h = record s { ustack = us; uheap = h }

check_cmd-ref :
    (mode : UMode) (i : ℕ) (e : MmzExpr) (us h : List MmzExpr) (s : MmzState)
    → check_cmd mode (UnifyCmd.ref i) (with_check s (e ∷ us) h)
      ≡ (spec_ref i e h >>= λ h'. ok (with_check s us h'))
unfolding check_cmd
check_cmd-ref mode i e us h s = ground arith

check_cmd-dummy :
    (mode : UMode) (sort_id : ℕ) (e : MmzExpr) (us h : List MmzExpr) (s : MmzState)
    → check_cmd mode (UnifyCmd.dummy sort_id) (with_check s (e ∷ us) h)
      ≡ (spec_dummy mode sort_id e h >>= λ h'. ok (with_check s us h'))
unfolding check_cmd spec_dummy
check_cmd-dummy u_def sort_id (var v) us h s = simp bind_assoc
check_cmd-dummy u_thm sort_id (var v) us h s = refl
check_cmd-dummy u_thm_end sort_id (var v) us h s = refl
check_cmd-dummy u_def sort_id (app m k es t) us h s = refl
check_cmd-dummy u_thm sort_id (app m k es t) us h s = refl
check_cmd-dummy u_thm_end sort_id (app m k es t) us h s = refl

-- One command, then the rest of the stream.
then_rest :
    (mode : UMode) (cs : List UnifyCmd) (s : MmzState) (us : List MmzExpr) (r : Res (List MmzExpr))
    {first : Res MmzState}
    → first ≡ (r >>= λ h'. ok (with_check s us h'))
    → (first >>= check_cmds mode cs) ≡ (r >>= λ h'. check_cmds mode cs (with_check s us h'))
then_rest mode cs s us r e = rw (e, bind_assoc)

mutual
  unfolding run_list commands match_spec check_cmd

  pub check_pattern :
      (mode : UMode) (arity : ℕ → ℕ) (p : Pattern) (e : MmzExpr)
      → PatternHasArity arity p
      → SpecHasArity arity e
      → (rest : List UnifyCmd) (s : MmzState) (us h : List MmzExpr)
      → check_cmds mode (commands p ++ rest) (with_check s (e ∷ us) h)
        ≡ (match_spec mode p e h >>= λ h'. check_cmds mode rest (with_check s us h'))
  check_pattern mode arity (ref_pat i) e hp he rest s us h =
      then_rest mode rest s us (spec_ref i e h) (check_cmd-ref mode i e us h s)
  check_pattern mode arity (dummy_pat sort_id) e hp he rest s us h =
      then_rest mode rest s us (spec_dummy mode sort_id e h) (check_cmd-dummy mode sort_id e us h s)
  check_pattern mode arity (term_pat n save ps) (app m k es t) hp he rest s us h =
      elim (Bool-cases (n == m)) [
        | inl same ↦ rw same (
            check_patterns mode arity ps es
              (omega (arith, ap arity ((==_iff n m).0 same), hp.0, he.0)) hp.1 he.1 rest s us
              (if save then snoc h (app m k es t) else h))
        | inr other ↦ rw other
      ]
  check_pattern mode arity (term_pat n save ps) (var v) hp he rest s us h = refl

  check_patterns :
      (mode : UMode) (arity : ℕ → ℕ) (ps : Patterns) (es : MmzExprs)
      → count ps ≡ length (expr_list es)
      → PatternsHaveArity arity ps
      → SpecsHaveArity arity es
      → (rest : List UnifyCmd) (s : MmzState) (us h : List MmzExpr)
      → check_cmds mode (commands_all ps ++ rest) (with_check s (expr_list es ++ us) h)
        ≡ (match_specs mode ps es h >>= λ h'. check_cmds mode rest (with_check s us h'))
  check_patterns mode arity no_pats nil hc hp hx rest s us h = refl
  check_patterns mode arity no_pats (cons x xs) hc hp hx rest s us h = absurd (omega arith)
  check_patterns mode arity (pats p ps) nil hc hp hx rest s us h = absurd (omega arith)
  check_patterns mode arity (pats p ps) (cons x xs) hc hp hx rest s us h =
      rw
        (
          append_assoc,
          check_pattern mode arity p x hp.0 hx.0 (commands_all ps ++ rest) s (expr_list xs ++ us) h,
          bind_assoc,
        )
        (ap (λ (k : List MmzExpr → Res MmzState). match_spec mode p x h >>= k)
          (fun_ext (λ h'. check_patterns mode arity ps xs (omega arith) hp.1 hx.1 rest s us h')))

-- The hypotheses come off their stack, the last one first.
unfoldable pub match_spec_hyps :
    List Pattern → List MmzHyp → List MmzExpr → Res (List MmzHyp × List MmzExpr)
unfolding match_spec
match_spec_hyps [] hyps h = ok (hyps, h)
match_spec_hyps (p ∷ ps) hyps h = do
  (x, rest) ← none_err (pop? hyps)
  h' ← match_spec u_thm p x.expr h
  match_spec_hyps ps rest h'

abbrev pub at_hyps : MmzState → List MmzHyp → List MmzExpr → MmzState
at_hyps s hyps h = record s { hyps = hyps; ustack = []; uheap = h }

check_hyps :
    (arity : ℕ → ℕ) (ps : List Pattern) (s : MmzState) (hyps : List MmzHyp) (h : List MmzExpr)
    → All (PatternHasArity arity) ps
    → All (λ x. SpecHasArity arity x.expr) hyps
    → check_cmds u_thm (hyp_commands ps) (at_hyps s hyps h)
      ≡ (match_spec_hyps ps hyps h >>= λ r. ok (at_hyps s r.0 r.1))
unfolding run_list hyp_commands match_spec_hyps check_cmd
check_hyps arity [] s hyps h hp hs = refl
check_hyps arity (p ∷ ps) s [] h hp hs = refl
check_hyps arity (p ∷ ps) s (x ∷ hyps) h hp hs =
    check_pattern u_thm arity p x.expr hp.0 hs.0 (hyp_commands ps) (at_hyps s hyps h) [] h
    ∙ ap (λ (k : List MmzExpr → Res MmzState). match_spec u_thm p x.expr h >>= k)
        (fun_ext (λ h'. check_hyps arity ps s hyps h' hp.1 hs.1))
    ∙ sym (bind_assoc (match_spec u_thm p x.expr h) _ _)

abbrev pub start_heap : MmzState → List MmzExpr
start_heap s = s.uheap ++ map (λ v. var v) (non_dummy_vars s)

check_expr-Decodes :
    (mode : UMode) (u : UnifyIter) (tgt : MmzExpr) (s : MmzState) (cs : List UnifyCmd)
    → Decodes (unify_next u.buf) u.pos cs
    → check_expr u tgt mode s ≡ (
        check_cmds mode cs (with_check s (tgt ∷ s.ustack) (start_heap s)) >>= λ s'.
        ok (record s' { uheap = [] }))
unfolding check_expr check_start
check_expr-Decodes mode u tgt s cs d =
    ap (λ (r : Res MmzState). r >>= λ s'. ok (record s' { uheap = [] }))
      (for_cmds-Decodes (length u.buf) (unify_next u.buf) (check_cmd mode)
        (try_next_cmd-Advances unify_try_from u.buf) (suc (length u.buf)) u.pos cs _ (omega arith)
        (omega arith) d)

-- An assertion of the specification. When the unify stream of the binary file holds the statement
-- `concl`, `hyps`, the unify stack is empty and the arities agree, `check_expr` succeeds exactly when
-- `tgt` matches the conclusion and the hypotheses that were parsed, the last one first, match the
-- hypotheses, all under one growing heap that starts with the variables. Hypotheses that the stream does not ask for
-- are left over; otherwise it fails with the error of the match.
pub check_expr-match_spec :
    (u : UnifyIter) (arity : ℕ → ℕ) (concl : Pattern) (hyps : List Pattern) (tgt : MmzExpr)
    (s : MmzState)
    → Decodes (unify_next u.buf) u.pos (statement concl hyps)
    → PatternHasArity arity concl
    → All (PatternHasArity arity) hyps
    → SpecHasArity arity tgt
    → All (λ x. SpecHasArity arity x.expr) s.hyps
    → s.ustack ≡ []
    → check_expr u tgt u_thm s ≡ (do
      h ← match_spec u_thm concl tgt (start_heap s)
      r ← match_spec_hyps hyps s.hyps h
      ok (at_hyps s r.0 []))
unfolding statement
check_expr-match_spec u arity concl hyps tgt s d hc hp ht hs e =
    check_expr-Decodes u_thm u tgt s (statement concl hyps) d
    ∙ ap (λ (r : Res MmzState). r >>= λ s'. ok (record s' { uheap = [] }))
        (ap
            (λ (us : List MmzExpr).
              check_cmds u_thm (statement concl hyps) (with_check s (tgt ∷ us) (start_heap s)))
            e
          ∙ check_pattern u_thm arity concl tgt hc ht (hyp_commands hyps) s [] (start_heap s)
          ∙ ap
              (λ (k : List MmzExpr → Res MmzState). match_spec u_thm concl tgt (start_heap s) >>= k)
              (fun_ext (λ h. check_hyps arity hyps s s.hyps h hp hs)))
    ∙ bind_assoc (match_spec u_thm concl tgt (start_heap s)) _ _
    ∙ ap (λ (k : List MmzExpr → Res MmzState). match_spec u_thm concl tgt (start_heap s) >>= k)
        (fun_ext (λ h. bind_assoc (match_spec_hyps hyps s.hyps h) _ _))
