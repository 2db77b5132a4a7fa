-- ===== src/Mmb/Unify/Machine.antt =====
-- src/mmb/unify.rs: the body of `run_unify` on the commands of a pattern.
use second_opinion.Prelude.{
  ℕ, List, ◌∷◌, ◌++◌, length, ◌==◌, if◌then◌else◌, ◌≡◌, refl, ap, fun_ext, append_assoc, Res, ok,
  err, panic, hang, ◌>>=◌, Bool-cases, ==_iff, snoc, inl, inr, arith,
}
use second_opinion.Util.Cmd.Loop.{run_list}
use second_opinion.Mmb.UnifyCmd.{UnifyCmd}
use second_opinion.Mmb.Item.{
  MmbItem, MmbItems, nil, cons, var, app, expr, proof, conv, co_conv, to_list,
}
use second_opinion.Mmb.State.{MmbState}
use second_opinion.Mmb.Unify.{UMode, u_thm, u_def, u_thm_end, unify_cmd}
use second_opinion.Mmb.Unify.Pattern.{
  Pattern, Patterns, ref_pat, term_pat, dummy_pat, no_pats, pats, commands, commands_all, count,
  match_ref, match_dummy, match_pattern, match_all, HasArity, ItemsHaveArity, PatternHasArity,
  PatternsHaveArity,
}

-- The body of the loop of `run_unify`, over a list of commands.
abbrev pub run_cmds : UMode → List UnifyCmd → MmbState → Res MmbState
run_cmds mode cs s = run_list (unify_cmd mode) cs s

abbrev pub with_unify : MmbState → List MmbItem → List MmbItem → MmbState
with_unify s us h = record s { ustack = us; uheap = h }

pub bind_assoc {ℓ κ μ} :
    {A : Type ℓ} {B : Type κ} {C : Type μ} (r : Res A) (f : A → Res B) (g : B → Res C)
    → ((r >>= f) >>= g) ≡ (r >>= λ a. f a >>= g)
bind_assoc (ok a) f g = refl
bind_assoc (err e) f g = refl
bind_assoc panic f g = refl
bind_assoc hang f g = refl

run_ref :
    (mode : UMode) (i : ℕ) (e : MmbItem) (us h : List MmbItem) (s : MmbState)
    → unify_cmd mode (UnifyCmd.ref i) (with_unify s (e ∷ us) h)
      ≡ (match_ref i e h >>= λ h'. ok (with_unify s us h'))
unfolding unify_cmd
run_ref mode i e us h s = ground arith

run_dummy :
    (mode : UMode) (sort_id : ℕ) (e : MmbItem) (us h : List MmbItem) (s : MmbState)
    → unify_cmd mode (UnifyCmd.dummy sort_id) (with_unify s (e ∷ us) h)
      ≡ (match_dummy mode sort_id e h >>= λ h'. ok (with_unify s us h'))
unfolding unify_cmd match_dummy
run_dummy u_def sort_id (expr p (var idx t)) us h s = simp bind_assoc
run_dummy u_thm sort_id (expr p (var idx t)) us h s = refl
run_dummy u_thm_end sort_id (expr p (var idx t)) us h s = refl
run_dummy u_def sort_id (expr p (app m xs t)) us h s = refl
run_dummy u_def sort_id (proof p e) us h s = refl
run_dummy u_def sort_id (conv p a b) us h s = refl
run_dummy u_def sort_id (co_conv p a b) us h s = refl
run_dummy u_thm sort_id _ us h s = refl
run_dummy u_thm_end sort_id _ us h s = refl

-- One command, then the rest of the stream.
then_rest :
    (mode : UMode) (cs : List UnifyCmd) (s : MmbState) (us : List MmbItem) (r : Res (List MmbItem))
    {first : Res MmbState}
    → first ≡ (r >>= λ h'. ok (with_unify s us h'))
    → (first >>= run_cmds mode cs) ≡ (r >>= λ h'. run_cmds mode cs (with_unify s us h'))
then_rest mode cs s us r e = rw (e, bind_assoc)

mutual
  unfolding run_list commands match_pattern unify_cmd

  run_pattern :
      (mode : UMode) (arity : ℕ → ℕ) (p : Pattern) (e : MmbItem)
      → PatternHasArity arity p
      → HasArity arity e
      → (rest : List UnifyCmd) (s : MmbState) (us h : List MmbItem)
      → run_cmds mode (commands p ++ rest) (with_unify s (e ∷ us) h)
        ≡ (match_pattern mode p e h >>= λ h'. run_cmds mode rest (with_unify s us h'))
  run_pattern mode arity (ref_pat i) e hp he rest s us h =
      then_rest mode rest s us (match_ref i e h) (run_ref mode i e us h s)
  run_pattern mode arity (dummy_pat sort_id) e hp he rest s us h =
      then_rest mode rest s us (match_dummy mode sort_id e h) (run_dummy mode sort_id e us h s)
  run_pattern mode arity (term_pat n save ps) (expr p (app m xs t)) hp he rest s us h =
      elim (Bool-cases (n == m)) [
        | inl same ↦ rw same (
            run_patterns mode arity ps xs
              (omega (arith, ap arity ((==_iff n m).0 same), hp.0, he.0)) hp.1 he.1 rest s us
              (if save then snoc h (expr p (app m xs t)) else h))
        | inr other ↦ rw other
      ]
  run_pattern mode arity (term_pat n save ps) (expr p (var idx t)) hp he rest s us h = refl
  run_pattern mode arity (term_pat n save ps) (proof p e) hp he rest s us h = refl
  run_pattern mode arity (term_pat n save ps) (conv p a b) hp he rest s us h = refl
  run_pattern mode arity (term_pat n save ps) (co_conv p a b) hp he rest s us h = refl

  run_patterns :
      (mode : UMode) (arity : ℕ → ℕ) (ps : Patterns) (xs : MmbItems)
      → count ps ≡ length (to_list xs)
      → PatternsHaveArity arity ps
      → ItemsHaveArity arity xs
      → (rest : List UnifyCmd) (s : MmbState) (us h : List MmbItem)
      → run_cmds mode (commands_all ps ++ rest) (with_unify s (to_list xs ++ us) h)
        ≡ (match_all mode ps xs h >>= λ h'. run_cmds mode rest (with_unify s us h'))
  run_patterns mode arity no_pats nil hc hp hx rest s us h = refl
  run_patterns mode arity no_pats (cons x xs) hc hp hx rest s us h = absurd (omega arith)
  run_patterns mode arity (pats p ps) nil hc hp hx rest s us h = absurd (omega arith)
  run_patterns mode arity (pats p ps) (cons x xs) hc hp hx rest s us h =
      rw
        (
          append_assoc,
          run_pattern mode arity p x hp.0 hx.0 (commands_all ps ++ rest) s (to_list xs ++ us) h,
          bind_assoc,
        )
        (ap (λ (k : List MmbItem → Res MmbState). match_pattern mode p x h >>= k)
          (fun_ext (λ h'. run_patterns mode arity ps xs (omega arith) hp.1 hx.1 rest s us h')))

-- Where the pattern's terms and the expression's have as many arguments, running the commands of
-- the pattern on the expression at the top of the unify stack does what matching does: it fails
-- with the same error, or goes on with the expression popped and the heap that matching gives.
pub run_cmds-commands :
    (mode : UMode) (arity : ℕ → ℕ) (p : Pattern) (e : MmbItem)
    → PatternHasArity arity p
    → HasArity arity e
    → (rest : List UnifyCmd) (s : MmbState) (us h : List MmbItem)
    → run_cmds mode (commands p ++ rest) (with_unify s (e ∷ us) h)
      ≡ (match_pattern mode p e h >>= λ h'. run_cmds mode rest (with_unify s us h'))
run_cmds-commands = run_pattern
