-- ===== src/Mmb/Soundness/Steps.antt =====
-- src/mmb/proof.rs: the commands, and what the stack and the heap claim.
use second_opinion.Prelude.{
  ℕ, zero, suc, Bool, true, false, List, [], ◌∷◌, ◌++◌, length, take, drop, snoc, All, All-snoc,
  ◌≡◌, refl, subst, ok, ◌>>=◌, err≢ok, if◌then◌else◌, arith,
}
use second_opinion.Util.Ty.{Ty}
use second_opinion.Util.Outline.{
  Outline, Term, Assert, get_term_by_num, get_assert_by_num, assert_args, num_args_no_ret,
}
use second_opinion.Mmb.ProofCmd.{ProofCmd}
use second_opinion.Mmb.Item.{
  MmbItem, MmbItems, nil, cons, expr, proof, conv, co_conv, to_list, get_ty,
}
use second_opinion.Mmb.State.{MmbState}
use second_opinion.Mmb.Proof.Conv.{push_pairs}
use second_opinion.Mmb.Soundness.{
  EqualArgs, no_args, args, AllProved, none_left, one_more, Met, Holds, Stacked, IsExpr,
}
use second_opinion.Mmb.Soundness.Arity.{known, file_arity}
use second_opinion.Mmb.Soundness.Frame.{OnlyProofs, no_proofs, one_proof}

-- The number of arguments of a theorem of the file.
unfoldable pub sig_length : Outline → ℕ → ℕ
sig_length o n = known (do t ← get_assert_by_num o n; sig ← assert_args t; ok (length sig))

-- What a command takes for an expression is one: the arguments of a term, the conclusion and the
-- arguments of a theorem, the new side of a conversion.
unfoldable pub TakesExprs : Outline → ProofCmd → MmbState → Type 0
TakesExprs o (ProofCmd.term n saved) s = All IsExpr (take (file_arity o n) s.stack)
TakesExprs o (ProofCmd.thm n saved) s = All IsExpr (take (suc (sig_length o n)) s.stack)
TakesExprs o ProofCmd.conv s = All IsExpr (take 1 (drop 1 s.stack))
TakesExprs o ProofCmd.unfold_cmd s = All IsExpr (take 1 s.stack)
TakesExprs o (ProofCmd.ref i) s = Unit
TakesExprs o (ProofCmd.dummy n) s = Unit
TakesExprs o ProofCmd.hyp s = Unit
TakesExprs o ProofCmd.refl_cmd s = Unit
TakesExprs o ProofCmd.sym_cmd s = Unit
TakesExprs o ProofCmd.cong s = Unit
TakesExprs o ProofCmd.conv_cut s = Unit
TakesExprs o (ProofCmd.conv_ref i) s = Unit
TakesExprs o ProofCmd.conv_save s = Unit
TakesExprs o ProofCmd.save s = Unit

module _ (o : Outline) (s : MmbState) where
  pub term_args-IsExpr :
      (n k : ℕ) (saved : Bool) {t : Term}
      → get_term_by_num o n ≡ ok t
      → num_args_no_ret t ≡ ok k
      → TakesExprs o (ProofCmd.term n saved) s
      → All IsExpr (take k s.stack)
  unfolding TakesExprs file_arity
  term_args-IsExpr n k saved e f x =
      let same : file_arity o n ≡ k = rw (e, f) refl in
      subst (λ j. All IsExpr (take j s.stack)) same x

  pub thm_args-IsExpr :
      (n : ℕ) (saved : Bool) (a : MmbItem) (rest : List MmbItem) {t : Assert} {sig : List Ty}
      → get_assert_by_num o n ≡ ok t
      → assert_args t ≡ ok sig
      → s.stack ≡ a ∷ rest
      → TakesExprs o (ProofCmd.thm n saved) s
      → IsExpr a × All IsExpr (take (length sig) rest)
  unfolding TakesExprs sig_length
  thm_args-IsExpr n saved a rest {sig = sig} e f h x =
      let same : sig_length o n ≡ length sig = rw (e, f) refl in
      subst (λ j. All IsExpr (take (suc j) (a ∷ rest))) same
        (subst (λ st. All IsExpr (take (suc (sig_length o n)) st)) h x)

  pub conv_arg-IsExpr :
      (a b : MmbItem) (rest : List MmbItem)
      → s.stack ≡ a ∷ b ∷ rest
      → TakesExprs o ProofCmd.conv s
      → IsExpr b
  unfolding TakesExprs
  conv_arg-IsExpr a b rest h x = (subst (λ st. All IsExpr (take 1 (drop 1 st))) h x).0

  pub unfold_arg-IsExpr :
      (a : MmbItem) (rest : List MmbItem)
      → s.stack ≡ a ∷ rest
      → TakesExprs o ProofCmd.unfold_cmd s
      → IsExpr a
  unfolding TakesExprs
  unfold_arg-IsExpr a rest h x = (subst (λ st. All IsExpr (take 1 st)) h x).0

module _ (o : Outline) (Hyp : MmbItem → Type 0) where
  pub expr-Met : (e : MmbItem) → IsExpr e → Met o e
  expr-Met (expr p e) h = tt
  expr-Met (proof p e) h = absurd h
  expr-Met (conv p a b) h = absurd h
  expr-Met (co_conv p a b) h = absurd h

  pub typed-Met : (e : MmbItem) {t : Ty} → get_ty e ≡ ok t → Met o e
  unfolding get_ty
  typed-Met (expr p e) h = tt
  typed-Met (proof p e) h = tt
  typed-Met (conv p a b) h = tt
  typed-Met (co_conv p a b) h = absurd (err≢ok h)

  pub saved_also :
      (saved : Bool) (e : MmbItem) (heap : List MmbItem)
      → Holds o Hyp e
      → All (Holds o Hyp) heap
      → All (Holds o Hyp) (if saved then snoc heap e else heap)
  saved_also true e heap h hh = All-snoc (Holds o Hyp) heap e hh h
  saved_also false e heap h hh = hh

  pub Stacked-drop :
      (k : ℕ) (st : List MmbItem)
      → All IsExpr (take k st)
      → Stacked o Hyp st
      → Stacked o Hyp (drop k st)
  Stacked-drop zero st h c = c
  Stacked-drop (suc k) [] h c = c
  Stacked-drop (suc k) (x ∷ st) h c = Stacked-drop k st h.1 (c.1 (expr-Met x h.0))

  pub Stacked-popped :
      (popped st : List MmbItem)
      → OnlyProofs popped
      → Stacked o Hyp (popped ++ st)
      → AllProved o Hyp popped × Stacked o Hyp st
  Stacked-popped [] st no_proofs c = (none_left, c)
  Stacked-popped (x ∷ popped) st (one_proof r) c =
      let (ps, rest) = Stacked-popped popped st r (c.1 tt) in (one_more c.0 ps, rest)

  pub pairs-Stacked :
      (xs ys : MmbItems) (s : MmbState)
      → length (to_list xs) ≡ length (to_list ys)
      → (EqualArgs o xs ys → Stacked o Hyp s.stack)
      → Stacked o Hyp ((push_pairs xs ys s).stack)
  unfolding push_pairs
  pairs-Stacked nil nil s l k = k no_args
  pairs-Stacked nil (cons y ys) s l k = absurd (omega arith)
  pairs-Stacked (cons x xs) nil s l k = absurd (omega arith)
  pairs-Stacked (cons x xs) (cons y ys) s l k =
      (tt, λ e. pairs-Stacked xs ys s (omega arith) (λ es. k (args e es)))

  pub pairs-frame :
      (xs ys : MmbItems) (s : MmbState)
      → ((push_pairs xs ys s).heap ≡ s.heap) × ((push_pairs xs ys s).hstack ≡ s.hstack)
  unfolding push_pairs
  pairs-frame nil ys s = (refl, refl)
  pairs-frame (cons x xs) nil s = (refl, refl)
  pairs-frame (cons x xs) (cons y ys) s = pairs-frame xs ys s
