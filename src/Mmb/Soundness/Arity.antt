-- ===== src/Mmb/Soundness/Arity.antt =====
-- src/mmb/proof.rs: each application that the proof machine builds has the arguments of its term.
use second_opinion.Prelude.{
  ℕ, Bool, true, false, List, [], ◌∷◌, ◌++◌, snoc, length, length-take, ◌+◌, take, ◌≤◌, All,
  All-take, All-snoc, if◌then◌else◌, ◌≡◌, ◌≢◌, refl, sym, ap, subst, Res, ok, err, panic, hang,
  ◌>>=◌, arith,
}
use mathlib.Core.List.{reverse_aux}
use second_opinion.Util.Outline.{Outline, get_term_by_num, num_args_no_ret}
use second_opinion.Mmb.UnifyCmd.{UnifyIter}
use second_opinion.Mmb.Item.{MmbItem, MmbItems, nil, cons, to_list, from_list}
use second_opinion.Mmb.State.{MmbState, top}
use second_opinion.Mmb.Unify.{UMode, u_thm_end, run_unify}
use second_opinion.Mmb.Unify.Pattern.{HasArity, ItemsHaveArity}
use second_opinion.Mmb.Proof.Conv.{push_pairs}
use second_opinion.Mmb.Soundness.Frame.{run_unify-Framed}

abbrev pub known : Res ℕ → ℕ
known (ok k) = k
known (err e) = 0
known panic = 0
known hang = 0

-- The number of arguments of a term of the file.
unfoldable pub file_arity : Outline → ℕ → ℕ
file_arity o n = known (get_term_by_num o n >>= num_args_no_ret)

pub All-reverse_aux :
    (P : MmbItem → Type 0) (xs ys : List MmbItem) → All P xs → All P ys → All P (reverse_aux xs ys)
All-reverse_aux P [] ys h k = k
All-reverse_aux P (x ∷ xs) ys h k = All-reverse_aux P xs (x ∷ ys) h.1 (h.0, k)

length-reverse_aux : (xs ys : List MmbItem) → length (reverse_aux xs ys) ≡ length xs + length ys
length-reverse_aux [] ys = omega arith
length-reverse_aux (x ∷ xs) ys = omega (arith, length-reverse_aux xs (x ∷ ys))

pub length-top : (k : ℕ) (st : List MmbItem) → k ≤ length st → length (top k st) ≡ k
length-top k st h = omega (arith, length-reverse_aux (take k st) [], length-take k st)

pub to_list-from_list : (xs : List MmbItem) → to_list (from_list xs) ≡ xs
to_list-from_list [] = refl
to_list-from_list (x ∷ xs) = ap (λ (r : List MmbItem). x ∷ r) (to_list-from_list xs)

module _ (arity : ℕ → ℕ) where
  pub from_list-ItemsHaveArity :
      (xs : List MmbItem) → All (HasArity arity) xs → ItemsHaveArity arity (from_list xs)
  from_list-ItemsHaveArity [] h = tt
  from_list-ItemsHaveArity (x ∷ xs) h = (h.0, from_list-ItemsHaveArity xs h.1)

  pub All-top :
      (k : ℕ) (st : List MmbItem) → All (HasArity arity) st → All (HasArity arity) (top k st)
  All-top k st h =
      All-reverse_aux (HasArity arity) (take k st) [] (All-take (HasArity arity) k st h) tt

  All-behind : (xs ys : List MmbItem) → All (HasArity arity) (xs ++ ys) → All (HasArity arity) ys
  All-behind [] ys h = h
  All-behind (x ∷ xs) ys h = All-behind xs ys h.1

  -- Every application in a state of the proof machine has the arguments of its term.
  pub record Sized (s : MmbState) : Type 0 where
    pub on_stack : All (HasArity arity) s.stack
    pub on_heap : All (HasArity arity) s.heap
    pub on_hstack : All (HasArity arity) s.hstack

  pub saved_Sized :
      (saved : Bool) (e : MmbItem) (heap : List MmbItem)
      → HasArity arity e
      → All (HasArity arity) heap
      → All (HasArity arity) (if saved then snoc heap e else heap)
  saved_Sized true e heap h hh = All-snoc (HasArity arity) heap e hh h
  saved_Sized false e heap h hh = hh

  pub pairs_Sized :
      (xs ys : MmbItems) (s : MmbState)
      → ItemsHaveArity arity xs
      → ItemsHaveArity arity ys
      → Sized s
      → Sized (push_pairs xs ys s)
  unfolding push_pairs
  pairs_Sized nil ys s h k z = z
  pairs_Sized (cons x xs) nil s h k z = z
  pairs_Sized (cons x xs) (cons y ys) s h k z =
      let r = pairs_Sized xs ys s h.1 k.1 z in
      record { on_stack = ((h.0, k.0), r.on_stack); on_heap = r.on_heap; on_hstack = r.on_hstack }

  pub run_unify-Sized :
      (mode : UMode) (unify : UnifyIter) (tgt : MmbItem) (s t : MmbState)
      → mode ≢ u_thm_end
      → run_unify mode unify tgt s ≡ ok t
      → Sized s
      → Sized t
  run_unify-Sized mode unify tgt s t m h z =
      let f = run_unify-Framed mode unify tgt s t m h in
      record {
        on_stack = All-behind f.popped t.stack (subst (All (HasArity arity)) f.took z.on_stack);
        on_heap = subst (All (HasArity arity)) (sym f.same_heap) z.on_heap;
        on_hstack = subst (All (HasArity arity)) (sym f.same_hstack) z.on_hstack;
      }
