-- ===== src/Mmb/Soundness.antt =====
-- What the proofs and the obligations on the stack of src/mmb/proof.rs stand for: convertibility
-- and provability, as judgments of their own.
pub mod Frame
pub mod Steps
pub mod Longer
pub mod Arena
pub mod Allocate
pub mod Preserve
pub mod Run
pub mod Declared
pub mod Heap
pub mod Arity
pub mod Sizes
use second_opinion.Prelude.{ℕ, Bool, true, List, [], ◌∷◌, ◌++◌, All, ◌≡◌, ok}
use mathlib.Core.List.{zip}
use second_opinion.Util.Ty.{Ty}
use second_opinion.Util.Outline.{
  Outline, Term, Assert, get_term_by_num, get_assert_by_num, assert_args,
}
use second_opinion.Mmb.Item.{
  MmbItem, MmbItems, nil, cons, app, var, expr, proof, conv, co_conv, to_list, item_eq,
}
use second_opinion.Mmb.State.{MmbState}
use second_opinion.Mmb.Unify.{u_thm, u_def, run_unify}
use second_opinion.Mmb.Proof.Apply.{bound_by_sig, check_bound, check_unbound}

-- Convertibility: the same item, equal expressions, and what the unifier accepts as the value
-- of a definition, closed under symmetry, transitivity and application.
mutual
  pub data Equal (o : Outline) : MmbItem → MmbItem → Type 0 where
    itself : {a : MmbItem} → Equal o a a
    alike : {a b : MmbItem} → item_eq a b ≡ true → Equal o a b
    reversed : {a b : MmbItem} → Equal o a b → Equal o b a
    chained : {a b c : MmbItem} → Equal o a b → Equal o b c → Equal o a c
    congruent :
        {p q n : ℕ} {xs ys : MmbItems} {t u : Ty}
        → EqualArgs o xs ys
        → Equal o (expr p (app n xs t)) (expr q (app n ys u))
    unfolded :
        {p n : ℕ} {e : MmbItem} {args : MmbItems} {type : Ty} {t : Term} {s₁ : MmbState}
        (s : MmbState)
        → get_term_by_num o n ≡ ok t
        → s.ustack ≡ []
        → s.uheap ≡ to_list args
        → run_unify u_def t.unify e s ≡ ok s₁
        → Equal o (expr p (app n args type)) e

  pub data EqualArgs (o : Outline) : MmbItems → MmbItems → Type 0 where
    no_args : EqualArgs o nil nil
    args :
        {x y : MmbItem} {xs ys : MmbItems}
        → Equal o x y
        → EqualArgs o xs ys
        → EqualArgs o (cons x xs) (cons y ys)

-- Provability from the hypotheses `Hyp`: a hypothesis, what is convertible with a provable
-- expression, and what a theorem of the file gives from provable hypotheses when its arguments pass
-- the checks on variables.
mutual
  pub data Provable (o : Outline) (Hyp : MmbItem → Type 0) : MmbItem → Type 0 where
    assumed : {e : MmbItem} → Hyp e → Provable o Hyp e
    converted : {a b : MmbItem} → Equal o a b → Provable o Hyp b → Provable o Hyp a
    applied :
        (n : ℕ) {a : MmbItem} {t : Assert} {sig : List Ty} {popped : List MmbItem} {s₁ : MmbState}
        (s : MmbState)
        → get_assert_by_num o n ≡ ok t
        → assert_args t ≡ ok sig
        → s.ustack ≡ []
        → check_bound s.uheap (bound_by_sig 0 (zip sig s.uheap)) ≡ ok tt
        → check_unbound (bound_by_sig 0 (zip sig s.uheap)) (zip sig s.uheap) ≡ ok tt
        → run_unify u_thm t.unify a s ≡ ok s₁
        → s.stack ≡ popped ++ s₁.stack
        → AllProved o Hyp popped
        → Provable o Hyp a

  pub data AllProved (o : Outline) (Hyp : MmbItem → Type 0) : List MmbItem → Type 0 where
    none_left : AllProved o Hyp []
    one_more :
        {p : ℕ} {e : MmbItem} {r : List MmbItem}
        → Provable o Hyp e
        → AllProved o Hyp r
        → AllProved o Hyp (proof p e ∷ r)

-- An obligation on the stack asks for a conversion.
abbrev pub Met : Outline → MmbItem → Type 0
Met o (co_conv p a b) = Equal o a b
Met o (expr p e) = Unit
Met o (proof p e) = Unit
Met o (conv p a b) = Unit

-- A proof or a conversion, on the stack or the heap, claims one.
abbrev pub Holds : Outline → (MmbItem → Type 0) → MmbItem → Type 0
Holds o Hyp (proof p e) = Provable o Hyp e
Holds o Hyp (conv p a b) = Equal o a b
Holds o Hyp (expr p e) = Unit
Holds o Hyp (co_conv p a b) = Unit

-- A claim on the stack stands under the obligations above it, nearer to the top.
abbrev pub Stacked : Outline → (MmbItem → Type 0) → List MmbItem → Type 0
Stacked o Hyp [] = Unit
Stacked o Hyp (x ∷ st) = Holds o Hyp x × (Met o x → Stacked o Hyp st)

-- Under the hypotheses, the claims on the heap hold, and those on the stack hold when the
-- obligations above them are met.
abbrev pub Sound : Outline → (MmbItem → Type 0) → MmbState → Type 0
Sound o Hyp s = All Hyp s.hstack → Stacked o Hyp s.stack × All (Holds o Hyp) s.heap

abbrev pub IsExpr : MmbItem → Type 0
IsExpr (expr p e) = Unit
IsExpr (proof p e) = ⊥
IsExpr (conv p a b) = ⊥
IsExpr (co_conv p a b) = ⊥

-- A variable.
abbrev pub IsVar : MmbItem → Type 0
IsVar (expr p (var idx t)) = Unit
IsVar (expr p (app n xs t)) = ⊥
IsVar (proof p e) = ⊥
IsVar (conv p a b) = ⊥
IsVar (co_conv p a b) = ⊥

pub IsVar-IsExpr : (es : List MmbItem) → All IsVar es → All IsExpr es
IsVar-IsExpr [] h = tt
IsVar-IsExpr (expr p e ∷ es) h = (tt, IsVar-IsExpr es h.1)
IsVar-IsExpr (proof p e ∷ es) h = absurd h.0
IsVar-IsExpr (conv p a b ∷ es) h = absurd h.0
IsVar-IsExpr (co_conv p a b ∷ es) h = absurd h.0
