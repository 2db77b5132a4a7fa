-- ===== src/Mmz/Coercion/Target.antt =====
-- src/mmz/parse.rs, `coerce`: the sort of what it returns, and where it goes on for ever.
use second_opinion.Prelude.{
  ℕ, zero, suc, false, ◌==◌, ◌≡◌, refl, ap, sym, ◌∙◌, Option, none, some, ◌⊎◌, inl, inr, Res, ok,
  hang, none_err, ok_inj, >>=-eq-ok, ◌>>=◌, Bool-cases, ==_iff, Option-cases, hang≢ok, arith,
}
use second_opinion.Mmz.Map.{get}
use second_opinion.Mmz.Data.{MmzExpr, expr_sort, app, cons, nil, Coe, single, trans}
use second_opinion.Mmz.Mem.{MmzMem, nat_eq}
use second_opinion.Mmz.Coercion.{coerce_at, coerce_fuel, coerce, get_coe}

-- The expression has the sort, or a sort whose provable sort it is.
unfoldable pub HasTarget : MmzMem → ℕ → MmzExpr → Type 0
HasTarget m z e = (expr_sort e ≡ z) ⊎ (get nat_eq (expr_sort e) m.coe_prov ≡ some z)

-- What `coerce` does when it looks for a coercion, given the one found.
by_coe : ℕ → MmzMem → MmzExpr → ℕ → Option Coe → Res MmzExpr
by_coe fuel m e z none = none_err none
by_coe fuel m e z (some (single n)) = ok (app n 1 (cons e nil) z)
by_coe fuel m e z (some (trans c1 y c2)) = coerce_at fuel m e y >>= λ e_y. coerce_at fuel m e_y z

-- One call of `coerce`, opened.
data Call (fuel : ℕ) (m : MmzMem) (e : MmzExpr) (z : ℕ) : Type 0 where
  same_sort : expr_sort e ≡ z → coerce_at (suc fuel) m e z ≡ ok e → Call fuel m e z
  provable_sort :
      get nat_eq (expr_sort e) m.coe_prov ≡ some z
      → coerce_at (suc fuel) m e z ≡ ok e
      → Call fuel m e z
  looked_up :
      coerce_at (suc fuel) m e z ≡ by_coe fuel m e z (get_coe (expr_sort e) z m.coes)
      → Call fuel m e z

found_coe :
    (fuel : ℕ) (m : MmzMem) (e : MmzExpr) (z : ℕ) (o : Option Coe)
    → (none_err o >>= λ c. by_coe fuel m e z (some c)) ≡ by_coe fuel m e z o
unfolding by_coe
found_coe fuel m e z none = refl
found_coe fuel m e z (some c) = refl

coerce_at-Call : (fuel : ℕ) (m : MmzMem) (e : MmzExpr) (z : ℕ) → Call fuel m e z
unfolding coerce_at by_coe
coerce_at-Call fuel m e z = elim (Bool-cases (expr_sort e == z)) [
  | inl same ↦ same_sort ((==_iff (expr_sort e) z).0 same) (rw same refl)
  | inr other ↦ elim (Option-cases (get nat_eq (expr_sort e) m.coe_prov)) [
    | inl no_prov ↦
        looked_up (rw (other, no_prov) (found_coe fuel m e z (get_coe (expr_sort e) z m.coes)))
    | inr (tgt, prov) ↦ elim (Bool-cases (z == tgt)) [
      | inl is_tgt ↦
          provable_sort (prov ∙ ap (λ (n : ℕ). some n) (sym ((==_iff z tgt).0 is_tgt)))
            (rw (other, prov, is_tgt) refl)
      | inr not_tgt ↦
          looked_up
            (rw (other, prov, not_tgt) (found_coe fuel m e z (get_coe (expr_sort e) z m.coes)))
    ]
  ]
]

by_coe-HasTarget :
    (fuel : ℕ) (m : MmzMem) (e : MmzExpr) (z : ℕ) {e' : MmzExpr} (o : Option Coe)
    → ((e1 : MmzExpr) → coerce_at fuel m e1 z ≡ ok e' → HasTarget m z e')
    → by_coe fuel m e z o ≡ ok e'
    → HasTarget m z e'
unfolding by_coe HasTarget expr_sort
by_coe-HasTarget fuel m e z none rest h = ground arith
by_coe-HasTarget fuel m e z (some (single n)) rest h = inl (sym (ap expr_sort (ok_inj h)))
by_coe-HasTarget fuel m e z (some (trans c1 y c2)) rest h =
    let (e_y, first, second) = >>=-eq-ok (coerce_at fuel m e y) _ h in rest e_y second

Call-HasTarget :
    (fuel : ℕ) (m : MmzMem) (e : MmzExpr) (z : ℕ) {e' : MmzExpr}
    → ((e1 : MmzExpr) → coerce_at fuel m e1 z ≡ ok e' → HasTarget m z e')
    → Call fuel m e z
    → coerce_at (suc fuel) m e z ≡ ok e'
    → HasTarget m z e'
unfolding HasTarget
Call-HasTarget fuel m e z rest (same_sort s r) h = inl (ap expr_sort (sym (ok_inj (sym r ∙ h))) ∙ s)
Call-HasTarget fuel m e z rest (provable_sort s r) h =
    inr (ap (λ (x : MmzExpr). get nat_eq (expr_sort x) m.coe_prov) (sym (ok_inj (sym r ∙ h))) ∙ s)
Call-HasTarget fuel m e z rest (looked_up r) h =
    by_coe-HasTarget fuel m e z (get_coe (expr_sort e) z m.coes) rest (sym r ∙ h)

coerce_at-HasTarget :
    (fuel : ℕ) (m : MmzMem) (e : MmzExpr) (z : ℕ) {e' : MmzExpr}
    → coerce_at fuel m e z ≡ ok e'
    → HasTarget m z e'
unfolding coerce_at
coerce_at-HasTarget zero m e z h = absurd (hang≢ok h)
coerce_at-HasTarget (suc fuel) m e z h =
    Call-HasTarget fuel m e z (λ e1. coerce_at-HasTarget fuel m e1 z) (coerce_at-Call fuel m e z) h

-- An expression that `coerce` returns has the sort that was asked for, or a sort for which that one is
-- the provable sort to coerce to.
pub coerce-HasTarget :
    (m : MmzMem) (e : MmzExpr) (z : ℕ) {e' : MmzExpr} → coerce m e z ≡ ok e' → HasTarget m z e'
unfolding coerce
coerce-HasTarget m e z h = coerce_at-HasTarget (coerce_fuel m) m e z h

to_provable :
    (fuel : ℕ) (m : MmzMem) (e : MmzExpr) (y : ℕ)
    → get nat_eq (expr_sort e) m.coe_prov ≡ some y
    → coerce_at (suc fuel) m e y ≡ ok e
unfolding coerce_at
to_provable fuel m e y prov = elim (Bool-cases (expr_sort e == y)) [
  | inl same ↦ rw same refl
  | inr other ↦ let yes = (==_iff y y).1 refl in rw (other, prov, yes) refl
]

-- When the coercion to the sort `z` goes over the provable sort of the expression, and `z` is neither
-- that sort nor the expression's own, `coerce` returns for no depth of recursion: the first half gives
-- the expression back as it was, and the second half is the same call again.
pub coerce_at-endless :
    (fuel : ℕ) (m : MmzMem) (e : MmzExpr) (y z : ℕ) (c1 c2 : Coe)
    → (expr_sort e == z) ≡ false
    → get nat_eq (expr_sort e) m.coe_prov ≡ some y
    → (z == y) ≡ false
    → get_coe (expr_sort e) z m.coes ≡ some (trans c1 y c2)
    → coerce_at fuel m e z ≡ hang
unfolding coerce_at
coerce_at-endless zero m e y z c1 c2 other prov not_tgt found = refl
coerce_at-endless (suc zero) m e y z c1 c2 other prov not_tgt found =
    rw (other, prov, not_tgt, found) refl
coerce_at-endless (suc (suc fuel)) m e y z c1 c2 other prov not_tgt found =
    rw (other, prov, not_tgt, found)
      (ap (λ (r : Res MmzExpr). r >>= λ e_y. coerce_at (suc fuel) m e_y z)
          (to_provable fuel m e y prov)
        ∙ coerce_at-endless (suc fuel) m e y z c1 c2 other prov not_tgt found)
