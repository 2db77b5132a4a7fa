-- ===== src/Util/Ty/Deps.antt =====
-- src/util.rs: `add_dep` and `depends_on_`.
use second_opinion.Prelude.{
  ℕ, zero, suc, ◌*◌, ◌<◌, ◌^◌, max, bit_and, bit_or, Bool, not, ◌||◌, ◌==◌, if◌then◌else◌, ◌≡◌,
  refl, sym, ap, ◌∙◌, ok, ◌>>=◌, Bool-cases, inl, inr, lt→ltb, arith,
}
use second_opinion.Prelude.Bits.{bit, bit-bit_or, bit_and_pow, bit_pow}
use native.Mathlib.Nat.{one-le-pow}
use second_opinion.Util.Ty.{Ty, add_dep, depends_on_}

has_digit : (j x : ℕ) → not (bit_and x (2 ^ j) == 0) ≡ not (bit j x == 0)
has_digit j x = at (bit j x) (bit_and_pow j x)
  where
    at : (b : ℕ) → bit_and x (2 ^ j) ≡ b * 2 ^ j → not (bit_and x (2 ^ j) == 0) ≡ not (b == 0)
    at zero e = let none : bit_and x (2 ^ j) ≡ 0 = omega (arith, e) in rw none refl
    at (suc b) e = ground (arith, one-le-pow j 2)

added_digit : (i j x : ℕ) → not (max x (if i == j then 1 else 0) == 0) ≡ ((i == j) || not (x == 0))
added_digit i j x = elim (Bool-cases (i == j)) [
  | inl same ↦ rw same (ground arith)
  | inr other ↦ rw other (ground arith)
]

-- After a dependency on the bound variable `i + 1` has been added to a type, it depends on the
-- variable `j + 1` exactly when the two are the same or it did before; both are among the 64 digits
-- of the word.
pub depends_on_-add_dep :
    (t : Ty) (i j : ℕ)
    → i < 64
    → j < 64
    → (add_dep t (suc i) >>= λ t'. depends_on_ t' (suc j))
      ≡ (depends_on_ t (suc j) >>= λ b. ok ((i == j) || b))
unfolding add_dep depends_on_
depends_on_-add_dep t i j hi hj =
    rw (lt→ltb i 64 hi, lt→ltb j 64 hj)
      (ap ok (
        has_digit j (bit_or t.inner (2 ^ i))
        ∙ ap (λ (x : ℕ). not (x == 0)) (bit-bit_or j t.inner (2 ^ i))
        ∙ ap (λ (x : ℕ). not (max (bit j t.inner) x == 0)) (bit_pow j i)
        ∙ added_digit i j (bit j t.inner)
        ∙ ap (λ (b : Bool). (i == j) || b) (sym (has_digit j t.inner))))
