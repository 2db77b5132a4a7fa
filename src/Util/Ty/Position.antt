-- ===== src/Util/Ty/Position.antt =====
-- src/util.rs: `bound_pos`.
use second_opinion.Prelude.{
  ℕ, zero, suc, ◌+◌, ◌<◌, ◌≤◌, ◌^◌, bit_and, true, false, not, List, [], ◌∷◌, ◌==◌, All, ◌≡◌, sym,
  ap, ◌∙◌, ok, Bool-cases, inl, inr, lt→ltb, ok_inj, err≢ok, subst, arith,
}
use second_opinion.Prelude.Bits.{bit-bit_and, bits_ext, bit_and-le, bit_and-le_right}
use native.Mathlib.Nat.{pow-suc, one-le-pow}
use second_opinion.Util.Ty.{Ty, is_bound, bound_pos_loop, bound_pos, depends_on_}

bit_and_pow_comm : (i x : ℕ) → bit_and (2 ^ i) x ≡ bit_and x (2 ^ i)
bit_and_pow_comm i x =
    bits_ext (suc i) (bit_and (2 ^ i) x) (bit_and x (2 ^ i))
      (omega (arith, bit_and-le (2 ^ i) x, pow-suc 2 i, one-le-pow i 2))
      (omega (arith, bit_and-le_right x (2 ^ i), pow-suc 2 i, one-le-pow i 2))
      (λ j. omega (arith, bit-bit_and j (2 ^ i) x, bit-bit_and j x (2 ^ i)))

-- The positions from `n` down to 1.
abbrev pub positions : ℕ → List ℕ
positions zero = []
positions (suc n) = suc n ∷ positions n

depends_at :
    (t : Ty) (i : ℕ) → i < 64 → depends_on_ t (suc i) ≡ ok (not (bit_and (2 ^ i) t.inner == 0))
unfolding depends_on_
depends_at t i h = rw (lt→ltb i 64 h, bit_and_pow_comm i t.inner)

-- The first position on which a type depends, below `bound`.
abbrev pub FirstBelow : Ty → ℕ → ℕ → Type 0
FirstBelow t bound p =
    (q : ℕ) × (p ≡ suc q)
    × (q < bound)
    × (depends_on_ t (suc q) ≡ ok true)
    × All (λ j. depends_on_ t j ≡ ok false) (positions q)

bound_pos_loop-FirstBelow :
    (left i : ℕ) (t : Ty) {p : ℕ}
    → i + left ≤ 64
    → All (λ j. depends_on_ t j ≡ ok false) (positions i)
    → bound_pos_loop left i t ≡ ok p
    → FirstBelow t (i + left) p
unfolding bound_pos_loop
bound_pos_loop-FirstBelow zero i t h none e = absurd (err≢ok e)
bound_pos_loop-FirstBelow (suc left) i t {p} h none e =
    elim (Bool-cases (not (bit_and (2 ^ i) t.inner == 0))) [
      | inl here ↦
          let found : ok (i + 1) ≡ ok p = rw here at e in
          (
            i,
            sym (ok_inj found) ∙ omega arith,
            omega arith,
            depends_at t i (omega arith) ∙ ap ok here,
            none,
          )
      | inr missing ↦
          let later : bound_pos_loop left (i + 1) t ≡ ok p = rw missing at e in
          let step : suc i ≡ i + 1 = omega arith in
          let (q, a, b, c, d) =
            bound_pos_loop-FirstBelow left (i + 1) t (omega arith)
              (subst (λ k. All (λ j. depends_on_ t j ≡ ok false) (positions k)) step
                (depends_at t i (omega arith) ∙ ap ok missing, none))
              later in
          (q, a, omega arith, c, d)
    ]

-- `bound_pos` gives a position from 1 to 56: that of the lowest variable on which the type of a bound variable
-- depends. It does not depend on any position below.
pub bound_pos-FirstBelow :
    (t : Ty) {p : ℕ} → bound_pos t ≡ ok p → (is_bound t ≡ true) × FirstBelow t 56 p
unfolding bound_pos
bound_pos-FirstBelow t {p} e = elim (Bool-cases (is_bound t)) [
  | inl bound ↦
      let loop : bound_pos_loop 56 0 t ≡ ok p = rw bound at e in
      (bound, bound_pos_loop-FirstBelow 56 0 t (omega arith) tt loop)
  | inr not_bound ↦ absurd (err≢ok (rw not_bound at e))
]
