-- ===== src/Prelude/Bits.antt =====
-- Laws of `bit_and` and `bit_or` at variables, through the value of a number's i-th binary digit.
use Prim.Native.Nat.{ℕ, zero, suc, ◌+◌, ◌-◌, ◌*◌, ◌/◌, ◌%◌, ◌^◌, ◌≤◌, ◌<◌, min, max}
use Prim.Native.Nat.{bit_and, bit_or, digits, bitwise, bit_and-bitwise, bit_or-bitwise}
use mathlib.Core.Path.{◌≡◌, refl, sym, ap, ◌∙◌}
use mathlib.Core.Logic.{◌⊎◌, inl, inr}
use second_opinion.Prelude.Tests.{◌==◌, if◌then◌else◌}
use native.Mathlib.Nat.{le_refl, pow-suc, one-le-pow}
use native.Mathlib.Omega.{arith}

-- Fuel beyond the number itself changes nothing.
extra_fuel :
    (c : ℕ → ℕ) (op : ℕ → ℕ → ℕ) (extra fuel x y : ℕ)
    → x ≤ fuel
    → digits c op (extra + fuel) x y ≡ digits c op fuel x y
extra_fuel c op zero fuel x y h = ap (λ (u : ℕ). digits c op u x y) (omega arith)
extra_fuel c op (suc extra) zero (suc x) y h = absurd (omega arith)
extra_fuel c op (suc extra) fuel zero y h =
    ends_at_zero (suc extra + fuel) ∙ sym (ends_at_zero fuel)
  where
    ends_at_zero : (u : ℕ) → digits c op u 0 y ≡ c y
    ends_at_zero zero = refl
    ends_at_zero (suc u) = refl
extra_fuel c op (suc extra) (suc fuel) (suc x) y h =
    let one_more : suc extra + suc fuel ≡ suc (suc extra + fuel) = omega arith in
    ap (λ (u : ℕ). digits c op u (suc x) y) one_more
    ∙ ap (λ (v : ℕ). v * 2 + op (suc x % 2) (y % 2))
        (extra_fuel c op (suc extra) fuel (suc x / 2) (y / 2) (omega arith))

lowest_digit :
    (c : ℕ → ℕ) (op : ℕ → ℕ → ℕ) (x y : ℕ)
    → bitwise c op (suc x) y ≡ bitwise c op (suc x / 2) (y / 2) * 2 + op (suc x % 2) (y % 2)
lowest_digit c op x y =
    ap (λ (v : ℕ). v * 2 + op (suc x % 2) (y % 2))
      (ap (λ (u : ℕ). digits c op u (suc x / 2) (y / 2)) (omega arith)
        ∙ extra_fuel c op (x - suc x / 2) (suc x / 2) (suc x / 2) (y / 2) (omega arith))

pub bit_or_step : (x y : ℕ) → bit_or x y ≡ bit_or (x / 2) (y / 2) * 2 + max (x % 2) (y % 2)
bit_or_step zero y = simp bit_or-bitwise (omega arith)
bit_or_step (suc x) y = simp bit_or-bitwise (lowest_digit (λ v. v) max x y)

pub bit_and_step : (x y : ℕ) → bit_and x y ≡ bit_and (x / 2) (y / 2) * 2 + min (x % 2) (y % 2)
bit_and_step zero y = simp bit_and-bitwise (omega arith)
bit_and_step (suc x) y = simp bit_and-bitwise (lowest_digit (λ v. 0) min x y)

-- The i-th binary digit.
abbrev pub bit : ℕ → ℕ → ℕ
bit zero a = a % 2
bit (suc i) a = bit i (a / 2)

pub bit_and-half : (a b : ℕ) → bit_and a b / 2 ≡ bit_and (a / 2) (b / 2)
bit_and-half a b = omega (arith, bit_and_step a b)

pub bit_or-half : (a b : ℕ) → bit_or a b / 2 ≡ bit_or (a / 2) (b / 2)
bit_or-half a b = omega (arith, bit_or_step a b)

pub bit-bit_and : (i a b : ℕ) → bit i (bit_and a b) ≡ min (bit i a) (bit i b)
bit-bit_and zero a b = omega (arith, bit_and_step a b)
bit-bit_and (suc i) a b = rw bit_and-half (bit-bit_and i (a / 2) (b / 2))

pub bit-bit_or : (i a b : ℕ) → bit i (bit_or a b) ≡ max (bit i a) (bit i b)
bit-bit_or zero a b = omega (arith, bit_or_step a b)
bit-bit_or (suc i) a b = rw bit_or-half (bit-bit_or i (a / 2) (b / 2))

-- Two numbers below 2 ^ k with the same k digits are equal.
pub bits_ext : (k a b : ℕ) → a < 2 ^ k → b < 2 ^ k → ((i : ℕ) → bit i a ≡ bit i b) → a ≡ b
bits_ext zero a b p q h = omega arith
bits_ext (suc k) a b p q h =
    let e : a / 2 ≡ b / 2 =
      bits_ext k (a / 2) (b / 2) (omega (arith, pow-suc 2 k)) (omega (arith, pow-suc 2 k))
        (λ i. h (suc i)) in
    omega (arith, e, h 0)

pub bit_or-lt : (k a b : ℕ) → a < 2 ^ k → b < 2 ^ k → bit_or a b < 2 ^ k
bit_or-lt zero a b p q = omega (arith, bit_or_zeros a b (omega arith) (omega arith))
  where
    bit_or_zeros : (a b : ℕ) → a ≡ 0 → b ≡ 0 → bit_or a b ≡ 0
    bit_or_zeros a b p q = rw (p, q) refl
bit_or-lt (suc k) a b p q = omega (
  arith,
  bit_or_step a b,
  pow-suc 2 k,
  bit_or-lt k (a / 2) (b / 2) (omega (arith, pow-suc 2 k)) (omega (arith, pow-suc 2 k)),
)

below_right : (left x y : ℕ) → x ≤ left → bit_and x y ≤ y
below_right zero x y h =
    let none_left : x ≡ 0 = omega arith in rw none_left (omega (arith, bit_and-bitwise 0 y))
below_right (suc left) x y h = elim (bit_and_cases x) [
  | inl none_left ↦ rw none_left (omega (arith, bit_and-bitwise 0 y))
  | inr some_left ↦ omega (arith, bit_and_step x y, below_right left (x / 2) (y / 2) (omega arith))
]
  where
    bit_and_cases : (x : ℕ) → (x ≡ 0) ⊎ (0 < x)
    bit_and_cases zero = inl refl
    bit_and_cases (suc x) = inr (omega arith)

pub bit_and-le_right : (x y : ℕ) → bit_and x y ≤ y
bit_and-le_right x y = below_right x x y (le_refl x)

pub bit_and-zero : (x : ℕ) → bit_and x 0 ≡ 0
bit_and-zero x = omega (arith, bit_and-le_right x 0)

bit_and-le_fuel : (n a b : ℕ) → a ≤ n → bit_and a b ≤ a
bit_and-le_fuel n zero b h = omega (arith, bit_and-bitwise 0 b)
bit_and-le_fuel zero (suc a) b h = absurd (omega arith)
bit_and-le_fuel (suc n) (suc a) b h =
    omega (arith, bit_and_step (suc a) b, bit_and-le_fuel n (suc a / 2) (b / 2) (omega arith))

pub bit_and-le : (a b : ℕ) → bit_and a b ≤ a
bit_and-le a b = bit_and-le_fuel a a b (le_refl a)

-- The digit 2 ^ k has nothing in common with a number below it.
pub bit_and-fresh : (k a : ℕ) → a < 2 ^ k → bit_and a (2 ^ k) ≡ 0
bit_and-fresh zero a h = let e : a ≡ 0 = omega arith in rw e refl
bit_and-fresh (suc k) a h = omega (
  arith,
  bit_and_step a (2 ^ suc k),
  half k,
  ap (λ (t : ℕ). bit_and (a / 2) t) (half k),
  bit_and-fresh k (a / 2) (omega (arith, pow-suc 2 k)),
  pow-suc 2 k,
)
  where
    half : (k : ℕ) → 2 ^ suc k / 2 ≡ 2 ^ k
    half k = omega (arith, pow-suc 2 k)

double_shift : (k q : ℕ) → q * 2 ^ suc k ≡ 2 * (q * 2 ^ k)
double_shift k q =
    let doubled : q * 2 ^ suc k ≡ q * (2 ^ k * 2) =
      ap (λ (w : ℕ). q * w) (omega (arith, pow-suc 2 k)) in
    omega (arith, doubled)

mask_above : (k q r : ℕ) → r < 2 ^ k → bit_and (q * 2 ^ k + r) (2 ^ k - 1) ≡ r
mask_above zero q r h = rw bit_and-zero (omega arith)
mask_above (suc k) q r h = ground (
  arith,
  bit_and_step (q * 2 ^ suc k + r) (2 ^ suc k - 1),
  double_shift k q,
  pow-suc 2 k,
  mask_above k q (r / 2) (omega arith),
)

-- A mask of k low digits is the remainder by 2 ^ k.
pub bit_and_mask : (k a : ℕ) → bit_and a (2 ^ k - 1) ≡ a % 2 ^ k
bit_and_mask k a = ground (arith, one-le-pow k 2, mask_above k (a / 2 ^ k) (a % 2 ^ k))

-- A mask of the one digit `j`.
pub bit_and_pow : (j x : ℕ) → bit_and x (2 ^ j) ≡ bit j x * 2 ^ j
bit_and_pow zero x = omega (arith, bit_and_mask 1 x)
bit_and_pow (suc j) x = omega (
  arith,
  bit_and_step x (2 ^ suc j),
  half_pow j,
  ap (λ (t : ℕ). bit_and (x / 2) t) (half_pow j),
  bit_and_pow j (x / 2),
  double_shift j (bit j (x / 2)),
  pow-suc 2 j,
)
  where
    half_pow : (k : ℕ) → 2 ^ suc k / 2 ≡ 2 ^ k
    half_pow k = omega (arith, pow-suc 2 k)

bit-zero : (j : ℕ) → bit j 0 ≡ 0
bit-zero zero = refl
bit-zero (suc j) = bit-zero j

pub bit_pow : (j i : ℕ) → bit j (2 ^ i) ≡ (if i == j then 1 else 0)
bit_pow zero zero = refl
bit_pow zero (suc i) = ground (arith, pow-suc 2 i)
bit_pow (suc j) zero = bit-zero j ∙ ground arith
bit_pow (suc j) (suc i) =
    ap (λ (t : ℕ). bit j t) (omega (arith, pow-suc 2 i)) ∙ bit_pow j i ∙ ground arith
