-- ===== src/Util/View/Groups.antt =====
-- src/util.rs: where the printers put the underscores.
use second_opinion.Prelude.{
  ℕ, zero, suc, ◌+◌, ◌/◌, ◌%◌, ◌<◌, Bool, true, ◌&&◌, ◌||◌, List, [], ◌∷◌, ◌++◌, length, All, ltb,
  ◌==◌, if◌then◌else◌, ◌≡◌, refl, Bool-cases, inl, inr, arith, ltb→lt,
}
use second_opinion.Util.View.{digits_before, zeros, separated}

abbrev pub is_bit : ℕ → Bool
is_bit c = c == 48 || c == 49

-- Groups of eight binary digits with an underscore between two of them; `k` digits of the first group
-- have been seen.
unfoldable pub groups : ℕ → List ℕ → Bool
groups k [] = k == 8
groups k (c ∷ cs) =
    let next = groups (if k == 8 then 0 else k + 1) cs in
    (if k == 8 then c == 95 else is_bit c) && next

abbrev pub AllBits : List ℕ → Type 0
AllBits = All (λ c. is_bit c ≡ true)

-- The digits of the group in front of the index `idx`.
count : ℕ → ℕ
count zero = 0
count (suc i) = i % 8 + 1

groups-separated :
    (idx : ℕ) (cs : List ℕ)
    → AllBits cs
    → (idx + length cs) % 8 ≡ 0
    → 0 < idx + length cs
    → groups (count idx) (separated idx cs) ≡ true
unfolding groups separated count
groups-separated zero [] h e pos = absurd (omega (arith, pos))
groups-separated (suc i) [] h e pos = ground arith
groups-separated zero (c ∷ cs) h e pos =
    let rest = groups-separated 1 cs h.1 (omega (arith, e)) (omega arith) in
    ground (arith, h.0, rest)
groups-separated (suc i) (c ∷ cs) h e pos =
    let rest = groups-separated (suc (suc i)) cs h.1 (omega (arith, e)) (omega arith) in
    ground (arith, h.0, rest)

-- Whole groups of digits are printed in groups.
pub separated-groups :
    (cs : List ℕ)
    → AllBits cs
    → length cs % 8 ≡ 0
    → 0 < length cs
    → groups 0 (separated 0 cs) ≡ true
unfolding count
separated-groups cs h e pos = groups-separated 0 cs h (omega (arith, e)) (omega (arith, pos))

pub zeros-AllBits : (k : ℕ) (s : List ℕ) → AllBits s → AllBits (zeros k ++ s)
unfolding zeros
zeros-AllBits zero s h = h
zeros-AllBits (suc k) s h = (refl, zeros-AllBits k s h)

is_bit-digit : (d : ℕ) → d < 2 → is_bit (48 + d) ≡ true
is_bit-digit d h = ground arith

pub digits_before-AllBits : (fuel n : ℕ) (s : List ℕ) → AllBits s → AllBits (digits_before fuel n s)
unfolding digits_before
digits_before-AllBits zero n s h = h
digits_before-AllBits (suc fuel) n s h = elim (Bool-cases (ltb n 2)) [
  | inl small ↦ rw small (is_bit-digit n (ltb→lt n 2 small), h)
  | inr large ↦ rw large (
      digits_before-AllBits fuel (n / 2) ((48 + n % 2) ∷ s) (is_bit-digit (n % 2) (omega arith), h))
]
