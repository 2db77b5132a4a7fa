-- ===== src/Main/Weights.antt =====
-- src/main.rs: lists up to order. Two lists have the same elements if every weight has the same total
-- on them.
use second_opinion.Prelude.{
  All, subst, false, ◌==◌, ℕ, zero, suc, ◌+◌, ◌≤◌, ◌<◌, List, [], ◌∷◌, ◌++◌, snoc, length, take,
  get_elem?, ◌≡◌, refl, none, some, arith,
}
use second_opinion.Main.{set_at, idle, idle_threads}

module _ {ℓ} {A : Type ℓ} where
  abbrev pub total : (A → ℕ) → List A → ℕ
  total w [] = 0
  total w (x ∷ xs) = w x + total w xs

  -- Equal as bags.
  abbrev pub SameBag : List A → List A → Type ℓ
  SameBag xs ys = (w : A → ℕ) → total w xs ≡ total w ys

  pub total-append : (w : A → ℕ) (xs ys : List A) → total w (xs ++ ys) ≡ total w xs + total w ys
  total-append w [] ys = omega arith
  total-append w (x ∷ xs) ys = omega (arith, total-append w xs ys)

  pub total-snoc : (w : A → ℕ) (xs : List A) (y : A) → total w (snoc xs y) ≡ total w xs + w y
  total-snoc w [] y = omega arith
  total-snoc w (x ∷ xs) y = omega (arith, total-snoc w xs y)

  pub total-take-suc :
      (w : A → ℕ) (n : ℕ) (xs : List A) {x : A}
      → get_elem? xs n ≡ some x
      → total w (take (suc n) xs) ≡ total w (take n xs) + w x
  total-take-suc w n [] h = ground arith
  total-take-suc w zero (y ∷ xs) h = ground arith
  total-take-suc w (suc n) (y ∷ xs) h = omega (arith, total-take-suc w n xs h)

  pub total-take_all :
      (w : A → ℕ) (n : ℕ) (xs : List A) → length xs ≤ n → total w (take n xs) ≡ total w xs
  total-take_all w zero [] h = refl
  total-take_all w zero (x ∷ xs) h = absurd (omega arith)
  total-take_all w (suc n) [] h = refl
  total-take_all w (suc n) (x ∷ xs) h = omega (arith, total-take_all w n xs (omega arith))

  pub get_elem?-eq-some_lt : (n : ℕ) (xs : List A) {x : A} → get_elem? xs n ≡ some x → n < length xs
  get_elem?-eq-some_lt n [] h = ground arith
  get_elem?-eq-some_lt zero (x ∷ xs) h = omega arith
  get_elem?-eq-some_lt (suc n) (x ∷ xs) h = omega (arith, get_elem?-eq-some_lt n xs h)

  pub get_elem?-eq-none_ge : (n : ℕ) (xs : List A) → get_elem? xs n ≡ none → length xs ≤ n
  get_elem?-eq-none_ge n [] h = omega arith
  get_elem?-eq-none_ge zero (x ∷ xs) h = ground arith
  get_elem?-eq-none_ge (suc n) (x ∷ xs) h = omega (arith, get_elem?-eq-none_ge n xs h)

  -- The total when one element is replaced.
  pub total-set_at :
      (w : A → ℕ) (i : ℕ) (y : A) (xs : List A) {x : A}
      → get_elem? xs i ≡ some x
      → total w (set_at i y xs) + w x ≡ total w xs + w y
  unfolding set_at
  total-set_at w i y [] h = ground arith
  total-set_at w zero y (x ∷ xs) h = ground arith
  total-set_at w (suc i) y (x ∷ xs) h = omega (arith, total-set_at w i y xs h)

  pub length-set_at : (i : ℕ) (y : A) (xs : List A) → length (set_at i y xs) ≡ length xs
  unfolding set_at
  length-set_at i y [] = refl
  length-set_at zero y (x ∷ xs) = refl
  length-set_at (suc i) y (x ∷ xs) = omega (arith, length-set_at i y xs)

  pub total-le_length : (w : A → ℕ) (xs : List A) → ((x : A) → w x ≤ 1) → total w xs ≤ length xs
  total-le_length w [] h = omega arith
  total-le_length w (x ∷ xs) h = omega (arith, h x, total-le_length w xs h)

  -- An element of weight 0 leaves room below the length.
  pub total-lt_length :
      (w : A → ℕ) (i : ℕ) (xs : List A) {x : A}
      → ((x : A) → w x ≤ 1)
      → get_elem? xs i ≡ some x
      → w x ≡ 0
      → total w xs < length xs
  total-lt_length w i [] h g z = ground arith
  total-lt_length w zero (x ∷ xs) h g z = ground (arith, total-le_length w xs h)
  total-lt_length w (suc i) (x ∷ xs) h g z = omega (arith, h x, total-lt_length w i xs h g z)

  pub get_elem?-set_at :
      (i : ℕ) (y : A) (xs : List A) {x : A}
      → get_elem? xs i ≡ some x
      → get_elem? (set_at i y xs) i ≡ some y
  unfolding set_at
  get_elem?-set_at i y [] h = ground arith
  get_elem?-set_at zero y (x ∷ xs) h = refl
  get_elem?-set_at (suc i) y (x ∷ xs) h = get_elem?-set_at i y xs h

  pub get_elem?-set_at_other :
      (i j : ℕ) (y : A) (xs : List A)
      → (i == j) ≡ false
      → get_elem? (set_at j y xs) i ≡ get_elem? xs i
  unfolding set_at
  get_elem?-set_at_other i j y [] h = refl
  get_elem?-set_at_other zero zero y (x ∷ xs) h = ground arith
  get_elem?-set_at_other (suc i) zero y (x ∷ xs) h = refl
  get_elem?-set_at_other zero (suc j) y (x ∷ xs) h = refl
  get_elem?-set_at_other (suc i) (suc j) y (x ∷ xs) h =
      get_elem?-set_at_other i j y xs (ground arith)

  pub total-ge_elem :
      (w : A → ℕ) (i : ℕ) (xs : List A) {x : A} → get_elem? xs i ≡ some x → w x ≤ total w xs
  total-ge_elem w i [] h = ground arith
  total-ge_elem w zero (x ∷ xs) h = ground arith
  total-ge_elem w (suc i) (x ∷ xs) h = omega (arith, total-ge_elem w i xs h)

  pub total-take_le : (w : A → ℕ) (n : ℕ) (xs : List A) → total w (take n xs) ≤ total w xs
  total-take_le w zero xs = omega arith
  total-take_le w (suc n) [] = omega arith
  total-take_le w (suc n) (x ∷ xs) = omega (arith, total-take_le w n xs)

  pub All-of_get {κ} :
      (P : A → Type κ) (xs : List A)
      → ((i : ℕ) → i < length xs → (x : A) × (get_elem? xs i ≡ some x) × P x)
      → All P xs
  All-of_get P [] h = tt
  All-of_get P (x ∷ xs) h =
      let (y, e, p) = h 0 (omega arith) in
      (subst P (ground arith) p, All-of_get P xs (λ i i_lt. h (suc i) (omega (arith, i_lt))))

pub get_elem?-idle_threads :
    (i k : ℕ) → i < k → get_elem? (idle_threads k) i ≡ some (record { at = idle; errs = [] })
unfolding idle_threads
get_elem?-idle_threads i zero h = absurd (omega (arith, h))
get_elem?-idle_threads zero (suc k) h = refl
get_elem?-idle_threads (suc i) (suc k) h = get_elem?-idle_threads i k (omega (arith, h))
