-- ===== src/Prelude/Lists.antt =====
-- Lists measured and indexed by native numbers, under the library's names. `snoc` is
-- `Vec::push` on a vector that is read by index.
use Prim.Native.Nat.{ℕ, zero, suc, ◌+◌, ◌-◌, min}
use mathlib.Core.Path.{◌≡◌, refl, ap, subst}
use mathlib.Core.List.{List, [], ◌∷◌, ◌++◌}
use mathlib.Core.Option.{Option, none, some}
use mathlib.Core.Bool.{Bool, true, false}
use native.Mathlib.Omega.{arith}

module _ {ℓ} {A : Type ℓ} where
  abbrev pub length : List A → ℕ
  length [] = 0
  length (x ∷ xs) = suc (length xs)

  abbrev pub get_elem? : List A → ℕ → Option A
  get_elem? [] i = none
  get_elem? (x ∷ xs) zero = some x
  get_elem? (x ∷ xs) (suc i) = get_elem? xs i

  abbrev pub take : ℕ → List A → List A
  take zero xs = []
  take (suc n) [] = []
  take (suc n) (x ∷ xs) = x ∷ take n xs

  abbrev pub drop : ℕ → List A → List A
  drop zero xs = xs
  drop (suc n) [] = []
  drop (suc n) (x ∷ xs) = drop n xs

  abbrev pub snoc : List A → A → List A
  snoc [] y = y ∷ []
  snoc (x ∷ xs) y = x ∷ snoc xs y

module _ {ℓ} {A : Type ℓ} where
  abbrev pub All {κ} : (A → Type κ) → List A → Type κ
  All P [] = Unit {κ}
  All P (x ∷ xs) = P x × All P xs

  pub length-append : (xs ys : List A) → length (xs ++ ys) ≡ length xs + length ys
  length-append [] ys = omega arith
  length-append (x ∷ xs) ys = omega (arith, length-append xs ys)

  pub length-snoc : (xs : List A) (y : A) → length (snoc xs y) ≡ suc (length xs)
  length-snoc [] y = refl
  length-snoc (x ∷ xs) y = ap suc (length-snoc xs y)

  pub length-drop : (n : ℕ) (xs : List A) → length (drop n xs) ≡ length xs - n
  length-drop zero xs = omega arith
  length-drop (suc n) [] = omega arith
  length-drop (suc n) (x ∷ xs) = omega (arith, length-drop n xs)

  pub length-take : (n : ℕ) (xs : List A) → length (take n xs) ≡ min n (length xs)
  length-take zero xs = omega arith
  length-take (suc n) [] = omega arith
  length-take (suc n) (x ∷ xs) = omega (arith, length-take n xs)

  pub snoc-append : (xs ys : List A) (z : A) → xs ++ snoc ys z ≡ snoc (xs ++ ys) z
  snoc-append [] ys z = refl
  snoc-append (x ∷ xs) ys z = ap (λ (t : List A). x ∷ t) (snoc-append xs ys z)

  pub append-snoc : (xs : List A) (y : A) (ys : List A) → snoc xs y ++ ys ≡ xs ++ y ∷ ys
  append-snoc [] y ys = refl
  append-snoc (x ∷ xs) y ys = ap (λ (t : List A). x ∷ t) (append-snoc xs y ys)

  pub drop-length_append : (xs ys : List A) → drop (length xs) (xs ++ ys) ≡ ys
  drop-length_append [] ys = refl
  drop-length_append (x ∷ xs) ys = drop-length_append xs ys

  pub take-length_append : (xs ys : List A) → take (length xs) (xs ++ ys) ≡ xs
  take-length_append [] ys = refl
  take-length_append (x ∷ xs) ys = ap (λ (t : List A). x ∷ t) (take-length_append xs ys)

-- `Vec::pop`, where the popped element is not used.
module _ {ℓ} {A : Type ℓ} where
  abbrev pub init : List A → List A
  init [] = []
  init (x ∷ []) = []
  init (x ∷ y ∷ xs) = x ∷ init (y ∷ xs)

  abbrev pub last? : List A → Option A
  last? [] = none
  last? (x ∷ []) = some x
  last? (x ∷ y ∷ xs) = last? (y ∷ xs)

  abbrev pub is_empty : List A → Bool
  is_empty [] = true
  is_empty (x ∷ xs) = false

module _ {ℓ κ} {A : Type ℓ} (P : A → Type κ) where
  pub All-append : (xs ys : List A) → All P xs → All P ys → All P (xs ++ ys)
  All-append [] ys h k = k
  All-append (x ∷ xs) ys h k = (h.0, All-append xs ys h.1 k)

  pub All-snoc : (xs : List A) (y : A) → All P xs → P y → All P (snoc xs y)
  All-snoc [] y h k = (k, tt)
  All-snoc (x ∷ xs) y h k = (h.0, All-snoc xs y h.1 k)

  pub All-take : (n : ℕ) (xs : List A) → All P xs → All P (take n xs)
  All-take zero xs h = tt
  All-take (suc n) [] h = tt
  All-take (suc n) (x ∷ xs) h = (h.0, All-take n xs h.1)

  pub All-drop : (n : ℕ) (xs : List A) → All P xs → All P (drop n xs)
  All-drop zero xs h = h
  All-drop (suc n) [] h = tt
  All-drop (suc n) (x ∷ xs) h = All-drop n xs h.1

  pub All-get_elem? : (xs : List A) (i : ℕ) {a : A} → All P xs → get_elem? xs i ≡ some a → P a
  All-get_elem? [] i h e = ground arith
  All-get_elem? (x ∷ xs) zero h e = subst P (ground arith) h.0
  All-get_elem? (x ∷ xs) (suc i) h e = All-get_elem? xs i h.1 e

-- Every element stays at its index.
abbrev pub Grown {ℓ} : {A : Type ℓ} → List A → List A → Type ℓ
Grown {A = A} h h' = (i : ℕ) (x : A) → get_elem? h i ≡ some x → get_elem? h' i ≡ some x

module _ {ℓ} {A : Type ℓ} where
  pub snoc-Grown : (h : List A) (y : A) → Grown h (snoc h y)
  snoc-Grown [] y i z e = ground arith
  snoc-Grown (x ∷ h) y zero z e = e
  snoc-Grown (x ∷ h) y (suc i) z e = snoc-Grown h y i z e

  pub get_elem?-snoc_last : (h : List A) (y : A) → get_elem? (snoc h y) (length h) ≡ some y
  get_elem?-snoc_last [] y = refl
  get_elem?-snoc_last (x ∷ h) y = get_elem?-snoc_last h y

  pub some_inj : {o : Option A} {x y : A} → o ≡ some x → o ≡ some y → x ≡ y
  some_inj e f = cc
