-- ===== src/Agreement/Growth.antt =====
-- How two heaps grow together, and which of their slots are justified.
use second_opinion.Prelude.{
  ℕ, zero, suc, ◌≤◌, ◌<◌, List, [], ◌∷◌, length, snoc, get_elem?, length-snoc, ◌≡◌, refl, ap, ◌∙◌,
  subst, some, Grown, snoc-Grown, get_elem?-snoc_last, some_inj, inl, inr, arith, ◌⊎◌,
}
use second_opinion.Mmb.Item.{MmbItem}
use second_opinion.Mmz.Data.{MmzExpr}
use second_opinion.Agreement.{shape, spec_shape}
use second_opinion.Agreement.Slots.{Just, Just-mono, JustFrom, Slot, saved, Slots}

-- What a match makes of two heaps of one length.
pub record Step (h : List MmbItem) (k : List MmzExpr) (h' : List MmbItem) (k' : List MmzExpr)
    : Type 0 where
  pub grown : Grown h h'
  pub spec_grown : Grown k k'
  pub same_length : length h' ≡ length k'
  pub just : JustFrom (length h) h' k'

module _ {ℓ} {A : Type ℓ} where
  get_elem?-lt : (h : List A) (i : ℕ) {x : A} → get_elem? h i ≡ some x → i < length h
  get_elem?-lt [] i e = ground arith
  get_elem?-lt (x ∷ h) zero e = omega arith
  get_elem?-lt (x ∷ h) (suc i) e = omega (arith, get_elem?-lt h i e)

  get_elem?-some : (h : List A) (i : ℕ) → i < length h → (x : A) × (get_elem? h i ≡ some x)
  get_elem?-some [] i lt = absurd (omega (arith, lt))
  get_elem?-some (x ∷ h) zero lt = (x, refl)
  get_elem?-some (x ∷ h) (suc i) lt = get_elem?-some h i (omega (arith, lt))

  -- The element of a slot before it was known to be in the smaller list.
  before :
      (h h' : List A) (i : ℕ) {x : A}
      → Grown h h'
      → i < length h
      → get_elem? h' i ≡ some x
      → get_elem? h i ≡ some x
  before h h' i {x} g lt e =
      let (y, p) = get_elem?-some h i lt in p ∙ ap (λ (z : A). some z) (some_inj (g i y p) e)

pub same-Step : (h : List MmbItem) (k : List MmzExpr) → length h ≡ length k → Step h k h k
same-Step h k e = record {
  grown = λ i x p. p;
  spec_grown = λ i y p. p;
  same_length = e;
  just = λ i x y le p q. absurd (omega (arith, le, get_elem?-lt h i p));
}

-- A slot of either part.
either_slot :
    {h h' h2 : List MmbItem} {k k' k2 : List MmzExpr} (a : Step h k h' k') (b : Step h' k' h2 k2)
    (i : ℕ) (x : MmbItem) (y : MmzExpr)
    → length h ≤ i
    → get_elem? h2 i ≡ some x
    → get_elem? k2 i ≡ some y
    → (i < length h') ⊎ (length h' ≤ i)
    → Just h2 k2 (shape x) (spec_shape y)
either_slot {h' = h'} {h2 = h2} {k' = k'} {k2 = k2} a b i x y le p q (inl lt) =
    Just-mono b.grown b.spec_grown (
      a.just i x y le (before h' h2 i b.grown lt p)
        (before k' k2 i b.spec_grown (omega (arith, lt, a.same_length)) q))
either_slot a b i x y le p q (inr ge) = b.just i x y ge p q

-- Every slot that a match leaves was there before or has been saved.
pub Step-Slots :
    {h h' : List MmbItem} {k k' : List MmzExpr} (step : Step h k h' k')
    → ((i : ℕ) (x : MmbItem) (y : MmzExpr)
        → get_elem? h i ≡ some x
        → get_elem? k i ≡ some y
        → Slot h k h' k' (shape x) (spec_shape y))
    → length h ≡ length k
    → Slots h k h' k'
Step-Slots {h = h} {h' = h'} {k = k} {k' = k'} step old len i x y p q = slot (split i (length h))
  where
    split : (i n : ℕ) → (i < n) ⊎ (n ≤ i)
    split i n = omega arith

    slot : (i < length h) ⊎ (length h ≤ i) → Slot h k h' k' (shape x) (spec_shape y)
    slot (inl lt) =
        old i x y (before h h' i step.grown lt p)
          (before k k' i step.spec_grown (omega (arith, lt, len)) q)
    slot (inr ge) = saved (step.just i x y ge p q)

pub then-Step :
    {h h' h2 : List MmbItem} {k k' k2 : List MmzExpr}
    → Step h k h' k'
    → Step h' k' h2 k2
    → Step h k h2 k2
then-Step {h' = h'} a b = record {
  grown = λ i x p. b.grown i x (a.grown i x p);
  spec_grown = λ i y p. b.spec_grown i y (a.spec_grown i y p);
  same_length = b.same_length;
  just = λ i x y le p q. either_slot a b i x y le p q (split i (length h'));
}
  where
    split : (i n : ℕ) → (i < n) ⊎ (n ≤ i)
    split i n = omega arith

new_slot :
    (h : List MmbItem) {h2 : List MmbItem} (k : List MmzExpr) {k2 : List MmzExpr} (x u : MmbItem)
    (y v : MmzExpr) (i : ℕ)
    → length h ≡ length k
    → Step (snoc h x) (snoc k y) h2 k2
    → Just h2 k2 (shape x) (spec_shape y)
    → get_elem? h2 i ≡ some u
    → get_elem? k2 i ≡ some v
    → (i ≡ length h) ⊎ (suc (length h) ≤ i)
    → Just h2 k2 (shape u) (spec_shape v)
new_slot h {h2 = h2} k {k2 = k2} x u y v i e b j p q (inl at) =
    let same : x ≡ u =
      some_inj (b.grown (length h) x (get_elem?-snoc_last h x))
        (subst (λ n. get_elem? h2 n ≡ some u) at p) in
    let same_spec : y ≡ v =
      some_inj (b.spec_grown (length k) y (get_elem?-snoc_last k y))
        (subst (λ n. get_elem? k2 n ≡ some v) (at ∙ e) q) in
    subst (λ z. Just h2 k2 (shape u) (spec_shape z)) same_spec
      (subst (λ z. Just h2 k2 (shape z) (spec_shape y)) same j)
new_slot h k x u y v i e b j p q (inr above) =
    b.just i u v (omega (arith, above, length-snoc h x)) p q

-- An item pushed on either heap, before what comes then. The new slot is justified at the end.
pub push-Step :
    {h h2 : List MmbItem} {k k2 : List MmzExpr} (x : MmbItem) (y : MmzExpr)
    → length h ≡ length k
    → Step (snoc h x) (snoc k y) h2 k2
    → Just h2 k2 (shape x) (spec_shape y)
    → Step h k h2 k2
push-Step {h = h} {k = k} x y e b j = record {
  grown = λ i z p. b.grown i z (snoc-Grown h x i z p);
  spec_grown = λ i z p. b.spec_grown i z (snoc-Grown k y i z p);
  same_length = b.same_length;
  just = λ i u v le p q. new_slot h k x u y v i e b j p q (split i (length h) le);
}
  where
    split : (i n : ℕ) → n ≤ i → (i ≡ n) ⊎ (suc n ≤ i)
    split i n le = omega arith
