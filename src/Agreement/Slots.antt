-- ===== src/Agreement/Slots.antt =====
-- Two heaps that grow together, and the shapes that agree by their slots.
use second_opinion.Prelude.{
  ℕ, ◌≤◌, List, get_elem?, Grown, ◌≡◌, ◌≢◌, refl, sym, ap, ◌∙◌, subst, some, arith,
}
use second_opinion.Mmb.Item.{MmbItem}
use second_opinion.Mmz.Data.{MmzExpr}
use second_opinion.Agreement.{
  Shape, Shapes, leaf, node, other, none_left, then_shape, shape, spec_shape, Same, SameAll,
  SameVar,
}

-- Agreement by slots: the shapes of the two elements of a slot, or the same term applied to shapes that
-- agree.
mutual
  pub data Rel (h : List MmbItem) (k : List MmzExpr) : Shape → Shape → Type 0 where
    by_slot :
        {s t : Shape} (i : ℕ) (x : MmbItem) (y : MmzExpr)
        → get_elem? h i ≡ some x
        → get_elem? k i ≡ some y
        → shape x ≡ s
        → spec_shape y ≡ t
        → Rel h k s t
    by_node : (n : ℕ) {ss ts : Shapes} → RelAll h k ss ts → Rel h k (node n ss) (node n ts)

  pub data RelAll (h : List MmbItem) (k : List MmzExpr) : Shapes → Shapes → Type 0 where
    rel_nil : RelAll h k none_left none_left
    rel_cons :
        {s t : Shape} {ss ts : Shapes}
        → Rel h k s t
        → RelAll h k ss ts
        → RelAll h k (then_shape s ss) (then_shape t ts)

-- What the two elements of a slot have in common that a match has saved: one term.
pub data Just (h : List MmbItem) (k : List MmzExpr) : Shape → Shape → Type 0 where
  both_node : (n : ℕ) {ss ts : Shapes} → RelAll h k ss ts → Just h k (node n ss) (node n ts)

module _ {h h' : List MmbItem} {k k' : List MmzExpr} (g : Grown h h') (f : Grown k k') where
  mutual
    pub Rel-mono : {s t : Shape} → Rel h k s t → Rel h' k' s t
    Rel-mono (by_slot i x y p q e u) = by_slot i x y (g i x p) (f i y q) e u
    Rel-mono (by_node n r) = by_node n (RelAll-mono r)

    pub RelAll-mono : {ss ts : Shapes} → RelAll h k ss ts → RelAll h' k' ss ts
    RelAll-mono rel_nil = rel_nil
    RelAll-mono (rel_cons r rs) = rel_cons (Rel-mono r) (RelAll-mono rs)

  pub Just-mono : {s t : Shape} → Just h k s t → Just h' k' s t
  Just-mono (both_node n r) = both_node n (RelAll-mono r)

-- Every slot from the i-th one on.
abbrev pub JustFrom : ℕ → List MmbItem → List MmzExpr → Type 0
JustFrom n h k =
    (i : ℕ) (x : MmbItem) (y : MmzExpr)
    → n ≤ i
    → get_elem? h i ≡ some x
    → get_elem? k i ≡ some y
    → Just h k (shape x) (spec_shape y)

-- A slot was there before, with two variables, or it was saved.
pub data Slot (h0 : List MmbItem) (k0 : List MmzExpr) (h : List MmbItem) (k : List MmzExpr)
    : Shape → Shape → Type 0 where
  both_leaf : (a b : ℕ) → SameVar h0 k0 a b → Slot h0 k0 h k (leaf a) (leaf b)
  saved : {s t : Shape} → Just h k s t → Slot h0 k0 h k s t

abbrev pub Slots : List MmbItem → List MmzExpr → List MmbItem → List MmzExpr → Type 0
Slots h0 k0 h k =
    (i : ℕ) (x : MmbItem) (y : MmzExpr)
    → get_elem? h i ≡ some x
    → get_elem? k i ≡ some y
    → Slot h0 k0 h k (shape x) (spec_shape y)

module _ (h0 : List MmbItem) (k0 : List MmzExpr) (h : List MmbItem) (k : List MmzExpr)
    (slots : Slots h0 k0 h k) where
  same_var : (b : ℕ) {a a' : ℕ} → SameVar h0 k0 a b → a ≡ a' → SameVar h0 k0 a' b
  same_var b v e = subst (λ n. SameVar h0 k0 n b) e v

  Slot-leaf :
      (a : ℕ) {s t : Shape}
      → Slot h0 k0 h k s t
      → s ≡ leaf a
      → (b : ℕ) × (t ≡ leaf b) × SameVar h0 k0 a b
  Slot-leaf a (both_leaf b c v) e = (c, refl, same_var c v (cc))
  Slot-leaf a (saved (both_node n r)) e = ground arith

  node_parts :
      (n m : ℕ) (ss us ts : Shapes)
      → RelAll h k us ts
      → node m us ≡ node n ss
      → (vs : Shapes) × (node m ts ≡ node n vs) × RelAll h k ss vs
  node_parts n m ss us ts r e =
      let same : m ≡ n = cc in
      let same_args : us ≡ ss = cc in
      (ts, ap (λ (j : ℕ). node j ts) same, subst (λ vs. RelAll h k vs ts) same_args r)

  Slot-node :
      (n : ℕ) (ss : Shapes) {s t : Shape}
      → Slot h0 k0 h k s t
      → s ≡ node n ss
      → (ts : Shapes) × (t ≡ node n ts) × RelAll h k ss ts
  Slot-node n ss (both_leaf b c v) e = ground arith
  Slot-node n ss (saved (both_node m {ss = us} {ts = ts} r)) e = node_parts n m ss us ts r e

  Slot-other : {s t : Shape} → Slot h0 k0 h k s t → s ≢ other
  Slot-other (both_leaf b c v) e = ground arith
  Slot-other (saved (both_node m r)) e = ground arith

  Rel-leaf :
      (a : ℕ) {s t : Shape} → Rel h k s t → s ≡ leaf a → (b : ℕ) × (t ≡ leaf b) × SameVar h0 k0 a b
  Rel-leaf a (by_slot i x y p q e u) w =
      let (b, v, same) = Slot-leaf a (slots i x y p q) (e ∙ w) in (b, sym u ∙ v, same)
  Rel-leaf a (by_node n r) w = ground arith

  Rel-node :
      (n : ℕ) (ss : Shapes) {s t : Shape}
      → Rel h k s t
      → s ≡ node n ss
      → (ts : Shapes) × (t ≡ node n ts) × RelAll h k ss ts
  Rel-node n ss (by_slot i x y p q e u) w =
      let (ts, v, r) = Slot-node n ss (slots i x y p q) (e ∙ w) in (ts, sym u ∙ v, r)
  Rel-node n ss (by_node m {ss = us} {ts = ts} r) w = node_parts n m ss us ts r w

  Rel-other : {s t : Shape} → Rel h k s t → s ≢ other
  Rel-other (by_slot i x y p q e u) w = Slot-other (slots i x y p q) (e ∙ w)
  Rel-other (by_node m r) w = ground arith

  RelAll-nil : {ss ts : Shapes} → RelAll h k ss ts → ss ≡ none_left → ts ≡ none_left
  RelAll-nil rel_nil e = refl
  RelAll-nil (rel_cons r rs) e = ground arith

  RelAll-cons :
      (s : Shape) (ss : Shapes) {us ts : Shapes}
      → RelAll h k us ts
      → us ≡ then_shape s ss
      → (t : Shape) × (vs : Shapes) × (ts ≡ then_shape t vs) × Rel h k s t × RelAll h k ss vs
  RelAll-cons s ss rel_nil e = ground arith
  RelAll-cons s ss (rel_cons {s = s'} {t = t} {ss = ss'} {ts = ts} r rs) e =
      let same : s' ≡ s = cc in
      let same_rest : ss' ≡ ss = cc in
      (t, ts, refl, subst (λ u. Rel h k u t) same r, subst (λ us. RelAll h k us ts) same_rest rs)

  mutual
    -- When every slot holds two variables of the first heaps or one term applied to shapes that agree,
    -- shapes that agree are the same down to those variables.
    pub Rel-Same : (s t : Shape) → Rel h k s t → Same h0 k0 s t
    Rel-Same (leaf a) t r =
        let (b, e, v) = Rel-leaf a r refl in subst (λ u. Same h0 k0 (leaf a) u) (sym e) v
    Rel-Same (node n ss) t r =
        let (ts, e, rs) = Rel-node n ss r refl in
        subst (λ u. Same h0 k0 (node n ss) u) (sym e) (refl, RelAll-SameAll ss ts rs)
    Rel-Same other t r = absurd (Rel-other r refl)

    pub RelAll-SameAll : (ss ts : Shapes) → RelAll h k ss ts → SameAll h0 k0 ss ts
    RelAll-SameAll none_left ts r =
        subst (λ u. SameAll h0 k0 none_left u) (sym (RelAll-nil r refl)) tt
    RelAll-SameAll (then_shape s ss) ts r =
        let (t, vs, e, first, rest) = RelAll-cons s ss r refl in
        subst (λ u. SameAll h0 k0 (then_shape s ss) u) (sym e)
          (Rel-Same s t first, RelAll-SameAll ss vs rest)
