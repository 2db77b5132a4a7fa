-- ===== src/Agreement.antt =====
-- src/mmb/unify.rs and `check_expr` of src/mmz/parse.rs: one unify stream of the binary file is run
-- against an expression of the binary file and against one of the specification. The shapes of the
-- two, and what it means that they agree.
pub mod Equality
pub mod Apart
pub mod Slots
pub mod Growth
pub mod Matching
pub mod Statement
pub mod Proved
use second_opinion.Prelude.{ℕ, List, [], ◌∷◌, get_elem?, ◌≡◌, Option, some}
use second_opinion.Mmb.Item as Mmb
use second_opinion.Mmb.Item.{MmbItem, MmbItems, expr, proof, conv, co_conv}
use second_opinion.Mmz.Data as Mmz
use second_opinion.Mmz.Data.{MmzExpr, MmzExprs}

-- An expression without its types and addresses: variables and applications.
mutual
  pub data Shape : Type 0 where
    leaf : ℕ → Shape
    node : ℕ → Shapes → Shape
    other : Shape

  pub data Shapes : Type 0 where
    none_left : Shapes
    then_shape : Shape → Shapes → Shapes

-- A variable of the binary file is its number.
abbrev mutual
  pub shape : MmbItem → Shape
  shape (expr p (Mmb.var idx t)) = leaf idx
  shape (expr p (Mmb.app n xs t)) = node n (shapes xs)
  shape (proof p e) = other
  shape (conv p a b) = other
  shape (co_conv p a b) = other

  pub shapes : MmbItems → Shapes
  shapes Mmb.nil = none_left
  shapes (Mmb.cons x xs) = then_shape (shape x) (shapes xs)

-- A variable of the specification is its position.
abbrev mutual
  pub spec_shape : MmzExpr → Shape
  spec_shape (Mmz.var v) = leaf v.pos
  spec_shape (Mmz.app n k es t) = node n (spec_shapes es)

  pub spec_shapes : MmzExprs → Shapes
  spec_shapes Mmz.nil = none_left
  spec_shapes (Mmz.cons e es) = then_shape (spec_shape e) (spec_shapes es)

-- The two variables stand in the same place of the two heaps.
abbrev pub SameVar : List MmbItem → List MmzExpr → ℕ → ℕ → Type 0
SameVar h k a b =
    (i : ℕ) × (x : MmbItem) × (y : MmzExpr) × (get_elem? h i ≡ some x)
    × (get_elem? k i ≡ some y)
    × (shape x ≡ leaf a)
    × (spec_shape y ≡ leaf b)

-- The same terms applied, down to variables in the same places of the heaps.
abbrev mutual
  pub Same : List MmbItem → List MmzExpr → Shape → Shape → Type 0
  Same h k (leaf a) (leaf b) = SameVar h k a b
  Same h k (node n ss) (node m ts) = (n ≡ m) × SameAll h k ss ts
  Same h k (leaf a) (node m ts) = ⊥
  Same h k (leaf a) other = ⊥
  Same h k (node n ss) (leaf b) = ⊥
  Same h k (node n ss) other = ⊥
  Same h k other t = ⊥

  pub SameAll : List MmbItem → List MmzExpr → Shapes → Shapes → Type 0
  SameAll h k none_left none_left = Unit
  SameAll h k (then_shape s ss) (then_shape t ts) = Same h k s t × SameAll h k ss ts
  SameAll h k none_left (then_shape t ts) = ⊥
  SameAll h k (then_shape s ss) none_left = ⊥
