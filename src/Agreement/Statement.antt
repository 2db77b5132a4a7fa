-- ===== src/Agreement/Statement.antt =====
-- src/mmb/unify.rs and src/mmz/parse.rs: the statement of an assertion in the binary file and in the
-- specification.
use second_opinion.Prelude.{List, [], ◌∷◌, ◌>>=◌, ◌>>◌}
use second_opinion.Mmb.Item as Mmb
use second_opinion.Mmb.Item.{MmbItem, expr}
use second_opinion.Mmb.Unify.Pattern.{Pattern}
use second_opinion.Mmz.Data as Mmz
use second_opinion.Mmz.Data.{MmzExpr, MmzHyp}
use second_opinion.Agreement.{Shape, shape, spec_shape, Same}
use second_opinion.Agreement.Slots.{Slots}

-- The hypotheses that the patterns take off the two stacks, in pairs.
abbrev pub Pairs : (Shape → Shape → Type 0) → List Pattern → List MmbItem → List MmzHyp → Type 0
Pairs R [] hs xs = Unit
Pairs R (p ∷ ps) (e ∷ hs) (x ∷ xs) = R (shape e) (spec_shape x.expr) × Pairs R ps hs xs
Pairs R (p ∷ ps) [] xs = ⊥
Pairs R (p ∷ ps) (e ∷ hs) [] = ⊥

-- A variable of the specification.
abbrev pub IsSpecVar : MmzExpr → Type 0
IsSpecVar (Mmz.var v) = Unit
IsSpecVar (Mmz.app n k es t) = ⊥

-- The conclusions and the hypotheses are the same, down to variables of the two heaps.
abbrev pub SameStatement :
    List MmbItem
    → List MmzExpr
    → List Pattern
    → MmbItem
    → MmzExpr
    → List MmbItem
    → List MmzHyp
    → Type 0
SameStatement h k hyps tgt spec hs xs =
    Same h k (shape tgt) (spec_shape spec) × Pairs (Same h k) hyps hs xs
