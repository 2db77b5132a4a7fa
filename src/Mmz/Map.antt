-- ===== src/Mmz/Map.antt =====
-- `HashMap`: a list of keys with their values. A key stands in it once, and a new key goes to the
-- end; the order is that of an iteration, which the source leaves to the hash function.
use second_opinion.Prelude.{Bool, List, [], ◌∷◌, if◌then◌else◌, Option, none, some}

abbrev pub Map : Type 0 → Type 0 → Type 0
Map K V = List (K × V)

module _ {K V : Type 0} (eq : K → K → Bool) where
  unfoldable pub get : K → Map K V → Option V
  get k [] = none
  get k ((j, v) ∷ m) = let rest = get k m in if eq j k then some v else rest

  -- `HashMap::insert` without its result, which is what `get` gives before.
  unfoldable pub insert : K → V → Map K V → Map K V
  insert k v [] = (k, v) ∷ []
  insert k v ((j, w) ∷ m) = let rest = insert k v m in if eq j k then (j, v) ∷ m else (j, w) ∷ rest
