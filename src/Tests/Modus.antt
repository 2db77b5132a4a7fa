-- ===== src/Tests/Modus.antt =====
-- A run of the proof machine: two hypotheses are assumed, and modus ponens is applied to them.
use second_opinion.Prelude.{ℕ, List, [], ◌∷◌, ◌≡◌, ◌⊎◌}
use second_opinion.Mmb.ProofCmd.{ProofCmd}
use second_opinion.Mmb.Item.{MmbItem, proof}
use second_opinion.Mmb.State.{MmbState, init_state}
use second_opinion.Tests.Examples.{phi, psi, phi_psi}

abbrev stage : List MmbItem → List MmbItem → List MmbItem → ℕ → MmbState
stage st hs heap n = record init_state { stack = st; hstack = hs; heap = heap; next_addr = n }

abbrev loaded : List MmbItem
loaded = phi ∷ psi ∷ phi_psi ∷ []

-- `Ref 0`, `Hyp`, `Ref 2`, `Hyp`.
abbrev assumed_heap : List MmbItem
assumed_heap = phi ∷ psi ∷ phi_psi ∷ proof 3 phi ∷ proof 4 phi_psi ∷ []

abbrev both : List MmbItem
both = phi_psi ∷ phi ∷ []

-- `Ref 4`, `Ref 3`, `Ref 0`, `Ref 1`, `Ref 1`.
abbrev operands : List MmbItem
operands = psi ∷ psi ∷ phi ∷ proof 3 phi ∷ proof 4 phi_psi ∷ []

-- A hypothesis of the run.
abbrev Assumed : MmbItem → Type 0
Assumed e = (e ≡ phi_psi) ⊎ (e ≡ phi)
