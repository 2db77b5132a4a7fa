-- ===== src/Mmb/Soundness/Run.antt =====
-- src/mmb/proof.rs, `run_proof`: a run of the proof machine, from the loaded arguments on.
use second_opinion.Prelude.{List, [], ◌≡◌, ok}
use second_opinion.Util.Outline.{Outline}
use second_opinion.Mmb.ProofCmd.{Mode, ProofCmd}
use second_opinion.Mmb.Item.{MmbItem}
use second_opinion.Mmb.State.{MmbState}
use second_opinion.Mmb.Soundness.{Sound}
use second_opinion.Mmb.Proof.{proof_cmd}
use second_opinion.Mmb.Soundness.Steps.{TakesExprs}
use second_opinion.Mmb.Soundness.Arena.{Allocated}

-- A sequence of commands that take expressions only where they expect them.
pub data Reaches (o : Outline) (mode : Mode) (s : MmbState) : MmbState → Type 0 where
  start : Reaches o mode s s
  step :
      {t u : MmbState} (cmd : ProofCmd)
      → Reaches o mode s t
      → proof_cmd o mode cmd t ≡ ok u
      → TakesExprs o cmd t
      → Reaches o mode s u

-- What a run keeps.
record Kept (o : Outline) (Hyp : MmbItem → Type 0) (s : MmbState) : Type 0 where
  pub no_ustack : s.ustack ≡ []
  pub no_uheap : s.uheap ≡ []
  pub arena : List MmbItem
  pub allocated : Allocated arena s
  pub sound : Sound o Hyp s
