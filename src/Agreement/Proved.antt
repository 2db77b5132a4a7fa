-- ===== src/Agreement/Proved.antt =====
-- src/mmb/mod.rs and src/mmz/parse.rs: a theorem that the specification states has been proved.
use second_opinion.Prelude.{ℕ, Bool, List}
use second_opinion.Util.Ty.{Ty}
use second_opinion.Util.Outline.{Outline, Assert}
use second_opinion.Mmb.ProofCmd.{ProofIter}
use second_opinion.Mmb.Item.{MmbItem}
use second_opinion.Mmb.State.{MmbState}
use second_opinion.Mmb.Unify.Pattern.{Pattern}
use second_opinion.Mmb.Soundness.{Provable}
use second_opinion.Mmb.Soundness.Declared.{In}
use second_opinion.Mmz.Data.{MmzExpr}
use second_opinion.Mmz.Monad.{MmzState}
use second_opinion.Mmz.Check.Machine.{start_heap}
use second_opinion.Agreement.Statement.{SameStatement}

module _ (o : Outline) (n : ℕ) (local : Bool) (pr : ProofIter) (a : Assert) (sig : List Ty)
    (concl : Pattern) (hyps : List Pattern) where
  -- What a theorem says that the specification states and the binary file proves: a conclusion
  -- that is provable from what the proof has assumed, both as in the specification.
  abbrev pub ProvesSpec : MmbState → MmbState → MmzExpr → MmzState → Type 0
  ProvesSpec s1 s2 spec z =
      (tgt : MmbItem) × Provable o (In s2.hstack) tgt
      × SameStatement s1.heap (start_heap z) hyps tgt spec s2.hstack z.hyps
