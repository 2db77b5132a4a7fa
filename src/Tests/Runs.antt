-- ===== src/Tests/Runs.antt =====
-- The checker of the binary file on test_resources/short.mmb.
use second_opinion.Prelude.{ℕ, List, [], ◌∷◌, Res, ok, ◌>>=◌}
use mathlib.Core.List.{map}
use second_opinion.Util.Stmt.{StmtCmd}
use second_opinion.Util.Outline.{Outline, Counters, new_from}
use second_opinion.Mmb.ProofCmd.{ProofIter}
use second_opinion.Mmb.Verify.{verify1}
use second_opinion.Tests.Short.{short_mmb}

-- `verify_mmb` on one thread, stopping at the first error.
verify_all : Outline → Counters → List (StmtCmd × ProofIter) → Res Counters
verify_all o c [] = ok c
verify_all o c ((stmt, pr) ∷ ds) = do c' ← verify1 o c stmt pr; verify_all o c' ds

abbrev no_counts : Counters
no_counts = record { num_sorts_done = 0; num_termdefs_done = 0; num_asserts_done = 0 }

verify_file : List ℕ → Res Counters
verify_file mmb = do o ← new_from mmb; verify_all o no_counts o.declarations

header_short : Res (List StmtCmd)
header_short = do o ← new_from short_mmb; ok (map (λ (d : StmtCmd × ProofIter). d.0) o.declarations)

done_short : Res Counters
done_short = verify_file short_mmb
