-- ===== src/Tests/Parallel.antt =====
-- The theorems on the run in several threads, at a file of two sorts and two threads.
use second_opinion.Prelude.{
  ℕ, zero, suc, ◌+◌, ◌*◌, ◌<◌, ◌≤◌, List, [], ◌∷◌, ◌++◌, length, ◌≡◌, refl, inl, some, ok, VerifErr,
  arith,
}
use second_opinion.Util.Stmt.{sort_stmt}
use second_opinion.Util.Outline.{Outline}
use second_opinion.Mmb.ProofCmd.{ProofIter}
use second_opinion.Main.{start, run, verify_par, verify_serial, assert_mmb_done}
use second_opinion.Mmb.Verify.{check_decl}
use second_opinion.Main.Weights.{SameBag}
use second_opinion.Main.Invariant.{Inv}
use second_opinion.Main.Run.{run-Inv, start-Inv}
use second_opinion.Main.Equivalence.{AllFinished, AllEnded, verify_par-verify_serial}
use second_opinion.Main.Needs.{NonePanics, occurrences}
use second_opinion.Main.Progress.{run-AllFinished}
use second_opinion.Tests.Examples.{short}

abbrev no_proof : ProofIter
no_proof = record { buf = []; pos = 0; ends_at = 0 }

-- The bytes of the sorts' modifiers are the whole file.
abbrev two_sorts : Outline
two_sorts = record {
  mmb = 0 ∷ 0 ∷ [];
  header = record short.header { num_sorts = 2; num_terms = 0; num_thms = 0; sort_data_start = 0 };
  index = short.index;
  declarations = (sort_stmt (some 0), no_proof) ∷ (sort_stmt (some 1), no_proof) ∷ [];
}

-- `sort a; sort b;`
abbrev spec_file : List ℕ
spec_file = 115 ∷ 111 ∷ 114 ∷ 116 ∷ 32 ∷ 97 ∷ 59 ∷ 32 ∷ 115 ∷ 111 ∷ 114 ∷ 116 ∷ 32 ∷ 98 ∷ 59 ∷ []

abbrev in_turn : List ℕ
in_turn = 0 ∷ 1 ∷ 1 ∷ 0 ∷ 1 ∷ 0 ∷ 0 ∷ 1 ∷ 0 ∷ 1 ∷ []

-- One thread finds no error.
serial_passes : verify_serial two_sorts (spec_file ∷ []) ≡ ok []
unfolding verify_serial
serial_passes = refl

in_turn_ends : AllEnded (run two_sorts in_turn (start 2))
unfolding AllEnded run start
in_turn_ends = (inl refl, (inl refl, tt))

verify_par-verify_serial_example :
    (par_errs : List VerifErr) × (verify_par two_sorts
        (spec_file ∷ [])
        (run two_sorts in_turn (start 2))
      ≡ ok par_errs)
    × SameBag [] (par_errs ++ assert_mmb_done two_sorts (run two_sorts in_turn (start 2)).counters)
verify_par-verify_serial_example =
    verify_par-verify_serial two_sorts (spec_file ∷ []) 2 in_turn [] (omega arith) (omega arith)
      in_turn_ends serial_passes

none_panics : NonePanics two_sorts
unfolding NonePanics check_decl
none_panics = refl

each_in_turn : (i : ℕ) → i < 2 → 2 * length two_sorts.declarations + 1 ≤ occurrences i in_turn
each_in_turn zero h = omega arith
each_in_turn (suc zero) h = omega arith
each_in_turn (suc (suc i)) h = absurd (omega (arith, h))

run-AllFinished_example : AllFinished (run two_sorts in_turn (start 2))
run-AllFinished_example = run-AllFinished two_sorts 2 in_turn (omega arith) none_panics each_in_turn

run-Inv_example : Inv two_sorts 2 (run two_sorts in_turn (start 2))
run-Inv_example = run-Inv two_sorts 2 (omega arith) in_turn (start 2) (start-Inv two_sorts 2)
