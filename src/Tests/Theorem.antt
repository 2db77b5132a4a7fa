-- ===== src/Tests/Theorem.antt =====
-- A file with one theorem: from `a` follows `a`.
use second_opinion.Prelude.{ℕ, List, [], ◌∷◌, false, refl, none, some}
use second_opinion.Util.Ty.{ty}
use second_opinion.Util.Stmt.{thm}
use second_opinion.Util.Outline.{Outline, Assert, get_term_by_num, num_args_no_ret}
use second_opinion.Mmb.ProofCmd.{ProofIter, thm_mode, ProofCmd}
use second_opinion.Mmb.Item.{MmbItem, var, expr, proof}
use second_opinion.Mmb.State.{MmbState, init_state}
use second_opinion.Mmz.Data as Mmz
use second_opinion.Mmz.Data.{MmzVar, MmzHyp}
use second_opinion.Mmz.Monad.{MmzState, new_state}
use second_opinion.Mmb.Soundness.Arity.{file_arity, Sized}
use second_opinion.Mmb.Soundness.Sizes.{proof_cmd-Sized}
use second_opinion.Tests.Examples.{short, before_mp, after_mp, mp_run}
use second_opinion.Tests.Spec.{empty_mem}

-- The table entry, the argument, the unify stream, the sort, and the proof: `Ref 0`, `Hyp`, `Ref 1`.
abbrev one_theorem : List ℕ
one_theorem =
    1 ∷ 0 ∷ 0 ∷ 0 ∷ 8 ∷ 0 ∷ 0 ∷ 0 ∷ 0 ∷ 0 ∷ 0 ∷ 0 ∷ 0 ∷ 0 ∷ 0 ∷ 0 ∷ 50 ∷ 54 ∷ 50 ∷ 0 ∷ 4 ∷ 18 ∷ 22
    ∷ 82 ∷ 1 ∷ 0 ∷ []

abbrev theorem_file : Outline
theorem_file = record short {
  mmb = one_theorem;
  header = record short.header { num_thms = 1; thms_start = 0; sort_data_start = 20 };
}

abbrev its_proof : ProofIter
its_proof = record { buf = one_theorem; pos = 21; ends_at = 26 }

abbrev entry : Assert
entry = record {
  assert_num = 0;
  args_start = 0 ∷ 0 ∷ 0 ∷ 0 ∷ 0 ∷ 0 ∷ 0 ∷ 0 ∷ [];
  unify = record { buf = one_theorem; pos = 16 };
}

abbrev var_a : MmbItem
var_a = expr 0 (var 0 (ty 0))

abbrev state : List MmbItem → List MmbItem → List MmbItem → ℕ → MmbState
state st hs heap n = record init_state { stack = st; hstack = hs; heap = heap; next_addr = n }

abbrev heap_after : List MmbItem
heap_after = var_a ∷ proof 1 var_a ∷ []

-- The same theorem in the specification: a variable, and the hypothesis that it holds.
abbrev spec_a : MmzVar
spec_a = record { ident = some (97 ∷ []); pos = 0; ty = ty 0; is_dummy = false }

abbrev spec_hyps : List MmzHyp
spec_hyps = record { ident = none; pos = none; expr = Mmz.var spec_a } ∷ []

abbrev spec_state : List MmzHyp → MmzState
spec_state hyps = record (new_state empty_mem) { vars_done = spec_a ∷ []; hyps = hyps }

-- Modus ponens is applied, with an implication among the proofs of its hypotheses.
before_Sized : Sized (file_arity short) before_mp
unfolding file_arity get_term_by_num num_args_no_ret
before_Sized = record {
  on_stack = (tt, (tt, (tt, (tt, ((refl, (tt, (tt, tt))), tt)))));
  on_heap = tt;
  on_hstack = tt;
}

proof_cmd-Sized_example : Sized (file_arity short) after_mp
proof_cmd-Sized_example =
    proof_cmd-Sized short thm_mode (ProofCmd.thm 3 false) before_mp after_mp before_Sized mp_run
