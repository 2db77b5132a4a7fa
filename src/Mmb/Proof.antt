-- ===== src/Mmb/Proof.antt =====
-- src/mmb/proof.rs, `run_proof`: the loop over a proof stream.
pub mod Vars
pub mod Build
pub mod Apply
pub mod Conv
pub mod Disjoint
use second_opinion.Prelude.{ℕ, suc, length, Res, ◌>>=◌}
use second_opinion.Util.Cmd.{for_cmds}
use second_opinion.Util.Outline.{Outline}
use second_opinion.Mmb.ProofCmd.{
  Mode, ProofCmd, term, ref, dummy, thm, hyp, conv, refl_cmd, sym_cmd, cong, unfold_cmd, conv_cut,
  conv_ref, conv_save, save, ProofIter, proof_next,
}
use second_opinion.Mmb.State.{MmbState}
use Vars.{proof_ref, proof_dummy, proof_hyp, proof_save}
use Build.{proof_term}
use Apply.{proof_thm, proof_unfold}
use Conv.{
  proof_conv, proof_refl, proof_sym, proof_cong, proof_conv_cut, proof_conv_ref, proof_conv_save,
}

unfoldable pub proof_cmd : Outline → Mode → ProofCmd → MmbState → Res MmbState
proof_cmd o mode (ref i) s = proof_ref i s
proof_cmd o mode (dummy sort_num) s = proof_dummy o sort_num s
proof_cmd o mode (term term_num saved) s = proof_term o mode term_num saved s
proof_cmd o mode (thm thm_num saved) s = proof_thm o thm_num saved s
proof_cmd o mode hyp s = proof_hyp o mode s
proof_cmd o mode conv s = proof_conv s
proof_cmd o mode refl_cmd s = proof_refl s
proof_cmd o mode sym_cmd s = proof_sym s
proof_cmd o mode cong s = proof_cong s
proof_cmd o mode unfold_cmd s = proof_unfold o s
proof_cmd o mode conv_cut s = proof_conv_cut s
proof_cmd o mode (conv_ref i) s = proof_conv_ref i s
proof_cmd o mode conv_save s = proof_conv_save s
proof_cmd o mode save s = proof_save s

-- Each command takes a byte at least, so the length of the file is fuel enough.
unfoldable pub run_proof : Outline → Mode → ProofIter → MmbState → Res MmbState
unfolding for_cmds proof_next proof_cmd
run_proof o mode proof s =
    for_cmds (proof_next proof.buf proof.ends_at) (proof_cmd o mode) (suc (length proof.buf))
      proof.pos s
