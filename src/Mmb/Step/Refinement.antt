-- ===== src/Mmb/Step/Refinement.antt =====
-- src/mmb/proof.rs, `run_proof`: its commands and the step relation.
use second_opinion.Prelude.{◌≡◌, refl, ok}
use second_opinion.Util.Outline.{Outline}
use second_opinion.Mmb.ProofCmd.{
  Mode, ProofCmd, term, ref, dummy, thm, hyp, conv, refl_cmd, sym_cmd, cong, unfold_cmd, conv_cut,
  conv_ref, conv_save, save,
}
use second_opinion.Mmb.State.{MmbState}
use second_opinion.Mmb.Proof.{proof_cmd}
use second_opinion.Mmb.Step.{ProofStep}
use second_opinion.Mmb.Step.Calls.{term_inv, thm_inv, unfold_inv}
use second_opinion.Mmb.Step.Inversion.{
  ref_inv, dummy_inv, hyp_inv, conv_inv, refl_inv, sym_inv, cong_inv, conv_cut_inv, conv_ref_inv,
  conv_save_inv, save_inv,
}

pub proof_cmd-ProofStep :
    (o : Outline) (mode : Mode) (cmd : ProofCmd) (s s' : MmbState)
    → proof_cmd o mode cmd s ≡ ok s'
    → ProofStep o mode s s' cmd
unfolding proof_cmd
proof_cmd-ProofStep o mode (ref i) s s' h = ref_inv o mode s s' i h
proof_cmd-ProofStep o mode (dummy n) s s' h = dummy_inv o mode s s' n h
proof_cmd-ProofStep o mode (term n saved) s s' h = term_inv o mode s s' n saved h
proof_cmd-ProofStep o mode (thm n saved) s s' h = thm_inv o mode s s' n saved h
proof_cmd-ProofStep o mode hyp s s' h = hyp_inv o mode s s' s.stack refl h
proof_cmd-ProofStep o mode conv s s' h = conv_inv o mode s s' s.stack refl h
proof_cmd-ProofStep o mode refl_cmd s s' h = refl_inv o mode s s' s.stack refl h
proof_cmd-ProofStep o mode sym_cmd s s' h = sym_inv o mode s s' s.stack refl h
proof_cmd-ProofStep o mode cong s s' h = cong_inv o mode s s' s.stack refl h
proof_cmd-ProofStep o mode unfold_cmd s s' h = unfold_inv o mode s s' h
proof_cmd-ProofStep o mode conv_cut s s' h = conv_cut_inv o mode s s' s.stack refl h
proof_cmd-ProofStep o mode (conv_ref i) s s' h = conv_ref_inv o mode s s' i s.stack refl h
proof_cmd-ProofStep o mode conv_save s s' h = conv_save_inv o mode s s' s.stack refl h
proof_cmd-ProofStep o mode save s s' h = save_inv o mode s s' h
