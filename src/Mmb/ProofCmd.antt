-- ===== src/Mmb/ProofCmd.antt =====
-- src/mmb/proof.rs: proof commands and the iterator over a proof stream.
use second_opinion.Prelude.{
  ℕ, ◌+◌, Bool, true, false, List, ltb, ◌==◌, if◌then◌else◌, Option, none, some, Res, ok, err, msg,
  ◌>>=◌,
}
use second_opinion.Util.Cmd.{try_next_cmd}

pub data Mode : Type 0 where
  def_mode thm_mode : Mode

pub data ProofCmd : Type 0 where
  term : ℕ → Bool → ProofCmd
  ref : ℕ → ProofCmd
  dummy : ℕ → ProofCmd
  thm : ℕ → Bool → ProofCmd
  hyp conv refl_cmd sym_cmd cong unfold_cmd conv_cut : ProofCmd
  conv_ref : ℕ → ProofCmd
  conv_save save : ProofCmd

abbrev pub proof_term_code : ℕ
proof_term_code = 0x10

abbrev pub proof_term_save_code : ℕ
proof_term_save_code = 0x11

abbrev pub proof_ref_code : ℕ
proof_ref_code = 0x12

abbrev pub proof_dummy_code : ℕ
proof_dummy_code = 0x13

abbrev pub proof_thm_code : ℕ
proof_thm_code = 0x14

abbrev pub proof_thm_save_code : ℕ
proof_thm_save_code = 0x15

abbrev pub proof_hyp_code : ℕ
proof_hyp_code = 0x16

abbrev pub proof_conv_code : ℕ
proof_conv_code = 0x17

abbrev pub proof_refl_code : ℕ
proof_refl_code = 0x18

abbrev pub proof_symm_code : ℕ
proof_symm_code = 0x19

abbrev pub proof_cong_code : ℕ
proof_cong_code = 0x1A

abbrev pub proof_unfold_code : ℕ
proof_unfold_code = 0x1B

abbrev pub proof_conv_cut_code : ℕ
proof_conv_cut_code = 0x1C

abbrev pub proof_conv_ref_code : ℕ
proof_conv_ref_code = 0x1D

abbrev pub proof_conv_save_code : ℕ
proof_conv_save_code = 0x1E

abbrev pub proof_save_code : ℕ
proof_save_code = 0x1F

-- `ProofCmd::try_from`; a sort number is a `u8`.
unfoldable pub proof_try_from : ℕ → ℕ → Res ProofCmd
proof_try_from cmd d =
    if cmd == proof_term_code
    then ok (term d false)
    else if cmd == proof_term_save_code
    then ok (term d true)
    else if cmd == proof_ref_code
    then ok (ref d)
    else if cmd == proof_dummy_code
    then (if ltb d 256 then ok (dummy d) else err msg)
    else if cmd == proof_thm_code
    then ok (thm d false)
    else if cmd == proof_thm_save_code
    then ok (thm d true)
    else if cmd == proof_hyp_code
    then ok (hyp)
    else if cmd == proof_conv_code
    then ok (conv)
    else if cmd == proof_refl_code
    then ok (refl_cmd)
    else if cmd == proof_symm_code
    then ok (sym_cmd)
    else if cmd == proof_cong_code
    then ok (cong)
    else if cmd == proof_unfold_code
    then ok (unfold_cmd)
    else if cmd == proof_conv_cut_code
    then ok (conv_cut)
    else if cmd == proof_conv_ref_code
    then ok (conv_ref d)
    else if cmd == proof_conv_save_code
    then ok (conv_save)
    else if cmd == proof_save_code
    then ok (save)
    else err msg

pub record ProofIter : Type 0 where
  pub buf : List ℕ
  pub pos : ℕ
  pub ends_at : ℕ

unfoldable pub is_null : ProofIter → Bool
is_null it = it.pos == it.ends_at

-- The arm of `ProofIter::next` for each answer of `try_next_cmd`.
abbrev pub check_end : ℕ → ℕ → Option (ProofCmd × ℕ) → Res (Option (ProofCmd × ℕ))
check_end ends_at pos none = if ends_at == pos + 1 then ok none else err msg
check_end ends_at pos (some c) = ok (some c)

-- `ProofIter::next`, from position `pos` of `buf`.
unfoldable pub proof_next : List ℕ → ℕ → ℕ → Res (Option (ProofCmd × ℕ))
unfolding proof_try_from try_next_cmd
proof_next buf ends_at pos = try_next_cmd proof_try_from buf pos >>= check_end ends_at pos
