-- ===== src/Mmb/UnifyCmd.antt =====
-- src/mmb/unify.rs: unify commands and the iterator over a unify stream.
use second_opinion.Prelude.{
  ℕ, Bool, true, false, List, ltb, ◌==◌, if◌then◌else◌, Option, Res, ok, err, msg,
}
use second_opinion.Util.Cmd.{try_next_cmd}

abbrev pub unify_term_code : ℕ
unify_term_code = 0x30

abbrev pub unify_term_save_code : ℕ
unify_term_save_code = 0x31

abbrev pub unify_ref_code : ℕ
unify_ref_code = 0x32

abbrev pub unify_dummy_code : ℕ
unify_dummy_code = 0x33

abbrev pub unify_hyp_code : ℕ
unify_hyp_code = 0x36

pub data UnifyCmd : Type 0 where
  term : ℕ → Bool → UnifyCmd
  ref : ℕ → UnifyCmd
  dummy : ℕ → UnifyCmd
  hyp : UnifyCmd

-- `UnifyCmd::try_from`; a sort number is a `u8`.
unfoldable pub unify_try_from : ℕ → ℕ → Res UnifyCmd
unify_try_from cmd d =
    if cmd == unify_term_code
    then ok (term d false)
    else if cmd == unify_term_save_code
    then ok (term d true)
    else if cmd == unify_ref_code
    then ok (ref d)
    else if cmd == unify_dummy_code
    then (if ltb d 256 then ok (dummy d) else err msg)
    else if cmd == unify_hyp_code
    then ok hyp
    else err msg

pub record UnifyIter : Type 0 where
  pub buf : List ℕ
  pub pos : ℕ

-- `UnifyIter::next`, from position `pos` of `buf`.
unfoldable pub unify_next : List ℕ → ℕ → Res (Option (UnifyCmd × ℕ))
unfolding unify_try_from try_next_cmd
unify_next buf pos = try_next_cmd unify_try_from buf pos
