-- ===== src/Tests/Examples.antt =====
-- The theorems applied to concrete runs: the axioms of test_resources/short.mmb, and the unify
-- stream of its modus ponens.
use second_opinion.Prelude.{
  ℕ, zero, suc, ◌+◌, ◌<◌, ◌≤◌, ◌^◌, ◌≢◌, false, List, [], ◌∷◌, ◌≡◌, refl, some, ok, hang, make_sure,
  is_empty, ◌>>=◌, ◌>>◌,
}
use second_opinion.Util.Ty.{Ty, ty}
use second_opinion.Util.Stmt.{axiom_stmt}
use second_opinion.Util.Cmd.{parse_cmd}
use second_opinion.Util.Cmd.Loop.{Decodes, done, more}
use second_opinion.Util.Cmd.Progress.{parse_cmd-Advances}
use second_opinion.Util.Outline.{Outline, Counters}
use second_opinion.Mmb.UnifyCmd.{UnifyIter, unify_next}
use second_opinion.Mmb.ProofCmd.{ProofCmd, ProofIter, thm_mode}
use second_opinion.Mmb.Item.{MmbItem, nil, cons, var, app, expr, proof, item_eq}
use second_opinion.Mmb.State.{MmbState, init_state}
use second_opinion.Mmb.Unify.{u_def, u_thm, u_thm_end, run_unify}
use second_opinion.Mmb.Unify.Pattern.{
  Pattern, ref_pat, term_pat, no_pats, pats, commands, statement, hyp_commands, match_pattern,
  match_proofs, match_declared,
}
use second_opinion.Mmb.Unify.Machine.{with_unify, run_cmds, run_cmds-commands}
use second_opinion.Mmb.Unify.Statement.{
  run_unify_def, run_unify_apply, run_unify_declare, at_hyps, at_declared,
}
use second_opinion.Mmb.Proof.{proof_cmd}
use second_opinion.Mmb.Proof.Apply.{proof_thm}
use second_opinion.Mmb.Verify.{verify1}
use second_opinion.Mmb.Termination.{verify1-ne-hang}
use second_opinion.Tests.Short.{short_mmb}

-- The file's outline, without its index and its declarations.
abbrev pub short : Outline
short = record {
  mmb = short_mmb;
  header = record {
    magic = 1110461773;
    version = 1;
    num_sorts = 1;
    reserved = 0;
    num_terms = 2;
    num_thms = 4;
    terms_start = 48;
    thms_start = 104;
    proof_stream_start = 266;
    reserved2 = 0;
    index_start = 336;
    sort_data_start = 40;
  };
  index = record { root = 0; sorts = []; terms = []; thms = [] };
  declarations = [];
}

-- Two formulas and their implication.
abbrev pub phi : MmbItem
phi = expr 0 (var 0 (ty 0))

abbrev pub psi : MmbItem
psi = expr 1 (var 1 (ty 0))

abbrev pub phi_psi : MmbItem
phi_psi = expr 2 (app 0 (cons phi (cons psi nil)) (ty 0))

-- The arities of the file's two terms.
abbrev pub arities : ℕ → ℕ
arities zero = 2
arities (suc n) = 1

abbrev pub imp : Pattern
imp = term_pat 0 false (pats (ref_pat 0) (pats (ref_pat 1) no_pats))

-- `im`, `Ref 0`, `Ref 1`.
abbrev imp_iter : UnifyIter
imp_iter = record { buf = 48 ∷ 50 ∷ 114 ∷ 1 ∷ 0 ∷ []; pos = 0 }

-- `Ref 1`, then `Hyp`, `Ref 0`, then `Hyp`, `im`, `Ref 0`, `Ref 1`: modus ponens.
abbrev pub mp_iter : UnifyIter
mp_iter = record { buf = 114 ∷ 1 ∷ 54 ∷ 50 ∷ 54 ∷ 48 ∷ 50 ∷ 114 ∷ 1 ∷ 0 ∷ []; pos = 0 }

imp-Decodes : Decodes (unify_next imp_iter.buf) 0 (commands imp)
unfolding unify_next commands
imp-Decodes = more {pos' = 1} refl (more {pos' = 2} refl (more {pos' = 4} refl (done refl)))

pub mp-Decodes : Decodes (unify_next mp_iter.buf) 0 (statement (ref_pat 1) (ref_pat 0 ∷ imp ∷ []))
unfolding unify_next statement commands hyp_commands
mp-Decodes = more {pos' = 2} refl (
    more {pos' = 3} refl (
      more {pos' = 4} refl (
        more {pos' = 5} refl
          (more {pos' = 6} refl (more {pos' = 7} refl (more {pos' = 9} refl (done refl)))))))

abbrev pub with_heap : List MmbItem → List MmbItem → MmbState
with_heap st hs = record init_state {
  stack = st;
  hstack = hs;
  uheap = phi ∷ psi ∷ [];
  next_addr = 9;
}

run_cmds-commands_example :
    run_cmds u_thm (commands imp) (with_unify init_state (phi_psi ∷ []) (phi ∷ psi ∷ [])) ≡ (
      match_pattern u_thm imp phi_psi (phi ∷ psi ∷ []) >>= λ h.
      run_cmds u_thm [] (with_unify init_state [] h))
unfolding commands
run_cmds-commands_example =
    run_cmds-commands u_thm arities imp phi_psi (refl, (tt, (tt, tt))) (refl, (tt, (tt, tt))) []
      init_state [] (phi ∷ psi ∷ [])

run_unify_def_example : run_unify u_def imp_iter phi_psi (with_heap [] []) ≡ (
    match_pattern u_def imp phi_psi (phi ∷ psi ∷ []) >>= λ h.
    ok (with_unify (with_heap [] []) [] []))
run_unify_def_example =
    run_unify_def imp_iter arities imp phi_psi (with_heap [] []) imp-Decodes (refl, (tt, (tt, tt)))
      (refl, (tt, (tt, tt))) refl

abbrev pub proved_both : List MmbItem
proved_both = proof 5 phi ∷ proof 6 phi_psi ∷ []

run_unify_apply_example : run_unify u_thm mp_iter psi (with_heap proved_both []) ≡ (do
  h ← match_pattern u_thm (ref_pat 1) psi (phi ∷ psi ∷ [])
  r ← match_proofs (ref_pat 0 ∷ imp ∷ []) proved_both h
  ok (at_hyps (with_heap proved_both []) r.0 []))
run_unify_apply_example =
    run_unify_apply mp_iter arities (ref_pat 1) (ref_pat 0 ∷ imp ∷ []) psi
      (with_heap proved_both []) mp-Decodes tt (tt, ((refl, (tt, (tt, tt))), tt)) tt
      (tt, ((refl, (tt, (tt, tt))), tt)) refl

abbrev pub assumed : List MmbItem
assumed = phi ∷ phi_psi ∷ []

run_unify_declare_example : run_unify u_thm_end mp_iter psi (with_heap [] assumed) ≡ (do
  h ← match_pattern u_thm_end (ref_pat 1) psi (phi ∷ psi ∷ [])
  r ← match_declared (ref_pat 0 ∷ imp ∷ []) assumed h
  make_sure (is_empty r.0)
  ok (at_declared (with_heap [] assumed) r.0 []))
run_unify_declare_example =
    run_unify_declare mp_iter arities (ref_pat 1) (ref_pat 0 ∷ imp ∷ []) psi (with_heap [] assumed)
      mp-Decodes tt (tt, ((refl, (tt, (tt, tt))), tt)) tt (tt, ((refl, (tt, (tt, tt))), tt)) refl

abbrev no_counts : Counters
no_counts = record { num_sorts_done = 0; num_termdefs_done = 0; num_asserts_done = 0 }

-- The proof of modus ponens in the file.
abbrev mp_proof : ProofIter
mp_proof = record { buf = short_mmb; pos = 324; ends_at = 334 }

verify1-ne-hang_example : verify1 short no_counts (axiom_stmt (some 3)) mp_proof ≢ hang
verify1-ne-hang_example = verify1-ne-hang short no_counts (axiom_stmt (some 3)) mp_proof

-- Modus ponens is applied: its two arguments, its conclusion and the proofs of its hypotheses are
-- on the stack.
abbrev pub before_mp : MmbState
before_mp = record init_state { stack = psi ∷ psi ∷ phi ∷ proved_both; next_addr = 9 }

abbrev pub after_mp : MmbState
after_mp = record init_state { stack = proof 9 psi ∷ []; next_addr = 10 }

pub mp_run : proof_cmd short thm_mode (ProofCmd.thm 3 false) before_mp ≡ ok after_mp
unfolding proof_cmd proof_thm item_eq
mp_run = refl

read_dummy : parse_cmd (0x53 ∷ 7 ∷ 0 ∷ []) 0 ≡ ok (0x13, 7, 2)
unfolding parse_cmd
read_dummy = refl

parse_cmd-Advances_example : (0 < 2) × (2 ≤ 3)
parse_cmd-Advances_example = parse_cmd-Advances (0x53 ∷ 7 ∷ 0 ∷ []) 0 read_dummy

-- A theorem table with one entry, for two arguments: a variable, and a formula that does not
-- depend on it. Its statement is the formula.
abbrev scoped : Outline
scoped = record short {
  mmb =
      2 ∷ 0 ∷ 0 ∷ 0 ∷ 8 ∷ 0 ∷ 0 ∷ 0 ∷ 1 ∷ 0 ∷ 0 ∷ 0 ∷ 0 ∷ 0 ∷ 0 ∷ 128 ∷ 0 ∷ 0 ∷ 0 ∷ 0 ∷ 0 ∷ 0 ∷ 0
      ∷ 0 ∷ 114 ∷ 1 ∷ 0 ∷ [];
  header = record short.header { num_thms = 1; thms_start = 0 };
}

abbrev bound_x : MmbItem
bound_x = expr 0 (var 0 (ty (2 ^ 63 + 1)))

-- A formula that depends on the second bound variable.
abbrev on_second : MmbItem
on_second = expr 1 (var 1 (ty 2))

abbrev before_scoped : MmbState
before_scoped = record init_state { stack = on_second ∷ on_second ∷ bound_x ∷ []; next_addr = 9 }

abbrev after_scoped : MmbState
after_scoped = record init_state { stack = proof 9 on_second ∷ []; next_addr = 10 }
