-- ===== src/Tests/Unused.antt =====
-- src/mmb/proof.rs, `proof_thm`: an argument that the statement does not mention is not looked at.
use second_opinion.Prelude.{false, [], ◌∷◌, ◌≡◌, refl, ok}
use second_opinion.Util.Ty.{ty}
use second_opinion.Util.Outline.{Outline}
use second_opinion.Mmb.Item.{MmbItem, nil, app, var, expr, proof, co_conv}
use second_opinion.Mmb.State.{MmbState, init_state}
use second_opinion.Mmb.Proof.Apply.{proof_thm}

-- A theorem table with one entry, for one argument of sort 0 and a statement that is the constant
-- 0, without the argument.
abbrev unused : Outline
unused = record {
  mmb = 1 ∷ 0 ∷ 0 ∷ 0 ∷ 8 ∷ 0 ∷ 0 ∷ 0 ∷ 0 ∷ 0 ∷ 0 ∷ 0 ∷ 0 ∷ 0 ∷ 0 ∷ 0 ∷ 48 ∷ 0 ∷ [];
  header = record {
    magic = 1110461773;
    version = 1;
    num_sorts = 1;
    reserved = 0;
    num_terms = 1;
    num_thms = 1;
    terms_start = 0;
    thms_start = 0;
    proof_stream_start = 0;
    reserved2 = 0;
    index_start = 0;
    sort_data_start = 0;
  };
  index = record { root = 0; sorts = []; terms = []; thms = [] };
  declarations = [];
}

abbrev truth : MmbItem
truth = expr 0 (app 0 nil (ty 0))

abbrev goal : MmbItem
goal = expr 1 (var 0 (ty 0))

-- `Conv` has left a proof of `goal` and the obligation that `goal` is convertible with `truth`.
abbrev pending : MmbState
pending = record init_state {
  stack = truth ∷ co_conv 3 goal truth ∷ proof 2 goal ∷ [];
  next_addr = 4;
}

-- The theorem takes the obligation for its argument, and the obligation is gone.
obligation_gone :
    proof_thm unused 0 false pending
    ≡ ok (record init_state { stack = proof 4 truth ∷ proof 2 goal ∷ []; next_addr = 5 })
unfolding proof_thm
obligation_gone = refl
