-- ===== src/Main/Counts.antt =====
-- src/main.rs, `verify_mmb`: the errors and the counters that a list of declarations leads to.
use second_opinion.Prelude.{
  ℕ, ◌+◌, ◌%◌, ◌^◌, List, ◌∷◌, ◌≡◌, Res, ok, err, panic, hang, VerifErr, arith,
}
use second_opinion.Util.Stmt.{StmtCmd, sort_stmt, termdef, axiom_stmt, thm}
use second_opinion.Util.Outline.{Outline, Counters, add_declar}
use second_opinion.Mmb.ProofCmd.{ProofIter}
use second_opinion.Mmb.Verify.{check_decl}
use second_opinion.Main.{Declar, ThreadAt, idle, checking, finished, panicked, Thread}
use second_opinion.Main.Weights.{total}

abbrev pub err_of {ℓ} : {A : Type ℓ} → (VerifErr → ℕ) → Res A → ℕ
err_of w (ok a) = 0
err_of w (err e) = w e
err_of w panic = 0
err_of w hang = 0

abbrev pub pass_of {ℓ} : {A : Type ℓ} → ℕ → Res A → ℕ
pass_of n (ok a) = n
pass_of n (err e) = 0
pass_of n panic = 0
pass_of n hang = 0

-- No value and no error.
abbrev pub stuck_of {ℓ} : {A : Type ℓ} → Res A → ℕ
stuck_of (ok a) = 0
stuck_of (err e) = 0
stuck_of panic = 1
stuck_of hang = 1

abbrev pub is_sort : StmtCmd → ℕ
is_sort (sort_stmt n) = 1
is_sort (termdef n l) = 0
is_sort (axiom_stmt n) = 0
is_sort (thm n l) = 0

abbrev pub is_termdef : StmtCmd → ℕ
is_termdef (sort_stmt n) = 0
is_termdef (termdef n l) = 1
is_termdef (axiom_stmt n) = 0
is_termdef (thm n l) = 0

abbrev pub is_assert : StmtCmd → ℕ
is_assert (sort_stmt n) = 0
is_assert (termdef n l) = 0
is_assert (axiom_stmt n) = 1
is_assert (thm n l) = 1

-- The counters are what the passed declarations of a list make them.
pub record CountsFor (o : Outline) (ds : List Declar) (c : Counters) : Type 0 where
  pub sorts :
      c.num_sorts_done ≡ total (λ d. pass_of (is_sort d.0) (check_decl o d.0 d.1)) ds % 2 ^ 8
  pub termdefs :
      c.num_termdefs_done ≡ total (λ d. pass_of (is_termdef d.0) (check_decl o d.0 d.1)) ds % 2 ^ 32
  pub asserts :
      c.num_asserts_done ≡ total (λ d. pass_of (is_assert d.0) (check_decl o d.0 d.1)) ds % 2 ^ 32

abbrev pub err_weight : Outline → (VerifErr → ℕ) → Declar → ℕ
err_weight o w d = err_of w (check_decl o d.0 d.1)

abbrev pub stuck : Outline → Declar → ℕ
stuck o d = stuck_of (check_decl o d.0 d.1)

abbrev pub held_at : (Declar → ℕ) → ThreadAt → ℕ
held_at v idle = 0
held_at v (checking stmt proof) = v (stmt, proof)
held_at v finished = 0
held_at v panicked = 0

abbrev pub finished_at : ThreadAt → ℕ
finished_at idle = 0
finished_at (checking stmt proof) = 0
finished_at finished = 1
finished_at panicked = 0

abbrev pub panicked_at : ThreadAt → ℕ
panicked_at idle = 0
panicked_at (checking stmt proof) = 0
panicked_at finished = 0
panicked_at panicked = 1

abbrev pub held : (Declar → ℕ) → Thread → ℕ
held v t = held_at v t.at

abbrev pub has_finished : Thread → ℕ
has_finished t = finished_at t.at

abbrev pub has_panicked : Thread → ℕ
has_panicked t = panicked_at t.at

abbrev pub thread_errs : (VerifErr → ℕ) → Thread → ℕ
thread_errs w t = total w t.errs

-- One more declaration on the counters.
module _ (c : Counters) (n : ℕ) where
  add_declar-sorts :
      (stmt : StmtCmd)
      → c.num_sorts_done ≡ n % 2 ^ 8
      → (add_declar c stmt).num_sorts_done ≡ (is_sort stmt + n) % 2 ^ 8
  unfolding add_declar
  add_declar-sorts (sort_stmt m) h = omega arith
  add_declar-sorts (termdef m l) h = omega arith
  add_declar-sorts (axiom_stmt m) h = omega arith
  add_declar-sorts (thm m l) h = omega arith

  add_declar-termdefs :
      (stmt : StmtCmd)
      → c.num_termdefs_done ≡ n % 2 ^ 32
      → (add_declar c stmt).num_termdefs_done ≡ (is_termdef stmt + n) % 2 ^ 32
  unfolding add_declar
  add_declar-termdefs (sort_stmt m) h = omega arith
  add_declar-termdefs (termdef m l) h = omega arith
  add_declar-termdefs (axiom_stmt m) h = omega arith
  add_declar-termdefs (thm m l) h = omega arith

  add_declar-asserts :
      (stmt : StmtCmd)
      → c.num_asserts_done ≡ n % 2 ^ 32
      → (add_declar c stmt).num_asserts_done ≡ (is_assert stmt + n) % 2 ^ 32
  unfolding add_declar
  add_declar-asserts (sort_stmt m) h = omega arith
  add_declar-asserts (termdef m l) h = omega arith
  add_declar-asserts (axiom_stmt m) h = omega arith
  add_declar-asserts (thm m l) h = omega arith

module _ (o : Outline) (ds : List Declar) (c : Counters) (counts : CountsFor o ds c) where
  pub add_declar-CountsFor :
      (stmt : StmtCmd) (proof : ProofIter) {a : _}
      → check_decl o stmt proof ≡ ok a
      → CountsFor o ((stmt, proof) ∷ ds) (add_declar c stmt)
  add_declar-CountsFor stmt proof e = record {
    sorts = rw e (add_declar-sorts c _ stmt counts.sorts);
    termdefs = rw e (add_declar-termdefs c _ stmt counts.termdefs);
    asserts = rw e (add_declar-asserts c _ stmt counts.asserts);
  }

  pub err-CountsFor :
      (stmt : StmtCmd) (proof : ProofIter) {x : VerifErr}
      → check_decl o stmt proof ≡ err x
      → CountsFor o ((stmt, proof) ∷ ds) c
  err-CountsFor stmt proof e = record {
    sorts = rw e (omega (arith, counts.sorts));
    termdefs = rw e (omega (arith, counts.termdefs));
    asserts = rw e (omega (arith, counts.asserts));
  }

  pub panic-CountsFor :
      (stmt : StmtCmd) (proof : ProofIter)
      → check_decl o stmt proof ≡ panic
      → CountsFor o ((stmt, proof) ∷ ds) c
  panic-CountsFor stmt proof e = record {
    sorts = rw e (omega (arith, counts.sorts));
    termdefs = rw e (omega (arith, counts.termdefs));
    asserts = rw e (omega (arith, counts.asserts));
  }
