-- ===== src/Main/Invariant.antt =====
-- src/main.rs, `verify_mmb`: what holds of the shared counters and the threads between two steps.
use second_opinion.Prelude.{
  ℕ, suc, ◌+◌, ◌-◌, ◌%◌, ◌^◌, ◌≤◌, ◌<◌, List, ◌∷◌, snoc, length, take, get_elem?, ◌≡◌, ap, ◌∙◌,
  none, some, ok, err, panic, VerifErr, arith,
}
use second_opinion.Util.Stmt.{StmtCmd}
use second_opinion.Util.Outline.{Outline, add_declar}
use second_opinion.Mmb.ProofCmd.{ProofIter}
use second_opinion.Mmb.Verify.{check_decl}
use second_opinion.Main.{Declar, ThreadAt, idle, checking, finished, panicked, Thread, Par, put}
use second_opinion.Main.Weights.{
  total, total-snoc, total-take-suc, total-take_all, total-set_at, length-set_at,
  get_elem?-eq-some_lt, get_elem?-eq-none_ge, total-lt_length,
}
use second_opinion.Main.Counts.{
  CountsFor, err_of, stuck_of, err_weight, stuck, held_at, finished_at, held, has_finished,
  panicked_at, has_panicked, thread_errs, add_declar-CountsFor, err-CountsFor, panic-CountsFor,
}

-- `log` are the declarations whose checks have ended, in a panic too. With those in the hands of the threads they are
-- the ones that the task counter has passed, and beyond the last one it has counted the threads that
-- have finished.
pub record Inv (o : Outline) (k : ℕ) (s : Par) : Type 0 where
  pub log : List Declar
  pub taken :
      (v : Declar → ℕ)
      → total v log + total (held v) s.threads ≡ total v (take s.task_counter o.declarations)
  pub errors : (w : VerifErr → ℕ) → total (thread_errs w) s.threads ≡ total (err_weight o w) log
  pub counts : CountsFor o log s.counters
  pub stuck_checks : total (stuck o) log ≡ total has_panicked s.threads
  pub past_end : s.task_counter - length o.declarations ≡ total has_finished s.threads
  pub size : length s.threads ≡ k

finished_at-le_one : (a : ThreadAt) → finished_at a ≤ 1
finished_at-le_one idle = omega arith
finished_at-le_one (checking stmt proof) = omega arith
finished_at-le_one finished = omega arith
finished_at-le_one panicked = omega arith

module _ (o : Outline) (k : ℕ) (s : Par) (i : ℕ) (t : Thread)
    (here : get_elem? s.threads i ≡ some t) (inv : Inv o k s) where
  -- The task counter does not wrap.
  pub idle-room :
      t.at ≡ idle
      → length o.declarations + k < 2 ^ 64
      → (s.task_counter + 1) % 2 ^ 64 ≡ suc s.task_counter
  idle-room at_idle small =
      let room =
        total-lt_length has_finished i s.threads (λ u. finished_at-le_one u.at) here
          (ap finished_at at_idle) in
      omega (arith, small, room, inv.past_end, inv.size)

  pub fetched_some-Inv :
      (stmt : StmtCmd) (proof : ProofIter)
      → t.at ≡ idle
      → get_elem? o.declarations s.task_counter ≡ some (stmt, proof)
      → length o.declarations + k < 2 ^ 64
      → Inv o k (
          put i
            (checking stmt proof)
            t.errs
            (record s { task_counter = (s.task_counter + 1) % 2 ^ 64 }))
  unfolding put
  fetched_some-Inv stmt proof at_idle found small =
      let below = get_elem?-eq-some_lt s.task_counter o.declarations found in
      let next = idle-room at_idle small in
      record {
        log = inv.log;
        taken = λ v. rw next (
            omega (
              arith,
              inv.taken v,
              total-take-suc v s.task_counter o.declarations found,
              total-set_at (held v) i (record { at = checking stmt proof; errs = t.errs }) s.threads
                  here,
              ap (held_at v) at_idle,
            ));
        errors = λ w. omega (
          arith,
          inv.errors w,
          total-set_at (thread_errs w) i (record { at = checking stmt proof; errs = t.errs })
              s.threads here,
        );
        counts = inv.counts;
        stuck_checks = omega (
          arith,
          inv.stuck_checks,
          total-set_at has_panicked i (record { at = checking stmt proof; errs = t.errs }) s.threads
              here,
          ap panicked_at at_idle,
        );
        past_end = rw next (
            omega (
              arith,
              inv.past_end,
              below,
              total-set_at has_finished i (record { at = checking stmt proof; errs = t.errs })
                  s.threads here,
              ap finished_at at_idle,
            ));
        size =
            length-set_at i (record { at = checking stmt proof; errs = t.errs }) s.threads
            ∙ inv.size;
      }

  pub fetched_none-Inv :
      t.at ≡ idle
      → get_elem? o.declarations s.task_counter ≡ none
      → length o.declarations + k < 2 ^ 64
      → Inv o k (put i finished t.errs (record s { task_counter = (s.task_counter + 1) % 2 ^ 64 }))
  unfolding put
  fetched_none-Inv at_idle found small =
      let beyond = get_elem?-eq-none_ge s.task_counter o.declarations found in
      let next = idle-room at_idle small in
      record {
        log = inv.log;
        taken = λ v. rw next (
            omega (
              arith,
              inv.taken v,
              total-take_all v (suc s.task_counter) o.declarations (omega (arith, beyond)),
              total-take_all v s.task_counter o.declarations beyond,
              total-set_at (held v) i (record { at = finished; errs = t.errs }) s.threads here,
              ap (held_at v) at_idle,
            ));
        errors = λ w. omega (
          arith,
          inv.errors w,
          total-set_at (thread_errs w) i (record { at = finished; errs = t.errs }) s.threads here,
        );
        counts = inv.counts;
        stuck_checks = omega (
          arith,
          inv.stuck_checks,
          total-set_at has_panicked i (record { at = finished; errs = t.errs }) s.threads here,
          ap panicked_at at_idle,
        );
        past_end = rw next (
            omega (
              arith,
              inv.past_end,
              beyond,
              total-set_at has_finished i (record { at = finished; errs = t.errs }) s.threads here,
              ap finished_at at_idle,
            ));
        size = length-set_at i (record { at = finished; errs = t.errs }) s.threads ∙ inv.size;
      }

  pub passed-Inv :
      (stmt : StmtCmd) (proof : ProofIter) {a : _}
      → t.at ≡ checking stmt proof
      → check_decl o stmt proof ≡ ok a
      → Inv o k (put i idle t.errs (record s { counters = add_declar s.counters stmt }))
  unfolding put
  passed-Inv stmt proof at_check e = record {
    log = (stmt, proof) ∷ inv.log;
    taken = λ v. omega (
      arith,
      inv.taken v,
      total-set_at (held v) i (record { at = idle; errs = t.errs }) s.threads here,
      ap (held_at v) at_check,
    );
    errors = λ w. omega (
      arith,
      inv.errors w,
      total-set_at (thread_errs w) i (record { at = idle; errs = t.errs }) s.threads here,
      ap (err_of w) e,
    );
    counts = add_declar-CountsFor o inv.log s.counters inv.counts stmt proof e;
    stuck_checks = omega (
      arith,
      inv.stuck_checks,
      total-set_at has_panicked i (record { at = idle; errs = t.errs }) s.threads here,
      ap panicked_at at_check,
      ap stuck_of e,
    );
    past_end = omega (
      arith,
      inv.past_end,
      total-set_at has_finished i (record { at = idle; errs = t.errs }) s.threads here,
      ap finished_at at_check,
    );
    size = length-set_at i (record { at = idle; errs = t.errs }) s.threads ∙ inv.size;
  }

  pub failed-Inv :
      (stmt : StmtCmd) (proof : ProofIter) (x : VerifErr)
      → t.at ≡ checking stmt proof
      → check_decl o stmt proof ≡ err x
      → Inv o k (put i idle (snoc t.errs x) s)
  unfolding put
  failed-Inv stmt proof x at_check e = record {
    log = (stmt, proof) ∷ inv.log;
    taken = λ v. omega (
      arith,
      inv.taken v,
      total-set_at (held v) i (record { at = idle; errs = snoc t.errs x }) s.threads here,
      ap (held_at v) at_check,
    );
    errors = λ w. omega (
      arith,
      inv.errors w,
      total-set_at (thread_errs w) i (record { at = idle; errs = snoc t.errs x }) s.threads here,
      total-snoc w t.errs x,
      ap (err_of w) e,
    );
    counts = err-CountsFor o inv.log s.counters inv.counts stmt proof e;
    stuck_checks = omega (
      arith,
      inv.stuck_checks,
      total-set_at has_panicked i (record { at = idle; errs = snoc t.errs x }) s.threads here,
      ap panicked_at at_check,
      ap stuck_of e,
    );
    past_end = omega (
      arith,
      inv.past_end,
      total-set_at has_finished i (record { at = idle; errs = snoc t.errs x }) s.threads here,
      ap finished_at at_check,
    );
    size = length-set_at i (record { at = idle; errs = snoc t.errs x }) s.threads ∙ inv.size;
  }

  pub panicked-Inv :
      (stmt : StmtCmd) (proof : ProofIter)
      → t.at ≡ checking stmt proof
      → check_decl o stmt proof ≡ panic
      → Inv o k (put i panicked t.errs s)
  unfolding put
  panicked-Inv stmt proof at_check e = record {
    log = (stmt, proof) ∷ inv.log;
    taken = λ v. omega (
      arith,
      inv.taken v,
      total-set_at (held v) i (record { at = panicked; errs = t.errs }) s.threads here,
      ap (held_at v) at_check,
    );
    errors = λ w. omega (
      arith,
      inv.errors w,
      total-set_at (thread_errs w) i (record { at = panicked; errs = t.errs }) s.threads here,
      ap (err_of w) e,
    );
    counts = panic-CountsFor o inv.log s.counters inv.counts stmt proof e;
    stuck_checks = omega (
      arith,
      inv.stuck_checks,
      total-set_at has_panicked i (record { at = panicked; errs = t.errs }) s.threads here,
      ap panicked_at at_check,
      ap stuck_of e,
    );
    past_end = omega (
      arith,
      inv.past_end,
      total-set_at has_finished i (record { at = panicked; errs = t.errs }) s.threads here,
      ap finished_at at_check,
    );
    size = length-set_at i (record { at = panicked; errs = t.errs }) s.threads ∙ inv.size;
  }
