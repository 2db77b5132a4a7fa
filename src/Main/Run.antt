-- ===== src/Main/Run.antt =====
-- src/main.rs, `verify_mmb`: the invariant along a run of the threads.
use second_opinion.Prelude.{
  ℕ, zero, suc, ◌+◌, ◌%◌, ◌^◌, ◌<◌, List, [], ◌∷◌, length, get_elem?, ◌≡◌, refl, sym, ap, Option,
  none, some, Res, ok, err, panic, hang, arith,
}
use second_opinion.Util.Outline.{Outline}
use second_opinion.Mmb.State.{MmbState}
use second_opinion.Mmb.Verify.{check_decl}
use second_opinion.Main.{
  Declar, ThreadAt, idle, checking, finished, panicked, Thread, Par, fetched, checked, tick_at,
  tick, run, start, idle_threads,
}
use second_opinion.Main.Weights.{total}
use second_opinion.Main.Counts.{held, has_finished, has_panicked, thread_errs}
use second_opinion.Main.Invariant.{
  Inv, fetched_some-Inv, fetched_none-Inv, passed-Inv, failed-Inv, panicked-Inv,
}

module _ (o : Outline) (k : ℕ) (s : Par) (i : ℕ) (t : Thread)
    (here : get_elem? s.threads i ≡ some t) (inv : Inv o k s) where
  tick_at-Inv :
      (a : ThreadAt)
      → t.at ≡ a
      → length o.declarations + k < 2 ^ 64
      → Inv o k (tick_at o i a t.errs s)
  unfolding tick_at
  tick_at-Inv idle at_idle small = fetch (get_elem? o.declarations s.task_counter) refl
    where
      fetch :
          (d : Option Declar)
          → get_elem? o.declarations s.task_counter ≡ d
          → Inv o k (fetched i t.errs d (record s { task_counter = (s.task_counter + 1) % 2 ^ 64 }))
      fetch none found = fetched_none-Inv o k s i t here inv at_idle found small
      fetch (some (stmt, proof)) found =
          fetched_some-Inv o k s i t here inv stmt proof at_idle found small
  tick_at-Inv (checking stmt proof) at_check small = outcome (check_decl o stmt proof) refl
    where
      outcome :
          (r : Res MmbState) → check_decl o stmt proof ≡ r → Inv o k (checked i stmt t.errs r s)
      outcome (ok a) e = passed-Inv o k s i t here inv stmt proof at_check e
      outcome (err x) e = failed-Inv o k s i t here inv stmt proof x at_check e
      outcome panic e = panicked-Inv o k s i t here inv stmt proof at_check e
      outcome hang e = inv
  tick_at-Inv finished at_end small = inv
  tick_at-Inv panicked at_end small = inv

module _ (o : Outline) (k : ℕ) (small : length o.declarations + k < 2 ^ 64) where
  -- A step of any thread keeps the invariant.
  pub tick-Inv : (i : ℕ) (s : Par) → Inv o k s → Inv o k (tick o i s)
  unfolding tick
  tick-Inv i s inv = thread (get_elem? s.threads i) refl
    where
      thread :
          (t : Option Thread)
          → get_elem? s.threads i ≡ t
          → Inv o k (elim t [ none ↦ s | some u ↦ tick_at o i u.at u.errs s ])
      thread none here = inv
      thread (some u) here = tick_at-Inv o k s i u here inv u.at refl small

  -- Steps of the threads, in any order, keep the invariant: the declarations that the task counter has
  -- passed are those whose checks have ended and those in the hands of a thread, each once; the
  -- errors of the threads and the shared counters are those of the ended checks; and the task counter
  -- does not wrap, as long as the declarations and the threads together are below 2 ^ 64.
  pub run-Inv : (schedule : List ℕ) (s : Par) → Inv o k s → Inv o k (run o schedule s)
  unfolding run
  run-Inv [] s inv = inv
  run-Inv (i ∷ schedule) s inv = run-Inv schedule (tick o i s) (tick-Inv i s inv)

module _ (o : Outline) where
  idle-total :
      (w : Thread → ℕ) (n : ℕ)
      → w (record { at = idle; errs = [] }) ≡ 0
      → total w (idle_threads n) ≡ 0
  unfolding idle_threads
  idle-total w zero h = refl
  idle-total w (suc n) h = omega (arith, h, idle-total w n h)

  length-idle_threads : (n : ℕ) → length (idle_threads n) ≡ n
  unfolding idle_threads
  length-idle_threads zero = refl
  length-idle_threads (suc n) = ap suc (length-idle_threads n)

  pub start-Inv : (k : ℕ) → Inv o k (start k)
  unfolding start
  start-Inv k = record {
    log = [];
    taken = λ v. omega (arith, idle-total (held v) k refl);
    errors = λ w. idle-total (thread_errs w) k refl;
    counts = record { sorts = refl; termdefs = refl; asserts = refl };
    stuck_checks = sym (idle-total has_panicked k refl);
    past_end = omega (arith, idle-total has_finished k refl);
    size = length-idle_threads k;
  }
