-- ===== src/Main/Others.antt =====
-- src/main.rs, `verify_mmb`: the steps of the other threads.
use second_opinion.Prelude.{
  ◌==◌, false, ℕ, suc, ◌+◌, ◌-◌, ◌%◌, ◌^◌, ◌≤◌, ◌<◌, List, snoc, length, get_elem?, ◌≡◌, refl, ◌∙◌,
  Option, none, some, Res, ok, err, panic, hang, VerifErr, arith,
}
use second_opinion.Util.Stmt.{StmtCmd}
use second_opinion.Util.Outline.{Outline, Counters, add_declar}
use second_opinion.Mmb.Verify.{check_decl}
use second_opinion.Main.{
  Declar, ThreadAt, idle, checking, finished, panicked, Thread, Par, put, fetched, checked, tick_at,
  tick,
}
use second_opinion.Main.Weights.{get_elem?-set_at_other, total}
use second_opinion.Main.Counts.{stuck}
use second_opinion.Main.Invariant.{Inv, idle-room}
use second_opinion.Main.Needs.{needs_mono, left, Needs}

module _ (o : Outline) (k : ℕ) (small : length o.declarations + k < 2 ^ 64)
    (unstuck : total (stuck o) o.declarations ≡ 0) where
  -- Another thread's step.
  put_other-Needs :
      (i j n c : ℕ) (a : ThreadAt) (errs : List VerifErr) (counters : Counters) (s : Par)
      → (i == j) ≡ false
      → s.task_counter ≤ c
      → Needs o i n s
      → Needs o i n (put j a errs (record s { task_counter = c; counters = counters }))
  unfolding Needs put left
  put_other-Needs i j n c a errs counters s ne le (t, here, enough) = (
    t,
    get_elem?-set_at_other i j _ s.threads ne ∙ here,
    omega (
      arith,
      needs_mono (length o.declarations - c) (length o.declarations - s.task_counter) t.at
          (omega (arith, le)),
      enough,
    ),
  )

  fetched_other-Needs :
      (i j n : ℕ) (errs : List VerifErr) (d : Option Declar) (s : Par)
      → (i == j) ≡ false
      → (s.task_counter + 1) % 2 ^ 64 ≡ suc s.task_counter
      → Needs o i n s
      → Needs o i n (fetched j errs d (record s { task_counter = (s.task_counter + 1) % 2 ^ 64 }))
  unfolding fetched
  fetched_other-Needs i j n errs none s ne next h =
      put_other-Needs i j n _ finished errs s.counters s ne (omega (arith, next)) h
  fetched_other-Needs i j n errs (some (stmt, proof)) s ne next h =
      put_other-Needs i j n _ (checking stmt proof) errs s.counters s ne (omega (arith, next)) h

  checked_other-Needs :
      {A : Type 0} (i j n : ℕ) (errs : List VerifErr) (stmt : StmtCmd) (r : Res A) (s : Par)
      → (i == j) ≡ false
      → Needs o i n s
      → Needs o i n (checked j stmt errs r s)
  unfolding checked
  checked_other-Needs i j n errs stmt (ok a) s ne h =
      put_other-Needs i j n s.task_counter idle errs (add_declar s.counters stmt) s ne (omega arith)
        h
  checked_other-Needs i j n errs stmt (err x) s ne h =
      put_other-Needs i j n s.task_counter idle (snoc errs x) s.counters s ne (omega arith) h
  checked_other-Needs i j n errs stmt panic s ne h =
      put_other-Needs i j n s.task_counter panicked errs s.counters s ne (omega arith) h
  checked_other-Needs i j n errs stmt hang s ne h = h

  other_tick_at-Needs :
      (i j n : ℕ) (s : Par) (u : Thread) (a : ThreadAt)
      → Inv o k s
      → (i == j) ≡ false
      → get_elem? s.threads j ≡ some u
      → u.at ≡ a
      → Needs o i n s
      → Needs o i n (tick_at o j a u.errs s)
  unfolding tick_at
  other_tick_at-Needs i j n s u idle inv ne here at h =
      fetched_other-Needs i j n u.errs (get_elem? o.declarations s.task_counter) s ne
        (idle-room o k s j u here inv at small) h
  other_tick_at-Needs i j n s u (checking stmt proof) inv ne here at h =
      checked_other-Needs i j n u.errs stmt (check_decl o stmt proof) s ne h
  other_tick_at-Needs i j n s u finished inv ne here at h = h
  other_tick_at-Needs i j n s u panicked inv ne here at h = h

  pub other_tick-Needs :
      (i j n : ℕ) (s : Par)
      → Inv o k s
      → (i == j) ≡ false
      → Needs o i n s
      → Needs o i n (tick o j s)
  unfolding tick
  other_tick-Needs i j n s inv ne h = thread (get_elem? s.threads j) refl
    where
      thread :
          (u : Option Thread)
          → get_elem? s.threads j ≡ u
          → Needs o i n (elim u [ none ↦ s | some v ↦ tick_at o j v.at v.errs s ])
      thread none here = h
      thread (some v) here = other_tick_at-Needs i j n s v v.at inv ne here refl h
