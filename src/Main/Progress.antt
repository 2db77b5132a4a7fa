-- ===== src/Main/Progress.antt =====
-- src/main.rs, `verify_mmb`: every thread that makes enough steps leaves its loop.
use second_opinion.Prelude.{
  ◌*◌, ◌==◌, if◌then◌else◌, true, false, ℕ, ◌+◌, ◌^◌, ◌≤◌, ◌<◌, Bool, List, [], ◌∷◌, length,
  get_elem?, ◌≡◌, refl, some, subst, arith,
}
use second_opinion.Util.Outline.{Outline}
use second_opinion.Main.{
  ThreadAt, idle, checking, finished, panicked, Thread, Par, tick, run, start,
}
use second_opinion.Main.Weights.{
  total-ge_elem, total-take_le, All-of_get, get_elem?-idle_threads, total,
}
use second_opinion.Main.Counts.{stuck, panicked_at, has_panicked}
use second_opinion.Main.Equivalence.{AllFinished}
use second_opinion.Main.Invariant.{Inv}
use second_opinion.Main.Run.{run-Inv, tick-Inv, start-Inv}
use second_opinion.Main.Needs.{NonePanics, occurrences, needs, left, Needs, own_tick-Needs}
use second_opinion.Main.Others.{other_tick-Needs}

module _ (o : Outline) (k : ℕ) (small : length o.declarations + k < 2 ^ 64)
    (unstuck : total (stuck o) o.declarations ≡ 0) where
  tick-Needs :
      (i j n : ℕ) (s : Par) (b : Bool)
      → Inv o k s
      → (i == j) ≡ b
      → Needs o i ((if b then 1 else 0) + n) s
      → Needs o i n (tick o j s)
  tick-Needs i j n s true inv e h =
      let same : i ≡ j = ground arith in
      subst (λ m. Needs o i n (tick o m s)) same
        (own_tick-Needs o k small unstuck i n s inv (subst (λ m. Needs o i m s) (omega arith) h))
  tick-Needs i j n s false inv e h =
      other_tick-Needs o k small unstuck i j n s inv e (subst (λ m. Needs o i m s) (omega arith) h)

  run-Needs :
      (i : ℕ) (schedule : List ℕ) (s : Par)
      → Inv o k s
      → Needs o i (occurrences i schedule) s
      → Needs o i 0 (run o schedule s)
  unfolding run
  run-Needs i [] s inv h = h
  run-Needs i (j ∷ js) s inv h =
      run-Needs i js (tick o j s) (tick-Inv o k small j s inv)
        (tick-Needs i j (occurrences i js) s (i == j) inv refl h)

  -- No thread panics, as no declaration makes one panic.
  not_panicked :
      (i : ℕ) (s : Par) (t : Thread)
      → Inv o k s
      → get_elem? s.threads i ≡ some t
      → panicked_at t.at ≡ 0
  not_panicked i s t inv here = omega (
    arith,
    unstuck,
    total-ge_elem has_panicked i s.threads here,
    inv.stuck_checks,
    inv.taken (stuck o),
    total-take_le (stuck o) s.task_counter o.declarations,
  )

  needs-eq-zero : (m : ℕ) (a : ThreadAt) → needs m a ≤ 0 → panicked_at a ≡ 0 → a ≡ finished
  needs-eq-zero m idle h p = absurd (omega (arith, h))
  needs-eq-zero m (checking stmt proof) h p = absurd (omega (arith, h))
  needs-eq-zero m finished h p = refl
  needs-eq-zero m panicked h p = absurd (omega (arith, p))

  start-Needs : (i : ℕ) → i < k → Needs o i (2 * length o.declarations + 1) (start k)
  unfolding Needs start left
  start-Needs i h = (record { at = idle; errs = [] }, get_elem?-idle_threads i k h, omega arith)

  Needs-mono : (i m n : ℕ) (s : Par) → m ≤ n → Needs o i m s → Needs o i n s
  unfolding Needs
  Needs-mono i m n s le (t, here, enough) = (t, here, omega (arith, le, enough))

  thread-finished :
      (schedule : List ℕ) (i : ℕ)
      → i < k
      → 2 * length o.declarations + 1 ≤ occurrences i schedule
      → (t : Thread) × (get_elem? (run o schedule (start k)).threads i ≡ some t) × (t.at ≡ finished)
  unfolding Needs
  thread-finished schedule i i_lt enough =
      let inv = run-Inv o k small schedule (start k) (start-Inv o k) in
      let (t, here, none_left) =
        run-Needs i schedule (start k) (start-Inv o k)
          (Needs-mono i _ (occurrences i schedule) (start k) enough (start-Needs i i_lt)) in
      (t, here, needs-eq-zero _ t.at none_left (not_panicked i _ t inv here))

-- If no check of a declaration panics, then every schedule in which each thread makes two steps for
-- each declaration and one more brings all threads to the end of their loops.
pub run-AllFinished :
    (o : Outline) (num_threads : ℕ) (schedule : List ℕ)
    → length o.declarations + num_threads < 2 ^ 64
    → NonePanics o
    → ((i : ℕ) → i < num_threads → 2 * length o.declarations + 1 ≤ occurrences i schedule)
    → AllFinished (run o schedule (start num_threads))
unfolding NonePanics AllFinished
run-AllFinished o k schedule small unstuck enough =
    let inv = run-Inv o k small schedule (start k) (start-Inv o k) in
    All-of_get (λ t. t.at ≡ finished) (run o schedule (start k)).threads
      (λ i h.
        thread-finished o k small unstuck schedule i (omega (arith, inv.size, h))
          (enough i (omega (arith, inv.size, h))))
