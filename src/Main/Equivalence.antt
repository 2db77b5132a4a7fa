-- ===== src/Main/Equivalence.antt =====
-- src/main.rs, `verify_mmb`: the run in several threads against the run in one.
use second_opinion.Prelude.{
  All, ◌++◌, ℕ, zero, suc, take, inl, inr, >>=-eq-ok, ok_inj, panic≢ok, hang≢ok, ◌+◌, ◌>>=◌, ◌%◌,
  ◌^◌, ◌≤◌, ◌<◌, ◌⊎◌, List, [], ◌∷◌, snoc, length, ◌≡◌, refl, sym, ap, ◌∙◌, Res, ok, err, panic,
  hang, VerifErr, arith,
}
use second_opinion.Util.Stmt.{StmtCmd}
use second_opinion.Util.Outline.{Outline, Counters, add_declar}
use second_opinion.Mmb.ProofCmd.{ProofIter}
use second_opinion.Mmb.State.{MmbState}
use second_opinion.Mmb.Verify.{check_decl}
use second_opinion.Main.{
  Declar, ThreadAt, finished, panicked, Thread, Par, run, start, mmb_loop, noted, joined,
  verify_mmz, verify_serial, verify_par, assert_mmb_done, no_declar,
}
use second_opinion.Main.Weights.{total, SameBag, total-append, total-snoc, total-take_all}
use second_opinion.Main.Counts.{
  CountsFor, err_of, stuck_of, err_weight, stuck, has_finished, panicked_at, has_panicked, held_at,
  finished_at, thread_errs, add_declar-CountsFor, err-CountsFor,
}
use second_opinion.Main.Invariant.{Inv}
use second_opinion.Main.Run.{run-Inv, start-Inv}

-- The declarations of the first list, last one first, on top of the second.
abbrev onto : List Declar → List Declar → List Declar
onto [] done = done
onto (d ∷ ds) done = onto ds (d ∷ done)

total-onto :
    (v : Declar → ℕ) (ds done : List Declar) → total v (onto ds done) ≡ total v ds + total v done
total-onto v [] done = omega arith
total-onto v (d ∷ ds) done = omega (arith, total-onto v ds (d ∷ done))

-- What a run of `mmb_loop` gives, after the declarations `done` with the errors `errs`.
abbrev Runs :
    (o : Outline) (ds done : List Declar) (errs : List VerifErr)
    → Res (List VerifErr × Counters)
    → Type 0
Runs o ds done errs r =
    (errs' : List VerifErr) × (c' : Counters) × (r ≡ ok (errs', c'))
    × ((w : VerifErr → ℕ) → total w errs' ≡ total w errs + total (err_weight o w) ds)
    × CountsFor o (onto ds done) c'

-- One declaration more, given what the rest of the loop gives.
round-Runs :
    (o : Outline) (stmt : StmtCmd) (proof : ProofIter) (ds done : List Declar)
    (errs : List VerifErr) (c : Counters) (r : Res MmbState)
    → check_decl o stmt proof ≡ r
    → CountsFor o done c
    → stuck_of r ≡ 0
    → ((errs' : List VerifErr) (c' : Counters)
        → CountsFor o ((stmt, proof) ∷ done) c'
        → Runs o ds ((stmt, proof) ∷ done) errs' (mmb_loop o ds errs' c'))
    → Runs o ((stmt, proof) ∷ ds) done errs (noted stmt r errs c >>= λ p. mmb_loop o ds p.0 p.1)
unfolding noted
round-Runs o stmt proof ds done errs c (ok a) e counts h again =
    let (errs', c', run, same, counts') =
      again errs (add_declar c stmt) (add_declar-CountsFor o done c counts stmt proof e) in
    (errs', c', run, (λ w. omega (arith, same w, ap (err_of w) e)), counts')
round-Runs o stmt proof ds done errs c (err x) e counts h again =
    let (errs', c', run, same, counts') =
      again (snoc errs x) c (err-CountsFor o done c counts stmt proof e) in
    (errs', c', run, (λ w. omega (arith, same w, total-snoc w errs x, ap (err_of w) e)), counts')
round-Runs o stmt proof ds done errs c panic e counts h again = absurd (omega (arith, h))
round-Runs o stmt proof ds done errs c hang e counts h again = absurd (omega (arith, h))

mmb_loop-Runs :
    (o : Outline) (ds done : List Declar) (errs : List VerifErr) (c : Counters)
    → CountsFor o done c
    → total (stuck o) ds ≡ 0
    → Runs o ds done errs (mmb_loop o ds errs c)
unfolding mmb_loop
mmb_loop-Runs o [] done errs c counts h = (errs, c, refl, (λ w. omega arith), counts)
mmb_loop-Runs o ((stmt, proof) ∷ ds) done errs c counts h =
    round-Runs o stmt proof ds done errs c (check_decl o stmt proof) refl counts (omega (arith, h))
      (λ errs' c' p. mmb_loop-Runs o ds ((stmt, proof) ∷ done) errs' c' p (omega (arith, h)))

-- Every thread has left its loop.
unfoldable pub AllFinished : Par → Type 0
AllFinished s = All (λ t. t.at ≡ finished) s.threads

-- Every thread has left its loop or has panicked, so that it can be joined.
unfoldable pub AllEnded : Par → Type 0
AllEnded s = All (λ t. (t.at ≡ finished) ⊎ (t.at ≡ panicked)) s.threads

ended_total :
    (w : ThreadAt → ℕ) (ts : List Thread)
    → All (λ t. t.at ≡ finished) ts
    → w finished ≡ 0
    → total (λ t. w t.at) ts ≡ 0
ended_total w [] h z = refl
ended_total w (t ∷ ts) h z = omega (arith, ap w h.0, z, ended_total w ts h.1 z)

ended_length :
    (ts : List Thread) → All (λ t. t.at ≡ finished) ts → total has_finished ts ≡ length ts
ended_length [] h = refl
ended_length (t ∷ ts) h = omega (arith, ap finished_at h.0, ended_length ts h.1)

total-joined :
    (w : VerifErr → ℕ) (ts : List Thread)
    → All (λ t. t.at ≡ finished) ts
    → total w (joined ts) ≡ total (thread_errs w) ts
unfolding joined
total-joined w [] h = refl
total-joined w (t ∷ ts) h =
    rw h.0 (omega (arith, total-append w t.errs (joined ts), total-joined w ts h.1))

Counters_ext :
    {c d : Counters}
    → c.num_sorts_done ≡ d.num_sorts_done
    → c.num_termdefs_done ≡ d.num_termdefs_done
    → c.num_asserts_done ≡ d.num_asserts_done
    → c ≡ d
Counters_ext {c} {d} e f g =
    λ i. record { num_sorts_done = e i; num_termdefs_done = f i; num_asserts_done = g i }

-- Two lists of the same declarations have the same counters.
CountsFor-eq :
    (o : Outline) (xs ys : List Declar) {c d : Counters}
    → CountsFor o xs c
    → CountsFor o ys d
    → SameBag xs ys
    → c ≡ d
CountsFor-eq o xs ys p q same =
    Counters_ext (p.sorts ∙ ap (λ n. n % 2 ^ 8) (same _) ∙ sym q.sorts)
      (p.termdefs ∙ ap (λ n. n % 2 ^ 32) (same _) ∙ sym q.termdefs)
      (p.asserts ∙ ap (λ n. n % 2 ^ 32) (same _) ∙ sym q.asserts)

-- When all threads have left the loop, the declarations whose checks have ended are all of them.
module _ (o : Outline) (k : ℕ) (s : Par) (inv : Inv o k s) (some_thread : 1 ≤ k)
    (end : AllFinished s) where
  finished-log : SameBag inv.log o.declarations
  unfolding AllFinished
  finished-log v = omega (
    arith,
    inv.taken v,
    inv.past_end,
    inv.size,
    ended_length s.threads end,
    ended_total (held_at v) s.threads end refl,
    total-take_all v s.task_counter o.declarations
        (omega (arith, inv.past_end, inv.size, some_thread, ended_length s.threads end)),
  )

  finished-unstuck : total (stuck o) o.declarations ≡ 0
  unfolding AllFinished
  finished-unstuck =
      omega (
        arith,
        finished-log (stuck o),
        inv.stuck_checks,
        ended_total panicked_at s.threads end refl,
      )

  pub finished-serial :
      (errs : List VerifErr) × (mmb_loop o o.declarations [] no_declar ≡ ok (errs, s.counters))
      × SameBag errs (joined s.threads)
  unfolding AllFinished
  finished-serial =
      let (errs, c, run, same, counts) =
        mmb_loop-Runs o o.declarations [] [] no_declar
          (record { sorts = refl; termdefs = refl; asserts = refl }) finished-unstuck in
      let same_counts : c ≡ s.counters =
        CountsFor-eq o (onto o.declarations []) inv.log counts inv.counts
          (λ v. omega (arith, total-onto v o.declarations [], finished-log v)) in
      (
        errs,
        run ∙ ap (λ d. ok (errs, d)) same_counts,
        (λ w. omega (
          arith,
          same w,
          inv.errors w,
          finished-log (err_weight o w),
          total-joined w s.threads end,
        )),
      )

-- A loop that ends has met no check that is stuck.
mmb_loop-unstuck :
    (o : Outline) (ds : List Declar) (errs : List VerifErr) (c : Counters)
    {r : List VerifErr × Counters}
    → mmb_loop o ds errs c ≡ ok r
    → total (stuck o) ds ≡ 0
unfolding mmb_loop noted
mmb_loop-unstuck o [] errs c e = refl
mmb_loop-unstuck o ((stmt, proof) ∷ ds) errs c e =
    let (p, e1, e2) = >>=-eq-ok (noted stmt (check_decl o stmt proof) errs c) _ e in
    omega (
      arith,
      noted-unstuck stmt (check_decl o stmt proof) errs c e1,
      mmb_loop-unstuck o ds p.0 p.1 e2,
    )
  where
    noted-unstuck :
        (stmt : StmtCmd) (r : Res MmbState) (errs : List VerifErr) (c : Counters)
        {p : List VerifErr × Counters}
        → noted stmt r errs c ≡ ok p
        → stuck_of r ≡ 0
    noted-unstuck stmt (ok a) errs c e = refl
    noted-unstuck stmt (err x) errs c e = refl
    noted-unstuck stmt panic errs c e = absurd (panic≢ok e)
    noted-unstuck stmt hang errs c e = absurd (hang≢ok e)

total-take-le {ℓ} :
    {A : Type ℓ} (v : A → ℕ) (n : ℕ) (xs : List A) → total v (take n xs) ≤ total v xs
total-take-le v zero xs = omega arith
total-take-le v (suc n) [] = omega arith
total-take-le v (suc n) (x ∷ xs) = omega (arith, total-take-le v n xs)

none-AllFinished :
    (ts : List Thread)
    → All (λ t. (t.at ≡ finished) ⊎ (t.at ≡ panicked)) ts
    → total has_panicked ts ≡ 0
    → All (λ t. t.at ≡ finished) ts
none-AllFinished [] h z = tt
none-AllFinished (t ∷ ts) h z = elim h.0 [
  | inl left ↦ (left, none-AllFinished ts h.1 (omega (arith, z)))
  | inr gone ↦ absurd (omega (arith, z, ap panicked_at gone))
]

-- Where no check is stuck, no thread has panicked.
unstuck-AllFinished :
    (o : Outline) (k : ℕ) (s : Par)
    → Inv o k s
    → total (stuck o) o.declarations ≡ 0
    → AllEnded s
    → AllFinished s
unfolding AllEnded AllFinished
unstuck-AllFinished o k s inv h end = none-AllFinished s.threads end (
    omega (
      arith,
      h,
      inv.stuck_checks,
      inv.taken (stuck o),
      total-take-le (stuck o) s.task_counter o.declarations,
    ))

-- The threads of `verify_mmb` may take their steps in any order. When the run in one thread reports
-- its errors, then so does the run in several, once each of its threads has left its loop or has
-- panicked: it reports the same errors up to order, but for those of `assert_mmb_done`, which only
-- `verify_serial` calls. There is a thread at least, and the counter of tasks does not wrap.
pub verify_par-verify_serial :
    (o : Outline) (files : List (List ℕ)) (num_threads : ℕ) (schedule : List ℕ)
    (errs : List VerifErr)
    → 1 ≤ num_threads
    → length o.declarations + num_threads < 2 ^ 64
    → AllEnded (run o schedule (start num_threads))
    → verify_serial o files ≡ ok errs
    → (par_errs : List VerifErr) × (verify_par o files (run o schedule (start num_threads))
        ≡ ok par_errs)
      × SameBag errs (par_errs ++ assert_mmb_done o (run o schedule (start num_threads)).counters)
unfolding verify_par verify_serial
verify_par-verify_serial o files k schedule errs some_thread small end e =
    let s = run o schedule (start k) in
    let inv : Inv o k s = run-Inv o k small schedule (start k) (start-Inv o k) in
    let (mmz_errs, mmz, e1) = >>=-eq-ok (verify_mmz o files) _ e in
    let (r, loop, e2) = >>=-eq-ok (mmb_loop o o.declarations [] no_declar) _ e1 in
    let all_finished : AllFinished s =
      unstuck-AllFinished o k s inv (mmb_loop-unstuck o o.declarations [] no_declar loop) end in
    let (mmb_errs, serial, same) = finished-serial o k s inv some_thread all_finished in
    let both : r ≡ (mmb_errs, s.counters) = ok_inj (sym loop ∙ serial) in
    let reported : (mmz_errs ++ mmb_errs) ++ assert_mmb_done o s.counters ≡ errs =
      ap (λ (x : List VerifErr × Counters). (mmz_errs ++ x.0) ++ assert_mmb_done o x.1) (sym both)
      ∙ ok_inj e2 in
    (
      mmz_errs ++ joined s.threads,
      rw (mmz, verify_par) refl,
      (λ w. omega (
        arith,
        ap (total w) reported,
        same w,
        total-append w (mmz_errs ++ mmb_errs) (assert_mmb_done o s.counters),
        total-append w (mmz_errs ++ joined s.threads) (assert_mmb_done o s.counters),
        total-append w mmz_errs mmb_errs,
        total-append w mmz_errs (joined s.threads),
      )),
    )
