-- ===== src/Main/Verified.antt =====
-- src/main.rs, `main`: what has been checked when the report says so.
use second_opinion.Prelude.{
  ℕ, zero, suc, ◌+◌, ◌<◌, ◌≤◌, ◌^◌, List, [], ◌∷◌, ◌++◌, length, last?, All, ◌==◌, Bool-cases, ◌⊎◌,
  inl, inr, Option, none, some, ◌≡◌, refl, sym, ap, ◌∙◌, subst, Res, ok, err, panic, hang, VerifErr,
  msg, ◌>>=◌, >>=-eq-ok, ok_inj, hang≢ok, panic≢ok, err≢ok, arith,
}
use second_opinion.Mmz.Data.{Str}
use second_opinion.Util.Outline.{Outline, new_from}
use second_opinion.Fs.{ImportGraph, FileData}
use second_opinion.Fs.Open.{FileSystem, open_files}
use second_opinion.Main.{
  Par, Thread, finished, panicked, verify_mmz, mmb_loop, joined, no_declar, verify_serial,
  verify_par, run, start,
}
use second_opinion.Main.Weights.{total}
use second_opinion.Main.Run.{run-Inv, start-Inv}
use second_opinion.Main.Equivalence.{AllFinished, AllEnded, finished-serial}
use second_opinion.Main.Accepts.{Checks, Passes, Passes-from, append-eq-nil, mmb_loop-Checks}
use second_opinion.Main.Command.{
  unsuccessful, verified, report, threads_of, num_threads, verify_with, main,
}

verify_serial-Passes :
    (o : Outline) (files : List (List ℕ)) → verify_serial o files ≡ ok [] → Passes o files
unfolding verify_serial
verify_serial-Passes o files e =
    let (mmz_errs, e1, e2) = >>=-eq-ok (verify_mmz o files) _ e in
    let (r, e3, e4) = >>=-eq-ok (mmb_loop o o.declarations [] no_declar) _ e2 in
    let (both, _) = append-eq-nil (mmz_errs ++ r.0) _ (ok_inj e4) in
    let (mmz_none, mmb_none) = append-eq-nil mmz_errs r.0 both in
    let (_, checks, _) =
      mmb_loop-Checks o o.declarations [] no_declar (e3 ∙ ap (λ x. ok (x, r.1)) mmb_none) in
    Passes-from o files checks (e1 ∙ ap (λ x. ok x) mmz_none)

empty_bag : (xs : List VerifErr) → total (λ e. 1) xs ≡ 0 → xs ≡ []
empty_bag [] h = refl
empty_bag (x ∷ xs) h = absurd (omega (arith, h))

no_message : (ts : List Thread) → ¬ (msg ∷ joined ts ≡ [])
no_message ts e = cc

-- A thread that has panicked leaves a message.
joined-eq-nil :
    (ts : List Thread)
    → All (λ t. (t.at ≡ finished) ⊎ (t.at ≡ panicked)) ts
    → joined ts ≡ []
    → All (λ t. t.at ≡ finished) ts
unfolding joined
joined-eq-nil [] h e = tt
joined-eq-nil (t ∷ ts) h e = elim h.0 [
  | inl left ↦ (left, joined-eq-nil ts h.1 (append-eq-nil t.errs (joined ts) (rw left at e)).1)
  | inr gone ↦ absurd (no_message ts (rw gone at e))
]

verify_par-Passes :
    (o : Outline) (files : List (List ℕ)) (k : ℕ) (schedule : List ℕ)
    → 1 ≤ k
    → length o.declarations + k < 2 ^ 64
    → AllEnded (run o schedule (start k))
    → verify_par o files (run o schedule (start k)) ≡ ok []
    → Passes o files
unfolding verify_par AllEnded AllFinished
verify_par-Passes o files k schedule some_thread small end e = go (verify_mmz o files) refl e
  where
    s : Par
    s = run o schedule (start k)

    none_joined : joined s.threads ≡ [] → All (Checks o) o.declarations
    none_joined h =
        let all_finished : AllFinished s = joined-eq-nil s.threads end h in
        let (errs, loop, same) =
          finished-serial o k s (run-Inv o k small schedule (start k) (start-Inv o k)) some_thread
            all_finished in
        let none_at_all : errs ≡ [] =
          empty_bag errs (same (λ e. 1) ∙ ap (λ (xs : List VerifErr). total (λ e. 1) xs) h) in
        (mmb_loop-Checks o o.declarations [] no_declar
          (loop ∙ ap (λ x. ok (x, s.counters)) none_at_all)).1

    go :
        (r : Res (List VerifErr))
        → verify_mmz o files ≡ r
        → elim r [
          | ok mmz_errs ↦ ok (mmz_errs ++ joined s.threads)
          | err x ↦ err x
          | panic ↦ ok (msg ∷ joined s.threads)
          | hang ↦ hang
        ]
          ≡ ok []
        → Passes o files
    go (ok mmz_errs) f h =
        let (a, b) = append-eq-nil mmz_errs (joined s.threads) (ok_inj h) in
        Passes-from o files (none_joined b) (f ∙ ap (λ x. ok x) a)
    go (err x) f h = absurd (err≢ok h)
    go panic f h = absurd (some_err (ok_inj h))
      where
        some_err : {x : VerifErr} {xs : List VerifErr} → ¬ (x ∷ xs ≡ [])
        some_err g = cc
    go hang f h = absurd (hang≢ok h)

threads_pos : (o : Option ℕ) {k : ℕ} → threads_of o ≡ ok k → 1 ≤ k
unfolding threads_of
threads_pos none e = absurd (panic≢ok e)
threads_pos (some zero) e = subst (λ k. 1 ≤ k) (ok_inj e) (omega arith)
threads_pos (some (suc n)) e = subst (λ k. 1 ≤ k) (ok_inj e) (omega arith)

num_threads-pos :
    (parse : Str → Option ℕ) (arg : Option Str) {k : ℕ} → num_threads parse arg ≡ ok k → 1 ≤ k
unfolding num_threads
num_threads-pos parse none e = subst (λ k. 1 ≤ k) (ok_inj e) (omega arith)
num_threads-pos parse (some s) e = threads_pos (parse s) e

last?-cons : (x : VerifErr) (xs : List VerifErr) → (y : VerifErr) × (last? (x ∷ xs) ≡ some y)
last?-cons x [] = (x, refl)
last?-cons x (y ∷ xs) = last?-cons y xs

report-verified :
    (o : Outline) (errs : List VerifErr) {a b c : ℕ}
    → report o errs ≡ verified a b c
    → (errs ≡ []) × (a ≡ o.header.num_sorts) × (b ≡ o.header.num_terms) × (c ≡ o.header.num_thms)
unfolding report
report-verified o [] e = (refl, cc, cc, cc)
report-verified o (x ∷ xs) e =
    let (y, last) = last?-cons x xs in absurd (differ (rw (last, report) at e))
  where
    differ : {x : VerifErr} {n a b c : ℕ} → ¬ (unsuccessful x n ≡ verified a b c)
    differ f = cc

-- When the program reports that it has verified the file, every declaration of the file has passed
-- the check of its proof, the specification has admitted the declarations one behind the other, where
-- for each that is not local it has read on to a sort, to a term that it has compared with the
-- declaration's, or to an axiom or theorem that it has compared with the declaration's, and the
-- numbers in the report are those that the specification side has counted. This holds for one thread
-- and for several; there the threads have taken their steps in some order, each has left its loop or
-- has panicked, and the counter of tasks does not wrap.
pub main-Passes :
    (fs : FileSystem) (parse : Str → Option ℕ) (fuel : ℕ) (arg : Option Str) (mmb : Str)
    (mmz : Option Str) (schedule : List ℕ) (k : ℕ) (files : List ℕ × ImportGraph × FileData)
    (o : Outline) {sorts terms thms : ℕ}
    → num_threads parse arg ≡ ok k
    → open_files fs fuel mmb mmz ≡ ok files
    → new_from files.0 ≡ ok o
    → length o.declarations + k < 2 ^ 64
    → AllEnded (run o schedule (start k))
    → main fs parse fuel arg mmb mmz schedule ≡ ok (verified sorts terms thms)
    → (p : Passes o (files.2).mmz_files) × (sorts ≡ (p.last).num_sorts)
      × (terms ≡ (p.last).num_termdefs)
      × (thms ≡ (p.last).num_asserts)
unfolding main verify_with
main-Passes fs parse fuel arg mmb mmz schedule k files o e1 e2 e3 small end e =
    let opened : main fs parse fuel arg mmb mmz schedule
        ≡ (verify_with k o (files.2).mmz_files schedule >>= λ errs. ok (report o errs)) =
      rw (e1, e2, e3) refl in
    let (errs, f1, f2) =
      >>=-eq-ok (verify_with k o (files.2).mmz_files schedule) _ (sym opened ∙ e) in
    let (none_left, a, b, c) = report-verified o errs (ok_inj f2) in
    let p : Passes o (files.2).mmz_files = go (f1 ∙ ap (λ x. ok x) none_left) in
    (p, a ∙ sym (p.counts.0), b ∙ sym (p.counts.1), c ∙ sym (p.counts.2))
  where
    go : verify_with k o (files.2).mmz_files schedule ≡ ok [] → Passes o (files.2).mmz_files
    go f = elim (Bool-cases (k == 1)) [
      | inl one ↦ verify_serial-Passes o (files.2).mmz_files (rw one at f)
      | inr more ↦
          verify_par-Passes o (files.2).mmz_files k schedule (num_threads-pos parse arg e1) small
            end (rw more at f)
    ]
