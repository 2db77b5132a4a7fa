-- ===== src/Main.antt =====
-- src/main.rs: the run over the declarations, in one thread and in several, and the counts at its end
-- (src/util.rs).
pub mod Weights
pub mod Counts
pub mod Invariant
pub mod Run
pub mod Equivalence
pub mod Accepts
pub mod Command
pub mod Verified
pub mod Needs
pub mod Others
pub mod Progress
use second_opinion.Prelude.{
  ℕ, zero, suc, ◌+◌, ◌%◌, ◌^◌, Bool, List, [], ◌∷◌, ◌++◌, snoc, get_elem?, ◌==◌, if◌then◌else◌,
  Option, none, some, Res, ok, err, panic, hang, VerifErr, msg, unwrap_res, ◌>>=◌,
}
use second_opinion.Util.Stmt.{StmtCmd}
use second_opinion.Util.Outline.{Outline, Counters, add_declar}
use second_opinion.Mmb.ProofCmd.{ProofIter}
use second_opinion.Mmb.Verify.{check_decl}
use second_opinion.Mmz.Mem.{MmzMem, new_mem}
use second_opinion.Mmz.Until as Mmz

abbrev pub Declar : Type 0
Declar = StmtCmd × ProofIter

-- An error for a count that differs from the header's.
abbrev pub count_err : ℕ → ℕ → List VerifErr
count_err done expected = if done == expected then [] else msg ∷ []

unfoldable pub assert_mmz_done : Outline → MmzMem → List VerifErr
assert_mmz_done o mmz =
    count_err mmz.num_sorts o.header.num_sorts
    ++ (count_err mmz.num_termdefs o.header.num_terms
        ++ count_err mmz.num_asserts o.header.num_thms)

unfoldable pub assert_mmb_done : Outline → Counters → List VerifErr
assert_mmb_done o c =
    count_err c.num_sorts_done o.header.num_sorts
    ++ (count_err c.num_termdefs_done o.header.num_terms
        ++ count_err c.num_asserts_done o.header.num_thms)

-- The loop of `verify_mmz`: an error is noted, and the state is kept as the error has left it.
unfoldable pub mmz_loop : Outline → List Declar → List VerifErr → MmzMem → Res (List VerifErr)
unfolding Mmz.verify1 assert_mmz_done
mmz_loop o [] errs mem = ok (errs ++ assert_mmz_done o mem)
mmz_loop o ((stmt, proof) ∷ ds) errs mem =
    let next = Mmz.verify1 stmt mem in
    elim next.0 [
      | ok _ ↦ mmz_loop o ds errs next.1
      | err e ↦ mmz_loop o ds (snoc errs e) next.1
      | panic ↦ panic
      | hang ↦ hang
    ]

-- `files` is `file_data.mmz_files`.
unfoldable pub verify_mmz : Outline → List (List ℕ) → Res (List VerifErr)
unfolding new_mem mmz_loop
verify_mmz o files = do mem ← unwrap_res (new_mem o files); mmz_loop o o.declarations [] mem

-- What a thread does with the outcome of a check, on its errors and the shared counters.
unfoldable pub noted :
    {A : Type 0} → StmtCmd → Res A → List VerifErr → Counters → Res (List VerifErr × Counters)
unfolding add_declar
noted stmt (ok a) errs c = ok (errs, add_declar c stmt)
noted stmt (err e) errs c = ok (snoc errs e, c)
noted stmt panic errs c = panic
noted stmt hang errs c = hang

-- `verify_mmb` in one thread: the task counter goes through the declarations one by one.
unfoldable pub mmb_loop :
    Outline → List Declar → List VerifErr → Counters → Res (List VerifErr × Counters)
unfolding check_decl noted
mmb_loop o [] errs c = ok (errs, c)
mmb_loop o ((stmt, proof) ∷ ds) errs c = do
  (errs', c') ← noted stmt (check_decl o stmt proof) errs c
  mmb_loop o ds errs' c'

abbrev pub no_declar : Counters
no_declar = record { num_sorts_done = 0; num_termdefs_done = 0; num_asserts_done = 0 }

unfoldable pub verify_serial : Outline → List (List ℕ) → Res (List VerifErr)
unfolding verify_mmz mmb_loop assert_mmb_done
verify_serial o files = do
  mmz_errs ← verify_mmz o files
  (mmb_errs, c) ← mmb_loop o o.declarations [] no_declar
  ok ((mmz_errs ++ mmb_errs) ++ assert_mmb_done o c)

-- Where a thread of `verify_mmb` is: before `fetch_add`, between `fetch_add` and the end of
-- `verify1`, behind its loop, or ended by a panic.
pub data ThreadAt : Type 0 where
  idle : ThreadAt
  checking : StmtCmd → ProofIter → ThreadAt
  finished : ThreadAt
  panicked : ThreadAt

pub record Thread : Type 0 where
  pub at : ThreadAt
  pub errs : List VerifErr

-- The task counter and the counters of the outline are shared.
pub record Par : Type 0 where
  pub task_counter : ℕ
  pub counters : Counters
  pub threads : List Thread

unfoldable pub set_at {ℓ} : {A : Type ℓ} → ℕ → A → List A → List A
set_at i a [] = []
set_at zero a (x ∷ xs) = a ∷ xs
set_at (suc i) a (x ∷ xs) = x ∷ set_at i a xs

unfoldable pub put : ℕ → ThreadAt → List VerifErr → Par → Par
unfolding set_at
put i at errs s = record s { threads = set_at i (record { at = at; errs = errs }) s.threads }

-- `declarations.get(..)` with the index that `fetch_add` gave.
unfoldable pub fetched : ℕ → List VerifErr → Option Declar → Par → Par
unfolding put
fetched i errs none s = put i finished errs s
fetched i errs (some (stmt, proof)) s = put i (checking stmt proof) errs s

-- The end of a check. A declaration that passes is counted, atomically.
unfoldable pub checked : {A : Type 0} → ℕ → StmtCmd → List VerifErr → Res A → Par → Par
unfolding put add_declar
checked i stmt errs (ok a) s = put i idle errs (record s { counters = add_declar s.counters stmt })
checked i stmt errs (err e) s = put i idle (snoc errs e) s
checked i stmt errs panic s = put i panicked errs s
checked i stmt errs hang s = s

-- A thread's next atomic step. `fetch_add` wraps.
unfoldable pub tick_at : Outline → ℕ → ThreadAt → List VerifErr → Par → Par
unfolding fetched checked check_decl
tick_at o i idle errs s =
    fetched i errs (get_elem? o.declarations s.task_counter)
      (record s { task_counter = (s.task_counter + 1) % 2 ^ 64 })
tick_at o i (checking stmt proof) errs s = checked i stmt errs (check_decl o stmt proof) s
tick_at o i finished errs s = s
tick_at o i panicked errs s = s

unfoldable pub tick : Outline → ℕ → Par → Par
unfolding tick_at
tick o i s = elim (get_elem? s.threads i) [ none ↦ s | some t ↦ tick_at o i t.at t.errs s ]

-- The threads in the order in which they make their steps.
unfoldable pub run : Outline → List ℕ → Par → Par
unfolding tick
run o [] s = s
run o (i ∷ schedule) s = run o schedule (tick o i s)

unfoldable pub idle_threads : ℕ → List Thread
idle_threads zero = []
idle_threads (suc n) = (record { at = idle; errs = [] }) ∷ idle_threads n

unfoldable pub start : ℕ → Par
unfolding idle_threads
start num_threads = record {
  task_counter = 0;
  counters = no_declar;
  threads = idle_threads num_threads;
}

-- The errors of the threads that are joined; a panic is one message.
unfoldable pub joined : List Thread → List VerifErr
joined [] = []
joined (t ∷ ts) = elim t.at [
  | panicked ↦ msg ∷ joined ts
  | idle ↦ t.errs ++ joined ts
  | checking stmt proof ↦ t.errs ++ joined ts
  | finished ↦ t.errs ++ joined ts
]

-- `verify_par`, once the threads have ended in the state `s`; the thread of `verify_mmz` shares
-- nothing with them.
unfoldable pub verify_par : Outline → List (List ℕ) → Par → Res (List VerifErr)
unfolding verify_mmz joined
verify_par o files s = elim (verify_mmz o files) [
  | ok mmz_errs ↦ ok (mmz_errs ++ joined s.threads)
  | err e ↦ err e
  | panic ↦ ok (msg ∷ joined s.threads)
  | hang ↦ hang
]
