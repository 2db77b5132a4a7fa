-- ===== src/Main/Command.antt =====
-- src/main.rs, `main`: from the arguments to the report. The arguments are read by a library.
use second_opinion.Prelude.{
  ℕ, zero, suc, ◌-◌, List, length, last?, ◌==◌, if◌then◌else◌, Option, none, some, Res, ok, panic,
  VerifErr, unwrap_res, ◌>>=◌,
}
use second_opinion.Mmz.Data.{Str}
use second_opinion.Util.Outline.{Outline, new_from}
use second_opinion.Fs.Open.{FileSystem, open_files}
use second_opinion.Main.{verify_serial, verify_par, run, start}

-- What is printed at the end: the last error with the number of the others, or the header's
-- numbers of sorts, terms and assertions.
pub data Report : Type 0 where
  unsuccessful : VerifErr → ℕ → Report
  verified : ℕ → ℕ → ℕ → Report

unfoldable pub report : Outline → List VerifErr → Report
report o errs = elim (last? errs) [
  | none ↦ verified o.header.num_sorts o.header.num_terms o.header.num_thms
  | some e ↦ unsuccessful e (length errs - 1)
]

-- The number of threads of an argument: 0 counts as 1, and what is no number is a panic.
unfoldable pub threads_of : Option ℕ → Res ℕ
threads_of none = panic
threads_of (some zero) = ok 1
threads_of (some (suc n)) = ok (suc n)

-- `parse` is `str::parse::<usize>`.
unfoldable pub num_threads : (Str → Option ℕ) → Option Str → Res ℕ
unfolding threads_of
num_threads parse none = ok 1
num_threads parse (some s) = threads_of (parse s)

-- The threads of `verify_par` take their steps in the order of the schedule.
unfoldable pub verify_with : ℕ → Outline → List (List ℕ) → List ℕ → Res (List VerifErr)
unfolding verify_serial verify_par run start
verify_with k o files schedule =
    if k == 1 then verify_serial o files else verify_par o files (run o schedule (start k))

unfoldable pub main :
    FileSystem → (Str → Option ℕ) → ℕ → Option Str → Str → Option Str → List ℕ → Res Report
unfolding num_threads open_files new_from verify_with report
main fs parse fuel threads mmb mmz schedule = do
  k ← num_threads parse threads
  (mmb_file, mmz_hierarchy, file_data) ← unwrap_res (open_files fs fuel mmb mmz)
  outline ← unwrap_res (new_from mmb_file)
  errs ← verify_with k outline file_data.mmz_files schedule
  ok (report outline errs)
