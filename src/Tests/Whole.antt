-- ===== src/Tests/Whole.antt =====
-- The whole program on test_resources/short.mmb and test_resources/short.mm0.
use second_opinion.Prelude.{
  ℕ, ◌+◌, ◌<◌, ◌^◌, List, [], ◌∷◌, length, ◌≡◌, refl, inl, none, some, Res, ok, err, panic, hang,
  arith,
}
use second_opinion.Util.Outline.{Outline, new_from}
use second_opinion.Mmb.Item.{item_eq}
use second_opinion.Mmb.Proof.Vars.{proof_ref, proof_hyp}
use second_opinion.Mmb.Proof.Build.{proof_term}
use second_opinion.Fs.{ImportGraph, no_imports, FileData}
use second_opinion.Fs.Open.{FileSystem, open_files}
use second_opinion.Main.{verify_serial, run, start}
use second_opinion.Main.Equivalence.{AllEnded}
use second_opinion.Main.Accepts.{Passes, Accepted, verify_serial-Accepted}
use second_opinion.Main.Command.{verified, num_threads, main}
use second_opinion.Main.Verified.{main-Passes}
use second_opinion.Tests.Short.{short_mmb}
use second_opinion.Tests.ShortSpec.{short_mm0}
use second_opinion.Tests.Examples.{short}

-- Two files; the names are not looked at, and the specification imports nothing.
abbrev disk : FileSystem
disk = record {
  canonicalize = λ p. some p;
  set_extension_mm0 = λ p. p;
  set_file_name = λ p n. n;
  read_to_end = λ p. some short_mmb;
  read_to_string = λ p. some short_mm0;
  split_whitespace = λ s. [];
}

-- One thread, and two that take turns.
short_verified : main disk (λ s. none) 5 none [] none [] ≡ ok (verified 1 2 4)
unfolding main proof_ref proof_term proof_hyp item_eq
short_verified = refl

abbrev turns : List ℕ
turns = 0 ∷ 1 ∷ 0 ∷ 1 ∷ 0 ∷ 1 ∷ 0 ∷ 1 ∷ 0 ∷ 1 ∷ 0 ∷ 1 ∷ 0 ∷ 1 ∷ 0 ∷ 1 ∷ 0 ∷ 1 ∷ []

short_verified_twice : main disk (λ s. some 2) 5 (some []) [] none turns ≡ ok (verified 1 2 4)
unfolding main proof_ref proof_term proof_hyp item_eq
short_verified_twice = refl

abbrev value_or {ℓ} : {A : Type ℓ} → A → Res A → A
value_or d (ok a) = a
value_or d (err e) = d
value_or d panic = d
value_or d hang = d

pub short_outline : Outline
unfolding new_from
short_outline = value_or short (new_from short_mmb)

pub short_opens : new_from short_mmb ≡ ok short_outline
unfolding short_outline
short_opens = refl

abbrev short_files : FileData
short_files = record { mmz_files = short_mm0 ∷ []; todos = []; done = [] ∷ [] }

abbrev opened : List ℕ × ImportGraph × FileData
opened = (short_mmb, no_imports [], short_files)

disk_opens : open_files disk 5 [] none ≡ ok opened
unfolding open_files
disk_opens = refl

turns_end : AllEnded (run short_outline turns (start 2))
unfolding short_outline AllEnded run start proof_ref proof_term proof_hyp item_eq
turns_end = (inl refl, (inl refl, tt))

few : length short_outline.declarations + 2 < 2 ^ 64
unfolding short_outline
few = omega arith

two_threads : num_threads (λ s. some 2) (some []) ≡ ok 2
unfolding num_threads
two_threads = refl

main-Passes_example :
    (p : Passes short_outline (short_mm0 ∷ [])) × (1 ≡ (p.last).num_sorts)
    × (2 ≡ (p.last).num_termdefs)
    × (4 ≡ (p.last).num_asserts)
main-Passes_example =
    main-Passes disk (λ s. some 2) 5 (some []) [] none turns 2 opened short_outline two_threads
      disk_opens short_opens few turns_end short_verified_twice

short_accepted : verify_serial short_outline (short_mm0 ∷ []) ≡ ok []
unfolding short_outline verify_serial proof_ref proof_term proof_hyp item_eq
short_accepted = refl

verify_serial-Accepted_example : Accepted short_outline (short_mm0 ∷ [])
verify_serial-Accepted_example =
    verify_serial-Accepted short_mmb (short_mm0 ∷ []) short_opens short_accepted
