-- ===== src/Fs/Ends.antt =====
-- src/fs.rs: loading ends, also on files that import one another.
use second_opinion.Prelude.{
  ℕ, zero, suc, ◌+◌, ◌*◌, ◌≤◌, ◌<◌, true, false, List, [], ◌∷◌, length, All, ◌≡◌, ◌≢◌, subst, refl,
  sym, Option, none, some, ok, panic, hang, unwrap, unwrap-eq-ok, Bool-cases, inl, inr, arith,
}
use native.Mathlib.Nat.{mul-le-mul_right}
use second_opinion.Util.Cmd.Loop.{
  Ends, by_ok, by_err, by_panic, Ends-ne-hang, >>=-Ends_with, unwrap-Ends,
}
use second_opinion.Mmz.Data.{Str, str_eq}
use second_opinion.Fs.{
  ImportGraphs, FileData, any_path, next_import, finish, add_mmz_aux, find_imports, load, no_files,
}
use second_opinion.Fs.Branches.{
  end, bad, skip, import, next_cases, at_end_eq, bad_eq, skipped_eq, done_eq, cycle_eq, new_eq,
}
use second_opinion.Fs.Order.{AllImports, InOrder, Extends, add_mmz_aux-Extends}
use second_opinion.Fs.Unseen.{
  str_eq-eq, skipped-shorter, import_of-shorter, skipped-AllImports, import_of-AllImports, unseen,
  unseen-le_length, unseen-grows, unseen-push,
}

popped-Ends :
    {A : Type 0} (todos : List Str) (f : Str → List Str → A)
    → Ends {A = A} (elim todos [ [] ↦ panic | q ∷ rest ↦ ok (f q rest) ])
popped-Ends [] f = by_panic
popped-Ends (q ∷ rest) f = by_ok _

module _ (read : Str → Option Str) (split : Str → List Str) (w_filename : Str → Str)
    (paths : List Str) (width : ℕ) where
  -- A text of `width` words at most, whose imports are all of the paths.
  abbrev pub TextIn : Option Str → Type 0
  TextIn none = Unit
  TextIn (some s) =
      (length (split s) ≤ width) × AllImports (λ n. any_path (w_filename n) paths ≡ true) (split s)

  any_path-TextIn :
      (p : Str) (ps : List Str)
      → any_path p ps ≡ true
      → All (λ q. TextIn (read q)) ps
      → TextIn (read p)
  unfolding any_path
  any_path-TextIn p [] h a = ground arith
  any_path-TextIn p (q ∷ ps) h a = elim (Bool-cases (str_eq q p)) [
    | inl same ↦ subst (λ r. TextIn (read r)) (str_eq-eq q p same) a.0
    | inr other ↦ any_path-TextIn p ps (rw other at h) a.1
  ]

  finish-Ends :
      (p s : Str) (found : ImportGraphs × FileData) → Ends (finish read split w_filename p s found)
  unfolding finish
  finish-Ends p s (imports, d) = popped-Ends d.todos _

  -- The fuel that loading takes from here on, but for the words of the text that is being read.
  abbrev cost : List Str → FileData → ℕ
  cost todos d = unseen todos d.done paths * (width + 2)

  deeper :
      (p : Str) (d : FileData)
      → any_path p paths ≡ true
      → any_path p d.todos ≡ false
      → any_path p d.done ≡ false
      → cost (p ∷ d.todos) d + (width + 2) ≤ cost d.todos d
  deeper p d a b c = grind (arith, unseen-push p d.todos d.done paths a b c)

  further :
      (d d' : FileData) → Extends read split w_filename d d' → cost d'.todos d' ≤ cost d.todos d
  further d d' x = mul-le-mul_right (width + 2) (
      subst (λ t. unseen t d'.done paths ≤ unseen d.todos d.done paths) (sym x.same_todos)
        (unseen-grows d.todos d.done d'.done paths x.grows))

  mutual
    unfolding add_mmz_aux

    add_mmz_aux-Ends :
        (fuel : ℕ) (p : Str) (d : FileData)
        → All (λ q. TextIn (read q)) paths
        → InOrder read split w_filename [] d.done d.mmz_files
        → any_path p paths ≡ true
        → any_path p d.todos ≡ false
        → any_path p d.done ≡ false
        → cost d.todos d ≤ fuel
        → Ends (add_mmz_aux read split w_filename fuel p d)
    add_mmz_aux-Ends zero p d all o a b c h = absurd (omega (arith, deeper p d a b c))
    add_mmz_aux-Ends (suc fuel) p d all o a b c h =
        >>=-Ends_with (unwrap (read p)) (unwrap-Ends (read p)) (λ s e.
          let t : TextIn (some s) =
            subst TextIn (unwrap-eq-ok (read p) e) (any_path-TextIn p paths a all) in
          >>=-Ends_with
            (find_imports read split w_filename fuel (split s) (record d { todos = p ∷ d.todos }))
            (find_imports-Ends fuel (split s) (record d { todos = p ∷ d.todos }) all o t.1
              (omega (arith, deeper p d a b c, t.0)))
            (λ found _. finish-Ends p s found))

    find_imports-Ends :
        (fuel : ℕ) (ws : List Str) (d : FileData)
        → All (λ q. TextIn (read q)) paths
        → InOrder read split w_filename [] d.done d.mmz_files
        → AllImports (λ n. any_path (w_filename n) paths ≡ true) ws
        → cost d.todos d + length ws < fuel
        → Ends (find_imports read split w_filename fuel ws d)
    find_imports-Ends zero ws d all o i h = absurd (omega (arith, h))
    find_imports-Ends (suc fuel) ws d all o i h = elim (next_cases (next_import ws)) [
      | end e ↦ subst Ends (sym (at_end_eq read split w_filename fuel ws d e)) (by_ok _)
      | bad e ↦ subst Ends (sym (bad_eq read split w_filename fuel ws d e)) by_panic
      | skip ws' e ↦
          let less = skipped-shorter ws ws' e in
          subst Ends (sym (skipped_eq read split w_filename fuel ws ws' d e))
            (find_imports-Ends fuel ws' d all o (skipped-AllImports _ ws' e i) (omega arith))
      | import n ws' e ↦
          let less = import_of-shorter ws ws' n e in
          let (there, i') = import_of-AllImports _ n ws' e i in
          elim (Bool-cases (any_path (w_filename n) d.done)) [
            | inl known ↦
                subst Ends (sym (done_eq read split w_filename fuel ws ws' n d e known))
                  (find_imports-Ends fuel ws' d all o i' (omega arith))
            | inr new ↦ elim (Bool-cases (any_path (w_filename n) d.todos)) [
              | inl cycle ↦
                  subst Ends (sym (cycle_eq read split w_filename fuel ws ws' n d e new cycle))
                    (by_err _)
              | inr free ↦
                  subst Ends (sym (new_eq read split w_filename fuel ws ws' n d e new free)) (
                    >>=-Ends_with (add_mmz_aux read split w_filename fuel (w_filename n) d)
                      (add_mmz_aux-Ends fuel (w_filename n) d all o there free new (omega arith))
                      (λ r e1.
                        let (x, _, _) =
                          add_mmz_aux-Extends read split w_filename fuel (w_filename n) d o e1 in
                        let cheaper = further d r.1 x in
                        >>=-Ends_with (find_imports read split w_filename fuel ws' r.1)
                          (find_imports-Ends fuel ws' r.1 all x.ordered i' (omega arith))
                          (λ q _. by_ok _)))
            ]
          ]
    ]

  -- With a fuel of the number of the paths times two more than the words of the longest text, loading
  -- ends, with the import graph, with the error of a circular import, or with a panic, when the root
  -- file is one of the paths, and each file that is read has no more words than that and imports only
  -- files of the paths. The files may import one another in a circle.
  pub load-ne-hang :
      (fuel : ℕ) (root : Str)
      → any_path root paths ≡ true
      → All (λ q. TextIn (read q)) paths
      → length paths * (width + 2) ≤ fuel
      → load read split w_filename fuel root ≢ hang
  unfolding load any_path
  load-ne-hang fuel root a all h = Ends-ne-hang (
      add_mmz_aux-Ends fuel root (no_files read split w_filename) all tt a refl refl
        (omega (arith, mul-le-mul_right (width + 2) (unseen-le_length [] [] paths), h)))
