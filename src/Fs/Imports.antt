-- ===== src/Fs/Imports.antt =====
-- src/fs.rs: no file is loaded twice.
use second_opinion.Prelude.{
  ℕ, zero, suc, Bool, true, false, List, [], ◌∷◌, snoc, length, length-snoc, All, if◌then◌else◌,
  ◌≡◌, ◌≢◌, subst, refl, sym, ap, ◌∙◌, Option, ok, err, panic, msg, unwrap, >>=-eq-ok, ok_inj,
  hang≢ok, Bool-cases, inl, inr, arith,
}
use second_opinion.Mmz.Data.{Str, str_eq}
use second_opinion.Fs.Branches.{
  end, bad, skip, import, next_cases, at_end_eq, bad_eq, skipped_eq, done_eq, cycle_eq, new_eq,
}
use second_opinion.Fs.{
  ImportGraph, ImportGraphs, FileData, any_path, next_import, finish, of_imports, add_mmz_aux,
  find_imports, load, no_files,
}

pub str_eq_comm : (s t : Str) → str_eq s t ≡ str_eq t s
unfolding str_eq
str_eq_comm [] [] = refl
str_eq_comm [] (b ∷ t) = refl
str_eq_comm (a ∷ s) [] = refl
str_eq_comm (a ∷ s) (b ∷ t) = rw (str_eq_comm s t) (ground arith)

-- No path stands twice in the list.
abbrev pub Distinct : List Str → Type 0
Distinct [] = Unit
Distinct (p ∷ ps) = (any_path p ps ≡ false) × Distinct ps

neither : (b c : Bool) → (if b then true else c) ≡ false → (b ≡ false) × (c ≡ false)
neither true c h = ground arith
neither false c h = (refl, h)

any_path-snoc :
    (q p : Str) (ps : List Str)
    → any_path q ps ≡ false
    → str_eq p q ≡ false
    → any_path q (snoc ps p) ≡ false
unfolding any_path
any_path-snoc q p [] h e = rw e refl
any_path-snoc q p (r ∷ ps) h e =
    let (first, rest) = neither (str_eq r q) (any_path q ps) h in
    rw first (any_path-snoc q p ps rest e)

Distinct-snoc :
    (ps : List Str) (p : Str) → Distinct ps → any_path p ps ≡ false → Distinct (snoc ps p)
unfolding any_path
Distinct-snoc [] p d h = (refl, tt)
Distinct-snoc (q ∷ ps) p d h =
    let (first, rest) = neither (str_eq q p) (any_path p ps) h in
    (any_path-snoc q p ps d.0 (str_eq_comm p q ∙ first), Distinct-snoc ps p d.1 rest)

-- No path of the second list stands in the first.
abbrev pub Apart : List Str → List Str → Type 0
Apart done todos = All (λ q. any_path q done ≡ false) todos

Apart-snoc :
    (done : List Str) (p : Str) (todos : List Str)
    → Apart done todos
    → any_path p todos ≡ false
    → Apart (snoc done p) todos
unfolding any_path
Apart-snoc done p [] a h = tt
Apart-snoc done p (q ∷ todos) a h =
    let (first, rest) = neither (str_eq q p) (any_path p todos) h in
    (any_path-snoc q p done a.0 (str_eq_comm p q ∙ first), Apart-snoc done p todos a.1 rest)

-- The paths that are done and those that are being read are all different, and each done path has
-- brought one file.
pub record AllDistinct (d : FileData) : Type 0 where
  pub done_distinct : Distinct d.done
  pub todos_distinct : Distinct d.todos
  pub apart : Apart d.done d.todos
  pub one_file_each : length d.mmz_files ≡ length d.done

panic≢ok : {A : Type 0} {a : A} → panic ≢ ok a
panic≢ok e = cc

err≢ok : {A : Type 0} {a : A} → err msg ≢ ok a
err≢ok e = cc

module _ (read : Str → Option Str) (split : Str → List Str) (w_filename : Str → Str) where
  finish-AllDistinct :
      (p s : Str) (todos : List Str) (gs : ImportGraphs) (d : FileData) {g : ImportGraph}
      {d' : FileData}
      → AllDistinct d
      → d.todos ≡ p ∷ todos
      → finish read split w_filename p s (gs, d) ≡ ok (g, d')
      → AllDistinct d' × (d'.todos ≡ todos)
  unfolding finish
  finish-AllDistinct p s todos gs d inv e h =
      let moved : FileData = record {
        mmz_files = snoc d.mmz_files s;
        todos = todos;
        done = snoc d.done p;
      } in
      let all : Distinct (p ∷ todos) = subst Distinct e inv.todos_distinct in
      let apart : Apart d.done (p ∷ todos) = subst (Apart d.done) e inv.apart in
      let end : finish read split w_filename p s (gs, d)
          ≡ ok (of_imports read split w_filename p gs, moved) =
        rw (e, finish) refl in
      subst (λ x. AllDistinct x × (x.todos ≡ todos)) (ap (λ r. r.1) (ok_inj (sym end ∙ h)))
        (
          record {
            done_distinct = Distinct-snoc d.done p inv.done_distinct apart.0;
            todos_distinct = all.1;
            apart = Apart-snoc d.done p todos apart.1 all.0;
            one_file_each =
                length-snoc d.mmz_files s ∙ ap suc inv.one_file_each ∙ sym (length-snoc d.done p);
          },
          refl,
        )

  mutual
    unfolding add_mmz_aux

    add_mmz_aux-AllDistinct :
        (fuel : ℕ) (p : Str) (d : FileData) {g : ImportGraph} {d' : FileData}
        → AllDistinct d
        → any_path p d.done ≡ false
        → any_path p d.todos ≡ false
        → add_mmz_aux read split w_filename fuel p d ≡ ok (g, d')
        → AllDistinct d' × (d'.todos ≡ d.todos)
    add_mmz_aux-AllDistinct zero p d inv a b h = absurd (hang≢ok h)
    add_mmz_aux-AllDistinct (suc fuel) p d inv a b h =
        let (s, h1, h2) = >>=-eq-ok (unwrap (read p)) _ h in
        let (found, h3, h4) =
          >>=-eq-ok
            (find_imports read split w_filename fuel (split s) (record d { todos = p ∷ d.todos })) _
            h2 in
        let (inv', same) =
          find_imports-AllDistinct fuel (split s) (record d { todos = p ∷ d.todos })
            (record {
              done_distinct = inv.done_distinct;
              todos_distinct = (b, inv.todos_distinct);
              apart = (a, inv.apart);
              one_file_each = inv.one_file_each;
            })
            h3 in
        finish-AllDistinct p s d.todos found.0 found.1 inv' same h4

    find_imports-AllDistinct :
        (fuel : ℕ) (ws : List Str) (d : FileData) {gs : ImportGraphs} {d' : FileData}
        → AllDistinct d
        → find_imports read split w_filename fuel ws d ≡ ok (gs, d')
        → AllDistinct d' × (d'.todos ≡ d.todos)
    find_imports-AllDistinct zero ws d inv h = absurd (hang≢ok h)
    find_imports-AllDistinct (suc fuel) ws d inv h = elim (next_cases (next_import ws)) [
      | end e ↦
          subst (λ x. AllDistinct x × (x.todos ≡ d.todos))
            (ap (λ r. r.1) (ok_inj (sym (at_end_eq read split w_filename fuel ws d e) ∙ h)))
            (inv, refl)
      | bad e ↦ absurd (panic≢ok (sym (bad_eq read split w_filename fuel ws d e) ∙ h))
      | skip ws' e ↦
          find_imports-AllDistinct fuel ws' d inv
            (sym (skipped_eq read split w_filename fuel ws ws' d e) ∙ h)
      | import n ws' e ↦ elim (Bool-cases (any_path (w_filename n) d.done)) [
        | inl known ↦
            find_imports-AllDistinct fuel ws' d inv
              (sym (done_eq read split w_filename fuel ws ws' n d e known) ∙ h)
        | inr new ↦ elim (Bool-cases (any_path (w_filename n) d.todos)) [
          | inl cycle ↦
              absurd (err≢ok (sym (cycle_eq read split w_filename fuel ws ws' n d e new cycle) ∙ h))
          | inr free ↦
              let (r, h1, h2) =
                >>=-eq-ok (add_mmz_aux read split w_filename fuel (w_filename n) d) _
                  (sym (new_eq read split w_filename fuel ws ws' n d e new free) ∙ h) in
              let (q, h3, h4) = >>=-eq-ok (find_imports read split w_filename fuel ws' r.1) _ h2 in
              let (inv1, same1) = add_mmz_aux-AllDistinct fuel (w_filename n) d inv new free h1 in
              let (inv2, same2) = find_imports-AllDistinct fuel ws' r.1 inv1 h3 in
              subst (λ x. AllDistinct x × (x.todos ≡ d.todos)) (ap (λ z. z.1) (ok_inj h4))
                (inv2, same2 ∙ same1)
        ]
      ]
    ]

  -- When the import graph has been made, no path has been loaded twice: the paths that are done are all
  -- different as strings, each has brought one text, and none is still being read. Two paths for
  -- one file count as two. The file system and the functions on paths and strings may be any.
  pub load-AllDistinct :
      (fuel : ℕ) (root : Str) {g : ImportGraph} {d : FileData}
      → load read split w_filename fuel root ≡ ok (g, d)
      → AllDistinct d × (d.todos ≡ [])
  unfolding load any_path
  load-AllDistinct fuel root h =
      add_mmz_aux-AllDistinct fuel root (no_files read split w_filename)
        (record { done_distinct = tt; todos_distinct = tt; apart = tt; one_file_each = refl }) refl
        refl h
