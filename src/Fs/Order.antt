-- ===== src/Fs/Order.antt =====
-- src/fs.rs: a file stands behind those that it imports.
use second_opinion.Prelude.{
  ℕ, zero, suc, true, List, [], ◌∷◌, ◌++◌, snoc, append-snoc, append-nil, last?, ◌≡◌, subst, refl,
  sym, ap, ◌∙◌, Option, some, ok, unwrap, unwrap-eq-ok, >>=-eq-ok, ok_inj, hang≢ok, panic≢ok,
  err≢ok, Bool-cases, inl, inr, arith,
}
use second_opinion.Mmz.Data.{Str, str_eq}
use second_opinion.Fs.{
  ImportGraph, ImportGraphs, FileData, any_path, at_end, skipped, import_of, next_import, finish,
  of_imports, add_mmz_aux, find_imports, load, no_files,
}
use second_opinion.Fs.Branches.{
  end, bad, skip, import, next_cases, at_end_eq, bad_eq, skipped_eq, done_eq, cycle_eq, new_eq,
}

str_eq_refl : (s : Str) → str_eq s s ≡ true
unfolding str_eq
str_eq_refl [] = refl
str_eq_refl (a ∷ s) = rw (str_eq_refl s) (ground arith)

any_path-last : (p : Str) (ps : List Str) → any_path p (snoc ps p) ≡ true
unfolding any_path
any_path-last p [] = rw (str_eq_refl p) refl
any_path-last p (q ∷ ps) = rw (any_path-last p ps) (ground arith)

any_path-snoc : (q p : Str) (ps : List Str) → any_path q ps ≡ true → any_path q (snoc ps p) ≡ true
unfolding any_path
any_path-snoc q p [] h = ground arith
any_path-snoc q p (r ∷ ps) h = elim (Bool-cases (str_eq r q)) [
  | inl same ↦ rw same refl
  | inr other ↦ rw other (any_path-snoc q p ps (rw other at h))
]

last?-snoc : (ps : List Str) (p : Str) → last? (snoc ps p) ≡ some p
last?-snoc [] p = refl
last?-snoc (q ∷ []) p = refl
last?-snoc (q ∷ r ∷ ps) p = last?-snoc (r ∷ ps) p

-- A property of the names that the words import, as `find_imports` reads them.
pub data AllImports (P : Str → Type 0) : List Str → Type 0 where
  no_more : {ws : List Str} → next_import ws ≡ at_end → AllImports P ws
  pass :
      {ws : List Str} (ws' : List Str)
      → next_import ws ≡ skipped ws'
      → AllImports P ws'
      → AllImports P ws
  imports :
      {ws : List Str} (n : Str) (ws' : List Str)
      → next_import ws ≡ import_of n ws'
      → P n
      → AllImports P ws'
      → AllImports P ws

AllImports-map :
    (P Q : Str → Type 0) {ws : List Str}
    → ((n : Str) → P n → Q n)
    → AllImports P ws
    → AllImports Q ws
AllImports-map P Q f (no_more e) = no_more e
AllImports-map P Q f (pass ws' e a) = pass ws' e (AllImports-map P Q f a)
AllImports-map P Q f (imports n ws' e p a) = imports n ws' e (f n p) (AllImports-map P Q f a)

module _ (read : Str → Option Str) (split : Str → List Str) (w_filename : Str → Str) where
  -- The names that a text imports are among the paths.
  abbrev pub ImportsIn : List Str → Str → Type 0
  ImportsIn paths s = AllImports (λ n. any_path (w_filename n) paths ≡ true) (split s)

  -- Each path has brought its text, and what the text imports stands before it.
  abbrev pub InOrder : List Str → List Str → List Str → Type 0
  InOrder before [] [] = Unit
  InOrder before [] (s ∷ ss) = ⊥
  InOrder before (p ∷ ps) [] = ⊥
  InOrder before (p ∷ ps) (s ∷ ss) =
      (read p ≡ some s) × ImportsIn before s × InOrder (snoc before p) ps ss

  InOrder-snoc :
      (before ps ss : List Str) (p s : Str)
      → InOrder before ps ss
      → read p ≡ some s
      → ImportsIn (before ++ ps) s
      → InOrder before (snoc ps p) (snoc ss s)
  InOrder-snoc before [] [] p s h r i = (r, subst (λ k. ImportsIn k s) (append-nil before) i, tt)
  InOrder-snoc before [] (t ∷ ss) p s h r i = absurd h
  InOrder-snoc before (q ∷ ps) [] p s h r i = absurd h
  InOrder-snoc before (q ∷ ps) (t ∷ ss) p s h r i = (
    h.0,
    h.1,
    InOrder-snoc (snoc before q) ps ss p s h.2 r
        (subst (λ k. ImportsIn k s) (sym (append-snoc before q ps)) i),
  )

  -- What a call does to the state: the files stay in order, and no path is lost.
  pub record Extends (d d' : FileData) : Type 0 where
    pub ordered : InOrder [] d'.done d'.mmz_files
    pub same_todos : d'.todos ≡ d.todos
    pub grows : (q : Str) → any_path q d.done ≡ true → any_path q d'.done ≡ true

  finish-Extends :
      (p s : Str) (gs : ImportGraphs) (d d1 : FileData) {g : ImportGraph} {d' : FileData}
      → Extends (record d { todos = p ∷ d.todos }) d1
      → read p ≡ some s
      → ImportsIn d1.done s
      → finish read split w_filename p s (gs, d1) ≡ ok (g, d')
      → Extends d d' × (any_path p d'.done ≡ true) × (last? d'.done ≡ some p)
  unfolding finish
  finish-Extends p s gs d d1 {d' = d'} x r i h =
      let moved : FileData = record {
        mmz_files = snoc d1.mmz_files s;
        todos = d.todos;
        done = snoc d1.done p;
      } in
      let end : finish read split w_filename p s (gs, d1)
          ≡ ok (of_imports read split w_filename p gs, moved) =
        rw (x.same_todos, finish) refl in
      let result : moved ≡ d' = ap (λ z. z.1) (ok_inj (sym end ∙ h)) in
      subst (λ z. Extends d z × (any_path p z.done ≡ true) × (last? z.done ≡ some p)) result
        (
          record {
            ordered = InOrder-snoc [] d1.done d1.mmz_files p s x.ordered r i;
            same_todos = refl;
            grows = λ q a. any_path-snoc q p d1.done (x.grows q a);
          },
          any_path-last p d1.done,
          last?-snoc d1.done p,
        )

  Extends-then : {d1 d2 d3 : FileData} → Extends d1 d2 → Extends d2 d3 → Extends d1 d3
  Extends-then x y = record {
    ordered = y.ordered;
    same_todos = y.same_todos ∙ x.same_todos;
    grows = λ q h. y.grows q (x.grows q h);
  }

  mutual
    unfolding add_mmz_aux

    pub add_mmz_aux-Extends :
        (fuel : ℕ) (p : Str) (d : FileData) {g : ImportGraph} {d' : FileData}
        → InOrder [] d.done d.mmz_files
        → add_mmz_aux read split w_filename fuel p d ≡ ok (g, d')
        → Extends d d' × (any_path p d'.done ≡ true) × (last? d'.done ≡ some p)
    add_mmz_aux-Extends zero p d o h = absurd (hang≢ok h)
    add_mmz_aux-Extends (suc fuel) p d o h =
        let (s, h1, h2) = >>=-eq-ok (unwrap (read p)) _ h in
        let (found, h3, h4) =
          >>=-eq-ok
            (find_imports read split w_filename fuel (split s) (record d { todos = p ∷ d.todos })) _
            h2 in
        let (x, i) = find_imports-Extends fuel (split s) (record d { todos = p ∷ d.todos }) o h3 in
        finish-Extends p s found.0 d found.1 x (unwrap-eq-ok (read p) h1) i h4

    find_imports-Extends :
        (fuel : ℕ) (ws : List Str) (d : FileData) {gs : ImportGraphs} {d' : FileData}
        → InOrder [] d.done d.mmz_files
        → find_imports read split w_filename fuel ws d ≡ ok (gs, d')
        → Extends d d' × AllImports (λ n. any_path (w_filename n) d'.done ≡ true) ws
    find_imports-Extends zero ws d o h = absurd (hang≢ok h)
    find_imports-Extends (suc fuel) ws d {d' = d'} o h = elim (next_cases (next_import ws)) [
      | end e ↦
          let same : d ≡ d' =
            ap (λ r. r.1) (ok_inj (sym (at_end_eq read split w_filename fuel ws d e) ∙ h)) in
          (
            subst (Extends d) same (record { ordered = o; same_todos = refl; grows = λ q a. a }),
            no_more e,
          )
      | bad e ↦ absurd (panic≢ok (sym (bad_eq read split w_filename fuel ws d e) ∙ h))
      | skip ws' e ↦
          let (x, i) =
            find_imports-Extends fuel ws' d o
              (sym (skipped_eq read split w_filename fuel ws ws' d e) ∙ h) in
          (x, pass ws' e i)
      | import n ws' e ↦ elim (Bool-cases (any_path (w_filename n) d.done)) [
        | inl known ↦
            let (x, i) =
              find_imports-Extends fuel ws' d o
                (sym (done_eq read split w_filename fuel ws ws' n d e known) ∙ h) in
            (x, imports n ws' e (x.grows (w_filename n) known) i)
        | inr new ↦ elim (Bool-cases (any_path (w_filename n) d.todos)) [
          | inl cycle ↦
              absurd (err≢ok (sym (cycle_eq read split w_filename fuel ws ws' n d e new cycle) ∙ h))
          | inr free ↦
              let (r, h1, h2) =
                >>=-eq-ok (add_mmz_aux read split w_filename fuel (w_filename n) d) _
                  (sym (new_eq read split w_filename fuel ws ws' n d e new free) ∙ h) in
              let (q, h3, h4) = >>=-eq-ok (find_imports read split w_filename fuel ws' r.1) _ h2 in
              let (x, there, _) = add_mmz_aux-Extends fuel (w_filename n) d o h1 in
              let (y, i) = find_imports-Extends fuel ws' r.1 x.ordered h3 in
              subst (λ z. Extends d z × AllImports (λ k. any_path (w_filename k) z.done ≡ true) ws)
                (ap (λ z. z.1) (ok_inj h4))
                (Extends-then x y, imports n ws' e (y.grows (w_filename n) there) i)
        ]
      ]
    ]

  -- When the import graph has been made, the files stand in an order in which each one is behind all
  -- that it imports, and the root file is the last. The texts are those of the paths, in the same order.
  -- The file system and the functions on paths and strings may be any.
  pub load-InOrder :
      (fuel : ℕ) (root : Str) {g : ImportGraph} {d : FileData}
      → load read split w_filename fuel root ≡ ok (g, d)
      → InOrder [] d.done d.mmz_files × (last? d.done ≡ some root)
  unfolding load
  load-InOrder fuel root h =
      let (x, _, last) = add_mmz_aux-Extends fuel root (no_files read split w_filename) tt h in
      (x.ordered, last)
