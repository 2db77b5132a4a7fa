-- ===== src/Main/Accepts.antt =====
-- src/main.rs, `verify_serial`: what has been checked when no error is reported.
use second_opinion.Prelude.{
  ℕ, ◌+◌, ◌%◌, ◌^◌, List, [], ◌∷◌, ◌++◌, snoc, All, ◌==◌, Bool-cases, ==_iff, inl, inr, ◌⊎◌, ◌≡◌,
  refl, sym, ap, ◌∙◌, Res, ok, err, panic, hang, msg, VerifErr, unwrap_res, unwrap_res-eq-ok,
  >>=-eq-ok, ok_inj, hang≢ok, panic≢ok, arith,
}
use second_opinion.Util.Stmt.{StmtCmd, sort_stmt, termdef, axiom_stmt, thm}
use second_opinion.Util.Decl.Numbers.{NumberedFrom, new_from-NumberedFrom}
use second_opinion.Util.Outline.{Outline, Counters, new_from, add_declar}
use second_opinion.Mmb.State.{MmbState}
use second_opinion.Mmb.Verify.{check_decl}
use second_opinion.Mmz.Mem.{MmzMem, new_mem}
use second_opinion.Mmz.Until as Mmz
use second_opinion.Mmz.Until.Reads.{Admits, verify1-Admits}
use second_opinion.Main.{
  Declar, count_err, assert_mmz_done, assert_mmb_done, mmz_loop, verify_mmz, noted, mmb_loop,
  no_declar, verify_serial,
}
use second_opinion.Main.Weights.{total}
use second_opinion.Main.Counts.{is_sort, is_termdef, is_assert}

-- The specification admits the declarations one behind the other: for each that is not local, a
-- statement has been read.
abbrev pub SpecReads : List Declar → MmzMem → MmzMem → Type 0
SpecReads [] m m' = m ≡ m'
SpecReads (d ∷ ds) m m' = (next : MmzMem) × Admits d.0 m next × SpecReads ds next m'

-- The declaration passes the check of its proof.
abbrev pub Checks : Outline → Declar → Type 0
Checks o d = (s : MmbState) × (check_decl o d.0 d.1 ≡ ok s)

pub append-eq-nil : (xs ys : List VerifErr) → xs ++ ys ≡ [] → (xs ≡ []) × (ys ≡ [])
append-eq-nil [] ys e = (refl, e)
append-eq-nil (x ∷ xs) ys e = cc

snoc≢nil : (xs : List VerifErr) (x : VerifErr) → ¬ (snoc xs x ≡ [])
snoc≢nil [] x e = cc
snoc≢nil (y ∷ xs) x e = cc

count_err-nil : (n k : ℕ) → count_err n k ≡ [] → n ≡ k
count_err-nil n k e = elim (Bool-cases (n == k)) [
  | inl same ↦ (==_iff n k).0 same
  | inr other ↦ absurd (some_err (rw other at e))
]
  where
    some_err : ¬ (msg ∷ [] ≡ [])
    some_err h = cc

-- The loop of `verify_mmz` reports nothing only if nothing failed.
pub mmz_loop-SpecReads :
    (o : Outline) (ds : List Declar) (errs : List VerifErr) (mem : MmzMem)
    → mmz_loop o ds errs mem ≡ ok []
    → (errs ≡ []) × (mem' : MmzMem) × SpecReads ds mem mem' × (assert_mmz_done o mem' ≡ [])
unfolding mmz_loop
mmz_loop-SpecReads o [] errs mem e =
    let (a, b) = append-eq-nil errs (assert_mmz_done o mem) (ok_inj e) in (a, mem, refl, b)
mmz_loop-SpecReads o ((stmt, pr) ∷ ds) errs mem e =
    go (Mmz.verify1 stmt mem) refl e (mmz_loop-SpecReads o ds)
  where
    go :
        (r : Res (Unit {0}) × MmzMem)
        → Mmz.verify1 stmt mem ≡ r
        → elim r.0 [
          | ok _ ↦ mmz_loop o ds errs r.1
          | err x ↦ mmz_loop o ds (snoc errs x) r.1
          | panic ↦ panic
          | hang ↦ hang
        ]
          ≡ ok []
        → ((errs' : List VerifErr) (m : MmzMem)
            → mmz_loop o ds errs' m ≡ ok []
            → (errs' ≡ []) × (mem' : MmzMem) × SpecReads ds m mem' × (assert_mmz_done o mem' ≡ []))
        → (errs ≡ [])
          × (mem' : MmzMem) × SpecReads ((stmt, pr) ∷ ds) mem mem'
          × (assert_mmz_done o mem' ≡ [])
    go (ok u, m) same f rest =
        let (a, mem', b, c) = rest errs m f in (a, mem', (m, verify1-Admits stmt mem m same, b), c)
    go (err x, m) same f rest = absurd (snoc≢nil errs x (rest (snoc errs x) m f).0)
    go (panic, m) same f rest = absurd (panic≢ok f)
    go (hang, m) same f rest = absurd (hang≢ok f)

-- The counters after a list of declarations that all pass.
pub counted : Counters → List Declar → Counters
counted c [] = c
counted c (d ∷ ds) = counted (add_declar c d.0) ds

noted-ok :
    (stmt : StmtCmd) (r : Res MmbState) (errs : List VerifErr) (c : Counters)
    {errs' : List VerifErr} {c' : Counters}
    → noted stmt r errs c ≡ ok (errs', c')
    → ((s : MmbState) × (r ≡ ok s) × (errs' ≡ errs) × (c' ≡ add_declar c stmt))
      ⊎ ((x : VerifErr) × (errs' ≡ snoc errs x))
unfolding noted
noted-ok stmt (ok s) errs c e =
    inl (s, refl, ap (λ x. x.0) (sym (ok_inj e)), ap (λ x. x.1) (sym (ok_inj e)))
noted-ok stmt (err x) errs c e = inr (x, ap (λ y. y.0) (sym (ok_inj e)))
noted-ok stmt panic errs c e = absurd (panic≢ok e)
noted-ok stmt hang errs c e = absurd (hang≢ok e)

pub mmb_loop-Checks :
    (o : Outline) (ds : List Declar) (errs : List VerifErr) (c : Counters) {c' : Counters}
    → mmb_loop o ds errs c ≡ ok ([], c')
    → (errs ≡ []) × All (Checks o) ds × (c' ≡ counted c ds)
unfolding mmb_loop counted
mmb_loop-Checks o [] errs c e = (ap (λ x. x.0) (ok_inj e), tt, ap (λ x. x.1) (sym (ok_inj e)))
mmb_loop-Checks o ((stmt, pr) ∷ ds) errs c {c'} e =
    let (r, e1, e2) = >>=-eq-ok (noted stmt (check_decl o stmt pr) errs c) _ e in
    let (a, b, d) = mmb_loop-Checks o ds r.0 r.1 e2 in
    elim (noted-ok stmt (check_decl o stmt pr) errs c e1) [
      | inl (s, passed, f, g) ↦
          (sym f ∙ a, ((s, passed), b), d ∙ ap (λ (x : Counters). counted x ds) g)
      | inr (x, f) ↦ absurd (snoc≢nil errs x (sym f ∙ a))
    ]

-- With the numbers of the declarations no counter wraps.
record CountsUp (ds : List Declar) (c c' : Counters) : Type 0 where
  pub sorts : c'.num_sorts_done ≡ c.num_sorts_done + total (λ d. is_sort d.0) ds
  pub termdefs : c'.num_termdefs_done ≡ c.num_termdefs_done + total (λ d. is_termdef d.0) ds
  pub asserts : c'.num_asserts_done ≡ c.num_asserts_done + total (λ d. is_assert d.0) ds

counted-CountsUp :
    (ds : List Declar) (c : Counters)
    → NumberedFrom c.num_sorts_done c.num_termdefs_done c.num_asserts_done ds
    → CountsUp ds c (counted c ds)
unfolding counted add_declar
counted-CountsUp [] c h = omega arith
counted-CountsUp ((sort_stmt n, pr) ∷ ds) c h =
    let same : (c.num_sorts_done + 1) % 2 ^ 8 ≡ c.num_sorts_done + 1 = omega arith in
    let next = counted-CountsUp ds (add_declar c (sort_stmt n)) (rw same h.2) in omega (arith, next)
counted-CountsUp ((termdef n l, pr) ∷ ds) c h =
    let same : (c.num_termdefs_done + 1) % 2 ^ 32 ≡ c.num_termdefs_done + 1 = omega arith in
    let next = counted-CountsUp ds (add_declar c (termdef n l)) (rw same h.2) in omega (arith, next)
counted-CountsUp ((axiom_stmt n, pr) ∷ ds) c h =
    let same : (c.num_asserts_done + 1) % 2 ^ 32 ≡ c.num_asserts_done + 1 = omega arith in
    let next = counted-CountsUp ds (add_declar c (axiom_stmt n)) (rw same h.2) in
    omega (arith, next)
counted-CountsUp ((thm n l, pr) ∷ ds) c h =
    let same : (c.num_asserts_done + 1) % 2 ^ 32 ≡ c.num_asserts_done + 1 = omega arith in
    let next = counted-CountsUp ds (add_declar c (thm n l)) (rw same h.2) in omega (arith, next)

pub three_counts :
    (a b c a' b' c' : ℕ)
    → count_err a a' ++ (count_err b b' ++ count_err c c') ≡ []
    → (a ≡ a') × (b ≡ b') × (c ≡ c')
three_counts a b c a' b' c' e =
    let (e1, e2) = append-eq-nil (count_err a a') _ e in
    let (e3, e4) = append-eq-nil (count_err b b') _ e2 in
    (count_err-nil a a' e1, count_err-nil b b' e3, count_err-nil c c' e4)

-- Every declaration passes the check of its proof, the specification admits each in the same order,
-- and its counts are the header's.
pub record Passes (o : Outline) (files : List (List ℕ)) : Type 0 where
  pub first : MmzMem
  pub last : MmzMem
  pub checked : All (Checks o) o.declarations
  pub opened : new_mem o files ≡ ok first
  pub read : SpecReads o.declarations first last
  pub counts :
      (last.num_sorts ≡ o.header.num_sorts)
      × (last.num_termdefs ≡ o.header.num_terms)
      × (last.num_asserts ≡ o.header.num_thms)

pub Passes-from :
    (o : Outline) (files : List (List ℕ))
    → All (Checks o) o.declarations
    → verify_mmz o files ≡ ok []
    → Passes o files
unfolding verify_mmz assert_mmz_done
Passes-from o files checks e =
    let (mem, e1, e2) = >>=-eq-ok (unwrap_res (new_mem o files)) _ e in
    let (_, mem', reads, counts) = mmz_loop-SpecReads o o.declarations [] mem e2 in
    record {
      first = mem;
      last = mem';
      checked = checks;
      opened = unwrap_res-eq-ok (new_mem o files) e1;
      read = reads;
      counts = three_counts _ _ _ _ _ _ counts;
    }

-- The header has the numbers of the declarations.
pub record Accepted (o : Outline) (files : List (List ℕ)) : Type 0 where
  pub passes : Passes o files
  pub sorts : o.header.num_sorts ≡ total (λ d. is_sort d.0) o.declarations
  pub terms : o.header.num_terms ≡ total (λ d. is_termdef d.0) o.declarations
  pub asserts : o.header.num_thms ≡ total (λ d. is_assert d.0) o.declarations

-- When `verify_serial` reports no error on the outline of a file, every declaration has passed the
-- check of its proof, the specification has admitted every declaration in their order, where for each
-- that is not local it has read on to a sort, to a term that it has compared with the declaration's, or
-- to an axiom or theorem that it has compared with the declaration's, and the header has the right
-- numbers of sorts, of terms and definitions, and of axioms and theorems, which are those that the
-- specification side has counted too.
pub verify_serial-Accepted :
    (mmb : List ℕ) (files : List (List ℕ)) {o : Outline}
    → new_from mmb ≡ ok o
    → verify_serial o files ≡ ok []
    → Accepted o files
unfolding verify_serial assert_mmb_done
verify_serial-Accepted mmb files {o} outline e =
    let (mmz_errs, e1, e2) = >>=-eq-ok (verify_mmz o files) _ e in
    let (r, e3, e4) = >>=-eq-ok (mmb_loop o o.declarations [] no_declar) _ e2 in
    let (both, mmb_counts) = append-eq-nil (mmz_errs ++ r.0) _ (ok_inj e4) in
    let (mmz_none, mmb_none) = append-eq-nil mmz_errs r.0 both in
    let (_, checks, end) =
      mmb_loop-Checks o o.declarations [] no_declar (e3 ∙ ap (λ x. ok (x, r.1)) mmb_none) in
    let up = counted-CountsUp o.declarations no_declar (new_from-NumberedFrom mmb outline) in
    let (s, t, a) = three_counts _ _ _ _ _ _ mmb_counts in
    record {
      passes = Passes-from o files checks (e1 ∙ ap (λ x. ok x) mmz_none);
      sorts = sym s ∙ ap (λ (x : Counters). x.num_sorts_done) end ∙ up.sorts ∙ omega arith;
      terms = sym t ∙ ap (λ (x : Counters). x.num_termdefs_done) end ∙ up.termdefs ∙ omega arith;
      asserts = sym a ∙ ap (λ (x : Counters). x.num_asserts_done) end ∙ up.asserts ∙ omega arith;
    }
