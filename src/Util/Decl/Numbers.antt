-- ===== src/Util/Decl/Numbers.antt =====
-- src/util.rs, `DeclIter`: the numbers of the declarations.
use second_opinion.Prelude.{
  ℕ, zero, suc, ◌+◌, ◌<◌, ◌^◌, List, [], ◌∷◌, Bool, true, false, length, Option, none, some, ◌≡◌,
  refl, subst, sym, Res, ok, fits, ◌>>=◌, >>=-eq-ok, ok_inj, hang≢ok, ltb, if◌then◌else◌, ltb→lt,
  panic, panic≢ok,
}
use second_opinion.Util.Stmt.{StmtCmd, sort_stmt, axiom_stmt, termdef, thm}
use second_opinion.Util.Outline.{Outline, new_from}
use second_opinion.Util.Decl.{
  DeclIter, number_stmt, try_next_decl, decl_next, next_of, collect, collect_step,
}
use second_opinion.Util.Header.{parse_header, parse_index}
use second_opinion.Mmb.ProofCmd.{ProofIter}

-- The declarations have the numbers `s`, `t` and `a` onwards: sorts are counted, and terms with
-- definitions, and axioms with theorems. The number behind it fits a byte for a sort, and 32 bits for
-- the others.
abbrev pub NumberedFrom : ℕ → ℕ → ℕ → List (StmtCmd × ProofIter) → Type 0
NumberedFrom s t a [] = Unit
NumberedFrom s t a ((sort_stmt n, pr) ∷ ds) =
    (n ≡ some s) × (s + 1 < 2 ^ 8) × NumberedFrom (s + 1) t a ds
NumberedFrom s t a ((termdef n l, pr) ∷ ds) =
    (n ≡ some t) × (t + 1 < 2 ^ 32) × NumberedFrom s (t + 1) a ds
NumberedFrom s t a ((axiom_stmt n, pr) ∷ ds) =
    (n ≡ some a) × (a + 1 < 2 ^ 32) × NumberedFrom s t (a + 1) ds
NumberedFrom s t a ((thm n l, pr) ∷ ds) =
    (n ≡ some a) × (a + 1 < 2 ^ 32) × NumberedFrom s t (a + 1) ds

abbrev From : DeclIter → List (StmtCmd × ProofIter) → Type 0
From it ds = NumberedFrom it.next_sort_num it.next_termdef_num it.next_assert_num ds

fits-eq-ok : (w n : ℕ) {k : ℕ} → fits w n ≡ ok k → (k ≡ n) × (n < 2 ^ w)
fits-eq-ok w n {k} e = (result.0, ltb→lt n (2 ^ w) result.1)
  where
    split : (b : Bool) → (if b then ok n else panic) ≡ ok k → (k ≡ n) × (b ≡ true)
    split true e' = (sym (ok_inj e'), refl)
    split false e' = absurd (panic≢ok e')

    result : (k ≡ n) × (ltb n (2 ^ w) ≡ true)
    result = split (ltb n (2 ^ w)) e

-- A declaration that `number_stmt` numbers goes in front of those that the new iterator numbers.
number_stmt-From :
    (it : DeclIter) (stmt : StmtCmd) {stmt' : StmtCmd} {it' : DeclIter} (pr : ProofIter)
    (ds : List (StmtCmd × ProofIter))
    → number_stmt it stmt ≡ ok (stmt', it')
    → From it' ds
    → From it ((stmt', pr) ∷ ds)
unfolding number_stmt
number_stmt-From it (sort_stmt n) pr ds e h =
    let (k, e1, e2) = >>=-eq-ok (fits 8 (it.next_sort_num + 1)) _ e in
    let (same, small) = fits-eq-ok 8 (it.next_sort_num + 1) e1 in
    subst (λ x. From x.1 ds → From it ((x.0, pr) ∷ ds)) (ok_inj e2)
      (λ h'. (
        refl,
        small,
        subst (λ k'. NumberedFrom k' it.next_termdef_num it.next_assert_num ds) same h',
      ))
      h
number_stmt-From it (termdef n l) pr ds e h =
    let (k, e1, e2) = >>=-eq-ok (fits 32 (it.next_termdef_num + 1)) _ e in
    let (same, small) = fits-eq-ok 32 (it.next_termdef_num + 1) e1 in
    subst (λ x. From x.1 ds → From it ((x.0, pr) ∷ ds)) (ok_inj e2)
      (λ h'.
        (refl, small, subst (λ k'. NumberedFrom it.next_sort_num k' it.next_assert_num ds) same h'))
      h
number_stmt-From it (axiom_stmt n) pr ds e h =
    let (k, e1, e2) = >>=-eq-ok (fits 32 (it.next_assert_num + 1)) _ e in
    let (same, small) = fits-eq-ok 32 (it.next_assert_num + 1) e1 in
    subst (λ x. From x.1 ds → From it ((x.0, pr) ∷ ds)) (ok_inj e2)
      (λ h'. (
        refl,
        small,
        subst (λ k'. NumberedFrom it.next_sort_num it.next_termdef_num k' ds) same h',
      ))
      h
number_stmt-From it (thm n l) pr ds e h =
    let (k, e1, e2) = >>=-eq-ok (fits 32 (it.next_assert_num + 1)) _ e in
    let (same, small) = fits-eq-ok 32 (it.next_assert_num + 1) e1 in
    subst (λ x. From x.1 ds → From it ((x.0, pr) ∷ ds)) (ok_inj e2)
      (λ h'. (
        refl,
        small,
        subst (λ k'. NumberedFrom it.next_sort_num it.next_termdef_num k' ds) same h',
      ))
      h

next_of-From :
    (it : DeclIter) (o : Option (StmtCmd × ProofIter × ℕ))
    (again : DeclIter → Res (List (StmtCmd × ProofIter)))
    {r : Option ((StmtCmd × ProofIter) × DeclIter)} {ds : List (StmtCmd × ProofIter)}
    → ((it' : DeclIter) (ds' : List (StmtCmd × ProofIter)) → again it' ≡ ok ds' → From it' ds')
    → next_of it o ≡ ok r
    → collect_step again r ≡ ok ds
    → From it ds
next_of-From it none again {r} {ds} rest e f =
    let g : collect_step again none ≡ ok ds =
      subst (λ x. collect_step again x ≡ ok ds) (sym (ok_inj e)) f in
    subst (From it) (ok_inj g) tt
next_of-From it (some (stmt, pr, pos)) again {r} {ds} rest e f =
    let (q, e1, e2) = >>=-eq-ok (number_stmt it stmt) _ e in
    let it' : DeclIter = record q.1 { pos = pos } in
    let g : (again it' >>= λ ds'. ok ((q.0, pr) ∷ ds')) ≡ ok ds =
      subst (λ x. collect_step again x ≡ ok ds) (sym (ok_inj e2)) f in
    let (ds', g1, g2) = >>=-eq-ok (again it') _ g in
    subst (From it) (ok_inj g2) (number_stmt-From it stmt pr ds' e1 (rest it' ds' g1))

collect-From :
    (fuel : ℕ) (it : DeclIter) (ds : List (StmtCmd × ProofIter))
    → collect fuel it ≡ ok ds
    → From it ds
unfolding collect decl_next
collect-From zero it ds e = absurd (hang≢ok e)
collect-From (suc fuel) it ds e =
    let (r, e1, e2) = >>=-eq-ok (decl_next it) _ e in
    let (o, e3, e4) = >>=-eq-ok (try_next_decl it.mmb it.pos) _ e1 in
    next_of-From it o (collect fuel) (collect-From fuel) e4 e2

-- When the outline of a file has been read, its declarations are numbered from 0 on, in the order of
-- the file: the sorts, the terms together with the definitions, and the axioms together with the
-- theorems. The number that would follow fits a byte for a sort, and 32 bits for the others.
pub new_from-NumberedFrom :
    (mmb : List ℕ) {o : Outline} → new_from mmb ≡ ok o → NumberedFrom 0 0 0 o.declarations
unfolding new_from
new_from-NumberedFrom mmb {o} e =
    let (header, e1, e2) = >>=-eq-ok (parse_header mmb) _ e in
    let (index, e3, e4) = >>=-eq-ok (parse_index mmb header) _ e2 in
    let it : DeclIter = record {
      mmb = mmb;
      pos = header.proof_stream_start;
      next_sort_num = 0;
      next_termdef_num = 0;
      next_assert_num = 0;
    } in
    let (ds, e5, e6) = >>=-eq-ok (collect (suc (length mmb)) it) _ e4 in
    subst (λ (x : Outline). NumberedFrom 0 0 0 x.declarations) (ok_inj e6)
      (collect-From (suc (length mmb)) it ds e5)
