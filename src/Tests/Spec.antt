-- ===== src/Tests/Spec.antt =====
-- The theorems on the specification side at concrete inputs: modus ponens as a specification would
-- state it, and two coercions.
use second_opinion.Prelude.{List, [], ◌∷◌, false, ◌≡◌, refl, none, some, ok, hang, ◌>>=◌}
use second_opinion.Util.Ty.{ty}
use second_opinion.Util.Stmt.{axiom_stmt, thm}
use second_opinion.Mmb.Unify.{u_thm}
use second_opinion.Mmb.Unify.Pattern.{ref_pat}
use second_opinion.Mmz.Data.{
  Str, MmzVar, MmzExpr, MmzHyp, var, app, nil, cons, expr_sort, single, trans,
}
use second_opinion.Mmz.Map.{get}
use second_opinion.Mmz.Mem.{MmzMem}
use second_opinion.Mmz.Monad.{MmzState, new_state}
use second_opinion.Mmz.Coercion.{Coes, add_coe_raw, coerce, coerce_at, get_coe}
use second_opinion.Mmz.Coercion.Target.{HasTarget, coerce-HasTarget, coerce_at-endless}
use second_opinion.Mmz.Check.{check_expr}
use second_opinion.Mmz.Check.Machine.{
  check_expr-match_spec, match_spec, match_spec_hyps, at_hyps, start_heap,
}
use second_opinion.Mmz.Until.{verify1}
use second_opinion.Mmz.Until.Kinds.{verify1-kind}
use second_opinion.Tests.Examples.{short, arities, imp, mp_iter, mp-Decodes}

abbrev pub empty_mem : MmzMem
empty_mem = record {
  outline = short;
  mmz = [];
  mmz_files = [];
  mmz_file_num = 0;
  mmz_pos = 0;
  delims = [];
  consts = [];
  prefixes = [];
  infixes = [];
  occupied_precs = [];
  nonlocal_termdefs = [];
  nonlocal_asserts = [];
  sorts = [];
  provs = [];
  coes = [];
  coe_prov = [];
  num_sorts = 0;
  num_termdefs = 0;
  num_asserts = 0;
}

-- The variables `a` and `b`.
abbrev var_a : MmzVar
var_a = record { ident = some (97 ∷ []); pos = 0; ty = ty 0; is_dummy = false }

abbrev var_b : MmzVar
var_b = record { ident = some (98 ∷ []); pos = 1; ty = ty 0; is_dummy = false }

abbrev a_to_b : MmzExpr
a_to_b = app 0 2 (cons (var var_a) (cons (var var_b) nil)) 0

abbrev unnamed : MmzExpr → MmzHyp
unnamed e = record { ident = none; pos = none; expr = e }

-- The state before `check_expr`, and behind it.
abbrev parsed : List MmzHyp → MmzState
parsed hyps = record (new_state empty_mem) { vars_done = var_a ∷ var_b ∷ []; hyps = hyps }

abbrev mp_hyps : List MmzHyp
mp_hyps = unnamed (var var_a) ∷ unnamed a_to_b ∷ []

check_expr-match_spec_example : check_expr mp_iter (var var_b) u_thm (parsed mp_hyps) ≡ (
    match_spec u_thm (ref_pat 1) (var var_b) (start_heap (parsed mp_hyps)) >>= λ h.
    match_spec_hyps (ref_pat 0 ∷ imp ∷ []) mp_hyps h >>= λ r. ok (at_hyps (parsed mp_hyps) r.0 []))
check_expr-match_spec_example =
    check_expr-match_spec mp_iter arities (ref_pat 1) (ref_pat 0 ∷ imp ∷ []) (var var_b)
      (parsed mp_hyps) mp-Decodes tt (tt, ((refl, (tt, (tt, tt))), tt)) tt
      (tt, ((refl, (tt, (tt, tt))), tt)) refl

-- `coercion 7: 0 > 1;` and `coercion 8: 1 > 2;`, where the sort 1 is provable.
abbrev two_coes : Coes
two_coes =
    (0, (1, single 7) ∷ (2, trans (single 7) 1 (single 8)) ∷ []) ∷ (1, (2, single 8) ∷ []) ∷ []

two_coes_added : add_coe_raw 8 1 2 ((add_coe_raw 7 0 1 []).1) ≡ (ok tt, two_coes)
unfolding add_coe_raw
two_coes_added = refl

abbrev coe_mem : MmzMem
coe_mem = record empty_mem { coes = two_coes; coe_prov = (0, 1) ∷ [] }

coerced :
    coerce (record empty_mem { coes = two_coes }) (var var_a) 2
    ≡ ok (app 8 1 (cons (app 7 1 (cons (var var_a) nil) 1) nil) 2)
unfolding coerce
coerced = refl

coerce-HasTarget_example :
    HasTarget
      (record empty_mem { coes = two_coes })
      2
      (app 8 1 (cons (app 7 1 (cons (var var_a) nil) 1) nil) 2)
coerce-HasTarget_example =
    coerce-HasTarget (record empty_mem { coes = two_coes }) (var var_a) 2 coerced

coerce_at-endless_example : coerce_at 100 coe_mem (var var_a) 2 ≡ hang
unfolding expr_sort get get_coe
coerce_at-endless_example =
    coerce_at-endless 100 coe_mem (var var_a) 1 2 (single 7) (single 8) refl refl refl refl

-- `theorem t: ...` of the specification against an axiom.
verify1-kind_example :
    verify1 (axiom_stmt (some 0)) (record empty_mem {
      mmz =
          116 ∷ 104 ∷ 101 ∷ 111 ∷ 114 ∷ 101 ∷ 109 ∷ 32 ∷ 116 ∷ 58 ∷ 32 ∷ 36 ∷ 32 ∷ 97 ∷ 32 ∷ 36 ∷ 59
          ∷ [];
    })
    ≡ verify1 (thm (some 0) false) (record empty_mem {
      mmz =
          116 ∷ 104 ∷ 101 ∷ 111 ∷ 114 ∷ 101 ∷ 109 ∷ 32 ∷ 116 ∷ 58 ∷ 32 ∷ 36 ∷ 32 ∷ 97 ∷ 32 ∷ 36 ∷ 59
          ∷ [];
    })
verify1-kind_example = verify1-kind (some 0) (some 0) (record empty_mem {
  mmz =
      116 ∷ 104 ∷ 101 ∷ 111 ∷ 114 ∷ 101 ∷ 109 ∷ 32 ∷ 116 ∷ 58 ∷ 32 ∷ 36 ∷ 32 ∷ 97 ∷ 32 ∷ 36 ∷ 59
      ∷ [];
})

-- `strict provable sort a;`, where an axiom is wanted.
abbrev sort_text : Str
sort_text =
    115 ∷ 116 ∷ 114 ∷ 105 ∷ 99 ∷ 116 ∷ 32 ∷ 112 ∷ 114 ∷ 111 ∷ 118 ∷ 97 ∷ 98 ∷ 108 ∷ 101 ∷ 32 ∷ 115
    ∷ 111 ∷ 114 ∷ 116 ∷ 32 ∷ 97 ∷ 59 ∷ []

abbrev sort_mem : MmzMem
sort_mem = record empty_mem { mmz = sort_text; mmz_files = sort_text ∷ [] }

-- The sort is read, and the axiom is counted.
abbrev after_sort : MmzMem
unfolding verify1
after_sort = (verify1 (axiom_stmt (some 0)) sort_mem).1
