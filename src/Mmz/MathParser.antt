-- ===== src/Mmz/MathParser.antt =====
-- src/mmz/math_parser.rs: the expressions of a math string. The source's functions call each other;
-- `fuel` bounds the depth of these calls.
use second_opinion.Prelude.{
  ℕ, zero, suc, ◌*◌, List, [], ◌∷◌, length, get_elem?, ◌==◌, if◌then◌else◌, Option, none, some,
  hang, msg, none_err,
}
use second_opinion.Util.Ty.{Ty, sort}
use second_opinion.Util.Outline.{Term, get_term_by_num, term_args, num_args_no_ret}
use second_opinion.Mmz.Map.{get}
use second_opinion.Mmz.Data.{
  Str, str_eq, MmzExpr, var, Prec, num, max_prec, prec_le, NotationLit, var_lit, const_lit,
}
use second_opinion.Mmz.Mem.{get_term_by_ident}
use second_opinion.Mmz.Monad.{
  MmzState, Act, pure, lift, fail, gets, attempt, localize, ensure, when, ◌>>=◌, ◌>>◌, position_of,
  set_pos, advance,
}
use second_opinion.Mmz.Lexer.{guard, cur_is}
use second_opinion.Mmz.Token.{skip_math_ws, guard_math, math_tok}
use second_opinion.Mmz.Operators.{
  app_prec, coerce_to, take_ge_infix, find_var, arg_slots, fill_slot, all_filled, apply_term,
  apply_infix,
}

unfoldable mutual
  unfolding skip_math_ws cur_is guard_math math_tok get str_eq find_var prec_le get_term_by_num
      get_term_by_ident take_ge_infix arg_slots fill_slot all_filled apply_term apply_infix
      coerce_to term_args num_args_no_ret sort

  -- `expr` without an expression to go on with.
  pub expr : ℕ → Prec → Act MmzExpr
  expr zero p = lift hang
  expr (suc fuel) p = prefix fuel p >>= λ a. expr_on fuel p a

  -- `expr` with one.
  pub expr_on : ℕ → Prec → MmzExpr → Act MmzExpr
  expr_on zero p a = lift hang
  expr_on (suc fuel) p a = take_ge_infix p >>= λ next. elim next [
    | none ↦ pure a
    | some (op, op_prec) ↦
        prefix fuel op_prec >>= λ b. lhs fuel a op op_prec b >>= λ a'. expr_on fuel p a'
  ]

  pub lhs : ℕ → MmzExpr → Term → Prec → MmzExpr → Act MmzExpr
  lhs zero a op0 op0_prec b = lift hang
  lhs (suc fuel) a op0 op0_prec b = take_ge_infix op0_prec >>= λ next. elim next [
    | none ↦ apply_infix op0 a b
    | some (op1, op1_prec) ↦
        prefix fuel op1_prec >>= λ c. lhs fuel b op1 op1_prec c >>= λ b'. lhs fuel a op0 op0_prec b'
  ]

  pub prefix : ℕ → Prec → Act MmzExpr
  prefix zero p = lift hang
  prefix (suc fuel) p = skip_math_ws >>= λ _. gets (cur_is 40) >>= λ paren.
      if paren
      then (advance 1 >>= λ _. expr fuel (num 0) >>= λ e. guard_math 41 >>= λ _. pure e)
      else (math_tok >>= λ o. lift (none_err o) >>= λ tok. gets (λ s. s) >>= λ s.
          elim (get str_eq tok s.mem.consts) [
            | some q ↦ prefix_const fuel p tok q
            | none ↦ elim (find_var tok s.vars_done) [
              | some v ↦ pure (var v)
              | none ↦ term_app fuel p tok
            ]
          ])

  pub prefix_const : ℕ → Prec → Str → Prec → Act MmzExpr
  prefix_const zero p tok q = lift hang
  prefix_const (suc fuel) p tok q = gets (λ s. s.mem) >>= λ mem.
      elim (get str_eq tok mem.prefixes) [
        | none ↦ fail msg
        | some info ↦
            if prec_le p q
            then (lift (get_term_by_num mem.outline info.term_num) >>= λ t.
                apply_notation fuel info.lits (arg_slots info.lits) t)
            else fail msg
      ]

  -- The loop of `apply_notation` over the literals left; `slots` is `math_args`.
  pub apply_notation : ℕ → List NotationLit → List (Option MmzExpr) → Term → Act MmzExpr
  apply_notation zero lits slots t = lift hang
  apply_notation (suc fuel) [] slots t = lift (all_filled slots) >>= λ es. apply_term t es
  apply_notation (suc fuel) (const_lit fml ∷ lits) slots t = math_tok >>= λ o.
      lift (none_err o) >>= λ tk. ensure (str_eq tk fml) >>= λ _. apply_notation fuel lits slots t
  apply_notation (suc fuel) (var_lit i p ∷ lits) slots t = lift (term_args t) >>= λ tys.
      lift (none_err (get_elem? tys i)) >>= λ sig_e. expr fuel p >>= λ e.
      coerce_to e (sort sig_e) >>= λ coerced.
      lift (fill_slot i coerced slots) >>= λ filled. apply_notation fuel lits filled t

  pub term_app : ℕ → Prec → Str → Act MmzExpr
  term_app zero p tok = lift hang
  term_app (suc fuel) p tok = gets (λ s. s.mem) >>= λ mem. lift (get_term_by_ident mem tok) >>= λ t.
      lift (num_args_no_ret t) >>= λ n.
      if n == 0
      then apply_term t []
      else (ensure (prec_le p (num app_prec)) >>= λ _.
          lift (term_args t) >>= λ tys. term_arguments fuel tys >>= λ es. apply_term t es)

  -- The loop of `term_app`: it ends with the types, or where no expression stands.
  pub term_arguments : ℕ → List Ty → Act (List MmzExpr)
  term_arguments zero tys = lift hang
  term_arguments (suc fuel) [] = pure []
  term_arguments (suc fuel) (arg ∷ tys) = gets position_of >>= λ restore.
      attempt (expr fuel max_prec) >>= λ o. elim o [
        | none ↦ set_pos restore >>= λ _. pure []
        | some e ↦ coerce_to e (sort arg) >>= λ e'. term_arguments fuel tys >>= λ es. pure (e' ∷ es)
      ]

-- Fuel for the math parser: each call of `prefix` that returns has passed a byte, and between two of
-- them there are at most four calls and the literals of a notation.
abbrev pub math_fuel : MmzState → ℕ
math_fuel s = suc (length s.mem.mmz) * 8

unfoldable pub expr_ : Act MmzExpr
unfolding guard expr skip_math_ws cur_is
expr_ = do
  localize (guard 36)
  fuel ← gets math_fuel
  out_e ← expr fuel (num 0)
  skip_math_ws
  when (← gets (cur_is 36)) (advance 1)
  pure out_e
