-- ===== src/Mmz/Operators.antt =====
-- src/mmz/math_parser.rs: infix operators, and the arguments that a term is applied to.
use second_opinion.Prelude.{
  ℕ, zero, suc, ◌+◌, ◌^◌, Bool, true, false, List, [], ◌∷◌, ltb, if◌then◌else◌, Option, none, some,
  Res, ok, err, panic, msg, unwrap, and_then,
}
use second_opinion.Util.Ty.{Ty, sort}
use second_opinion.Util.Outline.{Term, get_term_by_num, term_args, term_sort, num_args_no_ret}
use second_opinion.Mmz.Map.{get}
use second_opinion.Mmz.Data.{
  Str, str_eq, ident_eq, MmzVar, MmzExpr, app, to_exprs, Prec, num, max_prec, prec_le, NotationLit,
  var_lit, const_lit, NotationInfo,
}
use second_opinion.Mmz.Monad.{Act, pure, lift, gets, ◌>>=◌}
use second_opinion.Mmz.Token.{math_tok, peek_math_tok}
use second_opinion.Mmz.Coercion.{coerce}

abbrev pub app_prec : ℕ
app_prec = 1024

-- `self.coerce(e, z)?`
unfoldable pub coerce_to : MmzExpr → ℕ → Act MmzExpr
unfolding coerce
coerce_to e z = gets (λ s. s.mem) >>= λ mem. lift (coerce mem e z)

-- An infix of at least the precedence, given the token and what the maps say of it.
abbrev pub ge_infix : Prec → Option Prec → Option NotationInfo → Option (Prec × NotationInfo)
ge_infix last_prec none info = none
ge_infix last_prec (some next_prec) none = none
ge_infix last_prec (some next_prec) (some info) =
    if prec_le last_prec next_prec then some (next_prec, info) else none

unfoldable pub peek_ge_infix : Prec → Act (Option (Prec × NotationInfo))
unfolding peek_math_tok get str_eq prec_le
peek_ge_infix last_prec = do
  peeked ← peek_math_tok
  mem ← gets (λ s. s.mem)
  pure (elim peeked [
    | none ↦ none
    | some tok ↦ ge_infix last_prec (get str_eq tok mem.consts) (get str_eq tok mem.infixes)
  ])

-- The precedence that binds the right operand. `n + 1` is an addition of `u32`s, in a closure that runs only
-- when the term was found.
unfoldable pub rhs_prec : Bool → Prec → Res Term → Res (Term × Prec)
rhs_prec true p r = and_then r (λ t. ok (t, p))
rhs_prec false (num n) r =
    and_then r (λ t. if ltb (n + 1) (2 ^ 32) then ok (t, num (n + 1)) else panic)
rhs_prec false max_prec r = err msg

unfoldable pub take_ge_infix : Prec → Act (Option (Term × Prec))
unfolding peek_ge_infix get_term_by_num math_tok rhs_prec
take_ge_infix last_prec = peek_ge_infix last_prec >>= λ p. elim p [
  | none ↦ pure none
  | some (next_prec, info) ↦ (do
    mem ← gets (λ s. s.mem)
    tok ← math_tok
    taken ← lift (unwrap tok)
    tp ← lift (rhs_prec info.rassoc next_prec (get_term_by_num mem.outline info.term_num))
    pure (some tp))
]

-- `vars_done.iter().find(|v| v.ident == Some(tok))`
unfoldable pub find_var : Str → List MmzVar → Option MmzVar
unfolding ident_eq
find_var tok [] = none
find_var tok (v ∷ vs) =
    let rest = find_var tok vs in if ident_eq v.ident (some tok) then some v else rest

-- The places for the arguments of a notation, one for each variable.
unfoldable pub arg_slots : List NotationLit → List (Option MmzExpr)
arg_slots [] = []
arg_slots (var_lit i p ∷ lits) = none ∷ arg_slots lits
arg_slots (const_lit s ∷ lits) = arg_slots lits

-- The i-th place, if it is there and empty, takes the expression.
unfoldable pub fill_slot : ℕ → MmzExpr → List (Option MmzExpr) → Res (List (Option MmzExpr))
fill_slot i e [] = err msg
fill_slot zero e (none ∷ slots) = ok (some e ∷ slots)
fill_slot zero e (some x ∷ slots) = err msg
fill_slot (suc i) e (x ∷ slots) = and_then (fill_slot i e slots) (λ filled. ok (x ∷ filled))

unfoldable pub all_filled : List (Option MmzExpr) → Res (List MmzExpr)
all_filled [] = ok []
all_filled (none ∷ slots) = err msg
all_filled (some e ∷ slots) = and_then (all_filled slots) (λ es. ok (e ∷ es))

-- `App` of a term to expressions of its arguments.
unfoldable pub apply_term : Term → List MmzExpr → Act MmzExpr
unfolding num_args_no_ret term_sort
apply_term t es = do
  n ← lift (num_args_no_ret t)
  pure (app t.term_num n (to_exprs es) (term_sort t))

-- The arguments of an infix term: two, and the sort of the result.
unfoldable pub infix_args : List Ty → Res (Ty × Ty)
infix_args (a ∷ b ∷ r ∷ []) = ok (a, b)
infix_args [] = err msg
infix_args (a ∷ []) = err msg
infix_args (a ∷ b ∷ []) = err msg
infix_args (a ∷ b ∷ r ∷ c ∷ tys) = err msg

-- The last branch of `lhs`.
unfoldable pub apply_infix : Term → MmzExpr → MmzExpr → Act MmzExpr
unfolding term_args infix_args sort coerce_to apply_term
apply_infix op a b = do
  tys ← lift (term_args op)
  (fst, snd) ← lift (infix_args tys)
  a_coerced ← coerce_to a (sort fst)
  b_coerced ← coerce_to b (sort snd)
  apply_term op (a_coerced ∷ b_coerced ∷ [])
