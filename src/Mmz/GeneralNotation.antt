-- ===== src/Mmz/GeneralNotation.antt =====
-- src/mmz/parse.rs: general notation.
use second_opinion.Prelude.{
  ℕ, zero, suc, ◌+◌, Bool, true, false, not, List, [], ◌∷◌, length, last?, ◌==◌, if◌then◌else◌,
  Option, none, some, ◌⊎◌, inl, inr, Res, ok, err, panic, hang, msg, none_err, make_sure_err,
  is_empty, assert, unwrap,
}
use second_opinion.Mmz.Data.{
  Str, str_eq, ident_eq, MmzVar, Prec, max_prec, right, NotationLit, var_lit, const_lit,
}
use second_opinion.Mmz.Monad.{
  Act, pure, lift, gets, attempt, localize, when, ◌>>=◌, ◌>>◌, position_of, set_pos,
}
use second_opinion.Mmz.Lexer.{skip_ws, guard, ident, prec_lvl}
use second_opinion.Mmz.Token.{constant}
use second_opinion.Mmz.Notation.{bump, add_const, occupy_prec, add_prefix}

-- `Either<(Str, Prec), Str>`: a constant with its precedence, or a variable.
abbrev pub Lit : Type 0
Lit = (Str × Prec) ⊎ Str

-- `iter().position(|v| v.ident == Some(..))`
unfoldable pub var_position : Str → List MmzVar → Option ℕ
unfolding ident_eq
var_position i [] = none
var_position i (v ∷ vs) =
    let rest = var_position i vs in
    if ident_eq v.ident (some i)
    then some 0
    else (elim rest [ none ↦ none | some k ↦ some (k + 1) ])

-- The precedence of a variable, from the literal behind it.
unfoldable pub lit_prec : Bool → Prec → List Lit → Res Prec
unfolding bump
lit_prec rassoc first_prec [] = bump rassoc first_prec
lit_prec rassoc first_prec (inl (tok2, prec2) ∷ r) = bump true prec2
lit_prec rassoc first_prec (inr y ∷ r) = ok max_prec

unfoldable pub elab_lits : Bool → Prec → List Lit → Act (List NotationLit)
unfolding add_const lit_prec var_position
elab_lits rassoc first_prec [] = pure []
elab_lits rassoc first_prec (inl (tok, prec) ∷ r) = do
  add_const tok prec
  lits ← elab_lits rassoc first_prec r
  pure (const_lit tok ∷ lits)
elab_lits rassoc first_prec (inr y ∷ r) = do
  prec ← lift (lit_prec rassoc first_prec r)
  pos ← gets (λ s. var_position y s.vars_done)
  i ← lift (unwrap pos)
  lits ← elab_lits rassoc first_prec r
  pure (var_lit i prec ∷ lits)

unfoldable pub used_in : Str → List Lit → Bool
unfolding str_eq
used_in i [] = false
used_in i (inl c ∷ r) = used_in i r
used_in i (inr y ∷ r) = let rest = used_in i r in if str_eq y i then true else rest

-- Every variable has a name, is no dummy, and is used.
unfoldable pub check_vars : List Lit → List MmzVar → Res (Unit {0})
unfolding used_in
check_vars lits [] = ok tt
check_vars lits (v ∷ vs) =
    let rest = check_vars lits vs in
    elim v.ident [
      | none ↦ err msg
      | some i ↦
          if v.is_dummy
          then err make_sure_err
          else if used_in i lits
          then rest
          else err make_sure_err
    ]

unfoldable pub ends_in_var : NotationLit → Bool
ends_in_var (var_lit i p) = true
ends_in_var (const_lit s) = false

unfoldable pub elab_gen_nota : ℕ → Str → ℕ → List Lit → Act (Unit {0})
unfolding add_const elab_lits check_vars ends_in_var occupy_prec add_prefix
elab_gen_nota term_num term_ident num_args [] = lift panic
elab_gen_nota term_num term_ident num_args (inr y ∷ r) = lift panic
elab_gen_nota term_num term_ident num_args (inl (tok, first_prec) ∷ r) = do
  vars ← gets (λ s. s.vars_done)
  lift (assert (length vars == num_args))
  add_const tok first_prec
  let rassoc = not (is_empty r)
  lits ← elab_lits rassoc first_prec r
  lift (check_vars r vars)
  final ← lift (none_err (last? lits))
  when (ends_in_var final) (occupy_prec first_prec right)
  add_prefix tok
      (record { term_num = term_num; term_ident = term_ident; rassoc = rassoc; lits = lits })

unfoldable pub prec_const : Act (Str × Prec)
unfolding guard constant prec_lvl
prec_const = do
  localize (guard 40)
  tk ← constant
  localize (guard 58)
  p ← prec_lvl
  prec ← lift (none_err p)
  localize (guard 41)
  pure (tk, prec)

-- The loop of `gen_notation` over the literals behind the first one. A literal takes a byte at
-- least.
unfoldable pub more_lits : ℕ → Act (List Lit)
unfolding skip_ws prec_const ident
more_lits zero = lift hang
more_lits (suc fuel) = do
  skip_ws
  rollback ← gets position_of
  c ← attempt prec_const
  elim c [
    | some tp ↦ more_lits fuel >>= λ lits. pure (inl tp ∷ lits)
    | none ↦ set_pos rollback >>= λ _. attempt ident >>= λ y. elim y [
      | none ↦ pure []
      | some i ↦ more_lits fuel >>= λ lits. pure (inr i ∷ lits)
    ]
  ]
