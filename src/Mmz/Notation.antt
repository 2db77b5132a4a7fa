-- ===== src/Mmz/Notation.antt =====
-- src/mmz/parse.rs: `prefix`, `infixl` and `infixr` notation.
use second_opinion.Prelude.{
  ℕ, zero, suc, ◌+◌, ◌^◌, Bool, true, false, not, List, [], ◌∷◌, ltb, ◌==◌, if◌then◌else◌, Option,
  none, some, Res, ok, err, panic, msg, none_err, none_err_err,
}
use second_opinion.Util.Outline.{Term, num_args_no_ret}
use second_opinion.Mmz.Map.{get, insert}
use second_opinion.Mmz.Data.{
  Str, str_eq, Prec, num, max_prec, prec_eq, Fix, infixl_fix, infixr_fix, prefix_fix, Assoc, left,
  right, assoc_eq, NotationLit, var_lit, const_lit, NotationInfo, info_eq,
}
use second_opinion.Mmz.Mem.{get_term_by_ident}
use second_opinion.Mmz.Monad.{Act, pure, lift, fail, gets, modify, localize, when, ◌>>=◌, ◌>>◌}
use second_opinion.Mmz.Lexer.{guard, kw, ident, prec_lvl}
use second_opinion.Mmz.Token.{constant}

-- `bump`, without the argument that only a message would read.
unfoldable pub bump : Bool → Prec → Res Prec
bump false p = ok p
bump true (num n) = if ltb (n + 1) (2 ^ 32) then ok (num (n + 1)) else panic
bump true max_prec = panic

-- The conflict that `HashMap::insert` shows: another value was there.
abbrev pub differs {ℓ} : {A : Type ℓ} → (A → A → Bool) → A → Option A → Bool
differs eq a none = false
differs eq a (some b) = not (eq b a)

unfoldable pub add_const : Str → Prec → Act (Unit {0})
unfolding str_eq get insert prec_eq
add_const tk prec =
    if str_eq tk (40 ∷ []) then fail msg else if str_eq tk (41 ∷ []) then fail msg else (do
      already ← gets (λ s. get str_eq tk s.mem.consts)
      modify (λ s. record s { mem = record s.mem { consts = insert str_eq tk prec s.mem.consts } })
      when (differs prec_eq prec already) (fail msg))

unfoldable pub occupy_prec : Prec → Assoc → Act (Unit {0})
unfolding prec_eq get insert assoc_eq
occupy_prec prec assoc = do
  already ← gets (λ s. get prec_eq prec s.mem.occupied_precs)
  modify (λ s. record s {
    mem = record s.mem { occupied_precs = insert prec_eq prec assoc s.mem.occupied_precs };
  })
  when (differs assoc_eq assoc already) (fail msg)

-- `add_nota_info` on the prefixes and on the infixes.
unfoldable pub add_prefix : Str → NotationInfo → Act (Unit {0})
unfolding str_eq get insert info_eq
add_prefix tok n = do
  already ← gets (λ s. get str_eq tok s.mem.prefixes)
  modify (λ s. record s { mem = record s.mem { prefixes = insert str_eq tok n s.mem.prefixes } })
  when (differs info_eq n already) (fail msg)

unfoldable pub add_infix : Str → NotationInfo → Act (Unit {0})
unfolding str_eq get insert info_eq
add_infix tok n = do
  already ← gets (λ s. get str_eq tok s.mem.infixes)
  modify (λ s. record s { mem = record s.mem { infixes = insert str_eq tok n s.mem.infixes } })
  when (differs info_eq n already) (fail msg)

-- The variables of a prefix: from position `i` on, `left` of them, the last with precedence `prec`.
unfoldable pub prefix_lits : ℕ → ℕ → Prec → List NotationLit
prefix_lits zero i prec = []
prefix_lits (suc zero) i prec = var_lit i prec ∷ []
prefix_lits (suc (suc n)) i prec = var_lit i max_prec ∷ prefix_lits (suc n) (i + 1) prec

unfoldable pub elab_simple_prefix : Str → Term → Str → Prec → Act (Unit {0})
unfolding num_args_no_ret prefix_lits add_const occupy_prec add_prefix
elab_simple_prefix term_ident term tk prec = do
  n ← lift (num_args_no_ret term)
  add_const tk prec
  when (ltb 0 n) (occupy_prec prec right)
  add_prefix tk (record {
    term_num = term.term_num;
    term_ident = term_ident;
    rassoc = true;
    lits = prefix_lits n 0 prec;
  })

abbrev pub infix_lits : Bool → Str → ℕ → List NotationLit
infix_lits true tk n = var_lit 0 (num (n + 1)) ∷ const_lit tk ∷ var_lit 1 (num n) ∷ []
infix_lits false tk n = var_lit 0 (num n) ∷ const_lit tk ∷ var_lit 1 (num (n + 1)) ∷ []

-- `none_err!(n.checked_add(1))`, where the sum is not used.
abbrev pub checked_add_one : ℕ → Res (Unit {0})
checked_add_one n = if ltb (n + 1) (2 ^ 32) then ok tt else err none_err_err

unfoldable pub elab_simple_infix : Str → Term → Str → Prec → Bool → Act (Unit {0})
unfolding num_args_no_ret add_const occupy_prec add_infix
elab_simple_infix term_ident term tk max_prec is_infixr = fail msg
elab_simple_infix term_ident term tk (num n) is_infixr = do
  lift (checked_add_one n)
  k ← lift (num_args_no_ret term)
  when (not (k == 2)) (localize (fail msg))
  add_const tk (num n)
  occupy_prec (num n) (if is_infixr then right else left)
  add_infix tk (record {
    term_num = term.term_num;
    term_ident = term_ident;
    rassoc = is_infixr;
    lits = infix_lits is_infixr tk n;
  })

unfoldable pub fix_of : Act Fix
unfolding kw
fix_of = do
  p ← kw (112 ∷ 114 ∷ 101 ∷ 102 ∷ 105 ∷ 120 ∷ 32 ∷ [])
  if p then pure prefix_fix else (do
    l ← kw (105 ∷ 110 ∷ 102 ∷ 105 ∷ 120 ∷ 108 ∷ 32 ∷ [])
    if l then pure infixl_fix else (do
      r ← kw (105 ∷ 110 ∷ 102 ∷ 105 ∷ 120 ∷ 114 ∷ 32 ∷ [])
      if r then pure infixr_fix else fail msg))

unfoldable pub simple_notation : Act (Unit {0})
unfolding fix_of ident get_term_by_ident guard constant kw prec_lvl elab_simple_prefix
    elab_simple_infix
simple_notation = do
  fix ← fix_of
  name ← ident
  mem ← gets (λ s. s.mem)
  term ← lift (get_term_by_ident mem name)
  localize (guard 58)
  tk ← constant
  has_prec ← kw (112 ∷ 114 ∷ 101 ∷ 99 ∷ [])
  when (not has_prec) (localize (fail msg))
  p ← prec_lvl
  prec ← lift (none_err p)
  localize (guard 59)
  elim fix [
    | prefix_fix ↦ elab_simple_prefix name term tk prec
    | infixl_fix ↦ elab_simple_infix name term tk prec false
    | infixr_fix ↦ elab_simple_infix name term tk prec true
  ]
