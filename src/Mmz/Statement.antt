-- ===== src/Mmz/Statement.antt =====
-- src/mmz/parse.rs and src/mmz/mod.rs: the statements of the specification, and the search for the one
-- that a declaration of the binary file corresponds to.
use second_opinion.Prelude.{
  ℕ, zero, suc, bit_or, Bool, not, ◌&&◌, ◌||◌, List, [], ◌∷◌, length, ◌==◌, if◌then◌else◌, none,
  some, inl, hang, msg, none_err_err, unwrap,
}
use second_opinion.Util.Outline.{
  Term, Assert, get_sort_mods, term_args, assert_args, is_def, num_args_no_ret,
}
use second_opinion.Mmb.Unify.{u_def, u_thm, pop?}
use second_opinion.Mmz.Data.{Str, str_eq, MmzHyp}
use second_opinion.Mmz.Mem.{add_termdef, add_assert, add_sort, get_term_by_ident}
use second_opinion.Mmz.Monad.{
  Act, pure, lift, fail, gets, modify, attempt, localize, ensure, when, on_mem, ◌>>=◌, ◌>>◌, cur,
  cur_slice, advance,
}
use second_opinion.Mmz.Lexer.{skip_ws, guard, kw, peek_word, ident, span_len}
use second_opinion.Mmz.Token.{file_fuel}
use second_opinion.Mmz.GeneralNotation.{prec_const, more_lits, elab_gen_nota}
use second_opinion.Mmz.Check.{check}
use second_opinion.Mmz.MathParser.{expr_}
use second_opinion.Mmz.Binders.{
  binders, coerce_prov, term_mode, def_mode, assert_mode, notation_mode,
}

-- `Mods`: pure 1, strict 2, provable 4, free 8. The loop of `sort`; a modifier takes a byte at least.
unfoldable pub sort_mods : ℕ → ℕ → Act ℕ
unfolding kw
sort_mods zero mods = lift hang
sort_mods (suc fuel) mods = gets cur >>= λ c. elim c [
  | none ↦ pure mods
  | some _ ↦ kw (112 ∷ 114 ∷ 111 ∷ 118 ∷ 97 ∷ 98 ∷ 108 ∷ 101 ∷ 32 ∷ []) >>= λ provable.
      if provable
      then sort_mods fuel (bit_or mods 4)
      else (kw (115 ∷ 116 ∷ 114 ∷ 105 ∷ 99 ∷ 116 ∷ 32 ∷ []) >>= λ strict.
          if strict
          then sort_mods fuel (bit_or mods 2)
          else (kw (112 ∷ 117 ∷ 114 ∷ 101 ∷ 32 ∷ []) >>= λ is_pure.
              if is_pure
              then sort_mods fuel (bit_or mods 1)
              else (kw (102 ∷ 114 ∷ 101 ∷ 101 ∷ 32 ∷ []) >>= λ free.
                  if free
                  then sort_mods fuel (bit_or mods 8)
                  else (kw (115 ∷ 111 ∷ 114 ∷ 116 ∷ 32 ∷ []) >>= λ last.
                      if last then pure mods else fail msg))))
]

-- `sort`: the name and the modifiers.
unfoldable pub sort : Act (Str × ℕ)
unfolding sort_mods ident guard
sort = do
  fuel ← gets file_fuel
  mods ← sort_mods fuel 0
  name ← ident
  localize (guard 59)
  pure (name, mods)

unfoldable pub parse_sort : Act (Unit {0})
unfolding sort get_sort_mods add_sort
parse_sort = do
  (name, mods) ← sort
  mem ← gets (λ s. s.mem)
  mmb_mods ← lift (get_sort_mods mem.outline mem.num_sorts)
  ensure (mods == mmb_mods)
  on_mem (add_sort name)

-- `self.kw(k).or(self.kw(l)).is_some()`: both keywords are tried.
unfoldable pub kw_or : List ℕ → List ℕ → Act Bool
unfolding kw
kw_or k l = do first ← kw k; second ← kw l; pure (first || second)

-- The definition's value, if there is one.
unfoldable pub def_value : Term → Act (Unit {0})
unfolding peek_word str_eq is_def guard expr_ coerce_prov check
def_value t = do
  word ← peek_word
  when (is_def t && str_eq word (61 ∷ [])) (do
    localize (guard 61)
    rhs_e ← expr_
    rhs_e' ← coerce_prov rhs_e
    check t.unify rhs_e' u_def)

unfoldable pub parse_termdef : Term → Act (Unit {0})
unfolding kw_or ident term_args binders is_def def_value guard add_termdef
parse_termdef t = do
  found ← kw_or (116 ∷ 101 ∷ 114 ∷ 109 ∷ 32 ∷ []) (100 ∷ 101 ∷ 102 ∷ 32 ∷ [])
  ensure found
  name ← ident
  args ← lift (term_args t)
  binders args (if is_def t then def_mode else term_mode)
  def_value t
  localize (guard 59)
  on_mem (add_termdef name)

-- `self.hyps.pop().unwrap()`
unfoldable pub pop_hyp : Act MmzHyp
pop_hyp = do
  hyps ← gets (λ s. s.hyps)
  (h, rest) ← lift (unwrap (pop? hyps))
  modify (λ s. record s { hyps = rest })
  pure h

unfoldable pub parse_assert : Assert → Act (Unit {0})
unfolding kw_or ident assert_args binders pop_hyp check guard add_assert
parse_assert a = do
  found ←
      kw_or (97 ∷ 120 ∷ 105 ∷ 111 ∷ 109 ∷ 32 ∷ [])
        (116 ∷ 104 ∷ 101 ∷ 111 ∷ 114 ∷ 101 ∷ 109 ∷ 32 ∷ [])
  ensure found
  attempted ← attempt ident
  name ← lift (unwrap attempted)
  args ← lift (assert_args a)
  binders args assert_mode
  tgt ← pop_hyp
  check a.unify tgt.expr u_thm
  localize (guard 59)
  on_mem (add_assert name)

unfoldable pub parse_import : Act (Unit {0})
unfolding kw guard span_len skip_ws
parse_import = do
  found ← kw (105 ∷ 109 ∷ 112 ∷ 111 ∷ 114 ∷ 116 ∷ 32 ∷ [])
  ensure found
  localize (guard 34)
  rest ← gets cur_slice
  let n = span_len (λ c. not (c == 34)) rest
  if n == length rest then advance n else (do advance (suc n); localize (guard 59); skip_ws)

unfoldable pub gen_notation : Act (Unit {0})
unfolding kw ident get_term_by_ident term_args binders guard prec_const more_lits num_args_no_ret
    elab_gen_nota
gen_notation = do
  found ← kw (110 ∷ 111 ∷ 116 ∷ 97 ∷ 116 ∷ 105 ∷ 111 ∷ 110 ∷ 32 ∷ [])
  when (not found) (fail none_err_err)
  name ← ident
  mem ← gets (λ s. s.mem)
  t ← lift (get_term_by_ident mem name)
  args ← lift (term_args t)
  binders args notation_mode
  localize (guard 61)
  first ← prec_const
  fuel ← gets file_fuel
  lits ← more_lits fuel
  n ← lift (num_args_no_ret t)
  elab_gen_nota t.term_num name n (inl first ∷ lits)
  localize (guard 59)
  pure tt
