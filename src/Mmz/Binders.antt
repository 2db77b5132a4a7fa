-- ===== src/Mmz/Binders.antt =====
-- src/mmz/parse.rs: the binders of a declaration, and its type, against the types in the binary file.
use second_opinion.Prelude.{
  ℕ, zero, suc, ◌+◌, bit_or, Bool, true, false, not, ◌&&◌, List, [], ◌∷◌, length, take, drop, snoc,
  leb, ◌==◌, if◌then◌else◌, none, some, hang, msg, none_err_err, none_err,
}
use second_opinion.Util.Ty.{Ty, ty, new, new_with_sort, add_sort, add_dep, high_bit}
use second_opinion.Mmz.Data.{Str, MmzVar, MmzExpr, expr_sort}
use second_opinion.Mmz.Mem.{coe_prov_or_else, get_sort_num}
use second_opinion.Mmz.Monad.{
  Act, pure, lift, fail, gets, modify, attempt, localize, ensure, ◌>>=◌, ◌>>◌, cur, advance,
  take_next_bv, non_dummy_vars, potential_deps,
}
use second_opinion.Mmz.Lexer.{skip_ws, cur_is, guard, ident_, dummy_ident, ident}
use second_opinion.Mmz.Token.{file_fuel}
use second_opinion.Mmz.Operators.{coerce_to}
use second_opinion.Mmz.MathParser.{expr_}
use second_opinion.Mmz.GeneralNotation.{var_position}

-- The argument `mode`, a string in the source.
pub data Mode : Type 0 where
  term_mode def_mode assert_mode notation_mode : Mode

abbrev pub is_def_mode : Mode → Bool
is_def_mode def_mode = true
is_def_mode term_mode = false
is_def_mode assert_mode = false
is_def_mode notation_mode = false

abbrev pub is_assert_mode : Mode → Bool
is_assert_mode assert_mode = true
is_assert_mode term_mode = false
is_assert_mode def_mode = false
is_assert_mode notation_mode = false

-- The name and the flag that `binder_idents` pushes for an identifier.
unfoldable pub todo_var : Str → Str × Bool
todo_var [] = ([], false)
todo_var (c ∷ tl) = if c == 46 then (tl, true) else (c ∷ tl, false)

-- The loop of `binder_idents`. An identifier takes a byte at least.
unfoldable pub binder_idents : ℕ → Mode → Act (Unit {0})
unfolding dummy_ident ident_ todo_var
binder_idents zero mode = lift hang
binder_idents (suc fuel) mode = attempt (if is_def_mode mode then dummy_ident else ident_) >>= λ o.
    elim o [
      | none ↦ pure tt
      | some i ↦ (do
        ensure (if (todo_var i).1 then is_def_mode mode else true)
        modify (λ s. record s { vars_todo = snoc s.vars_todo (todo_var i) })
        binder_idents fuel mode)
    ]

-- `self.coerce(e, self.mem.coe_prov_or_else(e.sort()))?`
unfoldable pub coerce_prov : MmzExpr → Act MmzExpr
unfolding expr_sort coe_prov_or_else coerce_to
coerce_prov e = gets (λ s. coe_prov_or_else s.mem (expr_sort e)) >>= coerce_to e

-- The loop of `binder_fml` over the variables left.
unfoldable pub push_hyps : MmzExpr → List (Str × Bool) → Act (Unit {0})
push_hyps e [] = pure tt
push_hyps e ((i, is_dummy) ∷ todo) = do
  ensure (not is_dummy)
  modify (λ s. record s {
    hyps = (record { ident = some i; pos = some (length s.vars_done); expr = e }) ∷ s.hyps;
  })
  push_hyps e todo

unfoldable pub binder_fml : Bool → Mode → Act (Unit {0})
unfolding expr_ coerce_prov push_hyps
binder_fml bound mode = do
  ensure (is_assert_mode mode)
  ensure (not bound)
  math_expr ← expr_
  math_expr' ← coerce_prov math_expr
  todo ← gets (λ s. drop (length s.vars_done) s.vars_todo)
  push_hyps math_expr' todo

-- The loop over the dependencies of a type; an identifier takes a byte at least.
unfoldable pub dep_loop : ℕ → Ty → Act Ty
unfolding ident potential_deps var_position add_dep
dep_loop zero t = lift hang
dep_loop (suc fuel) t = attempt ident >>= λ o. elim o [
  | none ↦ pure t
  | some dep_ident ↦ (do
    pos ← gets (λ s. var_position dep_ident (potential_deps s))
    k ← lift (none_err pos)
    t' ← lift (add_dep t (1 + k))
    dep_loop fuel t')
]

-- The loop at the end of `binder_dep_ty`. The positions are those in the growing `vars_done`; the
-- variables are those beyond its length before the loop.
unfoldable pub push_vars : Ty → List (Str × Bool) → Act (Unit {0})
push_vars t [] = pure tt
push_vars t ((i, is_dummy) ∷ todo) = do
  modify (λ s. record s {
    vars_done =
        snoc s.vars_done
          (record { ident = some i; pos = length s.vars_done; ty = t; is_dummy = is_dummy });
  })
  push_vars t todo

unfoldable pub binder_dep_ty : Bool → Act (Unit {0})
unfolding ident get_sort_num add_sort new take_next_bv dep_loop push_vars
binder_dep_ty bound = do
  sort_ident ← ident
  mem ← gets (λ s. s.mem)
  sort_num ← lift (get_sort_num mem sort_ident)
  let sorted = add_sort (new bound) sort_num
  fuel ← gets file_fuel
  t ←
      if bound
      then (do bv ← take_next_bv; pure (ty (bit_or sorted.inner bv)))
      else dep_loop fuel sorted
  todo ← gets (λ s. drop (length s.vars_done) s.vars_todo)
  push_vars t todo

-- The loop that compares the new variables with the types of the binary file, `zip`ped.
unfoldable pub same_types : Bool → List MmzVar → List Ty → Bool
unfolding high_bit
same_types bound [] tys = true
same_types bound (l ∷ ls) [] = true
same_types bound (l ∷ ls) (r ∷ tys) =
    let rest = same_types bound ls tys in
    (if bound then (high_bit l.ty).inner == (high_bit r).inner else l.ty.inner == r.inner) && rest

-- `self.guard(b'(').or(self.guard(b'{'))`: the second guard is run whatever the first one gives.
unfoldable pub opener : Act ℕ
unfolding guard
opener = do
  round ← attempt (guard 40)
  curly ← attempt (guard 123)
  elim round [ some c ↦ pure c | none ↦ elim curly [ some c ↦ pure c | none ↦ fail msg ] ]

unfoldable pub binder_group : List Ty → Mode → Act (Unit {0})
unfolding opener non_dummy_vars binder_idents guard skip_ws cur_is binder_fml binder_dep_ty
    same_types
binder_group args_todo mode = do
  open_char ← localize opener
  let bound = open_char == 123
  before ← gets (λ s. length (non_dummy_vars s))
  fuel ← gets file_fuel
  binder_idents fuel mode
  localize (guard 58)
  skip_ws
  formula ← gets (cur_is 36)
  if formula then binder_fml bound mode else binder_dep_ty bound
  fresh ← gets (λ s. drop before (non_dummy_vars s))
  ensure (leb (length fresh) (length args_todo))
  ensure (same_types bound fresh args_todo)
  localize (guard (if bound then 125 else 41))
  pure tt

-- The loop of `binders` over the groups; what a group that fails has pushed is cut off again, to
-- the lengths after the last group. A group takes a byte at least.
unfoldable pub binder_groups : ℕ → List Ty → Mode → ℕ → ℕ → Act (Unit {0})
unfolding non_dummy_vars binder_group
binder_groups zero args mode todo_len done_len = lift hang
binder_groups (suc fuel) args mode todo_len done_len = gets cur >>= λ c. elim c [
  | none ↦ pure tt
  | some _ ↦ gets (λ s. drop (length (non_dummy_vars s)) args) >>= λ args_todo.
      attempt (binder_group args_todo mode) >>= λ o. elim o [
        | some _ ↦ gets (λ s. length s.vars_todo) >>= λ todo.
            gets (λ s. length s.vars_done) >>= λ done. binder_groups fuel args mode todo done
        | none ↦ modify (λ s. record s {
          vars_todo = take todo_len s.vars_todo;
          vars_done = take done_len s.vars_done;
        })
      ]
]

-- The arrow's next type, checked.
unfoldable pub arrow_type : List Ty → Act (List Ty)
unfolding ident get_sort_num new_with_sort dep_loop
arrow_type arrow_args = do
  sort_ident ← ident
  mem ← gets (λ s. s.mem)
  sort_num ← lift (get_sort_num mem sort_ident)
  fuel ← gets file_fuel
  t ← dep_loop fuel (new_with_sort sort_num)
  elim arrow_args [
    | [] ↦ fail none_err_err
    | r ∷ rest ↦ ensure (t.inner == r.inner) >>= λ _. pure rest
  ]

-- A hypothesis without a name.
unfoldable pub arrow_hyp : Mode → Act (Unit {0})
unfolding expr_ coerce_prov
arrow_hyp mode = do
  ensure (is_assert_mode mode)
  math_expr ← expr_
  math_expr' ← coerce_prov math_expr
  modify
      (λ s. record s { hyps = (record { ident = none; pos = none; expr = math_expr' }) ∷ s.hyps })

-- The loop of `return_ty`; a part of the type takes a byte at least.
unfoldable pub return_ty : ℕ → List Ty → Mode → Act (Unit {0})
unfolding skip_ws cur_is arrow_hyp arrow_type
return_ty zero arrow_args mode = lift hang
return_ty (suc fuel) arrow_args mode = gets cur >>= λ c. elim c [
  | none ↦ pure tt
  | some _ ↦ (do
    skip_ws
    formula ← gets (cur_is 36)
    rest ← if formula then (arrow_hyp mode >>= λ _. pure arrow_args) else arrow_type arrow_args
    skip_ws
    arrow ← gets (cur_is 62)
    if arrow then (advance 1 >>= λ _. return_ty fuel rest mode) else pure tt)
]

-- `args` are the types of the declaration's arguments in the binary file.
unfoldable pub binders : List Ty → Mode → Act (Unit {0})
unfolding binder_groups guard non_dummy_vars return_ty
binders args mode = do
  fuel ← gets file_fuel
  binder_groups fuel args mode 0 0
  localize (guard 58)
  args_todo ← gets (λ s. drop (length (non_dummy_vars s)) args)
  return_ty fuel args_todo mode
