-- ===== src/Mmb/Unify/Pattern.antt =====
-- What a unify stream means: a pattern, and the recursive descent that matches an expression
-- against it. The machine of src/mmb/unify.rs has a stack in place of the recursion.
use second_opinion.Prelude.{
  ℕ, suc, Bool, List, [], ◌∷◌, ◌++◌, length, get_elem?, snoc, ◌==◌, if◌then◌else◌, ◌≡◌, Res, ok,
  err, msg, unreachable, none_err, make_sure, unwrap, ◌>>=◌, ◌>>◌,
}
use second_opinion.Util.Ty.{sort, bound_digit}
use second_opinion.Mmb.UnifyCmd.{UnifyCmd}
use second_opinion.Mmb.Item.{
  MmbExpr, MmbItem, MmbItems, nil, cons, var, app, expr, proof, conv, co_conv, to_list, item_eq,
}
use second_opinion.Mmb.Unify.{UMode, u_thm, u_thm_end, fresh_for, is_u_def, proved, pop?}

-- A reference to the unify heap, a term applied to patterns (and saved or not), a dummy variable.
mutual
  pub data Pattern : Type 0 where
    ref_pat : ℕ → Pattern
    term_pat : ℕ → Bool → Patterns → Pattern
    dummy_pat : ℕ → Pattern

  pub data Patterns : Type 0 where
    no_pats : Patterns
    pats : Pattern → Patterns → Patterns

-- The commands of a pattern, in the order of the stream.
unfoldable mutual
  pub commands : Pattern → List UnifyCmd
  commands (ref_pat i) = UnifyCmd.ref i ∷ []
  commands (term_pat n save ps) = UnifyCmd.term n save ∷ commands_all ps
  commands (dummy_pat sort_id) = UnifyCmd.dummy sort_id ∷ []

  pub commands_all : Patterns → List UnifyCmd
  commands_all no_pats = []
  commands_all (pats p ps) = commands p ++ commands_all ps

-- A variable of the right sort that is bound and new to the heap.
unfoldable pub match_dummy : UMode → ℕ → MmbItem → List MmbItem → Res (List MmbItem)
unfolding fresh_for is_u_def
match_dummy mode sort_id (expr p (var idx t)) h = do
  make_sure (is_u_def mode)
  make_sure (sort_id == sort t)
  bound_idx ← bound_digit t
  fresh_for bound_idx h
  ok (snoc h (expr p (var idx t)))
match_dummy mode sort_id (expr p (app n xs t)) h = do make_sure (is_u_def mode); err unreachable
match_dummy mode sort_id (proof p e) h = do make_sure (is_u_def mode); err unreachable
match_dummy mode sort_id (conv p a b) h = do make_sure (is_u_def mode); err unreachable
match_dummy mode sort_id (co_conv p a b) h = do make_sure (is_u_def mode); err unreachable

abbrev pub match_ref : ℕ → MmbItem → List MmbItem → Res (List MmbItem)
match_ref i e h = do
  heap_elem ← none_err (get_elem? h i)
  if item_eq heap_elem e then ok h else err msg

-- Matching an expression against a pattern under the heap `h` gives the extended heap.
unfoldable mutual
  pub match_pattern : UMode → Pattern → MmbItem → List MmbItem → Res (List MmbItem)
  match_pattern mode (ref_pat i) e h = match_ref i e h
  match_pattern mode (dummy_pat sort_id) e h = match_dummy mode sort_id e h
  match_pattern mode (term_pat n save ps) (expr p (app m xs t)) h = do
    make_sure (n == m)
    match_all mode ps xs (if save then snoc h (expr p (app m xs t)) else h)
  match_pattern mode (term_pat n save ps) (expr p (var idx t)) h = err unreachable
  match_pattern mode (term_pat n save ps) (proof p e) h = err unreachable
  match_pattern mode (term_pat n save ps) (conv p a b) h = err unreachable
  match_pattern mode (term_pat n save ps) (co_conv p a b) h = err unreachable

  pub match_all : UMode → Patterns → MmbItems → List MmbItem → Res (List MmbItem)
  match_all mode no_pats nil h = ok h
  match_all mode no_pats (cons e es) h = err msg
  match_all mode (pats p ps) nil h = err msg
  match_all mode (pats p ps) (cons e es) h = do
    h' ← match_pattern mode p e h
    match_all mode ps es h'

abbrev pub count : Patterns → ℕ
count no_pats = 0
count (pats p ps) = suc (count ps)

-- Every application of the term `n` has `arity n` arguments.
abbrev mutual
  pub HasArity : (ℕ → ℕ) → MmbItem → Type 0
  HasArity arity (expr p e) = ExprHasArity arity e
  HasArity arity (proof p e) = HasArity arity e
  HasArity arity (conv p a b) = HasArity arity a × HasArity arity b
  HasArity arity (co_conv p a b) = HasArity arity a × HasArity arity b

  pub ExprHasArity : (ℕ → ℕ) → MmbExpr → Type 0
  ExprHasArity arity (var idx t) = Unit
  ExprHasArity arity (app n xs t) = (length (to_list xs) ≡ arity n) × ItemsHaveArity arity xs

  pub ItemsHaveArity : (ℕ → ℕ) → MmbItems → Type 0
  ItemsHaveArity arity nil = Unit
  ItemsHaveArity arity (cons e es) = HasArity arity e × ItemsHaveArity arity es

abbrev mutual
  pub PatternHasArity : (ℕ → ℕ) → Pattern → Type 0
  PatternHasArity arity (ref_pat i) = Unit
  PatternHasArity arity (dummy_pat sort_id) = Unit
  PatternHasArity arity (term_pat n save ps) = (count ps ≡ arity n) × PatternsHaveArity arity ps

  pub PatternsHaveArity : (ℕ → ℕ) → Patterns → Type 0
  PatternsHaveArity arity no_pats = Unit
  PatternsHaveArity arity (pats p ps) = PatternHasArity arity p × PatternsHaveArity arity ps

-- The commands of a statement: its conclusion, then its hypotheses.
unfoldable pub hyp_commands : List Pattern → List UnifyCmd
hyp_commands [] = []
hyp_commands (p ∷ ps) = UnifyCmd.hyp ∷ (commands p ++ hyp_commands ps)

unfoldable pub statement : Pattern → List Pattern → List UnifyCmd
statement concl hyps = commands concl ++ hyp_commands hyps

-- When a theorem is applied, the proofs of its hypotheses stand on the main stack.
unfoldable pub match_proofs :
    List Pattern → List MmbItem → List MmbItem → Res (List MmbItem × List MmbItem)
unfolding match_pattern proved
match_proofs [] st h = ok (st, h)
match_proofs (p ∷ ps) st h = do
  (x, rest) ← none_err (pop? st)
  e ← proved x
  h' ← match_pattern u_thm p e h
  match_proofs ps rest h'

-- When a theorem is declared, its hypotheses stand on the hypothesis stack.
unfoldable pub match_declared :
    List Pattern → List MmbItem → List MmbItem → Res (List MmbItem × List MmbItem)
unfolding match_pattern
match_declared [] st h = ok (st, h)
match_declared (p ∷ ps) st h = do
  (e, rest) ← unwrap (pop? st)
  h' ← match_pattern u_thm_end p e h
  match_declared ps rest h'
