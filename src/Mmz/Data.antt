-- ===== src/Mmz/Data.antt =====
-- src/mmz/mod.rs: expressions, hypotheses, notation and coercions of the specification side.
use second_opinion.Prelude.{
  ℕ, Bool, true, false, ◌&&◌, not, leb, List, [], ◌∷◌, ◌==◌, Option, none, some,
}
use second_opinion.Util.Ty.{Ty, sort, is_bound}

-- A string of the source, as its bytes.
abbrev pub Str : Type 0
Str = List ℕ

unfoldable pub str_eq : Str → Str → Bool
str_eq [] [] = true
str_eq (a ∷ s) (b ∷ t) = a == b && str_eq s t
str_eq [] (b ∷ t) = false
str_eq (a ∷ s) [] = false

unfoldable pub ident_eq : Option Str → Option Str → Bool
unfolding str_eq
ident_eq none none = true
ident_eq (some a) (some b) = str_eq a b
ident_eq none (some b) = false
ident_eq (some a) none = false

unfoldable pub bool_eq : Bool → Bool → Bool
bool_eq true b = b
bool_eq false b = not b

pub record MmzVar : Type 0 where
  pub ident : Option Str
  pub pos : ℕ
  pub ty : Ty
  pub is_dummy : Bool

-- `MmzExpr`, and the slice of an application's arguments.
mutual
  pub data MmzExpr : Type 0 where
    var : MmzVar → MmzExpr
    app : ℕ → ℕ → MmzExprs → ℕ → MmzExpr

  pub data MmzExprs : Type 0 where
    nil : MmzExprs
    cons : MmzExpr → MmzExprs → MmzExprs

abbrev pub to_exprs : List MmzExpr → MmzExprs
to_exprs [] = nil
to_exprs (e ∷ es) = cons e (to_exprs es)

abbrev pub expr_list : MmzExprs → List MmzExpr
expr_list nil = []
expr_list (cons e es) = e ∷ expr_list es

unfoldable pub var_sort : MmzVar → ℕ
unfolding sort
var_sort v = sort v.ty

unfoldable pub var_is_bound : MmzVar → Bool
unfolding is_bound
var_is_bound v = is_bound v.ty

unfoldable pub expr_sort : MmzExpr → ℕ
unfolding var_sort
expr_sort (var v) = var_sort v
expr_sort (app term_num num_args es s) = s

-- The derived `PartialEq`s.
unfoldable pub var_eq : MmzVar → MmzVar → Bool
unfolding ident_eq bool_eq
var_eq v w =
    ident_eq v.ident w.ident
    && v.pos == w.pos
    && v.ty.inner == w.ty.inner
    && bool_eq v.is_dummy w.is_dummy

unfoldable mutual
  unfolding var_eq

  pub mmz_eq : MmzExpr → MmzExpr → Bool
  mmz_eq (var v) (var w) = var_eq v w
  mmz_eq (app n k xs s) (app m l ys t) = n == m && k == l && mmzs_eq xs ys && s == t
  mmz_eq (var v) (app m l ys t) = false
  mmz_eq (app n k xs s) (var w) = false

  pub mmzs_eq : MmzExprs → MmzExprs → Bool
  mmzs_eq nil nil = true
  mmzs_eq (cons x xs) (cons y ys) = mmz_eq x y && mmzs_eq xs ys
  mmzs_eq nil (cons y ys) = false
  mmzs_eq (cons x xs) nil = false

pub record MmzHyp : Type 0 where
  pub ident : Option Str
  pub pos : Option ℕ
  pub expr : MmzExpr

pub data DelimKind : Type 0 where
  left_delim right_delim both_delims : DelimKind

-- `num` is below `max_prec`, as in the derived order.
pub data Prec : Type 0 where
  num : ℕ → Prec
  max_prec : Prec

unfoldable pub prec_eq : Prec → Prec → Bool
prec_eq (num n) (num m) = n == m
prec_eq max_prec max_prec = true
prec_eq (num n) max_prec = false
prec_eq max_prec (num m) = false

unfoldable pub prec_le : Prec → Prec → Bool
prec_le (num n) (num m) = leb n m
prec_le p max_prec = true
prec_le max_prec (num m) = false

pub data Fix : Type 0 where
  infixl_fix infixr_fix prefix_fix : Fix

pub data Assoc : Type 0 where
  left right : Assoc

unfoldable pub assoc_eq : Assoc → Assoc → Bool
assoc_eq left left = true
assoc_eq right right = true
assoc_eq left right = false
assoc_eq right left = false

pub data NotationLit : Type 0 where
  var_lit : ℕ → Prec → NotationLit
  const_lit : Str → NotationLit

pub record NotationInfo : Type 0 where
  pub term_num : ℕ
  pub term_ident : Str
  pub rassoc : Bool
  pub lits : List NotationLit

unfoldable pub lit_eq : NotationLit → NotationLit → Bool
unfolding prec_eq str_eq
lit_eq (var_lit i p) (var_lit j q) = i == j && prec_eq p q
lit_eq (const_lit s) (const_lit t) = str_eq s t
lit_eq (var_lit i p) (const_lit t) = false
lit_eq (const_lit s) (var_lit j q) = false

unfoldable pub lits_eq : List NotationLit → List NotationLit → Bool
unfolding lit_eq
lits_eq [] [] = true
lits_eq (a ∷ s) (b ∷ t) = lit_eq a b && lits_eq s t
lits_eq [] (b ∷ t) = false
lits_eq (a ∷ s) [] = false

unfoldable pub info_eq : NotationInfo → NotationInfo → Bool
unfolding str_eq bool_eq lits_eq
info_eq a b =
    a.term_num == b.term_num
    && str_eq a.term_ident b.term_ident
    && bool_eq a.rassoc b.rassoc
    && lits_eq a.lits b.lits

-- A coercion by one term, or over the sort in the middle.
pub data Coe : Type 0 where
  single : ℕ → Coe
  trans : Coe → ℕ → Coe → Coe
