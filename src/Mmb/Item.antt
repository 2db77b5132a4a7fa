-- ===== src/Mmb/Item.antt =====
-- src/mmb/mod.rs: expressions and stack items. An item is a reference into the arena; the number
-- that it carries is its address, which `Refl` compares, and structural equality does not.
use second_opinion.Prelude.{
  ℕ, Bool, true, false, ◌&&◌, List, [], ◌∷◌, ◌==◌, Res, ok, err, msg, or_res, unwrap_res, ◌>>=◌,
}
use second_opinion.Util.Ty.{Ty, ty, deps, bound_digit}

-- `MmbExpr`, `MmbItem` and the argument slice `&[&MmbItem]`.
mutual
  pub data MmbExpr : Type 0 where
    var : ℕ → Ty → MmbExpr
    app : ℕ → MmbItems → Ty → MmbExpr

  pub data MmbItem : Type 0 where
    expr : ℕ → MmbExpr → MmbItem
    proof : ℕ → MmbItem → MmbItem
    conv : ℕ → MmbItem → MmbItem → MmbItem
    co_conv : ℕ → MmbItem → MmbItem → MmbItem

  pub data MmbItems : Type 0 where
    nil : MmbItems
    cons : MmbItem → MmbItems → MmbItems

abbrev pub to_list : MmbItems → List MmbItem
to_list nil = []
to_list (cons e es) = e ∷ to_list es

abbrev pub from_list : List MmbItem → MmbItems
from_list [] = nil
from_list (e ∷ es) = cons e (from_list es)

abbrev pub address : MmbItem → ℕ
address (expr p e) = p
address (proof p e) = p
address (conv p a b) = p
address (co_conv p a b) = p

-- The derived `PartialEq`, which looks through references.
unfoldable mutual
  pub expr_eq : MmbExpr → MmbExpr → Bool
  expr_eq (var i s) (var j t) = i == j && s.inner == t.inner
  expr_eq (app n xs s) (app m bs t) = n == m && items_eq xs bs && s.inner == t.inner
  expr_eq (var i s) (app m bs t) = false
  expr_eq (app n xs s) (var j t) = false

  pub item_eq : MmbItem → MmbItem → Bool
  item_eq (expr p a) (expr q b) = expr_eq a b
  item_eq (expr p a) (proof q b) = false
  item_eq (expr p a) (conv q b c) = false
  item_eq (expr p a) (co_conv q b c) = false
  item_eq (proof p a) (proof q b) = item_eq a b
  item_eq (proof p a) (expr q b) = false
  item_eq (proof p a) (conv q b c) = false
  item_eq (proof p a) (co_conv q b c) = false
  item_eq (conv p a b) (conv q c d) = item_eq a c && item_eq b d
  item_eq (conv p a b) (expr q c) = false
  item_eq (conv p a b) (proof q c) = false
  item_eq (conv p a b) (co_conv q c d) = false
  item_eq (co_conv p a b) (co_conv q c d) = item_eq a c && item_eq b d
  item_eq (co_conv p a b) (expr q c) = false
  item_eq (co_conv p a b) (proof q c) = false
  item_eq (co_conv p a b) (conv q c d) = false

  pub items_eq : MmbItems → MmbItems → Bool
  items_eq nil nil = true
  items_eq (cons a xs) (cons b bs) = item_eq a b && items_eq xs bs
  items_eq nil (cons b bs) = false
  items_eq (cons a xs) nil = false

unfoldable pub expr_ty : MmbExpr → Ty
expr_ty (var idx t) = t
expr_ty (app n xs t) = t

unfoldable pub get_ty : MmbItem → Res Ty
unfolding expr_ty
get_ty (expr p e) = ok (expr_ty e)
get_ty (proof p e) = err msg
get_ty (conv p a b) = err msg
get_ty (co_conv p a b) = err msg

unfoldable pub get_deps : MmbItem → Res Ty
unfolding get_ty
get_deps e = do t ← get_ty e; d ← deps t; ok (ty d)

unfoldable pub get_bound_digit : MmbItem → Res Ty
unfolding get_ty
get_bound_digit e = do t ← get_ty e; d ← bound_digit t; ok (ty d)

unfoldable pub low_bits : MmbItem → Res Ty
unfolding get_deps get_bound_digit
low_bits e = unwrap_res (or_res (get_deps e) (get_bound_digit e))
