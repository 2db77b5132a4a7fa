-- ===== src/Agreement/Equality.antt =====
-- The equality tests of src/mmb/mod.rs and src/mmz/mod.rs against shapes.
use second_opinion.Prelude.{ℕ, true, ◌&&◌, ◌==◌, ◌≡◌, refl, ap, ==_iff, &&-eq-true, arith}
use second_opinion.Mmb.Item as Mmb
use second_opinion.Mmb.Item.{
  MmbItem, MmbItems, expr, proof, conv, co_conv, item_eq, items_eq, expr_eq,
}
use second_opinion.Mmz.Data as Mmz
use second_opinion.Mmz.Data.{MmzExpr, MmzExprs, mmz_eq, mmzs_eq, var_eq, ident_eq}
use second_opinion.Agreement.{
  Shape, Shapes, leaf, node, then_shape, shape, shapes, spec_shape, spec_shapes,
}

node_eq : {n m : ℕ} {ss ts : Shapes} → n ≡ m → ss ≡ ts → node n ss ≡ node m ts
node_eq e f = λ i. node (e i) (f i)

then_eq : {s t : Shape} {ss ts : Shapes} → s ≡ t → ss ≡ ts → then_shape s ss ≡ then_shape t ts
then_eq e f = λ i. then_shape (e i) (f i)

mutual
  unfolding item_eq

  pub item_eq-shape : (x y : MmbItem) → item_eq x y ≡ true → shape x ≡ shape y
  item_eq-shape (expr p (Mmb.var i s)) (expr q (Mmb.var j t)) h =
      ap leaf ((==_iff i j).0 (&&-eq-true (i == j) (s.inner == t.inner) h).0)
  item_eq-shape (expr p (Mmb.app n xs s)) (expr q (Mmb.app m ys t)) h =
      let (heads, same_ty) = &&-eq-true (n == m && items_eq xs ys) (s.inner == t.inner) h in
      let (same, rest) = &&-eq-true (n == m) (items_eq xs ys) heads in
      node_eq ((==_iff n m).0 same) (items_eq-shapes xs ys rest)
  item_eq-shape (expr p (Mmb.var i s)) (expr q (Mmb.app m ys t)) h = ground arith
  item_eq-shape (expr p (Mmb.app n xs s)) (expr q (Mmb.var j t)) h = ground arith
  item_eq-shape (expr p a) (proof q e) h = ground arith
  item_eq-shape (expr p a) (conv q b c) h = ground arith
  item_eq-shape (expr p a) (co_conv q b c) h = ground arith
  item_eq-shape (proof p e) (expr q b) h = ground arith
  item_eq-shape (proof p e) (proof q b) h = refl
  item_eq-shape (proof p e) (conv q b c) h = refl
  item_eq-shape (proof p e) (co_conv q b c) h = refl
  item_eq-shape (conv p a b) (expr q c) h = ground arith
  item_eq-shape (conv p a b) (proof q c) h = refl
  item_eq-shape (conv p a b) (conv q c d) h = refl
  item_eq-shape (conv p a b) (co_conv q c d) h = refl
  item_eq-shape (co_conv p a b) (expr q c) h = ground arith
  item_eq-shape (co_conv p a b) (proof q c) h = refl
  item_eq-shape (co_conv p a b) (conv q c d) h = refl
  item_eq-shape (co_conv p a b) (co_conv q c d) h = refl

  pub items_eq-shapes : (xs ys : MmbItems) → items_eq xs ys ≡ true → shapes xs ≡ shapes ys
  items_eq-shapes Mmb.nil Mmb.nil h = refl
  items_eq-shapes Mmb.nil (Mmb.cons y ys) h = ground arith
  items_eq-shapes (Mmb.cons x xs) Mmb.nil h = ground arith
  items_eq-shapes (Mmb.cons x xs) (Mmb.cons y ys) h =
      let (same, rest) = &&-eq-true (item_eq x y) (items_eq xs ys) h in
      then_eq (item_eq-shape x y same) (items_eq-shapes xs ys rest)

mutual
  unfolding mmz_eq var_eq

  pub mmz_eq-shape : (x y : MmzExpr) → mmz_eq x y ≡ true → spec_shape x ≡ spec_shape y
  mmz_eq-shape (Mmz.var v) (Mmz.var w) h =
      let (first, same_dummy) =
        &&-eq-true (ident_eq v.ident w.ident && v.pos == w.pos && v.ty.inner == w.ty.inner) _ h in
      let (heads, same_ty) =
        &&-eq-true (ident_eq v.ident w.ident && v.pos == w.pos) (v.ty.inner == w.ty.inner) first in
      ap leaf
        ((==_iff v.pos w.pos).0 (&&-eq-true (ident_eq v.ident w.ident) (v.pos == w.pos) heads).1)
  mmz_eq-shape (Mmz.var v) (Mmz.app m l es t) h = ground arith
  mmz_eq-shape (Mmz.app n l es t) (Mmz.var v) h = ground arith
  mmz_eq-shape (Mmz.app n k xs s) (Mmz.app m l ys t) h =
      let (first, same_sort) = &&-eq-true (n == m && k == l && mmzs_eq xs ys) (s == t) h in
      let (heads, rest) = &&-eq-true (n == m && k == l) (mmzs_eq xs ys) first in
      node_eq ((==_iff n m).0 (&&-eq-true (n == m) (k == l) heads).0) (mmzs_eq-shapes xs ys rest)

  pub mmzs_eq-shapes : (xs ys : MmzExprs) → mmzs_eq xs ys ≡ true → spec_shapes xs ≡ spec_shapes ys
  mmzs_eq-shapes Mmz.nil Mmz.nil h = refl
  mmzs_eq-shapes Mmz.nil (Mmz.cons y ys) h = ground arith
  mmzs_eq-shapes (Mmz.cons x xs) Mmz.nil h = ground arith
  mmzs_eq-shapes (Mmz.cons x xs) (Mmz.cons y ys) h =
      let (same, rest) = &&-eq-true (mmz_eq x y) (mmzs_eq xs ys) h in
      then_eq (mmz_eq-shape x y same) (mmzs_eq-shapes xs ys rest)
