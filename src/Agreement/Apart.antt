-- ===== src/Agreement/Apart.antt =====
-- src/mmb/proof.rs: convertible expressions of a file in which no term unfolds.
use second_opinion.Prelude.{ℕ, ◌≡◌, refl, sym, ap, ◌∙◌, ok}
use second_opinion.Util.Outline.{Outline, Term, get_term_by_num}
use second_opinion.Mmb.Item.{MmbItem, MmbItems}
use second_opinion.Mmb.Soundness.{
  Equal, EqualArgs, itself, alike, reversed, chained, congruent, unfolded, no_args, args,
}
use second_opinion.Agreement.{Shapes, node, then_shape, shape, shapes}
use second_opinion.Agreement.Equality.{item_eq-shape}

module _ (o : Outline) (no_term : (n : ℕ) (t : Term) → ¬ (get_term_by_num o n ≡ ok t)) where
  mutual
    -- Without definitions only an expression of the same shape is convertible.
    pub Equal-shape : (a b : MmbItem) → Equal o a b → shape a ≡ shape b
    Equal-shape a b itself = refl
    Equal-shape a b (alike h) = item_eq-shape a b h
    Equal-shape a b (reversed e) = sym (Equal-shape b a e)
    Equal-shape a b (chained {b = c} e f) = Equal-shape a c e ∙ Equal-shape c b f
    Equal-shape a b (congruent {n = n} {xs = xs} {ys = ys} es) =
        ap (λ (ss : Shapes). node n ss) (EqualArgs-shapes xs ys es)
    Equal-shape a b (unfolded {n = n} {t = t} s e f g h) = absurd (no_term n t e)

    EqualArgs-shapes : (xs ys : MmbItems) → EqualArgs o xs ys → shapes xs ≡ shapes ys
    EqualArgs-shapes xs ys no_args = refl
    EqualArgs-shapes xs ys (args {x = x} {y = y} {xs = xs'} {ys = ys'} e es) =
        λ i. then_shape (Equal-shape x y e i) (EqualArgs-shapes xs' ys' es i)
