-- ===== src/Agreement/Matching.antt =====
-- A pattern that matches an item of the binary file and an expression of the specification.
use second_opinion.Prelude.{
  ℕ, suc, Bool, true, false, List, length, snoc, get_elem?, length-snoc, if◌then◌else◌, ◌==◌, ◌≡◌,
  refl, sym, ap, ◌∙◌, subst, Option, none, some, ok, err, msg, >>=-eq-ok, ok_inj, make_sure,
  make_sure-eq-ok, none_err, unwrap, ==_iff, arith,
}
use second_opinion.Mmb.Item as Mmb
use second_opinion.Mmb.Item.{MmbItem, MmbItems, expr, proof, conv, co_conv, item_eq}
use second_opinion.Mmb.Unify.{u_thm, u_thm_end}
use second_opinion.Mmb.Unify.Pattern.{
  Pattern, Patterns, ref_pat, term_pat, dummy_pat, no_pats, pats, match_ref, match_dummy,
  match_pattern, match_all,
}
use second_opinion.Mmz.Data as Mmz
use second_opinion.Mmz.Data.{MmzExpr, MmzExprs, mmz_eq}
use second_opinion.Mmz.Check.Machine.{match_spec, match_specs, spec_ref}
use second_opinion.Agreement.{Shape, node, none_left, shape, shapes, spec_shape, spec_shapes}
use second_opinion.Agreement.Equality.{item_eq-shape, mmz_eq-shape}
use second_opinion.Agreement.Slots.{
  Rel, by_slot, by_node, RelAll, rel_nil, rel_cons, Just, both_node, Rel-mono,
}
use second_opinion.Agreement.Growth.{Step, same-Step, then-Step, push-Step}

-- The heaps agree from the one length on, and so do the shapes that were matched.
abbrev pub Agree :
    List MmbItem → List MmzExpr → List MmbItem → List MmzExpr → Shape → Shape → Type 0
Agree h k h' k' s t = Step h k h' k' × Rel h' k' s t

ref-Agree :
    (i : ℕ) (e : MmbItem) (f : MmzExpr) (h h' : List MmbItem) (k k' : List MmzExpr)
    → length h ≡ length k
    → match_ref i e h ≡ ok h'
    → spec_ref i f k ≡ ok k'
    → Agree h k h' k' (shape e) (spec_shape f)
ref-Agree i e f h h' k k' len m n =
    let (x, p, m') = >>=-eq-ok (none_err (get_elem? h i)) _ m in
    let (y, q, n') = >>=-eq-ok (unwrap (get_elem? k i)) _ n in
    let (same, at) = tested (item_eq x e) h m' in
    let (same_spec, spec_at) = tested (mmz_eq y f) k n' in
    subst (λ z. Agree h k z k' (shape e) (spec_shape f)) at
      (subst (λ z. Agree h k h z (shape e) (spec_shape f)) spec_at
        (
          same-Step h k len,
          by_slot i x y (found_some (get_elem? h i) p) (unwrap_some (get_elem? k i) q)
              (item_eq-shape x e same) (mmz_eq-shape y f same_spec),
        ))
  where
    tested :
        {A : Type 0} (b : Bool) (h : A) {h' : A}
        → (if b then ok h else err msg) ≡ ok h'
        → (b ≡ true) × (h ≡ h')
    tested true h r = (refl, ok_inj r)
    tested false h r = ground arith

    found_some : {A : Type 0} (o : Option A) {x : A} → none_err o ≡ ok x → o ≡ some x
    found_some none r = ground arith
    found_some (some x) r = ap (λ z. some z) (ok_inj r)

    unwrap_some : {A : Type 0} (o : Option A) {x : A} → unwrap o ≡ ok x → o ≡ some x
    unwrap_some none r = ground arith
    unwrap_some (some x) r = ap (λ z. some z) (ok_inj r)

-- A statement has no dummy variable.
dummy-Agree :
    (sort_id : ℕ) (e : MmbItem) (f : MmzExpr) (h h' : List MmbItem) (k k' : List MmzExpr)
    → match_dummy u_thm_end sort_id e h ≡ ok h'
    → Agree h k h' k' (shape e) (spec_shape f)
unfolding match_dummy
dummy-Agree sort_id (expr p (Mmb.var idx t)) f h h' k k' m = ground arith
dummy-Agree sort_id (expr p (Mmb.app n xs t)) f h h' k k' m = ground arith
dummy-Agree sort_id (proof p e) f h h' k k' m = ground arith
dummy-Agree sort_id (conv p x y) f h h' k k' m = ground arith
dummy-Agree sort_id (co_conv p x y) f h h' k k' m = ground arith

-- The saved terms, before their arguments.
saved-Step :
    (save : Bool) (x : MmbItem) (y : MmzExpr) (h h' : List MmbItem) (k k' : List MmzExpr)
    → length h ≡ length k
    → Step (if save then snoc h x else h) (if save then snoc k y else k) h' k'
    → Just h' k' (shape x) (spec_shape y)
    → Step h k h' k'
saved-Step true x y h h' k k' len b j = push-Step x y len b j
saved-Step false x y h h' k k' len b j = b

saved-length :
    {A B : Type 0} (save : Bool) (x : A) (y : B) (h : List A) (k : List B)
    → length h ≡ length k
    → length (if save then snoc h x else h) ≡ length (if save then snoc k y else k)
saved-length true x y h k len = length-snoc h x ∙ ap suc len ∙ sym (length-snoc k y)
saved-length false x y h k len = len

mutual
  unfolding match_pattern match_spec

  -- When one pattern of a statement matches both, the shapes agree by the slots of the heaps that the matches leave.
  pub match-Agree :
      (q : Pattern) (e : MmbItem) (f : MmzExpr) (h h' : List MmbItem) (k k' : List MmzExpr)
      → length h ≡ length k
      → match_pattern u_thm_end q e h ≡ ok h'
      → match_spec u_thm q f k ≡ ok k'
      → Agree h k h' k' (shape e) (spec_shape f)
  match-Agree (ref_pat i) e f h h' k k' len m n = ref-Agree i e f h h' k k' len m n
  match-Agree (dummy_pat sort_id) e f h h' k k' len m n = dummy-Agree sort_id e f h h' k k' m
  match-Agree (term_pat n save ps) (expr p (Mmb.app m xs t)) (Mmz.app j c es s) h h' k k' len u v =
      let (_, same, u') = >>=-eq-ok (make_sure (n == m)) _ u in
      let (_, spec_same, v') = >>=-eq-ok (make_sure (n == j)) _ v in
      let heads : m ≡ j =
        sym ((==_iff n m).0 (make_sure-eq-ok (n == m) same))
        ∙ (==_iff n j).0 (make_sure-eq-ok (n == j) spec_same) in
      let (step, args) =
        match_all-Agree ps xs es _ h' _ k'
          (saved-length save (expr p (Mmb.app m xs t)) (Mmz.app j c es s) h k len) u' v' in
      (
        saved-Step save (expr p (Mmb.app m xs t)) (Mmz.app j c es s) h h' k k' len step (
            subst (λ z. Just h' k' (node m (shapes xs)) (node z (spec_shapes es))) heads
              (both_node m args)),
        subst (λ z. Rel h' k' (node m (shapes xs)) (node z (spec_shapes es))) heads
            (by_node m args),
      )
  match-Agree (term_pat n save ps) (expr p (Mmb.app m xs t)) (Mmz.var w) h h' k k' len u v =
      ground arith
  match-Agree (term_pat n save ps) (expr p (Mmb.var idx t)) f h h' k k' len u v = ground arith
  match-Agree (term_pat n save ps) (proof p e) f h h' k k' len u v = ground arith
  match-Agree (term_pat n save ps) (conv p x y) f h h' k k' len u v = ground arith
  match-Agree (term_pat n save ps) (co_conv p x y) f h h' k k' len u v = ground arith

  pub match_all-Agree :
      (ps : Patterns) (xs : MmbItems) (es : MmzExprs) (h h' : List MmbItem) (k k' : List MmzExpr)
      → length h ≡ length k
      → match_all u_thm_end ps xs h ≡ ok h'
      → match_specs u_thm ps es k ≡ ok k'
      → Step h k h' k' × RelAll h' k' (shapes xs) (spec_shapes es)
  match_all-Agree no_pats Mmb.nil Mmz.nil h h' k k' len u v =
      subst (λ z. Step h k z k' × RelAll z k' none_left none_left) (ok_inj u)
        (subst (λ z. Step h k h z × RelAll h z none_left none_left) (ok_inj v)
          (same-Step h k len, rel_nil))
  match_all-Agree no_pats Mmb.nil (Mmz.cons f es) h h' k k' len u v = ground arith
  match_all-Agree no_pats (Mmb.cons x xs) es h h' k k' len u v = ground arith
  match_all-Agree (pats q ps) Mmb.nil es h h' k k' len u v = ground arith
  match_all-Agree (pats q ps) (Mmb.cons x xs) Mmz.nil h h' k k' len u v = ground arith
  match_all-Agree (pats q ps) (Mmb.cons x xs) (Mmz.cons f es) h h' k k' len u v =
      let (h1, u1, u2) = >>=-eq-ok (match_pattern u_thm_end q x h) _ u in
      let (k1, v1, v2) = >>=-eq-ok (match_spec u_thm q f k) _ v in
      let (step, first) = match-Agree q x f h h1 k k1 len u1 v1 in
      let (rest_step, rest) = match_all-Agree ps xs es h1 h' k1 k' step.same_length u2 v2 in
      (
        then-Step step rest_step,
        rel_cons (Rel-mono rest_step.grown rest_step.spec_grown first) rest,
      )
