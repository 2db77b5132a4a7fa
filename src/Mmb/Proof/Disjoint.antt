-- ===== src/Mmb/Proof/Disjoint.antt =====
-- src/mmb/proof.rs, `proof_thm`: the conditions on bound variables, as a predicate on the
-- arguments.
use second_opinion.Prelude.{
  ℕ, zero, suc, ◌+◌, ◌<◌, ◌^◌, bit_and, true, false, List, [], ◌∷◌, length, drop, get_elem?, sym,
  ◌==◌, ==_iff, if◌then◌else◌, ◌≡◌, subst, some, ok, make_sure-eq-ok, unwrap, unwrap-eq-ok,
  unwrap_res, unwrap_res-eq-ok, guarded, >>=-eq-ok, arith,
}
use second_opinion.Util.Ty.{Ty, is_bound, disjoint, shl_one}
use second_opinion.Util.Outline.{Outline}
use second_opinion.Mmb.Item.{MmbItem, get_ty, low_bits}
use second_opinion.Mmb.State.{MmbState, top}
use second_opinion.Mmb.Proof.Apply.{
  disjoint_before, check_bound, check_dep, check_deps, check_unbound,
}

-- The type of the element `j` of `args` has no bit in common with the low bits of `e`.
abbrev pub ApartAt : List MmbItem → MmbItem → ℕ → Type 0
ApartAt args e j =
    (u : MmbItem) × (t : Ty) × (low : Ty) × (get_elem? args j ≡ some u)
    × (get_ty u ≡ ok t)
    × (low_bits e ≡ ok low)
    × (bit_and t.inner low.inner ≡ 0)

-- A bound argument shares no variable with an argument that stands before it.
abbrev pub BoundApart : List MmbItem → List (ℕ × MmbItem) → Type 0
BoundApart args [] = Unit
BoundApart args ((idx, e) ∷ r) = ((j : ℕ) → j < idx → ApartAt args e j) × BoundApart args r

-- An argument shares no variable with the bound arguments, from number `j` on, on which its
-- signature does not depend.
abbrev pub DepsApart : Ty → MmbItem → ℕ → List (ℕ × MmbItem) → Type 0
DepsApart sig e j [] = Unit
DepsApart sig e j ((idx, b) ∷ bs) =
    (bit_and sig.inner (2 ^ j) ≡ 0
      → (low_b : Ty) × (low_e : Ty) × (low_bits b ≡ ok low_b)
        × (low_bits e ≡ ok low_e)
        × (bit_and low_b.inner low_e.inner ≡ 0))
    × DepsApart sig e (j + 1) bs

abbrev pub UnboundApart : List (ℕ × MmbItem) → List (Ty × MmbItem) → Type 0
UnboundApart bound [] = Unit
UnboundApart bound ((sig, e) ∷ r) =
    (is_bound sig ≡ false → DepsApart sig e 0 bound) × UnboundApart bound r

zero_of : (a b : Ty) → disjoint a b ≡ true → bit_and a.inner b.inner ≡ 0
unfolding disjoint
zero_of a b h = (==_iff _ _).0 h

disjoint_before-ApartAt :
    (args : List MmbItem) (e : MmbItem) (left j : ℕ) {u : Unit {0}}
    → disjoint_before args e left j ≡ ok u
    → (i : ℕ) → i < left
    → ApartAt args e (j + i)
unfolding disjoint_before
disjoint_before-ApartAt args e zero j h i lt = absurd (omega arith)
disjoint_before-ApartAt args e (suc left) j h i lt =
    let (x, e1, h1) = >>=-eq-ok (unwrap (get_elem? args j)) _ h in
    let (t, e2, h2) = >>=-eq-ok (unwrap_res (get_ty x)) _ h1 in
    let (low, e3, h3) = >>=-eq-ok (low_bits e) _ h2 in
    let (apart, h4) = guarded (disjoint t low) _ h3 in
    at i lt (x, t, low, unwrap-eq-ok _ e1, unwrap_res-eq-ok _ e2, e3, zero_of t low apart)
      (disjoint_before-ApartAt args e left (j + 1) h4)
  where
    at :
        (i : ℕ)
        → i < suc left
        → ApartAt args e j
        → ((k : ℕ) → k < left → ApartAt args e (j + 1 + k))
        → ApartAt args e (j + i)
    at zero lt here later = subst (ApartAt args e) (omega arith) here
    at (suc k) lt here later = subst (ApartAt args e) (omega arith) (later k (omega arith))

pub check_bound-BoundApart :
    (args : List MmbItem) (bound : List (ℕ × MmbItem)) {u : Unit {0}}
    → check_bound args bound ≡ ok u
    → BoundApart args bound
unfolding check_bound
check_bound-BoundApart args [] h = tt
check_bound-BoundApart args ((idx, e) ∷ r) h =
    let (v, e1, h1) = >>=-eq-ok (disjoint_before args e idx 0) _ h in
    (
      λ j lt. subst (ApartAt args e) (omega arith) (disjoint_before-ApartAt args e idx 0 e1 j lt),
      check_bound-BoundApart args r h1,
    )

shl_one-eq : (j : ℕ) {m : ℕ} → shl_one j ≡ ok m → m ≡ 2 ^ j
shl_one-eq j h = ground arith

check_deps-DepsApart :
    (sig : Ty) (e : MmbItem) (j : ℕ) (bound : List (ℕ × MmbItem)) {u : Unit {0}}
    → check_deps sig e j bound ≡ ok u
    → DepsApart sig e j bound
unfolding check_deps check_dep disjoint
check_deps-DepsApart sig e j [] h = tt
check_deps-DepsApart sig e j ((idx, b) ∷ bs) h =
    let (v, e1, h1) = >>=-eq-ok (check_dep sig e j b) _ h in
    (check_dep-apart e1, check_deps-DepsApart sig e (j + 1) bs h1)
  where
    check_dep-apart :
        {u : Unit {0}}
        → check_dep sig e j b ≡ ok u
        → bit_and sig.inner (2 ^ j) ≡ 0
        → (low_b : Ty) × (low_e : Ty) × (low_bits b ≡ ok low_b)
          × (low_bits e ≡ ok low_e)
          × (bit_and low_b.inner low_e.inner ≡ 0)
    check_dep-apart h z =
        let (m, e1, h1) = >>=-eq-ok (shl_one j) _ h in
        let none_in : (bit_and sig.inner m == 0) ≡ true =
          (==_iff _ _).1 (subst (λ k. bit_and sig.inner k ≡ 0) (sym (shl_one-eq j e1)) z) in
        let h2 = rw none_in at h1 in
        let (low_b, e2, h3) = >>=-eq-ok (low_bits b) _ h2 in
        let (low_e, e3, h4) = >>=-eq-ok (low_bits e) _ h3 in
        (low_b, low_e, e2, e3, (==_iff _ _).0 (make_sure-eq-ok _ h4))

pub check_unbound-UnboundApart :
    (bound : List (ℕ × MmbItem)) (all : List (Ty × MmbItem)) {u : Unit {0}}
    → check_unbound bound all ≡ ok u
    → UnboundApart bound all
unfolding check_unbound
check_unbound-UnboundApart bound [] h = tt
check_unbound-UnboundApart bound ((sig, e) ∷ r) h =
    let (v, e1, h1) = >>=-eq-ok (if is_bound sig then ok tt else check_deps sig e 0 bound) _ h in
    (
      λ free. check_deps-DepsApart sig e 0 bound (rw free at e1),
      check_unbound-UnboundApart bound r h1,
    )

-- The arguments that `proof_thm` takes off the stack, in the order of the signature.
abbrev pub thm_args : List Ty → MmbState → List MmbItem
thm_args sig s = top (length sig) (drop 1 s.stack)
