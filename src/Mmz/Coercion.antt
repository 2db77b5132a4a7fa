-- ===== src/Mmz/Coercion.antt =====
-- src/mmz/parse.rs: the graph of coercions between sorts.
pub mod Target
pub mod Entries
pub mod Todo
pub mod Graph
use second_opinion.Prelude.{
  ℕ, zero, suc, ◌+◌, Bool, false, List, [], ◌∷◌, ◌++◌, length, ◌==◌, if◌then◌else◌, Option, none,
  some, Res, ok, err, panic, hang, msg, none_err, ◌>>=◌,
}
use second_opinion.Util.Outline.{Outline, get_sort_mods, is_provable}
use second_opinion.Mmz.Map.{Map, get, insert}
use second_opinion.Mmz.Data.{MmzExpr, app, cons, nil, expr_sort, Coe, single, trans}
use second_opinion.Mmz.Mem.{MmzMem, nat_eq, or_default}

abbrev pub Coes : Type 0
Coes = Map ℕ (Map ℕ Coe)

-- `coes.get(&x).and_then(|m| m.get(&y))`
unfoldable pub get_coe : ℕ → ℕ → Coes → Option Coe
unfolding get
get_coe x y coes = get nat_eq y (or_default (get nat_eq x coes) [])

-- `coes.entry(x).or_default().insert(y, c)`
unfoldable pub insert_coe : ℕ → ℕ → Coe → Coes → Coes
unfolding get insert
insert_coe x y c coes = insert nat_eq x (insert nat_eq y c (or_default (get nat_eq x coes) [])) coes

-- The loop of `update_provs` over the keys of one map.
unfoldable pub provs_of : Outline → ℕ → Map ℕ Coe → Map ℕ ℕ → Res (Map ℕ ℕ)
unfolding get_sort_mods is_provable get insert
provs_of o s1 [] provs = ok provs
provs_of o s1 ((s2, c) ∷ m) provs = do
  mods ← get_sort_mods o s2
  provs' ←
      (if is_provable mods
        then (elim (get nat_eq s1 provs) [ none ↦ ok (insert nat_eq s1 s2 provs) | some _ ↦ panic ])
        else ok provs)
  provs_of o s1 m provs'

unfoldable pub provs_all : Outline → Coes → Map ℕ ℕ → Res (Map ℕ ℕ)
unfolding provs_of
provs_all o [] provs = ok provs
provs_all o ((s1, m) ∷ coes) provs = do provs' ← provs_of o s1 m provs; provs_all o coes provs'

unfoldable pub update_provs : MmzMem → Res MmzMem
unfolding provs_all
update_provs m = do provs ← provs_all m.outline m.coes []; ok (record m { coe_prov = provs })

-- The coercions `w > y` by way of `w > x`.
unfoldable pub coes_into : ℕ → ℕ → Coe → Coes → List (ℕ × ℕ × Coe)
unfolding get
coes_into x y c [] = []
coes_into x y c ((w, m) ∷ coes) =
    let rest = coes_into x y c coes in
    elim (get nat_eq x m) [ none ↦ rest | some d ↦ (w, y, trans d x c) ∷ rest ]

-- The coercions `x > z` by way of `y > z`.
unfoldable pub coes_from : ℕ → ℕ → Coe → Map ℕ Coe → List (ℕ × ℕ × Coe)
coes_from x y c [] = []
coes_from x y c ((z, d) ∷ m) = (x, z, trans c y d) ∷ coes_from x y c m

unfoldable pub coes_todo : ℕ → ℕ → Coe → Coes → List (ℕ × ℕ × Coe)
unfolding coes_into coes_from get
coes_todo x y c coes =
    coes_into x y c coes ++ ((x, y, c) ∷ coes_from x y c (or_default (get nat_eq y coes) []))

-- The loop over `todo`. What has been inserted before an error stays.
unfoldable pub add_todo : List (ℕ × ℕ × Coe) → Coes → Res (Unit {0}) × Coes
unfolding get_coe insert_coe
add_todo [] coes = (ok tt, coes)
add_todo ((w, z, c) ∷ todo) coes =
    let rest = add_todo todo (insert_coe w z c coes) in
    if w == z
    then (err msg, coes)
    else (elim (get_coe w z coes) [ none ↦ rest | some _ ↦ (err msg, insert_coe w z c coes) ])

-- The guard of the first match of `add_coe_raw`.
unfoldable pub same_coe : ℕ → Option Coe → Bool
same_coe n none = false
same_coe n (some (single m)) = m == n
same_coe n (some (trans c m d)) = false

unfoldable pub add_coe_raw : ℕ → ℕ → ℕ → Coes → Res (Unit {0}) × Coes
unfolding get_coe same_coe coes_todo add_todo
add_coe_raw term_num x y coes =
    if same_coe term_num (get_coe x y coes)
    then (ok tt, coes)
    else add_todo (coes_todo x y (single term_num) coes) coes

-- `coerce`. The recursion goes over the parts of a coercion; `fuel` bounds its depth.
unfoldable pub coerce_at : ℕ → MmzMem → MmzExpr → ℕ → Res MmzExpr
unfolding expr_sort get get_coe
coerce_at zero m e z = hang
coerce_at (suc fuel) m e z =
    let by_coe = (do
      found ← none_err (get_coe (expr_sort e) z m.coes)
      elim found [
        | single term_num ↦ ok (app term_num 1 (cons e nil) z)
        | trans c1 y c2 ↦ coerce_at fuel m e y >>= λ e_y. coerce_at fuel m e_y z
      ]) in
    if expr_sort e == z then ok e else (elim (get nat_eq (expr_sort e) m.coe_prov) [
      | none ↦ by_coe
      | some tgt ↦ if z == tgt then ok e else by_coe
    ])

unfoldable pub coes_count : Coes → ℕ
coes_count [] = 0
coes_count ((x, m) ∷ coes) = length m + coes_count coes

-- A call depends on the sort of the expression and on the target alone, and makes other calls only if
-- a coercion stands between them. So a chain of calls longer than the number of coercions comes back to
-- a pair of sorts, and never ends.
unfoldable pub coerce_fuel : MmzMem → ℕ
unfolding coes_count
coerce_fuel m = suc (coes_count m.coes)

unfoldable pub coerce : MmzMem → MmzExpr → ℕ → Res MmzExpr
unfolding coerce_at coerce_fuel
coerce m e z = coerce_at (coerce_fuel m) m e z
