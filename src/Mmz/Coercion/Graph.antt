-- ===== src/Mmz/Coercion/Graph.antt =====
-- src/mmz/parse.rs, `add_coe_raw`: what stays true of the graph of coercions.
use second_opinion.Prelude.{
  ℕ, false, [], ◌∷◌, ◌++◌, ◌==◌, Option, none, some, All-append, ◌≡◌, refl, ap, ◌∙◌, subst, ok,
  Bool-cases, Option-cases, ==_iff, inl, inr,
}
use second_opinion.Mmz.Map.{Map, get}
use second_opinion.Mmz.Data.{Coe, single, trans}
use second_opinion.Mmz.Mem.{nat_eq, or_default}
use second_opinion.Mmz.Coercion.{
  Coes, get_coe, coes_into, coes_from, coes_todo, add_todo, same_coe, add_coe_raw,
}
use second_opinion.Mmz.Coercion.Todo.{
  Todo, AllTodo, add_todo-keeps, add_todo-inserts, add_todo-AllCoes,
}
use second_opinion.Mmz.Coercion.Entries.{AllIn, AllIn-get, AllCoes, AllCoes-from}

-- The two halves of a composed coercion are coercions themselves.
abbrev pub HasHalves : Coes → ℕ → ℕ → Coe → Type 0
HasHalves coes x z (single n) = Unit
HasHalves coes x z (trans c y d) = (get_coe x y coes ≡ some c) × (get_coe y z coes ≡ some d)

-- Every entry is the one that a lookup finds, is put together from two others unless it is a
-- single step, and does not lead back to its sort.
pub record IsGraph (coes : Coes) : Type 0 where
  pub found : AllCoes (λ x z c. get_coe x z coes ≡ some c) coes
  pub halves : AllCoes (HasHalves coes) coes
  pub no_loop : AllCoes (λ x z c. (x == z) ≡ false) coes

-- The new coercions of `add_coe_raw`: their halves are in the graph at the end, when it has those
-- that were there and those to add.
module _ (x y : ℕ) (c : Coe) (coes' : Coes) (step : get_coe x y coes' ≡ some c) where
  into-HasHalves :
      (part : Coes)
      → AllCoes (λ w z d. get_coe w z coes' ≡ some d) part
      → AllTodo (HasHalves coes') (coes_into x y c part)
  unfolding coes_into get
  into-HasHalves [] h = tt
  into-HasHalves ((w, m) ∷ part) h = elim (Option-cases (get nat_eq x m)) [
    | inl none_there ↦ rw (none_there, coes_into) (into-HasHalves part h.1)
    | inr (d, there) ↦
        rw (there, coes_into)
          (
            (AllIn-get (λ z e. get_coe w z coes' ≡ some e) x m h.0 there, step),
            into-HasHalves part h.1,
          )
  ]

  from-HasHalves :
      (m : Map ℕ Coe)
      → AllIn (λ z d. get_coe y z coes' ≡ some d) m
      → AllTodo (HasHalves coes') (coes_from x y c m)
  unfolding coes_from
  from-HasHalves [] h = tt
  from-HasHalves ((z, d) ∷ m) h = ((step, h.0), from-HasHalves m h.1)

AllTodo-part :
    (P : ℕ → ℕ → Coe → Type 0) (xs ys : Todo) (w z : ℕ) (c : Coe)
    → AllTodo P (xs ++ ((w, z, c) ∷ ys))
    → P w z c
AllTodo-part P [] ys w z c h = h.0
AllTodo-part P (x ∷ xs) ys w z c h = AllTodo-part P xs ys w z c h.1

-- From one property of the coercions to another.
AllIn-map :
    {V : Type 0} (P Q : ℕ → V → Type 0) (m : Map ℕ V)
    → ((k : ℕ) (v : V) → P k v → Q k v)
    → AllIn P m
    → AllIn Q m
AllIn-map P Q [] f h = tt
AllIn-map P Q ((k, v) ∷ m) f h = (f k v h.0, AllIn-map P Q m f h.1)

AllCoes-map :
    (P Q : ℕ → ℕ → Coe → Type 0) (coes : Coes)
    → ((x y : ℕ) (c : Coe) → P x y c → Q x y c)
    → AllCoes P coes
    → AllCoes Q coes
AllCoes-map P Q coes f h =
    AllIn-map (λ x m. AllIn (P x) m) (λ x m. AllIn (Q x) m) coes
      (λ x m. AllIn-map (P x) (Q x) m (f x)) h

AllTodo-map :
    (P Q : ℕ → ℕ → Coe → Type 0) (todo : Todo)
    → ((x y : ℕ) (c : Coe) → P x y c → Q x y c)
    → AllTodo P todo
    → AllTodo Q todo
AllTodo-map P Q [] f h = tt
AllTodo-map P Q ((x, y, c) ∷ todo) f h = (f x y c h.0, AllTodo-map P Q todo f h.1)

HasHalves-kept :
    (coes coes' : Coes) (x z : ℕ) (c : Coe)
    → ((w y : ℕ) (d : Coe) → get_coe w y coes ≡ some d → get_coe w y coes' ≡ some d)
    → HasHalves coes x z c
    → HasHalves coes' x z c
HasHalves-kept coes coes' x z (single n) keep h = tt
HasHalves-kept coes coes' x z (trans c y d) keep h = (keep x y c h.0, keep y z d h.1)

add_todo-IsGraph :
    (x y : ℕ) (c : Coe) (coes coes' : Coes)
    → HasHalves coes' x y c
    → IsGraph coes
    → add_todo (coes_todo x y c coes) coes ≡ (ok tt, coes')
    → IsGraph coes' × (get_coe x y coes' ≡ some c)
unfolding coes_todo
add_todo-IsGraph x y c coes coes' own g e =
    let into = coes_into x y c coes in
    let from = coes_from x y c (or_default (get nat_eq y coes) []) in
    let todo = coes_todo x y c coes in
    let Found : ℕ → ℕ → Coe → Type 0 = λ w z d. get_coe w z coes' ≡ some d in
    let NoLoop : ℕ → ℕ → Coe → Type 0 = λ w z d. (w == z) ≡ false in
    let keep = λ (w : ℕ) (z : ℕ) (d : Coe). add_todo-keeps todo coes coes' w z d e in
    let new : AllTodo (λ w z d. Found w z d × NoLoop w z d) todo =
      add_todo-inserts todo coes coes' e in
    let found : AllTodo Found todo =
      AllTodo-map (λ w z d. Found w z d × NoLoop w z d) Found todo (λ w z d h. h.0) new in
    let no_loop : AllTodo NoLoop todo =
      AllTodo-map (λ w z d. Found w z d × NoLoop w z d) NoLoop todo (λ w z d h. h.1) new in
    let old : AllCoes Found coes =
      AllCoes-map (λ w z d. get_coe w z coes ≡ some d) Found coes keep g.found in
    let step : get_coe x y coes' ≡ some c = AllTodo-part Found into from x y c found in
    let halves : AllTodo (HasHalves coes') todo =
      All-append (λ (t : ℕ × ℕ × Coe). HasHalves coes' t.0 t.1 t.2) into ((x, y, c) ∷ from)
        (into-HasHalves x y c coes' step coes old)
        (
          own,
          from-HasHalves x y c coes' step (or_default (get nat_eq y coes) [])
              (AllCoes-from Found y coes old),
        ) in
    (
      record {
        found = add_todo-AllCoes Found todo coes coes' e old found;
        halves =
            add_todo-AllCoes (HasHalves coes') todo coes coes' e
              (AllCoes-map (HasHalves coes) (HasHalves coes') coes
                (λ w z d. HasHalves-kept coes coes' w z d keep) g.halves)
              halves;
        no_loop = add_todo-AllCoes NoLoop todo coes coes' e g.no_loop no_loop;
      },
      step,
    )

-- When `add_coe_raw` succeeds on a graph of coercions, the result is a graph again, and has the coercion by
-- the given term from the first sort to the second: every entry is what a lookup finds, the
-- halves of each composed coercion are entries, and none leads back to its sort.
pub add_coe_raw-IsGraph :
    (term_num x y : ℕ) (coes : Coes) {coes' : Coes}
    → IsGraph coes
    → add_coe_raw term_num x y coes ≡ (ok tt, coes')
    → IsGraph coes' × (get_coe x y coes' ≡ some (single term_num))
unfolding add_coe_raw same_coe
add_coe_raw-IsGraph term_num x y coes {coes'} g e = go (get_coe x y coes) refl
  where
    go :
        (o : Option Coe)
        → get_coe x y coes ≡ o
        → IsGraph coes' × (get_coe x y coes' ≡ some (single term_num))
    go none h = add_todo-IsGraph x y (single term_num) coes coes' tt g (rw h at e)
    go (some (single m)) h = elim (Bool-cases (m == term_num)) [
      | inl same ↦
          let unchanged : coes ≡ coes' = ap (λ r. r.1) (rw (h, same) at e) in
          subst (λ k. IsGraph k × (get_coe x y k ≡ some (single term_num))) unchanged
            (g, h ∙ ap (λ (n : ℕ). some (single n)) ((==_iff m term_num).0 same))
      | inr other ↦ add_todo-IsGraph x y (single term_num) coes coes' tt g (rw (h, other) at e)
    ]
    go (some (trans c w d)) h = add_todo-IsGraph x y (single term_num) coes coes' tt g (rw h at e)
