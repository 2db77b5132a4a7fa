-- ===== src/Mmz/Coercion/Todo.antt =====
-- src/mmz/parse.rs, the loop of `add_coe_raw`: what it inserts, and what it leaves.
use second_opinion.Prelude.{
  ℕ, false, ◌&&◌, &&-eq-true, List, [], ◌∷◌, ◌==◌, none, some, All, ◌≡◌, refl, sym, ap, ◌∙◌, subst,
  ok, err, msg, Bool-cases, Option-cases, ==_iff, inl, inr,
}
use second_opinion.Mmz.Data.{Coe}
use second_opinion.Mmz.Coercion.{Coes, get_coe, insert_coe, add_todo}
use second_opinion.Mmz.Coercion.Entries.{none≢some, AllCoes, AllCoes-insert_coe, get_coe-insert_coe}

abbrev pub Todo : Type 0
Todo = List (ℕ × ℕ × Coe)

not_ok : {u : Unit {0}} → ¬ (err msg ≡ ok u)
not_ok e = cc

-- A round of the loop that succeeds.
add_todo_round :
    (w z : ℕ) (c : Coe) (todo : Todo) (coes coes' : Coes)
    → add_todo ((w, z, c) ∷ todo) coes ≡ (ok tt, coes')
    → ((w == z) ≡ false)
      × (get_coe w z coes ≡ none)
      × (add_todo todo (insert_coe w z c coes) ≡ (ok tt, coes'))
unfolding add_todo
add_todo_round w z c todo coes coes' e = elim (Bool-cases (w == z)) [
  | inl loop ↦ absurd (not_ok (ap (λ x. x.0) (rw loop at e)))
  | inr other ↦ elim (Option-cases (get_coe w z coes)) [
    | inl new ↦ (other, new, rw (other, new) at e)
    | inr (d, old) ↦ absurd (not_ok (ap (λ x. x.0) (rw (other, old) at e)))
  ]
]

-- A new coercion leaves those that are there.
kept :
    (w z x y : ℕ) (c d : Coe) (coes : Coes)
    → get_coe w z coes ≡ none
    → get_coe x y coes ≡ some d
    → get_coe x y (insert_coe w z c coes) ≡ some d
kept w z x y c d coes new old = elim (Bool-cases ((w == x) && (z == y))) [
  | inl same ↦
      let (a, b) = &&-eq-true (w == x) (z == y) same in
      let there : get_coe w z coes ≡ some d = rw ((==_iff w x).0 a, (==_iff z y).0 b) old in
      absurd (none≢some (sym new ∙ there))
  | inr other ↦ get_coe-insert_coe w z x y c coes ∙ rw other old
]

inserted : (w z : ℕ) (c : Coe) (coes : Coes) → get_coe w z (insert_coe w z c coes) ≡ some c
inserted w z c coes =
    get_coe-insert_coe w z w z c coes ∙ rw ((==_iff w w).1 refl, (==_iff z z).1 refl) refl

pub add_todo-keeps :
    (todo : Todo) (coes coes' : Coes) (x y : ℕ) (d : Coe)
    → add_todo todo coes ≡ (ok tt, coes')
    → get_coe x y coes ≡ some d
    → get_coe x y coes' ≡ some d
unfolding add_todo
add_todo-keeps [] coes coes' x y d e h = rw (ap (λ r. r.1) (sym e)) h
add_todo-keeps ((w, z, c) ∷ todo) coes coes' x y d e h =
    let (_, new, rest) = add_todo_round w z c todo coes coes' e in
    add_todo-keeps todo (insert_coe w z c coes) coes' x y d rest (kept w z x y c d coes new h)

abbrev pub AllTodo : (ℕ → ℕ → Coe → Type 0) → Todo → Type 0
AllTodo P todo = All (λ (t : ℕ × ℕ × Coe). P t.0 t.1 t.2) todo

pub add_todo-inserts :
    (todo : Todo) (coes coes' : Coes)
    → add_todo todo coes ≡ (ok tt, coes')
    → AllTodo (λ x z c. (get_coe x z coes' ≡ some c) × ((x == z) ≡ false)) todo
unfolding add_todo
add_todo-inserts [] coes coes' e = tt
add_todo-inserts ((w, z, c) ∷ todo) coes coes' e =
    let (other, new, rest) = add_todo_round w z c todo coes coes' e in
    (
      (add_todo-keeps todo (insert_coe w z c coes) coes' w z c rest (inserted w z c coes), other),
      add_todo-inserts todo (insert_coe w z c coes) coes' rest,
    )

-- What holds for the coercions that are there and for the new ones holds for all at the end.
pub add_todo-AllCoes :
    (P : ℕ → ℕ → Coe → Type 0) (todo : Todo) (coes coes' : Coes)
    → add_todo todo coes ≡ (ok tt, coes')
    → AllCoes P coes
    → AllTodo P todo
    → AllCoes P coes'
unfolding add_todo
add_todo-AllCoes P [] coes coes' e h k = subst (AllCoes P) (ap (λ r. r.1) e) h
add_todo-AllCoes P ((w, z, c) ∷ todo) coes coes' e h k =
    let (_, _, rest) = add_todo_round w z c todo coes coes' e in
    add_todo-AllCoes P todo (insert_coe w z c coes) coes' rest
      (AllCoes-insert_coe P w z c coes h k.0) k.1
