-- ===== src/Mmz/Coercion/Entries.antt =====
-- src/mmz/parse.rs: the entries of the graph of coercions, and what an insertion does to them.
use second_opinion.Prelude.{
  ℕ, ◌&&◌, [], ◌∷◌, ◌==◌, if◌then◌else◌, Option, none, some, All, ◌≡◌, refl, sym, subst, Bool-cases,
  ==_iff, inl, inr, arith,
}
use second_opinion.Mmz.Map.{Map, get, insert}
use second_opinion.Mmz.Data.{Coe}
use second_opinion.Mmz.Mem.{nat_eq, or_default}
use second_opinion.Mmz.Coercion.{Coes, get_coe, insert_coe}

pub get-insert :
    {V : Type 0} (k j : ℕ) (v : V) (m : Map ℕ V)
    → get nat_eq j (insert nat_eq k v m) ≡ (if k == j then some v else get nat_eq j m)
unfolding get insert
get-insert k j v [] = refl
get-insert k j v ((i, w) ∷ m) = ground (arith, get-insert k j v m)

-- A property of the keys with their values.
abbrev pub AllIn : {V : Type 0} → (ℕ → V → Type 0) → Map ℕ V → Type 0
AllIn P m = All (λ e. P e.0 e.1) m

some_inj : {V : Type 0} {a b : V} → some a ≡ some b → a ≡ b
some_inj e = cc

pub none≢some : {V : Type 0} {a : V} → ¬ (none ≡ some a)
none≢some e = cc

pub AllIn-get :
    {V : Type 0} (P : ℕ → V → Type 0) (k : ℕ) (m : Map ℕ V) {v : V}
    → AllIn P m
    → get nat_eq k m ≡ some v
    → P k v
unfolding get
AllIn-get P k [] h e = ground arith
AllIn-get P k ((j, w) ∷ m) {v} h e = elim (Bool-cases (j == k)) [
  | inl same ↦
      let here : some w ≡ some v = rw same at e in
      let key : j ≡ k = (==_iff j k).0 same in
      subst (λ i. P i v) key (subst (P j) (some_inj here) h.0)
  | inr other ↦ AllIn-get P k m h.1 (rw other at e)
]

pub AllIn-insert :
    {V : Type 0} (P : ℕ → V → Type 0) (k : ℕ) (v : V) (m : Map ℕ V)
    → AllIn P m
    → P k v
    → AllIn P (insert nat_eq k v m)
unfolding insert
AllIn-insert P k v [] h p = (p, tt)
AllIn-insert P k v ((j, w) ∷ m) h p = elim (Bool-cases (j == k)) [
  | inl same ↦ rw same (subst (λ i. P i v) (sym ((==_iff j k).0 same)) p, h.1)
  | inr other ↦ rw other (h.0, AllIn-insert P k v m h.1 p)
]

-- A property of the coercions of a graph, with the sorts between which they stand.
abbrev pub AllCoes : (ℕ → ℕ → Coe → Type 0) → Coes → Type 0
AllCoes P coes = AllIn (λ x m. AllIn (P x) m) coes

-- The map of the coercions from a sort; empty, where there is none.
pub AllCoes-from :
    (P : ℕ → ℕ → Coe → Type 0) (x : ℕ) (coes : Coes)
    → AllCoes P coes
    → AllIn (P x) (or_default (get nat_eq x coes) [])
unfolding get
AllCoes-from P x coes h = go (get nat_eq x coes) refl
  where
    go : (o : Option (Map ℕ Coe)) → get nat_eq x coes ≡ o → AllIn (P x) (or_default o [])
    go none e = tt
    go (some m) e = AllIn-get (λ x' m'. AllIn (P x') m') x coes h e

pub AllCoes-get_coe :
    (P : ℕ → ℕ → Coe → Type 0) (x y : ℕ) (coes : Coes) {c : Coe}
    → AllCoes P coes
    → get_coe x y coes ≡ some c
    → P x y c
unfolding get_coe
AllCoes-get_coe P x y coes h e =
    AllIn-get (P x) y (or_default (get nat_eq x coes) []) (AllCoes-from P x coes h) e

pub AllCoes-insert_coe :
    (P : ℕ → ℕ → Coe → Type 0) (x y : ℕ) (c : Coe) (coes : Coes)
    → AllCoes P coes
    → P x y c
    → AllCoes P (insert_coe x y c coes)
unfolding insert_coe
AllCoes-insert_coe P x y c coes h p =
    AllIn-insert (λ x' m'. AllIn (P x') m') x
      (insert nat_eq y c (or_default (get nat_eq x coes) [])) coes h
      (AllIn-insert (P x) y c (or_default (get nat_eq x coes) []) (AllCoes-from P x coes h) p)

pub get_coe-insert_coe :
    (x y x' y' : ℕ) (c : Coe) (coes : Coes)
    → get_coe x' y' (insert_coe x y c coes)
      ≡ (if (x == x') && (y == y') then some c else get_coe x' y' coes)
unfolding get_coe insert_coe
get_coe-insert_coe x y x' y' c coes = elim (Bool-cases (x == x')) [
  | inl same ↦
      let key : x ≡ x' = (==_iff x x').0 same in
      rw (
        get-insert x x' (insert nat_eq y c (or_default (get nat_eq x coes) [])) coes,
        same,
        get-insert y y' c (or_default (get nat_eq x coes) []),
        key,
      )
  | inr other ↦
      rw (get-insert x x' (insert nat_eq y c (or_default (get nat_eq x coes) [])) coes, other)
]
