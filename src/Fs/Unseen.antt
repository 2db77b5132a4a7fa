-- ===== src/Fs/Unseen.antt =====
-- src/fs.rs: the words of a text that `find_imports` has left, and the paths that loading has not come to.
use second_opinion.Prelude.{
  ℕ, suc, ◌≤◌, ◌<◌, true, false, List, [], ◌∷◌, length, if◌then◌else◌, ◌≡◌, subst, refl, sym, ◌∙◌,
  Bool-cases, inl, inr, arith,
}
use second_opinion.Mmz.Data.{Str, str_eq}
use second_opinion.Fs.{
  any_path, Quoted, no_quote, name, open_quote, quoted, of_quoted, Next, at_end, skipped, import_of,
  bad_import, import_word, next_import,
}
use second_opinion.Fs.Imports.{str_eq_comm}
use second_opinion.Fs.Order.{AllImports, no_more, pass, imports}

pub str_eq-eq : (s t : Str) → str_eq s t ≡ true → s ≡ t
unfolding str_eq
str_eq-eq [] [] e = refl
str_eq-eq [] (b ∷ t) e = cc
str_eq-eq (a ∷ s) [] e = cc
str_eq-eq (a ∷ s) (b ∷ t) e = ground (arith, str_eq-eq s t)

-- The words that are left are fewer.
ShorterThan : ℕ → Next → Type 0
ShorterThan n at_end = Unit
ShorterThan n (skipped ws) = length ws < n
ShorterThan n (import_of p ws) = length ws < n
ShorterThan n bad_import = Unit

of_quoted-ShorterThan :
    (q : Quoted) (ws : List Str) (n : ℕ) → length ws < n → ShorterThan n (of_quoted q ws)
unfolding ShorterThan
of_quoted-ShorterThan no_quote ws n h = h
of_quoted-ShorterThan (name p) ws n h = h
of_quoted-ShorterThan open_quote ws n h = tt

next_import-ShorterThan : (ws : List Str) → ShorterThan (length ws) (next_import ws)
unfolding ShorterThan next_import
next_import-ShorterThan [] = tt
next_import-ShorterThan (fst ∷ []) = omega arith
next_import-ShorterThan (fst ∷ path ∷ ws) = elim (Bool-cases (str_eq fst import_word)) [
  | inl here ↦
      rw here (of_quoted-ShorterThan (quoted path) ws (suc (suc (length ws))) (omega arith))
  | inr other ↦ rw other (omega arith)
]

pub skipped-shorter : (ws ws' : List Str) → next_import ws ≡ skipped ws' → length ws' < length ws
unfolding ShorterThan
skipped-shorter ws ws' e = subst (ShorterThan (length ws)) e (next_import-ShorterThan ws)

pub import_of-shorter :
    (ws ws' : List Str) (n : Str) → next_import ws ≡ import_of n ws' → length ws' < length ws
unfolding ShorterThan
import_of-shorter ws ws' n e = subst (ShorterThan (length ws)) e (next_import-ShorterThan ws)

-- The imports behind a word that is passed over, and behind an import.
pub skipped-AllImports :
    (P : Str → Type 0) {ws : List Str} (ws' : List Str)
    → next_import ws ≡ skipped ws'
    → AllImports P ws
    → AllImports P ws'
skipped-AllImports P ws' e (no_more f) = absurd (differ (sym f ∙ e))
  where
    differ : {xs : List Str} → ¬ (at_end ≡ skipped xs)
    differ g = cc
skipped-AllImports P ws' e (pass ws1 f a) = subst (AllImports P) (same (sym f ∙ e)) a
  where
    same : {xs ys : List Str} → skipped xs ≡ skipped ys → xs ≡ ys
    same g = cc
skipped-AllImports P ws' e (imports n ws1 f p a) = absurd (differ (sym f ∙ e))
  where
    differ : {m : Str} {xs ys : List Str} → ¬ (import_of m xs ≡ skipped ys)
    differ g = cc

pub import_of-AllImports :
    (P : Str → Type 0) {ws : List Str} (m : Str) (ws' : List Str)
    → next_import ws ≡ import_of m ws'
    → AllImports P ws
    → P m × AllImports P ws'
import_of-AllImports P m ws' e (no_more f) = absurd (differ (sym f ∙ e))
  where
    differ : {k : Str} {xs : List Str} → ¬ (at_end ≡ import_of k xs)
    differ g = cc
import_of-AllImports P m ws' e (pass ws1 f a) = absurd (differ (sym f ∙ e))
  where
    differ : {k : Str} {xs ys : List Str} → ¬ (skipped xs ≡ import_of k ys)
    differ g = cc
import_of-AllImports P m ws' e (imports n ws1 f p a) =
    (subst P (name_eq (sym f ∙ e)) p, subst (AllImports P) (rest_eq (sym f ∙ e)) a)
  where
    name_eq : {k l : Str} {xs ys : List Str} → import_of k xs ≡ import_of l ys → k ≡ l
    name_eq g = cc

    rest_eq : {k l : Str} {xs ys : List Str} → import_of k xs ≡ import_of l ys → xs ≡ ys
    rest_eq g = cc

-- How many of the paths are neither read nor being read.
unfoldable pub unseen : List Str → List Str → List Str → ℕ
unseen todos done [] = 0
unseen todos done (q ∷ qs) =
    let rest = unseen todos done qs in
    if any_path q todos then rest else if any_path q done then rest else suc rest

pub unseen-le_length : (todos done paths : List Str) → unseen todos done paths ≤ length paths
unfolding unseen
unseen-le_length todos done [] = omega arith
unseen-le_length todos done (q ∷ qs) = ground (arith, unseen-le_length todos done qs)

pub unseen-grows :
    (todos done done' paths : List Str)
    → ((q : Str) → any_path q done ≡ true → any_path q done' ≡ true)
    → unseen todos done' paths ≤ unseen todos done paths
unfolding unseen
unseen-grows todos done done' [] f = omega arith
unseen-grows todos done done' (q ∷ qs) f = ground (arith, unseen-grows todos done done' qs f, f q)

unseen-push_le :
    (p : Str) (todos done paths : List Str)
    → unseen (p ∷ todos) done paths ≤ unseen todos done paths
unfolding unseen any_path
unseen-push_le p todos done [] = omega arith
unseen-push_le p todos done (q ∷ qs) = ground (arith, unseen-push_le p todos done qs)

pub unseen-push :
    (p : Str) (todos done paths : List Str)
    → any_path p paths ≡ true
    → any_path p todos ≡ false
    → any_path p done ≡ false
    → unseen (p ∷ todos) done paths < unseen todos done paths
unfolding unseen any_path
unseen-push p todos done [] h a b = ground arith
unseen-push p todos done (q ∷ qs) h a b = elim (Bool-cases (str_eq q p)) [
  | inl same ↦
      let e : p ≡ q = sym (str_eq-eq q p same) in
      rw
        (
          str_eq_comm p q ∙ same,
          subst (λ r. any_path r todos ≡ false) e a,
          subst (λ r. any_path r done ≡ false) e b,
        )
        (omega (arith, unseen-push_le p todos done qs))
  | inr other ↦ ground (arith, unseen-push p todos done qs (rw other at h) a b)
]
