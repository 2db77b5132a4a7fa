-- ===== src/Tests/Files.antt =====
-- The import graph of a diamond: `a` imports `b` and `c`, and either imports `d`.
use second_opinion.Prelude.{
  ℕ, List, [], ◌∷◌, ◌≡◌, ◌≢◌, refl, Option, some, last?, ok, hang, arith, if◌then◌else◌,
}
use second_opinion.Mmz.Data.{Str, str_eq}
use second_opinion.Fs.{
  FileData, ImportGraph, no_imports, has_imports, no_graphs, then_graph, import_word, any_path,
  next_import, load,
}
use second_opinion.Fs.Imports.{AllDistinct, load-AllDistinct}
use second_opinion.Fs.Order.{no_more, imports, InOrder, load-InOrder}
use second_opinion.Fs.Ends.{load-ne-hang}

-- A file holds its own name.
abbrev read_file : Str → Option Str
read_file p = some p

abbrev quoted_name : ℕ → Str
quoted_name c = 34 ∷ c ∷ 34 ∷ 59 ∷ []

abbrev imports_two : ℕ → ℕ → List Str
imports_two x y = import_word ∷ quoted_name x ∷ import_word ∷ quoted_name y ∷ []

words_of : Str → List Str
unfolding str_eq
words_of s =
    if str_eq s (97 ∷ [])
    then imports_two 98 99
    else if str_eq s (98 ∷ [])
    then import_word ∷ quoted_name 100 ∷ []
    else if str_eq s (99 ∷ [])
    then import_word ∷ quoted_name 100 ∷ []
    else []

abbrev diamond : FileData
diamond = record {
  mmz_files = (100 ∷ []) ∷ (98 ∷ []) ∷ (99 ∷ []) ∷ (97 ∷ []) ∷ [];
  todos = [];
  done = (100 ∷ []) ∷ (98 ∷ []) ∷ (99 ∷ []) ∷ (97 ∷ []) ∷ [];
}

abbrev graph : ImportGraph
graph = has_imports (97 ∷ []) (
    then_graph (has_imports (98 ∷ []) (then_graph (no_imports (100 ∷ [])) no_graphs))
      (then_graph (no_imports (99 ∷ [])) no_graphs))

diamond_loaded : load read_file words_of (λ p. p) 20 (97 ∷ []) ≡ ok (graph, diamond)
unfolding load words_of
diamond_loaded = refl

load-AllDistinct_example : AllDistinct diamond × (diamond.todos ≡ [])
load-AllDistinct_example = load-AllDistinct read_file words_of (λ p. p) 20 (97 ∷ []) diamond_loaded

load-InOrder_example :
    InOrder read_file words_of (λ p. p) [] diamond.done diamond.mmz_files
    × (last? diamond.done ≡ some (97 ∷ []))
load-InOrder_example = load-InOrder read_file words_of (λ p. p) 20 (97 ∷ []) diamond_loaded

-- The four files of the diamond, none of more than four words.
load-ne-hang_example : load read_file words_of (λ p. p) 24 (97 ∷ []) ≢ hang
unfolding words_of any_path next_import
load-ne-hang_example =
    load-ne-hang read_file words_of (λ p. p) ((97 ∷ []) ∷ (98 ∷ []) ∷ (99 ∷ []) ∷ (100 ∷ []) ∷ []) 4
      24 (97 ∷ []) refl
      (
        (omega arith, imports (98 ∷ []) _ refl refl (imports (99 ∷ []) _ refl refl (no_more refl))),
        (
          (omega arith, imports (100 ∷ []) _ refl refl (no_more refl)),
          (
            (omega arith, imports (100 ∷ []) _ refl refl (no_more refl)),
            ((omega arith, no_more refl), tt),
          ),
        ),
      )
      (omega arith)
