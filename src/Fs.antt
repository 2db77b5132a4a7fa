-- ===== src/Fs.antt =====
-- src/fs.rs: the files of the specification, imports first. The file system and the functions on paths and
-- strings are the standard library's.
pub mod Branches
pub mod Imports
pub mod Order
pub mod Unseen
pub mod Ends
pub mod Open
use second_opinion.Prelude.{
  ℕ, zero, suc, Bool, true, false, not, List, [], ◌∷◌, snoc, is_empty, take, ◌==◌, if◌then◌else◌,
  Option, none, some, length, Res, ok, err, panic, hang, msg, unwrap, ◌>>=◌,
}
use second_opinion.Mmz.Data.{Str, str_eq}
use second_opinion.Mmz.Lexer.{span_len}

-- `ImportGraph`, and the vector in it.
mutual
  pub data ImportGraph : Type 0 where
    no_imports : Str → ImportGraph
    has_imports : Str → ImportGraphs → ImportGraph

  pub data ImportGraphs : Type 0 where
    no_graphs : ImportGraphs
    then_graph : ImportGraph → ImportGraphs → ImportGraphs

-- The fields of `FileData` that the import graph is made with. `todos` has the last path at its
-- head, the other two are in the order of the vectors.
pub record FileData : Type 0 where
  pub mmz_files : List Str
  pub todos : List Str
  pub done : List Str

-- `iter().any(..)` on paths, which are compared as strings: `PathBuf` compares them by their components.
unfoldable pub any_path : Str → List Str → Bool
unfolding str_eq
any_path p [] = false
any_path p (q ∷ qs) = let rest = any_path p qs in if str_eq q p then true else rest

abbrev pub import_word : Str
import_word = 105 ∷ 109 ∷ 112 ∷ 111 ∷ 114 ∷ 116 ∷ []

-- The name between quotes at the start of a word: a word that does not begin with a quote is
-- passed over, and one quote alone is a panic. A name is taken to be of one-byte characters.
pub data Quoted : Type 0 where
  no_quote : Quoted
  name : Str → Quoted
  open_quote : Quoted

abbrev pub closed : ℕ → Str → Quoted
closed n r = if n == length r then open_quote else name (take n r)

unfoldable pub quoted : Str → Quoted
unfolding span_len
quoted [] = no_quote
quoted (c ∷ r) = if c == 34 then closed (span_len (λ d. not (d == 34)) r) r else no_quote

-- What the loop of `find_imports` does next: the rest of the words, and the name of an import.
pub data Next : Type 0 where
  at_end : Next
  skipped : List Str → Next
  import_of : Str → List Str → Next
  bad_import : Next

abbrev pub of_quoted : Quoted → List Str → Next
of_quoted no_quote ws = skipped ws
of_quoted (name n) ws = import_of n ws
of_quoted open_quote ws = bad_import

unfoldable pub next_import : List Str → Next
unfolding str_eq quoted
next_import [] = at_end
next_import (fst ∷ []) = skipped []
next_import (fst ∷ path ∷ ws) =
    if str_eq fst import_word then of_quoted (quoted path) ws else skipped (path ∷ ws)

-- The file system: `read` is `read_to_string`, absent where that fails, `split` is `split_whitespace`, and
-- `w_filename` puts a name in the place of the root file's.
module _ (read : Str → Option Str) (split : Str → List Str) (w_filename : Str → Str) where
  abbrev pub of_imports : Str → ImportGraphs → ImportGraph
  of_imports p no_graphs = no_imports p
  of_imports p (then_graph g gs) = has_imports p (then_graph g gs)

  -- `add_mmz_aux` behind the call of `find_imports`: the path goes from `todos` to `done`.
  unfoldable pub finish : Str → Str → ImportGraphs × FileData → Res (ImportGraph × FileData)
  finish p s (imports, d) = elim d.todos [
    | [] ↦ panic
    | popped ∷ rest ↦ ok (
      of_imports p imports,
      record { mmz_files = snoc d.mmz_files s; todos = rest; done = snoc d.done popped },
    )
  ]

  -- `fuel` bounds the depth of the calls and the words that are read.
  unfoldable mutual
    unfolding next_import any_path finish

    pub add_mmz_aux : ℕ → Str → FileData → Res (ImportGraph × FileData)
    add_mmz_aux zero p d = hang
    add_mmz_aux (suc fuel) p d = do
      s ← unwrap (read p)
      found ← find_imports fuel (split s) (record d { todos = p ∷ d.todos })
      finish p s found

    pub find_imports : ℕ → List Str → FileData → Res (ImportGraphs × FileData)
    find_imports zero ws d = hang
    find_imports (suc fuel) ws d = elim (next_import ws) [
      | at_end ↦ ok (no_graphs, d)
      | skipped ws' ↦ find_imports fuel ws' d
      | bad_import ↦ panic
      | import_of n ws' ↦
          if any_path (w_filename n) d.done
          then find_imports fuel ws' d
          else if any_path (w_filename n) d.todos
          then err msg
          else (do
            (g, d') ← add_mmz_aux fuel (w_filename n) d
            (gs, d'') ← find_imports fuel ws' d'
            ok (then_graph g gs, d''))
    ]

  abbrev pub no_files : FileData
  no_files = record { mmz_files = []; todos = []; done = [] }

  -- `new_from`, without the binary file: the import graph of the root file.
  unfoldable pub load : ℕ → Str → Res (ImportGraph × FileData)
  unfolding add_mmz_aux
  load fuel root = add_mmz_aux fuel root no_files
