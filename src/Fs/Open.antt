-- ===== src/Fs/Open.antt =====
-- src/fs.rs, `new_from`: the files named on the command line.
use second_opinion.Prelude.{ℕ, List, Option, none, some, Res, ok, unwrap, ◌>>=◌}
use second_opinion.Mmz.Data.{Str}
use second_opinion.Fs.{ImportGraph, FileData, load}

-- What the program takes from the standard library: files, paths and words. A function is absent
-- where its call fails.
pub record FileSystem : Type 0 where
  pub canonicalize : Str → Option Str
  pub set_extension_mm0 : Str → Str
  pub set_file_name : Str → Str → Str
  pub read_to_end : Str → Option (List ℕ)
  pub read_to_string : Str → Option Str
  pub split_whitespace : Str → List Str

-- The specification stands beside the binary file, unless it is named.
unfoldable pub root_path : FileSystem → Str → Option Str → Res Str
root_path fs mmb_path none = ok (fs.set_extension_mm0 mmb_path)
root_path fs mmb_path (some p) = unwrap (fs.canonicalize p)

-- The bytes of the binary file, and the texts of the specification with their import graph.
unfoldable pub open_files :
    FileSystem → ℕ → Str → Option Str → Res (List ℕ × ImportGraph × FileData)
unfolding root_path load
open_files fs fuel mmb root_mmz = do
  mmb_path ← unwrap (fs.canonicalize mmb)
  root ← root_path fs mmb_path root_mmz
  mmb_file ← unwrap (fs.read_to_end mmb_path)
  (mmz_hierarchy, files) ←
      load fs.read_to_string fs.split_whitespace (fs.set_file_name root) fuel root
  ok (mmb_file, mmz_hierarchy, files)
