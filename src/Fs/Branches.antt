-- ===== src/Fs/Branches.antt =====
-- src/fs.rs, `find_imports`: its branches, as equations.
use second_opinion.Prelude.{
  ℕ, suc, List, true, false, ◌≡◌, refl, Option, ok, err, panic, msg, ◌>>=◌,
}
use second_opinion.Mmz.Data.{Str}
use second_opinion.Fs.{
  no_graphs, then_graph, FileData, any_path, Next, at_end, skipped, import_of, bad_import,
  next_import, add_mmz_aux, find_imports,
}

-- The four answers of `next_import`.
pub data NextIs (n : Next) : Type 0 where
  end : n ≡ at_end → NextIs n
  bad : n ≡ bad_import → NextIs n
  skip : (ws : List Str) → n ≡ skipped ws → NextIs n
  import : (p : Str) (ws : List Str) → n ≡ import_of p ws → NextIs n

pub next_cases : (n : Next) → NextIs n
next_cases at_end = end refl
next_cases bad_import = bad refl
next_cases (skipped ws) = skip ws refl
next_cases (import_of p ws) = import p ws refl

module _ (read : Str → Option Str) (split : Str → List Str) (w_filename : Str → Str) where
  -- The branches of `find_imports`.
  pub at_end_eq :
      (fuel : ℕ) (ws : List Str) (d : FileData)
      → next_import ws ≡ at_end
      → find_imports read split w_filename (suc fuel) ws d ≡ ok (no_graphs, d)
  unfolding add_mmz_aux
  at_end_eq fuel ws d e = rw (e, find_imports) refl

  pub bad_eq :
      (fuel : ℕ) (ws : List Str) (d : FileData)
      → next_import ws ≡ bad_import
      → find_imports read split w_filename (suc fuel) ws d ≡ panic
  unfolding add_mmz_aux
  bad_eq fuel ws d e = rw (e, find_imports) refl

  pub skipped_eq :
      (fuel : ℕ) (ws ws' : List Str) (d : FileData)
      → next_import ws ≡ skipped ws'
      → find_imports read split w_filename (suc fuel) ws d
        ≡ find_imports read split w_filename fuel ws' d
  unfolding add_mmz_aux
  skipped_eq fuel ws ws' d e = rw (e, find_imports) refl

  pub done_eq :
      (fuel : ℕ) (ws ws' : List Str) (n : Str) (d : FileData)
      → next_import ws ≡ import_of n ws'
      → any_path (w_filename n) d.done ≡ true
      → find_imports read split w_filename (suc fuel) ws d
        ≡ find_imports read split w_filename fuel ws' d
  unfolding add_mmz_aux
  done_eq fuel ws ws' n d e f = rw (e, f, find_imports) refl

  -- A file that imports one that is being read.
  pub cycle_eq :
      (fuel : ℕ) (ws ws' : List Str) (n : Str) (d : FileData)
      → next_import ws ≡ import_of n ws'
      → any_path (w_filename n) d.done ≡ false
      → any_path (w_filename n) d.todos ≡ true
      → find_imports read split w_filename (suc fuel) ws d ≡ err msg
  unfolding add_mmz_aux
  cycle_eq fuel ws ws' n d e f g = rw (e, f, g, find_imports) refl

  pub new_eq :
      (fuel : ℕ) (ws ws' : List Str) (n : Str) (d : FileData)
      → next_import ws ≡ import_of n ws'
      → any_path (w_filename n) d.done ≡ false
      → any_path (w_filename n) d.todos ≡ false
      → find_imports read split w_filename (suc fuel) ws d ≡ (
          add_mmz_aux read split w_filename fuel (w_filename n) d >>= λ r.
          find_imports read split w_filename fuel ws' r.1 >>= λ q. ok (then_graph r.0 q.0, q.1))
  unfolding add_mmz_aux
  new_eq fuel ws ws' n d e f g = rw (e, f, g, find_imports) refl
