-- ===== src/Tests/Apart.antt =====
-- Convertibility tells expressions apart: two variables, in a file without terms.
use second_opinion.Prelude.{ℕ, [], ◌≡◌, ok, arith}
use second_opinion.Util.Outline.{Outline, Term, get_term_by_num}
use second_opinion.Mmb.Soundness.{Equal}
use second_opinion.Agreement.Apart.{Equal-shape}
use second_opinion.Tests.Examples.{short, phi, psi}

abbrev bare : Outline
bare = record short { mmb = []; header = record short.header { num_terms = 0; terms_start = 1 } }

no_term : (n : ℕ) (t : Term) → ¬ (get_term_by_num bare n ≡ ok t)
unfolding get_term_by_num
no_term n t e = ground arith

not-Equal : ¬ Equal bare phi psi
not-Equal e = cc (Equal-shape bare no_term phi psi e)
