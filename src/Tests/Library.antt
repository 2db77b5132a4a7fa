-- ===== src/Tests/Library.antt =====
-- The theorems on the formats and the graph of coercions, at concrete inputs.
use second_opinion.Prelude.{
  ℕ, ◌+◌, ◌-◌, ◌^◌, true, List, [], ◌∷◌, ◌++◌, snoc, length, ◌≡◌, refl, some, ok, arith,
}
use second_opinion.Util.Ty.{ty, is_bound, bound_pos}
use second_opinion.Util.Ty.Position.{FirstBelow, bound_pos-FirstBelow}
use second_opinion.Util.View.{view64, view32, view16, view8}
use second_opinion.Util.View.Groups.{groups}
use second_opinion.Util.View.Reading.{read_binary, read-view}
use second_opinion.Util.Header.{Header, Index, parse_index}
use second_opinion.Util.IndexEntry.{IndexEntry, term_index_entry}
use second_opinion.Util.IndexEntry.RoundTrip.{
  encode_index, encode_entry, parse_index-encode_index, of_terms, index_entry-encode_entry,
}
use second_opinion.Util.Outline.{Outline, args_list, next_back}
use second_opinion.Util.Outline.Backwards.{next_back-args_list}
use second_opinion.Util.Decl.Numbers.{NumberedFrom, new_from-NumberedFrom}
use second_opinion.Mmz.Data.{single, trans}
use second_opinion.Mmz.Coercion.{Coes, get_coe, add_coe_raw}
use second_opinion.Mmz.Coercion.Graph.{IsGraph, add_coe_raw-IsGraph}
use second_opinion.Tests.Examples.{short}
use second_opinion.Tests.Short.{short_mmb}
use second_opinion.Tests.Whole.{short_outline, short_opens}

abbrev mask : ℕ
mask = 2 ^ 63 + (2 ^ 56 - 1)

read-view_example :
    (read_binary 0 (view64 mask) ≡ mask)
    × (groups 0 (view64 mask) ≡ true)
    × (length (view64 mask) ≡ 71)
    × (read_binary 0 (view32 9) ≡ 9)
    × (groups 0 (view32 9) ≡ true)
    × (length (view32 9) ≡ 35)
    × (read_binary 0 (view16 500) ≡ 500)
    × (groups 0 (view16 500) ≡ true)
    × (length (view16 500) ≡ 17)
    × (read_binary 0 (view8 0) ≡ 0)
    × (groups 0 (view8 0) ≡ true)
    × (length (view8 0) ≡ 8)
read-view_example = read-view mask 9 500 0 (omega arith) (omega arith) (omega arith) (omega arith)

third_bound : bound_pos (ty (2 ^ 63 + 12)) ≡ ok 3
unfolding bound_pos
third_bound = refl

bound_pos-FirstBelow_example :
    (is_bound (ty (2 ^ 63 + 12)) ≡ true) × FirstBelow (ty (2 ^ 63 + 12)) 56 3
bound_pos-FirstBelow_example = bound_pos-FirstBelow (ty (2 ^ 63 + 12)) third_bound

abbrev small_index : Index
small_index = record { root = 7; sorts = 300 ∷ []; terms = 2 ∷ 2 ∷ []; thms = [] }

abbrev small_header : Header
small_header = record short.header { num_sorts = 1; num_terms = 2; num_thms = 0; index_start = 3 }

parse_index-encode_index_example :
    parse_index ((9 ∷ 9 ∷ 9 ∷ []) ++ encode_index small_index (4 ∷ [])) small_header
    ≡ ok small_index
parse_index-encode_index_example =
    parse_index-encode_index (9 ∷ 9 ∷ 9 ∷ []) (4 ∷ []) small_index small_header refl refl refl refl
      (omega arith) (omega arith) (omega arith) (omega arith)

-- The entry of a term `im`.
abbrev im_entry : IndexEntry
im_entry = record {
  left = 0;
  right = 0;
  row = 5;
  col = 5;
  proof = 268;
  ix = 0;
  kind = 5;
  charbuff = 105 ∷ 109 ∷ [];
}

abbrev one_entry : Outline
one_entry = record short {
  mmb = (8 ∷ []) ++ encode_entry im_entry [];
  index = record { root = 1; sorts = []; terms = 1 ∷ []; thms = [] };
}

index_entry-encode_entry_example : term_index_entry one_entry 0 ≡ ok (some im_entry)
index_entry-encode_entry_example =
    index_entry-encode_entry one_entry of_terms (8 ∷ []) [] im_entry 0 (ground arith) refl refl

abbrev sixteen : List ℕ
sixteen = 1 ∷ 0 ∷ 0 ∷ 0 ∷ 0 ∷ 0 ∷ 0 ∷ 0 ∷ 2 ∷ 0 ∷ 0 ∷ 0 ∷ 0 ∷ 0 ∷ 0 ∷ 128 ∷ []

two_args : args_list sixteen ≡ ok (snoc (ty 1 ∷ []) (ty (2 ^ 63 + 2)))
unfolding args_list
two_args = refl

next_back-args_list_example :
    (front : List ℕ) × (next_back sixteen ≡ ok (some (ty (2 ^ 63 + 2), front)))
    × (args_list front ≡ ok (ty 1 ∷ []))
next_back-args_list_example = next_back-args_list sixteen (ty 1 ∷ []) (ty (2 ^ 63 + 2)) two_args

new_from-NumberedFrom_example : NumberedFrom 0 0 0 short_outline.declarations
new_from-NumberedFrom_example = new_from-NumberedFrom short_mmb short_opens

-- From sort 1 to sort 2 by the term 10, and then from sort 0 to sort 1 by the term 11.
abbrev one_step : Coes
one_step = (1, (2, single 10) ∷ []) ∷ []

abbrev three_steps : Coes
three_steps =
    (1, (2, single 10) ∷ []) ∷ (0, (1, single 11) ∷ (2, trans (single 11) 1 (single 10)) ∷ []) ∷ []

one_step-IsGraph : IsGraph one_step
unfolding get_coe
one_step-IsGraph = record {
  found = ((refl, tt), tt);
  halves = ((tt, tt), tt);
  no_loop = ((refl, tt), tt);
}

step_added : add_coe_raw 11 0 1 one_step ≡ (ok tt, three_steps)
unfolding add_coe_raw
step_added = refl

add_coe_raw-IsGraph_example : IsGraph three_steps × (get_coe 0 1 three_steps ≡ some (single 11))
add_coe_raw-IsGraph_example = add_coe_raw-IsGraph 11 0 1 one_step one_step-IsGraph step_added
