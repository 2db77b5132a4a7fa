-- ===== src/Util/IndexEntry.antt =====
-- src/mmb/index.rs: the entries of the index, with the position of a declaration in its source and its name.
pub mod RoundTrip
use second_opinion.Prelude.{
  ℕ, ◌+◌, List, [], ◌∷◌, take, get_elem?, ◌==◌, if◌then◌else◌, Option, none, some, Res, ok, unwrap,
  unwrap_res, ◌>>=◌,
}
use second_opinion.Util.Bytes.{parse_u8, parse_u32, parse_u64}
use second_opinion.Util.Header.{slice_from}
use second_opinion.Util.Outline.{Outline}

pub record IndexEntry : Type 0 where
  pub left : ℕ
  pub right : ℕ
  pub row : ℕ
  pub col : ℕ
  pub proof : ℕ
  pub ix : ℕ
  pub kind : ℕ
  pub charbuff : List ℕ

-- `iter().position(|c| *c == 0)`
unfoldable pub position_null : List ℕ → Option ℕ
position_null [] = none
position_null (c ∷ cs) =
    let rest = position_null cs in
    if c == 0 then some 0 else (elim rest [ none ↦ none | some i ↦ some (i + 1) ])

unfoldable pub parse_cstr : List ℕ → Option (List ℕ)
unfolding position_null
parse_cstr source = elim (position_null source) [
  | none ↦ none
  | some null ↦ some (take null source)
]

-- `ok none` is `None`, for a name that does not end.
unfoldable pub index_entry : Outline → ℕ → Res (Option IndexEntry)
unfolding parse_u8 parse_u32 parse_u64 parse_cstr
index_entry o start_at = do
  s0 ← slice_from o.mmb start_at
  (left, s1) ← unwrap_res (parse_u64 s0)
  (right, s2) ← unwrap_res (parse_u64 s1)
  (row, s3) ← unwrap_res (parse_u32 s2)
  (col, s4) ← unwrap_res (parse_u32 s3)
  (proof, s5) ← unwrap_res (parse_u64 s4)
  (ix, s6) ← unwrap_res (parse_u32 s5)
  (kind, s7) ← unwrap_res (parse_u8 s6)
  ok (elim (parse_cstr s7) [
    | none ↦ none
    | some charbuff ↦ some (record {
      left = left;
      right = right;
      row = row;
      col = col;
      proof = proof;
      ix = ix;
      kind = kind;
      charbuff = charbuff;
    })
  ])

unfoldable pub term_index_entry : Outline → ℕ → Res (Option IndexEntry)
unfolding index_entry
term_index_entry o term_num = do
  entry ← unwrap (get_elem? o.index.terms term_num)
  index_entry o entry

unfoldable pub assert_index_entry : Outline → ℕ → Res (Option IndexEntry)
unfolding index_entry
assert_index_entry o assert_num = do
  entry ← unwrap (get_elem? o.index.thms assert_num)
  index_entry o entry
