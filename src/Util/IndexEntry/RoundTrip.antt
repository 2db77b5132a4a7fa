-- ===== src/Util/IndexEntry/RoundTrip.antt =====
-- src/mmb/index.rs: the index of a file and its entries, written by an encoder.
use second_opinion.Prelude.{
  ℕ, ◌+◌, ◌*◌, ◌<◌, ◌≢◌, ◌^◌, true, false, List, [], ◌∷◌, ◌++◌, length, length-append, get_elem?,
  drop-length_append, take-length_append, ltb, leb, ◌==◌, All, some, ◌≡◌, refl, ap, ok, arith, Res,
  Option,
}
use second_opinion.Util.Bytes.{parse_u8, parse_u32, parse_u64}
use second_opinion.Util.Cmd.RoundTrip.{le_bytes, length-le_bytes, parse_uint-le_bytes}
use second_opinion.Util.Header.{Header, Index, slice_from, prefix_loop, prefix_u64, parse_index}
use second_opinion.Util.Outline.{Outline}
use second_opinion.Util.IndexEntry.{
  IndexEntry, position_null, parse_cstr, index_entry, term_index_entry, assert_index_entry,
}

-- A list of 64-bit numbers, one behind the other, in front of what follows.
abbrev pub le_all : List ℕ → List ℕ → List ℕ
le_all [] rest = rest
le_all (n ∷ ns) rest = le_bytes 8 n ++ le_all ns rest

length-le_all : (ns rest : List ℕ) → length (le_all ns rest) ≡ 8 * length ns + length rest
length-le_all [] rest = omega arith
length-le_all (n ∷ ns) rest = omega (
  arith,
  length-append (le_bytes 8 n) (le_all ns rest),
  length-le_bytes 8 n,
  length-le_all ns rest,
)

prefix_loop-le_all :
    (ns rest : List ℕ)
    → All (λ n. n < 2 ^ 64) ns
    → prefix_loop (length ns) (le_all ns rest) ≡ ok (ns, rest)
unfolding prefix_loop parse_u64
prefix_loop-le_all [] rest h = refl
prefix_loop-le_all (n ∷ ns) rest h =
    rw (parse_uint-le_bytes 8 n (le_all ns rest) h.0, prefix_loop-le_all ns rest h.1)

prefix_u64-le_all :
    (ns rest : List ℕ) (k : ℕ)
    → k ≡ length ns
    → All (λ n. n < 2 ^ 64) ns
    → prefix_u64 (le_all ns rest) k ≡ ok (ns, rest)
unfolding prefix_u64
prefix_u64-le_all ns rest k e h =
    let enough : leb (8 * length ns) (length (le_all ns rest)) ≡ true =
      ground (arith, length-le_all ns rest) in
    rw e (rw enough (prefix_loop-le_all ns rest h))

-- `&mmb[start..]` at the end of what stands before.
slice_from-append :
    (before rest : List ℕ) (start : ℕ)
    → start ≡ length before
    → slice_from (before ++ rest) start ≡ ok rest
slice_from-append before rest start e =
    let inside : ltb (length (before ++ rest)) (length before) ≡ false =
      ground (arith, length-append before rest) in
    rw e (rw (inside, drop-length_append before rest))

abbrev pub encode_index : Index → List ℕ → List ℕ
encode_index i rest = le_bytes 8 i.root ++ le_all i.sorts (le_all i.terms (le_all i.thms rest))

-- An index that is written at the place that the header names, with as many pointers as the header says
-- there are sorts, terms and theorems, is read back. The numbers are words of 64 bits; anything may
-- stand before and behind.
pub parse_index-encode_index :
    (before rest : List ℕ) (i : Index) (header : Header)
    → header.index_start ≡ length before
    → header.num_sorts ≡ length i.sorts
    → header.num_terms ≡ length i.terms
    → header.num_thms ≡ length i.thms
    → i.root < 2 ^ 64
    → All (λ n. n < 2 ^ 64) i.sorts
    → All (λ n. n < 2 ^ 64) i.terms
    → All (λ n. n < 2 ^ 64) i.thms
    → parse_index (before ++ encode_index i rest) header ≡ ok i
unfolding parse_index parse_u64
parse_index-encode_index before rest i header e1 e2 e3 e4 h1 h2 h3 h4 = rw (
  slice_from-append before (encode_index i rest) header.index_start e1,
  parse_uint-le_bytes 8 i.root (le_all i.sorts (le_all i.terms (le_all i.thms rest))) h1,
  prefix_u64-le_all i.sorts (le_all i.terms (le_all i.thms rest)) header.num_sorts e2 h2,
  prefix_u64-le_all i.terms (le_all i.thms rest) header.num_terms e3 h3,
  prefix_u64-le_all i.thms rest header.num_thms e4 h4,
)

abbrev pub IsName : List ℕ → Type 0
IsName = All (λ c. c ≢ 0)

position_null-append :
    (name rest : List ℕ) → IsName name → position_null (name ++ 0 ∷ rest) ≡ some (length name)
unfolding position_null
position_null-append [] rest h = refl
position_null-append (c ∷ name) rest h =
    let other : (c == 0) ≡ false = ground (arith, h.0) in
    rw (other, position_null-append name rest h.1) (ap (λ (n : ℕ). some n) (omega arith))

parse_cstr-append : (name rest : List ℕ) → IsName name → parse_cstr (name ++ 0 ∷ rest) ≡ some name
unfolding parse_cstr
parse_cstr-append name rest h =
    rw (position_null-append name rest h, parse_cstr)
      (ap (λ (n : List ℕ). some n) (take-length_append name (0 ∷ rest)))

abbrev pub encode_entry : IndexEntry → List ℕ → List ℕ
encode_entry e rest =
    le_bytes 8 e.left
    ++ (le_bytes 8 e.right
        ++ (le_bytes 4 e.row
            ++ (le_bytes 4 e.col
                ++ (le_bytes 8 e.proof
                    ++ (le_bytes 4 e.ix ++ (le_bytes 1 e.kind ++ (e.charbuff ++ 0 ∷ rest)))))))

-- The numbers fit their fields, and the name has no zero byte.
pub record IsEntry (e : IndexEntry) : Type 0 where
  pub left : e.left < 2 ^ 64
  pub right : e.right < 2 ^ 64
  pub row : e.row < 2 ^ 32
  pub col : e.col < 2 ^ 32
  pub proof : e.proof < 2 ^ 64
  pub ix : e.ix < 2 ^ 32
  pub kind : e.kind < 2 ^ 8
  pub charbuff : IsName e.charbuff

index_entry-read :
    (o : Outline) (before rest : List ℕ) (e : IndexEntry)
    → IsEntry e
    → o.mmb ≡ before ++ encode_entry e rest
    → index_entry o (length before) ≡ ok (some e)
unfolding index_entry parse_u8 parse_u32 parse_u64
index_entry-read o before rest e h file =
    let s7 = e.charbuff ++ 0 ∷ rest in
    let s6 = le_bytes 1 e.kind ++ s7 in
    let s5 = le_bytes 4 e.ix ++ s6 in
    let s4 = le_bytes 8 e.proof ++ s5 in
    let s3 = le_bytes 4 e.col ++ s4 in
    let s2 = le_bytes 4 e.row ++ s3 in
    let s1 = le_bytes 8 e.right ++ s2 in
    rw (
      file,
      slice_from-append before (encode_entry e rest) (length before) refl,
      parse_uint-le_bytes 8 e.left s1 h.left,
      parse_uint-le_bytes 8 e.right s2 h.right,
      parse_uint-le_bytes 4 e.row s3 h.row,
      parse_uint-le_bytes 4 e.col s4 h.col,
      parse_uint-le_bytes 8 e.proof s5 h.proof,
      parse_uint-le_bytes 4 e.ix s6 h.ix,
      parse_uint-le_bytes 1 e.kind s7 h.kind,
      parse_cstr-append e.charbuff rest h.charbuff,
    )

-- The tables of the index that have entries.
pub data Table : Type 0 where
  of_terms of_asserts : Table

abbrev pub pointers : Table → Outline → List ℕ
pointers of_terms o = o.index.terms
pointers of_asserts o = o.index.thms

abbrev pub entry_of : Table → Outline → ℕ → Res (Option IndexEntry)
entry_of of_terms = term_index_entry
entry_of of_asserts = assert_index_entry

-- An entry that stands in the file, where the index points for a term or for an assertion, is read
-- back for it. Its numbers fit their fields, and its name has no zero byte.
pub index_entry-encode_entry :
    (o : Outline) (table : Table) (before rest : List ℕ) (e : IndexEntry) (num : ℕ)
    → IsEntry e
    → o.mmb ≡ before ++ encode_entry e rest
    → get_elem? (pointers table o) num ≡ some (length before)
    → entry_of table o num ≡ ok (some e)
unfolding term_index_entry assert_index_entry
index_entry-encode_entry o of_terms before rest e num h file t =
    let read = index_entry-read o before rest e h file in rw t read
index_entry-encode_entry o of_asserts before rest e num h file t =
    let read = index_entry-read o before rest e h file in rw t read
