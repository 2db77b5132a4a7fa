-- ===== src/Util/Header.antt =====
-- src/mmb/mod.rs, `Header`, and src/mmb/index.rs, `Index`.
use second_opinion.Prelude.{
  ℕ, zero, suc, ◌-◌, ◌*◌, ◌^◌, List, [], ◌∷◌, length, drop, ltb, leb, ◌==◌, if◌then◌else◌, Res, ok,
  err, panic, conv_err_err, msg, assert, unwrap_res, ◌>>=◌, ◌>>◌,
}
use second_opinion.Util.Bytes.{parse_u8, parse_u16, parse_u32, parse_u64}

abbrev pub mm0b_magic : ℕ
mm0b_magic = 0x42304D4D

abbrev pub sort_pure : ℕ
sort_pure = 1

abbrev pub sort_strict : ℕ
sort_strict = 2

abbrev pub sort_provable : ℕ
sort_provable = 4

abbrev pub sort_free : ℕ
sort_free = 8

pub record Header : Type 0 where
  pub magic : ℕ
  pub version : ℕ
  pub num_sorts : ℕ
  pub reserved : ℕ
  pub num_terms : ℕ
  pub num_thms : ℕ
  pub terms_start : ℕ
  pub thms_start : ℕ
  pub proof_stream_start : ℕ
  pub reserved2 : ℕ
  pub index_start : ℕ
  pub sort_data_start : ℕ

-- `conv_err!(u32::try_from(n))`
abbrev pub try_u32 : ℕ → Res ℕ
try_u32 n = if ltb n (2 ^ 32) then ok n else err conv_err_err

unfoldable pub parse_header : List ℕ → Res Header
unfolding parse_u8 parse_u16 parse_u32 parse_u64
parse_header mmb = do
  (magic, s1) ← parse_u32 mmb
  assert (magic == mm0b_magic)
  (version, s2) ← parse_u8 s1
  (num_sorts, s3) ← parse_u8 s2
  (reserved, s4) ← parse_u16 s3
  (num_terms, s5) ← parse_u32 s4
  (num_thms, s6) ← parse_u32 s5
  (terms_start, s7) ← parse_u32 s6
  (thms_start, s8) ← parse_u32 s7
  (proof_stream_start, s9) ← parse_u32 s8
  (reserved2, s10) ← parse_u32 s9
  (index_start, s11) ← parse_u64 s10
  sort_data_start ← try_u32 (length mmb - length s11)
  ok (record {
    magic = magic;
    version = version;
    num_sorts = num_sorts;
    reserved = reserved;
    num_terms = num_terms;
    num_thms = num_thms;
    terms_start = terms_start;
    thms_start = thms_start;
    proof_stream_start = proof_stream_start;
    reserved2 = reserved2;
    index_start = index_start;
    sort_data_start = sort_data_start;
  })

pub record Index : Type 0 where
  pub root : ℕ
  pub sorts : List ℕ
  pub terms : List ℕ
  pub thms : List ℕ

-- The loop of `prefix_u64`.
unfoldable pub prefix_loop : ℕ → List ℕ → Res (List ℕ × List ℕ)
unfolding parse_u64
prefix_loop zero bytes = ok ([], bytes)
prefix_loop (suc n) bytes = do
  (inner, rest) ← parse_u64 bytes
  (v, last) ← prefix_loop n rest
  ok (inner ∷ v, last)

-- `8 * num_elems` is a `usize`; no count that is read from a file makes it overflow.
unfoldable pub prefix_u64 : List ℕ → ℕ → Res (List ℕ × List ℕ)
unfolding prefix_loop
prefix_u64 bytes num_elems =
    if leb (8 * num_elems) (length bytes) then prefix_loop num_elems bytes else err msg

-- `&mmb[start..]`
abbrev pub slice_from : List ℕ → ℕ → Res (List ℕ)
slice_from mmb start = if ltb (length mmb) start then panic else ok (drop start mmb)

unfoldable pub parse_index : List ℕ → Header → Res Index
unfolding prefix_u64
parse_index mmb header = do
  start ← slice_from mmb header.index_start
  (root, r1) ← unwrap_res (parse_u64 start)
  (sorts, r2) ← unwrap_res (prefix_u64 r1 header.num_sorts)
  (terms, r3) ← unwrap_res (prefix_u64 r2 header.num_terms)
  (thms, r4) ← unwrap_res (prefix_u64 r3 header.num_thms)
  ok (record { root = root; sorts = sorts; terms = terms; thms = thms })
