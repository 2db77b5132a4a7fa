-- ===== src/Util/Outline.antt =====
-- src/util.rs: `Outline`, the tables of terms and assertions (`Term`, `Assert`, `Args`), `Mods`.
pub mod Termination
pub mod Backwards
use second_opinion.Prelude.{
  ℕ, zero, suc, ◌+◌, ◌-◌, ◌*◌, ◌/◌, ◌%◌, ◌^◌, bit_and, Bool, not, List, [], ◌∷◌, length, take, drop,
  get_elem?, last?, ltb, ◌==◌, if◌then◌else◌, Option, none, some, Res, ok, err, panic, hang, msg,
  none_err, unwrap, unwrap_res, fits, sub_or_panic, ◌>>=◌,
}
use second_opinion.Util.Ty.{Ty, ty}
use second_opinion.Util.Bytes.{parse_u8, parse_u16, parse_u32, parse_u64, get_from}
use second_opinion.Util.Stmt.{StmtCmd, sort_stmt, axiom_stmt, termdef, thm}
use second_opinion.Util.Decl.{collect}
use second_opinion.Util.Header.{Header, Index, parse_header, parse_index}
use second_opinion.Mmb.UnifyCmd.{UnifyIter}
use second_opinion.Mmb.ProofCmd.{ProofIter}

pub record Outline : Type 0 where
  pub mmb : List ℕ
  pub header : Header
  pub index : Index
  pub declarations : List (StmtCmd × ProofIter)

-- The atomic counters of `Outline`.
pub record Counters : Type 0 where
  pub num_sorts_done : ℕ
  pub num_termdefs_done : ℕ
  pub num_asserts_done : ℕ

-- A declaration takes a byte at least, unless its data is 0: then the iterator reads it again, and
-- the model, where the source goes on until a counter overflows, hangs.
unfoldable pub new_from : List ℕ → Res Outline
unfolding parse_header parse_index collect
new_from mmb = do
  header ← parse_header mmb
  index ← parse_index mmb header
  declarations ← collect (suc (length mmb)) (record {
    mmb = mmb;
    pos = header.proof_stream_start;
    next_sort_num = 0;
    next_termdef_num = 0;
    next_assert_num = 0;
  })
  ok (record { mmb = mmb; header = header; index = index; declarations = declarations })

-- `fetch_add` wraps.
unfoldable pub add_declar : Counters → StmtCmd → Counters
add_declar c (sort_stmt _) = record c { num_sorts_done = (c.num_sorts_done + 1) % 2 ^ 8 }
add_declar c (termdef _ _) = record c { num_termdefs_done = (c.num_termdefs_done + 1) % 2 ^ 32 }
add_declar c (axiom_stmt _) = record c { num_asserts_done = (c.num_asserts_done + 1) % 2 ^ 32 }
add_declar c (thm _ _) = record c { num_asserts_done = (c.num_asserts_done + 1) % 2 ^ 32 }

-- `Mods::is_provable`, on the byte of a sort's modifiers.
unfoldable pub is_provable : ℕ → Bool
is_provable mods = not (bit_and mods 4 == 0)

unfoldable pub get_sort_mods : Outline → ℕ → Res ℕ
get_sort_mods o n = none_err (get_elem? o.mmb (o.header.sort_data_start + n))

-- `Args` is a slice of 8-byte types. `args_list` are the items of its iterator: `next` finds a
-- number or, in fewer than 8 bytes, reaches an `unreachable!`. Each round takes 8 bytes, so the
-- length is fuel enough.
unfoldable pub args_loop : ℕ → List ℕ → Res (List Ty)
unfolding parse_u64
args_loop fuel [] = ok []
args_loop zero (b ∷ bs) = hang
args_loop (suc fuel) (b ∷ bs) = do
  (parsed, rest) ← unwrap_res (parse_u64 (b ∷ bs))
  tys ← args_loop fuel rest
  ok (ty parsed ∷ tys)

unfoldable pub args_list : List ℕ → Res (List Ty)
unfolding args_loop
args_list source = args_loop (length source) source

-- `Args::next_back`: `none` ends the iterator, and so does a slice of fewer than 8 bytes.
unfoldable pub next_back : List ℕ → Res (Option (Ty × List ℕ))
unfolding parse_u64
next_back source = if ltb (length source) 8 then ok none else (do
  (parsed, rest) ← unwrap_res (parse_u64 (drop (length source - 8) source))
  ok (some (ty parsed, take (length source - 8) source)))

pub record Term : Type 0 where
  pub term_num : ℕ
  pub sort : ℕ
  pub args_start : List ℕ
  pub unify : UnifyIter

unfoldable pub is_def : Term → Bool
is_def t = not (bit_and t.sort 0x80 == 0)

unfoldable pub term_sort : Term → ℕ
term_sort t = bit_and t.sort 0x7F

unfoldable pub term_args : Term → Res (List Ty)
unfolding args_list
term_args t = args_list t.args_start

unfoldable pub args_no_ret : Term → Res (List Ty)
unfolding args_list
args_no_ret t = do n ← sub_or_panic (length t.args_start) 8; args_list (take n t.args_start)

-- `Args::len`
abbrev pub args_len : List ℕ → ℕ
args_len source = length source / 8

unfoldable pub num_args_no_ret : Term → Res ℕ
num_args_no_ret t = do n ← sub_or_panic (args_len t.args_start) 1; fits 16 n

unfoldable pub ret : Term → Res Ty
unfolding args_list
ret t = do tys ← args_list t.args_start; unwrap (last? tys)

pub record Assert : Type 0 where
  pub assert_num : ℕ
  pub args_start : List ℕ
  pub unify : UnifyIter

unfoldable pub assert_args : Assert → Res (List Ty)
unfolding args_list
assert_args a = args_list a.args_start

-- `slice.split_at(mid)`
abbrev pub split_at : List ℕ → ℕ → Res (List ℕ × List ℕ)
split_at bytes mid = if ltb (length bytes) mid then panic else ok (take mid bytes, drop mid bytes)

-- `num_args + 1` is an addition of `u16`s.
unfoldable pub get_term_by_num : Outline → ℕ → Res Term
unfolding parse_u8 parse_u16 parse_u32
get_term_by_num o term_num = do
  s0 ← none_err (get_from o.mmb (o.header.terms_start + term_num * 8))
  (num_args, s1) ← parse_u16 s0
  (sort, s2) ← parse_u8 s1
  (reserved, s3) ← parse_u8 s2
  (term_args_start, s4) ← parse_u32 s3
  a0 ← none_err (get_from o.mmb term_args_start)
  n ← fits 16 (num_args + 1)
  (args_start, unify_start) ← split_at a0 (8 * n)
  ok (record {
    term_num = term_num;
    sort = sort;
    args_start = args_start;
    unify = record { buf = o.mmb; pos = length o.mmb - length unify_start };
  })

-- Here the offset is computed in `u32`.
unfoldable pub get_assert_by_num : Outline → ℕ → Res Assert
unfolding parse_u16 parse_u32
get_assert_by_num o assert_num = do
  off ← fits 32 (assert_num * 8)
  thm_start ← fits 32 (o.header.thms_start + off)
  s0 ← (if ltb (length o.mmb) thm_start then err msg else ok (drop thm_start o.mmb))
  (num_args, s1) ← parse_u16 s0
  (reserved, s2) ← parse_u16 s1
  (args_start, s3) ← parse_u32 s2
  a0 ← none_err (get_from o.mmb args_start)
  (args, unify_start) ← split_at a0 (8 * num_args)
  ok (record {
    assert_num = assert_num;
    args_start = args;
    unify = record { buf = o.mmb; pos = length o.mmb - length unify_start };
  })
