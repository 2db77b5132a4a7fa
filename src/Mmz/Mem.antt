-- ===== src/Mmz/Mem.antt =====
-- src/mmz/mod.rs: the state that lasts from one declaration to the next, `MmzMem`.
use second_opinion.Prelude.{
  ℕ, ◌+◌, Bool, true, false, List, [], ◌∷◌, length, snoc, get_elem?, ltb, ◌==◌, if◌then◌else◌,
  Option, none, some, Res, ok, err, none_err, conv_err_err, assert, unwrap_res, fits, ◌>>=◌, ◌>>◌,
}
use second_opinion.Util.Stmt.{StmtCmd, sort_stmt, termdef, axiom_stmt, thm}
use second_opinion.Util.Outline.{Outline, Term, get_term_by_num, get_sort_mods, is_provable}
use second_opinion.Mmz.Map.{Map, get, insert}
use second_opinion.Mmz.Data.{Str, str_eq, DelimKind, Prec, Assoc, NotationInfo, Coe}

pub record MmzMem : Type 0 where
  pub outline : Outline
  pub mmz : List ℕ
  pub mmz_files : List (List ℕ)
  pub mmz_file_num : ℕ
  pub mmz_pos : ℕ
  pub delims : List (ℕ × DelimKind)
  pub consts : Map Str Prec
  pub prefixes : Map Str NotationInfo
  pub infixes : Map Str NotationInfo
  pub occupied_precs : Map Prec Assoc
  pub nonlocal_termdefs : Map Str ℕ
  pub nonlocal_asserts : Map Str ℕ
  pub sorts : List Str
  pub provs : Map ℕ Bool
  pub coes : Map ℕ (Map ℕ Coe)
  pub coe_prov : Map ℕ ℕ
  pub num_sorts : ℕ
  pub num_termdefs : ℕ
  pub num_asserts : ℕ

-- `MmzMem::new_from`, with the file contents of the outline's `file_data`.
unfoldable pub new_mem : Outline → List (List ℕ) → Res MmzMem
new_mem o files = do
  mmz ← none_err (get_elem? files 0)
  ok (record {
    outline = o;
    mmz = mmz;
    mmz_files = files;
    mmz_file_num = 0;
    mmz_pos = 0;
    delims = [];
    consts = [];
    prefixes = [];
    infixes = [];
    occupied_precs = [];
    nonlocal_termdefs = [];
    nonlocal_asserts = [];
    sorts = [];
    provs = [];
    coes = [];
    coe_prov = [];
    num_sorts = 0;
    num_termdefs = 0;
    num_asserts = 0;
  })

abbrev pub nat_eq : ℕ → ℕ → Bool
nat_eq a b = a == b

abbrev pub or_default {ℓ} : {A : Type ℓ} → Option A → A → A
or_default none d = d
or_default (some a) d = a

abbrev pub is_none {ℓ} : {A : Type ℓ} → Option A → Bool
is_none none = true
is_none (some a) = false

unfoldable pub coe_prov_or_else : MmzMem → ℕ → ℕ
unfolding get
coe_prov_or_else m from = or_default (get nat_eq from m.coe_prov) from

unfoldable pub add_termdef : Str → MmzMem → Res MmzMem
unfolding get insert str_eq
add_termdef ident m = do
  assert (is_none (get str_eq ident m.nonlocal_termdefs))
  ok (record m { nonlocal_termdefs = insert str_eq ident m.num_termdefs m.nonlocal_termdefs })

unfoldable pub add_assert : Str → MmzMem → Res MmzMem
unfolding get insert str_eq
add_assert ident m = do
  assert (is_none (get str_eq ident m.nonlocal_asserts))
  ok (record m { nonlocal_asserts = insert str_eq ident m.num_asserts m.nonlocal_asserts })

-- `iter().position(|s| *s == ident)`
unfoldable pub position : Str → List Str → Option ℕ
unfolding str_eq
position ident [] = none
position ident (s ∷ ss) =
    let rest = position ident ss in
    if str_eq s ident then some 0 else (elim rest [ none ↦ none | some i ↦ some (i + 1) ])

unfoldable pub get_sort_num : MmzMem → Str → Res ℕ
unfolding position
get_sort_num m ident = do
  idx ← none_err (position ident m.sorts)
  if ltb idx 256 then ok idx else err conv_err_err

unfoldable pub add_sort : Str → MmzMem → Res MmzMem
unfolding position get insert get_sort_mods is_provable
add_sort ident m = do
  assert (is_none (position ident m.sorts))
  sort_num ← fits 8 (length m.sorts)
  mods ← unwrap_res (get_sort_mods m.outline sort_num)
  assert (is_none (get nat_eq sort_num m.provs))
  ok (record m {
    sorts = snoc m.sorts ident;
    provs = insert nat_eq sort_num (is_provable mods) m.provs;
  })

-- The counters are a `u8` and two `u32`s, and an overflow is a panic.
unfoldable pub add_declar : StmtCmd → MmzMem → Res MmzMem
add_declar (sort_stmt n) m = do k ← fits 8 (m.num_sorts + 1); ok (record m { num_sorts = k })
add_declar (termdef n l) m = do k ← fits 32 (m.num_termdefs + 1); ok (record m { num_termdefs = k })
add_declar (axiom_stmt n) m = do k ← fits 32 (m.num_asserts + 1); ok (record m { num_asserts = k })
add_declar (thm n l) m = do k ← fits 32 (m.num_asserts + 1); ok (record m { num_asserts = k })

unfoldable pub get_term_by_ident : MmzMem → Str → Res Term
unfolding get str_eq get_term_by_num
get_term_by_ident m ident = do
  term_num ← none_err (get str_eq ident m.nonlocal_termdefs)
  get_term_by_num m.outline term_num
