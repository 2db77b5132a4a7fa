-- ===== src/Util/Ty.antt =====
-- src/util.rs, `Type` (here `Ty`), its bit operations and the masks of mmb/mod.rs. A `u64` is a
-- number below 2 ^ 64.
pub mod Deps
pub mod Position
use second_opinion.Prelude.{
  ℕ, zero, suc, ◌+◌, ◌-◌, ◌*◌, ◌/◌, ◌%◌, ◌^◌, bit_and, bit_or, bit_xor, Bool, false, not, ◌&&◌,
  ◌||◌, ltb, ◌==◌, if◌then◌else◌, Res, ok, err, panic, msg, ◌>>=◌,
}

-- `!x` on a `u64` and on a `u8`.
abbrev pub not64 : ℕ → ℕ
not64 x = 2 ^ 64 - 1 - x

abbrev pub not8 : ℕ → ℕ
not8 x = 255 - x

-- `1u64 << j`: a shift by 64 or more is an overflow.
abbrev pub shl_one : ℕ → Res ℕ
shl_one j = if ltb j 64 then ok (2 ^ j) else panic

-- `j.checked_sub(1).expect(..)`
abbrev pub pred_or_panic : ℕ → Res ℕ
pred_or_panic zero = panic
pred_or_panic (suc j) = ok j

abbrev pub type_sort_mask : ℕ
type_sort_mask = 2 ^ 63 + (2 ^ 56 - 1)

abbrev pub type_bound_mask : ℕ
type_bound_mask = 2 ^ 63

abbrev pub type_deps_mask : ℕ
type_deps_mask = 2 ^ 56 - 1

pub record Ty : Type 0 where
  pub inner : ℕ

abbrev pub ty : ℕ → Ty
ty n = record { inner = n }

-- `BitAnd`, `BitOr` and `Not` of `bitwise_inner!`, for `Type`.
abbrev pub and_ty : Ty → Ty → Ty
and_ty a b = ty (bit_and a.inner b.inner)

abbrev pub or_ty : Ty → Ty → Ty
or_ty a b = ty (bit_or a.inner b.inner)

abbrev pub not_ty : Ty → Ty
not_ty a = ty (not64 a.inner)

unfoldable pub high_bit : Ty → Ty
high_bit t = ty (bit_and t.inner (not64 type_deps_mask))

unfoldable pub disjoint : Ty → Ty → Bool
disjoint a b = bit_and a.inner b.inner == 0

unfoldable pub new_bound : Ty
new_bound = ty (2 ^ 63)

unfoldable pub new : Bool → Ty
new bound = if bound then ty (2 ^ 63) else ty 0

unfoldable pub new_with_sort : ℕ → Ty
new_with_sort sort_num = ty (sort_num * 2 ^ 56 % 2 ^ 64)

unfoldable pub is_bound : Ty → Bool
is_bound t = not (bit_and t.inner (2 ^ 63) == 0)

unfoldable pub add_sort : Ty → ℕ → Ty
add_sort t sort_id = ty (bit_or (bit_and t.inner type_sort_mask) (sort_id * 2 ^ 56 % 2 ^ 64))

unfoldable pub add_dep : Ty → ℕ → Res Ty
add_dep t bv_idx = do j ← pred_or_panic bv_idx; b ← shl_one j; ok (ty (bit_or t.inner b))

-- `u8::try_from(..).unwrap()` cannot fail here: the mask leaves seven bits.
unfoldable pub sort : Ty → ℕ
sort t = bit_and (t.inner / 2 ^ 56) 0x7F

unfoldable pub depends_on_ : Ty → ℕ → Res Bool
depends_on_ t j = do k ← pred_or_panic j; b ← shl_one k; ok (not (bit_and t.inner b == 0))

unfoldable pub bound_digit : Ty → Res ℕ
unfolding is_bound
bound_digit t = if is_bound t then ok (bit_and t.inner (not64 (0xFF * 2 ^ 56))) else err msg

-- The loop of `bound_pos` with `left` rounds to go, from position `i` on.
unfoldable pub bound_pos_loop : ℕ → ℕ → Ty → Res ℕ
bound_pos_loop zero i t = err msg
bound_pos_loop (suc left) i t =
    let rest = bound_pos_loop left (i + 1) t in
    if not (bit_and (2 ^ i) t.inner == 0) then ok (i + 1) else rest

unfoldable pub bound_pos : Ty → Res ℕ
unfolding is_bound bound_pos_loop
bound_pos t = if is_bound t then bound_pos_loop 56 0 t else err msg

unfoldable pub has_deps : Ty → Bool
unfolding is_bound
has_deps t = if is_bound t then false else ltb 0 (bit_and t.inner type_deps_mask)

unfoldable pub deps : Ty → Res ℕ
unfolding is_bound
deps t = if not (is_bound t) then ok (bit_and t.inner (not64 (0xFF * 2 ^ 56))) else err msg

-- mmb/mod.rs: a value of type `from` can be cast to type `to`.
unfoldable pub sorts_compatible : Ty → Ty → Bool
sorts_compatible from to =
    let diff = bit_xor from.inner to.inner in
    let c1 = bit_and diff (not64 type_deps_mask) == 0 in
    let c2 = bit_and (bit_and diff (not64 type_bound_mask)) (not64 type_deps_mask) == 0 in
    let c3 = not (bit_and from.inner type_bound_mask == 0) in c1 || (c2 && c3)
