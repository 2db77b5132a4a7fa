-- ===== src/Util/Bytes.antt =====
-- src/util.rs, `bin_parser!`: little-endian numbers from the front of a byte slice. A slice is a
-- list of numbers below 256.
use second_opinion.Prelude.{
  ℕ, ◌+◌, ◌*◌, ◌<◌, List, [], ◌∷◌, length, take, drop, ltb, if◌then◌else◌, Option, none, some, Res,
  ok, err, msg,
}

abbrev pub IsByte : ℕ → Type 0
IsByte b = b < 256

-- `from_le_bytes`
unfoldable pub from_le_bytes : List ℕ → ℕ
from_le_bytes [] = 0
from_le_bytes (b ∷ bs) = b + 256 * from_le_bytes bs

-- The body of the macro, for an integer of `size` bytes.
unfoldable pub parse_uint : ℕ → List ℕ → Res (ℕ × List ℕ)
unfolding from_le_bytes
parse_uint size source =
    if ltb (length source) size
    then err msg
    else ok (from_le_bytes (take size source), drop size source)

unfoldable pub parse_u8 : List ℕ → Res (ℕ × List ℕ)
unfolding parse_uint
parse_u8 = parse_uint 1

unfoldable pub parse_u16 : List ℕ → Res (ℕ × List ℕ)
unfolding parse_uint
parse_u16 = parse_uint 2

unfoldable pub parse_u32 : List ℕ → Res (ℕ × List ℕ)
unfolding parse_uint
parse_u32 = parse_uint 4

unfoldable pub parse_u64 : List ℕ → Res (ℕ × List ℕ)
unfolding parse_uint
parse_u64 = parse_uint 8

-- `bytes.get(start..)`
abbrev pub get_from : List ℕ → ℕ → Option (List ℕ)
get_from bytes start = if ltb (length bytes) start then none else some (drop start bytes)
