-- ===== src/Util/Cmd/RoundTrip.antt =====
-- src/util.rs: the format that `parse_cmd` reads, written by an encoder.
use second_opinion.Prelude.{
  ℕ, zero, suc, ◌+◌, ◌-◌, ◌*◌, ◌/◌, ◌%◌, ◌<◌, ◌^◌, bit_and, false, List, [], ◌∷◌, ◌++◌, length,
  length-append, take, drop, ltb, ◌≡◌, refl, ap, subst, ok, arith,
}
use second_opinion.Prelude.Bits.{bit_and_step, bit_and_mask}
use native.Mathlib.Nat.{pow-suc}
use second_opinion.Util.Bytes.{from_le_bytes, parse_uint}
use second_opinion.Util.Cmd.{parse_cmd, parse_cmd_at, parse_cmd_data}

-- The `size` bytes of a number, the lowest first.
abbrev pub le_bytes : ℕ → ℕ → List ℕ
le_bytes zero n = []
le_bytes (suc size) n = n % 256 ∷ le_bytes size (n / 256)

pub length-le_bytes : (size n : ℕ) → length (le_bytes size n) ≡ size
length-le_bytes zero n = refl
length-le_bytes (suc size) n = ap suc (length-le_bytes size (n / 256))

take_front : (xs ys : List ℕ) → take (length xs) (xs ++ ys) ≡ xs
take_front [] ys = refl
take_front (x ∷ xs) ys = ap (λ (r : List ℕ). x ∷ r) (take_front xs ys)

drop_front : (xs ys : List ℕ) → drop (length xs) (xs ++ ys) ≡ ys
drop_front [] ys = refl
drop_front (x ∷ xs) ys = drop_front xs ys

from_le_bytes-le_bytes : (size n : ℕ) → n < 256 ^ size → from_le_bytes (le_bytes size n) ≡ n
unfolding from_le_bytes
from_le_bytes-le_bytes zero n h = omega arith
from_le_bytes-le_bytes (suc size) n h =
    omega (arith, from_le_bytes-le_bytes size (n / 256) (omega (arith, pow-suc 256 size)))

pub parse_uint-le_bytes :
    (size n : ℕ) (rest : List ℕ)
    → n < 256 ^ size
    → parse_uint size (le_bytes size n ++ rest) ≡ ok (n, rest)
unfolding parse_uint
parse_uint-le_bytes size n rest h =
    subst (λ k. parse_uint k (le_bytes size n ++ rest) ≡ ok (n, rest)) (length-le_bytes size n)
      (read (le_bytes size n) (from_le_bytes-le_bytes size n h))
  where
    long_enough : (xs : List ℕ) → ltb (length (xs ++ rest)) (length xs) ≡ false
    long_enough xs = ground (arith, length-append xs rest)

    read : (xs : List ℕ) → from_le_bytes xs ≡ n → parse_uint (length xs) (xs ++ rest) ≡ ok (n, rest)
    read xs e = rw (long_enough xs, take_front xs rest, drop_front xs rest, e)

-- The two high bits of a byte, and the six low ones.
high_bits : (c k : ℕ) → k < 64 → c < 4 → bit_and (k + 64 * c) 192 ≡ 64 * c
high_bits c k h g =
    let n = k + 64 * c in
    omega (
      arith,
      bit_and_step n 192,
      bit_and_step (n / 2) 96,
      bit_and_step (n / 2 / 2) 48,
      bit_and_step (n / 2 / 2 / 2) 24,
      bit_and_step (n / 2 / 2 / 2 / 2) 12,
      bit_and_step (n / 2 / 2 / 2 / 2 / 2) 6,
      bit_and_mask 2 (n / 2 / 2 / 2 / 2 / 2 / 2),
    )

low_bits_of : (c k : ℕ) → k < 64 → bit_and (k + 64 * c) 63 ≡ k
low_bits_of c k h = omega (arith, bit_and_mask 6 (k + 64 * c))

-- A command with data in the width `c`: none, or one, two or four bytes.
abbrev pub width : ℕ → ℕ
width zero = 0
width (suc zero) = 1
width (suc (suc zero)) = 2
width (suc (suc (suc c))) = 4

abbrev pub encode_cmd : ℕ → ℕ → ℕ → List ℕ
encode_cmd c kind d = (kind + 64 * c) ∷ le_bytes (width c) d

-- The first byte, then the data: what `parse_cmd` does behind the position is a function of the
-- bytes there.
parse_data :
    (c kind d len : ℕ) (rest : List ℕ)
    → c < 4
    → kind < 64
    → d < 256 ^ width c
    → (width c ≡ 0 → d ≡ 0)
    → parse_cmd_data len kind (64 * c) (le_bytes (width c) d ++ rest)
      ≡ ok (kind, d, len - length rest)
unfolding parse_cmd_data
parse_data zero kind d len rest g h small none = rw (none refl)
parse_data (suc zero) kind d len rest g h small none = rw (parse_uint-le_bytes 1 d rest small)
parse_data (suc (suc zero)) kind d len rest g h small none = rw (parse_uint-le_bytes 2 d rest small)
parse_data (suc (suc (suc zero))) kind d len rest g h small none =
    rw (parse_uint-le_bytes 4 d rest small)
parse_data (suc (suc (suc (suc c)))) kind d len rest g h small none = absurd (omega arith)

-- A command that is written at any position of a file is read back: its kind, its data, and the
-- position behind it. The kind is below 64, and the data fit
-- the width `c` (without data bytes, they are 0).
pub parse_cmd-encode_cmd :
    (c kind d : ℕ) (before rest : List ℕ)
    → c < 4
    → kind < 64
    → d < 256 ^ width c
    → (width c ≡ 0 → d ≡ 0)
    → parse_cmd (before ++ (encode_cmd c kind d ++ rest)) (length before)
      ≡ ok (kind, d, length before + suc (width c))
unfolding parse_cmd parse_cmd_at
parse_cmd-encode_cmd c kind d before rest g h small none =
    let file = before ++ (encode_cmd c kind d ++ rest) in
    let inside : ltb (length file) (length before) ≡ false =
      ground (arith, length-append before (encode_cmd c kind d ++ rest)) in
    let behind : length file - length rest ≡ length before + suc (width c) = omega (
      arith,
      length-append before (encode_cmd c kind d ++ rest),
      length-append (le_bytes (width c) d) rest,
      length-le_bytes (width c) d,
    ) in
    rw
      (
        inside,
        drop_front before (encode_cmd c kind d ++ rest),
        high_bits c kind h g,
        low_bits_of c kind h,
        parse_data c kind d (length file) rest g h small none,
      )
      (ap (λ (p : ℕ). ok (kind, d, p)) behind)
