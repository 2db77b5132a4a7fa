-- ===== src/Util/View.antt =====
-- src/util.rs: the printers `view64`, `view32`, `view16` and `view8`, and `Debug` of `Type`. A text is the list
-- of its code points.
pub mod Groups
pub mod Reading
use second_opinion.Prelude.{
  ℕ, zero, suc, ◌+◌, ◌-◌, ◌/◌, ◌%◌, not, ◌&&◌, List, [], ◌∷◌, ◌++◌, length, drop, ltb, ◌==◌,
  if◌then◌else◌,
}
use second_opinion.Util.Ty.{Ty}

-- The binary digits of a number, in front of a text; a number has at most `fuel` digits.
unfoldable pub digits_before : ℕ → ℕ → List ℕ → List ℕ
digits_before zero n s = s
digits_before (suc fuel) n s =
    let more = digits_before fuel (n / 2) ((48 + n % 2) ∷ s) in
    if ltb n 2 then (48 + n) ∷ s else more

unfoldable pub zeros : ℕ → List ℕ
zeros zero = []
zeros (suc k) = 48 ∷ zeros k

-- `format!("{:#0widthb}", n)` of a number of at most 64 bits: `0b`, and zeros up to the width.
unfoldable pub format_binary : ℕ → ℕ → List ℕ
unfolding digits_before zeros
format_binary width n =
    let s = digits_before 64 n [] in 48 ∷ 98 ∷ (zeros (width - 2 - length s) ++ s)

-- The loop of the printers, from the index `idx` on.
unfoldable pub separated : ℕ → List ℕ → List ℕ
separated idx [] = []
separated idx (c ∷ cs) =
    let rest = c ∷ separated (idx + 1) cs in
    if (idx % 8 == 0) && not (idx == 0) then 95 ∷ rest else rest

unfoldable pub view64 : ℕ → List ℕ
unfolding format_binary separated
view64 n = separated 0 (drop 2 (format_binary 66 n))

unfoldable pub view32 : ℕ → List ℕ
unfolding format_binary separated
view32 n = separated 0 (drop 2 (format_binary 34 n))

unfoldable pub view16 : ℕ → List ℕ
unfolding format_binary separated
view16 n = separated 0 (drop 2 (format_binary 18 n))

unfoldable pub view8 : ℕ → List ℕ
unfolding format_binary separated
view8 n = separated 0 (drop 2 (format_binary 10 n))

-- `Debug` of `Type`.
unfoldable pub debug_ty : Ty → List ℕ
unfolding view64
debug_ty t = view64 t.inner
