-- ===== src/Util/View/Reading.antt =====
-- src/util.rs: what the printers print, read as a number.
use second_opinion.Prelude.{
  ℕ, zero, suc, ◌+◌, ◌-◌, ◌*◌, ◌/◌, ◌%◌, ◌^◌, ◌<◌, ◌≤◌, true, not, ◌&&◌, List, [], ◌∷◌, ◌++◌,
  length, length-append, ltb, ◌==◌, if◌then◌else◌, ◌≡◌, refl, ap, ◌∙◌, Bool-cases, inl, inr, arith,
  ltb→lt,
}
use native.Mathlib.Nat.{pow-suc}
use second_opinion.Util.View.{digits_before, zeros, separated, view64, view32, view16, view8}
use second_opinion.Util.View.Groups.{
  AllBits, groups, separated-groups, zeros-AllBits, digits_before-AllBits,
}

-- The number that a text of binary digits stands for, behind the digits of `v`; an underscore is
-- passed over.
unfoldable pub read_binary : ℕ → List ℕ → ℕ
read_binary v [] = v
read_binary v (c ∷ cs) = read_binary (if c == 95 then v else v * 2 + (c - 48)) cs

read-zeros : (k : ℕ) (s : List ℕ) → read_binary 0 (zeros k ++ s) ≡ read_binary 0 s
unfolding read_binary zeros
read-zeros zero s = refl
read-zeros (suc k) s = read-zeros k s

read_digit :
    (v d w : ℕ) (s : List ℕ)
    → d < 2
    → v * 2 + d ≡ w
    → read_binary v ((48 + d) ∷ s) ≡ read_binary w s
unfolding read_binary
read_digit v d w s h e =
    let value : (if 48 + d == 95 then v else v * 2 + (48 + d - 48)) ≡ w = ground arith in
    ap (λ (x : ℕ). read_binary x s) value

read-digits_before :
    (fuel n : ℕ) (s : List ℕ)
    → n < 2 ^ suc fuel
    → read_binary 0 (digits_before (suc fuel) n s) ≡ read_binary n s
unfolding digits_before
read-digits_before zero n s h =
    let small : ltb n 2 ≡ true = ground arith in
    rw small (read_digit 0 n n s (omega arith) (omega arith))
read-digits_before (suc fuel) n s h = elim (Bool-cases (ltb n 2)) [
  | inl small ↦ rw small (read_digit 0 n n s (ltb→lt n 2 small) (omega arith))
  | inr large ↦ rw large (
      read-digits_before fuel (n / 2) ((48 + n % 2) ∷ s) (omega (arith, pow-suc 2 (suc fuel)))
      ∙ read_digit (n / 2) (n % 2) n s (omega arith) (omega arith))
]

read-separated : (idx v : ℕ) (cs : List ℕ) → read_binary v (separated idx cs) ≡ read_binary v cs
unfolding read_binary separated
read-separated idx v [] = refl
read-separated idx v (c ∷ cs) = elim (Bool-cases ((idx % 8 == 0) && not (idx == 0))) [
  | inl mark ↦ rw mark (read-separated (idx + 1) (if c == 95 then v else v * 2 + (c - 48)) cs)
  | inr plain ↦ rw plain (read-separated (idx + 1) (if c == 95 then v else v * 2 + (c - 48)) cs)
]

length-zeros : (k : ℕ) → length (zeros k) ≡ k
unfolding zeros
length-zeros zero = refl
length-zeros (suc k) = ap suc (length-zeros k)

-- A number of at most `bits` binary digits is printed with as many, at least one.
length-digits_before :
    (fuel bits n : ℕ) (s : List ℕ)
    → n < 2 ^ suc bits
    → length (digits_before fuel n s) ≤ suc bits + length s
unfolding digits_before
length-digits_before zero bits n s h = omega arith
length-digits_before (suc fuel) zero n s h =
    let small : ltb n 2 ≡ true = ground arith in rw small (omega arith)
length-digits_before (suc fuel) (suc bits) n s h = elim (Bool-cases (ltb n 2)) [
  | inl small ↦ rw small (omega arith)
  | inr large ↦
      let rest : length (digits_before fuel (n / 2) ((48 + n % 2) ∷ s))
          ≤ suc bits + suc (length s) =
        length-digits_before fuel bits (n / 2) ((48 + n % 2) ∷ s)
          (omega (arith, pow-suc 2 (suc bits))) in
      rw large (omega (arith, rest))
]

-- How many underscores stand in front of the digits from the index `idx` on.
marks : ℕ → ℕ → ℕ
marks idx zero = 0
marks idx (suc k) =
    let rest = marks (idx + 1) k in if (idx % 8 == 0) && not (idx == 0) then suc rest else rest

length-separated :
    (idx : ℕ) (cs : List ℕ) → length (separated idx cs) ≡ length cs + marks idx (length cs)
unfolding separated marks
length-separated idx [] = omega arith
length-separated idx (c ∷ cs) = elim (Bool-cases ((idx % 8 == 0) && not (idx == 0))) [
  | inl mark ↦ rw mark (omega (arith, length-separated (idx + 1) cs))
  | inr plain ↦ rw plain (omega (arith, length-separated (idx + 1) cs))
]

-- What the printers do for a number of `suc bits` binary digits.
module _ (bits n : ℕ) (h : n < 2 ^ suc bits) (word : n < 2 ^ 64) where
  digits : List ℕ
  digits = digits_before 64 n []

  padded : List ℕ
  unfolding digits
  padded = zeros (suc bits - length digits) ++ digits

  length-padded : length padded ≡ suc bits
  unfolding padded digits
  length-padded = omega (
    arith,
    length-append (zeros (suc bits - length digits)) digits,
    length-zeros (suc bits - length digits),
    length-digits_before 64 bits n [] h,
  )

  padded-AllBits : AllBits padded
  unfolding padded digits
  padded-AllBits =
      zeros-AllBits (suc bits - length digits) digits (digits_before-AllBits 64 n [] tt)

  read-padded : read_binary 0 (separated 0 padded) ≡ n
  unfolding padded digits read_binary
  read-padded =
      read-separated 0 0 padded
      ∙ read-zeros (suc bits - length digits) digits
      ∙ read-digits_before 63 n [] word

  groups-view : suc bits % 8 ≡ 0 → groups 0 (separated 0 padded) ≡ true
  groups-view whole =
      separated-groups padded padded-AllBits (ap (λ (k : ℕ). k % 8) length-padded ∙ whole)
        (omega (arith, length-padded))

  length-view : length (separated 0 padded) ≡ suc bits + marks 0 (suc bits)
  length-view = length-separated 0 padded ∙ ap (λ (k : ℕ). k + marks 0 k) length-padded

-- Each printer writes as many binary digits as the word has bits, in groups of eight with an
-- underscore between two of them and none elsewhere, and the digits stand for the number.
pub read-view :
    (a b c d : ℕ)
    → a < 2 ^ 64
    → b < 2 ^ 32
    → c < 2 ^ 16
    → d < 2 ^ 8
    → (read_binary 0 (view64 a) ≡ a)
      × (groups 0 (view64 a) ≡ true)
      × (length (view64 a) ≡ 71)
      × (read_binary 0 (view32 b) ≡ b)
      × (groups 0 (view32 b) ≡ true)
      × (length (view32 b) ≡ 35)
      × (read_binary 0 (view16 c) ≡ c)
      × (groups 0 (view16 c) ≡ true)
      × (length (view16 c) ≡ 17)
      × (read_binary 0 (view8 d) ≡ d)
      × (groups 0 (view8 d) ≡ true)
      × (length (view8 d) ≡ 8)
unfolding view64 view32 view16 view8 padded digits marks
read-view a b c d ha hb hc hd = (
  read-padded 63 a ha (omega (arith, ha)),
  groups-view 63 a ha (omega (arith, ha)) (omega arith),
  length-view 63 a ha (omega (arith, ha)),
  read-padded 31 b hb (omega (arith, hb)),
  groups-view 31 b hb (omega (arith, hb)) (omega arith),
  length-view 31 b hb (omega (arith, hb)),
  read-padded 15 c hc (omega (arith, hc)),
  groups-view 15 c hc (omega (arith, hc)) (omega arith),
  length-view 15 c hc (omega (arith, hc)),
  read-padded 7 d hd (omega (arith, hd)),
  groups-view 7 d hd (omega (arith, hd)) (omega arith),
  length-view 7 d hd (omega (arith, hd)),
)
