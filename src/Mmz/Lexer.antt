-- ===== src/Mmz/Lexer.antt =====
-- src/mmz/parse.rs and src/mmz/math_parser.rs: the scanners. A loop that moves the position while it
-- reads characters is the number of bytes that it passes, by recursion on what is left of the file.
use second_opinion.Prelude.{
  ℕ, suc, ◌+◌, ◌-◌, ◌*◌, Bool, true, false, not, ◌&&◌, ◌||◌, List, [], ◌∷◌, length, take, drop, leb,
  ◌==◌, if◌then◌else◌, Option, none, some, Res, ok, err, panic, hang, msg, fits,
}
use mathlib.Core.List.{reverse}
use second_opinion.Mmz.Data.{Str, Prec, num, max_prec}
use second_opinion.Mmz.Mem.{or_default}
use second_opinion.Mmz.Monad.{
  MmzState, Act, pure, lift, fail, gets, when, ◌>>=◌, ◌>>◌, position_of, set_pos, cur, cur_slice,
  advance,
}

-- A space or a newline.
unfoldable pub wc : ℕ → Bool
wc c = c == 32 || c == 10

unfoldable pub ident_start : ℕ → Bool
ident_start c = leb 97 c && leb c 122 || leb 65 c && leb c 90 || c == 95

unfoldable pub ident_rest : ℕ → Bool
unfolding ident_start
ident_rest c = ident_start c || leb 48 c && leb c 57

unfoldable pub trim_start : List ℕ → List ℕ
unfolding wc
trim_start [] = []
trim_start (c ∷ r) = let rest = trim_start r in if wc c then rest else c ∷ r

unfoldable pub trim : List ℕ → List ℕ
unfolding trim_start
trim bytes = reverse (trim_start (reverse (trim_start bytes)))

-- The bytes up to the first one that fails the test.
unfoldable pub span_len : (ℕ → Bool) → List ℕ → ℕ
span_len p [] = 0
span_len p (c ∷ r) = let rest = span_len p r in if p c then suc rest else 0

-- The white space and the comments; in a comment if the flag is set.
unfoldable pub ws_len : Bool → List ℕ → ℕ
unfolding wc
ws_len comment [] = 0
ws_len true (c ∷ r) =
    let inside = ws_len true r in
    let outside = ws_len false r in if c == 10 then suc outside else suc inside
ws_len false (c ∷ []) = if wc c then 1 else 0
ws_len false (c ∷ d ∷ r) =
    let comment = ws_len true r in
    let rest = ws_len false (d ∷ r) in
    if c == 45 && d == 45 then suc (suc comment) else if wc c then suc rest else 0

unfoldable pub skip_ws : Act (Unit {0})
unfolding ws_len
skip_ws = do advance (ws_len false (← gets cur_slice))

unfoldable pub cur_is : ℕ → MmzState → Bool
cur_is c s = elim (cur s) [ none ↦ false | some d ↦ d == c ]

unfoldable pub guard : ℕ → Act ℕ
unfolding skip_ws cur_is
guard c = do skip_ws; if (← gets (cur_is c)) then (do advance 1; pure c) else fail msg

unfoldable pub starts_with : List ℕ → List ℕ → Bool
starts_with [] s = true
starts_with (a ∷ k) [] = false
starts_with (a ∷ k) (b ∷ s) = a == b && starts_with k s

-- Whether the keyword stands next; it is passed only if it does.
unfoldable pub kw : List ℕ → Act Bool
unfolding skip_ws starts_with
kw k = do
  rollback ← gets position_of
  skip_ws
  if starts_with k (← gets cur_slice)
      then (do advance (length k); pure true)
      else (do set_pos rollback; pure false)

unfoldable pub peek_word : Act Str
unfolding skip_ws span_len wc
peek_word = do
  rollback ← gets position_of
  skip_ws
  rest ← gets cur_slice
  set_pos rollback
  pure (take (span_len (λ c. not (wc c)) rest) rest)

-- The match on the first character of an identifier, and the loop behind it; `start` is where the
-- identifier begins.
unfoldable pub ident_from : ℕ → ℕ → Act Str
unfolding ident_start ident_rest span_len
ident_from rollback start = gets cur >>= λ c.
    if elim c [ none ↦ false | some d ↦ ident_start d ]
    then (do
      advance 1
      advance (span_len ident_rest (← gets cur_slice))
      stop ← gets position_of
      gets (λ s. take (stop - start) (drop start s.mem.mmz)))
    else (do set_pos rollback; fail msg)

unfoldable pub ident_ : Act Str
unfolding skip_ws ident_from
ident_ = do rollback ← gets position_of; skip_ws; ident_from rollback (← gets position_of)

unfoldable pub dummy_ident : Act Str
unfolding skip_ws ident_from cur_is
dummy_ident = do
  rollback ← gets position_of
  skip_ws
  start ← gets position_of
  when (← gets (cur_is 46)) (advance 1)
  ident_from rollback start

unfoldable pub has_head : ℕ → Str → Bool
has_head c [] = false
has_head c (d ∷ r) = d == c

unfoldable pub ident : Act Str
unfolding ident_ has_head
ident = do
  rollback ← gets position_of
  i ← ident_
  if has_head 95 i then (do set_pos rollback; fail msg) else pure i

unfoldable pub is_digit : ℕ → Bool
is_digit c = leb 48 c && leb c 57

-- The loop of `parse_u32`: the number, and the digits left. The number is a `u32`.
unfoldable pub digits_value : Option ℕ → List ℕ → Res (Option ℕ)
digits_value acc [] = ok acc
digits_value acc (c ∷ r) = elim (fits 32 (or_default acc 0 * 10 + (c - 48))) [
  | ok n ↦ digits_value (some n) r
  | err e ↦ err e
  | panic ↦ panic
  | hang ↦ hang
]

unfoldable pub parse_u32 : Act (Option ℕ)
unfolding skip_ws span_len is_digit digits_value
parse_u32 = do
  skip_ws
  rest ← gets cur_slice
  let n = span_len is_digit rest
  acc ← lift (digits_value none (take n rest))
  advance n
  pure acc

unfoldable pub prec_lvl : Act (Option Prec)
unfolding kw parse_u32
prec_lvl = do
  is_max ← kw (109 ∷ 97 ∷ 120 ∷ [])
  if is_max
      then pure (some max_prec)
      else (do n ← parse_u32; pure (elim n [ none ↦ none | some k ↦ some (num k) ]))
