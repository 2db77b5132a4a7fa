-- ===== src/Mmz/Token.antt =====
-- src/mmz/math_parser.rs: the tokens of a math string, and src/mmz/parse.rs: `delimiter` statements.
use second_opinion.Prelude.{
  ℕ, zero, suc, Bool, true, false, not, ◌||◌, List, [], ◌∷◌, snoc, length, take, is_empty, ◌==◌,
  if◌then◌else◌, Option, none, some, hang, msg,
}
use mathlib.Core.List.{reverse}
use second_opinion.Mmz.Data.{Str, DelimKind, left_delim, right_delim, both_delims}
use second_opinion.Mmz.Monad.{
  MmzState, Act, pure, lift, fail, gets, modify, attempt, localize, when, ◌>>=◌, ◌>>◌, position_of,
  set_pos, cur_slice, advance,
}
use second_opinion.Mmz.Lexer.{wc, trim, span_len, skip_ws, cur_is, guard, kw}

-- `delims.iter().find(|(d, _)| *d == c)`, the kind alone.
unfoldable pub delim_of : ℕ → List (ℕ × DelimKind) → Option DelimKind
delim_of c [] = none
delim_of c ((d, kind) ∷ ds) = let rest = delim_of c ds in if d == c then some kind else rest

unfoldable pub skip_math_ws : Act (Unit {0})
unfolding span_len wc
skip_math_ws = do advance (span_len wc (← gets cur_slice))

unfoldable pub guard_math : ℕ → Act ℕ
unfolding skip_math_ws cur_is
guard_math c = do
  skip_math_ws
  if (← gets (cur_is c)) then (do advance 1; pure c) else localize (fail msg)

-- The loop of `math_tok`: the bytes of the token, `first` if none has been passed yet.
unfoldable pub tok_len : List (ℕ × DelimKind) → Bool → List ℕ → ℕ
unfolding delim_of wc
tok_len delims first [] = 0
tok_len delims first (c ∷ r) =
    let rest = tok_len delims false r in
    elim (delim_of c delims) [
      | some both_delims ↦ if first then 1 else 0
      | some right_delim ↦ if first then suc rest else 0
      | some left_delim ↦ 1
      | none ↦ if c == 36 || wc c then 0 else suc rest
    ]

-- The token without a `$` at its end and without white space around it.
unfoldable pub drop_dollar : List ℕ → List ℕ
drop_dollar [] = []
drop_dollar (c ∷ r) = if c == 36 then reverse r else reverse (c ∷ r)

unfoldable pub clean_tok : List ℕ → Option Str
unfolding trim drop_dollar
clean_tok out = if is_empty out then none else some (trim (drop_dollar (reverse out)))

unfoldable pub math_tok : Act (Option Str)
unfolding skip_math_ws cur_is tok_len clean_tok
math_tok = do
  skip_math_ws
  if (← gets (cur_is 36)) then (do advance 1; pure none) else (do
    rest ← gets cur_slice
    delims ← gets (λ s. s.mem.delims)
    let n = tok_len delims true rest
    advance n
    pure (clean_tok (take n rest)))

unfoldable pub peek_math_tok : Act (Option Str)
unfolding math_tok
peek_math_tok = do rollback ← gets position_of; next ← math_tok; set_pos rollback; pure next

-- The loop of `math_string`. A token takes a byte at least, so the length of the file is fuel
-- enough.
unfoldable pub math_toks : ℕ → List Str → Act (List Str)
unfolding math_tok
math_toks zero acc = lift hang
math_toks (suc fuel) acc =
    math_tok >>= λ t. elim t [ none ↦ pure acc | some tok ↦ math_toks fuel (snoc acc tok) ]

abbrev pub file_fuel : MmzState → ℕ
file_fuel s = suc (length s.mem.mmz)

unfoldable pub math_string : Act (List Str)
unfolding guard math_toks
math_string = do localize (guard 36); fuel ← gets file_fuel; math_toks fuel []

unfoldable pub only_tok : List Str → Act Str
only_tok (tk ∷ []) = pure tk
only_tok [] = fail msg
only_tok (a ∷ b ∷ r) = fail msg

-- `constant`: a math string of one token.
unfoldable pub constant : Act Str
unfolding math_string only_tok
constant = math_string >>= only_tok

-- The loop of `skip_formula` passes the closing `$`; without one it passes everything.
unfoldable pub skip_formula : Act (Unit {0})
unfolding guard span_len
skip_formula = do
  localize (guard 36)
  rest ← gets cur_slice
  let n = span_len (λ c. not (c == 36)) rest
  if n == length rest then (do advance n; fail msg) else advance (suc n)

unfoldable pub delim_kind : Act DelimKind
unfolding skip_ws skip_formula
delim_kind = do
  rollback ← gets position_of
  skip_ws
  first ← attempt skip_formula
  out ← elim first [
    | none ↦ pure none
    | some _ ↦ attempt skip_formula >>= λ second. elim second [
      | none ↦ pure (some both_delims)
      | some _ ↦ attempt skip_formula >>= λ third.
          pure (elim third [ none ↦ some left_delim | some _ ↦ none ])
    ]
  ]
  set_pos rollback
  elim out [ none ↦ fail msg | some kind ↦ pure kind ]

-- The pattern `[c]` on the next token.
unfoldable pub one_byte : Option Str → Option ℕ
one_byte none = none
one_byte (some []) = none
one_byte (some (c ∷ [])) = some c
one_byte (some (c ∷ d ∷ r)) = none

unfoldable pub any_delim : ℕ → List (ℕ × DelimKind) → Bool
any_delim c [] = false
any_delim c ((d, kind) ∷ ds) = let rest = any_delim c ds in d == c || rest

unfoldable pub delim_loop : ℕ → DelimKind → Act (Unit {0})
unfolding math_tok one_byte any_delim
delim_loop zero kind = lift hang
delim_loop (suc fuel) kind = math_tok >>= λ t. elim (one_byte t) [
  | none ↦ pure tt
  | some c ↦ gets (λ s. any_delim c s.mem.delims) >>= λ declared. if declared then fail msg else (do
    modify (λ s. record s { mem = record s.mem { delims = snoc s.mem.delims (c, kind) } })
    delim_loop fuel kind)
]

unfoldable pub is_last_kind : DelimKind → Bool
is_last_kind both_delims = true
is_last_kind right_delim = true
is_last_kind left_delim = false

unfoldable pub delim_aux : DelimKind → Act (Unit {0})
unfolding guard delim_loop is_last_kind
delim_aux kind = do
  localize (guard 36)
  fuel ← gets file_fuel
  delim_loop fuel kind
  when (is_last_kind kind) (do localize (guard 59); pure tt)

unfoldable pub delims : Act (Unit {0})
unfolding skip_ws kw delim_kind delim_aux
delims = do
  skip_ws
  found ← kw (100 ∷ 101 ∷ 108 ∷ 105 ∷ 109 ∷ 105 ∷ 116 ∷ 101 ∷ 114 ∷ 32 ∷ [])
  when (not found) (fail msg)
  kind ← delim_kind
  delim_aux kind
  when (not (is_last_kind kind)) (delim_aux right_delim)
