-- ===== src/Util/Cmd.antt =====
-- src/util.rs, `parse_cmd` and `try_next_cmd`: one command of a proof, unify or declaration
-- stream, at a position of the whole file.
pub mod Loop
pub mod Progress
pub mod RoundTrip
use second_opinion.Prelude.{
  ℕ, zero, suc, ◌-◌, bit_and, List, [], ◌∷◌, length, ◌==◌, if◌then◌else◌, Option, none, some, Res,
  ok, err, panic, hang, msg, ◌>>=◌,
}
use second_opinion.Util.Ty.{not8}
use second_opinion.Util.Bytes.{parse_u8, parse_u16, parse_u32, get_from}

abbrev pub data_8 : ℕ
data_8 = 0x40

abbrev pub data_16 : ℕ
data_16 = 0x80

abbrev pub data_32 : ℕ
data_32 = 0xC0

abbrev pub data_mask : ℕ
data_mask = 0xC0

-- The data of a command whose first byte has been read, and the position behind it.
unfoldable pub parse_cmd_data : ℕ → ℕ → ℕ → List ℕ → Res (ℕ × ℕ × ℕ)
unfolding parse_u8 parse_u16 parse_u32
parse_cmd_data len cmd_kind cmd_size tl =
    if cmd_size == 0
    then ok (cmd_kind, 0, len - length tl)
    else if cmd_size == data_8
    then (do (d, rest) ← parse_u8 tl; ok (cmd_kind, d, len - length rest))
    else if cmd_size == data_16
    then (do (d, rest) ← parse_u16 tl; ok (cmd_kind, d, len - length rest))
    else if cmd_size == data_32
    then (do (d, rest) ← parse_u32 tl; ok (cmd_kind, d, len - length rest))
    else err msg

unfoldable pub parse_cmd_at : ℕ → Option (List ℕ) → Res (ℕ × ℕ × ℕ)
unfolding parse_cmd_data
parse_cmd_at len none = err msg
parse_cmd_at len (some []) = err msg
parse_cmd_at len (some (n ∷ tl)) =
    parse_cmd_data len (bit_and n (not8 data_mask)) (bit_and n data_mask) tl

unfoldable pub parse_cmd : List ℕ → ℕ → Res (ℕ × ℕ × ℕ)
unfolding parse_cmd_at
parse_cmd mmb start_at = parse_cmd_at (length mmb) (get_from mmb start_at)

-- `.map_err(|_| VerifErr::Msg(..))`
abbrev pub msg_err {ℓ} : {A : Type ℓ} → Res A → Res A
msg_err (ok a) = ok a
msg_err (err e) = err msg
msg_err panic = panic
msg_err hang = hang

-- `try_from` is the conversion of the wanted type of command.
unfoldable pub try_next_cmd : {T : Type 0} → (ℕ → ℕ → Res T) → List ℕ → ℕ → Res (Option (T × ℕ))
unfolding parse_cmd
try_next_cmd try_from mmb pos = do
  (cmd, d, new_pos) ← parse_cmd mmb pos
  if cmd == 0 then ok none else (do t ← msg_err (try_from cmd d); ok (some (t, new_pos)))

-- `for maybe_cmd in iter { body(maybe_cmd?)? }`, with fuel: `next pos` is `Ok(None)` at the end of
-- the stream, and otherwise a command with the position behind it.
abbrev pub for_step {ℓ κ} :
    {T : Type ℓ} {S : Type κ} → (T → S → Res S) → (ℕ → S → Res S) → Option (T × ℕ) → S → Res S
for_step body again none s = ok s
for_step body again (some (c, pos)) s = body c s >>= again pos

unfoldable pub for_cmds {ℓ κ} :
    {T : Type ℓ} {S : Type κ} → (ℕ → Res (Option (T × ℕ))) → (T → S → Res S) → ℕ → ℕ → S → Res S
for_cmds next body zero pos s = hang
for_cmds next body (suc fuel) pos s = do o ← next pos; for_step body (for_cmds next body fuel) o s
