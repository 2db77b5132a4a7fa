-- ===== src/Util/Cmd/Progress.antt =====
-- src/util.rs, `parse_cmd` and `try_next_cmd`: how far a command moves the position.
use second_opinion.Prelude.{
  ℕ, ◌+◌, ◌-◌, ◌≤◌, ◌<◌, bit_and, List, [], ◌∷◌, length, drop, length-drop, ltb, ◌==◌, ◌≡◌, Option,
  none, some, inl, inr, Bool-cases, Bool, Res, ok, ◌>>=◌, if◌then◌else◌, >>=-eq-ok, arith,
}
use second_opinion.Util.Bytes.{parse_uint, get_from}
use second_opinion.Util.Ty.{not8}
use second_opinion.Util.Cmd.{
  data_mask, parse_cmd_data, parse_cmd_at, parse_cmd, try_next_cmd, msg_err,
}
use second_opinion.Util.Cmd.Loop.{Ends, by_ok, >>=-Ends, if-Ends, msg_err-Ends, ends, Advances}

pub parse_uint-length :
    (size : ℕ) (source rest : List ℕ) {v : ℕ}
    → parse_uint size source ≡ ok (v, rest)
    → length rest + size ≡ length source
unfolding parse_uint
parse_uint-length size source rest h = ground (arith, length-drop size source)

parse_cmd_data-Advances :
    (len kind size : ℕ) (tl : List ℕ) {k d p : ℕ}
    → length tl < len
    → parse_cmd_data len kind size tl ≡ ok (k, d, p)
    → (len - length tl ≤ p) × (p ≤ len)
unfolding parse_cmd_data
parse_cmd_data-Advances len kind size tl h e =
    ground (arith, length-drop 1 tl, length-drop 2 tl, length-drop 4 tl)

parse_cmd_at-Advances :
    (len pos : ℕ) (r : List ℕ) {k d p : ℕ}
    → length r ≡ len - pos
    → pos ≤ len
    → parse_cmd_at len (some r) ≡ ok (k, d, p)
    → (pos < p) × (p ≤ len)
unfolding parse_cmd_at
parse_cmd_at-Advances len pos [] hl hp e = ground arith
parse_cmd_at-Advances len pos (n ∷ tl) hl hp e =
    let bounds =
      parse_cmd_data-Advances len (bit_and n (not8 data_mask)) (bit_and n data_mask) tl
        (omega arith) e in
    (omega (arith, bounds.0), bounds.1)

-- A command that is read at `pos` ends behind `pos`, and within the file.
pub parse_cmd-Advances :
    (mmb : List ℕ) (pos : ℕ) {k d p : ℕ}
    → parse_cmd mmb pos ≡ ok (k, d, p)
    → (pos < p) × (p ≤ length mmb)
unfolding parse_cmd
parse_cmd-Advances mmb pos e = elim (Bool-cases (ltb (length mmb) pos)) [
  | inl outside ↦ ground arith
  | inr inside ↦
      parse_cmd_at-Advances (length mmb) pos (drop pos mmb) (length-drop pos mmb) (ground arith)
        (rw inside at e)
]

item_pos :
    {T : Type 0} (is_end : Bool) (r : Res T) {p pos' : ℕ} {c : T}
    → if◌then◌else◌ {A = Res (Option (T × ℕ))} is_end (ok none) (do t ← r; ok (some (t, p)))
      ≡ ok (some (c, pos'))
    → p ≡ pos'
item_pos is_end r e = ground arith

pub try_next_cmd-Advances :
    {T : Type 0} (try_from : ℕ → ℕ → Res T) (mmb : List ℕ)
    → Advances (length mmb) (try_next_cmd try_from mmb)
unfolding try_next_cmd
try_next_cmd-Advances try_from mmb pos pos' c e =
    let ((cmd, d, p), e1, e2) = >>=-eq-ok (parse_cmd mmb pos) _ e in
    let moved : p ≡ pos' = item_pos (cmd == 0) (msg_err (try_from cmd d)) e2 in
    rw moved at (parse_cmd-Advances mmb pos e1)

pub parse_uint-Ends : (size : ℕ) (source : List ℕ) → Ends (parse_uint size source)
unfolding parse_uint
parse_uint-Ends size source = search ends

parse_cmd_at-Ends : (len : ℕ) (r : Option (List ℕ)) → Ends (parse_cmd_at len r)
unfolding parse_cmd_at
parse_cmd_at-Ends len none = search ends
parse_cmd_at-Ends len (some []) = search ends
parse_cmd_at-Ends len (some (n ∷ tl)) = search ends depth 12

parse_cmd-Ends : (mmb : List ℕ) (pos : ℕ) → Ends (parse_cmd mmb pos)
unfolding parse_cmd
parse_cmd-Ends mmb pos = parse_cmd_at-Ends (length mmb) (get_from mmb pos)

pub try_next_cmd-Ends :
    {T : Type 0} (try_from : ℕ → ℕ → Res T) (mmb : List ℕ)
    → ((cmd d : ℕ) → Ends (try_from cmd d))
    → (pos : ℕ) → Ends (try_next_cmd try_from mmb pos)
unfolding try_next_cmd
try_next_cmd-Ends try_from mmb h pos =
    >>=-Ends (parse_cmd-Ends mmb pos)
      (λ r. if-Ends (r.0 == 0) (by_ok _) (>>=-Ends (msg_err-Ends (h r.0 r.1)) (λ t. by_ok _)))
