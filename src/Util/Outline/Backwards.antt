-- ===== src/Util/Outline/Backwards.antt =====
-- src/util.rs, `Args`: the arguments read from the front and from the back.
use second_opinion.Prelude.{
  ℕ, zero, suc, ◌-◌, ◌≤◌, false, List, [], ◌∷◌, ◌++◌, snoc, length, length-append, drop,
  drop-length_append, take, take-length_append, append_assoc, append-nil, length-take, ltb_false→le,
  ltb, Bool-cases, inl, inr, some, ◌≡◌, refl, sym, ap, ◌∙◌, subst, Res, ok, unwrap_res, >>=-eq-ok,
  unwrap_res-eq-ok, ok_inj, hang≢ok, err≢ok, arith,
}
use second_opinion.Util.Ty.{Ty, ty}
use second_opinion.Util.Bytes.{from_le_bytes, parse_uint, parse_u64}
use second_opinion.Util.Outline.{args_loop, args_list, next_back}

-- The bytes are those of the types, eight for each.
Chunks : List ℕ → List Ty → Type 0
Chunks s [] = s ≡ []
Chunks s (t ∷ ts) =
    (chunk : List ℕ) × (rest : List ℕ) × (s ≡ chunk ++ rest)
    × (length chunk ≡ 8)
    × (t ≡ ty (from_le_bytes chunk))
    × Chunks rest ts

take-drop : (n : ℕ) (s : List ℕ) → take n s ++ drop n s ≡ s
take-drop zero s = refl
take-drop (suc n) [] = refl
take-drop (suc n) (b ∷ s) = ap (λ (r : List ℕ). b ∷ r) (take-drop n s)

-- `parse_u64` takes the first eight bytes.
parse_u64-chunk :
    (chunk rest : List ℕ)
    → length chunk ≡ 8
    → parse_u64 (chunk ++ rest) ≡ ok (from_le_bytes chunk, rest)
unfolding parse_u64
parse_u64-chunk chunk rest e =
    let enough : ltb (length (chunk ++ rest)) (length chunk) ≡ false =
      ground (arith, length-append chunk rest) in
    subst (λ k. parse_uint k (chunk ++ rest) ≡ ok (from_le_bytes chunk, rest)) e
      (rw (parse_uint, enough, take-length_append chunk rest, drop-length_append chunk rest) refl)

parse_u64-eq-ok :
    (s : List ℕ) {v : ℕ} {rest : List ℕ}
    → parse_u64 s ≡ ok (v, rest)
    → (chunk : List ℕ) × (s ≡ chunk ++ rest) × (length chunk ≡ 8) × (v ≡ from_le_bytes chunk)
unfolding parse_u64 parse_uint
parse_u64-eq-ok s {v} {rest} e = elim (Bool-cases (ltb (length s) 8)) [
  | inl short ↦ absurd (err≢ok (rw short at e))
  | inr enough ↦
      let e' : ◌≡◌ {A = Res (ℕ × List ℕ)} (ok (from_le_bytes (take 8 s), drop 8 s)) (ok (v, rest)) =
        rw enough at e in
      (
        take 8 s,
        sym (take-drop 8 s) ∙ ap (λ (r : List ℕ). take 8 s ++ r) (ap (λ x. x.1) (ok_inj e')),
        omega (arith, length-take 8 s, ltb_false→le (length s) 8 enough),
        sym (ap (λ x. x.0) (ok_inj e')),
      )
]

nonempty :
    (chunk rest : List ℕ) → length chunk ≡ 8 → (b : ℕ) × (bs : List ℕ) × (chunk ++ rest ≡ b ∷ bs)
nonempty [] rest e = absurd (omega (arith, e))
nonempty (b ∷ bs) rest e = (b, bs ++ rest, refl)

args_loop-Chunks :
    (fuel : ℕ) (s : List ℕ) (tys : List Ty) → args_loop fuel s ≡ ok tys → Chunks s tys
unfolding args_loop Chunks
args_loop-Chunks fuel [] tys e = subst (Chunks []) (ok_inj e) refl
args_loop-Chunks zero (b ∷ bs) tys e = absurd (hang≢ok e)
args_loop-Chunks (suc fuel) (b ∷ bs) tys e =
    let (r, e1, e2) = >>=-eq-ok (unwrap_res (parse_u64 (b ∷ bs))) _ e in
    let (chunk, e3, e4, e5) = parse_u64-eq-ok (b ∷ bs) (unwrap_res-eq-ok (parse_u64 (b ∷ bs)) e1) in
    let (ts, e6, e7) = >>=-eq-ok (args_loop fuel r.1) _ e2 in
    subst (Chunks (b ∷ bs)) (ok_inj e7)
      (chunk, r.1, e3, e4, ap ty e5, args_loop-Chunks fuel r.1 ts e6)

Chunks-args_loop :
    (fuel : ℕ) (tys : List Ty) (s : List ℕ)
    → length s ≤ fuel
    → Chunks s tys
    → args_loop fuel s ≡ ok tys
unfolding args_loop Chunks
Chunks-args_loop fuel [] s h e = rw e refl
Chunks-args_loop zero (t ∷ ts) s h (chunk, rest, e1, e2, e3, c) =
    absurd (omega (arith, ap length e1, length-append chunk rest))
Chunks-args_loop (suc fuel) (t ∷ ts) s h (chunk, rest, e1, e2, e3, c) =
    let (b, bs, e4) = nonempty chunk rest e2 in
    let parsed : parse_u64 (b ∷ bs) ≡ ok (from_le_bytes chunk, rest) =
      ap parse_u64 (sym e4) ∙ parse_u64-chunk chunk rest e2 in
    rw (e1 ∙ e4) (
      rw
        (
          parsed,
          Chunks-args_loop fuel ts rest (omega (arith, ap length e1, length-append chunk rest)) c,
        )
        (ap (λ (x : Ty). ok (x ∷ ts)) (sym e3)))

-- The last chunk is that of the last type.
Chunks-last :
    (tys : List Ty) (t : Ty) (s : List ℕ)
    → Chunks s (snoc tys t)
    → (front : List ℕ) × (last : List ℕ) × (s ≡ front ++ last)
      × (length last ≡ 8)
      × (t ≡ ty (from_le_bytes last))
      × Chunks front tys
unfolding Chunks
Chunks-last [] t s (chunk, rest, e1, e2, e3, c) =
    ([], chunk, e1 ∙ ap (λ (r : List ℕ). chunk ++ r) c ∙ append-nil chunk, e2, e3, refl)
Chunks-last (u ∷ us) t s (chunk, rest, e1, e2, e3, c) =
    let (front, last, f1, f2, f3, d) = Chunks-last us t rest c in
    (
      chunk ++ front,
      last,
      e1 ∙ ap (λ (r : List ℕ). chunk ++ r) f1 ∙ sym (append_assoc chunk front last),
      f2,
      f3,
      (chunk, front, refl, e2, e3, d),
    )

next_back-append :
    (front last : List ℕ)
    → length last ≡ 8
    → next_back (front ++ last) ≡ ok (some (ty (from_le_bytes last), front))
unfolding next_back
next_back-append front last e =
    let enough : ltb (length (front ++ last)) 8 ≡ false =
      ground (arith, length-append front last) in
    let split : length (front ++ last) - 8 ≡ length front =
      omega (arith, length-append front last) in
    let parsed : parse_u64 last ≡ ok (from_le_bytes last, []) =
      ap parse_u64 (sym (append-nil last)) ∙ parse_u64-chunk last [] e in
    rw (enough, split, drop-length_append front last, take-length_append front last, parsed)

-- When the arguments, read from the front, are some types and a last one, then `next_back` gives the last one,
-- and leaves bytes from which the others are read. So an iterator of arguments has the same
-- items from either end.
pub next_back-args_list :
    (source : List ℕ) (tys : List Ty) (t : Ty)
    → args_list source ≡ ok (snoc tys t)
    → (front : List ℕ) × (next_back source ≡ ok (some (t, front))) × (args_list front ≡ ok tys)
unfolding args_list
next_back-args_list source tys t e =
    let (front, last, e1, e2, e3, c) =
      Chunks-last tys t source (args_loop-Chunks (length source) source (snoc tys t) e) in
    (
      front,
      ap next_back e1
          ∙ next_back-append front last e2
          ∙ ap (λ (x : Ty). ok (some (x, front))) (sym e3),
      Chunks-args_loop (length front) tys front (omega arith) c,
    )
