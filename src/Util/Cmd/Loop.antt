-- ===== src/Util/Cmd/Loop.antt =====
-- The loop over a command stream: the commands that a stream decodes to, and how a run ends.
use second_opinion.Prelude.{
  ℕ, zero, suc, ◌+◌, ◌≤◌, ◌<◌, subst, ok_inj, hang≢ok, >>=-eq-ok, List, [], ◌∷◌, ◌≡◌, refl, Option,
  none, some, Res, ok, err, panic, hang, VerifErr, make_sure, assert, none_err, unwrap, unwrap_res,
  or_res, localize, if◌then◌else◌, Bool, true, false, ◌≢◌, ◌>>=◌, arith,
}
use second_opinion.Util.Cmd.{for_step, for_cmds, msg_err}

-- Any outcome but running out of fuel.
pub data Ends {ℓ} {A : Type ℓ} : Res A → Type ℓ where
  by_ok : (a : A) → Ends (ok a)
  by_err : (e : VerifErr) → Ends (err e)
  by_panic : Ends panic

pub Ends-ne-hang {ℓ} : {A : Type ℓ} {r : Res A} → Ends r → r ≢ hang
Ends-ne-hang (by_ok a) e = cc
Ends-ne-hang (by_err x) e = cc
Ends-ne-hang by_panic e = cc

module _ {ℓ κ} {A : Type ℓ} {B : Type κ} where
  pub >>=-Ends : {r : Res A} {f : A → Res B} → Ends r → ((a : A) → Ends (f a)) → Ends (r >>= f)
  >>=-Ends (by_ok a) k = k a
  >>=-Ends (by_err e) k = by_err e
  >>=-Ends by_panic k = by_panic

  pub >>=-Ends_with :
      (r : Res A) {f : A → Res B} → Ends r → ((a : A) → r ≡ ok a → Ends (f a)) → Ends (r >>= f)
  >>=-Ends_with (ok a) h k = k a refl
  >>=-Ends_with (err e) h k = by_err e
  >>=-Ends_with panic h k = by_panic
  >>=-Ends_with hang h k = absurd (Ends-ne-hang h refl)

pub make_sure-Ends : (b : Bool) → Ends (make_sure b)
make_sure-Ends true = by_ok tt
make_sure-Ends false = by_err _

pub assert-Ends : (b : Bool) → Ends (assert b)
assert-Ends true = by_ok tt
assert-Ends false = by_panic

module _ {ℓ} {A : Type ℓ} where
  pub if-Ends : (b : Bool) {x y : Res A} → Ends x → Ends y → Ends (if b then x else y)
  if-Ends true p q = p
  if-Ends false p q = q

  pub none_err-Ends : (o : Option A) → Ends (none_err o)
  none_err-Ends none = by_err _
  none_err-Ends (some a) = by_ok a

  pub unwrap-Ends : (o : Option A) → Ends (unwrap o)
  unwrap-Ends none = by_panic
  unwrap-Ends (some a) = by_ok a

  pub unwrap_res-Ends : {r : Res A} → Ends r → Ends (unwrap_res r)
  unwrap_res-Ends (by_ok a) = by_ok a
  unwrap_res-Ends (by_err e) = by_panic
  unwrap_res-Ends by_panic = by_panic

  pub or_res-Ends : {r q : Res A} → Ends r → Ends q → Ends (or_res r q)
  or_res-Ends (by_ok a) h = by_ok a
  or_res-Ends (by_err e) h = h
  or_res-Ends by_panic h = by_panic

  pub localize-Ends : {r : Res A} → Ends r → Ends (localize r)
  localize-Ends (by_ok a) = by_ok a
  localize-Ends (by_err e) = by_err _
  localize-Ends by_panic = by_panic

  pub msg_err-Ends : {r : Res A} → Ends r → Ends (msg_err r)
  msg_err-Ends (by_ok a) = by_ok a
  msg_err-Ends (by_err e) = by_err _
  msg_err-Ends by_panic = by_panic

pub ruleset ends = (
  by_ok, by_err, by_panic, >>=-Ends, make_sure-Ends, assert-Ends, if-Ends, none_err-Ends,
  unwrap-Ends, unwrap_res-Ends, or_res-Ends, localize-Ends, msg_err-Ends,
)

module _ {ℓ κ} {T : Type ℓ} {S : Type κ} where
  -- The body of the loop over a list of commands.
  unfoldable pub run_list : (T → S → Res S) → List T → S → Res S
  run_list body [] s = ok s
  run_list body (c ∷ cs) s = body c s >>= run_list body cs

-- `Decodes next pos cs`: from position `pos` on, the stream holds the commands `cs` and its end.
pub data Decodes {ℓ} {T : Type ℓ} (next : ℕ → Res (Option (T × ℕ))) : ℕ → List T → Type ℓ where
  done : {pos : ℕ} → next pos ≡ ok none → Decodes next pos []
  more :
      {pos pos' : ℕ} {c : T} {cs : List T}
      → next pos ≡ ok (some (c, pos'))
      → Decodes next pos' cs
      → Decodes next pos (c ∷ cs)

-- Every command that `next` gives moves the position on, up to `len`.
abbrev pub Advances {ℓ} : {T : Type ℓ} → ℕ → (ℕ → Res (Option (T × ℕ))) → Type ℓ
Advances {T} len next =
    (pos pos' : ℕ) (c : T) → next pos ≡ ok (some (c, pos')) → (pos < pos') × (pos' ≤ len)

module _ {ℓ κ} {T : Type ℓ} {S : Type κ} (len : ℕ) (next : ℕ → Res (Option (T × ℕ))) where
  pub for_cmds-Decodes :
      (body : T → S → Res S)
      → Advances len next
      → (fuel pos : ℕ) (cs : List T) (s : S) → len < fuel + pos
      → 0 < fuel
      → Decodes next pos cs
      → for_cmds next body fuel pos s ≡ run_list body cs s
  unfolding for_cmds run_list
  for_cmds-Decodes body adv zero pos [] s h h0 (done e) = absurd (omega arith)
  for_cmds-Decodes body adv (suc fuel) pos [] s h h0 (done e) = rw e
  for_cmds-Decodes body adv zero pos (c ∷ cs) s h h0 (more e d) = absurd (omega arith)
  for_cmds-Decodes body adv (suc fuel) pos (c ∷ cs) s h h0 (more {pos' = q} e d) =
      let p = adv pos q c e in
      rw e (
        after (body c s) (λ s'.
          for_cmds-Decodes body adv fuel q cs s' (omega (arith, p.0, p.1)) (omega (arith, p.0, p.1))
            d))
    where
      after :
          (r : Res S)
          → ((s' : S) → for_cmds next body fuel q s' ≡ run_list body cs s')
          → (r >>= for_cmds next body fuel q) ≡ (r >>= run_list body cs)
      after (ok a) k = k a
      after (err x) k = refl
      after panic k = refl
      after hang k = refl

  module _ (body : T → S → Res S) (adv : Advances len next)
      (eb : (c : T) (s : S) → Ends (body c s)) where
    step_Ends :
        (fuel pos : ℕ) (s : S)
        → len < suc fuel + pos
        → ((q : ℕ) (s' : S) → pos < q → q ≤ len → Ends (for_cmds next body fuel q s'))
        → (o : Option (T × ℕ)) → next pos ≡ ok o
        → Ends (for_step body (for_cmds next body fuel) o s)
    step_Ends fuel pos s h again none e = by_ok s
    step_Ends fuel pos s h again (some (c, q)) e =
        let p = adv pos q c e in >>=-Ends_with (body c s) (eb c s) (λ s' _. again q s' p.0 p.1)

    -- The loop does not run out of a fuel of `len - pos`, and one round for the end of the stream.
    pub for_cmds-Ends :
        ((pos : ℕ) → Ends (next pos))
        → (fuel pos : ℕ) (s : S) → len < fuel + pos
        → 0 < fuel
        → Ends (for_cmds next body fuel pos s)
    unfolding for_cmds
    for_cmds-Ends en zero pos s h h0 = absurd (omega arith)
    for_cmds-Ends en (suc fuel) pos s h h0 = >>=-Ends_with (next pos) (en pos) (
        step_Ends fuel pos s h
          (λ q s' p p'. for_cmds-Ends en fuel q s' (omega arith) (omega arith)))

-- What the body keeps, the loop keeps.
module _ {ℓ κ μ} {T : Type ℓ} {S : Type κ} (next : ℕ → Res (Option (T × ℕ))) (body : T → S → Res S)
    (P : S → Type μ) (keep : (c : T) (s s' : S) → P s → body c s ≡ ok s' → P s') where
  step_keeps :
      (fuel : ℕ) (s s' : S)
      → P s
      → ((q : ℕ) (t : S) → P t → for_cmds next body fuel q t ≡ ok s' → P s')
      → (o : Option (T × ℕ)) → for_step body (for_cmds next body fuel) o s ≡ ok s'
      → P s'
  step_keeps fuel s s' p again none e = subst P (ok_inj e) p
  step_keeps fuel s s' p again (some (c, q)) e =
      let (t, e1, e2) = >>=-eq-ok (body c s) _ e in again q t (keep c s t p e1) e2

  pub for_cmds_keeps :
      (fuel pos : ℕ) (s s' : S) → P s → for_cmds next body fuel pos s ≡ ok s' → P s'
  unfolding for_cmds
  for_cmds_keeps zero pos s s' p e = absurd (hang≢ok e)
  for_cmds_keeps (suc fuel) pos s s' p e =
      let (o, e1, e2) = >>=-eq-ok (next pos) _ e in
      step_keeps fuel s s' p (λ q t pt et. for_cmds_keeps fuel q t s' pt et) o e2
