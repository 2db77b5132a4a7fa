-- ===== src/Mmz/Monad.antt =====
-- src/mmz/mod.rs: `MmzState`, and actions on it. The state comes back from an error too: what was
-- written stays written, and the parser stays where it was.
use second_opinion.Prelude.{
  ℕ, ◌+◌, ◌*◌, ◌/◌, ◌^◌, Bool, not, List, [], ◌∷◌, drop, get_elem?, ◌==◌, if◌then◌else◌, Option,
  none, some, Res, ok, err, panic, hang, VerifErr, assert, fits, make_sure,
}
use second_opinion.Mmz.Data.{Str, MmzVar, MmzHyp, MmzExpr, var_is_bound}
use second_opinion.Mmz.Mem.{MmzMem}

-- `vars_todo` and `vars_done` are in the order of the vectors; `hyps` and `ustack` have the last
-- element first.
pub record MmzState : Type 0 where
  pub mem : MmzMem
  pub vars_todo : List (Str × Bool)
  pub vars_done : List MmzVar
  pub hyps : List MmzHyp
  pub ustack : List MmzExpr
  pub uheap : List MmzExpr
  pub next_bv : ℕ

-- `MmzState::new_from`
abbrev pub new_state : MmzMem → MmzState
new_state m = record {
  mem = m;
  vars_todo = [];
  vars_done = [];
  hyps = [];
  ustack = [];
  uheap = [];
  next_bv = 1;
}

abbrev pub Act {ℓ} : Type ℓ → Type ℓ
Act A = MmzState → Res A × MmzState

abbrev pub pure {ℓ} : {A : Type ℓ} → A → Act A
pure a s = (ok a, s)

abbrev pub lift {ℓ} : {A : Type ℓ} → Res A → Act A
lift r s = (r, s)

abbrev pub fail {ℓ} : {A : Type ℓ} → VerifErr → Act A
fail e s = (err e, s)

abbrev pub gets {ℓ} : {A : Type ℓ} → (MmzState → A) → Act A
gets f s = (ok (f s), s)

abbrev pub modify : (MmzState → MmzState) → Act (Unit {0})
modify f s = (ok tt, f s)

-- What follows an action: `k` in the state that it has left, unless it has failed.
abbrev pub after {ℓ κ} :
    {A : Type ℓ} {B : Type κ} → Res A → MmzState → (A → Act B) → Res B × MmzState
after (ok a) s k = k a s
after (err e) s k = (err e, s)
after panic s k = (panic, s)
after hang s k = (hang, s)

infixl 5 ◌>>=◌ ◌>>◌
abbrev pub ◌>>=◌ {ℓ κ} : {A : Type ℓ} {B : Type κ} → Act A → (A → Act B) → Act B
◌>>=◌ m k s = after ((m s).0) ((m s).1) k

abbrev pub ◌>>◌ {ℓ κ} : {A : Type ℓ} {B : Type κ} → Act A → Act B → Act B
m >> n = m >>= λ _. n

-- The outcome of an action that may fail, as a value.
abbrev pub settled {ℓ} : {A : Type ℓ} → Res A → MmzState → Res (Option A) × MmzState
settled (ok a) s = (ok (some a), s)
settled (err e) s = (ok none, s)
settled panic s = (panic, s)
settled hang s = (hang, s)

abbrev pub attempt {ℓ} : {A : Type ℓ} → Act A → Act (Option A)
attempt m s = settled ((m s).0) ((m s).1)

-- `localize!`
abbrev pub localized {ℓ} : {A : Type ℓ} → Res A → Res A
localized (ok a) = ok a
localized (err e) = err (VerifErr.local e)
localized panic = panic
localized hang = hang

abbrev pub localize {ℓ} : {A : Type ℓ} → Act A → Act A
localize m s = (localized ((m s).0), (m s).1)

abbrev pub ensure : Bool → Act (Unit {0})
ensure b = lift (make_sure b)

abbrev pub when : Bool → Act (Unit {0}) → Act (Unit {0})
when b m = if b then m else pure tt

-- A change of the persistent state that may fail before it takes place.
abbrev pub changed : Res MmzMem → MmzState → Res (Unit {0}) × MmzState
changed (ok m) s = (ok tt, record s { mem = m })
changed (err e) s = (err e, s)
changed panic s = (panic, s)
changed hang s = (hang, s)

-- The same for the whole state.
abbrev pub changed_state : Res MmzState → MmzState → Res (Unit {0}) × MmzState
changed_state (ok s') s = (ok tt, s')
changed_state (err e) s = (err e, s)
changed_state panic s = (panic, s)
changed_state hang s = (hang, s)

abbrev pub on_mem : (MmzMem → Res MmzMem) → Act (Unit {0})
on_mem f s = changed (f s.mem) s

abbrev pub position_of : MmzState → ℕ
position_of s = s.mem.mmz_pos

abbrev pub set_pos : ℕ → Act (Unit {0})
set_pos p = modify (λ s. record s { mem = record s.mem { mmz_pos = p } })

abbrev pub cur : MmzState → Option ℕ
cur s = get_elem? s.mem.mmz s.mem.mmz_pos

abbrev pub cur_slice : MmzState → List ℕ
cur_slice s = drop s.mem.mmz_pos s.mem.mmz

abbrev pub advance : ℕ → Act (Unit {0})
advance n = modify (λ s. record s { mem = record s.mem { mmz_pos = s.mem.mmz_pos + n } })

abbrev pub next_digit : MmzState → Res ℕ → Res ℕ × MmzState
next_digit s (ok n) = (ok s.next_bv, record s { next_bv = n })
next_digit s (err e) = (err e, s)
next_digit s panic = (panic, s)
next_digit s hang = (hang, s)

-- `MmzState::take_next_bv`
unfoldable pub take_next_bv : Act ℕ
take_next_bv = do
  lift (assert ((← gets (λ s. s.next_bv)) / 2 ^ 56 == 0))
  λ s. next_digit s (fits 64 (s.next_bv * 2))

-- `Iterator::filter`
unfoldable pub filter {ℓ} : {A : Type ℓ} → (A → Bool) → List A → List A
filter p [] = []
filter p (x ∷ xs) = let rest = filter p xs in if p x then x ∷ rest else rest

unfoldable pub non_dummy_vars : MmzState → List MmzVar
unfolding filter
non_dummy_vars s = filter (λ v. not v.is_dummy) s.vars_done

unfoldable pub potential_deps : MmzState → List MmzVar
unfolding non_dummy_vars filter var_is_bound
potential_deps s = filter var_is_bound (non_dummy_vars s)
