-- ===== src/Prelude/Result.antt =====
-- src/util.rs, `VerifErr` and `Res`: how a step of the verifier ends.
use Prim.Native.Nat.{ℕ, ◌-◌, ◌≤◌, ◌^◌}
use mathlib.Core.Path.{◌≡◌, refl}
use mathlib.Core.Bool.{Bool, true, false}
use mathlib.Core.Option.{Option, none, some}
use second_opinion.Prelude.Tests.{ltb, if◌then◌else◌}
use native.Mathlib.Omega.{arith}

-- The constructors of `VerifErr`. Their payloads, the file and line of the macro that raised the
-- error and the text of a message, are left out.
pub data VerifErr : Type 0 where
  make_sure_err none_err_err conv_err_err msg unreachable io_err : VerifErr
  local : VerifErr → VerifErr

-- `ok` and `err` are the values of `Res<A>`. `panic` is a Rust panic: an index out of range, an
-- `unwrap` of nothing, a failed `assert!`, an overflow (the release profile checks those too).
-- `hang` is no outcome of the program: a loop of the model ran out of fuel.
pub data Res {ℓ} (A : Type ℓ) : Type ℓ where
  ok : A → Res A
  err : VerifErr → Res A
  panic : Res A
  hang : Res A

-- The operator `?`.
infixl 5 ◌>>=◌ ◌>>◌
abbrev pub ◌>>=◌ {ℓ κ} : {A : Type ℓ} {B : Type κ} → Res A → (A → Res B) → Res B
ok a >>= f = f a
err e >>= f = err e
panic >>= f = panic
hang >>= f = hang

abbrev pub ◌>>◌ {ℓ} : {B : Type ℓ} → Res (Unit {0}) → Res B → Res B
m >> k = m >>= λ _. k

-- The same under a name, for the files where the operator is that of another monad.
abbrev pub and_then {ℓ κ} : {A : Type ℓ} {B : Type κ} → Res A → (A → Res B) → Res B
and_then r f = r >>= f

-- The macros `make_sure!`, `none_err!` and `localize!`.
abbrev pub make_sure : Bool → Res (Unit {0})
make_sure true = ok tt
make_sure false = err make_sure_err

abbrev pub none_err {ℓ} : {A : Type ℓ} → Option A → Res A
none_err none = err none_err_err
none_err (some a) = ok a

abbrev pub localize {ℓ} : {A : Type ℓ} → Res A → Res A
localize (ok a) = ok a
localize (err e) = err (local e)
localize panic = panic
localize hang = hang

-- `assert!`, `unwrap` on an `Option` and on a `Res`, and an index that must be in range.
abbrev pub assert : Bool → Res (Unit {0})
assert true = ok tt
assert false = panic

abbrev pub unwrap {ℓ} : {A : Type ℓ} → Option A → Res A
unwrap none = panic
unwrap (some a) = ok a

abbrev pub unwrap_res {ℓ} : {A : Type ℓ} → Res A → Res A
unwrap_res (ok a) = ok a
unwrap_res (err e) = panic
unwrap_res panic = panic
unwrap_res hang = hang

-- `Result::or`, with its argument already evaluated.
abbrev pub or_res {ℓ} : {A : Type ℓ} → Res A → Res A → Res A
or_res (ok a) r = ok a
or_res (err e) r = r
or_res panic r = panic
or_res hang r = hang

-- Addition, multiplication and subtraction of `w`-bit words panic when the result does not fit.
abbrev pub fits : ℕ → ℕ → Res ℕ
fits w n = if ltb n (2 ^ w) then ok n else panic

abbrev pub sub_or_panic : ℕ → ℕ → Res ℕ
sub_or_panic a b = if ltb a b then panic else ok (a - b)

-- Inversion of a successful bind, for proofs where the parts stay shut.
pub >>=-eq-ok {ℓ κ} :
    {X : Type ℓ} {Y : Type κ} (r : Res X) (k : X → Res Y) {y : Y}
    → (r >>= k) ≡ ok y
    → (x : X) × (r ≡ ok x) × (k x ≡ ok y)
>>=-eq-ok (ok x) k e = (x, refl, e)
>>=-eq-ok (err v) k e = ground arith
>>=-eq-ok panic k e = ground arith
>>=-eq-ok hang k e = ground arith

pub make_sure-eq-ok : (b : Bool) {u : Unit {0}} → make_sure b ≡ ok u → b ≡ true
make_sure-eq-ok true h = refl
make_sure-eq-ok false h = ground arith

pub unwrap_res-eq-ok {ℓ} : {A : Type ℓ} (r : Res A) {a : A} → unwrap_res r ≡ ok a → r ≡ ok a
unwrap_res-eq-ok (ok b) h = h
unwrap_res-eq-ok (err e) h = ground arith
unwrap_res-eq-ok panic h = ground arith
unwrap_res-eq-ok hang h = ground arith

pub ok_inj {ℓ} : {A : Type ℓ} {a b : A} → ok a ≡ ok b → a ≡ b
ok_inj e = cc

pub hang≢ok {ℓ} : {A : Type ℓ} {a : A} → ¬ (hang ≡ ok a)
hang≢ok e = cc

pub err≢ok {ℓ} : {A : Type ℓ} {x : VerifErr} {a : A} → ¬ (err x ≡ ok a)
err≢ok e = cc

pub panic≢ok {ℓ} : {A : Type ℓ} {a : A} → ¬ (panic ≡ ok a)
panic≢ok e = cc

pub none_err-eq-ok {ℓ} : {A : Type ℓ} (o : Option A) {a : A} → none_err o ≡ ok a → o ≡ some a
none_err-eq-ok none e = ground arith
none_err-eq-ok (some b) e = ground arith

pub unwrap-eq-ok {ℓ} : {A : Type ℓ} (o : Option A) {a : A} → unwrap o ≡ ok a → o ≡ some a
unwrap-eq-ok none e = ground arith
unwrap-eq-ok (some b) e = ground arith

pub sub_or_panic-eq-ok : (a b : ℕ) {d : ℕ} → sub_or_panic a b ≡ ok d → b ≤ a
sub_or_panic-eq-ok a b e = ground arith

-- A guard that passed.
pub guarded {ℓ} :
    {A : Type ℓ} (b : Bool) (r : Res A) {a : A}
    → (make_sure b >> r) ≡ ok a
    → (b ≡ true) × (r ≡ ok a)
guarded true r e = (refl, e)
guarded false r e = absurd (err≢ok e)
