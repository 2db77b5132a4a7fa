-- ===== src/Main/Needs.antt =====
-- src/main.rs, `verify_mmb`: the steps that a thread still needs, and its own steps.
use second_opinion.Prelude.{
  ◌*◌, ◌==◌, if◌then◌else◌, ℕ, suc, ◌+◌, ◌-◌, ◌%◌, ◌^◌, ◌≤◌, ◌<◌, List, [], ◌∷◌, snoc, length,
  get_elem?, ◌≡◌, refl, ap, Option, none, some, Res, ok, err, panic, hang, arith,
}
use second_opinion.Util.Stmt.{StmtCmd}
use second_opinion.Util.Outline.{Outline}
use second_opinion.Mmb.ProofCmd.{ProofIter}
use second_opinion.Mmb.Verify.{check_decl}
use second_opinion.Main.{
  Declar, ThreadAt, idle, checking, finished, panicked, Thread, Par, put, fetched, checked, tick_at,
  tick,
}
use second_opinion.Main.Weights.{
  get_elem?-set_at, total-ge_elem, total-take_le, total, get_elem?-eq-some_lt,
}
use second_opinion.Main.Counts.{stuck_of, stuck, held_at, held}
use second_opinion.Main.Invariant.{Inv, idle-room}

-- No check of a declaration panics (or, in the model, runs out of fuel).
unfoldable pub NonePanics : Outline → Type 0
NonePanics o = total (stuck o) o.declarations ≡ 0

abbrev pub occurrences : ℕ → List ℕ → ℕ
occurrences i [] = 0
occurrences i (j ∷ js) = (if i == j then 1 else 0) + occurrences i js

-- The steps that a thread still needs, if the others make none; `left` are the declarations that the
-- task counter has not reached.
abbrev pub needs : ℕ → ThreadAt → ℕ
needs left idle = 2 * left + 1
needs left (checking stmt proof) = 2 * left + 2
needs left finished = 0
needs left panicked = 0

pub needs_mono : (m n : ℕ) (a : ThreadAt) → m ≤ n → needs m a ≤ needs n a
needs_mono m n idle h = omega arith
needs_mono m n (checking stmt proof) h = omega arith
needs_mono m n finished h = omega arith
needs_mono m n panicked h = omega arith

module _ (o : Outline) where
  unfoldable pub left : Par → ℕ
  left s = length o.declarations - s.task_counter

  -- Where thread `i` is, and the steps that it needs at most.
  unfoldable pub Needs : ℕ → ℕ → Par → Type 0
  unfolding left
  Needs i n s = (t : Thread) × (get_elem? s.threads i ≡ some t) × (needs (left s) t.at ≤ n)

module _ (o : Outline) (k : ℕ) (small : length o.declarations + k < 2 ^ 64)
    (unstuck : total (stuck o) o.declarations ≡ 0) where
  fetched-Needs :
      (i n : ℕ) (s : Par) (t : Thread) (d : Option Declar)
      → get_elem? s.threads i ≡ some t
      → get_elem? o.declarations s.task_counter ≡ d
      → (s.task_counter + 1) % 2 ^ 64 ≡ suc s.task_counter
      → needs (left o s) idle ≤ suc n
      → Needs o i n (fetched i t.errs d (record s { task_counter = (s.task_counter + 1) % 2 ^ 64 }))
  unfolding Needs fetched put left
  fetched-Needs i n s t none here found next enough =
      (record { at = finished; errs = t.errs }, get_elem?-set_at i _ s.threads here, omega arith)
  fetched-Needs i n s t (some (stmt, proof)) here found next enough = (
    record { at = checking stmt proof; errs = t.errs },
    get_elem?-set_at i _ s.threads here,
    rw next (omega (arith, enough, get_elem?-eq-some_lt s.task_counter o.declarations found)),
  )

  -- A declaration that a thread checks is not a stuck one.
  checking-unstuck :
      (i : ℕ) (s : Par) (t : Thread) (stmt : StmtCmd) (proof : ProofIter)
      → Inv o k s
      → get_elem? s.threads i ≡ some t
      → t.at ≡ checking stmt proof
      → stuck_of (check_decl o stmt proof) ≡ 0
  checking-unstuck i s t stmt proof inv here at_check = omega (
    arith,
    unstuck,
    total-ge_elem (held (stuck o)) i s.threads here,
    ap (held_at (stuck o)) at_check,
    inv.taken (stuck o),
    total-take_le (stuck o) s.task_counter o.declarations,
  )

  checked-Needs :
      {A : Type 0} (i n : ℕ) (s : Par) (t : Thread) (stmt : StmtCmd) (r : Res A)
      → get_elem? s.threads i ≡ some t
      → stuck_of r ≡ 0
      → 2 * left o s + 2 ≤ suc n
      → Needs o i n (checked i stmt t.errs r s)
  unfolding Needs checked put left
  checked-Needs i n s t stmt (ok a) here h enough = (
    record { at = idle; errs = t.errs },
    get_elem?-set_at i _ s.threads here,
    omega (arith, enough),
  )
  checked-Needs i n s t stmt (err x) here h enough = (
    record { at = idle; errs = snoc t.errs x },
    get_elem?-set_at i _ s.threads here,
    omega (arith, enough),
  )
  checked-Needs i n s t stmt panic here h enough = absurd (omega (arith, h))
  checked-Needs i n s t stmt hang here h enough = absurd (omega (arith, h))

  ended-Needs :
      (i n : ℕ) (s : Par) (t : Thread)
      → get_elem? s.threads i ≡ some t
      → needs (left o s) t.at ≡ 0
      → Needs o i n s
  unfolding Needs
  ended-Needs i n s t here h = (t, here, omega (arith, h))

  own_tick_at-Needs :
      (i n : ℕ) (s : Par) (t : Thread) (a : ThreadAt)
      → Inv o k s
      → get_elem? s.threads i ≡ some t
      → t.at ≡ a
      → needs (left o s) a ≤ suc n
      → Needs o i n (tick_at o i a t.errs s)
  unfolding tick_at
  own_tick_at-Needs i n s t idle inv here at enough =
      fetched-Needs i n s t (get_elem? o.declarations s.task_counter) here refl
        (idle-room o k s i t here inv at small) enough
  own_tick_at-Needs i n s t (checking stmt proof) inv here at enough =
      checked-Needs i n s t stmt (check_decl o stmt proof) here
        (checking-unstuck i s t stmt proof inv here at) enough
  own_tick_at-Needs i n s t finished inv here at enough =
      ended-Needs i n s t here (ap (needs (left o s)) at)
  own_tick_at-Needs i n s t panicked inv here at enough =
      ended-Needs i n s t here (ap (needs (left o s)) at)

  pub own_tick-Needs :
      (i n : ℕ) (s : Par) → Inv o k s → Needs o i (suc n) s → Needs o i n (tick o i s)
  unfolding Needs tick
  own_tick-Needs i n s inv (t, here, enough) =
      rw (here, tick) (own_tick_at-Needs i n s t t.at inv here refl enough)
