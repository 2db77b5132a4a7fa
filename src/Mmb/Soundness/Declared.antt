-- ===== src/Mmb/Soundness/Declared.antt =====
-- src/mmb/mod.rs, `verify_assert`: a theorem that passes has been proved.
use second_opinion.Prelude.{
  ℕ, zero, suc, ◌-◌, ◌*◌, ◌/◌, ◌^◌, ◌==◌, assert, fits, Bool, true, false, bit_and, List, [], ◌∷◌,
  length, length-snoc, snoc, snoc-Grown, ◌+◌, arith, take, All, All-snoc, if◌then◌else◌, Option,
  none, some, ◌≡◌, ◌⊎◌, inl, inr, refl, sym, ap, ◌∙◌, subst, Res, ok, unwrap_res, ◌>>◌, >>=-eq-ok,
  guarded, ok_inj, hang≢ok, panic≢ok,
}
use second_opinion.Util.Ty.{Ty, sort, is_bound, bound_digit, deps, not64}
use second_opinion.Util.Stmt.{thm}
use second_opinion.Util.Header.{sort_strict}
use second_opinion.Util.Cmd.{for_cmds}
use second_opinion.Util.Outline.{Outline, Assert, get_sort_mods}
use second_opinion.Mmb.ProofCmd.{thm_mode, ProofCmd, ProofIter, proof_next}
use second_opinion.Mmb.Item.{MmbItem, var, expr, proof}
use second_opinion.Mmb.State.{MmbState, init_state, take_next_bv}
use second_opinion.Mmb.Unify.{u_thm_end, run_unify}
use second_opinion.Mmb.Proof.{proof_cmd}
use second_opinion.Mmb.Verify.{load_arg, push_arg, load_loop, load_args}
use second_opinion.Mmb.Soundness.{Provable, IsVar}
use second_opinion.Mmb.Soundness.Steps.{TakesExprs}
use second_opinion.Mmb.Soundness.Arena.{Stored, All-mono, Allocated, new_at}
use second_opinion.Mmb.Soundness.Run.{Reaches, step}

-- The run of a proof stream from a position on, in which each command takes expressions where it
-- expects them.
pub data CleanRun (o : Outline) (pr : ProofIter) : ℕ → MmbState → MmbState → Type 0 where
  ended :
      {pos : ℕ} {s : MmbState} → proof_next pr.buf pr.ends_at pos ≡ ok none → CleanRun o pr pos s s
  command :
      {pos pos' : ℕ} {c : ProofCmd} {s t u : MmbState}
      → proof_next pr.buf pr.ends_at pos ≡ ok (some (c, pos'))
      → proof_cmd o thm_mode c s ≡ ok t
      → TakesExprs o c s
      → CleanRun o pr pos' t u
      → CleanRun o pr pos s u

pub CleanRun-Reaches :
    {o : Outline} {pr : ProofIter} {s0 : MmbState} {pos : ℕ} {s t : MmbState}
    → Reaches o thm_mode s0 s
    → CleanRun o pr pos s t
    → Reaches o thm_mode s0 t
CleanRun-Reaches r (ended e) = r
CleanRun-Reaches r (command {c = c} e1 e2 x run) = CleanRun-Reaches (step c r e2 x) run

-- `run_proof` makes this run and no other.
pub CleanRun-eq :
    (o : Outline) (pr : ProofIter) {pos : ℕ} {s t : MmbState} (fuel : ℕ) {u : MmbState}
    → CleanRun o pr pos s t
    → for_cmds (proof_next pr.buf pr.ends_at) (proof_cmd o thm_mode) fuel pos s ≡ ok u
    → u ≡ t
unfolding for_cmds
CleanRun-eq o pr zero (ended e) h = absurd (hang≢ok h)
CleanRun-eq o pr zero (command e1 e2 x run) h = absurd (hang≢ok h)
CleanRun-eq o pr (suc fuel) (ended e) h = sym (ok_inj (rw e at h))
CleanRun-eq o pr (suc fuel) (command e1 e2 x run) h = CleanRun-eq o pr fuel run (rw (e1, e2) at h)

-- What `load_args` leaves: a variable for each argument on the heap, and nothing else but the arena.
pub record Loaded (num : ℕ) (s : MmbState) : Type 0 where
  pub vars : All IsVar s.heap
  pub count : length s.heap ≡ num
  pub no_stack : s.stack ≡ []
  pub no_ustack : s.ustack ≡ []
  pub no_uheap : s.uheap ≡ []
  pub no_hstack : s.hstack ≡ []
  pub arena : List MmbItem
  pub allocated : Allocated arena s

assert-eq-ok :
    {A : Type 0} (b : Bool) (r : Res A) {a : A} → (assert b >> r) ≡ ok a → (b ≡ true) × (r ≡ ok a)
assert-eq-ok true r e = (refl, e)
assert-eq-ok false r e = absurd (panic≢ok e)

branch :
    {A : Type 0} (b : Bool) (q r : Res A) {a : A}
    → (if b then q else r) ≡ ok a
    → (q ≡ ok a) ⊎ (r ≡ ok a)
branch true q r e = inl e
branch false q r e = inr e

take_next_bv-Loaded :
    (k : ℕ) (s : MmbState) {r : ℕ × MmbState} → take_next_bv s ≡ ok r → Loaded k s → Loaded k r.1
unfolding take_next_bv
take_next_bv-Loaded k s e l =
    let (_, e1) = assert-eq-ok (s.next_bv / 2 ^ 56 == 0) _ e in
    let (n, e2, e3) = >>=-eq-ok (fits 64 (s.next_bv * 2)) _ e1 in
    subst (λ x. Loaded k x.1) (ok_inj e3)
      (record {
        vars = l.vars;
        count = l.count;
        no_stack = l.no_stack;
        no_ustack = l.no_ustack;
        no_uheap = l.no_uheap;
        no_hstack = l.no_hstack;
        arena = l.arena;
        allocated = record {
          size = l.allocated.size;
          on_stack = l.allocated.on_stack;
          on_heap = l.allocated.on_heap;
          on_hstack = l.allocated.on_hstack;
        };
      })

load_arg-Loaded :
    (k : ℕ) (o : Outline) (arg : Ty) (s : MmbState) {t : MmbState}
    → load_arg o arg s ≡ ok t
    → Loaded k s
    → Loaded k t
unfolding load_arg
load_arg-Loaded k o arg s e l = elim (branch (is_bound arg) _ _ e) [
  | inl e0 ↦
      let (mods, e1, e2) = >>=-eq-ok (unwrap_res (get_sort_mods o (sort arg))) _ e0 in
      let (_, e3) = guarded (bit_and mods sort_strict == 0) _ e2 in
      let (r, e4, e5) = >>=-eq-ok (take_next_bv s) _ e3 in
      let (d, e6, e7) = >>=-eq-ok (bound_digit arg) _ e5 in
      let (_, e8) = guarded (d == r.0) _ e7 in
      subst (Loaded k) (ok_inj e8) (take_next_bv-Loaded k s e4 l)
  | inr e0 ↦
      let (d, e1, e2) = >>=-eq-ok (unwrap_res (deps arg)) _ e0 in
      let (_, e3) = guarded (0 == bit_and d (not64 (s.next_bv - 1))) _ e2 in
      subst (Loaded k) (ok_inj e3) l
]

push_arg-Allocated :
    (m : List MmbItem) (idx : ℕ) (arg : Ty) (s : MmbState)
    → Allocated m s
    → Allocated (snoc m (expr s.next_addr (var idx arg))) (push_arg idx arg s)
push_arg-Allocated m idx arg s al =
    let x = expr s.next_addr (var idx arg) in
    let keep = All-mono m (snoc m x) (snoc-Grown m x) in
    record {
      size = length-snoc m x ∙ ap suc al.size;
      on_stack = keep s.stack al.on_stack;
      on_heap = All-snoc (Stored (snoc m x)) s.heap x (keep s.heap al.on_heap) (new_at m x al.size);
      on_hstack = keep s.hstack al.on_hstack;
    }

load_loop-Loaded :
    (k : ℕ) (o : Outline) (idx : ℕ) (args : List Ty) (s : MmbState) {t : MmbState}
    → load_loop o idx args s ≡ ok t
    → Loaded k s
    → Loaded (k + length args) t
unfolding load_loop
load_loop-Loaded k o idx [] s {t = t} e l =
    subst (λ n. Loaded n t) (omega arith) (subst (Loaded k) (ok_inj e) l)
load_loop-Loaded k o idx (arg ∷ args) s {t = t} e l =
    let (s', e1, e2) = >>=-eq-ok (load_arg o arg s) _ e in
    let l' = load_arg-Loaded k o arg s e1 l in
    subst (λ n. Loaded n t) (omega arith)
      (load_loop-Loaded (suc k) o (suc idx) args (push_arg idx arg s') e2 (record {
        vars = All-snoc IsVar s'.heap (expr s'.next_addr (var idx arg)) l'.vars tt;
        count = length-snoc s'.heap (expr s'.next_addr (var idx arg)) ∙ ap suc l'.count;
        no_stack = l'.no_stack;
        no_ustack = l'.no_ustack;
        no_uheap = l'.no_uheap;
        no_hstack = l'.no_hstack;
        arena = snoc l'.arena (expr s'.next_addr (var idx arg));
        allocated = push_arg-Allocated l'.arena idx arg s' l'.allocated;
      }))

pub load_args-Loaded :
    (o : Outline) (args : List Ty) (num : Option ℕ) (local : Bool) {s : MmbState}
    → load_args o args (thm num local) init_state ≡ ok s
    → Loaded (length args) s
unfolding load_args
load_args-Loaded o args num local e =
    let (s', e1, e2) = >>=-eq-ok (load_loop o 0 args init_state) _ e in
    subst (Loaded (length args)) (ok_inj e2) (
      subst (λ n. Loaded n s') (omega arith)
        (load_loop-Loaded 0 o 0 args init_state e1 (record {
          vars = tt;
          count = refl;
          no_stack = refl;
          no_ustack = refl;
          no_uheap = refl;
          no_hstack = refl;
          arena = [];
          allocated = record { size = refl; on_stack = tt; on_heap = tt; on_hstack = tt };
        })))

-- One of a list.
abbrev pub In : List MmbItem → MmbItem → Type 0
In [] e = ⊥
In (x ∷ xs) e = (e ≡ x) ⊎ In xs e

-- The state in which the unify stream of a theorem is run at the end, on what has been proved.
abbrev pub at_end : ℕ → MmbState → MmbState
at_end arity s = record s { stack = []; uheap = take arity s.heap }

-- What an accepted theorem is: a proof is left, its statement is provable from the hypotheses
-- that have been assumed, and the unifier matches the two with the declared statement.
pub record IsProved (o : Outline) (a : Assert) (arity : ℕ) (s : MmbState) : Type 0 where
  pub addr : ℕ
  pub concl : MmbItem
  pub left : s.stack ≡ proof addr concl ∷ []
  pub provable : Provable o (In s.hstack) concl
  pub end : MmbState
  pub declared : run_unify u_thm_end a.unify concl (at_end arity s) ≡ ok end
