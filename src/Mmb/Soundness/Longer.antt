-- ===== src/Mmb/Soundness/Longer.antt =====
-- src/mmb/proof.rs: what a command does to the heap and the unify stack.
use second_opinion.Prelude.{
  suc, Bool, true, false, List, [], ◌∷◌, ◌++◌, snoc, length, drop, is_empty, if◌then◌else◌, ◌≡◌,
  ◌≢◌, refl, sym, ap, ◌∙◌, append_assoc, append-nil, ok, ok_inj, guarded, >>=-eq-ok,
}
use second_opinion.Util.Cmd.{for_cmds}
use second_opinion.Util.Outline.{Outline}
use second_opinion.Mmb.ProofCmd.{Mode, ProofCmd}
use second_opinion.Mmb.UnifyCmd.{UnifyIter, unify_next}
use second_opinion.Mmb.Item.{MmbItem, MmbItems, nil, cons, to_list}
use second_opinion.Mmb.State.{MmbState, top}
use second_opinion.Mmb.Unify.{UMode, u_thm, u_def, u_thm_end, unify_cmd, run_unify, unify_end}
use second_opinion.Mmb.Proof.Conv.{push_pairs}
use second_opinion.Mmb.Step.{
  ProofStep, ref_step, dummy_step, term_step, thm_step, hyp_step, conv_step, refl_step, sym_step,
  cong_step, unfold_step, conv_cut_step, conv_ref_step, conv_save_step, save_step,
}
use second_opinion.Mmb.Soundness.Frame.{run_unify-Framed}

-- Items come to the end of the heap only, and the unify stack is empty between commands.
pub record Longer (s t : MmbState) : Type 0 where
  pub new : List MmbItem
  pub heap_is : t.heap ≡ s.heap ++ new
  pub cleared : s.ustack ≡ [] → t.ustack ≡ []

pub no_new : {s t : MmbState} → t.heap ≡ s.heap → t.ustack ≡ s.ustack → Longer s t
no_new {s = s} e u = record {
  new = [];
  heap_is = e ∙ sym (append-nil s.heap);
  cleared = λ c. u ∙ c;
}

snoc-append : (h : List MmbItem) (y : MmbItem) → snoc h y ≡ h ++ y ∷ []
snoc-append [] y = refl
snoc-append (z ∷ h) y = ap (λ (r : List MmbItem). z ∷ r) (snoc-append h y)

one_new : {s t : MmbState} (x : MmbItem) → t.heap ≡ snoc s.heap x → t.ustack ≡ s.ustack → Longer s t
one_new {s = s} x e u = record {
  new = x ∷ [];
  heap_is = e ∙ snoc-append s.heap x;
  cleared = λ c. u ∙ c;
}

-- A command with a saved item, behind a run of the unifier that keeps the heap.
saved_new :
    {s t : MmbState} (saved : Bool) (x : MmbItem)
    → t.heap ≡ (if saved then snoc s.heap x else s.heap)
    → t.ustack ≡ s.ustack
    → Longer s t
saved_new true x e u = one_new x e u
saved_new false x e u = no_new e u

pub Longer-then : {s t u : MmbState} → Longer s t → Longer t u → Longer s u
Longer-then {s = s} l m = record {
  new = l.new ++ m.new;
  heap_is =
      m.heap_is ∙ ap (λ (h : List MmbItem). h ++ m.new) l.heap_is ∙ append_assoc s.heap l.new m.new;
  cleared = λ c. m.cleared (l.cleared c);
}

pairs_heap :
    (xs ys : MmbItems) (s : MmbState)
    → ((push_pairs xs ys s).heap ≡ s.heap) × ((push_pairs xs ys s).ustack ≡ s.ustack)
unfolding push_pairs
pairs_heap nil ys s = (refl, refl)
pairs_heap (cons x xs) nil s = (refl, refl)
pairs_heap (cons x xs) (cons y ys) s = pairs_heap xs ys s

pub is_empty-eq : (xs : List MmbItem) → is_empty xs ≡ true → xs ≡ []
is_empty-eq [] e = refl
is_empty-eq (x ∷ xs) e = cc

end_ustack : (mode : UMode) (s t : MmbState) → unify_end mode s ≡ ok t → t.ustack ≡ []
unfolding unify_end
end_ustack u_thm s t h =
    let (c, e) = guarded (is_empty s.ustack) _ h in
    ap (λ (v : MmbState). v.ustack) (sym (ok_inj e)) ∙ is_empty-eq s.ustack c
end_ustack u_def s t h =
    let (c, e) = guarded (is_empty s.ustack) _ h in
    ap (λ (v : MmbState). v.ustack) (sym (ok_inj e)) ∙ is_empty-eq s.ustack c
end_ustack u_thm_end s t h =
    let (c, e) = guarded (is_empty s.ustack) _ h in
    let (_, e') = guarded (is_empty s.hstack) _ e in
    ap (λ (v : MmbState). v.ustack) (sym (ok_inj e')) ∙ is_empty-eq s.ustack c

run_unify-Longer :
    (mode : UMode) (unify : UnifyIter) (tgt : MmbItem) (s t : MmbState)
    → mode ≢ u_thm_end
    → run_unify mode unify tgt s ≡ ok t
    → Longer s t
unfolding run_unify
run_unify-Longer mode unify tgt s t m h =
    let f = run_unify-Framed mode unify tgt s t m h in
    let (r, e1, h1) =
      >>=-eq-ok
        (for_cmds (unify_next unify.buf) (unify_cmd mode) (suc (length unify.buf)) unify.pos
          (record s { ustack = tgt ∷ s.ustack }))
        _ h in
    record {
      new = [];
      heap_is = f.same_heap ∙ sym (append-nil s.heap);
      cleared = λ _. end_ustack mode r t h1;
    }

pub u_thm-ne-u_thm_end : u_thm ≢ u_thm_end
u_thm-ne-u_thm_end e = cc

pub u_def-ne-u_thm_end : u_def ≢ u_thm_end
u_def-ne-u_thm_end e = cc

heap_of : {s t : MmbState} → s ≡ t → s.heap ≡ t.heap
heap_of q = ap (λ (v : MmbState). v.heap) q

ustack_of : {s t : MmbState} → s ≡ t → s.ustack ≡ t.ustack
ustack_of q = ap (λ (v : MmbState). v.ustack) q

pub step-Longer :
    (o : Outline) (mode : Mode) (s s' : MmbState) {cmd : ProofCmd}
    → ProofStep o mode s s' cmd
    → Longer s s'
step-Longer o mode s s' (ref_step i e q) = no_new (heap_of q) (ustack_of q)
step-Longer o mode s s' (dummy_step n e1 e2 q) = one_new _ (heap_of q) (ustack_of q)
step-Longer o mode s s' (term_step n saved e1 e2 e3 e4 q) =
    saved_new saved _ (heap_of q) (ustack_of q)
step-Longer o mode s s'
      (thm_step n saved {a = a} {rest = rest} {t = t} {sig = sig} {s₁ = s₁} e1 e2 e3 e4 e5 e6 e7
        q) =
    let from : MmbState = record s {
      stack = drop (length sig) rest;
      uheap = s.uheap ++ top (length sig) rest;
    } in
    let l : Longer s from = no_new refl refl in
    Longer-then l (
      Longer-then (run_unify-Longer u_thm t.unify a from s₁ u_thm-ne-u_thm_end e7)
        (saved_new saved _ (heap_of q) (ustack_of q)))
step-Longer o mode s s' (hyp_step e1 e2 e3 e4 e5 q) = one_new _ (heap_of q) (ustack_of q)
step-Longer o mode s s' (conv_step e1 q) = no_new (heap_of q) (ustack_of q)
step-Longer o mode s s' (refl_step e1 e2 q) = no_new (heap_of q) (ustack_of q)
step-Longer o mode s s' (sym_step e1 q) = no_new (heap_of q) (ustack_of q)
step-Longer o mode s s' (cong_step {xs = xs} {ys = ys} {rest = rest} e1 e2 q) =
    let (h, u) = pairs_heap xs ys (record s { stack = rest }) in
    no_new (heap_of q ∙ h) (ustack_of q ∙ u)
step-Longer o mode s s'
      (unfold_step {e_prime = e_prime} {ebar = ebar} {r2 = r2} {t = t} {s₁ = s₁} e1 e2 e3 e4 e5 e6
        q) =
    let from : MmbState = record s { stack = r2; uheap = to_list ebar } in
    let l : Longer s from = no_new refl refl in
    Longer-then l (
      Longer-then (run_unify-Longer u_def t.unify e_prime from s₁ u_def-ne-u_thm_end e4)
        (no_new (heap_of q) (ustack_of q)))
step-Longer o mode s s' (conv_cut_step e1 q) = no_new (heap_of q) (ustack_of q)
step-Longer o mode s s' (conv_ref_step i e1 e2 e3 e4 q) = no_new (heap_of q) (ustack_of q)
step-Longer o mode s s' (conv_save_step e1 q) = one_new _ (heap_of q) (ustack_of q)
step-Longer o mode s s' (save_step e1 e2 q) = one_new _ (heap_of q) (ustack_of q)
