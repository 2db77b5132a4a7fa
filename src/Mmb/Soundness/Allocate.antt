-- ===== src/Mmb/Soundness/Allocate.antt =====
-- src/mmb/proof.rs: what each command allocates in the arena.
use second_opinion.Prelude.{
  suc, List, [], ◌∷◌, snoc, length, take, drop, All, All-snoc, All-take, All-drop, All-get_elem?,
  snoc-Grown, ◌≡◌, refl, sym, subst,
}
use second_opinion.Util.Outline.{Outline}
use second_opinion.Mmb.ProofCmd.{Mode, ProofCmd}
use second_opinion.Mmb.Item.{MmbItem, app, expr, proof, conv, co_conv, from_list}
use second_opinion.Mmb.State.{MmbState, top}
use second_opinion.Mmb.Unify.{u_thm, u_def}
use second_opinion.Mmb.Step.{
  ProofStep, ref_step, dummy_step, term_step, thm_step, hyp_step, conv_step, refl_step, sym_step,
  cong_step, unfold_step, conv_cut_step, conv_ref_step, conv_save_step, save_step,
}
use second_opinion.Mmb.Soundness.Frame.{run_unify-Framed}
use second_opinion.Mmb.Soundness.Arity.{All-reverse_aux}
use second_opinion.Mmb.Soundness.Longer.{u_thm-ne-u_thm_end, u_def-ne-u_thm_end}
use second_opinion.Mmb.Soundness.Arena.{
  Stored, Stored-mono, All-mono, Allocated, Extended, Extended-then, new_at, no_alloc, one_alloc,
  from_list-StoredAll, Framed-Allocated, saved_alloc, pairs_alloc,
}

module _ (o : Outline) (mode : Mode) (m : List MmbItem) where
  on : {st xs : List MmbItem} → st ≡ xs → All (Stored m) st → All (Stored m) xs
  on e h = subst (All (Stored m)) e h

  -- What was in the arena still is, with one item more.
  still : (x : MmbItem) (xs : List MmbItem) → All (Stored m) xs → All (Stored (snoc m x)) xs
  still x xs h = All-mono m (snoc m x) (snoc-Grown m x) xs h

  also : (x e : MmbItem) → Stored m e → Stored (snoc m x) e
  also x e h = Stored-mono m (snoc m x) (snoc-Grown m x) e h

  -- Every step keeps to the arena, which grows by the items that the step allocates.
  pub step-Extended :
      (s s' : MmbState) {cmd : ProofCmd} → ProofStep o mode s s' cmd → Allocated m s → Extended m s'
  step-Extended s s' (ref_step i {e = e} found q) al = subst (Extended m) (sym q) (
      no_alloc (record s { stack = e ∷ s.stack }) al refl
        (All-get_elem? (Stored m) s.heap i al.on_heap found, al.on_stack) al.on_heap al.on_hstack)
  step-Extended s s' (dummy_step n e1 e2 q) al = subst (Extended m) (sym q) (
      one_alloc _ _ al refl (new_at m _ al.size, still _ s.stack al.on_stack)
        (All-snoc (Stored _) s.heap _ (still _ s.heap al.on_heap) (new_at m _ al.size))
        (still _ s.hstack al.on_hstack))
  step-Extended s s' (term_step n saved {k = k} {type = type} e1 e2 e3 e4 q) al =
      let x = expr s.next_addr (app n (from_list (top k s.stack)) type) in
      let args =
        All-reverse_aux (Stored m) (take k s.stack) [] (All-take (Stored m) k s.stack al.on_stack)
          tt in
      let new : Stored (snoc m x) x = (
        new_at m x al.size,
        from_list-StoredAll (snoc m x) (top k s.stack) (still x (top k s.stack) args),
      ) in
      subst (Extended m) (sym q) (
        one_alloc _ x al refl
          (new, still x (drop k s.stack) (All-drop (Stored m) k s.stack al.on_stack))
          (saved_alloc (Stored (snoc m x)) saved x s.heap new (still x s.heap al.on_heap))
          (still x s.hstack al.on_hstack))
  step-Extended s s'
        (thm_step n saved {a = a} {rest = rest} {t = t} {sig = sig} {s₁ = s₁} e1 e2 e3 e4 e5 e6 e7
          q)
        al =
      let st = on e3 al.on_stack in
      let al1 : Allocated m s₁ =
        Framed-Allocated (run_unify-Framed u_thm t.unify a _ s₁ u_thm-ne-u_thm_end e7) (record {
          size = al.size;
          on_stack = All-drop (Stored m) (length sig) rest st.1;
          on_heap = al.on_heap;
          on_hstack = al.on_hstack;
        }) in
      let x = proof s₁.next_addr a in
      let new : Stored (snoc m x) x = (new_at m x al1.size, also x a st.0) in
      subst (Extended m) (sym q) (
        one_alloc _ x al1 refl (new, still x s₁.stack al1.on_stack)
          (saved_alloc (Stored (snoc m x)) saved x s₁.heap new (still x s₁.heap al1.on_heap))
          (still x s₁.hstack al1.on_hstack))
  step-Extended s s' (hyp_step {e = e} {rest = rest} e1 e2 e3 e4 e5 q) al =
      let st = on e2 al.on_stack in
      let x = proof s.next_addr e in
      let new : Stored (snoc m x) x = (new_at m x al.size, also x e st.0) in
      subst (Extended m) (sym q) (
        one_alloc _ x al refl (still x rest st.1)
          (All-snoc (Stored (snoc m x)) s.heap x (still x s.heap al.on_heap) new)
          (also x e st.0, still x s.hstack al.on_hstack))
  step-Extended s s' (conv_step {e1 = e1} {e2 = e2} {rest = rest} hs q) al =
      let st = on hs al.on_stack in
      let x = proof s.next_addr e1 in
      let mid : MmbState = record s { stack = x ∷ rest; next_addr = suc s.next_addr } in
      let r : Extended m mid =
        one_alloc mid x al refl ((new_at m x al.size, also x e1 st.1.0), still x rest st.1.1)
          (still x s.heap al.on_heap) (still x s.hstack al.on_hstack) in
      let y = co_conv (suc s.next_addr) e1 e2 in
      let g = snoc-Grown r.arena y in
      let keep = All-mono r.arena (snoc r.arena y) g in
      let one = λ (e : MmbItem) (h : Stored m e).
        Stored-mono r.arena (snoc r.arena y) g e (Stored-mono m r.arena r.grown e h) in
      subst (Extended m) (sym q) (
        Extended-then r (
          one_alloc _ y r.allocated refl
            (
              (new_at r.arena y r.allocated.size, one e1 st.1.0, one e2 st.0.1),
              keep mid.stack r.allocated.on_stack,
            )
            (keep mid.heap r.allocated.on_heap) (keep mid.hstack r.allocated.on_hstack)))
  step-Extended s s' (refl_step {rest = rest} hs e q) al =
      subst (Extended m) (sym q)
        (no_alloc (record s { stack = rest }) al refl (on hs al.on_stack).1 al.on_heap al.on_hstack)
  step-Extended s s' (sym_step {a = a} {b = b} {rest = rest} hs q) al =
      let st = on hs al.on_stack in
      let x = co_conv s.next_addr b a in
      subst (Extended m) (sym q) (
        one_alloc _ x al refl
          ((new_at m x al.size, also x b st.0.2, also x a st.0.1), still x rest st.1)
          (still x s.heap al.on_heap) (still x s.hstack al.on_hstack))
  step-Extended s s' (cong_step {xs = xs} {ys = ys} {rest = rest} hs l q) al =
      let st = on hs al.on_stack in
      subst (Extended m) (sym q) (
        pairs_alloc m xs ys (record s { stack = rest }) st.0.1.1 st.0.2.1
          (record {
            size = al.size;
            on_stack = st.1;
            on_heap = al.on_heap;
            on_hstack = al.on_hstack;
          }))
  step-Extended s s'
        (unfold_step {e_prime = e} {e2 = e2} {ebar = ebar} {r2 = r2} {r3 = r3} {t = t} {s₁ = s₁} hs
          u e3 e4 e5 e6 q)
        al =
      let st = on hs al.on_stack in
      let al1 : Allocated m s₁ =
        Framed-Allocated (run_unify-Framed u_def t.unify e _ s₁ u_def-ne-u_thm_end e4) (record {
          size = al.size;
          on_stack = st.1.1;
          on_heap = al.on_heap;
          on_hstack = al.on_hstack;
        }) in
      let st1 = on e5 al1.on_stack in
      let x = co_conv s₁.next_addr e e2 in
      subst (Extended m) (sym q) (
        one_alloc _ x al1 refl
          ((new_at m x al1.size, also x e st.0, also x e2 st1.0.2), still x r3 st1.1)
          (still x s₁.heap al1.on_heap) (still x s₁.hstack al1.on_hstack))
  step-Extended s s' (conv_cut_step {p = p} {a = a} {b = b} {rest = rest} hs q) al =
      let st = on hs al.on_stack in
      let x = conv s.next_addr a b in
      subst (Extended m) (sym q) (
        one_alloc _ x al refl
          (
            also x (co_conv p a b) st.0,
            ((new_at m x al.size, also x a st.0.1, also x b st.0.2), still x rest st.1),
          )
          (still x s.heap al.on_heap) (still x s.hstack al.on_hstack))
  step-Extended s s' (conv_ref_step i {rest = rest} e hs e1 e2 q) al =
      subst (Extended m) (sym q)
        (no_alloc (record s { stack = rest }) al refl (on hs al.on_stack).1 al.on_heap al.on_hstack)
  step-Extended s s' (conv_save_step {p = p} {a = a} {b = b} {rest = rest} hs q) al =
      let st = on hs al.on_stack in
      subst (Extended m) (sym q) (
        no_alloc _ al refl st.1 (All-snoc (Stored m) s.heap (conv p a b) al.on_heap st.0)
          al.on_hstack)
  step-Extended s s' (save_step {e = e} hs e1 q) al = subst (Extended m) (sym q) (
      no_alloc _ al refl al.on_stack (All-snoc (Stored m) s.heap e al.on_heap (on hs al.on_stack).0)
        al.on_hstack)
