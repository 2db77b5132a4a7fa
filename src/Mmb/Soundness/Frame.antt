-- ===== src/Mmb/Soundness/Frame.antt =====
-- src/mmb/unify.rs: what `run_unify` leaves alone.
use second_opinion.Prelude.{
  ℕ, suc, Bool, List, [], ◌∷◌, ◌++◌, length, ◌≡◌, ◌≢◌, ◌==◌, refl, sym, ap, ◌∙◌, append_assoc, ok,
  err≢ok, ok_inj, guarded, none_err, unwrap, >>=-eq-ok, ◌>>=◌, arith,
}
use second_opinion.Util.Ty.{sort, bound_digit}
use second_opinion.Util.Cmd.{for_cmds}
use second_opinion.Util.Cmd.Loop.{for_cmds_keeps}
use second_opinion.Mmb.UnifyCmd.{UnifyCmd, UnifyIter, unify_next}
use second_opinion.Mmb.Item.{MmbItem, var, app, expr, proof, conv, co_conv}
use second_opinion.Mmb.State.{MmbState}
use second_opinion.Mmb.Unify.{
  UMode, u_thm, u_def, u_thm_end, pop?, unify_ref, unify_term, unify_term_at, unify_dummy,
  unify_dummy_at, unify_hyp, proved, fresh_for, is_u_def, unify_cmd, unify_end, run_unify,
}

-- Proofs, and nothing else.
pub data OnlyProofs : List MmbItem → Type 0 where
  no_proofs : OnlyProofs []
  one_proof : {p : ℕ} {e : MmbItem} {r : List MmbItem} → OnlyProofs r → OnlyProofs (proof p e ∷ r)

-- The unifier keeps the heap and the hypotheses, allocates nothing, and takes proofs off the stack.
pub record Framed (s t : MmbState) : Type 0 where
  pub same_next : t.next_addr ≡ s.next_addr
  pub same_heap : t.heap ≡ s.heap
  pub same_hstack : t.hstack ≡ s.hstack
  pub popped : List MmbItem
  pub took : s.stack ≡ popped ++ t.stack
  pub were_proofs : OnlyProofs popped

abbrev Kept : MmbState → MmbState → Type 0
Kept s t =
    (t.next_addr ≡ s.next_addr) × (t.heap ≡ s.heap) × (t.hstack ≡ s.hstack) × (t.stack ≡ s.stack)

ref_Kept : (i : ℕ) (s t : MmbState) → unify_ref i s ≡ ok t → Kept s t
unfolding unify_ref
ref_Kept i s t h = ground arith

term_at_Kept :
    (n : ℕ) (save : Bool) (e : MmbItem) (us : List MmbItem) (s t : MmbState)
    → unify_term_at n save e us s ≡ ok t
    → Kept s t
unfolding unify_term_at
term_at_Kept n save (expr p (app m xs ty)) us s t h = ground arith
term_at_Kept n save (expr p (var idx ty)) us s t h = absurd (err≢ok h)
term_at_Kept n save (proof p e) us s t h = absurd (err≢ok h)
term_at_Kept n save (conv p a b) us s t h = absurd (err≢ok h)
term_at_Kept n save (co_conv p a b) us s t h = absurd (err≢ok h)

dummy_at_Kept :
    (n : ℕ) (e : MmbItem) (us : List MmbItem) (s t : MmbState)
    → unify_dummy_at n e us s ≡ ok t
    → Kept s t
unfolding unify_dummy_at
dummy_at_Kept n (expr p (app m xs ty)) us s t h = absurd (err≢ok h)
dummy_at_Kept n (expr p (var idx ty)) us s t h =
    let (same, h1) = guarded (n == sort ty) _ h in
    let (digit, e1, h2) = >>=-eq-ok (bound_digit ty) _ h1 in
    let (u, e2, h3) = >>=-eq-ok (fresh_for digit s.uheap) _ h2 in kept (ok_inj h3)
  where
    kept : {r : MmbState} → r ≡ t → Kept r t
    kept q = (
      ap (λ (v : MmbState). v.next_addr) (sym q),
      ap (λ (v : MmbState). v.heap) (sym q),
      ap (λ (v : MmbState). v.hstack) (sym q),
      ap (λ (v : MmbState). v.stack) (sym q),
    )
dummy_at_Kept n (proof p e) us s t h = absurd (err≢ok h)
dummy_at_Kept n (conv p a b) us s t h = absurd (err≢ok h)
dummy_at_Kept n (co_conv p a b) us s t h = absurd (err≢ok h)

term_Kept : (n : ℕ) (save : Bool) (s t : MmbState) → unify_term n save s ≡ ok t → Kept s t
unfolding unify_term
term_Kept n save s t h =
    let (r, e1, h1) = >>=-eq-ok (none_err (pop? s.ustack)) _ h in term_at_Kept n save r.0 r.1 s t h1

dummy_Kept : (mode : UMode) (n : ℕ) (s t : MmbState) → unify_dummy mode n s ≡ ok t → Kept s t
unfolding unify_dummy
dummy_Kept mode n s t h =
    let (m, h1) = guarded (is_u_def mode) _ h in
    let (r, e1, h2) = >>=-eq-ok (unwrap (pop? s.ustack)) _ h1 in dummy_at_Kept n r.0 r.1 s t h2

OnlyProofs-snoc :
    (p : ℕ) (e : MmbItem) (xs : List MmbItem) → OnlyProofs xs → OnlyProofs (xs ++ proof p e ∷ [])
OnlyProofs-snoc p e [] no_proofs = one_proof no_proofs
OnlyProofs-snoc p e (x ∷ xs) (one_proof r) = one_proof (OnlyProofs-snoc p e xs r)

keep_Kept : (s t t' : MmbState) → Framed s t → Kept t t' → Framed s t'
keep_Kept s t t' f (next, h, hs, st) = record {
  same_next = next ∙ f.same_next;
  same_heap = h ∙ f.same_heap;
  same_hstack = hs ∙ f.same_hstack;
  popped = f.popped;
  took = f.took ∙ ap (λ (r : List MmbItem). f.popped ++ r) (sym st);
  were_proofs = f.were_proofs;
}

hyp_Framed :
    (s t t' : MmbState) (st : List MmbItem)
    → Framed s t
    → t.stack ≡ st
    → (do
      (p, rest) ← none_err (pop? st)
      e ← proved p
      ok (record t { stack = rest; ustack = e ∷ t.ustack }))
      ≡ ok t'
    → Framed s t'
unfolding proved
hyp_Framed s t t' [] f q h = absurd (err≢ok h)
hyp_Framed s t t' (expr p e ∷ rest) f q h = absurd (err≢ok h)
hyp_Framed s t t' (conv p a b ∷ rest) f q h = absurd (err≢ok h)
hyp_Framed s t t' (co_conv p a b ∷ rest) f q h = absurd (err≢ok h)
hyp_Framed s t t' (proof p e ∷ rest) f q h =
    let new : record t { stack = rest; ustack = e ∷ t.ustack } ≡ t' = ok_inj h in
    record {
      same_next = ap (λ (v : MmbState). v.next_addr) (sym new) ∙ f.same_next;
      same_heap = ap (λ (v : MmbState). v.heap) (sym new) ∙ f.same_heap;
      same_hstack = ap (λ (v : MmbState). v.hstack) (sym new) ∙ f.same_hstack;
      popped = f.popped ++ proof p e ∷ [];
      took =
          f.took
          ∙ ap (λ (r : List MmbItem). f.popped ++ r) q
          ∙ sym (append_assoc f.popped (proof p e ∷ []) rest)
          ∙ ap (λ (v : MmbState). (f.popped ++ proof p e ∷ []) ++ v.stack) new;
      were_proofs = OnlyProofs-snoc p e f.popped f.were_proofs;
    }

cmd_Framed :
    (mode : UMode) (c : UnifyCmd) (s t t' : MmbState)
    → mode ≢ u_thm_end
    → Framed s t
    → unify_cmd mode c t ≡ ok t'
    → Framed s t'
unfolding unify_cmd unify_hyp
cmd_Framed mode (UnifyCmd.ref i) s t t' m f h = keep_Kept s t t' f (ref_Kept i t t' h)
cmd_Framed mode (UnifyCmd.term n save) s t t' m f h = keep_Kept s t t' f (term_Kept n save t t' h)
cmd_Framed mode (UnifyCmd.dummy n) s t t' m f h = keep_Kept s t t' f (dummy_Kept mode n t t' h)
cmd_Framed u_thm UnifyCmd.hyp s t t' m f h = hyp_Framed s t t' t.stack f refl h
cmd_Framed u_def UnifyCmd.hyp s t t' m f h = absurd (err≢ok h)
cmd_Framed u_thm_end UnifyCmd.hyp s t t' m f h = absurd (m refl)

end_Kept : (mode : UMode) (s t : MmbState) → mode ≢ u_thm_end → unify_end mode s ≡ ok t → Kept s t
unfolding unify_end
end_Kept u_thm s t m h = ground arith
end_Kept u_def s t m h = ground arith
end_Kept u_thm_end s t m h = absurd (m refl)

-- Where it is no declaration that is checked, the unifier keeps the heap and the hypotheses, and
-- takes proofs off the stack.
pub run_unify-Framed :
    (mode : UMode) (unify : UnifyIter) (tgt : MmbItem) (s t : MmbState)
    → mode ≢ u_thm_end
    → run_unify mode unify tgt s ≡ ok t
    → Framed s t
unfolding run_unify
run_unify-Framed mode unify tgt s t m h =
    let (r, e1, h1) =
      >>=-eq-ok
        (for_cmds (unify_next unify.buf) (unify_cmd mode) (suc (length unify.buf)) unify.pos
          (record s { ustack = tgt ∷ s.ustack }))
        _ h in
    keep_Kept s r t
      (for_cmds_keeps (unify_next unify.buf) (unify_cmd mode) (Framed s)
        (λ c a b f q. cmd_Framed mode c s a b m f q) (suc (length unify.buf)) unify.pos
        (record s { ustack = tgt ∷ s.ustack }) r
        (record {
          same_next = refl;
          same_heap = refl;
          same_hstack = refl;
          popped = [];
          took = refl;
          were_proofs = no_proofs;
        })
        e1)
      (end_Kept mode r t m h1)
