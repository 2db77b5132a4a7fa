-- ===== src/Mmb/Soundness/Heap.antt =====
-- src/mmb/proof.rs: the arguments of a declaration stay where `load_args` has put them.
use second_opinion.Prelude.{ℕ, List, [], ◌∷◌, ◌++◌, length, take, ◌≡◌, refl, ap, ◌∙◌, subst}
use second_opinion.Util.Outline.{Outline}
use second_opinion.Mmb.ProofCmd.{Mode}
use second_opinion.Mmb.Item.{MmbItem}
use second_opinion.Mmb.State.{MmbState}
use second_opinion.Mmb.Step.Refinement.{proof_cmd-ProofStep}
use second_opinion.Mmb.Soundness.Longer.{Longer, no_new, Longer-then, step-Longer}
use second_opinion.Mmb.Soundness.Run.{Reaches, start, step}

Reaches-Longer : {o : Outline} {mode : Mode} {s t : MmbState} → Reaches o mode s t → Longer s t
Reaches-Longer start = no_new refl refl
Reaches-Longer {o = o} {mode = mode} (step {t = t} {u = u} cmd r e x) =
    Longer-then (Reaches-Longer r) (step-Longer o mode t u (proof_cmd-ProofStep o mode cmd t u e))

take_append : (h new : List MmbItem) → take (length h) (h ++ new) ≡ h
take_append [] new = refl
take_append (x ∷ h) new = ap (λ (r : List MmbItem). x ∷ r) (take_append h new)

-- The arguments are still the first items of the heap, and the unify stack is empty.
pub Reaches-take :
    {o : Outline} {mode : Mode} (num : ℕ) {s t : MmbState}
    → Reaches o mode s t
    → length s.heap ≡ num
    → s.ustack ≡ []
    → (take num t.heap ≡ s.heap) × (t.ustack ≡ [])
Reaches-take num {s = s} {t = t} r e u =
    let l = Reaches-Longer r in
    (
      subst (λ n. take n t.heap ≡ s.heap) e
          (ap (take (length s.heap)) l.heap_is ∙ take_append s.heap l.new),
      l.cleared u,
    )
