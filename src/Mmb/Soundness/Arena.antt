-- ===== src/Mmb/Soundness/Arena.antt =====
-- src/mmb/mod.rs and src/mmb/proof.rs: the arena. Every item stands at its address, so that two references
-- with the same address are the same item.
use second_opinion.Prelude.{
  ℕ, suc, Bool, true, false, List, [], ◌∷◌, ◌++◌, snoc, length, length-snoc, get_elem?, All,
  All-snoc, Grown, snoc-Grown, get_elem?-snoc_last, some_inj, if◌then◌else◌, ◌≡◌, refl, sym, ap,
  ◌∙◌, subst, some,
}
use second_opinion.Mmb.Item.{
  MmbItem, MmbItems, nil, cons, app, var, expr, proof, conv, co_conv, from_list, address,
}
use second_opinion.Mmb.State.{MmbState}
use second_opinion.Mmb.Proof.Conv.{push_pairs}
use second_opinion.Mmb.Soundness.Frame.{Framed}

-- The item stands at its address in the arena, and so do those that it refers to.
abbrev mutual
  pub Stored : List MmbItem → MmbItem → Type 0
  Stored m (expr p (var i t)) = get_elem? m p ≡ some (expr p (var i t))
  Stored m (expr p (app n xs t)) = (get_elem? m p ≡ some (expr p (app n xs t))) × StoredAll m xs
  Stored m (proof p e) = (get_elem? m p ≡ some (proof p e)) × Stored m e
  Stored m (conv p a b) = (get_elem? m p ≡ some (conv p a b)) × Stored m a × Stored m b
  Stored m (co_conv p a b) = (get_elem? m p ≡ some (co_conv p a b)) × Stored m a × Stored m b

  pub StoredAll : List MmbItem → MmbItems → Type 0
  StoredAll m nil = Unit
  StoredAll m (cons x xs) = Stored m x × StoredAll m xs

found_at : (m : List MmbItem) (x : MmbItem) → Stored m x → get_elem? m (address x) ≡ some x
found_at m (expr p (var i t)) h = h
found_at m (expr p (app n xs t)) h = h.0
found_at m (proof p e) h = h.0
found_at m (conv p a b) h = h.0
found_at m (co_conv p a b) h = h.0

-- The pointer test of `Refl` is an equality of items.
pub same_address :
    (m : List MmbItem) (a b : MmbItem) → Stored m a → Stored m b → address a ≡ address b → a ≡ b
same_address m a b h k e =
    some_inj (found_at m a h) (subst (λ p. get_elem? m p ≡ some b) (sym e) (found_at m b k))

module _ (m m' : List MmbItem) (g : Grown m m') where
  mutual
    pub Stored-mono : (x : MmbItem) → Stored m x → Stored m' x
    Stored-mono (expr p (var i t)) h = g p _ h
    Stored-mono (expr p (app n xs t)) h = (g p _ h.0, StoredAll-mono xs h.1)
    Stored-mono (proof p e) h = (g p _ h.0, Stored-mono e h.1)
    Stored-mono (conv p a b) h = (g p _ h.0, Stored-mono a h.1, Stored-mono b h.2)
    Stored-mono (co_conv p a b) h = (g p _ h.0, Stored-mono a h.1, Stored-mono b h.2)

    StoredAll-mono : (xs : MmbItems) → StoredAll m xs → StoredAll m' xs
    StoredAll-mono nil h = tt
    StoredAll-mono (cons x xs) h = (Stored-mono x h.0, StoredAll-mono xs h.1)

  pub All-mono : (xs : List MmbItem) → All (Stored m) xs → All (Stored m') xs
  All-mono [] h = tt
  All-mono (x ∷ xs) h = (Stored-mono x h.0, All-mono xs h.1)

-- Every item of the state is in the arena, which is as long as the next address says.
pub record Allocated (m : List MmbItem) (s : MmbState) : Type 0 where
  pub size : length m ≡ s.next_addr
  pub on_stack : All (Stored m) s.stack
  pub on_heap : All (Stored m) s.heap
  pub on_hstack : All (Stored m) s.hstack

-- A state in a longer arena.
pub record Extended (m : List MmbItem) (s : MmbState) : Type 0 where
  pub arena : List MmbItem
  pub grown : Grown m arena
  pub allocated : Allocated arena s

pub Extended-then :
    {m : List MmbItem} {s t : MmbState} (e : Extended m s) → Extended e.arena t → Extended m t
Extended-then e f = record {
  arena = f.arena;
  grown = λ i x h. f.grown i x (e.grown i x h);
  allocated = f.allocated;
}

-- The next address is that of the new item.
pub new_at :
    (m : List MmbItem) {p : ℕ} (x : MmbItem) → length m ≡ p → get_elem? (snoc m x) p ≡ some x
new_at m x e = subst (λ n. get_elem? (snoc m x) n ≡ some x) e (get_elem?-snoc_last m x)

-- Nothing is allocated.
pub no_alloc :
    {m : List MmbItem} {s : MmbState} (t : MmbState)
    → Allocated m s
    → t.next_addr ≡ s.next_addr
    → All (Stored m) t.stack
    → All (Stored m) t.heap
    → All (Stored m) t.hstack
    → Extended m t
no_alloc {m = m} t al e st hp hs = record {
  arena = m;
  grown = λ i x h. h;
  allocated = record { size = al.size ∙ sym e; on_stack = st; on_heap = hp; on_hstack = hs };
}

-- One item is allocated.
pub one_alloc :
    {m : List MmbItem} {s : MmbState} (t : MmbState) (x : MmbItem)
    → Allocated m s
    → t.next_addr ≡ suc s.next_addr
    → All (Stored (snoc m x)) t.stack
    → All (Stored (snoc m x)) t.heap
    → All (Stored (snoc m x)) t.hstack
    → Extended m t
one_alloc {m = m} t x al e st hp hs = record {
  arena = snoc m x;
  grown = snoc-Grown m x;
  allocated = record {
    size = length-snoc m x ∙ ap suc al.size ∙ sym e;
    on_stack = st;
    on_heap = hp;
    on_hstack = hs;
  };
}

pub from_list-StoredAll : (m xs : List MmbItem) → All (Stored m) xs → StoredAll m (from_list xs)
from_list-StoredAll m [] h = tt
from_list-StoredAll m (x ∷ xs) h = (h.0, from_list-StoredAll m xs h.1)

All-behind : (P : MmbItem → Type 0) (xs ys : List MmbItem) → All P (xs ++ ys) → All P ys
All-behind P [] ys h = h
All-behind P (x ∷ xs) ys h = All-behind P xs ys h.1

-- The unifier allocates nothing.
pub Framed-Allocated :
    {m : List MmbItem} {s t : MmbState} → Framed s t → Allocated m s → Allocated m t
Framed-Allocated {m = m} {s = s} {t = t} f al = record {
  size = al.size ∙ sym f.same_next;
  on_stack = All-behind (Stored m) f.popped t.stack (subst (All (Stored m)) f.took al.on_stack);
  on_heap = subst (All (Stored m)) (sym f.same_heap) al.on_heap;
  on_hstack = subst (All (Stored m)) (sym f.same_hstack) al.on_hstack;
}

pub saved_alloc :
    (P : MmbItem → Type 0) (saved : Bool) (e : MmbItem) (heap : List MmbItem)
    → P e
    → All P heap
    → All P (if saved then snoc heap e else heap)
saved_alloc P true e heap h hh = All-snoc P heap e hh h
saved_alloc P false e heap h hh = hh

-- The obligations of `Cong`.
pub pairs_alloc :
    (m : List MmbItem) (xs ys : MmbItems) (s : MmbState)
    → StoredAll m xs
    → StoredAll m ys
    → Allocated m s
    → Extended m (push_pairs xs ys s)
unfolding push_pairs
pairs_alloc m nil ys s h k al = no_alloc s al refl al.on_stack al.on_heap al.on_hstack
pairs_alloc m (cons x xs) nil s h k al = no_alloc s al refl al.on_stack al.on_heap al.on_hstack
pairs_alloc m (cons x xs) (cons y ys) s h k al =
    let r = pairs_alloc m xs ys s h.1 k.1 al in
    let t = push_pairs xs ys s in
    let item = co_conv t.next_addr x y in
    let new = snoc r.arena item in
    let g : Grown m new = λ i z e. snoc-Grown r.arena item i z (r.grown i z e) in
    let keep = All-mono r.arena new (snoc-Grown r.arena item) in
    Extended-then r (
      one_alloc (push_pairs (cons x xs) (cons y ys) s) item r.allocated refl
        (
          (
            new_at r.arena item r.allocated.size,
            Stored-mono m new g x h.0,
            Stored-mono m new g y k.0,
          ),
          keep t.stack r.allocated.on_stack,
        )
        (keep t.heap r.allocated.on_heap) (keep t.hstack r.allocated.on_hstack))
