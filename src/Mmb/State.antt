-- ===== src/Mmb/State.antt =====
-- src/mmb/mod.rs: the state of the stack machine. A stack is a list with its top at the head, so
-- the last `n` elements of the vector, in its order, are `top n`; a heap is read by index and
-- grows at its end.
use second_opinion.Prelude.{
  ℕ, suc, ◌*◌, ◌/◌, ◌^◌, List, [], ◌∷◌, take, snoc, ◌==◌, Res, ok, assert, fits, ◌>>=◌, ◌>>◌,
}
use second_opinion.Mmb.Item.{MmbItem}
use mathlib.Core.List.{reverse}

-- `next_addr` stands for the arena: the address of the next allocation.
pub record MmbState : Type 0 where
  pub stack : List MmbItem
  pub heap : List MmbItem
  pub ustack : List MmbItem
  pub uheap : List MmbItem
  pub hstack : List MmbItem
  pub next_bv : ℕ
  pub next_addr : ℕ

abbrev pub init_state : MmbState
init_state = record {
  stack = [];
  heap = [];
  ustack = [];
  uheap = [];
  hstack = [];
  next_bv = 1;
  next_addr = 0;
}

-- The last `n` elements of a vector that is kept with its last element at the head.
abbrev pub top {ℓ} : {A : Type ℓ} → ℕ → List A → List A
top n s = reverse (take n s)

-- `bump.alloc` of an item, given the item at each address, and the push of the new reference.
abbrev pub push_new : (ℕ → MmbItem) → MmbState → MmbState
push_new item s = record s { stack = item s.next_addr ∷ s.stack; next_addr = suc s.next_addr }

abbrev pub push : MmbItem → MmbState → MmbState
push e s = record s { stack = e ∷ s.stack }

abbrev pub push_heap : MmbItem → MmbState → MmbState
push_heap e s = record s { heap = snoc s.heap e }

-- The digit of the next bound variable. More than 56 bound variables are a panic.
unfoldable pub take_next_bv : MmbState → Res (ℕ × MmbState)
take_next_bv s = do
  assert (s.next_bv / 2 ^ 56 == 0)
  n ← fits 64 (s.next_bv * 2)
  ok (s.next_bv, record s { next_bv = n })
