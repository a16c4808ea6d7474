-- ===== src/DataStruct/Nodes.antt =====
-- The heap of doubly linked nodes that lib/data-struct/deque.c and lib/data-struct/linked_list.c
-- work on. An item of `element_size` bytes is one value; in linked_list.c it has a block of its own,
-- which lives as long as its node.
pub mod Allocator
pub mod Chain
pub mod Sequence
use odp_libtrace.Prelude.{
  ℕ, Bool, true, false, List, [], ◌∷◌, Option, none, some, ◌==◌, if◌then◌else◌, Ptr, null,
}

-- `struct list_node`
pub record Node (A : Type 0) : Type 0 where
  pub next : Ptr
  pub prev : Ptr
  pub item : A

module _ {A : Type 0} where
  abbrev pub node : Ptr → Ptr → A → Node A
  node next prev item = record { next = next; prev = prev; item = item }

  -- The writes to the heap, the latest first; `none` gives an address back.
  abbrev pub read : List (Ptr × Option (Node A)) → Ptr → Option (Node A)
  read [] a = none
  read ((p, c) ∷ h) a = if a == p then c else read h a

  abbrev pub write :
      List (Ptr × Option (Node A)) → Ptr → Option (Node A) → List (Ptr × Option (Node A))
  write h p c = (p, c) ∷ h

abbrev pub Heap : Type 0 → Type 0
Heap A = List (Ptr × Option (Node A))

module _ {A : Type 0} where
  -- `*p`, `none` at NULL and at an address that holds no node.
  unfoldable pub load : Heap A → Ptr → Option (Node A)
  load h p = if p == null then none else read h p

  -- `p->next = q` and `p->prev = q`
  unfoldable pub set_next : Heap A → Ptr → Ptr → Option (Heap A)
  set_next h p q = elim (load h p) [
    | none ↦ none
    | some n ↦ some (write h p (some (record n { next = q })))
  ]

  unfoldable pub set_prev : Heap A → Ptr → Ptr → Option (Heap A)
  set_prev h p q = elim (load h p) [
    | none ↦ none
    | some n ↦ some (write h p (some (record n { prev = q })))
  ]

  unfoldable pub free : Heap A → Ptr → Option (Heap A)
  free h p = elim (load h p) [ none ↦ none | some n ↦ some (write h p none) ]
