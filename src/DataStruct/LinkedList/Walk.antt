-- ===== src/DataStruct/LinkedList/Walk.antt =====
-- lib/data-struct/linked_list.c, the calls that walk along the nodes.
use odp_libtrace.Prelude.{
  ℕ, zero, suc, ◌≤◌, ◌<◌, ◌≡◌, ◌≢◌, refl, ap, ◌∙◌, sym, arith, List, [], ◌∷◌, Option, none, some,
  if◌then◌else◌, Ptr, null, length, get_elem?, dec_lt,
}
use mathlib.Core.Path.{subst}
use odp_libtrace.DataStruct.Nodes.{Node, node, Heap, read, load, write, free}
use odp_libtrace.DataStruct.Nodes.Chain.{has, first, Linked, items, Linked-write}
use odp_libtrace.DataStruct.Deque.Push.{Holds}
use odp_libtrace.DataStruct.LinkedList.{LinkedList, walk, get_index, free_nodes, deinit}

module _ {A : Type 0} where
  -- NULL where there is no item, and else a node that bears it.
  pub data Indexed (h : Heap A) : Option Ptr → Option A → Type 0 where
    past : Indexed h (some null) none
    at : {p : Ptr} {n : Node A} → p ≢ null → read h p ≡ some n → Indexed h (some p) (some n.item)

  walk-more :
      (h : Heap A) (index : ℕ) (p : Ptr) (n : Node A)
      → p ≢ null
      → read h p ≡ some n
      → n.next ≢ null
      → walk (suc index) h p ≡ walk index h n.next
  unfolding walk load
  walk-more h index p n ne r more = ground arith

  walk-Indexed :
      (h : Heap A) (prev : Ptr) (index : ℕ) (p : Ptr) (x : A) (xs : List (Ptr × A))
      → Linked h prev ((p, x) ∷ xs)
      → index < length ((p, x) ∷ xs)
      → Indexed h (walk index h p) (get_elem? (items ((p, x) ∷ xs)) index)
  unfolding walk
  walk-Indexed h prev zero p x xs l i = at l.0 l.1
  walk-Indexed h prev (suc index) p x [] l i = absurd (omega arith)
  walk-Indexed h prev (suc index) p x ((q, y) ∷ xs) l i =
      let e = walk-more h index p (node q prev x) l.0 l.1 (l.3).0 in
      subst (λ w. Indexed h w (get_elem? (items ((q, y) ∷ xs)) index)) (sym e)
        (walk-Indexed h p index q y xs l.3 (omega arith))

  get_index-past :
      (h : Heap A) (l : LinkedList) (index : ℕ) → l.size ≤ index → get_index h l index ≡ some null
  unfolding get_index
  get_index-past h l index le = ground arith

  get_index-walk :
      (h : Heap A) (l : LinkedList) (index : ℕ) (p : Ptr)
      → l.head ≡ p
      → index < l.size
      → get_index h l index ≡ walk index h p
  unfolding get_index
  get_index-walk h l index p e lt = ground (arith, ap (walk index h) e)

  get_elem?-past : (xs : List (Ptr × A)) (i : ℕ) → length xs ≤ i → get_elem? (items xs) i ≡ none
  get_elem?-past [] i h = refl
  get_elem?-past (x ∷ xs) zero h = absurd (omega arith)
  get_elem?-past (x ∷ xs) (suc i) h = get_elem?-past xs i (omega arith)

  -- get_index of a list returns the node of the item at that index, or NULL past the last item.
  pub get_index-Indexed :
      (h : Heap A) (l : LinkedList) (index : ℕ) (xs : List (Ptr × A))
      → Holds h l xs
      → Indexed h (get_index h l index) (get_elem? (items xs) index)
  get_index-Indexed h l index [] ok =
      subst (λ w. Indexed h w none) (sym (get_index-past h l index (omega (arith, ok.counted))))
        past
  get_index-Indexed h l index ((p, x) ∷ xs) ok = elim (dec_lt index l.size) [
    | yes lt ↦
        subst (λ w. Indexed h w (get_elem? (items ((p, x) ∷ xs)) index))
          (sym (get_index-walk h l index p ok.head_first lt))
          (walk-Indexed h null index p x xs ok.linked (omega (arith, ok.counted)))
    | no n ↦
        subst (λ w. Indexed h w (get_elem? (items ((p, x) ∷ xs)) index))
          (sym (get_index-past h l index (omega arith)))
          (subst (λ o. Indexed h (some null) o)
            (sym (get_elem?-past ((p, x) ∷ xs) index (omega (arith, ok.counted)))) past)
  ]

  free_nodes-step :
      (fuel : ℕ) (h : Heap A) (p : Ptr) (n : Node A)
      → p ≢ null
      → read h p ≡ some n
      → free_nodes (suc fuel) h p ≡ free_nodes fuel (write h p none) n.next
  unfolding free_nodes load free
  free_nodes-step fuel h p n ne r = ground arith

  -- What is left once the nodes `xs` are given back.
  record Freed (h : Heap A) (xs : List (Ptr × A)) (out : Option (Heap A)) : Type 0 where
    pub heap : Heap A
    pub returns : out ≡ some heap
    pub rest : (a : Ptr) → read heap a ≡ (if has a xs then none else read h a)

  free_nodes-Freed :
      (fuel : ℕ) (h : Heap A) (prev : Ptr) (xs : List (Ptr × A))
      → Linked h prev xs
      → length xs < fuel
      → Freed h xs (free_nodes fuel h (first xs))
  unfolding free_nodes
  free_nodes-Freed zero h prev xs l enough = absurd (omega arith)
  free_nodes-Freed (suc fuel) h prev [] l enough = record {
    heap = h;
    returns = refl;
    rest = λ a. refl;
  }
  free_nodes-Freed (suc fuel) h prev ((p, x) ∷ xs) l enough =
      let g = write h p none in
      let f = free_nodes-Freed fuel g p xs (Linked-write h p xs p none l.2 l.3) (omega arith) in
      record {
        heap = f.heap;
        returns = free_nodes-step fuel h p (node (first xs) prev x) l.0 l.1 ∙ f.returns;
        rest = λ a. ground (arith, f.rest a);
      }

  -- deinit of a list ends, touches no memory that is not in use, gives back every node and leaves
  -- everything else as it was.
  pub deinit_lem :
      (h : Heap A) (l : LinkedList) (xs : List (Ptr × A))
      → Holds h l xs
      → (g : Heap A) × (deinit h (some l) ≡ some g)
        × ((a : Ptr) → read g a ≡ (if has a xs then none else read h a))
  unfolding deinit
  deinit_lem h l xs ok =
      let f = free_nodes-Freed (suc l.size) h null xs ok.linked (omega (arith, ok.counted)) in
      (f.heap, ap (free_nodes (suc l.size) h) ok.head_first ∙ f.returns, f.rest)
