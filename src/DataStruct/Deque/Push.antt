-- ===== src/DataStruct/Deque/Push.antt =====
-- lib/data-struct/deque.c, the calls that add an item.
use odp_libtrace.Prelude.{
  ◌+◌, ◌<◌, ◌^◌, ◌≡◌, ◌≢◌, refl, ap, sym, ◌∙◌, arith, List, [], ◌∷◌, ◌++◌, Option, none, some, Ptr,
  null, length, length-append, add64,
}
use odp_libtrace.DataStruct.Nodes.{Node, node, Heap, read, write, load, set_next, set_prev, free}
use odp_libtrace.DataStruct.Nodes.Chain.{
  first, final, Linked, Linked-write, not-has_of_none, Linked-set_prev, Linked-extend,
}
use odp_libtrace.DataStruct.Deque.{Queue, push_back, push_front}

module _ {A : Type 0} where
  -- The nodes of a queue.
  pub record Holds (h : Heap A) (q : Queue) (xs : List (Ptr × A)) : Type 0 where
    pub head_first : q.head ≡ first xs
    pub tail_final : q.tail ≡ final null xs
    pub counted : q.size ≡ length xs
    pub linked : Linked h null xs

  -- A write through a pointer.
  pub set_next-ok :
      (h : Heap A) (p q : Ptr) (n : Node A)
      → p ≢ null
      → read h p ≡ some n
      → set_next h p q ≡ some (write h p (some (record n { next = q })))
  unfolding set_next load
  set_next-ok h p q n ne r = ground arith

  pub set_prev-ok :
      (h : Heap A) (p q : Ptr) (n : Node A)
      → p ≢ null
      → read h p ≡ some n
      → set_prev h p q ≡ some (write h p (some (record n { prev = q })))
  unfolding set_prev load
  set_prev-ok h p q n ne r = ground arith

  pub free-ok :
      (h : Heap A) (p : Ptr) (n : Node A)
      → p ≢ null
      → read h p ≡ some n
      → free h p ≡ some (write h p none)
  unfolding free load
  free-ok h p n ne r = ground arith

  -- What a call that adds a node leaves.
  pub record Pushed (out : Option (Heap A × Queue)) (xs : List (Ptr × A)) : Type 0 where
    pub heap : Heap A
    pub queue : Queue
    pub returns : out ≡ some (heap, queue)
    pub holds : Holds heap queue xs

  pub final-append :
      (prev z : Ptr) (d : A) (xs : List (Ptr × A)) → final prev (xs ++ ((z, d) ∷ [])) ≡ z
  final-append prev z d [] = refl
  final-append prev z d ((p, x) ∷ xs) = final-append p z d xs

  push_back-step :
      (new : Ptr) (d : A) (h : Heap A) (q : Queue) (g : Heap A)
      → q.head ≢ null
      → q.tail ≢ null
      → set_next (write h new (some (node null null d))) q.tail new ≡ some g
      → push_back new d h q
        ≡ some (
          write g new (some (node null q.tail d)),
          record q { tail = new; size = add64 q.size 1 },
        )
  unfolding push_back
  push_back-step new d h q g n t s = ground arith

  pub push_back-Pushed :
      (new : Ptr) (d : A) (h : Heap A) (q : Queue) (xs : List (Ptr × A))
      → Holds h q xs
      → new ≢ null
      → read h new ≡ none
      → length xs + 1 < 2 ^ 64
      → Pushed (push_back new d h q) (xs ++ ((new, d) ∷ []))
  unfolding push_back
  push_back-Pushed new d h q [] ok ne free room = record {
    heap = write h new (some (node null null d));
    queue = record { head = new; tail = new; size = 1 };
    returns = ground (arith, ok.head_first, ok.tail_final, ok.counted);
    holds = record {
      head_first = refl;
      tail_final = refl;
      counted = omega arith;
      linked = (ne, ground arith, refl, tt);
    };
  }
  push_back-Pushed new d h q ((p, x) ∷ xs) ok ne unused room =
      let h' = write h new (some (node null null d)) in
      let t = final p xs in
      let out = not-has_of_none h null ((p, x) ∷ xs) new unused ok.linked in
      let l = Linked-write h null ((p, x) ∷ xs) new (some (node null null d)) out ok.linked in
      let e = Linked-extend h' null new d p x xs ne out l in
      let q' = record q { tail = t } in
      let g = write h' t (some (record e.last { next = new })) in
      let same : q ≡ q' = ap (λ k. record q { tail = k }) ok.tail_final in
      let linked_tail = set_next-ok h' t new e.last e.exists e.found in
      record {
        heap = write g new (some (node null t d));
        queue = record q { tail = new; size = add64 q.size 1 };
        returns =
            ap (push_back new d h) same
            ∙ push_back-step new d h q' g (ground (arith, ok.head_first, l.0)) e.exists linked_tail;
        holds = record {
          head_first = ok.head_first;
          tail_final = sym (final-append null new d ((p, x) ∷ xs));
          counted = omega (arith, ok.counted, length-append xs ((new, d) ∷ []));
          linked = e.linked;
        };
      }

  push_front-step :
      (new : Ptr) (d : A) (h : Heap A) (q : Queue) (g : Heap A)
      → q.head ≢ null
      → set_prev (write h new (some (node null null d))) q.head new ≡ some g
      → push_front new d h q
        ≡ some (
          write g new (some (node q.head null d)),
          record q { head = new; size = add64 q.size 1 },
        )
  unfolding push_front
  push_front-step new d h q g n s = ground arith

  pub push_front-Pushed :
      (new : Ptr) (d : A) (h : Heap A) (q : Queue) (xs : List (Ptr × A))
      → Holds h q xs
      → new ≢ null
      → read h new ≡ none
      → length xs + 1 < 2 ^ 64
      → Pushed (push_front new d h q) ((new, d) ∷ xs)
  unfolding push_front
  push_front-Pushed new d h q [] ok ne free room = record {
    heap = write h new (some (node null null d));
    queue = record { head = new; tail = new; size = 1 };
    returns = ground (arith, ok.head_first, ok.tail_final, ok.counted);
    holds = record {
      head_first = refl;
      tail_final = refl;
      counted = omega arith;
      linked = (ne, ground arith, refl, tt);
    };
  }
  push_front-Pushed new d h q ((p, x) ∷ xs) ok ne unused room =
      let h' = write h new (some (node null null d)) in
      let out = not-has_of_none h null ((p, x) ∷ xs) new unused ok.linked in
      let l = Linked-write h null ((p, x) ∷ xs) new (some (node null null d)) out ok.linked in
      let q' = record q { head = p } in
      let g = write h' p (some (node (first xs) new x)) in
      let same : q ≡ q' = ap (λ k. record q { head = k }) ok.head_first in
      let linked_head = set_prev-ok h' p new (node (first xs) null x) l.0 l.1 in
      let behind = Linked-set_prev h' null new p x xs l in
      record {
        heap = write g new (some (node p null d));
        queue = record q { head = new; size = add64 q.size 1 };
        returns = ap (push_front new d h) same ∙ push_front-step new d h q' g l.0 linked_head;
        holds = record {
          head_first = refl;
          tail_final = ok.tail_final;
          counted = omega (arith, ok.counted);
          linked = (
            ne,
            ground arith,
            out,
            Linked-write g new ((p, x) ∷ xs) new (some (node p null d)) out behind,
          );
        };
      }
