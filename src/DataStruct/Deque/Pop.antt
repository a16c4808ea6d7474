-- ===== src/DataStruct/Deque/Pop.antt =====
-- lib/data-struct/deque.c, the calls that take an item off.
use odp_libtrace.Prelude.{
  ℕ, ◌<◌, ◌^◌, ◌≡◌, ◌≢◌, refl, ap, ◌∙◌, arith, false, List, [], ◌∷◌, ◌++◌, Option, none, some, leb,
  if◌then◌else◌, Ptr, null, length, length-append, sub64,
}
use odp_libtrace.DataStruct.Nodes.{Node, node, Heap, read, write, load, set_next, free}
use odp_libtrace.DataStruct.Nodes.Chain.{
  has, first, final, Linked, Linked-write, Linked-set_prev, Linked-shorten, read-last, outside_head,
  read-write, final-has, apart_of_has,
}
use odp_libtrace.DataStruct.Deque.{
  Queue, clear_prev, clear_next, unlink_front, pop_front, unlink_tail, pop_tail,
}
use odp_libtrace.DataStruct.Deque.Push.{Holds, set_next-ok, set_prev-ok, free-ok, final-append}

module _ {A : Type 0} where
  -- What a call that takes off the item `x` leaves.
  pub record Popped (out : Option (Option A × Heap A × Queue)) (x : A) (xs : List (Ptr × A))
      : Type 0 where
    pub heap : Heap A
    pub queue : Queue
    pub returns : out ≡ some (some x, heap, queue)
    pub holds : Holds heap queue xs

  pub pop_front-none : (h : Heap A) (q : Queue) → q.head ≡ null → pop_front h q ≡ some (none, h, q)
  unfolding pop_front
  pop_front-none h q e = ground arith

  pub pop_tail-none : (h : Heap A) (q : Queue) → q.tail ≡ null → pop_tail h q ≡ some (none, h, q)
  unfolding pop_tail
  pop_tail-none h q e = ground arith

  pop_front-step :
      (h g g' : Heap A) (q : Queue) (n : Node A)
      → q.head ≢ null
      → read h q.head ≡ some n
      → clear_prev h n.next ≡ some g
      → free g q.head ≡ some g'
      → pop_front h q
        ≡ some (
          some n.item,
          g',
          record {
            head = n.next;
            size = sub64 q.size 1;
            tail = if leb (sub64 q.size 1) 1 then n.next else q.tail;
          },
        )
  unfolding pop_front load unlink_front
  pop_front-step h g g' q n ne r c f = ground arith

  pop_tail-step :
      (h g g' : Heap A) (q : Queue) (n : Node A)
      → q.tail ≢ null
      → read h q.tail ≡ some n
      → clear_next h n.prev ≡ some g
      → free g q.tail ≡ some g'
      → pop_tail h q
        ≡ some (
          some n.item,
          g',
          record {
            tail = n.prev;
            size = sub64 q.size 1;
            head = if leb (sub64 q.size 1) 1 then n.prev else q.head;
          },
        )
  unfolding pop_tail load unlink_tail
  pop_tail-step h g g' q n ne r c f = ground arith

  -- The two ends of a queue of at most one node are the same.
  tail_fixed :
      (p : Ptr) (x : A) (xs : List (Ptr × A)) (size : ℕ)
      → size ≡ length xs
      → (if leb size 1 then first xs else final p xs) ≡ final null xs
  tail_fixed p x [] size e = ground arith
  tail_fixed p x ((a, y) ∷ []) size e = ground arith
  tail_fixed p x ((a, y) ∷ (b, z) ∷ xs) size e = ground arith

  head_fixed :
      (z : Ptr) (d : A) (xs : List (Ptr × A)) (size : ℕ)
      → size ≡ length xs
      → (if leb size 1 then final null xs else first (xs ++ ((z, d) ∷ []))) ≡ first xs
  head_fixed z d [] size e = ground arith
  head_fixed z d ((a, y) ∷ []) size e = ground arith
  head_fixed z d ((a, y) ∷ (b, w) ∷ xs) size e = ground arith

  not-has-last :
      (h : Heap A) (prev z : Ptr) (d : A) (xs : List (Ptr × A))
      → Linked h prev (xs ++ ((z, d) ∷ []))
      → has z xs ≡ false
  not-has-last h prev z d [] l = refl
  not-has-last h prev z d ((p, x) ∷ xs) l = (Linked-shorten h prev z d p x xs l).apart

  -- The rest of the chain, once the first node is gone.
  record Unlinked (out : Option (Heap A)) (z : Ptr) (n : Node A) (xs : List (Ptr × A))
      : Type 0 where
    pub heap : Heap A
    pub returns : out ≡ some heap
    pub kept : read heap z ≡ some n
    pub linked : Linked heap null xs

  front-Unlinked :
      (h : Heap A) (p : Ptr) (x : A) (xs : List (Ptr × A))
      → Linked h null ((p, x) ∷ xs)
      → Unlinked (clear_prev h (first xs)) p (node (first xs) null x) xs
  unfolding clear_prev
  front-Unlinked h p x [] (n, r, o, l) = record {
    heap = h;
    returns = ground arith;
    kept = r;
    linked = tt;
  }
  front-Unlinked h p x ((b, y) ∷ ys) (n, r, o, l) =
      let c = some (node (first ys) null y) in
      let (e, _) = outside_head p b y ys o in
      record {
        heap = write h b c;
        returns = ground (arith, l.0, set_prev-ok h b null (node (first ys) p y) l.0 l.1);
        kept = read-write h b p c e ∙ r;
        linked = Linked-set_prev h p null b y ys l;
      }

  clear_next-some :
      (h : Heap A) (p : Ptr) (g : Heap A)
      → p ≢ null
      → set_next h p null ≡ some g
      → clear_next h p ≡ some g
  unfolding clear_next
  clear_next-some h p g ne e = ground arith

  tail-Unlinked :
      (h : Heap A) (z : Ptr) (d : A) (xs : List (Ptr × A))
      → Linked h null (xs ++ ((z, d) ∷ []))
      → Unlinked (clear_next h (final null xs)) z (node null (final null xs) d) xs
  unfolding clear_next
  tail-Unlinked h z d [] l = record { heap = h; returns = ground arith; kept = l.1; linked = tt }
  tail-Unlinked h z d ((p, x) ∷ xs) l =
      let s = Linked-shorten h null z d p x xs l in
      let c = some (record s.last { next = null }) in
      let (_, r) = read-last h null z d ((p, x) ∷ xs) l in
      record {
        heap = write h (final p xs) c;
        returns =
            clear_next-some h (final p xs) (write h (final p xs) c) s.exists
              (set_next-ok h (final p xs) null s.last s.exists s.found);
        kept =
            read-write h (final p xs) z c
              (apart_of_has (final p xs) z ((p, x) ∷ xs) (final-has null p x xs) s.apart)
            ∙ r;
        linked = s.linked;
      }

  pub pop_front-Popped :
      (h : Heap A) (q : Queue) (p : Ptr) (x : A) (xs : List (Ptr × A))
      → Holds h q ((p, x) ∷ xs)
      → q.size < 2 ^ 64
      → Popped (pop_front h q) x xs
  pop_front-Popped h q p x xs ok small =
      let l = ok.linked in
      let u = front-Unlinked h p x xs l in
      let q' = record q { head = p; tail = final p xs } in
      let same : q ≡ q' = λ i. record q { head = ok.head_first i; tail = ok.tail_final i } in
      let n = node (first xs) null x in
      record {
        heap = write u.heap p none;
        queue = record {
          head = first xs;
          size = sub64 q.size 1;
          tail = if leb (sub64 q.size 1) 1 then first xs else final p xs;
        };
        returns =
            ap (pop_front h) same
            ∙ pop_front-step h u.heap (write u.heap p none) q' n l.0 l.1 u.returns
                (free-ok u.heap p n l.0 u.kept);
        holds = record {
          head_first = refl;
          tail_final = tail_fixed p x xs (sub64 q.size 1) (omega (arith, ok.counted));
          counted = omega (arith, ok.counted);
          linked = Linked-write u.heap null xs p none l.2 u.linked;
        };
      }

  pub pop_tail-Popped :
      (h : Heap A) (q : Queue) (z : Ptr) (d : A) (xs : List (Ptr × A))
      → Holds h q (xs ++ ((z, d) ∷ []))
      → q.size < 2 ^ 64
      → Popped (pop_tail h q) d xs
  pop_tail-Popped h q z d xs ok small =
      let l = ok.linked in
      let u = tail-Unlinked h z d xs l in
      let (ne, r) = read-last h null z d xs l in
      let t = final null xs in
      let out = not-has-last h null z d xs l in
      let q' = record q { tail = z } in
      let e : q.tail ≡ z = ok.tail_final ∙ final-append null z d xs in
      let same : q ≡ q' = ap (λ k. record q { tail = k }) e in
      let n = node null t d in
      let counted : sub64 q.size 1 ≡ length xs =
        omega (arith, ok.counted, length-append xs ((z, d) ∷ [])) in
      record {
        heap = write u.heap z none;
        queue = record {
          tail = t;
          size = sub64 q.size 1;
          head = if leb (sub64 q.size 1) 1 then t else q.head;
        };
        returns =
            ap (pop_tail h) same
            ∙ pop_tail-step h u.heap (write u.heap z none) q' n ne r u.returns
                (free-ok u.heap z n ne u.kept);
        holds = record {
          head_first =
              ap (λ k. if leb (sub64 q.size 1) 1 then t else k) ok.head_first
              ∙ head_fixed z d xs (sub64 q.size 1) counted;
          tail_final = refl;
          counted = counted;
          linked = Linked-write u.heap null xs z none out u.linked;
        };
      }
