-- ===== src/DataStruct/Deque/Refine.antt =====
-- lib/data-struct/deque.c: any run of calls against the sequence of the items.
use odp_libtrace.Prelude.{
  suc, ◌+◌, ◌<◌, ◌^◌, ◌≡◌, ◌≢◌, refl, ap, sym, ◌∙◌, arith, List, [], ◌∷◌, ◌++◌, Option, none, some,
  Ptr, null, length, length-append, inl, inr,
}
use mathlib.Core.Path.{subst}
use odp_libtrace.DataStruct.Nodes.{Heap, read, load}
use odp_libtrace.DataStruct.Nodes.Chain.{items, items-append, read-last}
use odp_libtrace.DataStruct.Nodes.Sequence.{
  Call, Reply, done, got, size, unsnoc, unsnoc_lem, snoc_view, taken, shown, spec, spec_run, run,
  Refines, run-spec_run,
}
use odp_libtrace.DataStruct.Deque.{
  Queue, init, push_back, push_front, peek_front, peek_tail, pop_front, pop_tail, get_size,
}
use odp_libtrace.DataStruct.Deque.Push.{final-append, Holds, push_back-Pushed, push_front-Pushed}
use odp_libtrace.DataStruct.Deque.Pop.{
  pop_front-Popped, pop_tail-Popped, pop_front-none, pop_tail-none,
}

module _ {A : Type 0} (malloc : Heap A → Ptr) where
  unfoldable pub after : Reply A → Option (Heap A × Queue) → Option (Reply A × Heap A × Queue)
  after r none = none
  after r (some (h, q)) = some (r, h, q)

  unfoldable pub popped : Option (Option A × Heap A × Queue) → Option (Reply A × Heap A × Queue)
  popped none = none
  popped (some (x, h, q)) = some (got x, h, q)

  unfoldable pub peeked : Heap A → Queue → Option (Option A) → Option (Reply A × Heap A × Queue)
  peeked h q none = none
  peeked h q (some x) = some (got x, h, q)

  -- A call, with what malloc returns in it.
  unfoldable pub step : Call A → Heap A → Queue → Option (Reply A × Heap A × Queue)
  step (Call.push_back d) h q = after done (push_back (malloc h) d h q)
  step (Call.push_front d) h q = after done (push_front (malloc h) d h q)
  step Call.pop_front h q = popped (pop_front h q)
  step Call.pop_tail h q = popped (pop_tail h q)
  step Call.peek_front h q = peeked h q (peek_front h q)
  step Call.peek_tail h q = peeked h q (peek_tail h q)
  step Call.get_size h q = some (size (get_size q), h, q)

  peek_front-none : (h : Heap A) (q : Queue) → q.head ≡ null → peek_front h q ≡ some none
  unfolding peek_front
  peek_front-none h q e = ground arith

  peek_tail-none : (h : Heap A) (q : Queue) → q.tail ≡ null → peek_tail h q ≡ some none
  unfolding peek_tail
  peek_tail-none h q e = ground arith

  peek_front-first :
      (h : Heap A) (q : Queue) (p : Ptr) (x : A) (xs : List (Ptr × A))
      → Holds h q ((p, x) ∷ xs)
      → peek_front h q ≡ some (some x)
  unfolding peek_front load
  peek_front-first h q p x xs ok = let l = ok.linked in ground (arith, ok.head_first, l.0, l.1)

  peek_tail-last :
      (h : Heap A) (q : Queue) (z : Ptr) (d : A) (xs : List (Ptr × A))
      → Holds h q (xs ++ ((z, d) ∷ []))
      → peek_tail h q ≡ some (some d)
  unfolding peek_tail load
  peek_tail-last h q z d xs ok =
      let (ne, r) = read-last h null z d xs ok.linked in
      let e : q.tail ≡ z = ok.tail_final ∙ final-append null z d xs in ground (arith, e, ne, r)

  length-items : (xs : List (Ptr × A)) → length (items xs) ≡ length xs
  length-items [] = refl
  length-items ((p, x) ∷ xs) = ap suc (length-items xs)

  unsnoc-items :
      (xs : List (Ptr × A)) (z : Ptr) (d : A)
      → unsnoc (items (xs ++ ((z, d) ∷ []))) ≡ some (items xs, d)
  unsnoc-items xs z d = ap unsnoc (items-append xs ((z, d) ∷ [])) ∙ unsnoc_lem (items xs) d

  pop_tail-Refines_empty :
      (h : Heap A) (q : Queue) → Holds h q [] → Refines step Holds Call.pop_tail h q []
  unfolding step spec popped unsnoc
  pop_tail-Refines_empty h q ok = record {
    heap = h;
    state = q;
    nodes = [];
    returns = ap popped (pop_tail-none h q ok.tail_final);
    holds = ok;
    seen = refl;
    grows = omega arith;
  }

  peek_tail-Refines_empty :
      (h : Heap A) (q : Queue) → Holds h q [] → Refines step Holds Call.peek_tail h q []
  unfolding step spec peeked unsnoc
  peek_tail-Refines_empty h q ok = record {
    heap = h;
    state = q;
    nodes = [];
    returns = ap (peeked h q) (peek_tail-none h q ok.tail_final);
    holds = ok;
    seen = refl;
    grows = omega arith;
  }

  pop_tail-Refines :
      (h : Heap A) (q : Queue) (xs : List (Ptr × A)) (z : Ptr) (d : A)
      → Holds h q (xs ++ ((z, d) ∷ []))
      → q.size < 2 ^ 64
      → Refines step Holds Call.pop_tail h q (xs ++ ((z, d) ∷ []))
  unfolding step spec popped
  pop_tail-Refines h q xs z d ok small =
      let r = pop_tail-Popped h q z d xs ok small in
      let l = items (xs ++ ((z, d) ∷ [])) in
      let e = unsnoc-items xs z d in
      record {
        heap = r.heap;
        state = r.queue;
        nodes = xs;
        returns = ap popped r.returns ∙ ap (λ u. some ((taken l u).0, r.heap, r.queue)) (sym e);
        holds = r.holds;
        seen = ap (λ u. (taken l u).1) (sym e);
        grows = omega (arith, length-append xs ((z, d) ∷ []));
      }

  peek_tail-Refines :
      (h : Heap A) (q : Queue) (xs : List (Ptr × A)) (z : Ptr) (d : A)
      → Holds h q (xs ++ ((z, d) ∷ []))
      → Refines step Holds Call.peek_tail h q (xs ++ ((z, d) ∷ []))
  unfolding step spec peeked
  peek_tail-Refines h q xs z d ok =
      let l = items (xs ++ ((z, d) ∷ [])) in
      let e = unsnoc-items xs z d in
      record {
        heap = h;
        state = q;
        nodes = xs ++ ((z, d) ∷ []);
        returns =
            ap (peeked h q) (peek_tail-last h q z d xs ok)
            ∙ ap (λ u. some ((shown l u).0, h, q)) (sym e);
        holds = ok;
        seen = ap (λ u. (shown l u).1) (sym e);
        grows = omega arith;
      }

  module _ (fresh : (h : Heap A) → (malloc h ≢ null) × (read h (malloc h) ≡ none)) where
    pub step-Refines :
        (c : Call A) (h : Heap A) (q : Queue) (xs : List (Ptr × A))
        → Holds h q xs
        → length xs + 1 < 2 ^ 64
        → Refines step Holds c h q xs
    unfolding step spec get_size after popped peeked
    step-Refines (Call.push_back d) h q xs ok room =
        let (ne, unused) = fresh h in
        let p = push_back-Pushed (malloc h) d h q xs ok ne unused room in
        record {
          heap = p.heap;
          state = p.queue;
          nodes = xs ++ ((malloc h, d) ∷ []);
          returns = ap (after done) p.returns;
          holds = p.holds;
          seen = items-append xs ((malloc h, d) ∷ []);
          grows = omega (arith, length-append xs ((malloc h, d) ∷ []));
        }
    step-Refines (Call.push_front d) h q xs ok room =
        let (ne, unused) = fresh h in
        let p = push_front-Pushed (malloc h) d h q xs ok ne unused room in
        record {
          heap = p.heap;
          state = p.queue;
          nodes = (malloc h, d) ∷ xs;
          returns = ap (after done) p.returns;
          holds = p.holds;
          seen = refl;
          grows = omega arith;
        }
    step-Refines Call.pop_front h q [] ok room = record {
      heap = h;
      state = q;
      nodes = [];
      returns = ap popped (pop_front-none h q ok.head_first);
      holds = ok;
      seen = refl;
      grows = omega arith;
    }
    step-Refines Call.pop_front h q ((p, x) ∷ xs) ok room =
        let r = pop_front-Popped h q p x xs ok (omega (arith, ok.counted)) in
        record {
          heap = r.heap;
          state = r.queue;
          nodes = xs;
          returns = ap popped r.returns;
          holds = r.holds;
          seen = refl;
          grows = omega arith;
        }
    step-Refines Call.pop_tail h q xs ok room = elim (snoc_view xs) [
      | inl e ↦
          subst (Refines step Holds Call.pop_tail h q) (sym e)
            (pop_tail-Refines_empty h q (subst (Holds h q) e ok))
      | inr (ys, (z, d), e) ↦
          subst (Refines step Holds Call.pop_tail h q) (sym e)
            (pop_tail-Refines h q ys z d (subst (Holds h q) e ok) (omega (arith, ok.counted)))
    ]
    step-Refines Call.peek_front h q [] ok room = record {
      heap = h;
      state = q;
      nodes = [];
      returns = ap (peeked h q) (peek_front-none h q ok.head_first);
      holds = ok;
      seen = refl;
      grows = omega arith;
    }
    step-Refines Call.peek_front h q ((p, x) ∷ xs) ok room = record {
      heap = h;
      state = q;
      nodes = (p, x) ∷ xs;
      returns = ap (peeked h q) (peek_front-first h q p x xs ok);
      holds = ok;
      seen = refl;
      grows = omega arith;
    }
    step-Refines Call.peek_tail h q xs ok room = elim (snoc_view xs) [
      | inl e ↦
          subst (Refines step Holds Call.peek_tail h q) (sym e)
            (peek_tail-Refines_empty h q (subst (Holds h q) e ok))
      | inr (ys, (z, d), e) ↦
          subst (Refines step Holds Call.peek_tail h q) (sym e)
            (peek_tail-Refines h q ys z d (subst (Holds h q) e ok))
    ]
    step-Refines Call.get_size h q xs ok room = record {
      heap = h;
      state = q;
      nodes = xs;
      returns = ap (λ n. some (size n, h, q)) (ok.counted ∙ sym (length-items xs));
      holds = ok;
      seen = refl;
      grows = omega arith;
    }

    -- Any run of calls on an empty queue succeeds and shows what the calls on an empty sequence of
    -- items show, for fewer than 2^64 calls and a malloc that returns addresses that are not in use.
    pub deque_refines :
        (h : Heap A) (calls : List (Call A))
        → length calls < 2 ^ 64
        → run step h init calls ≡ some (spec_run [] calls)
    unfolding init
    deque_refines h calls few =
        run-spec_run step Holds step-Refines h init [] calls
          record { head_first = refl; tail_final = refl; counted = refl; linked = tt } (omega arith)
