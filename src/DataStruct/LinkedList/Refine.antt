-- ===== src/DataStruct/LinkedList/Refine.antt =====
-- lib/data-struct/linked_list.c: any run of calls against the sequence of the items.
use odp_libtrace.Prelude.{
  ◌+◌, ◌<◌, ◌^◌, ◌≡◌, ◌≢◌, refl, ◌∙◌, arith, true, List, [], ◌∷◌, Option, none, some, ◌==◌,
  if◌then◌else◌, Ptr, null, length,
}
use odp_libtrace.DataStruct.Nodes.{Heap, read, load}
use odp_libtrace.DataStruct.Nodes.Chain.{final-exists}
use odp_libtrace.DataStruct.Nodes.Sequence.{
  Call, Reply, done, got, size, spec_run, run, Refines, run-spec_run,
}
use odp_libtrace.DataStruct.Deque
use odp_libtrace.DataStruct.Deque.{Queue}
use odp_libtrace.DataStruct.Deque.Push.{Holds}
use odp_libtrace.DataStruct.Deque.Refine
use odp_libtrace.DataStruct.LinkedList.{
  LinkedList, init, Taken, empty, took, push_front, push_back, pop_front, pop_back, get_size,
}

module _ {A : Type 0} (malloc : Heap A → Ptr) where
  after : Option (Heap A × Option LinkedList) → Option (Reply A × Heap A × LinkedList)
  after (some (h, some l)) = some (done, h, l)
  after _ = none

  popped : Option (Taken A × Heap A × Option LinkedList) → Option (Reply A × Heap A × LinkedList)
  popped (some (took x, h, some l)) = some (got (some x), h, l)
  popped (some (empty, h, some l)) = some (got none, h, l)
  popped _ = none

  -- Looking at an end goes through the node, which is a public structure.
  peeked : Heap A → LinkedList → Ptr → Option (Reply A × Heap A × LinkedList)
  peeked h l p =
      if p == null
      then some (got none, h, l)
      else elim (load h p) [ none ↦ none | some n ↦ some (got (some n.item), h, l) ]

  -- A call, with what malloc returns in it.
  pub step : Call A → Heap A → LinkedList → Option (Reply A × Heap A × LinkedList)
  step (Call.push_back d) h l = after (push_back (malloc h) (some d) h (some l))
  step (Call.push_front d) h l = after (push_front (malloc h) (some d) h (some l))
  step Call.pop_front h l = popped (pop_front true h (some l))
  step Call.pop_tail h l = popped (pop_back true h (some l))
  step Call.peek_front h l = peeked h l l.head
  step Call.peek_tail h l = peeked h l l.tail
  step Call.get_size h l = some (size (get_size (some l)), h, l)

  -- On a list, each call does what it does on a queue of the same nodes.
  same_step :
      (c : Call A) (h : Heap A) (l : LinkedList) (xs : List (Ptr × A))
      → Holds h l xs
      → step c h l ≡ Refine.step malloc c h l
  unfolding step push_front push_back pop_front pop_back after popped peeked get_size Refine.step
      Refine.after Refine.popped Refine.peeked Deque.push_front Deque.push_back Deque.pop_front
      Deque.pop_tail Deque.peek_front Deque.peek_tail Deque.get_size
  same_step (Call.push_front d) h l xs ok = ground arith
  same_step (Call.push_back d) h l [] ok = ground (arith, ok.head_first, ok.tail_final)
  same_step (Call.push_back d) h l ((p, x) ∷ xs) ok =
      let at_tail : l.tail ≢ null =
        ground (arith, ok.tail_final, final-exists h null p x xs ok.linked) in
      let at_head : l.head ≢ null = ground (arith, ok.head_first, ok.linked.0) in
      ground (arith, at_tail, at_head)
  same_step Call.pop_front h l xs ok = ground arith
  same_step Call.pop_tail h l xs ok = ground arith
  same_step Call.peek_front h l xs ok = ground arith
  same_step Call.peek_tail h l xs ok = ground arith
  same_step Call.get_size h l xs ok = refl

  module _ (fresh : (h : Heap A) → (malloc h ≢ null) × (read h (malloc h) ≡ none)) where
    step-Refines :
        (c : Call A) (h : Heap A) (l : LinkedList) (xs : List (Ptr × A))
        → Holds h l xs
        → length xs + 1 < 2 ^ 64
        → Refines step Holds c h l xs
    step-Refines c h l xs ok room =
        let r = Refine.step-Refines malloc fresh c h l xs ok room in
        record {
          heap = r.heap;
          state = r.state;
          nodes = r.nodes;
          returns = same_step c h l xs ok ∙ r.returns;
          holds = r.holds;
          seen = r.seen;
          grows = r.grows;
        }

    -- Any run of calls on an empty list succeeds and shows what the calls on an empty sequence of
    -- items show, for fewer than 2^64 calls and a malloc that returns addresses that are not in use.
    pub list_refines :
        (h : Heap A) (calls : List (Call A))
        → length calls < 2 ^ 64
        → run step h init calls ≡ some (spec_run [] calls)
    unfolding init
    list_refines h calls few =
        run-spec_run step Holds step-Refines h init [] calls
          record { head_first = refl; tail_final = refl; counted = refl; linked = tt } (omega arith)
