-- ===== src/Parallel/Dispatch/Compact.antt =====
-- lib/trace_parallel.c, dispatch_packets: the array behind a call.
use odp_libtrace.Prelude.{
  ℕ, suc, ◌+◌, ◌-◌, ◌<◌, ◌≡◌, ◌⊎◌, inl, inr, Bool-cases, Option-cases, refl, ap, sym, ◌∙◌, arith,
  Bool, true, false, ◌&&◌, List, [], ◌∷◌, ◌++◌, map, Option, none, some, get_or, length,
}
use mathlib.Core.Path.{subst}
use mathlib.Core.List.{append_assoc, append-nil}
use odp_libtrace.Parallel.{Item, packet, tick, message, eof, failure}
use odp_libtrace.Parallel.Hasher.Batch.{Plain}
use odp_libtrace.Parallel.Hasher.Delivery.{Plain-cons}
use odp_libtrace.Parallel.Dispatch.{
  Batch, Returned, zero_returned, read_message, handed_back, move_full, dispatch_packet,
  dispatch_from, dispatch_packets,
}
use odp_libtrace.Parallel.Dispatch.Layout.{IsLaidOut, todo-slot, move_full-none, move_full-some}

module _ {P : Type 0} (callback : P → Option P) (delayed : ℕ → Bool) (tracetime : Bool) where
  -- What the callback gives back of packets, and the ticks among them, which stay.
  abbrev pub back : List (Item P) → List (Item P)
  back [] = []
  back (packet p ∷ xs) = elim (callback p) [ none ↦ back xs | some q ↦ packet q ∷ back xs ]
  back (x ∷ xs) = x ∷ back xs

  -- The items, from slot `at` on, up to the first packet at whose slot a message comes in trace time.
  abbrev pub ahead : (at : ℕ) → List (Item P) → List (Item P)
  ahead at [] = []
  ahead at (packet p ∷ xs) = elim (tracetime && delayed at) [
    | true ↦ []
    | false ↦ packet p ∷ ahead (at + 1) xs
  ]
  ahead at (x ∷ xs) = x ∷ ahead (at + 1) xs

  -- A call sends the items up to that place, moves what it gets back behind what was kept, and leaves
  -- the rest for another call, which there is exactly if a message came while it waited.
  pub record Dispatches (start : ℕ) (kept todo : List (Item P))
      (out : Returned × Batch P × List (Option (Item P))) : Type 0 where
    pub done : List (Item P)
    pub rest : List (Item P)
    pub gap : ℕ
    pub up_to : done ≡ ahead start todo
    pub whole : done ++ rest ≡ todo
    pub sent : out.2 ≡ map some done
    pub laid_out : IsLaidOut out.1 (kept ++ back done) gap rest
    pub returned :
        ((out.0 ≡ zero_returned) × (rest ≡ []))
        ⊎ ((out.0 ≡ read_message) × (tracetime ≡ true) × (0 < length rest))

  from-sent :
      (n : ℕ) (b : Batch P) (slot left : Option (Item P))
      → get_or b.packets b.offset none ≡ slot
      → dispatch_packet callback delayed tracetime b.offset slot ≡ (zero_returned, left)
      → dispatch_from callback delayed tracetime (suc n) b ≡ (
          let rest = dispatch_from callback delayed tracetime n (move_full b left) in
          (rest.0, rest.1, slot ∷ rest.2))
  unfolding dispatch_from
  from-sent n b slot left e f = ground (arith, e, f)

  from-delayed :
      (n : ℕ) (b : Batch P) (slot left : Option (Item P))
      → get_or b.packets b.offset none ≡ slot
      → dispatch_packet callback delayed tracetime b.offset slot ≡ (read_message, left)
      → dispatch_from callback delayed tracetime (suc n) b ≡ (read_message, b, [])
  unfolding dispatch_from
  from-delayed n b slot left e f = ground (arith, e, f)

  abbrev put : Option (Item P) → List (Item P) → List (Item P)
  put none ys = ys
  put (some y) ys = y ∷ ys

  abbrev kept_then : List (Item P) → Option (Item P) → List (Item P)
  kept_then kept none = kept
  kept_then kept (some y) = kept ++ (y ∷ [])

  -- What one packet does.
  record One (offset : ℕ) (x : Item P) (one : Returned × Option (Item P)) : Type 0 where
    left : Option (Item P)
    outcome :
        ((one ≡ (zero_returned, left))
          × ((ys : List (Item P)) → back (x ∷ ys) ≡ put left (back ys))
          × ((ys : List (Item P)) → ahead offset (x ∷ ys) ≡ x ∷ ahead (offset + 1) ys))
        ⊎ ((one ≡ (read_message, left))
            × (tracetime ≡ true)
            × ((ys : List (Item P)) → ahead offset (x ∷ ys) ≡ []))

  dispatch_packet-One :
      (offset : ℕ) (x : Item P)
      → Plain (x ∷ [])
      → One offset x (dispatch_packet callback delayed tracetime offset (some x))
  unfolding dispatch_packet
  dispatch_packet-One offset (packet p) ok = elim (Bool-cases (tracetime && delayed offset)) [
    | inl g ↦ record {
      left = some (packet p);
      outcome = inr (ground (arith, g), ground (arith, g), λ ys. ground (arith, g));
    }
    | inr g ↦ record {
      left = handed_back (callback p);
      outcome = inl (
        ground (arith, g),
        λ ys. elim (Option-cases (callback p)) [
          | inl e ↦ ground (arith, e)
          | inr (q, e) ↦ ground (arith, e)
        ],
        λ ys. ground (arith, g),
      );
    }
  ]
  dispatch_packet-One offset (tick n) ok = record {
    left = some (tick n);
    outcome = inl (refl, λ ys. refl, λ ys. refl);
  }
  dispatch_packet-One offset message ok = absurd ok
  dispatch_packet-One offset eof ok = absurd ok
  dispatch_packet-One offset failure ok = absurd ok

  kept_then-put :
      (kept : List (Item P)) (left : Option (Item P)) (ys : List (Item P))
      → kept_then kept left ++ ys ≡ kept ++ put left ys
  kept_then-put kept none ys = refl
  kept_then-put kept (some y) ys = append_assoc kept (y ∷ []) ys

  move_full-offset :
      (b : Batch P) (left : Option (Item P)) → (move_full b left).offset ≡ b.offset + 1
  unfolding move_full
  move_full-offset b none = refl
  move_full-offset b (some x) = refl

  next-laid :
      (b : Batch P) (kept : List (Item P)) (gap : ℕ) (x : Item P) (left : Option (Item P))
      (todo : List (Item P))
      → IsLaidOut b kept gap (x ∷ todo)
      → (gap' : ℕ) × IsLaidOut (move_full b left) (kept_then kept left) gap' todo
  next-laid b kept gap x none todo h = (suc gap, move_full-none b kept gap x todo h)
  next-laid b kept gap x (some y) todo h = (gap, move_full-some b kept gap x y todo h)

  step :
      (b : Batch P) (kept : List (Item P)) (n : ℕ) (x : Item P) (todo : List (Item P))
      (left : Option (Item P))
      → get_or b.packets b.offset none ≡ some x
      → dispatch_packet callback delayed tracetime b.offset (some x) ≡ (zero_returned, left)
      → ((ys : List (Item P)) → back (x ∷ ys) ≡ put left (back ys))
      → ((ys : List (Item P)) → ahead b.offset (x ∷ ys) ≡ x ∷ ahead (b.offset + 1) ys)
      → Dispatches
          (b.offset + 1)
          (kept_then kept left)
          todo
          (dispatch_from callback delayed tracetime n (move_full b left))
      → Dispatches b.offset kept (x ∷ todo) (dispatch_from callback delayed tracetime (suc n) b)
  step b kept n x todo left slot one given goes_on ih =
      let e = from-sent n b (some x) left slot one in
      let same : kept_then kept left ++ back ih.done ≡ kept ++ back (x ∷ ih.done) =
        kept_then-put kept left (back ih.done) ∙ ap (λ l. kept ++ l) (sym (given ih.done)) in
      let laid : IsLaidOut (dispatch_from callback delayed tracetime n (move_full b left)).1
          (kept ++ back (x ∷ ih.done)) ih.gap ih.rest =
        subst
          (λ l.
            IsLaidOut (dispatch_from callback delayed tracetime n (move_full b left)).1 l ih.gap
              ih.rest)
          same ih.laid_out in
      record {
        done = x ∷ ih.done;
        rest = ih.rest;
        gap = ih.gap;
        up_to = ap (λ l. x ∷ l) ih.up_to ∙ sym (goes_on todo);
        whole = ap (λ l. x ∷ l) ih.whole;
        sent = ap (λ r. r.2) e ∙ ap (λ l. some x ∷ l) ih.sent;
        laid_out =
            subst (λ b'. IsLaidOut b' (kept ++ back (x ∷ ih.done)) ih.gap ih.rest)
              (sym (ap (λ r. r.1) e)) laid;
        returned = ground (arith, ap (λ r. r.0) e, ih.returned);
      }

  dispatch_from-Dispatches :
      (b : Batch P) (kept : List (Item P)) (gap : ℕ) (todo : List (Item P))
      → IsLaidOut b kept gap todo
      → Plain todo
      → Dispatches b.offset kept todo (dispatch_from callback delayed tracetime (length todo) b)
  unfolding dispatch_from
  dispatch_from-Dispatches b kept gap [] h ok = record {
    done = [];
    rest = [];
    gap = gap;
    up_to = refl;
    whole = refl;
    sent = refl;
    laid_out = rw (append-nil kept) h;
    returned = inl (refl, refl);
  }
  dispatch_from-Dispatches b kept gap (x ∷ todo) h ok =
      let parts = Plain-cons x todo ok in
      let slot = todo-slot b kept gap x todo h in
      let one = dispatch_packet-One b.offset x parts.0 in
      elim one.outcome [
        | inl (e, given, goes_on) ↦
            let next = next-laid b kept gap x one.left todo h in
            step b kept (length todo) x todo one.left slot e given goes_on (
              subst
                (λ at.
                  Dispatches at (kept_then kept one.left) todo
                    (dispatch_from callback delayed tracetime (length todo) (move_full b one.left)))
                (move_full-offset b one.left)
                (dispatch_from-Dispatches (move_full b one.left) (kept_then kept one.left) next.0
                  todo next.1 parts.1))
        | inr (e, timed, stops) ↦
            let f = from-delayed (length todo) b (some x) one.left slot e in
            record {
              done = [];
              rest = x ∷ todo;
              gap = gap;
              up_to = sym (stops todo);
              whole = refl;
              sent = ap (λ r. r.2) f;
              laid_out =
                  subst (λ b'. IsLaidOut b' (kept ++ []) gap (x ∷ todo)) (sym (ap (λ r. r.1) f))
                    (rw (append-nil kept) h);
              returned = inr (ap (λ r. r.0) f, timed, omega arith);
            }
      ]

  -- From an array laid out as packets that were given back, NULL slots, and packets and ticks up to
  -- its end, dispatch_packets sends those in order, all of them or, in trace time, those in front of
  -- the first packet at whose slot a message comes, and returns READ_MESSAGE just if it leaves some.
  -- The array behind it is laid out so again, with what the callback gave back behind what was kept,
  -- and the two numbers say where the NULL slots begin and end.
  pub dispatch_packets-Dispatches :
      (b : Batch P) (nb_packets : ℕ) (kept : List (Item P)) (gap : ℕ) (todo : List (Item P))
      → IsLaidOut b kept gap todo
      → Plain todo
      → nb_packets ≡ b.offset + length todo
      → Dispatches b.offset kept todo (dispatch_packets callback delayed tracetime nb_packets b)
  unfolding dispatch_packets
  dispatch_packets-Dispatches b nb_packets kept gap todo h ok size =
      let count : length todo ≡ nb_packets - b.offset = omega (arith, size) in
      subst (λ n. Dispatches b.offset kept todo (dispatch_from callback delayed tracetime n b))
        count (dispatch_from-Dispatches b kept gap todo h ok)
