-- ===== src/Parallel/Hasher/Delivery.antt =====
-- lib/trace_parallel.c: what a packet thread hands to the callbacks of what stands in its queue.
use odp_libtrace.Prelude.{
  ℕ, zero, suc, ◌+◌, ◌-◌, ◌≤◌, ◌<◌, ◌≡◌, ◌⊎◌, inl, inr, refl, ap, sym, ◌∙◌, arith, List, [], ◌∷◌,
  ◌++◌, none, some, length, get_or, length-append,
}
use odp_libtrace.Parallel.{Item, packet, tick, message, eof, failure}
use odp_libtrace.Parallel.Hasher.{
  Input, read_more, pread, Ending, at_error, dispatch_all, perpkt_loop, hasher_entry, handle_read,
  take_messages, Message, do_pause, do_stop, other,
}
use odp_libtrace.Parallel.Hasher.Batch.{
  IsLast, last_eof, last_failure, Plain, NoTicks, read_more-Takes,
}
use odp_libtrace.Parallel.Hasher.Routing.{stream, hasher_entry-stream}

-- No message to stop or to pause.
abbrev pub Quiet : List Message → Type 0
Quiet [] = Unit {0}
Quiet (do_pause ∷ messages) = ⊥
Quiet (do_stop ∷ messages) = ⊥
Quiet (other ∷ messages) = Quiet messages

take_messages-Quiet : (messages : List Message) → Quiet messages → take_messages messages ≡ none
unfolding take_messages
take_messages-Quiet [] q = refl
take_messages-Quiet (do_pause ∷ messages) q = absurd q
take_messages-Quiet (do_stop ∷ messages) q = absurd q
take_messages-Quiet (other ∷ messages) q = take_messages-Quiet messages q

module _ {P : Type 0} where
  dispatch_all-NoTicks :
      (xs later : List (Item P)) (ending : Ending)
      → NoTicks xs
      → dispatch_all xs later ending ≡ (xs ++ later, ending)
  unfolding dispatch_all
  dispatch_all-NoTicks [] later ending nt = refl
  dispatch_all-NoTicks (packet p ∷ xs) later ending nt =
      ap (λ r. (packet p ∷ r.0, r.1)) (dispatch_all-NoTicks xs later ending nt)
  dispatch_all-NoTicks (tick n ∷ xs) later ending nt = absurd nt
  dispatch_all-NoTicks (message ∷ xs) later ending nt = absurd nt
  dispatch_all-NoTicks (eof ∷ xs) later ending nt = absurd nt
  dispatch_all-NoTicks (failure ∷ xs) later ending nt = absurd nt

  queued : List (Item P) → Input P
  queued xs = record { rbuffer = xs; format_data = none }

  -- A round in which no message ends the loop reads, and does with the read what the read says.
  loop-reads :
      (fuel burst : ℕ) (arrives : ℕ → List Message) (available : ℕ → ℕ) (input : Input P)
      → Quiet (arrives fuel)
      → (let read = pread burst (available fuel) input in
          perpkt_loop (suc fuel) burst arrives available input
          ≡ handle_read read.0 (perpkt_loop fuel burst arrives available read.1))
  unfolding perpkt_loop
  loop-reads fuel burst arrives available input q =
      rw (perpkt_loop, take_messages-Quiet (arrives fuel) q) refl

  loop-pending :
      (fuel burst : ℕ) (arrives : ℕ → List Message) (available : ℕ → ℕ) (xs : List (Item P))
      {last : Item P} {ending : Ending}
      → Quiet (arrives fuel)
      → IsLast last ending
      → perpkt_loop
          (suc fuel)
          burst
          arrives
          available
          (record { rbuffer = xs; format_data = some last })
        ≡ ([], ending)
  unfolding pread handle_read
  loop-pending fuel burst arrives available xs q last_eof =
      loop-reads fuel burst arrives available (record { rbuffer = xs; format_data = some eof }) q
  loop-pending fuel burst arrives available xs q last_failure =
      loop-reads fuel burst arrives available (record { rbuffer = xs; format_data = some failure })
        q

  loop-last :
      (fuel burst : ℕ) (arrives : ℕ → List Message) (available : ℕ → ℕ) {last : Item P}
      {ending : Ending}
      → Quiet (arrives fuel)
      → IsLast last ending
      → perpkt_loop (suc fuel) burst arrives available (queued (last ∷ [])) ≡ ([], ending)
  unfolding pread handle_read queued
  loop-last fuel burst arrives available q last_eof =
      loop-reads fuel burst arrives available (queued (eof ∷ [])) q
  loop-last fuel burst arrives available q last_failure =
      loop-reads fuel burst arrives available (queued (failure ∷ [])) q

  -- A round that reads a packet and what `read_more` finds behind it.
  loop-batch :
      (fuel burst : ℕ) (arrives : ℕ → List Message) (available : ℕ → ℕ) (p : P)
      (queue ys : List (Item P)) (ending : Ending)
      → Quiet (arrives fuel)
      → (let more = read_more (burst - 1) (available fuel) (packet p) queue in
          NoTicks more.0 × (perpkt_loop fuel burst arrives available more.1 ≡ (ys, ending)))
      → perpkt_loop (suc fuel) burst arrives available (queued (packet p ∷ queue))
        ≡ (packet p ∷ ((read_more (burst - 1) (available fuel) (packet p) queue).0 ++ ys), ending)
  unfolding pread handle_read queued
  loop-batch fuel burst arrives available p queue ys ending q (clean, e) =
      let more = read_more (burst - 1) (available fuel) (packet p) queue in
      loop-reads fuel burst arrives available (queued (packet p ∷ queue)) q
      ∙ ap (λ r. dispatch_all (packet p ∷ more.0) r.0 r.1) e
      ∙ dispatch_all-NoTicks (packet p ∷ more.0) ys ending clean

  loop-NoTicks :
      (fuel burst : ℕ) (arrives : ℕ → List Message) (available : ℕ → ℕ) (xs : List (Item P))
      {last : Item P} {ending : Ending}
      → NoTicks xs
      → ((n : ℕ) → Quiet (arrives n))
      → IsLast last ending
      → length xs + 2 ≤ fuel
      → perpkt_loop fuel burst arrives available (queued (xs ++ (last ∷ []))) ≡ (xs, ending)
  unfolding queued
  loop-NoTicks zero burst arrives available xs nt q l enough = absurd (omega arith)
  loop-NoTicks (suc fuel) burst arrives available [] nt q l enough =
      loop-last fuel burst arrives available (q fuel) l
  loop-NoTicks (suc zero) burst arrives available (x ∷ xs) nt q l enough = absurd (omega arith)
  loop-NoTicks (suc (suc fuel)) burst arrives available (packet p ∷ xs) {last} {ending} nt q l
        enough =
      let t = read_more-Takes (burst - 1) (available (suc fuel)) p xs nt l in
      let more = read_more (burst - 1) (available (suc fuel)) (packet p) (xs ++ (last ∷ [])) in
      let short : length t.rest ≤ length xs =
        omega (arith, ap length t.whole, length-append more.0 t.rest) in
      let next : perpkt_loop (suc fuel) burst arrives available more.1 ≡ (t.rest, ending) =
        elim t.left [
          | inl e ↦
              ap (perpkt_loop (suc fuel) burst arrives available) e
              ∙ loop-NoTicks (suc fuel) burst arrives available t.rest t.plain q l (omega arith)
          | inr (none_left, e) ↦
              ap (perpkt_loop (suc fuel) burst arrives available) e
              ∙ loop-pending fuel burst arrives available [] (q fuel) l
              ∙ ap (λ ys. (ys, ending)) (sym none_left)
        ] in
      loop-batch (suc fuel) burst arrives available p (xs ++ (last ∷ [])) t.rest ending
        (q (suc fuel)) (t.clean, next)
      ∙ ap (λ ys. (packet p ∷ ys, ending)) t.whole
  loop-NoTicks (suc (suc fuel)) burst arrives available (tick n ∷ xs) nt q l enough = absurd nt
  loop-NoTicks (suc (suc fuel)) burst arrives available (message ∷ xs) nt q l enough = absurd nt
  loop-NoTicks (suc (suc fuel)) burst arrives available (eof ∷ xs) nt q l enough = absurd nt
  loop-NoTicks (suc (suc fuel)) burst arrives available (failure ∷ xs) nt q l enough = absurd nt

  -- One at a time, a tick is read like a packet.
  loop-one :
      (fuel : ℕ) (arrives : ℕ → List Message) (available : ℕ → ℕ) (x : Item P)
      (queue ys : List (Item P)) (ending : Ending)
      → Quiet (arrives fuel)
      → Plain (x ∷ [])
      → perpkt_loop fuel 1 arrives available (queued queue) ≡ (ys, ending)
      → perpkt_loop (suc fuel) 1 arrives available (queued (x ∷ queue)) ≡ (x ∷ ys, ending)
  unfolding pread read_more dispatch_all handle_read queued
  loop-one fuel arrives available (packet p) queue ys ending q ok e =
      loop-reads fuel 1 arrives available (queued (packet p ∷ queue)) q
      ∙ ap (λ r. (packet p ∷ r.0, r.1)) e
  loop-one fuel arrives available (tick n) queue ys ending q ok e =
      loop-reads fuel 1 arrives available (queued (tick n ∷ queue)) q
      ∙ ap (λ r. (tick n ∷ r.0, r.1)) e
  loop-one fuel arrives available message queue ys ending q ok e = absurd ok
  loop-one fuel arrives available eof queue ys ending q ok e = absurd ok
  loop-one fuel arrives available failure queue ys ending q ok e = absurd ok

  pub Plain-cons : (x : Item P) (xs : List (Item P)) → Plain (x ∷ xs) → Plain (x ∷ []) × Plain xs
  Plain-cons (packet p) xs h = (tt, h)
  Plain-cons (tick n) xs h = (tt, h)
  Plain-cons message xs h = absurd h
  Plain-cons eof xs h = absurd h
  Plain-cons failure xs h = absurd h

  loop-Plain :
      (fuel : ℕ) (arrives : ℕ → List Message) (available : ℕ → ℕ) (xs : List (Item P))
      {last : Item P} {ending : Ending}
      → Plain xs
      → ((n : ℕ) → Quiet (arrives n))
      → IsLast last ending
      → length xs + 2 ≤ fuel
      → perpkt_loop fuel 1 arrives available (queued (xs ++ (last ∷ []))) ≡ (xs, ending)
  loop-Plain zero arrives available xs ok q l enough = absurd (omega arith)
  loop-Plain (suc fuel) arrives available [] ok q l enough =
      loop-last fuel 1 arrives available (q fuel) l
  loop-Plain (suc fuel) arrives available (x ∷ xs) {last} {ending} ok q l enough =
      let parts = Plain-cons x xs ok in
      loop-one fuel arrives available x (xs ++ (last ∷ [])) xs ending (q fuel) parts.0
        (loop-Plain fuel arrives available xs parts.1 q l (omega arith))

module _ {P : Type 0} (order hasher : P → ℕ) (threads tick_count : ℕ) where
  stream-Plain : (i : ℕ) (ps : List P) → Plain (stream order hasher threads tick_count i ps)
  stream-Plain i [] = tt
  stream-Plain i (p ∷ ps) = ground (arith, stream-Plain i ps)

  stream-NoTicks :
      (i : ℕ) (ps : List P) → tick_count ≡ 0 → NoTicks (stream order hasher threads tick_count i ps)
  stream-NoTicks i [] e = tt
  stream-NoTicks i (p ∷ ps) e = ground (arith, stream-NoTicks i ps e)

  -- If no ticks are asked for, or packets are read one at a time, and no message to stop or to pause
  -- reaches the thread, a packet thread hands to the callbacks exactly the packets whose hash is its
  -- number modulo the number of threads, in the order in which they were read, with every tick behind
  -- its packet, and then ends as the failed read says, whatever part of its queue it finds written when
  -- it looks, and whatever other messages reach it.
  pub hasher-Delivers :
      (ps : List P) {last : Item P} {ending : Ending} (i fuel burst : ℕ)
      (arrives : ℕ → List Message) (available : ℕ → ℕ)
      → ((n : ℕ) → Quiet (arrives n))
      → IsLast last ending
      → i < threads
      → 0 < burst
      → (tick_count ≡ 0) ⊎ (burst ≡ 1)
      → length (stream order hasher threads tick_count i ps) + 2 ≤ fuel
      → perpkt_loop fuel burst arrives available (record {
        rbuffer = get_or (hasher_entry order hasher threads tick_count ps last) i [];
        format_data = none;
      })
        ≡ (stream order hasher threads tick_count i ps, ending)
  unfolding queued
  hasher-Delivers ps {last} {ending} i fuel burst arrives available q l h some_room which enough =
      let xs = stream order hasher threads tick_count i ps in
      ap
        (λ queue.
          perpkt_loop fuel burst arrives available (record { rbuffer = queue; format_data = none }))
        (hasher_entry-stream order hasher threads tick_count ps last i h)
      ∙ elim which [
        | inl none_asked ↦
            loop-NoTicks fuel burst arrives available xs (stream-NoTicks i ps none_asked) q l enough
        | inr one ↦
            ap
              (λ n.
                perpkt_loop fuel n arrives available
                  (record { rbuffer = xs ++ (last ∷ []); format_data = none }))
              one
            ∙ loop-Plain fuel arrives available xs (stream-Plain i ps) q l enough
      ]

-- Unless a message to stop or to pause reaches the thread, a tick that is found behind a packet in one
-- batch ends the thread with an error: the tick is kept as if it were a failed read, and nothing behind
-- the packet is handed on, whatever it is.
pub tick_ends_thread :
    {P : Type 0} (fuel burst : ℕ) (arrives : ℕ → List Message) (available : ℕ → ℕ) (p : P) (n : ℕ)
    (queue : List (Item P))
    → Quiet (arrives (suc fuel))
    → Quiet (arrives fuel)
    → 1 < burst
    → 0 < available (suc fuel)
    → perpkt_loop
        (suc (suc fuel))
        burst
        arrives
        available
        (record { rbuffer = packet p ∷ tick n ∷ queue; format_data = none })
      ≡ (packet p ∷ [], at_error)
unfolding pread read_more dispatch_all handle_read queued
tick_ends_thread {P} fuel burst arrives available p n queue q q_next large there =
    let room : burst - 1 ≡ suc (burst - 2) = omega arith in
    let found : available (suc fuel) ≡ suc (available (suc fuel) - 1) = omega arith in
    let kept : Input P = record { rbuffer = queue; format_data = some (tick n) } in
    loop-reads (suc fuel) burst arrives available (queued (packet p ∷ tick n ∷ queue)) q
    ∙ rw (room, found)
        (ap (λ r. (packet p ∷ r.0, r.1)) (loop-reads fuel burst arrives available kept q_next))
