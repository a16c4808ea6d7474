-- ===== src/Parallel/Hasher/Tests.antt =====
-- Two packet threads, with numbers for packets: the number is the order and the hash.
use odp_libtrace.Prelude.{
  ℕ, ◌≡◌, inl, inr, ◌==◌, if◌then◌else◌, refl, arith, List, [], ◌∷◌, none, get_or,
}
use odp_libtrace.Parallel.{packet, tick, eof, failure}
use odp_libtrace.Parallel.Hasher.{
  hasher_entry, hash_packets, queue_packet, perpkt_loop, at_eof, at_error, pread, read_more,
  dispatch_all, handle_read, take_messages, Message, do_stop, other,
}
use odp_libtrace.Parallel.Hasher.Routing.{stream}
use odp_libtrace.Parallel.Hasher.Batch.{last_eof, last_failure}
use odp_libtrace.Parallel.Hasher.Delivery.{Quiet, hasher-Delivers, tick_ends_thread}
use odp_libtrace.Parallel.Hasher.Stopping.{Cut, hasher-Cut}

abbrev read : List ℕ
read = 1 ∷ 2 ∷ 3 ∷ 4 ∷ 5 ∷ []

abbrev number : ℕ → ℕ
number p = p

-- A message to the callback in each round, and one to stop in the round with fuel 3 left.
abbrev some_others : ℕ → List Message
some_others n = other ∷ []

some_others-Quiet : (n : ℕ) → Quiet (some_others n)
some_others-Quiet n = tt

abbrev stop_at_3 : ℕ → List Message
stop_at_3 n = if n == 3 then (other ∷ do_stop ∷ []) else []

two_queues :
    hasher_entry number number 2 4 read eof
    ≡ (packet 2 ∷ packet 4 ∷ tick 4 ∷ eof ∷ [])
      ∷ (packet 1 ∷ packet 3 ∷ tick 4 ∷ packet 5 ∷ eof ∷ [])
      ∷ []
unfolding hasher_entry hash_packets queue_packet
two_queues = refl

hasher-Delivers_example :
    perpkt_loop 6 3 some_others
      (λ n. n)
      (record {
        rbuffer = get_or (hasher_entry number number 2 0 read eof) 1 [];
        format_data = none;
      })
    ≡ (stream number number 2 0 1 read, at_eof)
hasher-Delivers_example =
    hasher-Delivers number number 2 0 read 1 6 3 some_others (λ n. n) some_others-Quiet last_eof
      (omega arith) (omega arith) (inl refl) (omega arith)

hasher-Cut_example :
    Cut
      (perpkt_loop 6 1 stop_at_3
        (λ n. n)
        (record {
          rbuffer = get_or (hasher_entry number number 2 4 read failure) 1 [];
          format_data = none;
        }))
      (stream number number 2 4 1 read, at_error)
hasher-Cut_example =
    hasher-Cut number number 2 4 read 1 6 1 stop_at_3 (λ n. n) last_failure (omega arith)
      (omega arith) (inr refl) (omega arith)

-- The run of the witness above: the message stops the thread with two items in its queue.
stopped :
    perpkt_loop 6 1 stop_at_3
      (λ n. n)
      (record {
        rbuffer = get_or (hasher_entry number number 2 4 read failure) 1 [];
        format_data = none;
      })
    ≡ (packet 1 ∷ packet 3 ∷ [], at_eof)
unfolding perpkt_loop pread read_more dispatch_all handle_read take_messages hasher_entry
    hash_packets queue_packet
stopped = refl

tick_ends_thread_example :
    perpkt_loop {P = ℕ} 5 10 some_others
      (λ n. n)
      (record { rbuffer = packet 3 ∷ tick 4 ∷ packet 5 ∷ eof ∷ []; format_data = none })
    ≡ (packet 3 ∷ [], at_error)
tick_ends_thread_example =
    tick_ends_thread 3 10 some_others (λ n. n) 3 4 (packet 5 ∷ eof ∷ []) (some_others-Quiet 4)
      (some_others-Quiet 3) (omega arith) (omega arith)
