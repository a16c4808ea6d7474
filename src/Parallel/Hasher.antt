-- ===== src/Parallel/Hasher.antt =====
-- lib/trace_parallel.c, hasher_entry, trace_pread_packet_hasher_thread and the loop of
-- perpkt_threads_entry: one thread reads and hashes packets, and writes each to the queue of a packet
-- thread. A queue is the sequence of what is written to it.
pub mod Routing
pub mod Batch
pub mod Delivery
pub mod Stopping
mod Tests
use odp_libtrace.Prelude.{
  ℕ, zero, suc, ◌+◌, ◌-◌, ◌%◌, Bool, true, false, not, ◌&&◌, ◌==◌, if◌then◌else◌, List, [], ◌∷◌,
  ◌++◌, map, Option, none, some, get_or, set, replicate,
}
use odp_libtrace.Parallel.{Item, packet, tick, message, eof, failure, is_error, is_tick, is_message}

-- `libtrace_ringbuffer_write` to the queue of one thread, and to those of all.
module _ {P : Type 0} where
  abbrev pub write : List (List (Item P)) → ℕ → Item P → List (List (Item P))
  write queues i x = set queues i (get_or queues i [] ++ (x ∷ []))

  abbrev pub write_all : List (List (Item P)) → Item P → List (List (Item P))
  write_all [] x = []
  write_all (queue ∷ queues) x = (queue ++ (x ∷ [])) ∷ write_all queues x

-- `order` is what `trace_packet_get_order` gives, `hasher` the hash function of the trace.
module _ {P : Type 0} (order hasher : P → ℕ) (threads tick_count : ℕ) where
  -- What is done with a packet that was read. A tick count of 0 stands for no ticks.
  unfoldable pub queue_packet : List (List (Item P)) → P → List (List (Item P))
  queue_packet queues p =
      let written = write queues (hasher p % threads) (packet p) in
      if not (tick_count == 0) && order p % tick_count == 0
      then write_all written (tick (order p))
      else written

  -- The loop over the packets that can be read, and behind it the broadcast of the last read, which
  -- failed: `last` is that packet.
  unfoldable pub hash_packets :
      List (List (Item P)) → List P → (last : Item P) → List (List (Item P))
  hash_packets queues [] last = write_all queues last
  hash_packets queues (p ∷ ps) last = hash_packets (queue_packet queues p) ps last

  -- `hasher_entry`, from empty queues.
  unfoldable pub hasher_entry : List P → (last : Item P) → List (List (Item P))
  hasher_entry ps last = hash_packets (replicate threads []) ps last

-- A packet thread's queue, and `format_data`, which keeps the packet of a failed read.
pub record Input (P : Type 0) : Type 0 where
  pub rbuffer : List (Item P)
  pub format_data : Option (Item P)

-- What a read returns: a batch of packets, the `error` of one that failed, or that it waits.
pub data Pread (P : Type 0) : Type 0 where
  batch : List (Item P) → Pread P
  error_of : Item P → Pread P
  waits : Pread P

module _ {P : Type 0} where
  -- The loop from the second packet on, with room for `n`; `available` more are there to `try_read`.
  -- The test for a tick looks at the first packet.
  unfoldable pub read_more :
      (n available : ℕ) → (first : Item P) → List (Item P) → List (Item P) × Input P
  read_more zero available first queue = ([], record { rbuffer = queue; format_data = none })
  read_more (suc n) zero first queue = ([], record { rbuffer = queue; format_data = none })
  read_more (suc n) (suc available) first [] = ([], record { rbuffer = []; format_data = none })
  read_more (suc n) (suc available) first (x ∷ queue) =
      let rest = read_more n available first queue in
      if is_error x && not (is_tick first)
      then ([], record { rbuffer = queue; format_data = if is_message x then none else some x })
      else (x ∷ rest.0, rest.1)

  -- `trace_pread_packet_hasher_thread`
  unfoldable pub pread : (nb_packets available : ℕ) → Input P → Pread P × Input P
  pread nb_packets available input = elim input.format_data [
    | some x ↦ (error_of x, input)
    | none ↦ elim input.rbuffer [
      | [] ↦ (waits, input)
      | x ∷ queue ↦
          let more = read_more (nb_packets - 1) available x queue in
          if is_error x && not (is_tick x)
          then (error_of x, record { rbuffer = queue; format_data = none })
          else (batch (x ∷ more.0), more.1)
    ]
  ]

-- How the loop of a packet thread ends: at `eof`, at `error`, at an assertion, in a call of
-- `trace_perpkt_thread_pause`, which the model leaves off, or it goes on. At `error` the code also sends
-- a message to stop to every packet thread.
pub data Ending : Type 0 where
  at_eof : Ending
  at_error : Ending
  asserts : Ending
  pauses : Ending
  goes_on : Ending

-- The codes of the messages to a packet thread, as far as the loop tells them apart.
pub data Message : Type 0 where
  do_pause : Message
  do_stop : Message
  other : Message

-- The messages that `libtrace_message_queue_try_get` finds, one after the other, before the loop reads
-- on: how the loop ends there, if it does. The others go to the callback.
unfoldable pub take_messages : List Message → Option Ending
take_messages [] = none
take_messages (do_pause ∷ messages) = some pauses
take_messages (do_stop ∷ messages) = some at_eof
take_messages (other ∷ messages) = take_messages messages

module _ {P : Type 0} where
  -- `dispatch_packets` with no delay: every packet goes to the callback, every tick to that for ticks;
  -- an assertion forbids the others.
  unfoldable pub dispatch_all : List (Item P) → List (Item P) → Ending → List (Item P) × Ending
  dispatch_all [] later ending = (later, ending)
  dispatch_all (x ∷ xs) later ending =
      let rest = dispatch_all xs later ending in
      if is_error x && not (is_tick x) then ([], asserts) else (x ∷ rest.0, rest.1)

  -- What the loop does with a read, where `rest` is what the rounds behind it do.
  unfoldable pub handle_read : Pread P → (rest : List (Item P) × Ending) → List (Item P) × Ending
  handle_read (batch xs) rest = dispatch_all xs rest.0 rest.1
  handle_read (error_of message) rest = rest
  handle_read (error_of eof) rest = ([], at_eof)
  handle_read (error_of (packet p)) rest = ([], at_error)
  handle_read (error_of (tick n)) rest = ([], at_error)
  handle_read (error_of failure) rest = ([], at_error)
  handle_read waits rest = ([], goes_on)

  -- The loop of `perpkt_threads_entry`, on fuel: what is dispatched, and how it ends. For each round,
  -- `arrives` says which messages the thread finds, and `available` how many items beyond the first are
  -- in the queue by then.
  unfoldable pub perpkt_loop :
      (fuel : ℕ)
      → (burst_size : ℕ) → (arrives : ℕ → List Message) → (available : ℕ → ℕ) → Input P
      → List (Item P) × Ending
  perpkt_loop zero burst_size arrives available input = ([], goes_on)
  perpkt_loop (suc fuel) burst_size arrives available input =
      let read = pread burst_size (available fuel) input in
      let rest = perpkt_loop fuel burst_size arrives available read.1 in
      elim (take_messages (arrives fuel)) [
        | some ending ↦ ([], ending)
        | none ↦ handle_read read.0 rest
      ]
