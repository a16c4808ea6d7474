-- ===== src/Parallel.antt =====
-- lib/trace_parallel.c: the threads of a parallel trace. The items of a thread's queue are the packets
-- that are passed to it, told apart by their field `error`.
pub mod Dispatch
pub mod Filter
pub mod Hasher
pub mod Pread
pub mod States
use odp_libtrace.Prelude.{ℕ, Bool, true, false}

-- `error` of a packet: above 0 for a packet that was read, READ_TICK with the order of the tick,
-- READ_MESSAGE, READ_EOF and READ_ERROR.
pub data Item (P : Type 0) : Type 0 where
  packet : P → Item P
  tick : ℕ → Item P
  message : Item P
  eof : Item P
  failure : Item P

module _ {P : Type 0} where
  -- `error <= 0`
  abbrev pub is_error : Item P → Bool
  is_error (packet p) = false
  is_error (tick n) = true
  is_error message = true
  is_error eof = true
  is_error failure = true

  -- `error == READ_TICK` and `error == READ_MESSAGE`
  abbrev pub is_tick : Item P → Bool
  is_tick (tick n) = true
  is_tick _ = false

  abbrev pub is_message : Item P → Bool
  is_message message = true
  is_message _ = false
