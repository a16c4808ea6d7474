-- ===== src/Combiner.antt =====
-- lib/combiner_unordered.c, lib/combiner_ordered.c and lib/combiner_sorted.c: how the results that
-- the packet threads publish reach the reporter. A queue is the list of its results, oldest first;
-- what `send_message` sends is returned, and no thread publishes while a call runs.
pub mod Order
pub mod Unordered
pub mod Ordered
pub mod Sorted
mod Tests
use odp_libtrace.Prelude.{ℕ, Bool, true, false}

-- `enum result_types`
pub data ResultType : Type 0 where
  packet : ResultType
  tick_interval : ResultType
  tick_count : ResultType
  user : ℕ → ResultType

-- `struct libtrace_result_t`
pub record Result : Type 0 where
  pub key : ℕ
  pub value : ℕ
  pub type : ResultType

-- The fields of `libtrace_combine_t` that the combiners use beside the queues.
pub record Ticks : Type 0 where
  pub last_count_tick : ℕ
  pub last_ts_tick : ℕ

-- Tests on `type`.
pub is_tick_interval : Result → Bool
is_tick_interval r = elim r.type [ tick_interval ↦ true | _ ↦ false ]

pub is_tick_count : Result → Bool
is_tick_count r = elim r.type [ tick_count ↦ true | _ ↦ false ]
