-- ===== src/Parallel/Dispatch.antt =====
-- lib/trace_parallel.c, dispatch_packet and dispatch_packets: a batch of packets goes to the callback,
-- and those that it gives back are moved to the front of the array.
pub mod Layout
pub mod Compact
mod Tests
use odp_libtrace.Prelude.{
  ℕ, zero, suc, ◌+◌, ◌-◌, Bool, true, false, not, ◌&&◌, ◌==◌, if◌then◌else◌, List, [], ◌∷◌, Option,
  none, some, get_or, set,
}
use odp_libtrace.Parallel.{Item, packet, tick}

-- The array with the two numbers that are kept from call to call; `none` is NULL.
pub record Batch (P : Type 0) : Type 0 where
  pub packets : List (Option (Item P))
  pub empty : ℕ
  pub offset : ℕ

-- How a call ends: `returns` 0, READ_MESSAGE, or at an assertion or a NULL pointer; with the array and
-- with what went to the callbacks.
pub data Returned : Type 0 where
  zero_returned : Returned
  read_message : Returned
  fails : Returned

module _ {P : Type 0} where
  -- What is left in the slot of a packet that the callback gives back, or keeps.
  abbrev pub handed_back : Option P → Option (Item P)
  handed_back none = none
  handed_back (some p) = some (packet p)

  -- "Move full slots to front as we go", with what the slot at `offset` holds now.
  unfoldable pub move_full : Batch P → Option (Item P) → Batch P
  move_full b none = record {
    packets = set b.packets b.offset none;
    empty = b.empty;
    offset = b.offset + 1;
  }
  move_full b (some x) = record {
    packets =
        if b.empty == b.offset
        then set b.packets b.offset (some x)
        else set (set (set b.packets b.offset (some x)) b.empty (some x)) b.offset none;
    empty = b.empty + 1;
    offset = b.offset + 1;
  }

  -- `dispatch_packet`: `callback` is `message_packet`, `delayed` says at which place a message came
  -- while `delay_tracetime` waited. What is sent, and the slot behind it.
  unfoldable pub dispatch_packet :
      (callback : P → Option P)
      → (delayed : ℕ → Bool) → (tracetime : Bool) → ℕ
      → Option (Item P)
      → Returned × Option (Item P)
  dispatch_packet callback delayed tracetime offset none = (fails, none)
  dispatch_packet callback delayed tracetime offset (some (packet p)) =
      if tracetime && delayed offset
      then (read_message, some (packet p))
      else (zero_returned, handed_back (callback p))
  dispatch_packet callback delayed tracetime offset (some (tick n)) = (zero_returned, some (tick n))
  dispatch_packet callback delayed tracetime offset (some x) = (fails, some x)

  -- The loop, over `n` slots from `offset` on.
  unfoldable pub dispatch_from :
      (callback : P → Option P)
      → (delayed : ℕ → Bool) → (tracetime : Bool) → (n : ℕ) → Batch P
      → Returned × Batch P × List (Option (Item P))
  dispatch_from callback delayed tracetime zero b = (zero_returned, b, [])
  dispatch_from callback delayed tracetime (suc n) b =
      let slot = get_or b.packets b.offset none in
      let one = dispatch_packet callback delayed tracetime b.offset slot in
      let rest = dispatch_from callback delayed tracetime n (move_full b one.1) in
      elim one.0 [
        | zero_returned ↦ (rest.0, rest.1, slot ∷ rest.2)
        | read_message ↦ (read_message, b, [])
        | fails ↦ (fails, b, [])
      ]

  unfoldable pub dispatch_packets :
      (callback : P → Option P)
      → (delayed : ℕ → Bool) → (tracetime : Bool) → (nb_packets : ℕ) → Batch P
      → Returned × Batch P × List (Option (Item P))
  dispatch_packets callback delayed tracetime nb_packets b =
      dispatch_from callback delayed tracetime (nb_packets - b.offset) b
