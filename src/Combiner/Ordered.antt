-- ===== src/Combiner/Ordered.antt =====
-- lib/combiner_ordered.c: the front of a queue, behind the ticks that go straight to the reporter.
pub mod Front
pub mod Merge
use odp_libtrace.Prelude.{
  ℕ, ◌<◌, Bool, true, false, List, [], ◌∷◌, ◌++◌, Option, none, some, ltb, if◌then◌else◌,
}
use odp_libtrace.Combiner.{Result, Ticks, is_tick_interval, is_tick_count}

-- What `peek_queue` leaves: `key` is `none` where it returns 0; `sent` is what goes straight to the
-- reporter.
pub record Peek : Type 0 where
  pub key : Option ℕ
  pub ticks : Ticks
  pub queue : List Result
  pub sent : List Result

-- `peek_queue` on a queue with the front `peeked`; its callers have seen that there is one.
unfoldable pub peek_queue : (is_parallel : Bool) → Ticks → (peeked : Result) → List Result → Peek
peek_queue is_parallel c peeked rest =
    if is_tick_interval peeked
    then (if ltb c.last_ts_tick peeked.key
        then record {
          key = none;
          ticks = record c { last_ts_tick = peeked.key };
          queue = rest;
          sent = peeked ∷ [];
        }
        else record { key = none; ticks = c; queue = rest; sent = [] })
    else if is_tick_count peeked
    then (if ltb c.last_count_tick peeked.key
        then (let c' : Ticks = record c { last_count_tick = peeked.key } in
            if is_parallel
            then record { key = none; ticks = c'; queue = rest; sent = peeked ∷ [] }
            else record { key = some peeked.key; ticks = c'; queue = peeked ∷ rest; sent = [] })
        else record { key = none; ticks = c; queue = rest; sent = [] })
    else record { key = some peeked.key; ticks = c; queue = peeked ∷ rest; sent = [] }

-- What `next_message` leaves; `key` is its result.
pub record Next : Type 0 where
  pub key : ℕ
  pub ticks : Ticks
  pub queue : List Result
  pub sent : List Result

-- The loop goes on where `peek_queue` has popped the front.
unfoldable pub next_message : Bool → Ticks → List Result → Next
next_message is_parallel c [] = record { key = 0; ticks = c; queue = []; sent = [] }
next_message is_parallel c (r ∷ rs) =
    let p = peek_queue is_parallel c r rs in
    let n = next_message is_parallel p.ticks rs in
    elim p.key [
      | some key ↦ record { key = key; ticks = p.ticks; queue = p.queue; sent = p.sent }
      | none ↦ record { key = n.key; ticks = n.ticks; queue = n.queue; sent = p.sent ++ n.sent }
    ]
