-- ===== src/Combiner/Ordered/Merge/Final.antt =====
-- lib/combiner_ordered.c, read_final: a tick in front of a queue hides what is behind it.
use odp_libtrace.Prelude.{ℕ, suc, ◌-◌, ◌<◌, ◌^◌, ◌≡◌, refl, arith, true, false, [], ◌∷◌, none, some}
use odp_libtrace.Combiner.{Result, Ticks, packet, tick_interval, is_tick_interval, is_tick_count}
use odp_libtrace.Combiner.Order.{mk}
use odp_libtrace.Combiner.Ordered.{peek_queue, next_message}
use odp_libtrace.Combiner.Ordered.Merge.{
  inactive, active, check_one, check, rescan, drop_min, pop_min, merge, read_internal, read_final,
}

abbrev pub p : ℕ → ℕ → Result
p key value = mk key value packet

abbrev pub tick : ℕ → Result
tick key = mk key 0 tick_interval

first_slots :
    (c : Ticks) (k t v w y : ℕ)
    → c.last_ts_tick < t
    → y < 2 ^ 64 - 1
    → check true 0 ((tick t ∷ p k v ∷ []) ∷ (p y w ∷ []) ∷ []) record {
      min_key = 2 ^ 64 - 1;
      min_queue = none;
      live_count = 0;
      allactive = true;
      ticks = c;
    }
      ≡ (
        (
          record { queue = p k v ∷ []; live = false; key = 0 }
              ∷ record { queue = p y w ∷ []; live = true; key = y }
              ∷ [],
          record {
            min_key = y;
            min_queue = some 1;
            live_count = 1;
            allactive = false;
            ticks = record c { last_ts_tick = t };
          },
        ),
        tick t ∷ [],
      )
unfolding check check_one active inactive peek_queue is_tick_interval is_tick_count
first_slots c k t v w y h g = ground arith

merged :
    (fuel k t v w y : ℕ) (c : Ticks)
    → merge
        (suc (suc fuel))
        true
        true
        (record { queue = p k v ∷ []; live = false; key = 0 }
          ∷ record { queue = p y w ∷ []; live = true; key = y }
          ∷ [])
        record {
          min_key = y;
          min_queue = some 1;
          live_count = 1;
          allactive = false;
          ticks = record c { last_ts_tick = t };
        }
      ≡ some record {
        queues = (p k v ∷ []) ∷ [] ∷ [];
        ticks = record c { last_ts_tick = t };
        sent = p y w ∷ [];
      }
unfolding merge pop_min drop_min rescan next_message
merged fuel k t v w y c = refl

first_round :
    (c : Ticks) (t k v y w : ℕ)
    → c.last_ts_tick < t
    → y < 2 ^ 64 - 1
    → read_internal true true c ((tick t ∷ p k v ∷ []) ∷ (p y w ∷ []) ∷ [])
      ≡ some record {
        queues = (p k v ∷ []) ∷ [] ∷ [];
        ticks = record c { last_ts_tick = t };
        sent = tick t ∷ p y w ∷ [];
      }
unfolding read_internal
first_round c t k v y w h g = ground (arith, first_slots c k t v w y h g, merged 2 k t v w y c)

second_round :
    (c : Ticks) (k v : ℕ)
    → read_internal true true c ((p k v ∷ []) ∷ [] ∷ [])
      ≡ some record { queues = [] ∷ [] ∷ []; ticks = c; sent = p k v ∷ [] }
unfolding read_internal merge pop_min drop_min rescan check check_one active inactive next_message
    peek_queue is_tick_interval is_tick_count
second_round c k v = refl

-- The final read of two queues, one a new interval tick with a result of key `k` behind it and one a
-- result of key `y` below 2^64 - 1, sends the result of key `y` first, whichever key is smaller.
pub final_out_of_order :
    (c : Ticks) (t k v y w fuel : ℕ)
    → c.last_ts_tick < t
    → y < 2 ^ 64 - 1
    → read_final (suc (suc fuel)) true c ((tick t ∷ p k v ∷ []) ∷ (p y w ∷ []) ∷ [])
      ≡ some record {
        queues = [] ∷ [] ∷ [];
        ticks = record c { last_ts_tick = t };
        sent = tick t ∷ p y w ∷ p k v ∷ [];
      }
unfolding read_final
final_out_of_order c t k v y w fuel h g =
    ground (arith, first_round c t k v y w h g, second_round (record c { last_ts_tick = t }) k v)
