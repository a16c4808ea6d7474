-- ===== src/Combiner/Tests.antt =====
-- Combiners at concrete queues.
use odp_libtrace.Prelude.{some, arith, ◌≡◌, refl, List, [], ◌∷◌, true}
use odp_libtrace.Combiner.{
  packet, tick_interval, tick_count, Result, Ticks, is_tick_interval, is_tick_count,
}
use odp_libtrace.Combiner.Order.{mk, flatten}
use odp_libtrace.Combiner.Unordered.{admit, admit_interval, admit_count, drain, read}
use odp_libtrace.Combiner.Unordered.Sending.{Sends}
use odp_libtrace.Combiner.Unordered.Laws.{read-Sends}
use odp_libtrace.Combiner.Ordered.{peek_queue, next_message}
use odp_libtrace.Combiner.Ordered.Merge.{
  read as read_merge, read_internal, merge, pop_min, drop_min, keep_min, rescan, check, check_one,
  active, inactive, read_final,
}
use odp_libtrace.Combiner.Ordered.Merge.Loop.{Delivers, read-Delivers}
use odp_libtrace.Combiner.Ordered.Merge.Final.{tick, p, final_out_of_order}

abbrev fresh : Ticks
fresh = record { last_count_tick = 0; last_ts_tick = 0 }

-- Two threads that have both published tick 7.
abbrev first : List Result
first = mk 1 10 packet ∷ mk 7 0 tick_interval ∷ mk 3 30 packet ∷ []

abbrev second : List Result
second = mk 7 0 tick_interval ∷ mk 2 20 packet ∷ mk 4 0 tick_count ∷ []

read_two :
    (read fresh (first ∷ second ∷ [])).0
    ≡ mk 1 10 packet
      ∷ mk 7 0 tick_interval
      ∷ mk 3 30 packet
      ∷ mk 2 20 packet
      ∷ mk 4 0 tick_count
      ∷ []
unfolding read drain admit admit_interval admit_count is_tick_interval is_tick_count
read_two = refl

read-Sends_example :
    Sends fresh
      (flatten (first ∷ second ∷ []))
      (read fresh (first ∷ second ∷ [])).0
      (read fresh (first ∷ second ∷ [])).1
read-Sends_example = read-Sends fresh (first ∷ second ∷ [])

next_second : (next_message true fresh second).key ≡ 2
unfolding next_message peek_queue is_tick_interval is_tick_count
next_second = refl

-- Two queues that are all alive, and two where a tick stands before a result.
abbrev merged_queues : List (List Result)
merged_queues =
    (mk 1 10 packet ∷ mk 4 40 packet ∷ mk 7 0 tick_interval ∷ [])
    ∷ (mk 2 20 packet ∷ mk 6 60 packet ∷ [])
    ∷ []

merged_read :
    read_merge true fresh merged_queues
    ≡ some record {
      queues = [] ∷ (mk 6 60 packet ∷ []) ∷ [];
      ticks = record fresh { last_ts_tick = 7 };
      sent = mk 1 10 packet ∷ mk 2 20 packet ∷ mk 4 40 packet ∷ mk 7 0 tick_interval ∷ [];
    }
unfolding read_merge read_internal merge pop_min drop_min keep_min rescan check check_one active
    inactive next_message peek_queue is_tick_interval is_tick_count
merged_read = refl

read-Delivers_example : Delivers 1 merged_queues (read_merge true fresh merged_queues)
read-Delivers_example = read-Delivers 1 fresh merged_queues (omega arith) (omega arith)

final_out_of_order_example :
    read_final 2 true fresh ((tick 3 ∷ p 5 1 ∷ []) ∷ (p 9 2 ∷ []) ∷ [])
    ≡ some record {
      queues = [] ∷ [] ∷ [];
      ticks = record fresh { last_ts_tick = 3 };
      sent = tick 3 ∷ p 9 2 ∷ p 5 1 ∷ [];
    }
final_out_of_order_example = final_out_of_order fresh 3 5 1 9 2 0 (omega arith) (omega arith)
