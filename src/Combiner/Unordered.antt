-- ===== src/Combiner/Unordered.antt =====
-- lib/combiner_unordered.c: results in the order of the queues, repeated ticks left out.
pub mod Sending
pub mod Laws
use odp_libtrace.Prelude.{ℕ, ◌≡◌, Bool, true, false, List, [], ◌∷◌, ◌++◌, leb, if◌then◌else◌}
use odp_libtrace.Combiner.{
  ResultType, packet, tick_interval, tick_count, user, Result, Ticks, is_tick_interval,
  is_tick_count,
}

-- The body of the inner loop of `read`: whether the result is sent, and the ticks seen.
unfoldable pub admit_interval : Ticks → Result → Bool × Ticks
admit_interval c r =
    if is_tick_interval r
    then (if leb r.key c.last_ts_tick
        then (false, c)
        else (true, record c { last_ts_tick = r.key }))
    else (true, c)

unfoldable pub admit_count : Ticks → Result → Bool × Ticks
admit_count c r =
    if is_tick_count r
    then (if leb r.key c.last_count_tick
        then (false, c)
        else (true, record c { last_count_tick = r.key }))
    else (true, c)

unfoldable pub admit : Ticks → Result → Bool × Ticks
admit c r = let (go, c') = admit_interval c r in if go then admit_count c' r else (false, c')

-- The inner loop: a queue is read until it is empty.
unfoldable pub drain : Ticks → List Result → List Result × Ticks
drain c [] = ([], c)
drain c (r ∷ rs) =
    let (sent, c') = admit c r in
    let (more, c'') = drain c' rs in (if sent then r ∷ more else more, c'')

-- All queues, which are empty afterwards.
unfoldable pub read : Ticks → List (List Result) → List Result × Ticks
read c [] = ([], c)
read c (queue ∷ queues) =
    let (sent, c') = drain c queue in let (more, c'') = read c' queues in (sent ++ more, c'')
