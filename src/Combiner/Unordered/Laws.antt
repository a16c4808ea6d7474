-- ===== src/Combiner/Unordered/Laws.antt =====
-- lib/combiner_unordered.c, read: which results are sent, and which ticks.
use odp_libtrace.Prelude.{
  ℕ, ◌≡◌, refl, sym, arith, Bool, true, false, List, [], ◌∷◌, ◌++◌, if◌then◌else◌, dec_le,
}
use mathlib.Core.Path.{subst}
use odp_libtrace.Combiner.{
  ResultType, packet, tick_interval, tick_count, user, Result, Ticks, is_tick_interval,
  is_tick_count,
}
use odp_libtrace.Combiner.Unordered.{admit, admit_interval, admit_count, drain, read}
use odp_libtrace.Combiner.Order.{flatten, mk}
use odp_libtrace.Combiner.Unordered.Sending.{
  Sends, Sends-none, Sends-append, nothing, skipped, taken,
}

-- The part of the loop's body behind `admit`.
sent : Result → Bool × Ticks → List Result
sent r out = if out.0 then r ∷ [] else []

-- One result, by what `admit` says of it.
Sends-by :
    (c : Ticks) (r : Result) (out : Bool × Ticks)
    → admit c r ≡ out
    → Sends c (r ∷ []) (sent r out) out.1
    → Sends c (r ∷ []) (sent r (admit c r)) (admit c r).1
Sends-by c r out e a = subst (λ o. Sends c (r ∷ []) (sent r o) o.1) (sym e) a

admit-Sends :
    (c : Ticks) (key value : ℕ) (type : ResultType)
    → let r = mk key value type in Sends c (r ∷ []) (sent r (admit c r)) (admit c r).1
unfolding admit admit_interval admit_count is_tick_interval is_tick_count sent
admit-Sends c key value packet = record {
  part = taken nothing;
  kept = refl;
  intervals = refl;
  counts = refl;
  last_interval = refl;
  last_count = refl;
}
admit-Sends c key value (user n) = record {
  part = taken nothing;
  kept = refl;
  intervals = refl;
  counts = refl;
  last_interval = refl;
  last_count = refl;
}
admit-Sends c key value tick_interval = elim (dec_le key c.last_ts_tick) [
  | yes l ↦
      Sends-by c (mk key value tick_interval) (false, c) (ground arith)
        record {
          part = skipped nothing;
          kept = refl;
          intervals = ground arith;
          counts = refl;
          last_interval = ground arith;
          last_count = refl;
        }
  | no n ↦
      Sends-by c (mk key value tick_interval) (true, record c { last_ts_tick = key }) (ground arith)
        record {
          part = taken nothing;
          kept = refl;
          intervals = ground arith;
          counts = refl;
          last_interval = ground arith;
          last_count = refl;
        }
]
admit-Sends c key value tick_count = elim (dec_le key c.last_count_tick) [
  | yes l ↦
      Sends-by c (mk key value tick_count) (false, c) (ground arith)
        record {
          part = skipped nothing;
          kept = refl;
          intervals = refl;
          counts = ground arith;
          last_interval = refl;
          last_count = ground arith;
        }
  | no n ↦
      Sends-by c (mk key value tick_count) (true, record c { last_count_tick = key }) (ground arith)
        record {
          part = taken nothing;
          kept = refl;
          intervals = refl;
          counts = ground arith;
          last_interval = refl;
          last_count = ground arith;
        }
]

drain-Sends : (c : Ticks) (queue : List Result) → Sends c queue (drain c queue).0 (drain c queue).1
unfolding drain sent
drain-Sends c [] = Sends-none
drain-Sends c (r ∷ rs) =
    let a = Sends-append (admit-Sends c r.key r.value r.type) (drain-Sends (admit c r).1 rs) in
    subst (λ out. Sends c (r ∷ rs) out (drain (admit c r).1 rs).1) (first (admit c r).0) a
  where
    first :
        (go : Bool)
        → sent r (go, c) ++ (drain (admit c r).1 rs).0
          ≡ (if go then r ∷ (drain (admit c r).1 rs).0 else (drain (admit c r).1 rs).0)
    first true = refl
    first false = refl

-- A call of read sends a part of what is queued, queue by queue and in order: every result that is no
-- tick, and of the ticks of either kind exactly those whose key is above that of the last tick seen
-- before the call and of all ticks of the kind in front of it. The last ticks seen are the highest.
pub read-Sends :
    (c : Ticks) (queues : List (List Result))
    → Sends c (flatten queues) (read c queues).0 (read c queues).1
unfolding read
read-Sends c [] = Sends-none
read-Sends c (queue ∷ queues) =
    Sends-append (drain-Sends c queue) (read-Sends (drain c queue).1 queues)
