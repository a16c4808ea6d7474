-- ===== src/Combiner/Ordered/Front.antt =====
-- lib/combiner_ordered.c, next_message: what it skips and what it finds.
use odp_libtrace.Prelude.{
  ℕ, ◌≡◌, refl, sym, ap, ap₂, ◌∙◌, arith, true, List, [], ◌∷◌, ◌++◌, dec_lt, none, some,
}
use mathlib.Core.Path.{subst}
use odp_libtrace.Combiner.{
  ResultType, packet, tick_interval, tick_count, user, Result, Ticks, is_tick_interval,
  is_tick_count,
}
use odp_libtrace.Combiner.Ordered.{Peek, peek_queue, Next, next_message}
use odp_libtrace.Combiner.Order.{
  Climb, stay, climb, results, interval_keys, count_keys, mk, Passes, Passes-append, results-append,
}

-- The front of a queue is a result that is no tick and bears the key, or there is none and the key
-- is 0.
pub data Front : List Result → ℕ → Type 0 where
  empty : Front [] 0
  at : {r : Result} {rs : List Result} → results (r ∷ []) ≡ r ∷ [] → Front (r ∷ rs) r.key

-- What next_message leaves of a queue: no result but ticks is lost, and the ticks sent climb.
pub record Skips (c : Ticks) (queue : List Result) (n : Next) : Type 0 where
  pub kept : results n.queue ≡ results queue
  pub ticks_only : results n.sent ≡ []
  pub intervals : Climb c.last_ts_tick (interval_keys n.sent) n.ticks.last_ts_tick
  pub counts : Climb c.last_count_tick (count_keys n.sent) n.ticks.last_count_tick
  pub front : Front n.queue n.key

-- What peek_queue does to the front of a queue: it stays, or it is a tick and gone.
pub data Peeks (c : Ticks) : Result → List Result → Peek → Type 0 where
  stops :
      {r : Result} {rs : List Result}
      → results (r ∷ []) ≡ r ∷ []
      → Peeks c r rs record { key = some r.key; ticks = c; queue = r ∷ rs; sent = [] }
  pops :
      {r : Result} {rs : List Result} {s : List Result} {c' : Ticks}
      → results (r ∷ []) ≡ []
      → Passes c (r ∷ []) s c'
      → Peeks c r rs record { key = none; ticks = c'; queue = rs; sent = s }

by_equation :
    (c : Ticks) (r : Result) (rs : List Result) (p q : Peek)
    → p ≡ q
    → Peeks c r rs q
    → Peeks c r rs p
by_equation c r rs p q e s = subst (Peeks c r rs) (sym e) s

abbrev popped : Ticks → List Result → List Result → Peek
popped c rs s = record { key = none; ticks = c; queue = rs; sent = s }

pub peek_queue-Peeks :
    (c : Ticks) (key value : ℕ) (type : ResultType) (rs : List Result)
    → Peeks c (mk key value type) rs (peek_queue true c (mk key value type) rs)
unfolding peek_queue is_tick_interval is_tick_count
peek_queue-Peeks c key value packet rs = stops refl
peek_queue-Peeks c key value (user n) rs = stops refl
peek_queue-Peeks c key value tick_interval rs = elim (dec_lt c.last_ts_tick key) [
  | yes l ↦
      by_equation c (mk key value tick_interval) rs _
        (popped (record c { last_ts_tick = key }) rs (mk key value tick_interval ∷ []))
        (ground arith) (pops refl record { kept = refl; intervals = climb l stay; counts = stay })
  | no n ↦
      by_equation c (mk key value tick_interval) rs _ (popped c rs []) (ground arith)
        (pops refl record { kept = refl; intervals = stay; counts = stay })
]
peek_queue-Peeks c key value tick_count rs = elim (dec_lt c.last_count_tick key) [
  | yes l ↦
      by_equation c (mk key value tick_count) rs _
        (popped (record c { last_count_tick = key }) rs (mk key value tick_count ∷ []))
        (ground arith) (pops refl record { kept = refl; intervals = stay; counts = climb l stay })
  | no n ↦
      by_equation c (mk key value tick_count) rs _ (popped c rs []) (ground arith)
        (pops refl record { kept = refl; intervals = stay; counts = stay })
]

-- The loop goes on with `n` behind `p`.
abbrev go_on : Peek → Next → Next
go_on p n = elim p.key [
  | some key ↦ record { key = key; ticks = p.ticks; queue = p.queue; sent = p.sent }
  | none ↦ record { key = n.key; ticks = n.ticks; queue = n.queue; sent = p.sent ++ n.sent }
]

go_on-Skips :
    (c : Ticks) (r : Result) (rs : List Result) (p : Peek) (n : Next)
    → Peeks c r rs p
    → Skips p.ticks rs n
    → Skips c (r ∷ rs) (go_on p n)
go_on-Skips c r rs p n (stops e) k = record {
  kept = refl;
  ticks_only = refl;
  intervals = stay;
  counts = stay;
  front = at e;
}
go_on-Skips c r rs p n (pops {s = s} e a) k =
    let tail : Passes p.ticks n.sent n.sent n.ticks = record {
      kept = refl;
      intervals = k.intervals;
      counts = k.counts;
    } in
    let b = Passes-append a tail in
    record {
      kept = k.kept ∙ sym (results-append (r ∷ []) rs ∙ ap (λ l. l ++ results rs) e);
      ticks_only = results-append s n.sent ∙ ap₂ (λ x y. x ++ y) (a.kept ∙ e) k.ticks_only;
      intervals = b.intervals;
      counts = b.counts;
      front = k.front;
    }

-- In a parallel trace, next_message leaves a queue with its results in order and either an empty
-- queue and the key 0, or a front that is no tick and whose key it returns; what it sends are
-- ticks, and those of either kind climb.
pub next_message-Skips :
    (c : Ticks) (queue : List Result) → Skips c queue (next_message true c queue)
unfolding next_message
next_message-Skips c [] = record {
  kept = refl;
  ticks_only = refl;
  intervals = stay;
  counts = stay;
  front = empty;
}
next_message-Skips c (r ∷ rs) =
    let p = peek_queue true c r rs in
    go_on-Skips c r rs p (next_message true p.ticks rs) (peek_queue-Peeks c r.key r.value r.type rs)
      (next_message-Skips p.ticks rs)
