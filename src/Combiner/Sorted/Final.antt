-- ===== src/Combiner/Sorted/Final.antt =====
-- lib/combiner_sorted.c, read_final: what is sent, and in which order.
use odp_libtrace.Prelude.{
  ℕ, suc, ◌^◌, ◌≤◌, ◌<◌, ◌≡◌, ◌≢◌, refl, ap, sym, ◌∙◌, arith, Bool, List, [], ◌∷◌, ◌++◌, map,
  Option, some, take, drop, length, length-append, length-take, length-map, get_elem?, take-map,
  drop-map,
}
use mathlib.Core.List.{append_assoc, map-append}
use odp_libtrace.DataStruct.Vector.{Vector, vector_qsort, get, get_size}
use odp_libtrace.DataStruct.Vector
use odp_libtrace.DataStruct.Vector.Lists.{contents, get_lem}
use odp_libtrace.DataStruct.Vector.Sort.{contents-vector_qsort, vector_qsort-IsValid}
use odp_libtrace.Combiner.{Result, is_tick_interval, is_tick_count}
use odp_libtrace.Combiner.Order.{results, results-append, flatten}
use odp_libtrace.Combiner.Ordered.Merge.Order.{count}
use odp_libtrace.Combiner.Sorted.{compare_result, result_size, gather, send_from, read_final}
use odp_libtrace.Combiner.Sorted.Gather.{Holds, AllHold, AllEmpty, Holds-size, gather-Gathered}

-- No result is found to be greater than the next.
abbrev pub InOrder : List Result → Type 0
InOrder [] = Unit {0}
InOrder (r ∷ []) = Unit {0}
InOrder (r ∷ s ∷ rs) = (compare_result r s ≢ 1) × InOrder (s ∷ rs)

-- What the documentation of `qsort` says, for elements that were written: they are put in order.
pub record Sorts (qsort : List (Option Result) → List (Option Result)) : Type 0 where
  pub sorted : List Result → List Result
  pub agrees : (rs : List Result) → qsort (map some rs) ≡ map some (sorted rs)
  pub as_many : (rs : List Result) → length (sorted rs) ≡ length rs
  pub same : (rs : List Result) (p : Result → Bool) → count p (sorted rs) ≡ count p rs
  pub in_order : (rs : List Result) → InOrder (sorted rs)

get_elem?-behind :
    (xs : List Result) (r : Result) (rs : List Result)
    → get_elem? (map some (xs ++ (r ∷ rs))) (length xs) ≡ some (some r)
get_elem?-behind [] r rs = refl
get_elem?-behind (x ∷ xs) r rs = get_elem?-behind xs r rs

send_from-suc :
    (n a : ℕ) (v : Vector Result) (r : Result) (rs : List Result)
    → get v a ≡ some (some r)
    → send_from n (suc a) v ≡ some (results rs)
    → send_from (suc n) a v ≡ some (results (r ∷ rs))
unfolding send_from is_tick_interval is_tick_count
send_from-suc n a v r rs e f = ground (arith, e, f)

-- The loop sends the elements that are no ticks.
send_from-results :
    (v : Vector Result) (done rs : List Result)
    → Holds v (done ++ rs)
    → send_from (length rs) (length done) v ≡ some (results rs)
unfolding send_from
send_from-results v done [] h = refl
send_from-results v done (r ∷ rs) h =
    let front =
      get_lem v (length done) h.valid
      ∙ ap (λ l. get_elem? l (length done)) h.held
      ∙ get_elem?-behind done r rs in
    let behind = append_assoc done (r ∷ []) rs in
    let rest = send_from-results v (done ++ (r ∷ [])) rs (rw behind h) in
    let next : length (done ++ (r ∷ [])) ≡ suc (length done) =
      omega (arith, length-append done (r ∷ [])) in
    send_from-suc (length rs) (length done) v r rs front (rw next at rest)

send_from-all :
    (v : Vector Result) (rs : List Result) → Holds v rs → send_from v.size 0 v ≡ some (results rs)
send_from-all v rs h = ap (λ n. send_from n 0 v) (Holds-size v rs h) ∙ send_from-results v [] rs h

-- A call that returns: the first 24 results put in order, the others behind them as they were.
pub record Sends (all : List Result) (out : Option (List Result × List (Vector Result)))
    : Type 0 where
  pub sent : List Result
  pub queues : List (Vector Result)
  pub returns : out ≡ some (sent, queues)
  pub first : List Result
  pub in_order : InOrder first
  pub same : (p : Result → Bool) → count p first ≡ count p (take result_size all)
  pub sends : sent ≡ results first ++ results (drop result_size all)
  pub empty : AllEmpty queues

module _ (sort : List (Option Result) → List (Option Result)) (ok : Sorts sort) (v : Vector Result)
    (rs : List Result) (h : Holds v rs) (many : result_size ≤ length rs) where
  front : List Result
  front = ok.sorted (take result_size rs)

  front-InOrder : InOrder front
  unfolding front
  front-InOrder = ok.in_order (take result_size rs)

  front-same : (p : Result → Bool) → count p front ≡ count p (take result_size rs)
  unfolding front
  front-same p = ok.same (take result_size rs) p

  sort-take : sort (take result_size (contents v)) ≡ map some front
  unfolding front
  sort-take =
      ap (λ l. sort (take result_size l)) h.held
      ∙ ap sort (take-map result_size rs some)
      ∙ ok.agrees (take result_size rs)

  length-sort_take : length (sort (take result_size (contents v))) ≡ result_size
  unfolding front
  length-sort_take =
      ap length sort-take
      ∙ length-map front some
      ∙ ok.as_many (take result_size rs)
      ∙ omega (arith, length-take result_size rs, many)

  vector_qsort-Holds : Holds (vector_qsort sort result_size v) (front ++ drop result_size rs)
  vector_qsort-Holds =
      let larger : result_size ≤ v.size = omega (arith, Holds-size v rs h, many) in
      record {
        valid = vector_qsort-IsValid sort result_size v length-sort_take h.valid larger;
        held =
            contents-vector_qsort sort result_size v length-sort_take h.valid larger
            ∙ ap (λ l. l ++ drop result_size (contents v)) sort-take
            ∙ ap (λ l. map some front ++ drop result_size l) h.held
            ∙ ap (λ l. map some front ++ l) (drop-map result_size rs some)
            ∙ sym (map-append some front (drop result_size rs));
      }

empty-Holds : (v : Vector Result) (rs : List Result) → Holds v rs → Holds (Vector.empty v) []
unfolding contents Vector.empty
empty-Holds v rs h = record {
  valid = record {
    room = h.valid.room;
    fits = omega arith;
    small = h.valid.small;
    allocated = h.valid.allocated;
  };
  held = refl;
}

read_final-some :
    (qsort : (Result → Result → ℕ) → List (Option Result) → List (Option Result))
    (first v : Vector Result) (others others' : List (Vector Result)) (sent : List Result)
    → gather first others ≡ some (v, others')
    → (let sorted = vector_qsort (qsort compare_result) result_size v in
        send_from sorted.size 0 sorted ≡ some sent)
    → read_final qsort (first ∷ others)
      ≡ some (sent, Vector.empty (vector_qsort (qsort compare_result) result_size v) ∷ others')
unfolding read_final Vector.get_size
read_final-some qsort first v others others' sent e f = ground (arith, e, f)

-- If the queues hold from 24 to 2 ^ 63 results and the libc sorts, read_final ends and empties every
-- queue; of the results that are no ticks it sends the first 24, queue by queue, put in order, and
-- behind them the others as they were published.
pub read_final-Sends :
    (qsort : (Result → Result → ℕ) → List (Option Result) → List (Option Result))
    (queues : List (Vector Result)) (rss : List (List Result))
    → Sorts (qsort compare_result)
    → AllHold queues rss
    → 0 < length queues
    → result_size ≤ length (flatten rss)
    → length (flatten rss) ≤ 2 ^ 63
    → Sends (flatten rss) (read_final qsort queues)
read_final-Sends qsort [] rss ok hs some_queue many short = absurd (omega arith)
read_final-Sends qsort (q ∷ qs) [] ok hs some_queue many short = absurd hs
read_final-Sends qsort (q ∷ qs) (rs ∷ rss) ok (h, hs) some_queue many short =
    let all = rs ++ flatten rss in
    let g = gather-Gathered q rs qs rss h hs short in
    let sort = qsort compare_result in
    let sorted = vector_qsort sort result_size g.first in
    let first = front sort ok g.first all g.holds many in
    let now = vector_qsort-Holds sort ok g.first all g.holds many in
    record {
      sent = results (first ++ drop result_size all);
      queues = Vector.empty sorted ∷ g.others;
      returns =
          read_final-some qsort q g.first qs g.others (results (first ++ drop result_size all))
            g.returns (send_from-all sorted (first ++ drop result_size all) now);
      first = first;
      in_order = front-InOrder sort ok g.first all g.holds many;
      same = front-same sort ok g.first all g.holds many;
      sends = results-append first (drop result_size all);
      empty = (empty-Holds sorted (first ++ drop result_size all) now, g.empty);
    }
