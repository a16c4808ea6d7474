-- ===== src/Combiner/Sorted/Publish.antt =====
-- lib/combiner_sorted.c, publish: from a new combiner through any run of publishes to the final read.
use odp_libtrace.Prelude.{
  ℕ, zero, suc, ◌+◌, ◌^◌, ◌≤◌, ◌<◌, ◌≡◌, refl, ap, sym, ◌∙◌, arith, List, [], ◌∷◌, ◌++◌, Option,
  none, some, length, length-append, length-replicate, length-set, replicate, set, get_elem?,
}
use mathlib.Core.List.{map-append}
use odp_libtrace.DataStruct.Vector.{Vector, init, push_back}
use odp_libtrace.DataStruct.Vector.Lists.{contents, push_back_lem}
use odp_libtrace.Combiner.{Result}
use odp_libtrace.Combiner.Order.{flatten}
use odp_libtrace.Combiner.Sorted.{init_combiner, publish, compare_result, result_size, read_final}
use odp_libtrace.Combiner.Sorted.Gather.{Holds, AllHold, Holds-size}
use odp_libtrace.Combiner.Sorted.Final.{Sorts, Sends, read_final-Sends}

-- A run of calls of publish, each by a thread.
unfoldable pub publish_all :
    List (Vector Result) → List (ℕ × Result) → Option (List (Vector Result))
publish_all queues [] = some queues
publish_all queues ((t_id, r) ∷ ps) = elim (publish queues t_id r) [
  | none ↦ none
  | some queues' ↦ publish_all queues' ps
]

-- The results of each thread, in the order in which it published them.
abbrev pub add : List (List Result) → ℕ → Result → List (List Result)
add [] t_id r = []
add (rs ∷ rss) zero r = (rs ++ (r ∷ [])) ∷ rss
add (rs ∷ rss) (suc t_id) r = rs ∷ add rss t_id r

abbrev pub add_all : List (List Result) → List (ℕ × Result) → List (List Result)
add_all rss [] = rss
add_all rss ((t_id, r) ∷ ps) = add_all (add rss t_id r) ps

abbrev pub by_thread : ℕ → List (ℕ × Result) → List (List Result)
by_thread threads ps = add_all (replicate threads []) ps

abbrev pub Threads : ℕ → List (ℕ × Result) → Type 0
Threads n [] = Unit {0}
Threads n ((t_id, r) ∷ ps) = (t_id < n) × Threads n ps

push_back-Holds :
    (v : Vector Result) (rs : List Result) (r : Result)
    → Holds v rs
    → length rs < 2 ^ 63
    → Holds (push_back v r) (rs ++ (r ∷ []))
push_back-Holds v rs r h small =
    let (ok, e) = push_back_lem v r h.valid (omega (arith, Holds-size v rs h, small)) in
    record {
      valid = ok;
      held = e ∙ ap (λ l. l ++ (some r ∷ [])) h.held ∙ sym (map-append some rs (r ∷ []));
    }

record Published (qs : List (Vector Result)) (rss : List (List Result)) (t_id : ℕ) (r : Result)
    : Type 0 where
  pub queue : Vector Result
  pub found : get_elem? qs t_id ≡ some queue
  pub now : AllHold (set qs t_id (push_back queue r)) (add rss t_id r)

published :
    (qs : List (Vector Result)) (rss : List (List Result)) (t_id : ℕ) (r : Result)
    → AllHold qs rss
    → t_id < length qs
    → length (flatten rss) < 2 ^ 63
    → Published qs rss t_id r
published [] rss t_id r hs there small = absurd (omega arith)
published (q ∷ qs) [] t_id r hs there small = absurd hs
published (q ∷ qs) (rs ∷ rss) zero r (h, hs) there small = record {
  queue = q;
  found = refl;
  now = (push_back-Holds q rs r h (omega (arith, small, length-append rs (flatten rss))), hs);
}
published (q ∷ qs) (rs ∷ rss) (suc t_id) r (h, hs) there small =
    let rest =
      published qs rss t_id r hs (omega arith)
        (omega (arith, small, length-append rs (flatten rss))) in
    record { queue = rest.queue; found = rest.found; now = (h, rest.now) }

length-add :
    (qs : List (Vector Result)) (rss : List (List Result)) (t_id : ℕ) (r : Result)
    → AllHold qs rss
    → t_id < length qs
    → length (flatten (add rss t_id r)) ≡ suc (length (flatten rss))
length-add [] rss t_id r hs there = absurd (omega arith)
length-add (q ∷ qs) [] t_id r hs there = absurd hs
length-add (q ∷ qs) (rs ∷ rss) zero r (h, hs) there = omega (
  arith,
  length-append (rs ++ (r ∷ [])) (flatten rss),
  length-append rs (r ∷ []),
  length-append rs (flatten rss),
)
length-add (q ∷ qs) (rs ∷ rss) (suc t_id) r (h, hs) there = omega (
  arith,
  length-append rs (flatten (add rss t_id r)),
  length-append rs (flatten rss),
  length-add qs rss t_id r hs (omega arith),
)

publish-some :
    (qs : List (Vector Result)) (t_id : ℕ) (r : Result) (q : Vector Result)
    → get_elem? qs t_id ≡ some q
    → publish qs t_id r ≡ some (set qs t_id (push_back q r))
unfolding publish
publish-some qs t_id r q e = ground (arith, e)

-- The queues behind a run of publishes.
record Ran (n : ℕ) (rss : List (List Result)) (ps : List (ℕ × Result))
    (out : Option (List (Vector Result))) : Type 0 where
  pub queues : List (Vector Result)
  pub returns : out ≡ some queues
  pub as_many : length queues ≡ n
  pub hold : AllHold queues (add_all rss ps)
  pub total : length (flatten (add_all rss ps)) ≡ length (flatten rss) + length ps

publish_all-cons :
    (qs qs' : List (Vector Result)) (t_id : ℕ) (r : Result) (ps : List (ℕ × Result))
    → publish qs t_id r ≡ some qs'
    → publish_all qs ((t_id, r) ∷ ps) ≡ publish_all qs' ps
unfolding publish_all
publish_all-cons qs qs' t_id r ps e = ground (arith, e)

publish_all-Ran :
    (n : ℕ) (qs : List (Vector Result)) (rss : List (List Result)) (ps : List (ℕ × Result))
    → AllHold qs rss
    → length qs ≡ n
    → Threads n ps
    → length (flatten rss) + length ps ≤ 2 ^ 63
    → Ran n rss ps (publish_all qs ps)
unfolding publish_all
publish_all-Ran n qs rss [] hs size ts short = record {
  queues = qs;
  returns = refl;
  as_many = size;
  hold = hs;
  total = omega arith;
}
publish_all-Ran n qs rss ((t_id, r) ∷ ps) hs size (t, ts) short =
    let there : t_id < length qs = omega (arith, size, t) in
    let p = published qs rss t_id r hs there (omega arith) in
    let qs' = set qs t_id (push_back p.queue r) in
    let more = length-add qs rss t_id r hs there in
    let rest =
      publish_all-Ran n qs' (add rss t_id r) ps p.now
        (length-set qs t_id (push_back p.queue r) ∙ size) ts (omega (arith, more, short)) in
    record {
      queues = rest.queues;
      returns =
          publish_all-cons qs qs' t_id r ps (publish-some qs t_id r p.queue p.found) ∙ rest.returns;
      as_many = rest.as_many;
      hold = rest.hold;
      total = omega (arith, rest.total, more);
    }

init-Holds : Holds init []
unfolding contents init
init-Holds = record {
  valid = record { room = omega arith; fits = omega arith; small = omega arith; allocated = refl };
  held = refl;
}

init-AllHold : (threads : ℕ) → AllHold (replicate threads init) (replicate threads [])
init-AllHold zero = tt
init-AllHold (suc threads) = (init-Holds, init-AllHold threads)

flatten-replicate : (threads : ℕ) → flatten (replicate threads []) ≡ []
flatten-replicate zero = refl
flatten-replicate (suc threads) = flatten-replicate threads

init_combiner-Ran :
    (threads : ℕ) (ps : List (ℕ × Result))
    → Threads threads ps
    → length ps ≤ 2 ^ 63
    → Ran threads (replicate threads []) ps (publish_all (init_combiner threads) ps)
unfolding init_combiner
init_combiner-Ran threads ps ts short =
    publish_all-Ran threads (replicate threads init) (replicate threads []) ps
      (init-AllHold threads) (length-replicate threads init) ts
      (omega (arith, ap length (flatten-replicate threads), short))

-- If the libc sorts, a new combiner takes any run of 24 to 2 ^ 63 publishes by its threads, and the
-- final read behind it ends and empties every queue; of the results that are no ticks it sends the
-- first 24, thread by thread, put in order, and behind them the others as they were published.
pub publish_all-Sends :
    (qsort : (Result → Result → ℕ) → List (Option Result) → List (Option Result)) (threads : ℕ)
    (ps : List (ℕ × Result))
    → Sorts (qsort compare_result)
    → 0 < threads
    → Threads threads ps
    → result_size ≤ length ps
    → length ps ≤ 2 ^ 63
    → (queues : List (Vector Result)) × (publish_all (init_combiner threads) ps ≡ some queues)
      × Sends (flatten (by_thread threads ps)) (read_final qsort queues)
publish_all-Sends qsort threads ps ok some_thread ts many short =
    let ran = init_combiner-Ran threads ps ts short in
    let none_before = ap length (flatten-replicate threads) in
    let size : length (flatten (by_thread threads ps)) ≡ length ps =
      omega (arith, ran.total, none_before) in
    (
      ran.queues,
      ran.returns,
      read_final-Sends qsort ran.queues (by_thread threads ps) ok ran.hold
          (omega (arith, ran.as_many, some_thread)) (omega (arith, size, many))
          (omega (arith, size, short)),
    )
