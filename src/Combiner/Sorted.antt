-- ===== src/Combiner/Sorted.antt =====
-- lib/combiner_sorted.c: everything is kept until the end, then sorted. A queue is a vector of
-- results; `qsort` of the libc, with the comparison it is given, is a parameter.
pub mod Gather
pub mod Final
pub mod Publish
mod Tests
use odp_libtrace.Prelude.{
  ℕ, zero, suc, ◌+◌, ◌-◌, ◌^◌, ◌==◌, ltb, ◌||◌, if◌then◌else◌, List, [], ◌∷◌, ◌++◌, Option, none,
  some, replicate, set, get_elem?,
}
use odp_libtrace.DataStruct.Vector.{Vector}
use odp_libtrace.DataStruct.Vector
use odp_libtrace.Combiner.{Result, is_tick_interval, is_tick_count}

-- `init_combiner` for a number of packet threads
unfoldable pub init_combiner : ℕ → List (Vector Result)
init_combiner threads = replicate threads Vector.init

-- `publish`; `none` where there is no queue of that thread.
unfoldable pub publish : List (Vector Result) → ℕ → Result → Option (List (Vector Result))
publish queues t_id res = elim (get_elem? queues t_id) [
  | none ↦ none
  | some vec ↦ some (set queues t_id (Vector.push_back vec res))
]

-- `sizeof(libtrace_result_t)`
abbrev pub result_size : ℕ
result_size = 24

-- `compare_result`, an `int` as its 32-bit pattern.
unfoldable pub compare_result : Result → Result → ℕ
compare_result r1 r2 = if ltb r1.key r2.key then 2 ^ 32 - 1 else if r1.key == r2.key then 0 else 1

-- The loop of `read_final` that appends every other queue to the first: the first queue, and what is
-- left of the others.
unfoldable pub gather :
    Vector Result → List (Vector Result) → Option (Vector Result × List (Vector Result))
gather first [] = some (first, [])
gather first (queue ∷ queues) = elim (Vector.append first queue) [
  | none ↦ none
  | some (first', queue') ↦ elim (gather first' queues) [
    | none ↦ none
    | some (last, queues') ↦ some (last, queue' ∷ queues')
  ]
]

-- The loop that sends, over `n` results from `a` on. `none`: the assertion on `get` fails, or the
-- result was never written.
unfoldable pub send_from : (n a : ℕ) → Vector Result → Option (List Result)
send_from zero a v = some []
send_from (suc n) a v =
    let rest = send_from n (suc a) v in
    elim (Vector.get v a) [
      | none ↦ none
      | some none ↦ none
      | some (some r) ↦ elim rest [
        | none ↦ none
        | some rs ↦ if is_tick_interval r || is_tick_count r then some rs else some (r ∷ rs)
      ]
    ]

-- `read_final`: what is sent, and the queues behind it.
unfoldable pub read_final :
    ((Result → Result → ℕ) → List (Option Result) → List (Option Result))
    → List (Vector Result)
    → Option (List Result × List (Vector Result))
read_final qsort [] = none
read_final qsort (first ∷ others) = elim (gather first others) [
  | none ↦ none
  | some (v, others') ↦
      let sorted = Vector.vector_qsort (qsort compare_result) result_size v in
      elim (send_from (Vector.get_size sorted) 0 sorted) [
        | none ↦ none
        | some sent ↦ some (sent, Vector.empty sorted ∷ others')
      ]
]
