-- ===== src/Combiner/Ordered/Merge.antt =====
-- lib/combiner_ordered.c, read_internal: the merge of the queues by key.
pub mod Order
pub mod Slots
pub mod Scan
pub mod Final
pub mod Loop
pub mod Step
use odp_libtrace.Prelude.{
  ℕ, zero, suc, ◌+◌, ◌-◌, ◌^◌, Bool, true, false, not, ◌&&◌, ◌||◌, List, [], ◌∷◌, ◌++◌, Option,
  none, some, ltb, leb, ◌==◌, if◌then◌else◌, get_elem?, set, length, map,
}
use odp_libtrace.Combiner.{Result, Ticks}
use odp_libtrace.Combiner.Ordered.{Peek, peek_queue, Next, next_message}

-- A queue with its entries in `live` and `key`.
pub record Slot : Type 0 where
  pub queue : List Result
  pub live : Bool
  pub key : ℕ

-- The variables of `read_internal`; `min_queue` is `none` for -1.
pub record Vars : Type 0 where
  pub min_key : ℕ
  pub min_queue : Option ℕ
  pub live_count : ℕ
  pub allactive : Bool
  pub ticks : Ticks

-- A queue in the first loop that is not alive.
unfoldable pub inactive : List Result → Ticks → Vars → Slot × Vars
inactive v c s =
    (record { queue = v; live = false; key = 0 }, record s { allactive = false; ticks = c })

-- A queue in the first loop whose front has the key `peeked`.
unfoldable pub active : ℕ → ℕ → List Result → Ticks → Vars → Slot × Vars
active i peeked v c s = (
  record { queue = v; live = true; key = peeked },
  if (i == 0) || ltb peeked s.min_key
      then record s {
        live_count = s.live_count + 1;
        ticks = c;
        min_key = peeked;
        min_queue = some i;
      }
      else record s { live_count = s.live_count + 1; ticks = c },
)

-- The body of the first loop, with what it sends.
unfoldable pub check_one : Bool → ℕ → List Result → Vars → (Slot × Vars) × List Result
check_one is_parallel i [] s = (inactive [] s.ticks s, [])
check_one is_parallel i (r ∷ rs) s =
    let p = peek_queue is_parallel s.ticks r rs in
    elim p.key [
      | none ↦ (inactive p.queue p.ticks s, p.sent)
      | some peeked ↦ (active i peeked p.queue p.ticks s, p.sent)
    ]

unfoldable pub check : Bool → ℕ → List (List Result) → Vars → (List Slot × Vars) × List Result
check is_parallel i [] s = (([], s), [])
check is_parallel i (v ∷ vs) s =
    let ((slot, s'), out) = check_one is_parallel i v s in
    let ((slots, s''), more) = check is_parallel (suc i) vs s' in ((slot ∷ slots, s''), out ++ more)

-- `for (i = 0; …) if (live[i] && min_key >= key[i]) …`, from the index `i` on.
unfoldable pub rescan : ℕ → List Slot → ℕ → Option ℕ → ℕ × Option ℕ
rescan i [] min_key min_queue = (min_key, min_queue)
rescan i (s ∷ ss) min_key min_queue =
    if s.live && leb s.key min_key
    then rescan (suc i) ss s.key (some i)
    else rescan (suc i) ss min_key min_queue

-- The queue at `min_queue`, at the index `i`, goes on with the next key.
unfoldable pub keep_min : ℕ → Slot → Next → List Slot → Vars → List Slot × Vars
keep_min i slot n slots s =
    let slots' = set slots i (record slot { queue = n.queue; key = n.key }) in
    let (min_key, min_queue) = rescan 0 slots' n.key (some i) in
    if leb n.key s.min_key
    then (slots', record s { ticks = n.ticks; min_key = n.key })
    else (slots', record s { ticks = n.ticks; min_key = min_key; min_queue = min_queue })

-- It has no next key.
unfoldable pub drop_min : ℕ → Slot → Next → List Slot → Vars → List Slot × Vars
drop_min i slot n slots s =
    let slots' = set slots i (record { queue = n.queue; live = false; key = 0 }) in
    let (min_key, min_queue) = rescan 0 slots' (2 ^ 64 - 1) none in
    (
      slots',
      record {
        min_key = min_key;
        min_queue = min_queue;
        live_count = s.live_count - 1;
        allactive = false;
        ticks = n.ticks;
      },
    )

-- The body of the second loop: what it sends, and what it leaves; `none` where `min_queue` is not
-- the index of a queue, or the queue is empty.
unfoldable pub pop_min : Bool → List Slot → Vars → Option (List Result × List Slot × Vars)
pop_min is_parallel slots s = elim s.min_queue [
  | none ↦ none
  | some i ↦ elim (get_elem? slots i) [
    | none ↦ none
    | some slot ↦ elim slot.queue [
      | [] ↦ none
      | r ∷ rs ↦
          let n = next_message is_parallel s.ticks rs in
          let (slots', s') =
            if n.key == 0 then drop_min i slot n slots s else keep_min i slot n slots s in
          some (r ∷ n.sent, slots', s')
    ]
  ]
]

-- What a call leaves, and what it sends.
pub record Merged : Type 0 where
  pub queues : List (List Result)
  pub ticks : Ticks
  pub sent : List Result

abbrev pub queues_of : List Slot → List (List Result)
queues_of [] = []
queues_of (s ∷ ss) = s.queue ∷ queues_of ss

-- The second loop, `none` also where the fuel is used up.
unfoldable pub merge : ℕ → Bool → (final : Bool) → List Slot → Vars → Option Merged
merge zero is_parallel final slots s = none
merge (suc fuel) is_parallel final slots s =
    if s.allactive || (not (s.live_count == 0) && final)
    then elim (pop_min is_parallel slots s) [
      | none ↦ none
      | some (out, slots', s') ↦ elim (merge fuel is_parallel final slots' s') [
        | none ↦ none
        | some m ↦ some (record m { sent = out ++ m.sent })
      ]
    ]
    else some (record { queues = queues_of slots; ticks = s.ticks; sent = [] })

abbrev pub total : List (List Result) → ℕ
total [] = 0
total (v ∷ vs) = length v + total vs

unfoldable pub read_internal : Bool → (final : Bool) → Ticks → List (List Result) → Option Merged
read_internal is_parallel final c queues =
    let start : Vars = record {
      min_key = 2 ^ 64 - 1;
      min_queue = none;
      live_count = 0;
      allactive = true;
      ticks = c;
    } in
    let ((slots, s), out) = check is_parallel 0 queues start in
    elim (merge (suc (total queues)) is_parallel final slots s) [
      | none ↦ none
      | some m ↦ some (record m { sent = out ++ m.sent })
    ]

unfoldable pub read : Bool → Ticks → List (List Result) → Option Merged
read is_parallel c queues = read_internal is_parallel false c queues

abbrev pub all_empty : List (List Result) → Bool
all_empty [] = true
all_empty (v ∷ vs) = (length v == 0) && all_empty vs

-- `read_final`, on fuel.
unfoldable pub read_final : ℕ → Bool → Ticks → List (List Result) → Option Merged
read_final zero is_parallel c queues = none
read_final (suc fuel) is_parallel c queues = elim (read_internal is_parallel true c queues) [
  | none ↦ none
  | some m ↦
      if all_empty m.queues then some m else elim (read_final fuel is_parallel m.ticks m.queues) [
        | none ↦ none
        | some m' ↦ some (record m' { sent = m.sent ++ m'.sent })
      ]
]
