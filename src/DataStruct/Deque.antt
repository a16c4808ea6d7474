-- ===== src/DataStruct/Deque.antt =====
-- lib/data-struct/deque.c: a queue with two ends, on doubly linked nodes. An item is one value; a
-- call holds the lock of the queue, so it is one step.
pub mod Push
pub mod Pop
pub mod Refine
mod Tests
use odp_libtrace.Prelude.{
  ℕ, zero, suc, ◌+◌, Bool, true, false, not, ◌&&◌, List, [], ◌∷◌, Option, none, some, ◌==◌, leb,
  if◌then◌else◌, Ptr, null, add64, sub64,
}
use odp_libtrace.DataStruct.Nodes.{Node, node, Heap, write, load, set_next, set_prev, free}

-- `libtrace_queue_t`
pub record Queue : Type 0 where
  pub head : Ptr
  pub tail : Ptr
  pub size : ℕ

-- `libtrace_deque_init`; `libtrace_zero_deque` leaves the same.
unfoldable pub init : Queue
init = record { head = null; tail = null; size = 0 }

module _ {A : Type 0} where
  -- `new` is what malloc returns; `none` where an assertion fails or memory is misused.
  unfoldable pub push_back : Ptr → A → Heap A → Queue → Option (Heap A × Queue)
  push_back new d h q =
      if q.head == null
      then (if (q.tail == null) && (q.size == 0)
          then some (
            write h new (some (node null null d)),
            record { head = new; tail = new; size = add64 q.size 1 },
          )
          else none)
      else if q.tail == null
      then none
      else elim (set_next (write h new (some (node null null d))) q.tail new) [
        | none ↦ none
        | some g ↦ some (
          write g new (some (node null q.tail d)),
          record q { tail = new; size = add64 q.size 1 },
        )
      ]

  unfoldable pub push_front : Ptr → A → Heap A → Queue → Option (Heap A × Queue)
  push_front new d h q =
      if q.head == null
      then (if (q.tail == null) && (q.size == 0)
          then some (
            write h new (some (node null null d)),
            record { head = new; tail = new; size = add64 q.size 1 },
          )
          else none)
      else elim (set_prev (write h new (some (node null null d))) q.head new) [
        | none ↦ none
        | some g ↦ some (
          write g new (some (node q.head null d)),
          record q { head = new; size = add64 q.size 1 },
        )
      ]

  -- The result is `some none` where the function returns 0.
  unfoldable pub peek_front : Heap A → Queue → Option (Option A)
  peek_front h q =
      if q.head == null
      then some none
      else elim (load h q.head) [ none ↦ none | some n ↦ some (some n.item) ]

  unfoldable pub peek_tail : Heap A → Queue → Option (Option A)
  peek_tail h q =
      if q.tail == null
      then some none
      else elim (load h q.tail) [ none ↦ none | some n ↦ some (some n.item) ]

  -- The heap after `if (q->head) q->head->prev = NULL`, and after its counterpart in `pop_tail`.
  unfoldable pub clear_prev : Heap A → Ptr → Option (Heap A)
  clear_prev h p = if p == null then some h else set_prev h p null

  unfoldable pub clear_next : Heap A → Ptr → Option (Heap A)
  clear_next h p = if p == null then some h else set_next h p null

  -- The node `n` at `q.head` is unlinked, read and freed.
  unfoldable pub unlink_front : Node A → Heap A → Queue → Option (Option A × Heap A × Queue)
  unlink_front n h q = elim (clear_prev h n.next) [
    | none ↦ none
    | some g ↦
        let size = sub64 q.size 1 in
        elim (free g q.head) [
          | none ↦ none
          | some g' ↦ some (
            some n.item,
            g',
            record { head = n.next; size = size; tail = if leb size 1 then n.next else q.tail },
          )
        ]
  ]

  unfoldable pub pop_front : Heap A → Queue → Option (Option A × Heap A × Queue)
  pop_front h q =
      if q.head == null
      then some (none, h, q)
      else elim (load h q.head) [ none ↦ none | some n ↦ unlink_front n h q ]

  unfoldable pub unlink_tail : Node A → Heap A → Queue → Option (Option A × Heap A × Queue)
  unlink_tail n h q = elim (clear_next h n.prev) [
    | none ↦ none
    | some g ↦
        let size = sub64 q.size 1 in
        elim (free g q.tail) [
          | none ↦ none
          | some g' ↦ some (
            some n.item,
            g',
            record { tail = n.prev; size = size; head = if leb size 1 then n.prev else q.head },
          )
        ]
  ]

  unfoldable pub pop_tail : Heap A → Queue → Option (Option A × Heap A × Queue)
  pop_tail h q =
      if q.tail == null
      then some (none, h, q)
      else elim (load h q.tail) [ none ↦ none | some n ↦ unlink_tail n h q ]

unfoldable pub get_size : Queue → ℕ
get_size q = q.size
