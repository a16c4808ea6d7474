-- ===== src/DataStruct/LinkedList.antt =====
-- lib/data-struct/linked_list.c: a list with two ends, on doubly linked nodes. NULL for a list or an
-- item is `none`.
pub mod Refine
pub mod Walk
mod Tests
use odp_libtrace.Prelude.{
  ℕ, zero, suc, Bool, true, false, ◌&&◌, List, [], ◌∷◌, Option, none, some, ◌==◌, leb,
  if◌then◌else◌, Ptr, null, add64,
}
use odp_libtrace.DataStruct.Nodes.{Node, node, Heap, write, load, set_next, set_prev, free}
use odp_libtrace.DataStruct.Deque.{Queue, unlink_front, unlink_tail}

-- `libtrace_list_t` has the fields of `libtrace_queue_t`, less the lock.
abbrev pub LinkedList : Type 0
LinkedList = Queue

pub init : LinkedList
init = record { head = null; tail = null; size = 0 }

-- What a pop returns: -1, 0, or 1 with the item.
pub data Taken (A : Type 0) : Type 0 where
  refused : Taken A
  empty : Taken A
  took : A → Taken A

module _ {A : Type 0} where
  -- `new` is what malloc returns; `none` where an assertion fails or memory is misused.
  unfoldable pub push_front :
      Ptr → Option A → Heap A → Option LinkedList → Option (Heap A × Option LinkedList)
  push_front new none h l = some (h, l)
  push_front new (some d) h none = some (h, none)
  push_front new (some d) h (some l) =
      if l.head == null
      then (if (l.tail == null) && (l.size == 0)
          then some (
            write h new (some (node null null d)),
            some (record { head = new; tail = new; size = add64 l.size 1 }),
          )
          else none)
      else elim (set_prev (write h new (some (node null null d))) l.head new) [
        | none ↦ none
        | some g ↦ some (
          write g new (some (node l.head null d)),
          some (record l { head = new; size = add64 l.size 1 }),
        )
      ]

  unfoldable pub push_back :
      Ptr → Option A → Heap A → Option LinkedList → Option (Heap A × Option LinkedList)
  push_back new none h l = some (h, l)
  push_back new (some d) h none = some (h, none)
  push_back new (some d) h (some l) =
      if l.tail == null
      then (if (l.head == null) && (l.size == 0)
          then some (
            write h new (some (node null null d)),
            some (record { head = new; tail = new; size = add64 l.size 1 }),
          )
          else none)
      else elim (set_next (write h new (some (node null null d))) l.tail new) [
        | none ↦ none
        | some g ↦ some (
          write g new (some (node null l.tail d)),
          some (record l { tail = new; size = add64 l.size 1 }),
        )
      ]

  -- What is returned of an unlinked node.
  abbrev pub returned :
      Option (Option A × Heap A × LinkedList) → Option (Taken A × Heap A × Option LinkedList)
  returned none = none
  returned (some (none, h, l)) = some (empty, h, some l)
  returned (some (some x, h, l)) = some (took x, h, some l)

  -- `has_item` is false where `item` is NULL. The node is unlinked, read and freed by the statements
  -- of deque.c.
  unfoldable pub pop_front :
      (has_item : Bool) → Heap A → Option LinkedList → Option (Taken A × Heap A × Option LinkedList)
  pop_front has_item h none = some (refused, h, none)
  pop_front false h (some l) = some (refused, h, some l)
  pop_front true h (some l) =
      if l.head == null
      then some (empty, h, some l)
      else elim (load h l.head) [ none ↦ none | some n ↦ returned (unlink_front n h l) ]

  unfoldable pub pop_back :
      (has_item : Bool) → Heap A → Option LinkedList → Option (Taken A × Heap A × Option LinkedList)
  pop_back has_item h none = some (refused, h, none)
  pop_back false h (some l) = some (refused, h, some l)
  pop_back true h (some l) =
      if l.tail == null
      then some (empty, h, some l)
      else elim (load h l.tail) [ none ↦ none | some n ↦ returned (unlink_tail n h l) ]

  -- `while (index--)`, with the assertion that there is a next node.
  pub walk : ℕ → Heap A → Ptr → Option Ptr
  walk zero h p = some p
  walk (suc index) h p = elim (load h p) [
    | none ↦ none
    | some n ↦ let rest = walk index h n.next in if n.next == null then none else rest
  ]

  -- The result is NULL where `index` is out of range.
  pub get_index : Heap A → LinkedList → ℕ → Option Ptr
  get_index h l index = if leb l.size index then some null else walk index h l.head

  -- `while (tmp != NULL)`, on fuel.
  pub free_nodes : ℕ → Heap A → Ptr → Option (Heap A)
  free_nodes zero h tmp = none
  free_nodes (suc fuel) h tmp = if tmp == null then some h else elim (load h tmp) [
    | none ↦ none
    | some n ↦ elim (free h tmp) [ none ↦ none | some g ↦ free_nodes fuel g n.next ]
  ]

  pub deinit : Heap A → Option LinkedList → Option (Heap A)
  deinit h none = some h
  deinit h (some l) = free_nodes (suc l.size) h l.head

unfoldable pub get_size : Option LinkedList → ℕ
get_size none = 0
get_size (some l) = l.size
