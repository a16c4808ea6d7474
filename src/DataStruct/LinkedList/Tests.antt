-- ===== src/DataStruct/LinkedList/Tests.antt =====
-- Runs of a list of numbers.
use odp_libtrace.Prelude.{
  ℕ, ◌≡◌, refl, arith, List, [], ◌∷◌, some, none, Ptr, null, true, false, if◌then◌else◌,
}
use odp_libtrace.DataStruct.Nodes.Allocator.{next_free, next_free-unused}
use odp_libtrace.DataStruct.Nodes.{node, Heap, read}
use odp_libtrace.DataStruct.Nodes.Chain.{has}
use odp_libtrace.DataStruct.Nodes.Sequence.{
  Call, push_back, push_front, pop_front, pop_tail, peek_tail, get_size, run, spec_run,
}
use odp_libtrace.DataStruct.Deque.Push.{Holds}
use odp_libtrace.DataStruct.LinkedList.{LinkedList, Taken, init, get_index, deinit, refused}
use odp_libtrace.DataStruct.LinkedList
use odp_libtrace.DataStruct.LinkedList.Refine.{step, list_refines}
use odp_libtrace.DataStruct.LinkedList.Walk.{deinit_lem}

abbrev calls : List (Call ℕ)
calls = push_back 4 ∷ push_front 3 ∷ pop_tail ∷ get_size ∷ push_back 6 ∷ peek_tail ∷ pop_front ∷ []

list_refines_example : run (step next_free) [] init calls ≡ some (spec_run [] calls)
list_refines_example = list_refines next_free next_free-unused [] calls (omega arith)

-- Without a list or an item, nothing happens.
absent :
    (LinkedList.push_back {A = ℕ} 1 (some 5) [] none ≡ some ([], none))
    × (LinkedList.push_front {A = ℕ} 1 none [] (some init) ≡ some ([], some init))
    × (LinkedList.pop_front {A = ℕ} false [] (some init) ≡ some (refused, [], some init))
    × (LinkedList.pop_back {A = ℕ} true [] none ≡ some (refused, [], none))
    × (LinkedList.get_size none ≡ 0)
unfolding LinkedList.push_back LinkedList.push_front LinkedList.pop_front LinkedList.pop_back
    LinkedList.get_size
absent = (refl, refl, refl, refl, refl)

-- Two nodes, at addresses 8 and 5, and one that is no part of the list.
abbrev heap : Heap ℕ
heap = (8, some (node 5 null 30)) ∷ (5, some (node null 8 40)) ∷ (6, some (node 8 5 50)) ∷ []

abbrev two : LinkedList
two = record { head = 8; tail = 5; size = 2 }

abbrev nodes : List (Ptr × ℕ)
nodes = (8, 30) ∷ (5, 40) ∷ []

two-Holds : Holds heap two nodes
two-Holds = record {
  head_first = refl;
  tail_final = refl;
  counted = refl;
  linked = (omega arith, refl, refl, (omega arith, refl, refl, tt));
}

deinit_lem_example :
    (g : Heap ℕ) × (deinit heap (some two) ≡ some g)
    × ((a : Ptr) → read g a ≡ (if has a nodes then none else read heap a))
deinit_lem_example = deinit_lem heap two nodes two-Holds
