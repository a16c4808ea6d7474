-- ===== src/DataStruct/Deque/Tests.antt =====
-- Runs of a queue of numbers.
use odp_libtrace.Prelude.{ℕ, ◌≡◌, refl, arith, List, [], ◌∷◌, some, none}
use odp_libtrace.DataStruct.Nodes.Allocator.{next_free, next_free-unused}
use odp_libtrace.DataStruct.Nodes.Sequence.{
  Call, push_back, push_front, pop_front, pop_tail, peek_tail, get_size, done, got, size, run,
  spec_run,
}
use odp_libtrace.DataStruct.Deque
use odp_libtrace.DataStruct.Deque.{init}
use odp_libtrace.DataStruct.Deque.Refine
use odp_libtrace.DataStruct.Deque.Refine.{step, deque_refines}
use odp_libtrace.DataStruct.Nodes.{load, set_next, set_prev, free}

abbrev calls : List (Call ℕ)
calls =
    push_back 4
    ∷ push_front 3
    ∷ push_back 5
    ∷ peek_tail
    ∷ pop_front
    ∷ pop_tail
    ∷ get_size
    ∷ pop_tail
    ∷ pop_front
    ∷ []

run-calls :
    run (step next_free) [] init calls
    ≡ some (
        done
        ∷ done
        ∷ done
        ∷ got (some 5)
        ∷ got (some 3)
        ∷ got (some 5)
        ∷ size 1
        ∷ got (some 4)
        ∷ got none
        ∷ [])
unfolding run step Refine.after Refine.popped Refine.peeked init Deque.push_back Deque.push_front
    Deque.pop_front Deque.pop_tail Deque.peek_tail Deque.get_size Deque.unlink_front
    Deque.unlink_tail Deque.clear_prev Deque.clear_next load set_next set_prev free
run-calls = refl

deque_refines_example : run (step next_free) [] init calls ≡ some (spec_run [] calls)
deque_refines_example = deque_refines next_free next_free-unused [] calls (omega arith)
