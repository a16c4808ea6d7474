-- ===== src/DataStruct/RingBuffer/Threads/Tests.antt =====
-- A run of the two threads.
use odp_libtrace.Prelude.{◌≡◌, refl, arith, [], ◌∷◌, ◌++◌, false}
use odp_libtrace.DataStruct.RingBuffer.State.{Ring}
use odp_libtrace.DataStruct.RingBuffer.{nb_full, is_full, is_empty}
use odp_libtrace.DataStruct.RingBuffer.Inv.{IsValid}
use odp_libtrace.DataStruct.RingBuffer.Refine.{contents}
use odp_libtrace.DataStruct.RingBuffer.Threads.{
  Reader, System, Step, check_full, store_value, move_end, check_empty, Reach, here, next, store,
  advance_end,
}
use odp_libtrace.DataStruct.RingBuffer.Threads.Safety.{start_on, fifo, progress}

abbrev fresh : Ring
fresh = record {
  start = 2;
  size = 4;
  mode = 0;
  elements = 0 ∷ 0 ∷ 0 ∷ 0 ∷ [];
  wlock = false;
  rlock = false;
  end = 2;
}

fresh-IsValid : IsValid fresh
fresh-IsValid = omega arith

-- The writer stores 9 and publishes it; the reader has seen that the ring is not empty.
midway :
    Reach
      (start_on fresh)
      (record (start_on (advance_end (store fresh 9))) { sent = 9 ∷ []; reader = Reader.admitted })
unfolding is_full is_empty store advance_end
midway =
    next (next (next (next here (check_full 9 refl refl)) (store_value 9 refl)) (move_end 9 refl))
      (check_empty refl refl)

fifo_example : 9 ∷ [] ≡ [] ++ contents (advance_end (store fresh 9))
unfolding nb_full
fifo_example = fifo fresh-IsValid refl midway

progress_example :
    (u : System) × Step
      (record (start_on (advance_end (store fresh 9))) { sent = 9 ∷ []; reader = Reader.admitted })
      u
unfolding nb_full
progress_example = progress fresh-IsValid refl midway
