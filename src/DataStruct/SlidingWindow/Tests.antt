-- ===== src/DataStruct/SlidingWindow/Tests.antt =====
-- Runs of a sliding window, and its theorems at concrete windows.
use odp_libtrace.Prelude.{◌-◌, ◌^◌, ◌≡◌, refl, arith, List, [], ◌∷◌, some, none, true, false}
use odp_libtrace.DataStruct.SlidingWindow.{
  Window, Call, write, read, wrote, got, init, try_write, try_read, read_ready, run,
}
use odp_libtrace.DataStruct.SlidingWindow.Inv.{IsValid, init-IsValid}
use odp_libtrace.DataStruct.SlidingWindow.View
use odp_libtrace.DataStruct.SlidingWindow.Refine.{
  view, try_write_refines, try_read_refines, run_refines,
}

-- Three slots from number 2 ^ 64 - 1 on, the first of them in the middle of the array; items
-- 2 ^ 64 - 1 and 1 have come.
abbrev wrapped : Window
wrapped = record { start = 1; size = 3; start_number = 2 ^ 64 - 1; elements = 8 ∷ 7 ∷ 0 ∷ [] }

abbrev calls : List Call
calls = read ∷ read ∷ write 5 9 ∷ write 0 6 ∷ read ∷ read ∷ []

wrapped-IsValid : IsValid wrapped
wrapped-IsValid = omega arith

run-wrapped :
    run wrapped calls
    ≡ got (some (7, 2 ^ 64 - 1))
      ∷ got none
      ∷ wrote false
      ∷ wrote true
      ∷ got (some (6, 0))
      ∷ got (some (8, 1))
      ∷ []
unfolding run try_read try_write
run-wrapped = refl

ready : (read_ready wrapped ≡ true) × (read_ready (init 4 7) ≡ false)
unfolding read_ready init
ready = (refl, refl)

init-IsValid_example : IsValid (init 3 7)
init-IsValid_example = init-IsValid 3 7 (omega arith) (omega arith) (omega arith)

try_write_refines_example :
    let (done, w) = try_write wrapped 0 6 in (done, view w) ≡ View.try_write (view wrapped) 0 6
try_write_refines_example = try_write_refines 0 6 wrapped-IsValid

try_read_refines_example :
    let (out, w) = try_read wrapped in (out, view w) ≡ View.try_read (view wrapped)
try_read_refines_example = try_read_refines wrapped-IsValid

run_refines_example : run wrapped calls ≡ View.run (view wrapped) calls
run_refines_example = run_refines calls wrapped-IsValid
