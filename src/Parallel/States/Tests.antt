-- ===== src/Parallel/States/Tests.antt =====
-- A trace with two packet threads, and one that was never started.
use odp_libtrace.Prelude.{ℕ, ◌-◌, ◌^◌, ◌≡◌, refl, arith, ◌↔◌, true, false, List, [], ◌∷◌}
use odp_libtrace.Parallel.States.{
  state_new, state_finished, started, thread_change_state, check_finished, thread_paused,
  thread_running, thread_finished,
}
use odp_libtrace.Parallel.States.Counts.{Counted, AllFinished, run, started-Counts}
use odp_libtrace.Parallel.States.Pausing.{
  Control, ppause_enter, again, returns, waits, is_locked, is_waiting, Refused, ppause_locks,
}

abbrev both_end : List (ℕ × ℕ)
both_end =
    (0, thread_paused) ∷ (0, thread_running) ∷ (1, thread_finished) ∷ (0, thread_finished) ∷ []

both_end-finished : (run (started 2) both_end).state ≡ state_finished
unfolding run started thread_change_state check_finished
both_end-finished = refl

started-Counts_example :
    Counted (run (started 2) both_end)
    × (AllFinished (run (started 2) both_end) → (run (started 2) both_end).state ≡ state_finished)
started-Counts_example = started-Counts 2 both_end (omega arith) (omega arith) (omega arith)

abbrev new_trace : Control
new_trace = record { state = state_new; started = false; locked = false; has_error = false }

new_trace-locks :
    (ppause_enter new_trace
      ≡ returns (2 ^ 32 - 1) (record new_trace { has_error = true; locked = true }))
    × (again (ppause_enter new_trace) ≡ waits)
unfolding ppause_enter again
new_trace-locks = (refl, refl)

ppause_locks_example :
    ((is_locked (ppause_enter new_trace) ≡ true) ↔ Refused new_trace)
    × ((is_waiting (again (ppause_enter new_trace)) ≡ true) ↔ Refused new_trace)
ppause_locks_example = ppause_locks new_trace refl
