-- ===== src/Parallel/States.antt =====
-- lib/trace_parallel.c and lib/libtrace_int.h: the states of a trace and of its packet threads, their
-- counts, and the lock that trace_ppause takes.
pub mod Counts
pub mod Pausing
mod Tests
use odp_libtrace.Prelude.{
  ℕ, zero, suc, ◌+◌, ◌*◌, ◌%◌, ◌^◌, Bool, true, false, not, ◌||◌, ◌==◌, if◌then◌else◌, List, [],
  ◌∷◌, get_or, set, length, replicate, add32, sub32,
}

-- `enum thread_states`, as its numbers; `THREAD_STATE_MAX` is 4.
abbrev pub thread_running : ℕ
thread_running = 0

abbrev pub thread_finishing : ℕ
thread_finishing = 1

abbrev pub thread_finished : ℕ
thread_finished = 2

abbrev pub thread_paused : ℕ
thread_paused = 3

-- `enum trace_state`
pub data TraceState : Type 0 where
  state_new : TraceState
  state_running : TraceState
  state_pausing : TraceState
  state_paused : TraceState
  state_finished : TraceState
  state_finishing : TraceState
  state_destroyed : TraceState
  state_joined : TraceState
  state_error : TraceState

-- The fields of `libtrace_t` that a change of state uses: `threads` holds the `state` of each packet
-- thread, `perpkt_thread_states` the four counts, an `int` each as its 32-bit pattern.
pub record Trace : Type 0 where
  pub state : TraceState
  pub threads : List ℕ
  pub perpkt_thread_states : List ℕ

-- The test at the end of `thread_change_state`, which a thread of any type makes.
unfoldable pub check_finished : Trace → Trace
check_finished trace =
    if get_or trace.perpkt_thread_states thread_finished 0 == length trace.threads
    then record trace { state = state_finished }
    else trace

-- `thread_change_state` for packet thread `i`, with the lock held.
unfoldable pub thread_change_state : Trace → (i : ℕ) → (new_state : ℕ) → Trace
thread_change_state trace i new_state =
    let prev_state = get_or trace.threads i 0 in
    let counts = trace.perpkt_thread_states in
    let less = set counts prev_state (sub32 (get_or counts prev_state 0) 1) in
    let more = set less new_state (add32 (get_or less new_state 0) 1) in
    check_finished
      (record trace { threads = set trace.threads i new_state; perpkt_thread_states = more })

-- What `trace_pstart` sets for `perpkt_thread_count` threads.
unfoldable pub started : (perpkt_thread_count : ℕ) → Trace
started n = record {
  state = state_running;
  threads = replicate n thread_running;
  perpkt_thread_states = n ∷ 0 ∷ 0 ∷ 0 ∷ [];
}
