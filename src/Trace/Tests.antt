-- ===== src/Trace/Tests.antt =====
-- Concrete times, ports, lengths and reads.
use odp_libtrace.Prelude.{
  ℕ, ◌+◌, ◌*◌, ◌^◌, ◌≤◌, ◌≡◌, refl, arith, true, false, List, [], ◌∷◌, none, some, if◌then◌else◌,
  min, ltb, ◌||◌, ◌&&◌, ◌==◌, ◌%◌,
}
use odp_libtrace.Trace.Time.{
  Timeval, Timespec, Clock, erf_of_timeval, timeval_of_erf, erf_of_timespec, timeval_round_trip,
  trace_get_timeval, trace_get_erf_timestamp, timeval_of_timespec,
}
use odp_libtrace.Trace.Ports.{use_source, use_dest, server_port, class, server_port-class}
use odp_libtrace.Trace.Length
use odp_libtrace.Trace.Length.{
  Format, minus_one, negative, trace_get_packet_buffer, trace_get_capture_length,
  trace_set_capture_length, packet_buffer-remaining,
}
use odp_libtrace.Trace.Reading.{
  Event, packet, eof, Verdict, drops, matches, Trace, read_all, trace_read_packet, read_loop,
}
use odp_libtrace.Trace.Reading.Order.{kept, Gets, read_all-Gets}

abbrev noon : Timeval
noon = record { tv_sec = 1400000000; tv_usec = 999999 }

there_and_back :
    timeval_of_erf (erf_of_timeval noon) ≡ record { tv_sec = 1400000000; tv_usec = 999998 }
unfolding timeval_of_erf erf_of_timeval
there_and_back = refl

-- A format that knows nanoseconds only.
abbrev clock : Clock ℕ
clock = record {
  get_erf_timestamp = none;
  get_timeval = none;
  get_timespec = some (record { ts_sec = 5; ts_nsec = 500000000 });
  get_seconds = none;
}

clock_read :
    (trace_get_timeval (λ s. record { tv_sec = s; tv_usec = 0 }) clock
      ≡ some (record { tv_sec = 5; tv_usec = 500000 }))
    × (trace_get_erf_timestamp (λ s. s * 2 ^ 32) clock ≡ 5 * 2 ^ 32 + 2 ^ 31)
unfolding trace_get_timeval trace_get_erf_timestamp timeval_of_timespec erf_of_timespec
clock_read = (refl, refl)

timeval_round_trip_example :
    let back = timeval_of_erf (erf_of_timeval noon) in
    (back.tv_sec ≡ 1400000000) × (back.tv_usec ≤ 999999) × (999999 ≤ back.tv_usec + 1)
timeval_round_trip_example = timeval_round_trip noon (omega arith) (omega arith)

abbrev late : Timespec
late = record { ts_sec = 7; ts_nsec = 999999999 }

server_port-class_example : server_port 40000 80 ≡ (
    if ltb (class 40000) (class 80) || ((class 40000 == class 80) && ltb 40000 80)
    then use_source
    else use_dest)
server_port-class_example = server_port-class 40000 80

http : server_port 40000 80 ≡ use_dest
unfolding server_port
http = refl

abbrev ethernet : Format
ethernet = record {
  get_capture_length = some 96;
  get_wire_length = some 60;
  set_capture_length = some (λ size. min size 96);
}

abbrev unread : Length.Packet
unread = record { capture_length = minus_one; wire_length = minus_one; payload = 4096 }

snapped_to_50 : (trace_set_capture_length ethernet unread 50).0 ≡ 50
unfolding trace_set_capture_length
snapped_to_50 = refl

packet_buffer-remaining_example :
    trace_get_packet_buffer ethernet unread
    ≡ some (
      4096,
      (if negative 60 then 96 else min 96 60),
      record { capture_length = 96; wire_length = 60; payload = 4096 },
    )
packet_buffer-remaining_example =
    packet_buffer-remaining ethernet unread 96 60 refl refl refl refl (omega arith) refl
      (omega arith)

-- A trace with a filter for odd packets, and a snap length.
abbrev filtered : Trace
filtered = record {
  err = false;
  started = true;
  has_read = true;
  has_filter = true;
  snaplen = 100;
  filtered_packets = 0;
  accepted_packets = 0;
  sequence_number = 0;
}

odd : ℕ → Verdict
odd p = if ltb 0 (p % 2) then matches else drops

abbrev events : List (Event ℕ)
events = packet 3 64 ∷ packet 4 64 ∷ packet 501 64 ∷ eof ∷ packet 7 64 ∷ []

read_events : (read_all odd min 9 filtered events).0 ≡ (3, 0) ∷ (100, 1) ∷ []
unfolding read_all trace_read_packet read_loop odd
read_events = refl

read_all-Gets_example :
    Gets odd min filtered (kept odd min filtered events) (read_all odd min 9 filtered events)
read_all-Gets_example =
    read_all-Gets odd min 9 filtered events
      record { no_error = refl; started = refl; has_read = refl } (omega arith)
