-- ===== src/Trace/Reading.antt =====
-- lib/trace.c, trace_read_packet: packets that pass the filter, in the order of the format module,
-- with their numbers. What the format module reads, the filter and the truncation of a packet are
-- parameters.
pub mod Order
use odp_libtrace.Prelude.{
  ℕ, zero, suc, ◌+◌, ◌-◌, ◌^◌, ◌≤◌, ◌<◌, ◌≡◌, refl, ap, sym, ◌∙◌, arith, Bool, true, false, not,
  List, [], ◌∷◌, ◌++◌, Option, none, some, ltb, if◌then◌else◌, add64, length,
}

-- What `format->read_packet` brings: a packet with the number of its bytes, the end, or an error.
pub data Event (P : Type 0) : Type 0 where
  packet : P → ℕ → Event P
  eof : Event P
  failure : Event P

-- What `trace_apply_filter` returns: -1, 0, or another number.
pub data Verdict : Type 0 where
  broken : Verdict
  drops : Verdict
  matches : Verdict

-- The fields of `libtrace_t` that the call uses; `has_read` is false where the format has no
-- `read_packet`, and `state_ok` where the packet given is invalid.
pub record Trace : Type 0 where
  pub err : Bool
  pub started : Bool
  pub has_read : Bool
  pub has_filter : Bool
  pub snaplen : ℕ
  pub filtered_packets : ℕ
  pub accepted_packets : ℕ
  pub sequence_number : ℕ

-- A packet with its order and the result of the call, the end, or an error, with whether the call
-- sets one on the trace.
pub data Outcome (P : Type 0) : Type 0 where
  delivered : P → (order : ℕ) → (bytes : ℕ) → Outcome P
  ended : Outcome P
  failed : Outcome P

module _ {P : Type 0} (apply_filter : P → Verdict) (set_capture_length : ℕ → P → P) where
  abbrev pub snapped : Trace → P → P
  snapped t p = if ltb 0 t.snaplen then set_capture_length t.snaplen p else p

  abbrev pub verdict : Trace → P → Verdict
  verdict t p = if t.has_filter then apply_filter p else matches

  -- The loop, on what the format module will bring; it ends with `eof`.
  unfoldable pub read_loop : Trace → List (Event P) → Outcome P × Trace × List (Event P)
  read_loop t [] = (ended, t, [])
  read_loop t (eof ∷ es) = (ended, t, es)
  read_loop t (failure ∷ es) = (failed, t, es)
  read_loop t (packet p n ∷ es) =
      let rest = read_loop (record t { filtered_packets = add64 t.filtered_packets 1 }) es in
      elim (verdict t p) [
        | broken ↦ (failed, t, es)
        | drops ↦ rest
        | matches ↦ (
          delivered (snapped t p) t.sequence_number n,
          record t {
            accepted_packets = add64 t.accepted_packets 1;
            sequence_number = add64 t.sequence_number 1;
          },
          es,
        )
      ]

  unfoldable pub trace_read_packet :
      (packet_ok : Bool) → Trace → List (Event P) → Outcome P × Trace × List (Event P)
  trace_read_packet packet_ok t es =
      if t.err
      then (failed, t, es)
      else if not t.started
      then (failed, record t { err = true }, es)
      else if not packet_ok
      then (failed, record t { err = true }, es)
      else if t.has_read
      then read_loop t es
      else (failed, record t { err = true }, es)

  -- A client that reads until there is no packet, at most `calls` times.
  unfoldable pub read_all : ℕ → Trace → List (Event P) → List (P × ℕ) × Trace
  read_all zero t es = ([], t)
  read_all (suc calls) t es =
      let (out, t', es') = trace_read_packet true t es in
      let (more, t'') = read_all calls t' es' in
      elim out [
        | delivered p order n ↦ ((p, order) ∷ more, t'')
        | ended ↦ ([], t')
        | failed ↦ ([], t')
      ]
