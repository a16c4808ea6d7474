-- ===== src/Trace/Length.antt =====
-- lib/trace.c, the lengths of a packet and its buffer. An `int` is its 32-bit pattern, negative from
-- 2^31 on, and a `size_t` its 64-bit pattern. The lengths of a format module are parameters.
use odp_libtrace.Prelude.{
  ℕ, ◌+◌, ◌-◌, ◌%◌, ◌^◌, ◌<◌, ◌≡◌, arith, Bool, true, ◌||◌, Option, none, some, leb, ltb, ◌==◌,
  if◌then◌else◌, Ptr, min, ◌≢◌,
}

-- The fields of `libtrace_packet_t` that the lengths use; -1 is a length that is not cached.
pub record Packet : Type 0 where
  pub capture_length : ℕ
  pub wire_length : ℕ
  pub payload : Ptr

-- The functions of the format, `none` where it has none, and `set_capture_length` on a size.
pub record Format : Type 0 where
  pub get_capture_length : Option ℕ
  pub get_wire_length : Option ℕ
  pub set_capture_length : Option (ℕ → ℕ)

abbrev pub minus_one : ℕ
minus_one = 2 ^ 32 - 1

abbrev pub negative : ℕ → Bool
negative n = leb (2 ^ 31) n

-- An `int` as a `size_t`.
abbrev pub extend : ℕ → ℕ
extend n = if negative n then n + (2 ^ 64 - 2 ^ 32) else n

-- `assert(length < LIBTRACE_PACKET_BUFSIZE)`
abbrev pub fits : ℕ → Bool
fits n = negative n || ltb n 65536

-- `none` where the assertion fails.
pub trace_get_capture_length : Format → Packet → Option (ℕ × Packet)
trace_get_capture_length f p =
    if p.capture_length == minus_one
    then elim f.get_capture_length [
      | none ↦ some (minus_one, p)
      | some n ↦ if fits n then some (extend n, record p { capture_length = n }) else none
    ]
    else if fits p.capture_length
    then some (extend p.capture_length, p)
    else none

pub trace_get_wire_length : Format → Packet → Option (ℕ × Packet)
trace_get_wire_length f p =
    if p.wire_length == minus_one
    then elim f.get_wire_length [
      | none ↦ some (minus_one, p)
      | some n ↦ if fits n then some (extend n, record p { wire_length = n }) else none
    ]
    else if fits p.wire_length
    then some (extend p.wire_length, p)
    else none

-- What `trace_get_packet_buffer` writes to `remaining`, from the two lengths as `int`.
pub remaining_of : ℕ → ℕ → Option ℕ
remaining_of cap_len wire_len =
    if negative cap_len
    then none
    else if negative wire_len
    then some cap_len
    else if ltb wire_len cap_len
    then some wire_len
    else some cap_len

-- With a place for `remaining`; the link type is the format's and left out.
unfoldable pub trace_get_packet_buffer : Format → Packet → Option (Ptr × ℕ × Packet)
trace_get_packet_buffer f p = elim (trace_get_capture_length f p) [
  | none ↦ none
  | some (cap, p') ↦ elim (trace_get_wire_length f p') [
    | none ↦ none
    | some (wire, p'') ↦ elim (remaining_of (cap % 2 ^ 32) (wire % 2 ^ 32)) [
      | none ↦ none
      | some remaining ↦ some (p''.payload, remaining, p'')
    ]
  ]
]

unfoldable pub trace_set_capture_length : Format → Packet → ℕ → ℕ × Packet
trace_set_capture_length f p size = elim f.set_capture_length [
  | none ↦ (minus_one, p)
  | some set ↦ (extend (set size % 2 ^ 32), record p { capture_length = set size % 2 ^ 32 })
]

capture_length_fresh :
    (f : Format) (p : Packet) (cap : ℕ)
    → p.capture_length ≡ minus_one
    → f.get_capture_length ≡ some cap
    → cap < 65536
    → trace_get_capture_length f p ≡ some (cap, record p { capture_length = cap })
unfolding trace_get_capture_length
capture_length_fresh f p cap e g small = ground (arith, e, g)

wire_length_fresh :
    (f : Format) (p : Packet) (wire : ℕ)
    → p.wire_length ≡ minus_one
    → f.get_wire_length ≡ some wire
    → fits wire ≡ true
    → trace_get_wire_length f p ≡ some (extend wire, record p { wire_length = wire })
unfolding trace_get_wire_length
wire_length_fresh f p wire e g ok = ground (arith, e, g, ok)

-- For a packet whose lengths are not cached yet, the buffer has as many bytes as the smaller of the
-- captured length and the length on the wire, or as were captured where the length on the wire is
-- negative, and both lengths are cached; the captured length is below 65536, and that on the wire
-- too or negative.
pub packet_buffer-remaining :
    (f : Format) (p : Packet) (cap wire : ℕ)
    → p.capture_length ≡ minus_one
    → p.wire_length ≡ minus_one
    → f.get_capture_length ≡ some cap
    → f.get_wire_length ≡ some wire
    → cap < 65536
    → fits wire ≡ true
    → wire < 2 ^ 32
    → trace_get_packet_buffer f p
      ≡ some (
        p.payload,
        (if negative wire then cap else min cap wire),
        record p { capture_length = cap; wire_length = wire },
      )
unfolding trace_get_packet_buffer remaining_of
packet_buffer-remaining f p cap wire e g fc fw small ok word =
    let a = capture_length_fresh f p cap e fc small in
    let b = wire_length_fresh f (record p { capture_length = cap }) wire g fw ok in
    ground (arith, a, b)

-- A length that is cached is returned again, whatever the format says then.
pub capture_length-cached :
    (f g : Format) (p p' : Packet) (n : ℕ)
    → trace_get_capture_length f p ≡ some (n, p')
    → n ≢ 2 ^ 64 - 1
    → n ≢ minus_one
    → trace_get_capture_length g p' ≡ some (n, p')
unfolding trace_get_capture_length
capture_length-cached f g p p' n e nz nm = ground (arith, e)
