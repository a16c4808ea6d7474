-- ===== src/Trace/Time.antt =====
-- lib/trace.c, the timestamps: a format gives one kind of them, and the others are converted from it.
-- Conversions of floating-point seconds are parameters.
use odp_libtrace.Prelude.{
  ℕ, ◌+◌, ◌-◌, ◌*◌, ◌/◌, ◌%◌, ◌^◌, ◌≤◌, ◌<◌, ◌≡◌, ap, arith, Option, none, some, leb, if◌then◌else◌,
  add64, ◌⊎◌, inl, inr, dec_lt,
}

-- `struct timeval` and `struct timespec`, of times from 1970 on.
pub record Timeval : Type 0 where
  pub tv_sec : ℕ
  pub tv_usec : ℕ

pub record Timespec : Type 0 where
  pub ts_sec : ℕ
  pub ts_nsec : ℕ

-- What the format of a packet's trace says of its time, `none` where it has no such function.
pub record Clock (Seconds : Type 0) : Type 0 where
  pub get_erf_timestamp : Option ℕ
  pub get_timeval : Option Timeval
  pub get_timespec : Option Timespec
  pub get_seconds : Option Seconds

-- `timespec -> timestamp` and `timeval -> timestamp`
unfoldable pub erf_of_timespec : Timespec → ℕ
erf_of_timespec ts = add64 (ts.ts_sec * 2 ^ 32 % 2 ^ 64) (ts.ts_nsec * 2 ^ 32 % 2 ^ 64 / 1000000000)

unfoldable pub erf_of_timeval : Timeval → ℕ
erf_of_timeval tv = add64 (tv.tv_sec * 2 ^ 32 % 2 ^ 64) (tv.tv_usec * 2 ^ 32 % 2 ^ 64 / 1000000)

-- `timestamp -> timeval`, with the carry of a fraction that has reached a second.
unfoldable pub timeval_of_erf : ℕ → Timeval
timeval_of_erf ts =
    let usec = ts % 2 ^ 32 * 1000000 % 2 ^ 64 / 2 ^ 32 in
    if leb 1000000 usec
    then record { tv_sec = ts / 2 ^ 32 + 1; tv_usec = usec - 1000000 }
    else record { tv_sec = ts / 2 ^ 32; tv_usec = usec }

-- `timestamp -> timespec`
unfoldable pub timespec_of_erf : ℕ → Timespec
timespec_of_erf ts =
    let nsec = ts % 2 ^ 32 * 1000000000 % 2 ^ 64 / 2 ^ 32 in
    if leb 1000000000 nsec
    then record { ts_sec = ts / 2 ^ 32 + 1; ts_nsec = nsec - 1000000000 }
    else record { ts_sec = ts / 2 ^ 32; ts_nsec = nsec }

unfoldable pub timeval_of_timespec : Timespec → Timeval
timeval_of_timespec ts = record { tv_sec = ts.ts_sec; tv_usec = ts.ts_nsec / 1000 }

unfoldable pub timespec_of_timeval : Timeval → Timespec
timespec_of_timeval tv = record { ts_sec = tv.tv_sec; ts_nsec = tv.tv_usec * 1000 }

module _ {Seconds : Type 0} where
  unfoldable pub trace_get_erf_timestamp : (Seconds → ℕ) → Clock Seconds → ℕ
  trace_get_erf_timestamp erf_of_seconds c = elim c.get_erf_timestamp [
    | some ts ↦ ts
    | none ↦ elim c.get_timespec [
      | some ts ↦ erf_of_timespec ts
      | none ↦ elim c.get_timeval [
        | some tv ↦ erf_of_timeval tv
        | none ↦ elim c.get_seconds [ some s ↦ erf_of_seconds s | none ↦ 0 ]
      ]
    ]
  ]

  -- `none` where both fields are -1.
  unfoldable pub trace_get_timeval : (Seconds → Timeval) → Clock Seconds → Option Timeval
  trace_get_timeval timeval_of_seconds c = elim c.get_timeval [
    | some tv ↦ some tv
    | none ↦ elim c.get_erf_timestamp [
      | some ts ↦ some (timeval_of_erf ts)
      | none ↦ elim c.get_timespec [
        | some ts ↦ some (timeval_of_timespec ts)
        | none ↦ elim c.get_seconds [ some s ↦ some (timeval_of_seconds s) | none ↦ none ]
      ]
    ]
  ]

  unfoldable pub trace_get_timespec : (Seconds → Timespec) → Clock Seconds → Option Timespec
  trace_get_timespec timespec_of_seconds c = elim c.get_timespec [
    | some ts ↦ some ts
    | none ↦ elim c.get_erf_timestamp [
      | some ts ↦ some (timespec_of_erf ts)
      | none ↦ elim c.get_timeval [
        | some tv ↦ some (timespec_of_timeval tv)
        | none ↦ elim c.get_seconds [ some s ↦ some (timespec_of_seconds s) | none ↦ none ]
      ]
    ]
  ]

-- Earlier or at the same time.
abbrev pub NotAfter : Timeval → Timeval → Type 0
NotAfter a b = (a.tv_sec < b.tv_sec) ⊎ ((a.tv_sec ≡ b.tv_sec) × (a.tv_usec ≤ b.tv_usec))

usec_lem : (f : ℕ) → f < 2 ^ 32 → f * 1000000 % 2 ^ 64 / 2 ^ 32 ≡ f * 1000000 / 2 ^ 32
usec_lem f h = omega arith

timeval_of_erf_lem :
    (ts : ℕ)
    → timeval_of_erf ts ≡ record { tv_sec = ts / 2 ^ 32; tv_usec = ts % 2 ^ 32 * 1000000 / 2 ^ 32 }
unfolding timeval_of_erf
timeval_of_erf_lem ts =
    let usec : ts % 2 ^ 32 * 1000000 % 2 ^ 64 / 2 ^ 32 ≡ ts % 2 ^ 32 * 1000000 / 2 ^ 32 =
      omega arith in
    let small : ts % 2 ^ 32 * 1000000 / 2 ^ 32 < 1000000 = omega arith in
    ground (arith, usec, small)

timeval_of_timeval_lem :
    (tv : Timeval)
    → tv.tv_sec < 2 ^ 32
    → tv.tv_usec < 1000000
    → erf_of_timeval tv ≡ tv.tv_sec * 2 ^ 32 + tv.tv_usec * 2 ^ 32 / 1000000
unfolding erf_of_timeval
timeval_of_timeval_lem tv s u = omega arith

-- A time that goes through an ERF timestamp keeps its seconds and loses at most a microsecond, for
-- seconds below 2^32 and proper microseconds.
pub timeval_round_trip :
    (tv : Timeval)
    → tv.tv_sec < 2 ^ 32
    → tv.tv_usec < 1000000
    → let back = timeval_of_erf (erf_of_timeval tv) in
      (back.tv_sec ≡ tv.tv_sec) × (back.tv_usec ≤ tv.tv_usec) × (tv.tv_usec ≤ back.tv_usec + 1)
timeval_round_trip tv s u =
    let f = tv.tv_usec * 2 ^ 32 / 1000000 in
    let e : erf_of_timeval tv ≡ tv.tv_sec * 2 ^ 32 + f = timeval_of_timeval_lem tv s u in
    let b = timeval_of_erf_lem (erf_of_timeval tv) in
    let high : erf_of_timeval tv / 2 ^ 32 ≡ tv.tv_sec = omega (arith, e) in
    let low : erf_of_timeval tv % 2 ^ 32 ≡ f = omega (arith, e) in
    let sec = ap (λ (t : Timeval). t.tv_sec) b in
    let usec = ap (λ (t : Timeval). t.tv_usec) b in
    (omega (arith, sec, high), omega (arith, usec, low), omega (arith, usec, low))

-- The microseconds of a converted ERF timestamp are proper, and a later timestamp gives a time that
-- is not earlier.
pub timeval_of_erf-order :
    (a b : ℕ)
    → a ≤ b
    → ((timeval_of_erf a).tv_usec < 1000000) × NotAfter (timeval_of_erf a) (timeval_of_erf b)
timeval_of_erf-order a b le =
    let ea = timeval_of_erf_lem a in
    let eb = timeval_of_erf_lem b in
    let sa = ap (λ (t : Timeval). t.tv_sec) ea in
    let ua = ap (λ (t : Timeval). t.tv_usec) ea in
    let sb = ap (λ (t : Timeval). t.tv_sec) eb in
    let ub = ap (λ (t : Timeval). t.tv_usec) eb in
    (
      omega (arith, ua),
      elim (dec_lt (a / 2 ^ 32) (b / 2 ^ 32)) [
        | yes l ↦ inl (omega (arith, sa, sb))
        | no n ↦ inr (omega (arith, sa, sb), omega (arith, ua, ub))
      ],
    )

timespec_of_erf_lem :
    (ts : ℕ)
    → timespec_of_erf ts
      ≡ record { ts_sec = ts / 2 ^ 32; ts_nsec = ts % 2 ^ 32 * 1000000000 / 2 ^ 32 }
unfolding timespec_of_erf
timespec_of_erf_lem ts =
    let nsec : ts % 2 ^ 32 * 1000000000 % 2 ^ 64 / 2 ^ 32 ≡ ts % 2 ^ 32 * 1000000000 / 2 ^ 32 =
      omega arith in
    let small : ts % 2 ^ 32 * 1000000000 / 2 ^ 32 < 1000000000 = omega arith in
    ground (arith, nsec, small)

erf_of_timespec_lem :
    (ts : Timespec)
    → ts.ts_sec < 2 ^ 32
    → ts.ts_nsec < 1000000000
    → erf_of_timespec ts ≡ ts.ts_sec * 2 ^ 32 + ts.ts_nsec * 2 ^ 32 / 1000000000
unfolding erf_of_timespec
erf_of_timespec_lem ts s u = omega arith

-- A time that goes through an ERF timestamp keeps its seconds and loses at most a nanosecond, for
-- seconds below 2^32 and proper nanoseconds.
pub timespec_round_trip :
    (ts : Timespec)
    → ts.ts_sec < 2 ^ 32
    → ts.ts_nsec < 1000000000
    → let back = timespec_of_erf (erf_of_timespec ts) in
      (back.ts_sec ≡ ts.ts_sec) × (back.ts_nsec ≤ ts.ts_nsec) × (ts.ts_nsec ≤ back.ts_nsec + 1)
timespec_round_trip ts s u =
    let f = ts.ts_nsec * 2 ^ 32 / 1000000000 in
    let e : erf_of_timespec ts ≡ ts.ts_sec * 2 ^ 32 + f = erf_of_timespec_lem ts s u in
    let b = timespec_of_erf_lem (erf_of_timespec ts) in
    let high : erf_of_timespec ts / 2 ^ 32 ≡ ts.ts_sec = omega (arith, e) in
    let low : erf_of_timespec ts % 2 ^ 32 ≡ f = omega (arith, e) in
    let sec = ap (λ (t : Timespec). t.ts_sec) b in
    let nsec = ap (λ (t : Timespec). t.ts_nsec) b in
    (omega (arith, sec, high), omega (arith, nsec, low), omega (arith, nsec, low))
