-- ===== src/Protocols/Options.antt =====
-- `trace_get_next_option` of lib/protocols_l3.c: IP and TCP options, one at a time.
use odp_libtrace.Prelude.{
  ℕ, ◌+◌, ◌-◌, ◌<◌, ◌≡◌, ◌⊎◌, arith, Bool, true, false, ◌==◌, ltb, if◌then◌else◌, Ptr,
}
use odp_libtrace.Protocols.Cursor.{Memory}

-- What the call leaves behind its pointers: the rest of the option area, and the option.
pub record Next : Type 0 where
  pub more : Bool
  pub ptr : Ptr
  pub len : ℕ
  pub kind : ℕ
  pub optlen : ℕ
  pub payload : Ptr

-- `len` is an `int` of 0 or more. Where the code does not write `optlen` or `data`, they are as
-- before.
unfoldable pub next_option : Memory → Next → Next
next_option m s =
    if s.len == 0
    then record s { more = false }
    else if m s.ptr == 0
    then record s { more = false; kind = 0 }
    else if m s.ptr == 1
    then record s { more = true; kind = 1; ptr = s.ptr + 1; len = s.len - 1 }
    else if ltb (m (s.ptr + 1)) 2
    then record s { more = false; kind = m s.ptr; optlen = m (s.ptr + 1) }
    else if ltb s.len (m (s.ptr + 1))
    then record s { more = false; kind = m s.ptr; optlen = m (s.ptr + 1) }
    else record {
      more = true;
      kind = m s.ptr;
      optlen = m (s.ptr + 1);
      payload = s.ptr + 2;
      ptr = s.ptr + m (s.ptr + 1);
      len = s.len - m (s.ptr + 1);
    }

-- An option that is found is a pad byte, or lies in the option area as a whole with its data behind
-- its two-byte head. What is left of the area follows it, ends where the area ends, and is shorter.
pub next_option-inside :
    (m : Memory) (s : Next)
    → (next_option m s).more ≡ true
    → let s' = next_option m s in
      (s'.ptr + s'.len ≡ s.ptr + s.len)
      × (s.ptr < s'.ptr)
      × (s'.len < s.len)
      × ((s'.kind ≡ 1) ⊎ ((s'.payload ≡ s.ptr + 2) × (s'.payload + s'.optlen ≡ s'.ptr + 2)))
unfolding next_option
next_option-inside m s e = (ground arith, ground arith, ground arith, ground arith)
