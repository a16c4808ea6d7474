-- ===== src/Protocols/PayloadLength.antt =====
-- lib/protocols_transport.c, trace_get_payload_length: the bytes behind the transport header, as
-- the headers count them. `none` stands for fuel that ran out.
pub mod Bounds
use odp_libtrace.Prelude.{
  ℕ, ◌+◌, ◌-◌, ◌*◌, ◌/◌, ◌%◌, ◌^◌, ◌==◌, ltb, leb, not, if◌then◌else◌, Ptr, null, Option, none,
  some, sub64,
}
use odp_libtrace.Protocols.Cursor.{Memory, Cursor, be16, ethertype_ip, ethertype_ipv6}
use odp_libtrace.Protocols.Layer3.{Packet, ip_size, get_layer3}
use odp_libtrace.Protocols.Transport.{get_transport}

-- The packet with its `payload_length`, an `int` as its 32-bit pattern; -1 is not cached.
pub record Measured : Type 0 where
  pub packet : Packet
  pub payload_length : ℕ

abbrev pub minus_one : ℕ
minus_one = 2 ^ 32 - 1

-- An `int` as a `size_t`, and a `size_t` as an `int`.
abbrev pub extend : ℕ → ℕ
extend n = if leb (2 ^ 31) n then n + (2 ^ 64 - 2 ^ 32) else n

abbrev pub to_int : ℕ → ℕ
to_int n = n % 2 ^ 32

-- What the IP header says; `none` where the function returns 0.
unfoldable pub ip_payload : Memory → Cursor → Option ℕ
ip_payload m c =
    let len = sub64 (be16 m (c.ptr + 2)) (ip_size m c.ptr) in
    if c.kind == ethertype_ip
    then (if ltb c.remaining 20
        then none
        else if m (c.ptr + 9) == 41
        then some (sub64 len 40)
        else some len)
    else if c.kind == ethertype_ipv6
    then (if ltb c.remaining 40 then none else some (be16 m (c.ptr + 4)))
    else none

-- Less a transport header of `header` bytes, of which `size` have to be captured.
abbrev pub less : (size header : ℕ) → (remaining len : ℕ) → Option ℕ
less size header remaining len =
    if ltb remaining size then none else if ltb len header then none else some (sub64 len header)

unfoldable pub transport_payload : Memory → Cursor → ℕ → Option ℕ
transport_payload m c len =
    if c.ptr == null
    then none
    else if c.kind == 6
    then less 20 (4 * (m (c.ptr + 12) / 16 % 16)) c.remaining len
    else if c.kind == 17
    then less 8 8 c.remaining len
    else if c.kind == 1
    then less 8 8 c.remaining len
    else if c.kind == 58
    then less 8 8 c.remaining len
    else none

-- An early return leaves 0 in the cache.
abbrev pub zero_length : Packet → ℕ × Measured
zero_length p = (0, record { packet = p; payload_length = 0 })

abbrev pub cached_length : Packet → ℕ → ℕ × Measured
cached_length p len = (len, record { packet = p; payload_length = to_int len })

-- `trace_get_payload_length`, with the caches as it leaves them.
unfoldable pub get_payload_length : Memory → Measured → Option (ℕ × Measured)
get_payload_length m p =
    if not (p.payload_length == minus_one)
    then some (extend p.payload_length, p)
    else elim (get_layer3 m p.packet) [
      | none ↦ none
      | some (c, p') ↦ if c.ptr == null then some (zero_length p') else elim (ip_payload m c) [
        | none ↦ some (zero_length p')
        | some len ↦ elim (get_transport m p') [
          | none ↦ none
          | some (t, p'') ↦ elim (transport_payload m t len) [
            | none ↦ some (zero_length p'')
            | some n ↦ some (cached_length p'' n)
          ]
        ]
      ]
    ]
