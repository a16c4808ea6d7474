-- ===== src/Protocols/Fragment.antt =====
-- lib/protocols_l3.c and lib/protocols_transport.c: the fragment offset of a packet and its ports.
-- `none` stands for fuel that ran out.
pub mod Laws
mod Tests
use odp_libtrace.Prelude.{
  ℕ, zero, suc, ◌+◌, ◌-◌, ◌*◌, ◌/◌, ◌%◌, ◌^◌, ◌==◌, ltb, ◌||◌, if◌then◌else◌, Ptr, null, Option,
  none, some,
}
use odp_libtrace.Protocols.Cursor.{Memory, Cursor, be16, ethertype_ip, ethertype_ipv6}
use odp_libtrace.Protocols.Layer3.{Packet, get_layer3, is_extension, extension_size}
use odp_libtrace.Protocols.Transport.{get_transport}

-- The offset in bytes and the byte behind the `more` argument.
pub record Fragment : Type 0 where
  pub offset : ℕ
  pub more : ℕ

abbrev pub whole : Fragment
whole = record { offset = 0; more = 0 }

-- The flag 0x2000 and the 13 bits below it.
abbrev pub ip_fragment : Memory → Cursor → Fragment
ip_fragment m c =
    let off = be16 m (c.ptr + 6) in
    if ltb c.remaining 8
    then whole
    else record { offset = off % 2 ^ 13 * 8; more = if off / 2 ^ 13 % 2 == 1 then 1 else 0 }

-- `while (1)`, on fuel: `nxt` is read at `payload`, which no round moves.
unfoldable pub find_fragment : ℕ → Memory → ℕ → (payload : Ptr) → (remaining : ℕ) → Option Fragment
find_fragment zero m nxt payload remaining = none
find_fragment (suc fuel) m nxt payload remaining =
    let len = extension_size m payload in
    let rest = find_fragment fuel m (m payload) payload (remaining - len) in
    let off = be16 m (payload + 2) in
    if is_extension nxt
    then (if ltb remaining len then some whole else rest)
    else if nxt == 44
    then (if ltb remaining 8
        then some whole
        else some (record { offset = off / 8 * 8; more = if off % 2 == 1 then 1 else 0 }))
    else some whole

-- `payload` is the IPv6 header itself and `ip6` the address behind it: `ip6++` gives back the
-- pointer before it is moved.
unfoldable pub ip6_fragment : Memory → Cursor → Option Fragment
ip6_fragment m c =
    if ltb c.remaining 40
    then some whole
    else find_fragment (c.remaining + 1) m (m (c.ptr + 40 + 6)) c.ptr (c.remaining - 40)

-- `trace_get_fragment_offset`, with the caches as it leaves them.
unfoldable pub get_fragment_offset : Memory → Packet → Option (Fragment × Packet)
get_fragment_offset m p = elim (get_layer3 m p) [
  | none ↦ none
  | some (c, p') ↦
      if c.ptr == null
      then some (whole, p')
      else if c.kind == ethertype_ip
      then some (ip_fragment m c, p')
      else if c.kind == ethertype_ipv6
      then elim (ip6_fragment m c) [ none ↦ none | some f ↦ some (f, p') ]
      else some (whole, p')
]

-- A port at `at` bytes from the start of the transport header: `trace_get_source_port` and
-- `trace_get_destination_port` differ in this number only.
unfoldable pub get_port : (at : ℕ) → Memory → Packet → Option ℕ
get_port at m p = elim (get_fragment_offset m p) [
  | none ↦ none
  | some (f, p') ↦
      if f.offset == 0
      then elim (get_transport m p') [
        | none ↦ none
        | some (c, p'') ↦
            if ltb c.remaining (at + 2) || c.kind == 1 || c.kind == 58 || c.ptr == null
            then some 0
            else some (be16 m (c.ptr + at))
      ]
      else some 0
]

unfoldable pub get_source_port : Memory → Packet → Option ℕ
unfolding get_port
get_source_port = get_port 0

unfoldable pub get_destination_port : Memory → Packet → Option ℕ
unfolding get_port
get_destination_port = get_port 2
