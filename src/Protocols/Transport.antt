-- ===== src/Protocols/Transport.antt =====
-- lib/protocols_transport.c: the way to the transport layer and through it. `none` stands for fuel
-- that ran out below.
use odp_libtrace.Prelude.{
  ℕ, ◌+◌, ◌*◌, ◌/◌, ◌%◌, ◌^◌, ◌==◌, ltb, ◌&&◌, ◌||◌, not, if◌then◌else◌, Ptr, null, Option, none,
  some,
}
use odp_libtrace.Protocols.Cursor.{
  Memory, Cursor, be16, truncated, skip, ethertype_ip, ethertype_ipv6,
}
use odp_libtrace.Protocols.Layer3.{Packet, payload_from_ip, payload_from_ip6, get_layer3}

unfoldable pub payload_from_udp : Cursor → Cursor
payload_from_udp c = skip 8 c.kind c

-- `doff * 4`, from the upper half of the byte at offset 12
unfoldable pub payload_from_tcp : Memory → Cursor → Cursor
payload_from_tcp m c = skip (m (c.ptr + 12) / 16 % 16 * 4) c.kind c

unfoldable pub payload_from_icmp : Cursor → Cursor
payload_from_icmp c = skip 8 c.kind c

unfoldable pub payload_from_icmp6 : Cursor → Cursor
payload_from_icmp6 c = skip 8 c.kind c

-- Four bytes, and four more for each of the flags 0x8000, 0x2000 and 0x1000.
unfoldable pub gre_size : ℕ → ℕ
gre_size flags =
    4
    + (if flags / 2 ^ 15 % 2 == 1 then 4 else 0)
    + (if flags / 2 ^ 13 % 2 == 1 then 4 else 0)
    + (if flags / 2 ^ 12 % 2 == 1 then 4 else 0)

unfoldable pub payload_from_gre : Memory → Cursor → Cursor
payload_from_gre m c =
    if ltb c.remaining 4 then truncated c else skip (gre_size (be16 m c.ptr)) c.kind c

-- `proto` is 0 before the header functions write it; the code leaves it unset.
unfoldable pub transport_of : Memory → Cursor → Option Cursor
transport_of m c =
    let inner = payload_from_ip m (record c { kind = 0 }) in
    if c.kind == ethertype_ip
    then (if not (inner.ptr == null) && inner.kind == 41
        then payload_from_ip6 m inner
        else some inner)
    else if c.kind == ethertype_ipv6
    then payload_from_ip6 m (record c { kind = 0 })
    else some (record c { ptr = null; kind = 0 })

-- `trace_get_transport`, with what it writes to the caches.
unfoldable pub get_transport : Memory → Packet → Option (Cursor × Packet)
get_transport m p =
    if p.l4.ptr == null
    then elim (get_layer3 m p) [
      | none ↦ none
      | some (c, p') ↦
          if c.ptr == null || c.remaining == 0
          then some (record c { ptr = null; kind = 0 }, p')
          else elim (transport_of m c) [ none ↦ none | some t ↦ some (t, record p' { l4 = t }) ]
    ]
    else some (p.l4, p)

-- A header of `size` bytes of protocol `proto`, or NULL: `trace_get_tcp`, `trace_get_udp`,
-- `trace_get_icmp` and `trace_get_icmp6` differ in these two numbers only.
unfoldable pub get_header : ℕ → ℕ → Memory → Packet → Option Ptr
get_header proto size m p = elim (get_transport m p) [
  | none ↦ none
  | some (c, p') ↦
      if c.ptr == null || not (c.kind == proto)
      then some null
      else if ltb c.remaining size
      then some null
      else some c.ptr
]

unfoldable pub get_tcp : Memory → Packet → Option Ptr
unfolding get_header
get_tcp = get_header 6 20

unfoldable pub get_udp : Memory → Packet → Option Ptr
unfolding get_header
get_udp = get_header 17 8

unfoldable pub get_icmp : Memory → Packet → Option Ptr
unfolding get_header
get_icmp = get_header 1 8

unfoldable pub get_icmp6 : Memory → Packet → Option Ptr
unfolding get_header
get_icmp6 = get_header 58 8
