-- ===== src/Protocols/Layer3.antt =====
-- lib/protocols_l3.c: the way to the network layer and through it.
use odp_libtrace.Prelude.{
  ℕ, zero, suc, ◌+◌, ◌-◌, ◌*◌, ◌/◌, ◌%◌, ◌^◌, Bool, ◌==◌, ltb, ◌||◌, if◌then◌else◌, Ptr, null,
  Option, none, some,
}
use odp_libtrace.LinkTypes.{LinkType}
use odp_libtrace.Protocols.Cursor.{
  Memory, Cursor, be16, truncated, ethertype_8021q, ethertype_mpls, ethertype_ppp_ses,
}
use odp_libtrace.Protocols.Layer2.{
  payload_from_vlan, payload_from_mpls, payload_from_pppoe, payload_from_layer2,
}

-- `ip_hl * 4`
abbrev pub ip_size : Memory → Ptr → ℕ
ip_size m p = m p % 16 * 4

-- Not IPv4: NULL, and the count stays. A later fragment: NULL.
unfoldable pub payload_from_ip : Memory → Cursor → Cursor
payload_from_ip m c =
    if m c.ptr / 16 == 4
    then (if be16 m (c.ptr + 6) % 2 ^ 13 == 0
        then (if ltb c.remaining (ip_size m c.ptr) then truncated c else record {
          ptr = c.ptr + ip_size m c.ptr;
          kind = m (c.ptr + 9);
          remaining = c.remaining - ip_size m c.ptr;
        })
        else truncated c)
    else record c { ptr = null }

-- Hop-by-hop options, routing, authentication and destination options
unfoldable pub is_extension : ℕ → Bool
is_extension nxt = nxt == 0 || nxt == 43 || nxt == 51 || nxt == 60

-- `len`, a `uint16_t`
abbrev pub extension_size : Memory → Ptr → ℕ
extension_size m p = (m (p + 1) * 8 % 2 ^ 16 + 8) % 2 ^ 16

-- `while (1)` over the extension headers, on fuel: a header at a time.
unfoldable pub ip6_headers : ℕ → Memory → ℕ → Cursor → Option Cursor
ip6_headers zero m nxt c = none
ip6_headers (suc fuel) m nxt c =
    let behind_extension = ip6_headers fuel m (m c.ptr) (record c {
      ptr = c.ptr + extension_size m c.ptr;
      remaining = c.remaining - extension_size m c.ptr;
    }) in
    let behind_fragment =
      ip6_headers fuel m (m c.ptr) (record c { ptr = c.ptr + 8; remaining = c.remaining - 8 }) in
    if is_extension nxt
    then (if ltb c.remaining (extension_size m c.ptr) then some (truncated c) else behind_extension)
    else if nxt == 50
    then some (record c { kind = 50 })
    else if nxt == 44
    then (if ltb c.remaining 8 then some (truncated c) else behind_fragment)
    else some (record c { kind = nxt })

-- The fuel is the number of captured bytes.
unfoldable pub payload_from_ip6 : Memory → Cursor → Option Cursor
payload_from_ip6 m c =
    if ltb c.remaining 40
    then some (truncated c)
    else ip6_headers c.remaining m (m (c.ptr + 6))
        (record c { ptr = c.ptr + 40; remaining = c.remaining - 40 })

-- One round of `for(;;)` in `trace_get_layer3`. The Ethernet header behind an MPLS label is never
-- looked for: the test for it compares the pointer `ethertype`, which is not NULL, with 0.
unfoldable pub between : Memory → Cursor → Option Cursor
between m c =
    if c.ptr == null || c.remaining == 0
    then none
    else if c.kind == ethertype_8021q
    then some (payload_from_vlan m c)
    else if c.kind == ethertype_mpls
    then some (payload_from_mpls m c)
    else if c.kind == ethertype_ppp_ses
    then some (payload_from_pppoe m c)
    else none

-- The loop, on fuel.
unfoldable pub skip_between : ℕ → Memory → Cursor → Option Cursor
skip_between zero m c = none
skip_between (suc fuel) m c = elim (between m c) [
  | none ↦ some c
  | some c' ↦ skip_between fuel m c'
]

-- The parts of `libtrace_packet_t` that cache what was found in a packet. `l2_header`, `link_type`
-- and `l2_remaining` are set, as `trace_get_layer2` leaves them.
pub record Packet : Type 0 where
  pub l2_header : Ptr
  pub link_type : LinkType
  pub l2_remaining : ℕ
  pub l3 : Cursor
  pub l4 : Cursor

-- `trace_get_layer3`, with what it writes to the cache; `none` if the fuel ran out.
unfoldable pub get_layer3 : Memory → Packet → Option (Cursor × Packet)
get_layer3 m p =
    if p.l3.ptr == null
    then elim (skip_between (p.l2_remaining + 2) m (
        payload_from_layer2 m p.link_type
          (record { ptr = p.l2_header; kind = 0; remaining = p.l2_remaining }))) [
            | none ↦ none
            | some c ↦
                if c.ptr == null || c.remaining == 0
                then some (record c { ptr = null }, p)
                else some (c, record p { l3 = c })
          ]
    else some (p.l3, p)
