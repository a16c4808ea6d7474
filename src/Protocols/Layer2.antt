-- ===== src/Protocols/Layer2.antt =====
-- lib/protocols_l2.c: the link-layer headers and those between link and network layer. The
-- `remaining` argument is given, as it is in every call on the way to layer 3.
use odp_libtrace.Prelude.{
  ℕ, ◌+◌, ◌-◌, ◌/◌, ◌%◌, ◌^◌, ◌==◌, ltb, leb, ◌&&◌, if◌then◌else◌, Ptr, null,
}
use odp_libtrace.LinkTypes.{LinkType}
use odp_libtrace.Protocols.Cursor.{
  Memory, Cursor, be16, truncated, skip, ethertype_ip, ethertype_ipv6, ethertype_mpls,
}

-- `sizeof(libtrace_ether_t)` is 14, and so on for the other headers.
unfoldable pub payload_from_ethernet : Memory → Cursor → Cursor
payload_from_ethernet m c = skip 14 (be16 m (c.ptr + 12)) c

unfoldable pub payload_from_vlan : Memory → Cursor → Cursor
payload_from_vlan m c = skip 4 (be16 m (c.ptr + 2)) c

-- The type is guessed from the header and the byte behind it. A label that is cut off returns NULL
-- and leaves the count.
unfoldable pub mpls_kind : Memory → Cursor → ℕ
mpls_kind m c =
    if m (c.ptr + 2) % 2 == 0
    then ethertype_mpls
    else if leb 5 c.remaining
    then (if m (c.ptr + 4) / 16 == 4
        then ethertype_ip
        else if m (c.ptr + 4) / 16 == 6
        then ethertype_ipv6
        else 0)
    else c.kind

unfoldable pub payload_from_mpls : Memory → Cursor → Cursor
payload_from_mpls m c =
    if ltb c.remaining 4
    then record c { ptr = null; kind = mpls_kind m c }
    else record { ptr = c.ptr + 4; kind = mpls_kind m c; remaining = c.remaining - 4 }

unfoldable pub payload_from_llcsnap : Memory → Cursor → Cursor
payload_from_llcsnap m c = skip 8 (be16 m (c.ptr + 6)) c

unfoldable pub ppp_kind : ℕ → ℕ
ppp_kind protocol = if protocol == 0x0021 then ethertype_ip else 0

unfoldable pub payload_from_ppp : Memory → Cursor → Cursor
payload_from_ppp m c = skip 2 (ppp_kind (be16 m c.ptr)) c

unfoldable pub payload_from_pppoe : Memory → Cursor → Cursor
payload_from_pppoe m c =
    if ltb c.remaining 6
    then truncated c
    else payload_from_ppp m (record c { ptr = c.ptr + 6; remaining = c.remaining - 6 })

unfoldable pub payload_from_chdlc : Memory → Cursor → Cursor
payload_from_chdlc m c = skip 4 (be16 m (c.ptr + 2)) c

unfoldable pub payload_from_ppp_hdlc : Memory → Cursor → Cursor
payload_from_ppp_hdlc m c = skip 4 (ppp_kind (be16 m (c.ptr + 2))) c

-- The cell's payload type goes to the caller, here always to NULL: the kind stays.
unfoldable pub payload_from_atm : Cursor → Cursor
payload_from_atm c = skip 4 c.kind c

-- `sizeof(libtrace_80211_t) + extra`: 30 bytes, without the fourth address unless both DS bits are
-- set, and with two more if the QoS bit is.
unfoldable pub wifi_size : Memory → Ptr → ℕ
wifi_size m p = (if m (p + 1) % 4 == 3 then 30 else 24) + (if m p / 128 % 2 == 1 then 2 else 0)

-- The count is not reduced by the 802.11 header before an LLC/SNAP one, and wraps where it is
-- reduced by more than there is.
unfoldable pub payload_from_80211 : Memory → Cursor → Cursor
payload_from_80211 m c =
    if ltb c.remaining 30
    then truncated c
    else if m c.ptr / 4 % 4 == 2
    then (if m (c.ptr + wifi_size m c.ptr) == 0xaa && m (c.ptr + wifi_size m c.ptr + 1) == 0xaa
        then payload_from_llcsnap m (record c { ptr = c.ptr + wifi_size m c.ptr })
        else record {
          ptr = c.ptr + wifi_size m c.ptr + 2;
          kind = be16 m (c.ptr + wifi_size m c.ptr);
          remaining = (c.remaining + 2 ^ 32 - wifi_size m c.ptr - 2) % 2 ^ 32;
        })
    else record c { ptr = null }

-- `*link & 0xF0`: the version of an IP header.
unfoldable pub ip_kind : Memory → Cursor → ℕ
ip_kind m c =
    if m c.ptr / 16 == 4 then ethertype_ip else if m c.ptr / 16 == 6 then ethertype_ipv6 else c.kind

unfoldable pub payload_from_layer2 : Memory → LinkType → Cursor → Cursor
payload_from_layer2 m LinkType.wifi c = payload_from_80211 m c
payload_from_layer2 m LinkType.eth c = payload_from_ethernet m c
payload_from_layer2 m LinkType.raw_ip c = record c { kind = ip_kind m c }
payload_from_layer2 m LinkType.ppp c = payload_from_ppp m c
payload_from_layer2 m LinkType.atm c =
    let l = payload_from_atm c in if l.ptr == null then l else payload_from_llcsnap m l
payload_from_layer2 m LinkType.llcsnap c = payload_from_llcsnap m c
payload_from_layer2 m LinkType.hdlc_pos c = payload_from_chdlc m c
payload_from_layer2 m LinkType.pos c = payload_from_ppp_hdlc m c
payload_from_layer2 m LinkType.openbsd_loop c =
    let l = record c { ptr = c.ptr + 4 } in record l { kind = ip_kind m l }
payload_from_layer2 m _ c = record c { ptr = null }
