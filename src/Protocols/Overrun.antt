-- ===== src/Protocols/Overrun.antt =====
-- The two link types whose header function moves the end of the captured bytes.
use odp_libtrace.Prelude.{◌+◌, ◌-◌, ◌%◌, ◌/◌, ◌^◌, ◌≤◌, ◌<◌, ◌≡◌, ◌≢◌, arith}
use odp_libtrace.LinkTypes.{LinkType}
use odp_libtrace.Protocols.Cursor.{Memory, Cursor}
use odp_libtrace.Protocols.Layer2.{
  payload_from_layer2, payload_from_80211, wifi_size, payload_from_llcsnap,
}

-- Behind an OpenBSD loopback header the count is not reduced: with it the packet ends four bytes
-- past its captured end.
pub openbsd_loop_overrun :
    (m : Memory) (c : Cursor)
    → let c' = payload_from_layer2 m LinkType.openbsd_loop c in
      c'.ptr + c'.remaining ≡ c.ptr + c.remaining + 4
unfolding payload_from_layer2
openbsd_loop_overrun m c = omega arith

-- Behind a four-address QoS data frame with an Ethernet II payload, captured to 30 to 33 bytes, the
-- count wraps: it comes to nearly 2 ^ 32.
pub wifi_overrun :
    (m : Memory) (c : Cursor)
    → m c.ptr ≡ 0x88
    → m (c.ptr + 1) % 4 ≡ 3
    → m (c.ptr + 32) ≢ 0xaa
    → 30 ≤ c.remaining
    → c.remaining < 34
    → let c' = payload_from_layer2 m LinkType.wifi c in
      (c'.ptr ≡ c.ptr + 34) × (2 ^ 32 - 4 ≤ c'.remaining)
unfolding payload_from_layer2 payload_from_80211 wifi_size
wifi_overrun m c data_frame four_addresses no_llc lo hi = ground arith

-- An LLC/SNAP header behind a data frame is counted, the 802.11 header before it is not: the packet
-- ends past its captured end by the size of the 802.11 header.
pub wifi-llcsnap_overrun :
    (m : Memory) (c : Cursor)
    → m c.ptr / 4 % 4 ≡ 2
    → m (c.ptr + wifi_size m c.ptr) ≡ 0xaa
    → m (c.ptr + wifi_size m c.ptr + 1) ≡ 0xaa
    → 30 ≤ c.remaining
    → let c' = payload_from_layer2 m LinkType.wifi c in
      c'.ptr + c'.remaining ≡ c.ptr + c.remaining + wifi_size m c.ptr
unfolding payload_from_layer2 payload_from_80211 payload_from_llcsnap
wifi-llcsnap_overrun m c data_frame llc llc' lo = ground arith
