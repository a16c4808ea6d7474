-- ===== src/Protocols/Within.antt =====
-- No header function moves the end of the captured bytes.
use odp_libtrace.Prelude.{
  ℕ, zero, suc, ◌+◌, ◌-◌, ◌≤◌, ◌<◌, ◌≡◌, ◌≢◌, ◌⊎◌, arith, Ptr, null, Option, none, some,
}
use odp_libtrace.LinkTypes.{LinkType}
use odp_libtrace.Protocols.Cursor.{Memory, Cursor, skip}
use odp_libtrace.Protocols.Layer2.{
  payload_from_ethernet, payload_from_vlan, payload_from_mpls, payload_from_llcsnap,
  payload_from_ppp, payload_from_pppoe, payload_from_chdlc, payload_from_ppp_hdlc, payload_from_atm,
  payload_from_layer2,
}
use odp_libtrace.Protocols.Layer3.{
  payload_from_ip, ip6_headers, payload_from_ip6, between, extension_size,
}

-- `c'` is NULL, or lies at or behind `c` and ends where `c` ends.
abbrev pub Within : Cursor → Cursor → Type 0
Within c c' = (c'.ptr ≡ null) ⊎ ((c.ptr ≤ c'.ptr) × (c'.ptr + c'.remaining ≡ c.ptr + c.remaining))

pub Within-skip : (size kind : ℕ) (c : Cursor) → Within c (skip size kind c)
Within-skip size kind c = ground arith

pub Within-mpls : (m : Memory) (c : Cursor) → Within c (payload_from_mpls m c)
unfolding payload_from_mpls
Within-mpls m c = ground arith

pub Within-pppoe : (m : Memory) (c : Cursor) → Within c (payload_from_pppoe m c)
unfolding payload_from_pppoe payload_from_ppp
Within-pppoe m c = ground arith

pub Within-ip : (m : Memory) (c : Cursor) → Within c (payload_from_ip m c)
unfolding payload_from_ip
Within-ip m c = ground arith

-- Link types whose header function keeps the end of the packet.
abbrev pub KeepsEnd : LinkType → Type 0
KeepsEnd LinkType.wifi = ⊥
KeepsEnd LinkType.openbsd_loop = ⊥
KeepsEnd _ = Unit {0}

pub Within-layer2 :
    (m : Memory) (t : LinkType) (c : Cursor) → KeepsEnd t → Within c (payload_from_layer2 m t c)
unfolding payload_from_layer2 payload_from_ethernet payload_from_ppp payload_from_atm
    payload_from_llcsnap payload_from_chdlc payload_from_ppp_hdlc
Within-layer2 m LinkType.wifi c keeps = absurd keeps
Within-layer2 m LinkType.openbsd_loop c keeps = absurd keeps
Within-layer2 m _ c keeps = ground arith

-- A round of the loop to layer 3 keeps the end and takes two bytes at least.
pub Within-between :
    (m : Memory) (c : Cursor) {c' : Cursor}
    → between m c ≡ some c'
    → Within c c' × ((c'.ptr ≡ null) ⊎ (c'.remaining < c.remaining))
unfolding between payload_from_vlan payload_from_mpls payload_from_pppoe payload_from_ppp
Within-between m c e = (ground arith, ground arith)

pub Within-trans : (a b c : Cursor) → b.ptr ≢ null → Within a b → Within b c → Within a c
Within-trans a b c ne h k = ground arith

-- The computation had enough fuel, and its result is NULL or ends where `c` ends.
abbrev pub Ends : Cursor → Option Cursor → Type 0
Ends c none = ⊥
Ends c (some c') = Within c c'

Ends-behind :
    (size : ℕ) (c : Cursor) (o : Option Cursor)
    → size ≤ c.remaining
    → Ends (record c { ptr = c.ptr + size; remaining = c.remaining - size }) o
    → Ends c o
Ends-behind size c none le h = h
Ends-behind size c (some c') le h = ground arith

pub extension_size-ge : (m : Memory) (p : Ptr) → m (p + 1) < 256 → 8 ≤ extension_size m p
extension_size-ge m p h = omega arith

-- The extension headers of IPv6: each takes 8 bytes, so the fuel is enough, and the end stays.
pub ip6_headers-Ends :
    (fuel : ℕ) (m : Memory) (nxt : ℕ) (c : Cursor)
    → ((p : Ptr) → m p < 256)
    → c.remaining < fuel
    → Ends c (ip6_headers fuel m nxt c)
unfolding ip6_headers
ip6_headers-Ends zero m nxt c bytes enough = elim enough [ ]
ip6_headers-Ends (suc fuel) m nxt c bytes enough =
    let size = extension_size m c.ptr in
    let after_extension : Cursor = record c {
      ptr = c.ptr + size;
      remaining = c.remaining - size;
    } in
    let after_fragment : Cursor = record c { ptr = c.ptr + 8; remaining = c.remaining - 8 } in
    ground (
      arith,
      extension_size-ge m c.ptr (bytes (c.ptr + 1)),
      ip6_headers-Ends fuel m (m c.ptr) after_extension bytes,
      ip6_headers-Ends fuel m (m c.ptr) after_fragment bytes,
      Ends-behind size c (ip6_headers fuel m (m c.ptr) after_extension),
      Ends-behind 8 c (ip6_headers fuel m (m c.ptr) after_fragment),
    )

-- Through IPv6 and its extension headers: the loop ends, and the end of the packet stays.
pub payload_from_ip6-Ends :
    (m : Memory) (c : Cursor) → ((p : Ptr) → m p < 256) → Ends c (payload_from_ip6 m c)
unfolding payload_from_ip6
payload_from_ip6-Ends m c bytes =
    let after : Cursor = record c { ptr = c.ptr + 40; remaining = c.remaining - 40 } in
    ground (
      arith,
      ip6_headers-Ends c.remaining m (m (c.ptr + 6)) after bytes,
      Ends-behind 40 c (ip6_headers c.remaining m (m (c.ptr + 6)) after),
    )
