-- ===== src/Protocols/Walk.antt =====
-- The whole way from the link layer to the transport layer stays inside the captured packet.
use odp_libtrace.Prelude.{
  ℕ, zero, suc, ◌+◌, ◌≤◌, ◌<◌, ◌≡◌, ◌≢◌, ◌⊎◌, refl, inl, inr, arith, Ptr, null, Option, none, some,
  Option-cases, ℕ_discrete,
}
use odp_libtrace.Protocols.Cursor.{Memory, Cursor}
use odp_libtrace.Protocols.Layer2.{payload_from_layer2}
use odp_libtrace.Protocols.Layer3.{
  Packet, between, skip_between, get_layer3, payload_from_ip, payload_from_ip6,
}
use odp_libtrace.Protocols.Transport.{
  transport_of, get_transport, get_header, get_tcp, get_udp, get_icmp, get_icmp6,
}
use odp_libtrace.Protocols.Within.{
  Within, Within-layer2, Within-between, Within-ip, Within-trans, KeepsEnd, Ends,
  payload_from_ip6-Ends,
}

Ends-Within : (a b : Cursor) (o : Option Cursor) → b.ptr ≢ null → Within a b → Ends b o → Ends a o
Ends-Within a b none ne h k = k
Ends-Within a b (some c) ne h k = Within-trans a b c ne h k

between-null : (m : Memory) (c : Cursor) → c.ptr ≡ null → between m c ≡ none
unfolding between
between-null m c e = ground arith

skip_between-none :
    (fuel : ℕ) (m : Memory) (c : Cursor) → between m c ≡ none → skip_between (suc fuel) m c ≡ some c
unfolding skip_between
skip_between-none fuel m c e = rw (e, skip_between)

skip_between-some :
    (fuel : ℕ) (m : Memory) (c : Cursor) {c' : Cursor}
    → between m c ≡ some c'
    → skip_between (suc fuel) m c ≡ skip_between fuel m c'
unfolding skip_between
skip_between-some fuel m c e = rw (e, skip_between)

-- The loop over VLAN, MPLS and PPPoE headers ends, and keeps the end of the packet.
pub skip_between-Ends :
    (fuel : ℕ) (m : Memory) (c : Cursor) → c.remaining + 1 < fuel → Ends c (skip_between fuel m c)
skip_between-Ends zero m c enough = elim enough [ ]
skip_between-Ends (suc zero) m c enough = absurd (omega arith)
skip_between-Ends (suc (suc fuel)) m c enough = elim (Option-cases (between m c)) [
  | inl stop ↦ rw (skip_between-none (suc fuel) m c stop) (inr (omega arith, refl))
  | inr (c', e) ↦ rw (skip_between-some (suc fuel) m c e) (elim (ℕ_discrete c'.ptr null) [
    | yes gone ↦ rw (skip_between-none fuel m c' (between-null m c' gone)) (inl gone)
    | no there ↦
        Ends-Within c c' (skip_between (suc fuel) m c') there (Within-between m c e).0
          (skip_between-Ends (suc fuel) m c' (ground (arith, Within-between m c e)))
  ])
]

-- Where the captured bytes of the link layer start and end.
abbrev pub link : Packet → Cursor
link p = record { ptr = p.l2_header; kind = 0; remaining = p.l2_remaining }

-- What is cached of a packet lies in it.
pub record CacheOk (p : Packet) : Type 0 where
  pub layer3 : Within (link p) p.l3
  pub layer4 : Within (link p) p.l4

Ends-null :
    (fuel : ℕ) (m : Memory) (a c : Cursor)
    → 0 < fuel
    → c.ptr ≡ null
    → Ends a (skip_between fuel m c)
Ends-null zero m a c pos e = elim pos [ ]
Ends-null (suc fuel) m a c pos e = rw (skip_between-none fuel m c (between-null m c e)) (inl e)

-- The walk from the link layer to the network layer.
walk : Memory → Packet → Option Cursor
walk m p = skip_between (p.l2_remaining + 2) m (payload_from_layer2 m p.link_type (link p))

walk-Ends : (m : Memory) (p : Packet) → KeepsEnd p.link_type → Ends (link p) (walk m p)
unfolding walk
walk-Ends m p keeps =
    let c = payload_from_layer2 m p.link_type (link p) in
    let inside = Within-layer2 m p.link_type (link p) keeps in
    elim (ℕ_discrete c.ptr null) [
      | yes gone ↦ Ends-null (p.l2_remaining + 2) m (link p) c (omega arith) gone
      | no there ↦
          Ends-Within (link p) c (skip_between (p.l2_remaining + 2) m c) there inside
            (skip_between-Ends (p.l2_remaining + 2) m c (ground (arith, inside)))
    ]

-- The result lies in the packet, and so does what is cached of it then.
abbrev pub Located : Packet → Option (Cursor × Packet) → Type 0
Located p none = ⊥
Located p (some (c, p')) = Within (link p) c × CacheOk p' × (link p' ≡ link p)

-- From a packet whose cache lies in it, `trace_get_layer3` ends, and what it returns and what it
-- caches is NULL or ends where the packet ends, for every link type but 802.11 and OpenBSD loopback.
pub get_layer3-Located :
    (m : Memory) {p : Packet} → KeepsEnd p.link_type → CacheOk p → Located p (get_layer3 m p)
unfolding get_layer3 walk
get_layer3-Located m {p} keeps h = elim (Option-cases (walk m p)) [
  | inl none_left ↦ absurd (rw none_left at (walk-Ends m p keeps))
  | inr (c, e) ↦ ground (arith, h.layer3, h.layer4, e, walk-Ends m p keeps)
]

transport_of-Ends : (m : Memory) (c : Cursor) → ((p : Ptr) → m p < 256) → Ends c (transport_of m c)
unfolding transport_of
transport_of-Ends m c bytes =
    let c0 : Cursor = record c { kind = 0 } in
    let inner = payload_from_ip m c0 in
    ground (
      arith,
      Within-ip m c0,
      payload_from_ip6-Ends m c0 bytes,
      Ends-Within c0 inner (payload_from_ip6 m inner),
      payload_from_ip6-Ends m inner bytes,
    )

-- From a packet whose cache lies in it, `trace_get_transport` ends, and what it returns and what it
-- caches is NULL or ends where the packet ends, for every link type but 802.11 and OpenBSD loopback.
pub get_transport-Located :
    (m : Memory) {p : Packet}
    → ((a : Ptr) → m a < 256)
    → KeepsEnd p.link_type
    → CacheOk p
    → Located p (get_transport m p)
unfolding get_transport
get_transport-Located m {p} bytes keeps h = elim (Option-cases (get_layer3 m p)) [
  | inl none_left ↦ absurd (rw none_left at (get_layer3-Located m keeps h))
  | inr ((c, p'), e) ↦ elim (Option-cases (transport_of m c)) [
    | inl none_left ↦ absurd (rw none_left at (transport_of-Ends m c bytes))
    | inr (t, f) ↦ ground (
      arith,
      e,
      f,
      get_layer3-Located m keeps h,
      transport_of-Ends m c bytes,
      Within-trans (link p) c t,
      h.layer3,
      h.layer4,
    )
  ]
]

-- A header that one of the typed accessors returns lies in the packet as a whole.
abbrev pub Whole : ℕ → Packet → Option Ptr → Type 0
Whole size p none = ⊥
Whole size p (some h) = (h ≡ null) ⊎ ((p.l2_header ≤ h) × (h + size ≤ p.l2_header + p.l2_remaining))

get_header-Whole :
    (proto size : ℕ) (m : Memory) {p : Packet}
    → ((a : Ptr) → m a < 256)
    → KeepsEnd p.link_type
    → CacheOk p
    → Whole size p (get_header proto size m p)
unfolding get_header
get_header-Whole proto size m {p} bytes keeps h = elim (Option-cases (get_transport m p)) [
  | inl none_left ↦ absurd (rw none_left at (get_transport-Located m bytes keeps h))
  | inr ((c, p'), e) ↦ ground (arith, e, get_transport-Located m bytes keeps h)
]

-- A TCP, UDP, ICMP or ICMPv6 header that is returned lies in the captured packet as a whole: 20
-- bytes of TCP, 8 of the others.
pub headers-Whole :
    (m : Memory) {p : Packet}
    → ((a : Ptr) → m a < 256)
    → KeepsEnd p.link_type
    → CacheOk p
    → Whole 20 p (get_tcp m p)
      × Whole 8 p (get_udp m p)
      × Whole 8 p (get_icmp m p)
      × Whole 8 p (get_icmp6 m p)
unfolding get_tcp get_udp get_icmp get_icmp6
headers-Whole m bytes keeps h = (
  get_header-Whole 6 20 m bytes keeps h,
  get_header-Whole 17 8 m bytes keeps h,
  get_header-Whole 1 8 m bytes keeps h,
  get_header-Whole 58 8 m bytes keeps h,
)
