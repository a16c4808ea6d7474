-- ===== src/Protocols/PayloadLength/Bounds.antt =====
-- The bounds of the payload length, its cache, and where it wraps.
use odp_libtrace.Prelude.{
  ℕ, ◌+◌, ◌-◌, ◌^◌, ◌≤◌, ◌<◌, ◌≡◌, ◌≢◌, inl, inr, arith, Ptr, null, Option, none, some,
  Option-cases,
}
use odp_libtrace.Protocols.Cursor.{Memory, Cursor, be16, ethertype_ip}
use odp_libtrace.Protocols.Layer3.{Packet, ip_size, get_layer3}
use odp_libtrace.Protocols.Transport.{get_transport}
use odp_libtrace.Protocols.Within.{KeepsEnd}
use odp_libtrace.Protocols.Walk.{CacheOk, get_transport-Located}
use odp_libtrace.Protocols.Fragment.Laws.{Kept, layer3-Kept}
use odp_libtrace.Protocols.PayloadLength.{
  Measured, minus_one, ip_payload, transport_payload, get_payload_length,
}

-- The total length of an IPv4 header covers it, and the IPv6 header behind it if there is one.
abbrev pub Proper : Memory → Cursor → Type 0
Proper m c =
    (c.kind ≡ ethertype_ip → ip_size m c.ptr ≤ be16 m (c.ptr + 2))
    × (c.kind ≡ ethertype_ip → m (c.ptr + 9) ≡ 41 → ip_size m c.ptr + 40 ≤ be16 m (c.ptr + 2))

-- A length near the largest of 64 bits.
abbrev pub Huge : Option (ℕ × Measured) → Type 0
Huge none = ⊥
Huge (some (n, p)) = 2 ^ 64 - 68 ≤ n

abbrev Below : ℕ → Option ℕ → Type 0
Below n none = Unit {0}
Below n (some x) = x < n

ip_payload-Below :
    (m : Memory) (c : Cursor)
    → ((a : Ptr) → m a < 256)
    → Proper m c
    → Below (2 ^ 16) (ip_payload m c)
unfolding ip_payload
ip_payload-Below m c bytes h =
    ground
      (arith, bytes (c.ptr + 2), bytes (c.ptr + 3), bytes (c.ptr + 4), bytes (c.ptr + 5), h.0, h.1)

transport_payload-Below :
    (m : Memory) (c : Cursor) (len : ℕ) → len < 2 ^ 16 → Below (2 ^ 16) (transport_payload m c len)
unfolding transport_payload
transport_payload-Below m c len h = ground arith

-- A result that is below 2 ^ 16, and that the next call finds again.
abbrev pub Settled : Memory → Option (ℕ × Measured) → Type 0
Settled m none = ⊥
Settled m (some (n, p)) = (n < 2 ^ 16) × (get_payload_length m p ≡ some (n, p))

abbrev Stored : Option (ℕ × Measured) → Type 0
Stored none = ⊥
Stored (some (n, p)) = (n < 2 ^ 16) × (p.payload_length ≡ n)

cached-again :
    (m : Memory) (p : Measured) (n : ℕ)
    → n < 2 ^ 16
    → p.payload_length ≡ n
    → get_payload_length m p ≡ some (n, p)
unfolding get_payload_length
cached-again m p n h e = ground arith

Stored-Settled : (m : Memory) (o : Option (ℕ × Measured)) → Stored o → Settled m o
Stored-Settled m none h = h
Stored-Settled m (some (n, p)) (small, e) = (small, cached-again m p n small e)

payload_length-Stored :
    (m : Memory) (p : Measured)
    → ((a : Ptr) → m a < 256)
    → KeepsEnd p.packet.link_type
    → CacheOk p.packet
    → p.payload_length ≡ minus_one
    → ((c : Cursor) (p' : Packet) → get_layer3 m p.packet ≡ some (c, p') → Proper m c)
    → Stored (get_payload_length m p)
unfolding get_payload_length
payload_length-Stored m p bytes keeps h fresh proper = elim (Option-cases (get_layer3 m p.packet)) [
  | inl none_left ↦ absurd (rw none_left at (layer3-Kept m keeps h))
  | inr ((c, p'), e) ↦
      let kept : Kept p.packet p' = rw e at (layer3-Kept m keeps h) in
      let keeps' : KeepsEnd p'.link_type = rw (kept.2) keeps in
      let below = ip_payload-Below m c bytes (proper c p' e) in
      elim (Option-cases (get_transport m p')) [
        | inl none_left ↦ absurd (rw none_left at (get_transport-Located m bytes keeps' kept.0))
        | inr ((t, p''), f) ↦ elim (Option-cases (ip_payload m c)) [
          | inl g ↦ ground (arith, e, f, g, fresh)
          | inr (len, g) ↦
              ground (arith, e, f, g, fresh, transport_payload-Below m t len (rw g at below))
        ]
      ]
]

-- If the length is not cached, the caches lie in the packet, its link type is neither 802.11 nor
-- OpenBSD loopback, and the total length of an IPv4 header covers the headers that are subtracted
-- from it, then the call ends, the payload length is below 2 ^ 16, and the next call returns the
-- same length and changes nothing.
pub payload_length-Settled :
    (m : Memory) (p : Measured)
    → ((a : Ptr) → m a < 256)
    → KeepsEnd p.packet.link_type
    → CacheOk p.packet
    → p.payload_length ≡ minus_one
    → ((c : Cursor) (p' : Packet) → get_layer3 m p.packet ≡ some (c, p') → Proper m c)
    → Settled m (get_payload_length m p)
payload_length-Settled m p bytes keeps h fresh proper =
    Stored-Settled m (get_payload_length m p) (payload_length-Stored m p bytes keeps h fresh proper)

-- The payload length of UDP over IPv4 wraps where the total length is smaller than the IPv4 header:
-- it is at least 2 ^ 64 - 68.
pub payload_length_wraps :
    (m : Memory) (p : Measured) {c t : Cursor} {p' p'' : Packet}
    → p.payload_length ≡ minus_one
    → get_layer3 m p.packet ≡ some (c, p')
    → c.ptr ≢ null
    → c.kind ≡ ethertype_ip
    → 20 ≤ c.remaining
    → m (c.ptr + 9) ≡ 17
    → be16 m (c.ptr + 2) < ip_size m c.ptr
    → get_transport m p' ≡ some (t, p'')
    → t.ptr ≢ null
    → t.kind ≡ 17
    → 8 ≤ t.remaining
    → Huge (get_payload_length m p)
unfolding get_payload_length ip_payload transport_payload
payload_length_wraps m p {c} {t} {p'} {p''} fresh e at_ip kind captured udp small f at_udp kind'
      captured' =
    ground arith
