-- ===== src/Protocols/Fragment/Laws.antt =====
-- The fragment offset and the ports of a packet: what they are read from.
use odp_libtrace.Prelude.{
  ℕ, zero, suc, ◌+◌, ◌-◌, ◌/◌, ◌≤◌, ◌<◌, ◌≡◌, ◌≢◌, ◌⊎◌, refl, inl, inr, arith, false, Ptr, null,
  Option, none, some, Option-cases,
}
use odp_libtrace.Protocols.Cursor.{Memory, Cursor, be16, ethertype_ipv6}
use odp_libtrace.Protocols.Layer3.{Packet, get_layer3, is_extension, extension_size}
use odp_libtrace.Protocols.Transport.{get_transport}
use odp_libtrace.Protocols.Within.{Within, KeepsEnd, extension_size-ge}
use odp_libtrace.Protocols.Walk.{link, CacheOk, get_layer3-Located, get_transport-Located}
use odp_libtrace.Protocols.Fragment.{
  Fragment, whole, find_fragment, ip6_fragment, get_fragment_offset, get_port, get_source_port,
  get_destination_port,
}

-- The loop ended.
abbrev Found : Option Fragment → Type 0
Found none = ⊥
Found (some f) = Unit {0}

find_fragment-Found :
    (fuel : ℕ) (m : Memory) (nxt payload remaining : ℕ)
    → m (payload + 1) < 256
    → remaining < fuel
    → Found (find_fragment fuel m nxt payload remaining)
unfolding find_fragment
find_fragment-Found zero m nxt payload remaining byte enough = elim enough [ ]
find_fragment-Found (suc fuel) m nxt payload remaining byte enough = ground (
  arith,
  extension_size-ge m payload byte,
  find_fragment-Found fuel m (m payload) payload (remaining - extension_size m payload) byte,
)

ip6_fragment-Found : (m : Memory) (c : Cursor) → m (c.ptr + 1) < 256 → Found (ip6_fragment m c)
unfolding ip6_fragment
ip6_fragment-Found m c byte = ground (
  arith,
  find_fragment-Found (c.remaining + 1) m (m (c.ptr + 40 + 6)) c.ptr (c.remaining - 40) byte,
)

-- What a call leaves of the packet: its cache lies in it, and its link layer is as it was.
abbrev pub Kept : Packet → Packet → Type 0
Kept p p' = CacheOk p' × (link p' ≡ link p) × (p'.link_type ≡ p.link_type)

abbrev pub KeptBy : {A : Type 0} → Packet → Option (A × Packet) → Type 0
KeptBy p none = ⊥
KeptBy p (some (_, p')) = Kept p p'

-- The accessors leave the link type as it was.
layer3-link_type :
    (m : Memory) (p : Packet) {c : Cursor} {p' : Packet}
    → get_layer3 m p ≡ some (c, p')
    → p'.link_type ≡ p.link_type
unfolding get_layer3
layer3-link_type m p e = ground arith

pub layer3-Kept :
    (m : Memory) {p : Packet} → KeepsEnd p.link_type → CacheOk p → KeptBy p (get_layer3 m p)
layer3-Kept m {p} keeps h = elim (Option-cases (get_layer3 m p)) [
  | inl none_left ↦ absurd (rw none_left at (get_layer3-Located m keeps h))
  | inr ((c, p'), e) ↦ ground (arith, e, layer3-link_type m p e, get_layer3-Located m keeps h)
]

fragment_offset-Kept :
    (m : Memory) {p : Packet}
    → ((a : Ptr) → m a < 256)
    → KeepsEnd p.link_type
    → CacheOk p
    → KeptBy p (get_fragment_offset m p)
unfolding get_fragment_offset
fragment_offset-Kept m {p} bytes keeps h = elim (Option-cases (get_layer3 m p)) [
  | inl none_left ↦ absurd (rw none_left at (layer3-Kept m keeps h))
  | inr ((c, p'), e) ↦
      ground (arith, e, layer3-Kept m keeps h, ip6_fragment-Found m c (bytes (c.ptr + 1)))
]

-- The port is 0, or the two bytes at `at` bytes from the address `h`, and these bytes lie in the
-- captured packet.
abbrev pub PortIn : ℕ → Ptr → Memory → Packet → Option ℕ → Type 0
PortIn at h m p none = ⊥
PortIn at h m p (some port) =
    (port ≡ 0)
    ⊎ ((p.l2_header ≤ h) × (h + at + 2 ≤ p.l2_header + p.l2_remaining) × (port ≡ be16 m (h + at)))

-- Where the transport header is found, behind the search for the fragment offset.
unfoldable pub transport_ptr : Memory → Packet → Ptr
transport_ptr m p = elim (get_fragment_offset m p) [
  | none ↦ null
  | some (f, p') ↦ elim (get_transport m p') [ none ↦ null | some (c, p'') ↦ c.ptr ]
]

transport-In :
    (at : ℕ) (m : Memory) (p p' : Packet) (c : Cursor)
    → Within (link p') c
    → link p' ≡ link p
    → c.ptr ≢ null
    → at + 2 ≤ c.remaining
    → PortIn at c.ptr m p (some (be16 m (c.ptr + at)))
transport-In at m p p' c (inl gone) same there enough = absurd (there gone)
transport-In at m p p' c (inr (after, ends)) same there enough =
    inr (ground (arith, same), ground (arith, same), refl)

get_port-In :
    (at : ℕ) (m : Memory) {p : Packet}
    → ((a : Ptr) → m a < 256)
    → KeepsEnd p.link_type
    → CacheOk p
    → PortIn at (transport_ptr m p) m p (get_port at m p)
unfolding get_port transport_ptr
get_port-In at m {p} bytes keeps h = elim (Option-cases (get_fragment_offset m p)) [
  | inl none_left ↦ absurd (rw none_left at (fragment_offset-Kept m bytes keeps h))
  | inr ((f, p'), e) ↦
      let kept : Kept p p' = rw e at (fragment_offset-Kept m bytes keeps h) in
      let keeps' : KeepsEnd p'.link_type = rw (kept.2) keeps in
      let located = get_transport-Located m bytes keeps' kept.0 in
      elim (Option-cases (get_transport m p')) [
        | inl none_left ↦ absurd (rw none_left at located)
        | inr ((c, p''), e') ↦ ground (arith, e, e', located, kept.1, transport-In at m p p' c)
      ]
]

-- For every link type but 802.11 and OpenBSD loopback, both calls end, and there is one address, that
-- of the transport header, such that a source port other than 0 is the two bytes there, a
-- destination port other than 0 the next two bytes, and the bytes that are read lie in the captured
-- packet.
pub ports-PortIn :
    (m : Memory) {p : Packet}
    → ((a : Ptr) → m a < 256)
    → KeepsEnd p.link_type
    → CacheOk p
    → PortIn 0 (transport_ptr m p) m p (get_source_port m p)
      × PortIn 2 (transport_ptr m p) m p (get_destination_port m p)
unfolding get_source_port get_destination_port
ports-PortIn m bytes keeps h = (get_port-In 0 m bytes keeps h, get_port-In 2 m bytes keeps h)

-- A first byte of a header of version 6 is the number of no extension header.
version-Unextended : (b : ℕ) → b / 16 ≡ 6 → is_extension b ≡ false
unfolding is_extension
version-Unextended b version = ground arith

find_fragment-default :
    (fuel : ℕ) (m : Memory) (nxt payload remaining : ℕ)
    → 0 < fuel
    → is_extension nxt ≡ false
    → nxt ≢ 44
    → find_fragment fuel m nxt payload remaining ≡ some whole
unfolding find_fragment
find_fragment-default zero m nxt payload remaining pos plain other = absurd (omega arith)
find_fragment-default (suc fuel) m nxt payload remaining pos plain other = ground arith

find_fragment-missed :
    (fuel : ℕ) (m : Memory) (nxt payload remaining : ℕ)
    → 1 < fuel
    → m payload / 16 ≡ 6
    → nxt ≢ 44
    → find_fragment fuel m nxt payload remaining ≡ some whole
unfolding find_fragment
find_fragment-missed zero m nxt payload remaining enough version other = absurd (omega arith)
find_fragment-missed (suc fuel) m nxt payload remaining enough version other =
    let len = extension_size m payload in
    ground (
      arith,
      find_fragment-default fuel m (m payload) payload (remaining - len) (omega arith)
          (version-Unextended (m payload) version) (omega arith),
    )

-- The fragment header of a packet in IPv6 is not looked at: where the version of the header is 6
-- and byte 46 is not 44, the packet counts as whole, whatever its next header is.
pub ip6_fragment_missed :
    (m : Memory) (p : Packet) {c : Cursor} {p' : Packet}
    → get_layer3 m p ≡ some (c, p')
    → c.kind ≡ ethertype_ipv6
    → m c.ptr / 16 ≡ 6
    → m (c.ptr + 46) ≢ 44
    → get_fragment_offset m p ≡ some (whole, p')
unfolding get_fragment_offset ip6_fragment
ip6_fragment_missed m p {c} e kind version other =
    let missed : ip6_fragment m c ≡ some whole =
      ground (
        arith,
        find_fragment-missed (c.remaining + 1) m (m (c.ptr + 46)) c.ptr (c.remaining - 40),
      ) in
    ground (arith, e, missed)
