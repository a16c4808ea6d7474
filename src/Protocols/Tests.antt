-- ===== src/Protocols/Tests.antt =====
-- The header walk over small packets.
use odp_libtrace.Prelude.{
  ℕ, zero, suc, ◌-◌, ◌^◌, ◌≤◌, ◌<◌, ◌≡◌, refl, arith, inl, true, List, [], ◌∷◌, some, get_or, Ptr,
  ◌==◌, if◌then◌else◌,
}
use odp_libtrace.LinkTypes.{LinkType}
use odp_libtrace.Protocols.Cursor.{Memory, Cursor}
use odp_libtrace.Protocols.Layer2.{payload_from_layer2, payload_from_ethernet, payload_from_vlan}
use odp_libtrace.Protocols.Layer3.{Packet, between, skip_between, get_layer3, payload_from_ip}
use odp_libtrace.Protocols.Transport.{
  transport_of, get_transport, get_tcp, get_udp, get_icmp, get_icmp6,
}
use odp_libtrace.Protocols.Walk.{CacheOk, Located, Whole, get_transport-Located, headers-Whole}
use odp_libtrace.Protocols.Overrun.{wifi_overrun}
use odp_libtrace.Protocols.Options.{Next}

-- An Ethernet header, a VLAN tag, an IPv4 header of 20 bytes and a UDP header, from address 100 on.
abbrev frame : List ℕ
frame =
    1 ∷ 2 ∷ 3 ∷ 4 ∷ 5 ∷ 6 ∷ 1 ∷ 2 ∷ 3 ∷ 4 ∷ 5 ∷ 6 ∷ 0x81 ∷ 0 ∷ 0 ∷ 7 ∷ 8 ∷ 0 ∷ 0x45 ∷ 0 ∷ 0 ∷ 28 ∷ 0
    ∷ 0 ∷ 0 ∷ 0 ∷ 64 ∷ 17 ∷ 0 ∷ 0 ∷ 10 ∷ 0 ∷ 0 ∷ 1 ∷ 10 ∷ 0 ∷ 0 ∷ 2 ∷ 0 ∷ 53 ∷ 0 ∷ 99 ∷ 0 ∷ 8 ∷ 0
    ∷ 0 ∷ []

abbrev pub memory : Memory
memory a = get_or frame (a - 100) 0

abbrev pub packet : Packet
packet = record {
  l2_header = 100;
  link_type = LinkType.eth;
  l2_remaining = 46;
  l3 = record { ptr = 0; kind = 0; remaining = 0 };
  l4 = record { ptr = 0; kind = 0; remaining = 0 };
}

udp_of_frame : get_udp memory packet ≡ some 138
unfolding get_udp get_transport get_layer3 skip_between between payload_from_layer2
    payload_from_ethernet payload_from_vlan payload_from_ip transport_of
udp_of_frame = refl

abbrev pub Bytes : List ℕ → Type 0
Bytes [] = Unit {0}
Bytes (x ∷ xs) = (x < 256) × Bytes xs

pub get_or-Bytes : (xs : List ℕ) (i : ℕ) → Bytes xs → get_or xs i 0 < 256
get_or-Bytes [] i h = omega arith
get_or-Bytes (x ∷ xs) zero h = h.0
get_or-Bytes (x ∷ xs) (suc i) h = get_or-Bytes xs i h.1

frame-Bytes : Bytes frame
frame-Bytes = omega arith

pub bytes : (a : Ptr) → memory a < 256
bytes a = get_or-Bytes frame (a - 100) frame-Bytes

pub packet-CacheOk : CacheOk packet
packet-CacheOk = record { layer3 = inl refl; layer4 = inl refl }

get_transport-Located_example : Located packet (get_transport memory packet)
get_transport-Located_example = get_transport-Located memory bytes tt packet-CacheOk

headers-Whole_example :
    Whole 20 packet (get_tcp memory packet)
    × Whole 8 packet (get_udp memory packet)
    × Whole 8 packet (get_icmp memory packet)
    × Whole 8 packet (get_icmp6 memory packet)
headers-Whole_example = headers-Whole memory bytes tt packet-CacheOk

-- A memory of one value.
abbrev flat : ℕ → Memory
flat v a = v

abbrev cell : ℕ → Cursor
cell n = record { ptr = 100; kind = 0; remaining = n }

wifi_overrun_example :
    let c' = payload_from_layer2 (λ a. if a == 101 then 3 else 0x88) LinkType.wifi (cell 30) in
    (c'.ptr ≡ 134) × (2 ^ 32 - 4 ≤ c'.remaining)
wifi_overrun_example =
    wifi_overrun (λ a. if a == 101 then 3 else 0x88) (cell 30) refl refl (omega arith) (omega arith)
      (omega arith)

-- A data frame whose payload begins with 0xaaaa
abbrev snap : Memory
snap a = if a == 100 then 8 else 0xaa

-- An option of three bytes in an area of four.
abbrev area : Next
area = record { more = true; ptr = 10; len = 4; kind = 0; optlen = 0; payload = 0 }
