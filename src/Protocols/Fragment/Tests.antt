-- ===== src/Protocols/Fragment/Tests.antt =====
-- The fragment offset, the ports and the payload length of small packets.
use odp_libtrace.Prelude.{ℕ, ◌-◌, ◌≡◌, refl, arith, inl, inr, List, [], ◌∷◌, some, get_or}
use odp_libtrace.Protocols.Cursor.{Memory, Cursor, ethertype_ip, ethertype_ipv6}
use odp_libtrace.Protocols.Layer3.{Packet, get_layer3}
use odp_libtrace.Protocols.Transport.{get_transport}
use odp_libtrace.Protocols.Walk.{CacheOk}
use odp_libtrace.Protocols.Tests.{memory, packet, bytes, packet-CacheOk}
use odp_libtrace.Protocols.Fragment.{
  whole, get_fragment_offset, get_source_port, get_destination_port,
}
use odp_libtrace.Protocols.Fragment.Laws.{PortIn, transport_ptr, ports-PortIn, ip6_fragment_missed}
use odp_libtrace.Protocols.PayloadLength.{Measured, minus_one, get_payload_length}
use odp_libtrace.Protocols.PayloadLength.Bounds.{Settled, Proper, payload_length-Settled}

ports-PortIn_example :
    PortIn 0 (transport_ptr memory packet) memory packet (get_source_port memory packet)
    × PortIn 2 (transport_ptr memory packet) memory packet (get_destination_port memory packet)
ports-PortIn_example = ports-PortIn memory bytes tt packet-CacheOk

-- The network layer of the frame, in the cache.
abbrev at_ip : Packet
at_ip = record packet { l3 = record { ptr = 118; kind = ethertype_ip; remaining = 28 } }

abbrev measured : Measured
measured = record { packet = at_ip; payload_length = minus_one }

at_ip-CacheOk : CacheOk at_ip
at_ip-CacheOk = record { layer3 = inr (omega arith, refl); layer4 = inl refl }

at_ip-Proper : (c : Cursor) (p' : Packet) → get_layer3 memory at_ip ≡ some (c, p') → Proper memory c
unfolding get_layer3
at_ip-Proper c p' e =
    let found : c ≡ at_ip.l3 = ground (arith, e) in
    rw found ((λ _. omega arith), (λ _ udp. absurd (omega (arith, udp))))

payload_length-Settled_example : Settled memory (get_payload_length memory measured)
payload_length-Settled_example =
    payload_length-Settled memory measured bytes tt at_ip-CacheOk refl at_ip-Proper

-- IPv6 from address 100 on, with a fragment header behind it whose offset is 88.
abbrev ip6_bytes : List ℕ
ip6_bytes =
    0x60 ∷ 0 ∷ 0 ∷ 0 ∷ 0 ∷ 8 ∷ 44 ∷ 64 ∷ 0 ∷ 0 ∷ 0 ∷ 0 ∷ 0 ∷ 0 ∷ 0 ∷ 0 ∷ 0 ∷ 0 ∷ 0 ∷ 0 ∷ 0 ∷ 0 ∷ 0
    ∷ 0 ∷ 0 ∷ 0 ∷ 0 ∷ 0 ∷ 0 ∷ 0 ∷ 0 ∷ 0 ∷ 0 ∷ 0 ∷ 0 ∷ 0 ∷ 0 ∷ 0 ∷ 0 ∷ 0 ∷ 17 ∷ 0 ∷ 0 ∷ 0x59 ∷ 0 ∷ 0
    ∷ 1 ∷ 0 ∷ []

abbrev ip6_memory : Memory
ip6_memory a = get_or ip6_bytes (a - 100) 0

abbrev ip6_packet : Packet
ip6_packet = record packet { l3 = record { ptr = 100; kind = ethertype_ipv6; remaining = 48 } }

ip6_layer3 : get_layer3 ip6_memory ip6_packet ≡ some (ip6_packet.l3, ip6_packet)
unfolding get_layer3
ip6_layer3 = refl

ip6_fragment_missed_example : get_fragment_offset ip6_memory ip6_packet ≡ some (whole, ip6_packet)
ip6_fragment_missed_example =
    ip6_fragment_missed ip6_memory ip6_packet ip6_layer3 refl refl (omega arith)

-- UDP over IPv4 with a total length of 0, both headers in the cache.
abbrev short_bytes : List ℕ
short_bytes = 0x45 ∷ 0 ∷ 0 ∷ 0 ∷ 0 ∷ 0 ∷ 0 ∷ 0 ∷ 64 ∷ 17 ∷ []

abbrev short_memory : Memory
short_memory a = get_or short_bytes (a - 100) 0

abbrev short : Measured
short = record {
  packet = record packet {
    l3 = record { ptr = 100; kind = ethertype_ip; remaining = 28 };
    l4 = record { ptr = 120; kind = 17; remaining = 8 };
  };
  payload_length = minus_one;
}

short_layer3 : get_layer3 short_memory short.packet ≡ some (short.packet.l3, short.packet)
unfolding get_layer3
short_layer3 = refl

short_layer4 : get_transport short_memory short.packet ≡ some (short.packet.l4, short.packet)
unfolding get_transport
short_layer4 = refl
