-- ===== src/Toeplitz/Tests.antt =====
-- The hash of a small packet and of the one that goes the other way.
use odp_libtrace.Prelude.{◌+◌, ◌-◌, ◌≡◌, refl, arith, true, [], ltb, if◌then◌else◌, some}
use odp_libtrace.LinkTypes.{LinkType}
use odp_libtrace.Protocols.Cursor.{Memory, ethertype_ip}
use odp_libtrace.Protocols.Layer3.{Packet, get_layer3}
use odp_libtrace.Protocols.Transport.{get_transport}
use odp_libtrace.Toeplitz.{Config, toeplitz_hash_packet}
use odp_libtrace.Toeplitz.Key.{init_config}
use odp_libtrace.Toeplitz.Reverse.{IsReverse, bidirectional-reverse}

-- UDP over IPv4 from address 100 on, both headers in the cache.
abbrev packet : Packet
packet = record {
  l2_header = 86;
  link_type = LinkType.eth;
  l2_remaining = 42;
  l3 = record { ptr = 100; kind = ethertype_ip; remaining = 28 };
  l4 = record { ptr = 120; kind = 17; remaining = 8 };
}

-- Addresses 12 to 15 and 16 to 19, ports 20, 21 and 22, 23.
abbrev there : Memory
there a = a - 100

abbrev back : Memory
back a =
    if ltb a 116
    then a - 100 + 4
    else if ltb a 120
    then a - 104
    else if ltb a 122
    then a - 100 + 2
    else a - 102

abbrev config : Config
config = record {
  hash_ipv4 = true;
  hash_tcp_ipv4 = true;
  hash_ipv6 = true;
  hash_tcp_ipv6 = true;
  hash_udp_ipv4 = true;
  hash_udp_ipv6 = true;
  key_cache = [];
}

layer3 : (m : Memory) → get_layer3 m packet ≡ some (packet.l3, packet)
unfolding get_layer3
layer3 m = refl

layer4 : (m : Memory) → get_transport m packet ≡ some (packet.l4, packet)
unfolding get_transport
layer4 m = refl

back-IsReverse : IsReverse there packet.l3 packet.l4 back packet.l3 packet.l4
back-IsReverse = record {
  alike3 = (refl, refl, (λ e. e), (λ e. e));
  alike4 = (refl, refl, (λ e. e), (λ e. e));
  ip_addresses = λ e. ((λ j h. ground arith), (λ j h. ground arith));
  ip6_addresses = λ e. absurd (omega (arith, e));
  ports = ((λ j h. ground arith), (λ j h. ground arith));
}

bidirectional-reverse_example :
    let conf = init_config config true 0x6d5a [] in
    toeplitz_hash_packet there packet conf ≡ toeplitz_hash_packet back packet conf
bidirectional-reverse_example =
    bidirectional-reverse config 0x6d5a [] there packet back packet (layer3 there) (layer4 there)
      (layer3 back) (layer4 back) back-IsReverse
