-- ===== src/Toeplitz.antt =====
-- lib/hash_toeplitz.c: the hash that spreads packets over threads. `key_cache` is a list of 320
-- 32-bit words, the host is little-endian, and `none` stands for fuel that ran out below.
pub mod Blocks
pub mod Key
pub mod Reverse
mod Tests
use Prim.Native.Nat.{bit_xor}
use odp_libtrace.Prelude.{
  ℕ, zero, suc, ◌+◌, ◌-◌, ◌*◌, ◌/◌, ◌%◌, ◌^◌, Bool, false, ◌==◌, ltb, ◌&&◌, ◌||◌, not,
  if◌then◌else◌, List, [], ◌∷◌, Ptr, null, Option, none, some, get_or,
}
use odp_libtrace.Protocols.Cursor.{Memory, Cursor, ethertype_ip, ethertype_ipv6}
use odp_libtrace.Protocols.Layer3.{Packet, get_layer3}
use odp_libtrace.Protocols.Transport.{get_transport}

-- `toeplitz_conf_t` without the key, of which `key_cache` is made, and the flags for IPv6
-- extensions, which only bring up a message.
pub record Config : Type 0 where
  pub hash_ipv4 : Bool
  pub hash_tcp_ipv4 : Bool
  pub hash_ipv6 : Bool
  pub hash_tcp_ipv6 : Bool
  pub hash_udp_ipv4 : Bool
  pub hash_udp_ipv6 : Bool
  pub key_cache : List ℕ

-- `byte & (0x80 >> num)`, as a condition
abbrev pub get_bit : ℕ → ℕ → Bool
get_bit byte num = byte / 2 ^ (7 - num) % 2 == 1

-- The inner loop: `n` bits of `byte` from `bit` on, with the words from `i` on.
abbrev pub hash_bits : (n bit : ℕ) → List ℕ → (byte i result : ℕ) → ℕ
hash_bits zero bit keys byte i result = result
hash_bits (suc n) bit keys byte i result =
    hash_bits n (suc bit) keys byte (suc i)
      (if get_bit byte bit then bit_xor result (get_or keys i 0) else result)

-- The outer loop: `n` bytes at an address.
abbrev pub hash_bytes : ℕ → Memory → Ptr → List ℕ → (i result : ℕ) → ℕ
hash_bytes zero m at keys i result = result
hash_bytes (suc n) m at keys i result =
    hash_bytes n m (at + 1) keys (i + 8) (hash_bits 8 0 keys (m at) i result)

unfoldable pub toeplitz_hash : Config → Memory → Ptr → (offset n result : ℕ) → ℕ
toeplitz_hash tc m at offset n result = hash_bytes n m at tc.key_cache (offset * 8) result

unfoldable pub toeplitz_first_hash : Config → Memory → Ptr → ℕ → ℕ
unfolding toeplitz_hash
toeplitz_first_hash tc m at n = toeplitz_hash tc m at 0 n 0

-- What the network layer leaves: `res`, `offset`, `accept_tcp` and `accept_udp`.
pub record Hashing : Type 0 where
  pub res : ℕ
  pub offset : ℕ
  pub accept_tcp : Bool
  pub accept_udp : Bool

abbrev pub no_hash : Hashing
no_hash = record { res = 0; offset = 0; accept_tcp = false; accept_udp = false }

-- `switch (eth_type)`; `none` where the function returns 0.
unfoldable pub hash_layer3 : Memory → Config → Cursor → Option Hashing
hash_layer3 m cnf c =
    if c.ptr == null
    then some no_hash
    else if c.kind == ethertype_ip
    then (if (cnf.hash_ipv4 || cnf.hash_tcp_ipv4 || cnf.hash_udp_ipv4) && not (ltb c.remaining 20)
        then some (record {
          res = toeplitz_first_hash cnf m (c.ptr + 12) 8;
          offset = 8;
          accept_tcp = cnf.hash_tcp_ipv4;
          accept_udp = cnf.hash_udp_ipv4;
        })
        else some no_hash)
    else if c.kind == ethertype_ipv6
    then (if (cnf.hash_ipv6 || cnf.hash_tcp_ipv6 || cnf.hash_udp_ipv6) && not (ltb c.remaining 40)
        then some (record {
          res = toeplitz_first_hash cnf m (c.ptr + 8) 32;
          offset = 32;
          accept_tcp = cnf.hash_tcp_ipv6;
          accept_udp = cnf.hash_udp_ipv6;
        })
        else some no_hash)
    else none

-- The ports, where they count.
unfoldable pub hash_ports : Memory → Config → Hashing → Cursor → ℕ
hash_ports m cnf h t =
    let with_ports = toeplitz_hash cnf m t.ptr h.offset 4 h.res in
    if t.ptr == null
    then h.res
    else if t.kind == 17
    then (if h.accept_udp && not (ltb t.remaining 4) then with_ports else h.res)
    else if t.kind == 6
    then (if h.accept_tcp && not (ltb t.remaining 4) then with_ports else h.res)
    else h.res

-- `toeplitz_hash_packet`, without what it leaves in the caches.
unfoldable pub toeplitz_hash_packet : Memory → Packet → Config → Option ℕ
toeplitz_hash_packet m p cnf = elim (get_layer3 m p) [
  | none ↦ none
  | some (c, p') ↦ elim (hash_layer3 m cnf c) [
    | none ↦ some 0
    | some h ↦ elim (get_transport m p') [
      | none ↦ none
      | some (t, p'') ↦ some (hash_ports m cnf h t)
    ]
  ]
]
