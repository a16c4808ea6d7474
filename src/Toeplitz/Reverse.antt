-- ===== src/Toeplitz/Reverse.antt =====
-- lib/hash_toeplitz.c: a packet and the one that goes the other way have the same hash.
use odp_libtrace.Prelude.{
  ℕ, ◌+◌, ◌*◌, ◌≤◌, ◌≡◌, arith, true, Ptr, null, some, List, Option-cases, inl, inr,
}
use odp_libtrace.Protocols.Cursor.{Memory, Cursor, ethertype_ip, ethertype_ipv6}
use odp_libtrace.Protocols.Layer3.{Packet, get_layer3}
use odp_libtrace.Protocols.Transport.{get_transport}
use odp_libtrace.Toeplitz.{
  Config, Hashing, toeplitz_hash, toeplitz_first_hash, hash_layer3, hash_ports,
  toeplitz_hash_packet,
}
use odp_libtrace.Toeplitz.Key.{init_config}
use odp_libtrace.Toeplitz.Key.Period.{bikey-Periodic}
use odp_libtrace.Toeplitz.Blocks.{Periodic, Same, hash_bytes-exchanged}

-- Two blocks of `n` bytes stand in the one memory as in the other, but have changed places.
abbrev pub Exchanged : ℕ → Memory → Ptr → Memory → Ptr → Type 0
Exchanged n m p m' p' = Same n m p m' (p' + n) × Same n m (p + n) m' p'

-- The cursors differ in the pointer at most, and there in whether it is NULL.
abbrev pub Alike : Cursor → Cursor → Type 0
Alike c c' =
    (c.kind ≡ c'.kind)
    × (c.remaining ≡ c'.remaining)
    × (c.ptr ≡ null → c'.ptr ≡ null)
    × (c'.ptr ≡ null → c.ptr ≡ null)

-- The packet found at `c` and `t`, and the one at `c'` and `t'` that goes the other way: the
-- addresses and the ports have changed places.
pub record IsReverse (m : Memory) (c t : Cursor) (m' : Memory) (c' t' : Cursor) : Type 0 where
  pub alike3 : Alike c c'
  pub alike4 : Alike t t'
  pub ip_addresses : c.kind ≡ ethertype_ip → Exchanged 4 m (c.ptr + 12) m' (c'.ptr + 12)
  pub ip6_addresses : c.kind ≡ ethertype_ipv6 → Exchanged 16 m (c.ptr + 8) m' (c'.ptr + 8)
  pub ports : Exchanged 2 m t.ptr m' t'.ptr

first_hash-Exchanged :
    (cnf : Config) (k : ℕ) (m : Memory) (p : Ptr) (m' : Memory) (p' : Ptr)
    → Periodic cnf.key_cache
    → 32 * k ≤ 288
    → Exchanged (2 * k) m p m' p'
    → toeplitz_first_hash cnf m p (2 * k + 2 * k) ≡ toeplitz_first_hash cnf m' p' (2 * k + 2 * k)
unfolding toeplitz_first_hash
first_hash-Exchanged cnf k m p m' p' periodic h (first, second) =
    hash_bytes-exchanged cnf.key_cache periodic k m p m' p' 0 0 (omega arith) first second

hash_layer3-reverse :
    (cnf : Config) (m : Memory) (c t : Cursor) (m' : Memory) (c' t' : Cursor)
    → Periodic cnf.key_cache
    → IsReverse m c t m' c' t'
    → hash_layer3 m cnf c ≡ hash_layer3 m' cnf c'
unfolding hash_layer3
hash_layer3-reverse cnf m c t m' c' t' periodic h =
    let v4 : c.kind ≡ ethertype_ip
        → toeplitz_first_hash cnf m (c.ptr + 12) 8 ≡ toeplitz_first_hash cnf m' (c'.ptr + 12) 8 =
      λ e.
        first_hash-Exchanged cnf 2 m (c.ptr + 12) m' (c'.ptr + 12) periodic (omega arith)
          (h.ip_addresses e) in
    let v6 : c.kind ≡ ethertype_ipv6
        → toeplitz_first_hash cnf m (c.ptr + 8) 32 ≡ toeplitz_first_hash cnf m' (c'.ptr + 8) 32 =
      λ e.
        first_hash-Exchanged cnf 8 m (c.ptr + 8) m' (c'.ptr + 8) periodic (omega arith)
          (h.ip6_addresses e) in
    ground (arith, h.alike3, v4, v6)

-- The offset of the ports is that of the addresses or 0.
hash_layer3-offset :
    (m : Memory) (cnf : Config) (c : Cursor) {o : Hashing}
    → hash_layer3 m cnf c ≡ some o
    → o.offset ≤ 32
unfolding hash_layer3
hash_layer3-offset m cnf c e = ground (arith, e)

hash_ports-reverse :
    (cnf : Config) (o : Hashing) (m : Memory) (c t : Cursor) (m' : Memory) (c' t' : Cursor)
    → Periodic cnf.key_cache
    → o.offset ≤ 32
    → IsReverse m c t m' c' t'
    → hash_ports m cnf o t ≡ hash_ports m' cnf o t'
unfolding hash_ports toeplitz_hash
hash_ports-reverse cnf o m c t m' c' t' periodic small h =
    let same =
      hash_bytes-exchanged cnf.key_cache periodic 1 m t.ptr m' t'.ptr (o.offset * 8) o.res
        (omega arith) h.ports.0 h.ports.1 in
    ground (arith, h.alike4, same)

packet-reverse :
    (cnf : Config) (m : Memory) (p : Packet) {p₁ p₂ : Packet} {c t : Cursor} (m' : Memory)
    (p' : Packet) {p₁' p₂' : Packet} {c' t' : Cursor}
    → Periodic cnf.key_cache
    → get_layer3 m p ≡ some (c, p₁)
    → get_transport m p₁ ≡ some (t, p₂)
    → get_layer3 m' p' ≡ some (c', p₁')
    → get_transport m' p₁' ≡ some (t', p₂')
    → IsReverse m c t m' c' t'
    → toeplitz_hash_packet m p cnf ≡ toeplitz_hash_packet m' p' cnf
unfolding toeplitz_hash_packet
packet-reverse cnf m p {p₁} {p₂} {c} {t} m' p' {p₁'} {p₂'} {c'} {t'} periodic e f e' f' h =
    let same = hash_layer3-reverse cnf m c t m' c' t' periodic h in
    elim (Option-cases (hash_layer3 m cnf c)) [
      | inl g ↦ ground (arith, e, e', g, same)
      | inr (o, g) ↦ ground (
        arith,
        e,
        f,
        e',
        f',
        g,
        same,
        hash_ports-reverse cnf o m c t m' c' t' periodic (hash_layer3-offset m cnf c g) h,
      )
    ]

-- With a configuration for both directions, whatever its random number, a packet and the one that
-- goes the other way have the same hash, where the searches for both layers of both packets end.
pub bidirectional-reverse :
    (cnf : Config) (random : ℕ) (bytes : List ℕ) (m : Memory) (p : Packet) {p₁ p₂ : Packet}
    {c t : Cursor} (m' : Memory) (p' : Packet) {p₁' p₂' : Packet} {c' t' : Cursor}
    → get_layer3 m p ≡ some (c, p₁)
    → get_transport m p₁ ≡ some (t, p₂)
    → get_layer3 m' p' ≡ some (c', p₁')
    → get_transport m' p₁' ≡ some (t', p₂')
    → IsReverse m c t m' c' t'
    → let conf = init_config cnf true random bytes in
      toeplitz_hash_packet m p conf ≡ toeplitz_hash_packet m' p' conf
unfolding init_config
bidirectional-reverse cnf random bytes m p m' p' e f e' f' h =
    packet-reverse (init_config cnf true random bytes) m p m' p' (bikey-Periodic random) e f e' f' h
