-- ===== src/Protocols/Cursor.antt =====
-- What the header functions pass on: where the next header starts, what it is, and how many
-- captured bytes there are from there on.
use odp_libtrace.Prelude.{ℕ, ◌+◌, ◌*◌, ◌-◌, Ptr, null, ltb, if◌then◌else◌}

-- The byte at each address. A pointer into a packet is an address; it does not wrap.
abbrev pub Memory : Type 0
Memory = Ptr → ℕ

-- `ptr` is the returned pointer, `kind` the ethertype or protocol behind the `type` or `proto`
-- argument, `remaining` the count behind the `remaining` argument.
pub record Cursor : Type 0 where
  pub ptr : Ptr
  pub kind : ℕ
  pub remaining : ℕ

-- `ntohs` of the two bytes at an address.
abbrev pub be16 : Memory → Ptr → ℕ
be16 m p = m p * 256 + m (p + 1)

-- "Truncated": the count is cleared, and NULL returned.
abbrev pub truncated : Cursor → Cursor
truncated c = record c { ptr = null; remaining = 0 }

-- Behind a header of `size` bytes, of which `kind` is read; NULL if it is not all there.
abbrev pub skip : ℕ → ℕ → Cursor → Cursor
skip size kind c =
    if ltb c.remaining size
    then truncated c
    else record { ptr = c.ptr + size; kind = kind; remaining = c.remaining - size }

module _ where
  abbrev pub ethertype_ip : ℕ
  ethertype_ip = 0x0800

  abbrev pub ethertype_8021q : ℕ
  ethertype_8021q = 0x8100

  abbrev pub ethertype_ipv6 : ℕ
  ethertype_ipv6 = 0x86dd

  abbrev pub ethertype_mpls : ℕ
  ethertype_mpls = 0x8847

  abbrev pub ethertype_ppp_ses : ℕ
  ethertype_ppp_ses = 0x8864
