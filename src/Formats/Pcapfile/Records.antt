-- ===== src/Formats/Pcapfile/Records.antt =====
-- lib/format_pcapfile.c: what is read of the bytes that were written.
use odp_libtrace.Prelude.{
  ℕ, ◌+◌, ◌*◌, ◌/◌, ◌%◌, ◌^◌, ◌≤◌, ◌<◌, ◌≡◌, refl, ap, sym, arith, false, ◌==◌, ltb, leb,
  if◌then◌else◌, List, [], ◌∷◌, ◌++◌, none, some, length, take, drop, length-take, Bool-cases, inl,
  inr,
}
use odp_libtrace.LinkTypes.{LinkType, libtrace_to_pcap_linktype, pcap_linktype_to_rt}
use odp_libtrace.LinkTypes.RoundTrip.{libtrace_to_pcap_linktype_lt}
use odp_libtrace.Formats.Bytes.{u16_at, u32_at, Wandio, IsWandio}
use odp_libtrace.Formats.Pcapfile.{
  Header, magic1, swaps, swapl, header_of, Packet, packet, start_input, read_body, read_packet,
  bufsize,
}
use odp_libtrace.Formats.Pcapfile.Writing.{View, file_header, packet_header, caplen_of, wirelen_of}

u32_back :
    (n : ℕ)
    → n < 2 ^ 32
    → n % 2 ^ 8
        + n / 2 ^ 8 % 2 ^ 8 * 2 ^ 8
        + n / 2 ^ 16 % 2 ^ 8 * 2 ^ 16
        + n / 2 ^ 24 % 2 ^ 8 * 2 ^ 24
      ≡ n
u32_back n h = omega arith

-- The header of a file for a link type.
abbrev pub header_for : LinkType → Header
header_for t = record {
  magic_number = magic1;
  version_major = 2;
  version_minor = 4;
  network = libtrace_to_pcap_linktype t;
}

header_of-file_header : (t : LinkType) → header_of (file_header t) ≡ header_for t
unfolding header_of file_header u32_at u16_at
header_of-file_header t =
    ap (λ n. record { magic_number = magic1; version_major = 2; version_minor = 4; network = n })
      (u32_back (libtrace_to_pcap_linktype t) (libtrace_to_pcap_linktype_lt t))

module _ {ℓ} {A : Type ℓ} where
  take-append : (xs ys : List A) → take (length xs) (xs ++ ys) ≡ xs
  take-append [] ys = refl
  take-append (x ∷ xs) ys = ap (λ l. x ∷ l) (take-append xs ys)

  drop-append : (xs ys : List A) → drop (length xs) (xs ++ ys) ≡ ys
  drop-append [] ys = refl
  drop-append (x ∷ xs) ys = drop-append xs ys

pub length-file_header : (t : LinkType) → length (file_header t) ≡ 24
unfolding file_header
length-file_header t = refl

pub length-packet_header : (v : View) → length (packet_header v) ≡ 16
unfolding packet_header
length-packet_header v = refl

words_back :
    (v : View)
    → v.tv_sec < 2 ^ 32
    → v.tv_usec < 2 ^ 32
    → caplen_of v < 2 ^ 32
    → wirelen_of v < 2 ^ 32
    → (u32_at (packet_header v) 0 ≡ v.tv_sec)
      × (u32_at (packet_header v) 4 ≡ v.tv_usec)
      × (u32_at (packet_header v) 8 ≡ caplen_of v)
      × (u32_at (packet_header v) 12 ≡ wirelen_of v)
unfolding packet_header u32_at
words_back v a b c d =
    (u32_back v.tv_sec a, u32_back v.tv_usec b, u32_back (caplen_of v) c, u32_back (wirelen_of v) d)

-- What is read of a packet that was written.
unfoldable pub packet_of : View → Packet
packet_of v = record {
  type = pcap_linktype_to_rt (libtrace_to_pcap_linktype v.linktype);
  ts_sec = v.tv_sec;
  ts_usec = v.tv_usec;
  caplen = caplen_of v;
  wirelen = wirelen_of v;
  payload = if caplen_of v == 0 then none else some (take (caplen_of v) v.buffer);
}

-- A read of as many bytes as stand in front.
record Reads {In Out : Type 0} {io : Wandio In Out} (w : IsWandio io) (f : In) (n : ℕ)
    (bs rest : List ℕ) : Type 0 where
  pub bytes : (io.read f n).0 ≡ some bs
  pub behind : w.left (io.read f n).1 ≡ rest

module _ {In Out : Type 0} {io : Wandio In Out} (w : IsWandio io) where
  read-Reads :
      (f : In) {n : ℕ} (bs rest : List ℕ)
      → length bs ≡ n
      → w.left f ≡ bs ++ rest
      → Reads w f n bs rest
  read-Reads f bs rest h e = record {
    bytes = rw (w.read_bytes f _, e, sym h, take-append bs rest);
    behind = rw (w.read_left f _, e, sym h, drop-append bs rest);
  }

  pub start_input-header_for :
      (f : In) (t : LinkType) {rest : List ℕ}
      → w.left f ≡ file_header t ++ rest
      → (g : In) × (start_input io f ≡ (some (header_for t), g)) × (w.left g ≡ rest)
  unfolding start_input swaps
  start_input-header_for f t {rest} e =
      let r = read-Reads f (file_header t) rest (length-file_header t) e in
      ((io.read f 24).1, rw (r.bytes, length-file_header t, header_of-file_header t), r.behind)

  read_body-packet_of :
      (f : In) (v : View) (bs : List ℕ) {rest : List ℕ}
      → u32_at bs 0 ≡ v.tv_sec
      → u32_at bs 4 ≡ v.tv_usec
      → u32_at bs 8 ≡ caplen_of v
      → u32_at bs 12 ≡ wirelen_of v
      → caplen_of v < 65536
      → caplen_of v ≤ length v.buffer
      → w.left f ≡ take (caplen_of v) v.buffer ++ rest
      → (g : In) × (read_body io (header_for v.linktype) bs f
          ≡ (packet (packet_of v) (16 + caplen_of v), g))
        × (w.left g ≡ rest)
  unfolding read_body swapl packet_of
  read_body-packet_of f v bs {rest} e0 e4 e8 e12 h l e =
      let small : leb bufsize (caplen_of v) ≡ false = ground arith in
      elim (Bool-cases (caplen_of v == 0)) [
        | inl z ↦
            let c0 : caplen_of v ≡ 0 = ground arith in
            (f, rw (e0, e4, e8, e12, small, z, c0), rw (e, c0))
        | inr z ↦
            let size : length (take (caplen_of v) v.buffer) ≡ caplen_of v =
              omega (arith, length-take (caplen_of v) v.buffer) in
            let r = read-Reads f (take (caplen_of v) v.buffer) rest size e in
            let whole : ltb (caplen_of v) (caplen_of v) ≡ false = ground arith in
            (
              (io.read f (caplen_of v)).1,
              rw (e8, small, z, r.bytes, size, z, e8, whole, e0, e4, e12),
              r.behind,
            )
      ]

  pub read_packet-packet_of :
      (f : In) (v : View) {rest : List ℕ}
      → v.tv_sec < 2 ^ 32
      → v.tv_usec < 2 ^ 32
      → caplen_of v < 65536
      → wirelen_of v < 2 ^ 32
      → caplen_of v ≤ length v.buffer
      → w.left f ≡ packet_header v ++ (take (caplen_of v) v.buffer ++ rest)
      → (g : In) × (read_packet io (header_for v.linktype) f
          ≡ (packet (packet_of v) (16 + caplen_of v), g))
        × (w.left g ≡ rest)
  unfolding read_packet
  read_packet-packet_of f v {rest} sec usec cap wire l e =
      let r = read-Reads f (packet_header v) _ (length-packet_header v) e in
      let back = words_back v sec usec (omega arith) wire in
      let body =
        read_body-packet_of (io.read f 16).1 v (packet_header v) back.0 back.1 back.2 back.3 cap l
          r.behind in
      (body.0, rw (read_packet, r.bytes, length-packet_header v) body.1, body.2)
