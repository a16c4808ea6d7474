-- ===== src/Formats/Pcapfile/Reading.antt =====
-- lib/format_pcapfile.c: the packets that a reader gets of records that were written.
use odp_libtrace.Prelude.{
  ℕ, zero, suc, ◌+◌, ◌*◌, ◌/◌, ◌%◌, ◌^◌, ◌≤◌, ◌<◌, ◌≡◌, ◌≢◌, refl, arith, ◌==◌, ltb, if◌then◌else◌,
  List, [], ◌∷◌, ◌++◌, Option, none, some, length, take, get_or, max,
}
use mathlib.Core.Path.{subst}
use odp_libtrace.LinkTypes.{
  LinkType, libtrace_to_pcap_linktype, libtrace_to_pcap_dlt, pcap_dlt_to_pcap_linktype,
  pcap_linktype_to_rt,
}
use odp_libtrace.LinkTypes.RoundTrip.{rt-of_libtrace}
use odp_libtrace.LinkTypes.Dlt
use odp_libtrace.Formats.Bytes.{Wandio, IsWandio}
use odp_libtrace.Formats.Pcapfile.{
  Header, Packet, packet, eof, read_packet, get_timeval, get_capture_length, get_link_type,
  get_wire_length, swapl,
}
use odp_libtrace.Formats.Pcapfile.Writing.{View, packet_header, caplen_of, wirelen_of}
use odp_libtrace.Formats.Pcapfile.Records.{header_for, packet_of, read_packet-packet_of}

-- A packet whose link type pcap has, with its captured bytes in memory.
pub record IsWritable (v : View) : Type 0 where
  pub sec : v.tv_sec < 2 ^ 32
  pub usec : v.tv_usec < 2 ^ 32
  pub small : v.capture_length < 65536
  pub wire : v.wire_length < 2 ^ 32
  pub held : v.capture_length ≤ length v.buffer
  pub dlt : libtrace_to_pcap_linktype v.linktype ≢ Dlt.error

abbrev pub AllWritable : LinkType → List View → Type 0
AllWritable t [] = Unit {0}
AllWritable t (v ∷ vs) = IsWritable v × (v.linktype ≡ t) × AllWritable t vs

-- The wire length that is read: a format that pcap strips of its frame check sequence has it counted
-- again. `wireless_flags` are those that the reader finds. It is `none` where what is read is not
-- enough to tell: there are no flags, or fewer captured bytes than a Linux cooked header.
unfoldable pub wire_read : Option ℕ → View → Option ℕ
wire_read wireless_flags v =
    let more = (v.wire_length + 4) % 2 ^ 32 in
    elim v.linktype [
      | LinkType.eth ↦ some (max 4 v.wire_length)
      | LinkType.wifi_radio ↦ (elim wireless_flags [
        | none ↦ none
        | some flags ↦ some (if flags / 2 ^ 4 % 2 == 0 then more else v.wire_length)
      ])
      | LinkType.linux_sll ↦
          let bs = take (caplen_of v) v.buffer in
          if ltb (length bs) 16
          then none
          else some
              (if get_or bs 14 0 * 256 + get_or bs 15 0 == 0x0060 then more else v.wire_length)
      | _ ↦ some v.wire_length
    ]

-- The packet that is read of one that was written.
pub record ReadsBack (wireless_flags : Option ℕ) (h : Header) (v : View) (p : Packet) : Type 0 where
  pub time : get_timeval h p ≡ record { sec = v.tv_sec; fraction = v.tv_usec }
  pub capture : get_capture_length h p ≡ caplen_of v
  pub bytes : p.payload ≡ (if caplen_of v == 0 then none else some (take (caplen_of v) v.buffer))
  pub linktype : get_link_type p ≡ some v.linktype
  pub wire : get_wire_length h wireless_flags p ≡ wire_read wireless_flags v

-- `flags` says which wireless flags are found in the captured bytes of a packet.
abbrev pub AllReadBack :
    (flags : Option (List ℕ) → Option ℕ) → Header → List View → List Packet → Type 0
AllReadBack flags h [] [] = Unit {0}
AllReadBack flags h (v ∷ vs) (p ∷ ps) =
    ReadsBack (flags p.payload) h v p × AllReadBack flags h vs ps
AllReadBack flags h _ _ = ⊥

get_link_type-packet_of : (v : View) → IsWritable v → get_link_type (packet_of v) ≡ some v.linktype
unfolding get_link_type packet_of
get_link_type-packet_of v ok =
    let back = rt-of_libtrace v.linktype ok.dlt in rw (get_link_type, back.0, back.1)

module _ (a b c n : ℕ) (bs : List ℕ) (h : n < 2 ^ 32) where
  abbrev view : LinkType → View
  view t = record {
    linktype = t;
    tv_sec = a;
    tv_usec = b;
    capture_length = c;
    wire_length = n;
    buffer = bs;
  }

  get_wire_length-packet_of :
      (flags : Option ℕ) (t : LinkType)
      → get_wire_length (header_for t) flags (packet_of (view t)) ≡ wire_read flags (view t)
  unfolding get_wire_length packet_of wire_read wirelen_of swapl libtrace_to_pcap_linktype
      libtrace_to_pcap_dlt pcap_dlt_to_pcap_linktype pcap_linktype_to_rt
  get_wire_length-packet_of flags LinkType.eth = ground arith
  get_wire_length-packet_of flags LinkType.wifi_radio = ground arith
  get_wire_length-packet_of flags LinkType.linux_sll = ground arith
  get_wire_length-packet_of flags _ = ground arith

  wirelen_of_lt : (t : LinkType) → wirelen_of (view t) < 2 ^ 32
  unfolding wirelen_of
  wirelen_of_lt t = ground arith

pub caplen_le : (v : View) → v.capture_length < 65536 → caplen_of v ≤ v.capture_length
unfolding caplen_of
caplen_le v h = ground arith

pub lengths-Bounded :
    (v : View)
    → IsWritable v
    → (caplen_of v < 65536) × (wirelen_of v < 2 ^ 32) × (caplen_of v ≤ length v.buffer)
lengths-Bounded v ok =
    let le = caplen_le v ok.small in
    (
      omega (arith, ok.small),
      wirelen_of_lt v.tv_sec v.tv_usec v.capture_length v.wire_length v.buffer ok.wire v.linktype,
      omega (arith, ok.held),
    )

abbrev pub records : List View → List ℕ
records [] = []
records (v ∷ vs) = packet_header v ++ (take (caplen_of v) v.buffer ++ records vs)

module _ {In Out : Type 0} (io : Wandio In Out) where
  -- A client that reads a file to its end: the header and the packets, `none` on an error.
  unfoldable pub read_rest : ℕ → Header → In → Option (List Packet)
  read_rest zero h f = none
  read_rest (suc fuel) h f =
      let one = read_packet io h f in
      elim one.0 [
        | packet p n ↦ elim (read_rest fuel h one.1) [ none ↦ none | some ps ↦ some (p ∷ ps) ]
        | eof ↦ some []
        | _ ↦ none
      ]

module _ {In Out : Type 0} {io : Wandio In Out} (w : IsWandio io) where
  read_packet-eof :
      (h : Header) (f : In) → w.left f ≡ [] → (g : In) × (read_packet io h f ≡ (eof, g))
  unfolding read_packet
  read_packet-eof h f e = ((io.read f 16).1, rw (read_packet, w.read_bytes f 16, e))

  packet_of-ReadsBack :
      (flags : Option ℕ) (v : View)
      → IsWritable v
      → ReadsBack flags (header_for v.linktype) v (packet_of v)
  unfolding get_timeval get_capture_length packet_of swapl
  packet_of-ReadsBack flags v ok = record {
    time = refl;
    capture = refl;
    bytes = refl;
    linktype = get_link_type-packet_of v ok;
    wire =
        get_wire_length-packet_of v.tv_sec v.tv_usec v.capture_length v.wire_length v.buffer ok.wire
          flags v.linktype;
  }

  pub read_rest-AllReadBack :
      (flags : Option (List ℕ) → Option ℕ) (fuel : ℕ) (t : LinkType) (vs : List View) (f : In)
      → AllWritable t vs
      → length vs < fuel
      → w.left f ≡ records vs
      → (ps : List Packet) × (read_rest io fuel (header_for t) f ≡ some ps)
        × AllReadBack flags (header_for t) vs ps
  unfolding read_rest
  read_rest-AllReadBack flags zero t vs f ok h e = absurd (omega arith)
  read_rest-AllReadBack flags (suc fuel) t [] f ok h e =
      let end = read_packet-eof (header_for t) f e in ([], rw (read_rest, end.1), tt)
  read_rest-AllReadBack flags (suc fuel) t (v ∷ vs) f ok h e =
      let bounds = lengths-Bounded v ok.0 in
      let one = read_packet-packet_of w f v (ok.0).sec (ok.0).usec bounds.0 bounds.1 bounds.2 e in
      let first : read_packet io (header_for t) f
          ≡ (packet (packet_of v) (16 + caplen_of v), one.0) =
        subst
          (λ t. read_packet io (header_for t) f ≡ (packet (packet_of v) (16 + caplen_of v), one.0))
          ok.1 one.1 in
      let rest = read_rest-AllReadBack flags fuel t vs one.0 ok.2 (omega arith) one.2 in
      (
        packet_of v ∷ rest.0,
        rw (read_rest, first, first, rest.1),
        (
          subst (λ t. ReadsBack (flags (packet_of v).payload) (header_for t) v (packet_of v)) ok.1
              (packet_of-ReadsBack (flags (packet_of v).payload) v ok.0),
          rest.2,
        ),
      )
