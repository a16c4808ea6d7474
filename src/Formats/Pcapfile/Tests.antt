-- ===== src/Formats/Pcapfile/Tests.antt =====
-- Files in memory: two Ethernet packets, one with its check sequence captured, and files of the other
-- byte order and of nanoseconds.
use odp_libtrace.Prelude.{
  ℕ, ◌+◌, ◌≡◌, refl, arith, List, [], ◌∷◌, ◌++◌, none, some, length, take, drop, replicate,
  length-replicate, ◌<◌, ◌^◌,
}
use odp_libtrace.LinkTypes.{
  LinkType, libtrace_to_pcap_linktype, libtrace_to_pcap_dlt, pcap_dlt_to_pcap_linktype,
}
use odp_libtrace.Formats.Bytes.{Wandio, IsWandio, u32_at, u16_at, byteswap16, byteswap32}
use odp_libtrace.Formats.Pcapfile.{
  Header, Packet, Read, packet, start_input, read_packet, get_timeval, get_timespec, swapl, swaps,
  read_body, header_of, get_capture_length,
}
use odp_libtrace.Formats.Pcapfile.Writing.{
  View, wrote, discarded, write_all, write_packet, write_record, opened, convert, caplen_of,
  wirelen_of, file_header, packet_header,
}
use odp_libtrace.Formats.Pcapfile.Reading.{IsWritable, AllReadBack, read_rest}
use odp_libtrace.Formats.Pcapfile.RoundTrip.{bytes_of, pcapfile_round_trip}

abbrev memory : Wandio (List ℕ) (List ℕ)
memory = record { read = λ f n. (some (take n f), drop n f); write = λ f bs. (length bs, f ++ bs) }

abbrev memory-IsWandio : IsWandio memory
memory-IsWandio = record {
  left = λ f. f;
  read_bytes = λ f n. refl;
  read_left = λ f n. refl;
  content = λ f. f;
  write_count = λ f bs. refl;
  write_content = λ f bs. refl;
}

abbrev frame : ℕ → ℕ → View
frame captured wire = record {
  linktype = LinkType.eth;
  tv_sec = 1000;
  tv_usec = 5;
  capture_length = captured;
  wire_length = wire;
  buffer = replicate captured 7;
}

abbrev written : List ℕ
written =
    bytes_of memory-IsWandio
      (write_all memory (λ v. none) (some []) 1 (frame 20 64 ∷ frame 18 18 ∷ []) none).1

-- The check sequence that was captured is not written.
lengths : length written ∷ caplen_of (frame 18 18) ∷ [] ≡ 90 ∷ 14 ∷ []
unfolding write_all write_packet convert opened write_record caplen_of wirelen_of
    libtrace_to_pcap_linktype libtrace_to_pcap_dlt pcap_dlt_to_pcap_linktype file_header
    packet_header
lengths = refl

-- Metadata is discarded and opens no file.
no_file :
    write_all memory
      (λ v. none)
      (some [])
      1
      (record (frame 4 4) { linktype = LinkType.nondata } ∷ [])
      none
    ≡ (discarded ∷ [], none)
unfolding write_all write_packet
no_file = refl

-- A big-endian file of nanoseconds.
abbrev big_endian : List ℕ
big_endian =
    0xa1 ∷ 0xb2 ∷ 0x3c ∷ 0x4d ∷ 0 ∷ 2 ∷ 0 ∷ 4 ∷ 0 ∷ 0 ∷ 0 ∷ 0 ∷ 0 ∷ 0 ∷ 0 ∷ 0 ∷ 0 ∷ 1 ∷ 0 ∷ 0 ∷ 0
    ∷ 0 ∷ 0 ∷ 1 ∷ 0 ∷ 0 ∷ 1 ∷ 2 ∷ 0 ∷ 0 ∷ 15 ∷ 160 ∷ 0 ∷ 0 ∷ 0 ∷ 1 ∷ 0 ∷ 0 ∷ 0 ∷ 60 ∷ 9 ∷ []

abbrev times : Read → Header → List ℕ
times (packet p n) h =
    let v = get_timeval h p in
    let s = get_timespec h p in v.sec ∷ v.fraction ∷ s.fraction ∷ get_capture_length h p ∷ n ∷ []
times _ h = []

of_big_endian :
    (elim (start_input memory big_endian).0 [
      | none ↦ []
      | some h ↦ times (read_packet memory h (start_input memory big_endian).1).0 h
    ])
    ≡ 258 ∷ 4 ∷ 4000 ∷ 1 ∷ 17 ∷ []
unfolding start_input read_packet read_body header_of u32_at u16_at swaps swapl byteswap16
    byteswap32 get_timeval get_timespec get_capture_length
of_big_endian = refl

frame-IsWritable :
    (captured wire : ℕ) → captured < 65536 → wire < 2 ^ 32 → IsWritable (frame captured wire)
unfolding libtrace_to_pcap_linktype libtrace_to_pcap_dlt pcap_dlt_to_pcap_linktype
frame-IsWritable captured wire h l = record {
  sec = omega arith;
  usec = omega arith;
  small = h;
  wire = l;
  held = omega (arith, length-replicate {A = ℕ} captured 7);
  dlt = ground arith;
}

pcapfile_round_trip_example :
    ((write_all memory (λ v. none) (some []) 1 (frame 20 64 ∷ frame 18 18 ∷ []) none).0
      ≡ wrote (16 + caplen_of (frame 20 64)) ∷ wrote (16 + caplen_of (frame 18 18)) ∷ [])
    × (h : Header) × (g : List ℕ) × (ps : List Packet) × (start_input memory written ≡ (some h, g))
    × (read_rest memory 3 h g ≡ some ps)
    × AllReadBack (λ payload. some 16) h (frame 20 64 ∷ frame 18 18 ∷ []) ps
pcapfile_round_trip_example =
    pcapfile_round_trip memory-IsWandio (λ v. none) [] 0 (λ payload. some 16) LinkType.eth
      (frame 20 64) (frame 18 18 ∷ []) written refl
      (
        frame-IsWritable 20 64 (omega arith) (omega arith),
        refl,
        (frame-IsWritable 18 18 (omega arith) (omega arith), refl, tt),
      )
      refl
