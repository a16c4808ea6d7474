-- ===== src/Formats/Pcapfile.antt =====
-- lib/format_pcapfile.c: pcap files, read and written without libpcap.
pub mod Writing
pub mod Records
pub mod Reading
pub mod RoundTrip
mod Tests
use odp_libtrace.Prelude.{
  ℕ, zero, suc, ◌+◌, ◌*◌, ◌/◌, ◌%◌, ◌^◌, Bool, true, false, not, ◌&&◌, ◌||◌, ◌==◌, ltb, leb,
  if◌then◌else◌, List, [], Option, none, some, length, get_or,
}
use odp_libtrace.LinkTypes.{
  LinkType, pcap_linktype_to_rt, rt_to_pcap_linktype, pcap_linktype_to_libtrace,
}
use odp_libtrace.Formats.Bytes.{byteswap16, byteswap32, u16_at, u32_at, Wandio}

-- `pcapfile_header_t`, the fields that are looked at.
pub record Header : Type 0 where
  pub magic_number : ℕ
  pub version_major : ℕ
  pub version_minor : ℕ
  pub network : ℕ

abbrev pub magic1 : ℕ
magic1 = 0xa1b2c3d4

abbrev pub magic2 : ℕ
magic2 = 0xa1b23c4d

abbrev pub magic1_rev : ℕ
magic1_rev = 0xd4c3b2a1

abbrev pub magic2_rev : ℕ
magic2_rev = 0x4d3cb2a1

abbrev pub header_is_backwards_magic : Header → Bool
header_is_backwards_magic h = h.magic_number == magic1_rev || h.magic_number == magic2_rev

abbrev pub header_is_magic : Header → Bool
header_is_magic h =
    h.magic_number == magic1 || h.magic_number == magic2 || header_is_backwards_magic h

abbrev pub trace_in_nanoseconds : Header → Bool
trace_in_nanoseconds h = h.magic_number == magic2 || h.magic_number == magic2_rev

unfoldable pub swaps : Header → ℕ → ℕ
swaps h num = if header_is_backwards_magic h then byteswap16 num else num

unfoldable pub swapl : Header → ℕ → ℕ
swapl h num = if header_is_backwards_magic h then byteswap32 num else num

-- The 24 bytes at the start of a file.
unfoldable pub header_of : List ℕ → Header
header_of bs = record {
  magic_number = u32_at bs 0;
  version_major = u16_at bs 4;
  version_minor = u16_at bs 6;
  network = u32_at bs 20;
}

-- `libtrace_packet_t`, as this format leaves it: the type, the four words of the header as they stand in
-- the file, and the payload, `none` where `payload` is not set.
pub record Packet : Type 0 where
  pub type : ℕ
  pub ts_sec : ℕ
  pub ts_usec : ℕ
  pub caplen : ℕ
  pub wirelen : ℕ
  pub payload : Option (List ℕ)

-- What a read brings: a packet with the number of bytes read, the end, or an error.
pub data Read : Type 0 where
  packet : Packet → ℕ → Read
  eof : Read
  failure : Read

-- `LIBTRACE_PACKET_BUFSIZE`
abbrev pub bufsize : ℕ
bufsize = 65536

module _ {In Out : Type 0} (io : Wandio In Out) where
  -- `pcapfile_start_input`, the first time, on a file that is open: `none` where it sets an error.
  unfoldable pub start_input : In → Option Header × In
  start_input f =
      let got = io.read f 24 in
      (
        elim got.0 [
          | none ↦ none
          | some bs ↦
              let h = header_of bs in
              if not (length bs == 24) || not (header_is_magic h)
              then none
              else if not (swaps h h.version_major == 2) && not (swaps h h.version_minor == 4)
              then none
              else some h
        ],
        got.1,
      )

  -- The rest of `pcapfile_read_packet`, behind the header of a packet.
  unfoldable pub read_body : Header → List ℕ → In → Read × In
  read_body h bs f =
      let bytes_to_read = swapl h (u32_at bs 8) in
      let p : Packet = record {
        type = pcap_linktype_to_rt (swapl h h.network);
        ts_sec = u32_at bs 0;
        ts_usec = u32_at bs 4;
        caplen = u32_at bs 8;
        wirelen = u32_at bs 12;
        payload = none;
      } in
      let got = io.read f bytes_to_read in
      if leb bufsize bytes_to_read
      then (failure, f)
      else if bytes_to_read == 0
      then (packet p 16, f)
      else elim got.0 [
        | none ↦ (failure, got.1)
        | some body ↦
            if length body == 0
            then (eof, got.1)
            else if ltb (length body) bytes_to_read
            then (failure, got.1)
            else (packet (record p { payload = some body }) (16 + bytes_to_read), got.1)
      ]

  -- `pcapfile_read_packet`
  unfoldable pub read_packet : Header → In → Read × In
  read_packet h f =
      let got = io.read f 16 in
      elim got.0 [
        | none ↦ (failure, got.1)
        | some bs ↦
            if length bs == 0
            then (eof, got.1)
            else if ltb (length bs) 16
            then (failure, got.1)
            else read_body h bs got.1
      ]

-- Seconds and a fraction.
pub record Time : Type 0 where
  pub sec : ℕ
  pub fraction : ℕ

unfoldable pub get_timeval : Header → Packet → Time
get_timeval h p = record {
  sec = swapl h p.ts_sec;
  fraction = if trace_in_nanoseconds h then swapl h p.ts_usec / 1000 else swapl h p.ts_usec;
}

-- The product of 32-bit words wraps.
unfoldable pub get_timespec : Header → Packet → Time
get_timespec h p = record {
  sec = swapl h p.ts_sec;
  fraction =
      if trace_in_nanoseconds h then swapl h p.ts_usec else swapl h p.ts_usec * 1000 % 2 ^ 32;
}

unfoldable pub get_capture_length : Header → Packet → ℕ
get_capture_length h p = swapl h p.caplen

-- `none` is a failed assertion.
unfoldable pub get_link_type : Packet → Option LinkType
get_link_type p = elim (rt_to_pcap_linktype p.type) [
  | none ↦ none
  | some d ↦ some (pcap_linktype_to_libtrace d)
]

-- `wireless_flags` are those that `trace_get_wireless_flags` finds, of which `0x10` says that the frame
-- check sequence is there; `none` where it finds none, and C uses a variable that is not set. The
-- protocol of a Linux cooked header, of 16 bytes, stands at its offset 14; C reads it also where
-- `payload` is not set or shorter. `none` is a result that depends on what was not read from the file.
unfoldable pub get_wire_length : Header → (wireless_flags : Option ℕ) → Packet → Option ℕ
get_wire_length h wireless_flags p =
    let len = swapl h p.wirelen in
    let more = (len + 4) % 2 ^ 32 in
    if p.type == pcap_linktype_to_rt 1
    then some more
    else if p.type == pcap_linktype_to_rt 127
    then (elim wireless_flags [
      | none ↦ none
      | some flags ↦ some (if flags / 2 ^ 4 % 2 == 0 then more else len)
    ])
    else if p.type == pcap_linktype_to_rt 113
    then (elim p.payload [
      | none ↦ none
      | some bs ↦
          if ltb (length bs) 16
          then none
          else some (if get_or bs 14 0 * 256 + get_or bs 15 0 == 0x0060 then more else len)
    ])
    else some len
