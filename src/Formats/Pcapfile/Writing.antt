-- ===== src/Formats/Pcapfile/Writing.antt =====
-- lib/format_pcapfile.c: writing packets. The packet may come from any format; what is asked of it is
-- a `View`.
use odp_libtrace.Prelude.{
  ℕ, zero, suc, ◌+◌, ◌-◌, ◌%◌, ◌^◌, Bool, true, false, not, ◌==◌, ltb, leb, if◌then◌else◌, List, [],
  ◌∷◌, ◌++◌, Option, none, some, take,
}
use odp_libtrace.LinkTypes.{LinkType, libtrace_to_pcap_linktype}
use odp_libtrace.LinkTypes.Dlt
use odp_libtrace.Formats.Bytes.{u16, u32, Wandio}
use odp_libtrace.Formats.Pcapfile.{magic1, bufsize}

-- What `trace_get_timeval`, `trace_get_packet_buffer`, `trace_get_capture_length` and
-- `trace_get_wire_length` give.
pub record View : Type 0 where
  pub linktype : LinkType
  pub tv_sec : ℕ
  pub tv_usec : ℕ
  pub capture_length : ℕ
  pub wire_length : ℕ
  pub buffer : List ℕ

pub data Write : Type 0 where
  wrote : ℕ → Write
  discarded : Write
  failure : Write
  asserts : Write

abbrev pub discards : LinkType → Bool
discards LinkType.nondata = true
discards LinkType.unknown = true
discards _ = false

-- A pcap file does not count the frame check sequence.
unfoldable pub wirelen_of : View → ℕ
wirelen_of v = elim v.linktype [
  | LinkType.eth ↦ (if leb 4 v.wire_length then (v.wire_length - 4) % 2 ^ 32 else 0)
  | _ ↦ v.wire_length % 2 ^ 32
]

unfoldable pub caplen_of : View → ℕ
caplen_of v =
    let caplen = v.capture_length % 2 ^ 32 in
    if ltb (wirelen_of v) caplen then wirelen_of v else caplen

-- The header of a file, and that of a packet.
unfoldable pub file_header : LinkType → List ℕ
file_header t =
    u32 magic1 ++ u16 2 ++ u16 4 ++ u32 0 ++ u32 0 ++ u32 65536 ++ u32 (libtrace_to_pcap_linktype t)

unfoldable pub packet_header : View → List ℕ
packet_header v = u32 v.tv_sec ++ u32 v.tv_usec ++ u32 (caplen_of v) ++ u32 (wirelen_of v)

-- `demote_packet` takes the top header off, `none` where it cannot. `create` is what
-- `trace_open_file_out` gives.
module _ {In Out : Type 0} (io : Wandio In Out) (demote : View → Option View)
    (create : Option Out) where
  -- The loop that takes headers off, on fuel; `none` is the failed assertion.
  unfoldable pub convert : ℕ → View → Option View
  convert zero v = none
  convert (suc fuel) v =
      if libtrace_to_pcap_linktype v.linktype == Dlt.error
      then elim (demote v) [ none ↦ none | some w ↦ convert fuel w ]
      else some v

  -- The file, opened with its header if it is not open yet. The result of that write is not looked at.
  unfoldable pub opened : LinkType → Option Out → Option Out
  opened t (some g) = some g
  opened t none = elim create [ none ↦ none | some g ↦ some (io.write g (file_header t)).1 ]

  unfoldable pub write_record : View → Out → Write × Option Out
  write_record v g =
      let header = io.write g (packet_header v) in
      let body = io.write header.1 (take (caplen_of v) v.buffer) in
      if leb bufsize (v.capture_length % 2 ^ 32)
      then (asserts, some g)
      else if not (header.0 == 16)
      then (failure, some header.1)
      else if not (body.0 == caplen_of v)
      then (failure, some body.1)
      else (wrote (16 + caplen_of v), some body.1)

  -- `pcapfile_write_packet`. The time is that of the packet before any header is taken off.
  unfoldable pub write_packet : ℕ → View → Option Out → Write × Option Out
  write_packet fuel v file =
      if discards v.linktype then (discarded, file) else elim (convert fuel v) [
        | none ↦ (asserts, file)
        | some w ↦ elim (opened w.linktype file) [
          | none ↦ (failure, none)
          | some g ↦ write_record (record w { tv_sec = v.tv_sec; tv_usec = v.tv_usec }) g
        ]
      ]

  -- The results of writing packets one after another, and the file.
  unfoldable pub write_all : ℕ → List View → Option Out → List Write × Option Out
  write_all fuel [] file = ([], file)
  write_all fuel (v ∷ vs) file =
      let one = write_packet fuel v file in
      let rest = write_all fuel vs one.1 in (one.0 ∷ rest.0, rest.1)
