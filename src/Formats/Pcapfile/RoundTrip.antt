-- ===== src/Formats/Pcapfile/RoundTrip.antt =====
-- lib/format_pcapfile.c: a file that was written, read again.
use odp_libtrace.Prelude.{
  ℕ, suc, ◌+◌, ◌%◌, ◌^◌, ◌<◌, ◌≡◌, ◌≢◌, refl, ap, sym, ◌∙◌, arith, true, false, ◌==◌, leb, List, [],
  ◌∷◌, ◌++◌, Option, none, some, length, map, take, length-take,
}
use mathlib.Core.List.{append_assoc, append-nil}
use odp_libtrace.LinkTypes.{
  LinkType, libtrace_to_pcap_linktype, libtrace_to_pcap_dlt, pcap_dlt_to_pcap_linktype,
}
use odp_libtrace.LinkTypes.Dlt
use odp_libtrace.Formats.Bytes.{Wandio, IsWandio}
use odp_libtrace.Formats.Pcapfile.{Header, Packet, start_input, bufsize}
use odp_libtrace.Formats.Pcapfile.Writing.{
  View, wrote, file_header, packet_header, caplen_of, write_packet, write_all, write_record, opened,
  convert, discards,
}
use odp_libtrace.Formats.Pcapfile.Reading.{
  IsWritable, AllWritable, AllReadBack, read_rest, read_rest-AllReadBack, caplen_le, records,
}
use odp_libtrace.Formats.Pcapfile.Records.{header_for, length-packet_header, start_input-header_for}

discards_lem : (t : LinkType) → libtrace_to_pcap_linktype t ≢ Dlt.error → discards t ≡ false
unfolding libtrace_to_pcap_linktype libtrace_to_pcap_dlt pcap_dlt_to_pcap_linktype
discards_lem LinkType.nondata h = absurd (h refl)
discards_lem LinkType.unknown h = absurd (h refl)
discards_lem _ h = refl

neq : (n : ℕ) {m : ℕ} → n ≢ m → (n == m) ≡ false
neq n h = ground arith

appends {ℓ} :
    {A : Type ℓ} (ws xs ys zs : List A) → (ws ++ (xs ++ ys)) ++ zs ≡ ws ++ (xs ++ (ys ++ zs))
appends ws xs ys zs = append_assoc ws (xs ++ ys) zs ∙ ap (λ l. ws ++ l) (append_assoc xs ys zs)

small_lem : (n : ℕ) → n < 65536 → leb bufsize (n % 2 ^ 32) ≡ false
small_lem n h = ground arith

module _ {In Out : Type 0} {io : Wandio In Out} (w : IsWandio io) where
  -- The bytes that were written.
  abbrev pub bytes_of : Option Out → List ℕ
  bytes_of none = []
  bytes_of (some g) = w.content g

  write_record-Appends :
      (demote : View → Option View) (create : Option Out) (v : View) (g : Out)
      → IsWritable v
      → (g' : Out) × (write_record io demote create v g ≡ (wrote (16 + caplen_of v), some g'))
        × (w.content g' ≡ w.content g ++ (packet_header v ++ take (caplen_of v) v.buffer))
  unfolding write_record
  write_record-Appends demote create v g ok =
      let size : length (take (caplen_of v) v.buffer) ≡ caplen_of v =
        omega (arith, length-take (caplen_of v) v.buffer, caplen_le v ok.small, ok.held) in
      let small : leb bufsize (v.capture_length % 2 ^ 32) ≡ false =
        small_lem v.capture_length ok.small in
      let same : (caplen_of v == caplen_of v) ≡ true = ground arith in
      let header = io.write g (packet_header v) in
      (
        (io.write header.1 (take (caplen_of v) v.buffer)).1,
        rw (
          small,
          w.write_count g (packet_header v),
          length-packet_header v,
          w.write_count header.1 (take (caplen_of v) v.buffer),
          size,
          same,
        ),
        rw
            (
              w.write_content header.1 (take (caplen_of v) v.buffer),
              w.write_content g (packet_header v),
            )
            (append_assoc (w.content g) (packet_header v) (take (caplen_of v) v.buffer)),
      )

  -- What `write_packet` does with a packet that pcap has a link type for.
  write_packet-Appends :
      (demote : View → Option View) (create : Option Out) (fuel : ℕ) (v : View) (file : Option Out)
      (g : Out)
      → IsWritable v
      → opened io demote create v.linktype file ≡ some g
      → (g' : Out) × (write_packet io demote create (suc fuel) v file
          ≡ (wrote (16 + caplen_of v), some g'))
        × (w.content g' ≡ w.content g ++ (packet_header v ++ take (caplen_of v) v.buffer))
  unfolding write_packet convert
  write_packet-Appends demote create fuel v file g ok e =
      let one = write_record-Appends demote create v g ok in
      let kept : discards v.linktype ≡ false = discards_lem v.linktype ok.dlt in
      let has : (libtrace_to_pcap_linktype v.linktype == Dlt.error) ≡ false = neq _ ok.dlt in
      (one.0, rw (write_packet, kept, has, e) one.1, one.2)

  opened_lem :
      (demote : View → Option View) (create : Option Out) (t : LinkType) (g : Out)
      → opened io demote create t (some g) ≡ some g
  unfolding opened
  opened_lem demote create t g = refl

  write_all-records :
      (demote : View → Option View) (create : Option Out) (fuel : ℕ) (t : LinkType) (vs : List View)
      (g : Out)
      → AllWritable t vs
      → let all = write_all io demote create (suc fuel) vs (some g) in
        (all.0 ≡ map (λ v. wrote (16 + caplen_of v)) vs)
        × (bytes_of all.1 ≡ w.content g ++ records vs)
  unfolding write_all
  write_all-records demote create fuel t [] g ok = (refl, sym (append-nil (w.content g)))
  write_all-records demote create fuel t (v ∷ vs) g ok =
      let one =
        write_packet-Appends demote create fuel v (some g) g ok.0
          (opened_lem demote create v.linktype g) in
      let rest = write_all-records demote create fuel t vs one.0 ok.2 in
      (
        rw (write_all, one.1, rest.0),
        rw (write_all, one.1, rest.1, one.2) (appends (w.content g) (packet_header v) _ _),
      )

  write_new-records :
      (demote : View → Option View) (blank : Out) (fuel : ℕ) (t : LinkType) (v : View)
      (vs : List View)
      → w.content blank ≡ []
      → AllWritable t (v ∷ vs)
      → let all = write_all io demote (some blank) (suc fuel) (v ∷ vs) none in
        (all.0 ≡ map (λ v. wrote (16 + caplen_of v)) (v ∷ vs))
        × (bytes_of all.1 ≡ file_header t ++ records (v ∷ vs))
  unfolding write_all opened
  write_new-records demote blank fuel t v vs new ok =
      let g = (io.write blank (file_header v.linktype)).1 in
      let one = write_packet-Appends demote (some blank) fuel v none g ok.0 refl in
      let rest = write_all-records demote (some blank) fuel t vs one.0 ok.2 in
      (
        rw (write_all, one.1, rest.0),
        rw (write_all, one.1, rest.1, one.2, w.write_content blank (file_header v.linktype), new)
              (appends (file_header v.linktype) (packet_header v) _ _)
            ∙ ap (λ t. file_header t ++ records (v ∷ vs)) ok.1,
      )

  -- Packets of one link type, one that pcap files have, are written to a new file one after another,
  -- each with its captured bytes in memory, fewer than 65536, and its times and wire length 32-bit
  -- words. Then every write reports the bytes of its record. A reader of that file accepts its header
  -- and gets all the packets, in order, and then the end; each has the time, the link type, the
  -- capture length and the captured bytes that were written, the capture length cut to the wire length that
  -- is written, and the wire length that `wire_read` says, of which `flags` finds the wireless flags in
  -- the captured bytes.
  pub pcapfile_round_trip :
      (demote : View → Option View) (blank : Out) (fuel : ℕ) (flags : Option (List ℕ) → Option ℕ)
      (t : LinkType) (v : View) (vs : List View) (f : In)
      → w.content blank ≡ []
      → AllWritable t (v ∷ vs)
      → w.left f ≡ bytes_of (write_all io demote (some blank) (suc fuel) (v ∷ vs) none).1
      → ((write_all io demote (some blank) (suc fuel) (v ∷ vs) none).0
          ≡ map (λ v. wrote (16 + caplen_of v)) (v ∷ vs))
        × (h : Header) × (g : In) × (ps : List Packet) × (start_input io f ≡ (some h, g))
        × (read_rest io (2 + length vs) h g ≡ some ps)
        × AllReadBack flags h (v ∷ vs) ps
  pcapfile_round_trip demote blank fuel flags t v vs f new ok e =
      let all = write_new-records demote blank fuel t v vs new ok in
      let head = start_input-header_for w f t (e ∙ all.1) in
      let back =
        read_rest-AllReadBack w flags (2 + length vs) t (v ∷ vs) head.0 ok (omega arith) head.2 in
      (all.0, header_for t, head.0, back.0, head.1, back.1, back.2)
