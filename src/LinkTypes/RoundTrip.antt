-- ===== src/LinkTypes/RoundTrip.antt =====
-- Which conversions of link types undo one another.
use odp_libtrace.Prelude.{ℕ, ◌^◌, ◌<◌, ◌≡◌, ◌≢◌, refl, arith, ◌==◌, if◌then◌else◌, some}
use odp_libtrace.LinkTypes.{
  LinkType, pcap_linktype_to_libtrace, libtrace_to_pcap_dlt, pcap_dlt_to_pcap_linktype,
  libtrace_to_pcap_linktype, pcap_linktype_to_rt, bpf_linktype_to_rt, rt_to_pcap_linktype,
  erf_type_to_libtrace, libtrace_to_erf_type, arphrd_type_to_libtrace, libtrace_to_arphrd_type,
  no_arphrd,
}
use odp_libtrace.LinkTypes.Dlt

-- A link type that has a DLT is found again from that DLT and from the link type of a pcap file.
pub pcap_round_trip :
    (t : LinkType)
    → libtrace_to_pcap_dlt t ≢ Dlt.error
    → (pcap_linktype_to_libtrace (libtrace_to_pcap_dlt t) ≡ t)
      × (pcap_linktype_to_libtrace (libtrace_to_pcap_linktype t) ≡ t)
unfolding pcap_linktype_to_libtrace libtrace_to_pcap_dlt libtrace_to_pcap_linktype
    pcap_dlt_to_pcap_linktype
pcap_round_trip LinkType.unknown h = absurd (h refl)
pcap_round_trip _ h = ground arith

-- A DLT that libtrace knows is found again, the two values for raw IP as the first of them.
pub dlt_round_trip :
    (d : ℕ)
    → pcap_linktype_to_libtrace d ≢ LinkType.unknown
    → libtrace_to_pcap_dlt (pcap_linktype_to_libtrace d)
      ≡ (if d == Dlt.linktype_raw then Dlt.raw else d)
unfolding pcap_linktype_to_libtrace libtrace_to_pcap_dlt
dlt_round_trip d h = ground arith

-- The RT type of a packet gives back the link type that it was made from, for DLTs below 999, from
-- both ranges of RT types.
pub rt_round_trip :
    (d : ℕ)
    → d < 999
    → (rt_to_pcap_linktype (pcap_linktype_to_rt d) ≡ some (pcap_dlt_to_pcap_linktype d))
      × (rt_to_pcap_linktype (bpf_linktype_to_rt d) ≡ some (pcap_dlt_to_pcap_linktype d))
unfolding rt_to_pcap_linktype pcap_linktype_to_rt bpf_linktype_to_rt pcap_dlt_to_pcap_linktype
rt_round_trip d h = ground arith

-- So a link type that has a DLT survives the way through an RT packet type.
pub linktype-through_rt :
    (t : LinkType) {d : ℕ}
    → libtrace_to_pcap_dlt t ≢ Dlt.error
    → rt_to_pcap_linktype (pcap_linktype_to_rt (libtrace_to_pcap_dlt t)) ≡ some d
    → pcap_linktype_to_libtrace d ≡ t
unfolding pcap_linktype_to_libtrace libtrace_to_pcap_dlt rt_to_pcap_linktype pcap_linktype_to_rt
    pcap_dlt_to_pcap_linktype
linktype-through_rt LinkType.unknown h e = absurd (h refl)
linktype-through_rt _ h e = ground arith

-- A link type that has an ERF type is found again from it.
pub erf_round_trip :
    (t : LinkType)
    → libtrace_to_erf_type t ≢ 255
    → erf_type_to_libtrace (libtrace_to_erf_type t) ≡ t
unfolding erf_type_to_libtrace libtrace_to_erf_type
erf_round_trip LinkType.unknown h = absurd (h refl)
erf_round_trip _ h = ground arith

-- A link type that has an ARPHRD type is found again from it.
pub arphrd_round_trip :
    (t : LinkType)
    → libtrace_to_arphrd_type t ≢ no_arphrd
    → arphrd_type_to_libtrace (libtrace_to_arphrd_type t) ≡ t
unfolding arphrd_type_to_libtrace libtrace_to_arphrd_type
arphrd_round_trip LinkType.unknown h = absurd (h refl)
arphrd_round_trip _ h = ground arith

-- The link types of pcap files are 32-bit words, and come back from an RT packet type.
pub libtrace_to_pcap_linktype_lt : (t : LinkType) → libtrace_to_pcap_linktype t < 2 ^ 32
unfolding libtrace_to_pcap_linktype libtrace_to_pcap_dlt pcap_dlt_to_pcap_linktype
libtrace_to_pcap_linktype_lt _ = ground arith

pub rt-of_libtrace :
    (t : LinkType)
    → libtrace_to_pcap_linktype t ≢ Dlt.error
    → (rt_to_pcap_linktype (pcap_linktype_to_rt (libtrace_to_pcap_linktype t))
        ≡ some (libtrace_to_pcap_linktype t))
      × (pcap_linktype_to_libtrace (libtrace_to_pcap_linktype t) ≡ t)
unfolding libtrace_to_pcap_linktype libtrace_to_pcap_dlt pcap_dlt_to_pcap_linktype
    rt_to_pcap_linktype pcap_linktype_to_rt pcap_linktype_to_libtrace
rt-of_libtrace LinkType.unknown h = absurd (h refl)
rt-of_libtrace _ h = ground arith

pub arphrd-not_cooked : (a : ℕ) → arphrd_type_to_libtrace a ≢ LinkType.linux_sll
unfolding arphrd_type_to_libtrace
arphrd-not_cooked a = ground arith
