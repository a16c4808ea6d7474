-- ===== src/LinkTypes/Tests.antt =====
-- The conversions of link types at concrete values.
use odp_libtrace.Prelude.{◌≡◌, refl, some, none}
use odp_libtrace.LinkTypes.{rt_to_pcap_linktype}

-- The last type of the first RT range is none of its types, and passes the assertion.
rt_range_end :
    (rt_to_pcap_linktype 2999 ≡ some 0)
    × (rt_to_pcap_linktype 3999 ≡ none)
    × (rt_to_pcap_linktype 1999 ≡ none)
unfolding rt_to_pcap_linktype
rt_range_end = (refl, refl, refl)
