-- ===== src/LinkTypes.antt =====
-- lib/linktypes.c: conversions between libtrace's link types, pcap DLTs, ERF types, ARPHRD types and
-- RT packet types. Enumerations other than the link types are their 32-bit values.
pub mod Dlt
pub mod RoundTrip
mod Tests
use odp_libtrace.Prelude.{
  ℕ, ◌+◌, ◌-◌, ◌%◌, ◌^◌, Bool, ◌==◌, ◌||◌, ◌&&◌, leb, ltb, if◌then◌else◌, Option, none, some,
}

-- `libtrace_linktype_t`; `unknown` is -1, which the code also writes `~0U`.
pub data LinkType : Type 0 where
  unknown hdlc_pos eth atm wifi raw_ip linux_sll pflog pos : LinkType
  wifi_prism aal5 duck wifi_radio llcsnap ppp metadata nondata openbsd_loop : LinkType

-- `~0U` where an ARPHRD type is expected
abbrev pub no_arphrd : ℕ
no_arphrd = 2 ^ 32 - 1

-- `TRACE_DLT_NULL`, `TRACE_DLT_ERROR` and values that no case names are unknown.
pub pcap_linktype_to_libtrace : ℕ → LinkType
pcap_linktype_to_libtrace d =
    if d == Dlt.raw || d == Dlt.linktype_raw
    then LinkType.raw_ip
    else if d == Dlt.en10mb
    then LinkType.eth
    else if d == Dlt.ieee802_11
    then LinkType.wifi
    else if d == Dlt.linux_sll
    then LinkType.linux_sll
    else if d == Dlt.pflog
    then LinkType.pflog
    else if d == Dlt.ieee802_11_radio
    then LinkType.wifi_radio
    else if d == Dlt.atm_rfc1483
    then LinkType.llcsnap
    else if d == Dlt.ppp
    then LinkType.ppp
    else if d == Dlt.ppp_serial
    then LinkType.pos
    else if d == Dlt.c_hdlc
    then LinkType.hdlc_pos
    else if d == Dlt.openbsd_loop
    then LinkType.openbsd_loop
    else LinkType.unknown

unfoldable pub libtrace_to_pcap_dlt : LinkType → ℕ
libtrace_to_pcap_dlt LinkType.raw_ip = Dlt.raw
libtrace_to_pcap_dlt LinkType.eth = Dlt.en10mb
libtrace_to_pcap_dlt LinkType.wifi = Dlt.ieee802_11
libtrace_to_pcap_dlt LinkType.linux_sll = Dlt.linux_sll
libtrace_to_pcap_dlt LinkType.pflog = Dlt.pflog
libtrace_to_pcap_dlt LinkType.wifi_radio = Dlt.ieee802_11_radio
libtrace_to_pcap_dlt LinkType.llcsnap = Dlt.atm_rfc1483
libtrace_to_pcap_dlt LinkType.ppp = Dlt.ppp
libtrace_to_pcap_dlt LinkType.hdlc_pos = Dlt.c_hdlc
libtrace_to_pcap_dlt LinkType.pos = Dlt.ppp_serial
libtrace_to_pcap_dlt LinkType.openbsd_loop = Dlt.openbsd_loop
libtrace_to_pcap_dlt LinkType.atm = Dlt.error
libtrace_to_pcap_dlt LinkType.duck = Dlt.error
libtrace_to_pcap_dlt LinkType.wifi_prism = Dlt.error
libtrace_to_pcap_dlt LinkType.aal5 = Dlt.error
libtrace_to_pcap_dlt LinkType.metadata = Dlt.error
libtrace_to_pcap_dlt LinkType.nondata = Dlt.error
libtrace_to_pcap_dlt LinkType.unknown = Dlt.error

unfoldable pub pcap_dlt_to_pcap_linktype : ℕ → ℕ
pcap_dlt_to_pcap_linktype d = if d == Dlt.raw then Dlt.linktype_raw else d

unfoldable pub libtrace_to_pcap_linktype : LinkType → ℕ
libtrace_to_pcap_linktype t = pcap_dlt_to_pcap_linktype (libtrace_to_pcap_dlt t)

-- `TRACE_RT_DATA_DLT` is 2000, `TRACE_RT_DATA_BPF` 3000.
unfoldable pub pcap_linktype_to_rt : ℕ → ℕ
pcap_linktype_to_rt d = (pcap_dlt_to_pcap_linktype d + 2000) % 2 ^ 32

pub bpf_linktype_to_rt : ℕ → ℕ
bpf_linktype_to_rt d = (pcap_dlt_to_pcap_linktype d + 3000) % 2 ^ 32

-- `none` is a failed assertion.
pub rt_to_pcap_linktype : ℕ → Option ℕ
rt_to_pcap_linktype rt =
    if leb 2000 rt && ltb rt 2999
    then some (rt - 2000)
    else if leb 3000 rt && ltb rt 3999
    then some (rt - 3000)
    else if leb 2000 rt && ltb rt 3999
    then some 0
    else none

pub erf_type_to_libtrace : ℕ → LinkType
erf_type_to_libtrace erf =
    if erf == 1
    then LinkType.hdlc_pos
    else if erf == 2
    then LinkType.eth
    else if erf == 3
    then LinkType.atm
    else if erf == 4
    then LinkType.aal5
    else if erf == 16
    then LinkType.eth
    else if erf == 22
    then LinkType.raw_ip
    else if erf == 23
    then LinkType.raw_ip
    else LinkType.unknown

pub libtrace_to_erf_type : LinkType → ℕ
libtrace_to_erf_type LinkType.hdlc_pos = 1
libtrace_to_erf_type LinkType.eth = 2
libtrace_to_erf_type LinkType.atm = 3
libtrace_to_erf_type LinkType.aal5 = 4
libtrace_to_erf_type LinkType.raw_ip = 22
libtrace_to_erf_type _ = 255

unfoldable pub arphrd_type_to_libtrace : ℕ → LinkType
arphrd_type_to_libtrace a =
    if a == 1
    then LinkType.eth
    else if a == 2
    then LinkType.eth
    else if a == 801
    then LinkType.wifi
    else if a == 803
    then LinkType.wifi_radio
    else if a == 512
    then LinkType.raw_ip
    else if a == 772
    then LinkType.eth
    else if a == 0xfffe
    then LinkType.raw_ip
    else LinkType.unknown

pub libtrace_to_arphrd_type : LinkType → ℕ
libtrace_to_arphrd_type LinkType.eth = 1
libtrace_to_arphrd_type LinkType.wifi = 801
libtrace_to_arphrd_type LinkType.wifi_radio = 803
libtrace_to_arphrd_type _ = no_arphrd
