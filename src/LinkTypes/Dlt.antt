-- ===== src/LinkTypes/Dlt.antt =====
-- `libtrace_dlt_t` of lib/libtrace.h.in, with the values of platforms other than OpenBSD.
use odp_libtrace.Prelude.{ℕ, ◌-◌, ◌^◌}

abbrev pub error : ℕ
error = 2 ^ 32 - 1

abbrev pub en10mb : ℕ
en10mb = 1

abbrev pub ppp : ℕ
ppp = 9

abbrev pub atm_rfc1483 : ℕ
atm_rfc1483 = 11

abbrev pub raw : ℕ
raw = 12

abbrev pub ppp_serial : ℕ
ppp_serial = 50

abbrev pub linktype_raw : ℕ
linktype_raw = 101

abbrev pub c_hdlc : ℕ
c_hdlc = 104

abbrev pub ieee802_11 : ℕ
ieee802_11 = 105

abbrev pub openbsd_loop : ℕ
openbsd_loop = 108

abbrev pub linux_sll : ℕ
linux_sll = 113

abbrev pub pflog : ℕ
pflog = 117

abbrev pub ieee802_11_radio : ℕ
ieee802_11_radio = 127
