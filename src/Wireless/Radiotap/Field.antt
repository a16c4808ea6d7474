-- ===== src/Wireless/Radiotap/Field.antt =====
-- `libtrace_radiotap_field_t` of lib/libtrace.h.in, the fields that are looked for.
use odp_libtrace.Prelude.{ℕ}

abbrev pub tsft : ℕ
tsft = 0

abbrev pub flags : ℕ
flags = 1

abbrev pub rate : ℕ
rate = 2

abbrev pub channel : ℕ
channel = 3

abbrev pub fhss : ℕ
fhss = 4

abbrev pub dbm_antsignal : ℕ
dbm_antsignal = 5

abbrev pub dbm_antnoise : ℕ
dbm_antnoise = 6

abbrev pub lock_quality : ℕ
lock_quality = 7

abbrev pub tx_attenuation : ℕ
tx_attenuation = 8

abbrev pub db_tx_attenuation : ℕ
db_tx_attenuation = 9

abbrev pub dbm_tx_power : ℕ
dbm_tx_power = 10

abbrev pub antenna : ℕ
antenna = 11

abbrev pub db_antsignal : ℕ
db_antsignal = 12

abbrev pub db_antnoise : ℕ
db_antnoise = 13
