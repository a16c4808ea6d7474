-- ===== src/Wireless.antt =====
-- lib/link_wireless.c: the measurements that a wireless card leaves in front of a frame, in a radiotap
-- header or behind a Linux cooked header (lib/protocols_pktmeta.c).
pub mod Radiotap
pub mod Termination
mod Tests
use odp_libtrace.Prelude.{
  ℕ, zero, suc, ◌+◌, ◌*◌, ◌^◌, Ptr, null, ◌==◌, if◌then◌else◌, Option, none, some,
}
use odp_libtrace.LinkTypes.{LinkType, arphrd_type_to_libtrace}
use odp_libtrace.Protocols.Cursor.{Memory, be16}
use odp_libtrace.Wireless.Radiotap.Field
use odp_libtrace.Wireless.Radiotap.{le16, le32, trace_get_radiotap_field}

abbrev pub le64 : Memory → Ptr → ℕ
le64 m p = le32 m p + le32 m (p + 4) * 2 ^ 32

-- `trace_get_payload_from_linux_sll` where neither `next` nor `remaining` is asked for: the payload,
-- and the ARPHRD type.
unfoldable pub get_payload_from_linux_sll : Memory → Ptr → Ptr × ℕ
get_payload_from_linux_sll m link = (link + 16, be16 m (link + 2))

abbrev pub byte : Memory → Ptr → ℕ
byte m p = m p

-- The accessors, for bitmasks of a number of words at most.
module _ (masks : ℕ) where
  -- What they share: the field of a radiotap header, looked for behind a cooked header too. What is
  -- behind a cooked header is looked at in the same way, on fuel.
  unfoldable pub get_wireless :
      (field : ℕ) (value : Memory → Ptr → ℕ) → ℕ → Memory → Ptr → LinkType → Option ℕ
  get_wireless field value zero m link t = none
  get_wireless field value (suc fuel) m link t = if link == null then none else elim t [
    | LinkType.wifi_radio ↦ elim (trace_get_radiotap_field masks m link field) [
      | none ↦ none
      | some p ↦ some (value m p)
    ]
    | LinkType.linux_sll ↦
        let behind = get_payload_from_linux_sll m link in
        get_wireless field value fuel m behind.0 (arphrd_type_to_libtrace behind.1)
    | _ ↦ none
  ]

  abbrev pub trace_get_wireless_tsft : ℕ → Memory → Ptr → LinkType → Option ℕ
  trace_get_wireless_tsft = get_wireless Field.tsft le64

  abbrev pub trace_get_wireless_flags : ℕ → Memory → Ptr → LinkType → Option ℕ
  trace_get_wireless_flags = get_wireless Field.flags byte

  abbrev pub trace_get_wireless_rate : ℕ → Memory → Ptr → LinkType → Option ℕ
  trace_get_wireless_rate = get_wireless Field.rate byte

  abbrev pub trace_get_wireless_freq : ℕ → Memory → Ptr → LinkType → Option ℕ
  trace_get_wireless_freq = get_wireless Field.channel le16

  abbrev pub trace_get_wireless_signal_strength_dbm : ℕ → Memory → Ptr → LinkType → Option ℕ
  trace_get_wireless_signal_strength_dbm = get_wireless Field.dbm_antsignal byte

  abbrev pub trace_get_wireless_noise_strength_dbm : ℕ → Memory → Ptr → LinkType → Option ℕ
  trace_get_wireless_noise_strength_dbm = get_wireless Field.dbm_antnoise byte

  abbrev pub trace_get_wireless_signal_strength_db : ℕ → Memory → Ptr → LinkType → Option ℕ
  trace_get_wireless_signal_strength_db = get_wireless Field.db_antsignal byte

  abbrev pub trace_get_wireless_noise_strength_db : ℕ → Memory → Ptr → LinkType → Option ℕ
  trace_get_wireless_noise_strength_db = get_wireless Field.db_antnoise byte

  abbrev pub trace_get_wireless_tx_attenuation : ℕ → Memory → Ptr → LinkType → Option ℕ
  trace_get_wireless_tx_attenuation = get_wireless Field.tx_attenuation le16

  abbrev pub trace_get_wireless_tx_attenuation_db : ℕ → Memory → Ptr → LinkType → Option ℕ
  trace_get_wireless_tx_attenuation_db = get_wireless Field.db_tx_attenuation le16

  abbrev pub trace_get_wireless_tx_power_dbm : ℕ → Memory → Ptr → LinkType → Option ℕ
  trace_get_wireless_tx_power_dbm = get_wireless Field.dbm_tx_power byte

  abbrev pub trace_get_wireless_antenna : ℕ → Memory → Ptr → LinkType → Option ℕ
  trace_get_wireless_antenna = get_wireless Field.antenna byte
