-- ===== src/Wireless/Radiotap.antt =====
-- lib/link_wireless.c, trace_get_radiotap_field: where a field of a radiotap header stands.
pub mod Field
pub mod Layout
use odp_libtrace.Prelude.{
  ℕ, zero, suc, ◌+◌, ◌-◌, ◌*◌, ◌/◌, ◌%◌, ◌^◌, Ptr, Bool, ◌==◌, if◌then◌else◌, Option, none, some,
}
use odp_libtrace.Protocols.Cursor.{Memory}

abbrev pub le16 : Memory → Ptr → ℕ
le16 m p = m p + m (p + 1) * 2 ^ 8

abbrev pub le32 : Memory → Ptr → ℕ
le32 m p = le16 m p + le16 m (p + 2) * 2 ^ 16

-- The test of a bit of `it_present`.
unfoldable pub has : ℕ → ℕ → Bool
has present field = present / 2 ^ field % 2 == 1

-- `ALIGN_NATURAL_16(p, s)`
abbrev pub align_natural_16 : Ptr → Ptr → Ptr
align_natural_16 p s = if (p - s) % 2 == 0 then p else p + 1

-- "Skip over any extended bitmasks", on fuel: the first word without the bit for one more.
unfoldable pub skip_extended : ℕ → Memory → Ptr → Option Ptr
skip_extended zero m p = none
skip_extended (suc fuel) m p =
    let rest = skip_extended fuel m (p + 4) in if has (le32 m p) 31 then rest else some p

-- `p` moved behind a field that is there.
abbrev pub pass : ℕ → ℕ → ℕ → Ptr → Ptr
pass present field size p = if has present field then p + size else p

-- The part of the function behind `s = p`, with the bitmask `it_present`.
unfoldable pub field_from : ℕ → Ptr → ℕ → Option Ptr
field_from present s field =
    if field == Field.tsft
    then some s
    else let p0 = pass present Field.tsft 8 s in
      if field == Field.flags
      then some p0
      else let p1 = pass present Field.flags 1 p0 in
        if field == Field.rate
        then some p1
        else let p2 = pass present Field.rate 1 p1 in
          if field == Field.channel
          then some (align_natural_16 p2 s)
          else let p3 = pass present Field.channel 4 p2 in
            if field == Field.fhss
            then some (align_natural_16 p3 s)
            else let p4 = pass present Field.fhss 2 p3 in
              if field == Field.dbm_antsignal
              then some p4
              else let p5 = pass present Field.dbm_antsignal 1 p4 in
                if field == Field.dbm_antnoise
                then some p5
                else let p6 = pass present Field.dbm_antnoise 1 p5 in
                  if field == Field.lock_quality
                  then some (align_natural_16 p6 s)
                  else let p7 = pass present Field.lock_quality 2 p6 in
                    if field == Field.tx_attenuation
                    then some (align_natural_16 p7 s)
                    else let p8 = pass present Field.tx_attenuation 2 p7 in
                      if field == Field.db_tx_attenuation
                      then some (align_natural_16 p8 s)
                      else let p9 = pass present Field.db_tx_attenuation 2 p8 in
                        if field == Field.dbm_tx_power
                        then some p9
                        else let p10 = pass present Field.dbm_tx_power 1 p9 in
                          if field == Field.antenna
                          then some p10
                          else let p11 = pass present Field.antenna 1 p10 in
                            if field == Field.db_antsignal
                            then some p11
                            else let p12 = pass present Field.db_antsignal 1 p11 in
                              if field == Field.db_antnoise then some p12 else none

-- `it_present` is the word at offset 4 of the header.
unfoldable pub trace_get_radiotap_field : ℕ → Memory → (link : Ptr) → (field : ℕ) → Option Ptr
trace_get_radiotap_field fuel m link field =
    let present = le32 m (link + 4) in
    if has present field
    then elim (skip_extended fuel m (link + 4)) [
      | none ↦ none
      | some p ↦ field_from present (p + 4) field
    ]
    else none
