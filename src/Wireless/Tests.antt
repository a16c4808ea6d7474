-- ===== src/Wireless/Tests.antt =====
-- Radiotap headers in memory.
use odp_libtrace.Prelude.{ℕ, suc, ◌+◌, ◌-◌, ◌≡◌, refl, arith, some, [], ◌∷◌, get_or}
use odp_libtrace.LinkTypes.{LinkType, arphrd_type_to_libtrace}
use odp_libtrace.Protocols.Cursor.{Memory}
use odp_libtrace.Wireless.{get_wireless, get_payload_from_linux_sll, trace_get_wireless_freq}
use odp_libtrace.Wireless.Radiotap.{le32, has, skip_extended, field_from, trace_get_radiotap_field}
use odp_libtrace.Wireless.Radiotap.Field
use odp_libtrace.Wireless.Radiotap.Layout.{
  offset, Unpadded, shapes, radiotap_field-Placed, channel_misplaces,
}

-- From address 100: a cooked header for radiotap (ARPHRD type 803), then a header with flags, rate
-- and channel and a second word of bits.
abbrev cooked : Memory
cooked a =
    get_or
      (0 ∷ 0 ∷ 3 ∷ 35 ∷ 0 ∷ 0 ∷ 0 ∷ 0 ∷ 0 ∷ 0 ∷ 0 ∷ 0 ∷ 0 ∷ 0 ∷ 0 ∷ 0 ∷ 0 ∷ 0 ∷ 18 ∷ 0 ∷ 14 ∷ 0 ∷ 0
        ∷ 128 ∷ 0 ∷ 0 ∷ 0 ∷ 0 ∷ 16 ∷ 2 ∷ 0x6c ∷ 9 ∷ 0 ∷ 0 ∷ [])
      (a - 100) 0

freq : trace_get_wireless_freq 2 2 cooked 100 LinkType.linux_sll ≡ some 2412
unfolding arphrd_type_to_libtrace get_wireless get_payload_from_linux_sll trace_get_radiotap_field
    skip_extended field_from has
freq = refl

-- Flags, rate and channel stand one behind the other.
cooked-Unpadded : Unpadded (le32 cooked 120) Field.channel 0 12 shapes
unfolding has
cooked-Unpadded = (
  λ lt h. ground (arith, h),
  (
    λ lt h. refl,
    (
      λ lt h. refl,
      (
        λ lt h. refl,
        (
          λ lt h. refl,
          (
            λ lt h. refl,
            (
              λ lt h. refl,
              (
                λ lt h. refl,
                (
                  λ lt h. refl,
                  (
                    λ lt h. refl,
                    (λ lt h. refl, (λ lt h. refl, (λ lt h. refl, (λ lt h. refl, tt)))),
                  ),
                ),
              ),
            ),
          ),
        ),
      ),
    ),
  ),
)

radiotap_field-Placed_example : trace_get_radiotap_field 2 cooked 116 Field.channel ≡ some 130
unfolding has
radiotap_field-Placed_example =
    radiotap_field-Placed 2 1 cooked 116 Field.channel (refl, refl) (omega arith) cooked-Unpadded

channel_misplaces_example :
    (at : ℕ) × (offset 1 42 Field.dbm_antsignal ≡ some (suc at))
    × (field_from 42 (200 + 12) Field.dbm_antsignal ≡ some (200 + at))
unfolding has
channel_misplaces_example = channel_misplaces 1 42 200 (λ e. ground (arith, e)) refl refl refl

-- The timer behind a second word of bits is to stand at offset 16, and is looked for at offset 12.
timer_unaligned :
    (offset 1 1 Field.tsft ≡ some 16) × (field_from 1 (200 + 12) Field.tsft ≡ some (200 + 12))
unfolding has field_from
timer_unaligned = (refl, refl)
