-- ===== src/Wireless/Termination.antt =====
-- lib/link_wireless.c: how often the accessors call themselves.
use odp_libtrace.Prelude.{ℕ, suc, ◌≡◌, ◌≢◌, refl, Ptr}
use odp_libtrace.LinkTypes.{LinkType, arphrd_type_to_libtrace}
use odp_libtrace.LinkTypes.RoundTrip.{arphrd-not_cooked}
use odp_libtrace.Protocols.Cursor.{Memory}
use odp_libtrace.Wireless.{get_wireless, get_payload_from_linux_sll}

module _ (masks field : ℕ) (value : Memory → Ptr → ℕ) (m : Memory) where
  one_call :
      (fuel : ℕ) (link : Ptr) (t : LinkType)
      → t ≢ LinkType.linux_sll
      → get_wireless masks field value (suc fuel) m link t
        ≡ get_wireless masks field value 1 m link t
  unfolding get_wireless
  one_call fuel link LinkType.linux_sll h = absurd (h refl)
  one_call fuel link _ h = refl

  -- An accessor calls itself at most once, whatever the packet holds: with more fuel than for two
  -- calls the result is the same.
  pub accessors_terminate :
      (fuel : ℕ) (link : Ptr) (t : LinkType)
      → get_wireless masks field value (suc (suc fuel)) m link t
        ≡ get_wireless masks field value 2 m link t
  unfolding get_wireless
  accessors_terminate fuel link LinkType.linux_sll =
      let behind = get_payload_from_linux_sll m link in
      rw (one_call fuel behind.0 (arphrd_type_to_libtrace behind.1) (arphrd-not_cooked behind.1))
  accessors_terminate fuel link _ = refl
