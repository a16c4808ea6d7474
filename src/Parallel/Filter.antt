-- ===== src/Parallel/Filter.antt =====
-- lib/trace_parallel.c, filter_packets and trace_pread_packet_wrapper: a batch of packets is read, and
-- those that the filter takes are moved to the front of the array.
pub mod Swap
pub mod Partition
mod Tests
use odp_libtrace.Prelude.{
  ℕ, zero, suc, ◌+◌, ◌-◌, Bool, true, false, not, ◌==◌, leb, ltb, if◌then◌else◌, List, [], ◌∷◌,
  Option, none, some, get_or, set,
}

-- What becomes of a packet: `attach` sets its trace, `applies` is whether trace_apply_filter gives
-- anything but 0, and `fin` is trace_fin_packet.
pub record Filter (P : Type 0) : Type 0 where
  pub attach : P → P
  pub applies : P → Bool
  pub fin : P → P

module _ {P : Type 0} (filter : Filter P) (none_there : P) where
  -- The loop from `i` on, for `n` more packets. `none_there` is what stands behind the array.
  unfoldable pub filter_from : (n i offset : ℕ) → List P → ℕ × List P
  filter_from zero i offset packets = (offset, packets)
  filter_from (suc n) i offset packets =
      let p = filter.attach (get_or packets i none_there) in
      let attached = set packets i p in
      let tmp = get_or attached offset none_there in
      let swapped = set (set attached offset p) i tmp in
      elim (filter.applies p) [
        | true ↦ filter_from n (i + 1) (offset + 1) swapped
        | false ↦ filter_from n (i + 1) offset (set attached i (filter.fin p))
      ]

  unfoldable pub filter_packets : List P → ℕ → ℕ × List P
  filter_packets packets nb_packets = filter_from nb_packets 0 0 packets
