-- ===== src/Parallel/Pread.antt =====
-- lib/trace_parallel.c, trace_pread_packet_wrapper: batches are read from a format that reads in
-- parallel, until the filter leaves something of one.
pub mod Batches
mod Tests
use odp_libtrace.Prelude.{
  ℕ, zero, suc, ◌+◌, ◌-◌, Bool, true, false, not, ◌||◌, ◌&&◌, ◌==◌, if◌then◌else◌, List, [], ◌∷◌,
  ◌++◌, Option, none, some, length, map, take, drop,
}
use odp_libtrace.Parallel.Filter.{Filter, filter_packets}

-- What the format module has for a thread: batches, and behind them the result that is 0 or less.
pub data Format (P E : Type 0) : Type 0 where
  ends : E → Format P E
  reads : List P → Format P E → Format P E

-- `libtrace_t` as far as it is used: whether an error is set, `started`, whether the format has
-- `pread_packets`, the filter, and `trace_set_capture_length` to the snap length, if there is one.
pub record Reader (P : Type 0) : Type 0 where
  pub is_err : Bool
  pub started : Bool
  pub has_pread : Bool
  pub filter : Option (Filter P)
  pub snap : Option (P → P)

-- The number of packets, an error that is set, or what the format returned; with the array, the
-- number of packets that were filtered, and what the format has left.
pub data Got (P E : Type 0) : Type 0 where
  got : ℕ → List P → ℕ → Format P E → Got P E
  returned : E → List P → ℕ → Got P E
  error : Got P E

-- The test of every packet of the array.
abbrev pub all : {P : Type 0} → (P → Bool) → List P → Bool
all valid [] = true
all valid (p ∷ ps) = valid p && all valid ps

module _ {P : Type 0} (lt : Reader P) (none_there : P) (set_order : P → P) where
  -- The loop over the packets that are left.
  unfoldable pub finish : P → P
  finish p = elim lt.snap [ none ↦ set_order p | some cut ↦ set_order (cut p) ]

  unfoldable pub apply : List P → ℕ → ℕ × List P
  apply packets ret = elim lt.filter [
    | none ↦ (ret, packets)
    | some f ↦ filter_packets f none_there packets ret
  ]

module _ {P E : Type 0} (lt : Reader P) (none_there : P) (set_order : P → P) where
  -- The `do` loop. A batch fills the front of the array.
  unfoldable pub read_batches : List P → ℕ → Format P E → Got P E
  read_batches packets filtered (ends code) = returned code packets filtered
  read_batches packets filtered (reads batch format) =
      let kept =
        apply lt none_there set_order (batch ++ drop (length batch) packets) (length batch) in
      let filtered = filtered + (length batch - kept.0) in
      let packets =
        map (finish lt none_there set_order) (take kept.0 kept.1) ++ drop kept.0 kept.1 in
      let rest = read_batches packets filtered format in
      if kept.0 == 0 then rest else got kept.0 packets filtered format

  -- `valid` is the test of `buf_control`.
  unfoldable pub pread_packet_wrapper : (valid : P → Bool) → List P → ℕ → Format P E → Got P E
  pread_packet_wrapper valid packets filtered format =
      if lt.is_err || not lt.started || not lt.has_pread || not (all valid packets)
      then error
      else read_batches packets filtered format
