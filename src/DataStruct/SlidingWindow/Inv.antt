-- ===== src/DataStruct/SlidingWindow/Inv.antt =====
-- The representation invariant of a sliding window.
use odp_libtrace.Prelude.{
  ℕ, ◌^◌, ◌≤◌, ◌<◌, ◌≡◌, arith, length, length-set, length-replicate, Ptr, null,
}
use odp_libtrace.DataStruct.SlidingWindow.{Window, init, slot, try_write, try_read}

pub record IsValid (w : Window) : Type 0 where
  pub nonempty : 0 < w.size
  pub small : w.size ≤ 2 ^ 63
  pub start_in : w.start < w.size
  pub number_in : w.start_number < 2 ^ 64
  pub allocated : length w.elements ≡ w.size

pub init-IsValid :
    (size number : ℕ) → 0 < size → size ≤ 2 ^ 63 → number < 2 ^ 64 → IsValid (init size number)
unfolding init
init-IsValid size number pos le lt = ground (arith, length-replicate {A = ℕ} size null)

pub try_write-IsValid :
    {w : Window} (number : ℕ) (value : Ptr) → IsValid w → IsValid (try_write w number value).1
unfolding try_write
try_write-IsValid {w} number value v = ground (arith, length-set w.elements (slot w number) value)

pub try_read-IsValid : {w : Window} → IsValid w → IsValid (try_read w).1
unfolding try_read
try_read-IsValid {w} v = ground (arith, length-set w.elements w.start null)
