-- ===== src/DataStruct/SlidingWindow/Order.antt =====
-- lib/data-struct/sliding_window.c: a number that was handed out does not come back.
use odp_libtrace.Prelude.{ℕ, ◌≡◌, arith, false, some, Ptr}
use odp_libtrace.DataStruct.SlidingWindow.{Window, try_write, try_read}
use odp_libtrace.DataStruct.SlidingWindow.Inv.{IsValid}

-- The number of an item that was handed out cannot be written again: a repeat is refused, and the
-- window stays as it is.
pub try_write_after_read :
    {w w' : Window} {value number : ℕ} (again : Ptr)
    → IsValid w
    → try_read w ≡ (some (value, number), w')
    → try_write w' number again ≡ (false, w')
unfolding try_read try_write
try_write_after_read {w} again v e = ground arith
