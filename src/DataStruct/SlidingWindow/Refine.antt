-- ===== src/DataStruct/SlidingWindow/Refine.antt =====
-- A valid window behaves as its view.
use native.Mathlib.Nat.{mod-eq_of_lt}
use odp_libtrace.Prelude.{
  ℕ, suc, ◌+◌, ◌-◌, ◌%◌, ◌<◌, ◌≡◌, refl, sym, ap, ◌∙◌, arith, List, [], ◌∷◌, ◌++◌, get_or, set,
  add64, sub64, Ptr, null,
}
use odp_libtrace.Prelude.Circular.{span, length-span, span-set, span-set_shift}
use odp_libtrace.DataStruct.SlidingWindow.{
  Window, Call, write, read, slot, try_write, try_read, run,
}
use odp_libtrace.DataStruct.SlidingWindow.Inv.{IsValid, try_write-IsValid, try_read-IsValid}
use odp_libtrace.DataStruct.SlidingWindow.View
use odp_libtrace.DataStruct.SlidingWindow.View.{View}

abbrev pub view : Window → View
view w = record { first = w.start_number; slots = span w.elements w.size w.start w.size }

-- No addition of `try_write` wraps inside the window.
slot_lem :
    {w : Window} (number : ℕ)
    → IsValid w
    → sub64 number w.start_number < w.size
    → slot w number ≡ (w.start + sub64 number w.start_number) % w.size
slot_lem {w} number v lt = rw wide (ap (λ k. k % w.size) (omega arith))
  where
    wide : add64 (sub64 number w.start_number) w.start ≡ sub64 number w.start_number + w.start
    wide = mod-eq_of_lt (omega arith)

-- A write lands in the view's slot for its number, or is refused as the view refuses it.
pub try_write_refines :
    {w : Window} (number : ℕ) (value : Ptr)
    → IsValid w
    → let (done, w') = try_write w number value in
      (done, view w') ≡ View.try_write (view w) number value
unfolding try_write View.try_write
try_write_refines {w} number value v = ground (
  arith,
  length-span w.elements w.size w.start w.size,
  slot_lem number v,
  span-set w.elements w.size w.start w.size (sub64 number w.start_number) value,
)

-- The slots of a window that is not empty, the first one apart.
slots-cons :
    {w : Window}
    → IsValid w
    → span w.elements w.size w.start w.size
      ≡ get_or w.elements w.start null ∷ span w.elements w.size (suc w.start) (w.size - 1)
slots-cons {w} v =
    ap (span w.elements w.size w.start) full
    ∙ ap (λ k. get_or w.elements k null ∷ span w.elements w.size (suc w.start) (w.size - 1))
        (mod-eq_of_lt v.start_in)
  where
    full : w.size ≡ suc (w.size - 1)
    full = omega (arith, v.nonempty)

slots-shift :
    {w : Window}
    → IsValid w
    → span (set w.elements w.start null) w.size ((w.start + 1) % w.size) w.size
      ≡ span w.elements w.size (suc w.start) (w.size - 1) ++ (null ∷ [])
slots-shift {w} v =
    ap (span (set w.elements w.start null) w.size ((w.start + 1) % w.size)) full
    ∙ span-set_shift w.elements w.size w.start (w.size - 1) null (sym full) (omega arith) v.start_in
  where
    full : w.size ≡ suc (w.size - 1)
    full = omega (arith, v.nonempty)

-- A read takes the item with the first number, if it has come, and moves the view on by one.
pub try_read_refines :
    {w : Window} → IsValid w → let (out, w') = try_read w in (out, view w') ≡ View.try_read (view w)
unfolding try_read View.try_read
try_read_refines {w} v = ground (arith, slots-cons v, slots-shift v)

-- No sequence of calls tells a valid window from its view.
pub run_refines :
    (calls : List Call) {w : Window} → IsValid w → run w calls ≡ View.run (view w) calls
unfolding run View.run
run_refines [] v = refl
run_refines (write number value ∷ calls) v =
    rw (run_refines calls (try_write-IsValid number value v), ← try_write_refines number value v)
run_refines (read ∷ calls) v = rw (run_refines calls (try_read-IsValid v), ← try_read_refines v)
