-- ===== src/DataStruct/SlidingWindow.antt =====
-- lib/data-struct/sliding_window.c: a window of slots over a stream of numbered items.
pub mod View
pub mod Inv
pub mod Refine
pub mod Order
mod Tests
use odp_libtrace.Prelude.{
  ℕ, ◌+◌, ◌%◌, List, [], ◌∷◌, Option, none, some, Bool, true, false, not, ltb, ◌==◌, if◌then◌else◌,
  get_or, set, replicate, add64, sub64, Ptr, null,
}

-- `libtrace_slidingwindow_t`
pub record Window : Type 0 where
  pub start : ℕ
  pub size : ℕ
  pub start_number : ℕ
  pub elements : List Ptr

-- `calloc` is assumed to succeed, as the `assert` behind it does.
pub init : ℕ → ℕ → Window
init size start_number = record {
  start = 0;
  size = size;
  start_number = start_number;
  elements = replicate size null;
}

-- `libtrace_zero_slidingwindow`; `libtrace_slidingwindow_destroy` leaves the same state and frees
-- the slots.
pub zeroed : Window
zeroed = record { start = 0; size = 0; start_number = 0; elements = [] }

-- The slot that `number` falls on.
abbrev pub slot : Window → ℕ → ℕ
slot w number = add64 (sub64 number w.start_number) w.start % w.size

pub try_write : Window → ℕ → Ptr → Bool × Window
try_write w number value =
    if ltb (sub64 number w.start_number) w.size
    then (true, record w { elements = set w.elements (slot w number) value })
    else (false, w)

pub read_ready : Window → Bool
read_ready w = not (get_or w.elements w.start null == null)

-- What goes through `value` and `number` is the option, `none` where the function returns 0.
pub try_read : Window → Option (Ptr × ℕ) × Window
try_read w =
    if not (get_or w.elements w.start null == null)
    then (
      some (get_or w.elements w.start null, w.start_number),
      record w {
        elements = set w.elements w.start null;
        start_number = add64 w.start_number 1;
        start = (w.start + 1) % w.size;
      },
    )
    else (none, w)

-- What a client does with a window, and what it sees.
pub data Call : Type 0 where
  write : ℕ → Ptr → Call
  read : Call

pub data Reply : Type 0 where
  wrote : Bool → Reply
  got : Option (Ptr × ℕ) → Reply

pub run : Window → List Call → List Reply
run w [] = []
run w (write number value ∷ calls) =
    let (done, w') = try_write w number value in wrote done ∷ run w' calls
run w (read ∷ calls) = let (out, w') = try_read w in got out ∷ run w' calls
