-- ===== src/DataStruct/SlidingWindow/View.antt =====
-- What a sliding window promises: the number of its first item, and the items from there on.
use odp_libtrace.Prelude.{
  ℕ, List, [], ◌∷◌, ◌++◌, Option, none, some, Bool, true, false, ltb, ◌==◌, if◌then◌else◌, length,
  set, add64, sub64, Ptr, null,
}
use odp_libtrace.DataStruct.SlidingWindow.{Call, write, read, Reply, wrote, got}

-- Slot `k` is for the item with number `first + k`; `null` stands for one that has not come.
pub record View : Type 0 where
  pub first : ℕ
  pub slots : List Ptr

unfoldable pub try_write : View → ℕ → Ptr → Bool × View
try_write v number value =
    if ltb (sub64 number v.first) (length v.slots)
    then (true, record v { slots = set v.slots (sub64 number v.first) value })
    else (false, v)

read_slots : ℕ → List Ptr → Option (Ptr × ℕ) × View
read_slots first [] = (none, record { first = first; slots = [] })
read_slots first (x ∷ xs) =
    if x == null
    then (none, record { first = first; slots = x ∷ xs })
    else (some (x, first), record { first = add64 first 1; slots = xs ++ (null ∷ []) })

-- The next item in order, if it has come; the window moves on by one.
unfoldable pub try_read : View → Option (Ptr × ℕ) × View
unfolding read_slots
try_read v = read_slots v.first v.slots

unfoldable pub run : View → List Call → List Reply
run v [] = []
run v (write number value ∷ calls) =
    let (done, v') = try_write v number value in wrote done ∷ run v' calls
run v (read ∷ calls) = let (out, v') = try_read v in got out ∷ run v' calls
