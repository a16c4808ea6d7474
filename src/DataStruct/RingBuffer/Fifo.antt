-- ===== src/DataStruct/RingBuffer/Fifo.antt =====
-- What a ring buffer promises: a FIFO of at most `room` pointers, oldest first.
use odp_libtrace.Prelude.{
  ℕ, List, [], ◌∷◌, ◌++◌, Bool, true, false, Option, none, some, ltb, if◌then◌else◌, length, Ptr,
}

unfoldable pub push : ℕ → List Ptr → Ptr → Bool × List Ptr
push room q value = if ltb (length q) room then (true, q ++ (value ∷ [])) else (false, q)

unfoldable pub pop : List Ptr → Option Ptr × List Ptr
pop [] = (none, [])
pop (x ∷ q) = (some x, q)
