-- ===== src/DataStruct/RingBuffer/Inv.antt =====
-- The representation invariant of a ring buffer, and what its counters count.
use odp_libtrace.Prelude.{
  ℕ, ◌+◌, ◌%◌, ◌^◌, ◌<◌, ◌≡◌, arith, length, length-set, length-replicate, Ptr, null, true, some,
  add64,
}
use odp_libtrace.DataStruct.RingBuffer.State.{Ring}
use odp_libtrace.DataStruct.RingBuffer.{init, put, take_one, nb_full, nb_empty}
use native.Mathlib.Nat.{mod-lt}

pub record IsValid (r : Ring) : Type 0 where
  pub slots : 1 < r.size
  pub small : r.size < 2 ^ 64
  pub start_in : r.start < r.size
  pub end_in : r.end < r.size
  pub allocated : length r.elements ≡ r.size

-- A ring that `init` returns is valid, empty and unlocked.
pub init-IsValid :
    (size mode : ℕ) {r : Ring}
    → size < 2 ^ 64
    → init true size mode ≡ some r
    → IsValid r × (nb_full r ≡ 0) × (nb_empty r ≡ size)
unfolding init nb_full nb_empty
init-IsValid size mode lt e = ground (arith, length-replicate {A = ℕ} (add64 size 1) null)

-- The indices stay below `size`, so that adding 1 to one does not wrap.
next_lt : (i size : ℕ) → 0 < size → add64 i 1 % size < size
next_lt i size pos = mod-lt (add64 i 1) pos

pub put-IsValid : {r : Ring} (value : Ptr) → IsValid r → IsValid (put r value)
unfolding put
put-IsValid {r} value v = ground (arith, next_lt r.end r.size, length-set r.elements r.end value)

pub take_one-IsValid : {r : Ring} → IsValid r → IsValid (take_one r).1
unfolding take_one
take_one-IsValid {r} v = ground (arith, next_lt r.start r.size)

-- The full and the empty slots make up all slots but one.
pub nb_full-add-nb_empty : {r : Ring} → IsValid r → nb_full r + nb_empty r + 1 ≡ r.size
unfolding nb_full nb_empty
nb_full-add-nb_empty v = ground arith
