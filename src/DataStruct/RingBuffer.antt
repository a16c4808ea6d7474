-- ===== src/DataStruct/RingBuffer.antt =====
-- lib/data-struct/ring_buffer.c: a FIFO of pointers in a circular array, of which one slot is
-- always left unused.
pub mod State
pub mod Fifo
pub mod Single
pub mod Inv
pub mod Refine
pub mod BulkRead
pub mod BulkWrite
pub mod Locks
pub mod Threads
mod Tests
use odp_libtrace.Prelude.{
  ℕ, zero, suc, ◌+◌, ◌-◌, ◌%◌, List, [], ◌∷◌, ◌++◌, Option, none, some, Bool, true, false, ltb, leb,
  ◌==◌, ◌&&◌, if◌then◌else◌, get_or, set, replicate, min, add64, sub64, Ptr, null,
}
use State.{Ring, Wait, done, blocks, aborts, out_of_fuel, and_then}

-- `none` is the return value -1. `allocated` says whether `calloc` gave memory.
pub init : Bool → ℕ → ℕ → Option Ring
init allocated size mode =
    if ltb 1 (add64 size 1)
    then (if allocated
        then some (record {
          start = 0;
          size = add64 size 1;
          mode = mode;
          elements = replicate (add64 size 1) null;
          wlock = false;
          rlock = false;
          end = 0;
        })
        else none)
    else none

-- `libtrace_ringbuffer_destroy` and `libtrace_zero_ringbuffer`: the indices and the array go.
pub zero_ring : Ring → Ring
zero_ring r = record r { start = 0; end = 0; size = 0; elements = [] }

pub is_empty : Ring → Bool
is_empty r = r.start == r.end

pub is_full : Ring → Bool
is_full r = r.start == (add64 r.end 1 % r.size)

pub nb_full : Ring → ℕ
nb_full r = if ltb r.end r.start then sub64 (add64 r.end r.size) r.start else sub64 r.end r.start

pub nb_empty : Ring → ℕ
nb_empty r =
    if leb r.start r.end
    then sub64 (sub64 (add64 r.start r.size) r.end) 1
    else sub64 (sub64 r.start r.end) 1

-- `wait_for_empty` and `wait_for_full`: both modes test again until another thread made room.
pub wait_for_empty : Ring → Wait (Unit {0})
wait_for_empty r = if is_full r then blocks r else done tt r

pub wait_for_full : Ring → Wait (Unit {0})
wait_for_full r = if is_empty r then blocks r else done tt r

-- The two assignments of a write, and those of a read.
pub put : Ring → Ptr → Ring
put r value = record r { elements = set r.elements r.end value; end = add64 r.end 1 % r.size }

pub take_one : Ring → Ptr × Ring
take_one r = (get_or r.elements r.start null, record r { start = add64 r.start 1 % r.size })

pub write : Ptr → Ring → Wait (Unit {0})
write value r = and_then (wait_for_empty r) (λ _ r'. done tt (put r' value))

pub try_write : Ptr → Ring → Wait Bool
try_write value r =
    if is_full r then done false r else and_then (write value r) (λ _ r'. done true r')

pub read : Ring → Wait Ptr
read r = and_then (wait_for_full r) (λ _ r'. let (value, r'') = take_one r' in done value r'')

-- `none` is the return value 0, which leaves `*value` unchanged.
pub try_read : Ring → Wait (Option Ptr)
try_read r =
    if is_empty r then done none r else and_then (read r) (λ value r'. done (some value) r')

-- `for (; i < nb_ready; i++)` of `write_bulk`, over the `n` rounds that it has; `end` is written
-- back once.
pub store_values : ℕ → List Ptr → ℕ → Ring → Ring
store_values zero values i r = r
store_values (suc n) values i r = store_values n values (i + 1) (put r (get_or values i null))

-- `do … while (i < min_nb_buffers)` of `write_bulk`.
pub write_rounds : ℕ → List Ptr → ℕ → ℕ → ℕ → Ring → Wait ℕ
write_rounds zero values nb least i r = out_of_fuel
write_rounds (suc fuel) values nb least i r = and_then (wait_for_empty r) (λ _ r.
    let n = min (nb_empty r) (sub64 nb i) in
    let r' = store_values n values i r in
    let rest = write_rounds fuel values nb least (i + n) r' in
    if ltb (i + n) least then rest else done (i + n) r')

-- The result is the number of values written, from the front of `values`.
pub write_bulk : List Ptr → ℕ → ℕ → Ring → Wait ℕ
write_bulk values nb least r =
    if leb least nb
    then (if (least == 0) && is_full r then done 0 r else write_rounds (nb + 1) values nb least 0 r)
    else aborts

-- The loop of `read_bulk`; the list is what it stored in `values`, in order.
pub load_values : ℕ → Ring → List Ptr × Ring
load_values zero r = ([], r)
load_values (suc n) r =
    let (value, r') = take_one r in let (rest, r'') = load_values n r' in (value ∷ rest, r'')

pub read_rounds : ℕ → ℕ → ℕ → ℕ → List Ptr → Ring → Wait (List Ptr)
read_rounds zero nb least i got r = out_of_fuel
read_rounds (suc fuel) nb least i got r = and_then (wait_for_full r) (λ _ r.
    let n = min (nb_full r) (sub64 nb i) in
    let (values, r') = load_values n r in
    let rest = read_rounds fuel nb least (i + n) (got ++ values) r' in
    if ltb (i + n) least then rest else done (got ++ values) r')

-- The result is the part of `values` that was filled; its length is what the function returns.
pub read_bulk : ℕ → ℕ → Ring → Wait (List Ptr)
read_bulk nb least r =
    if leb least nb
    then (if (least == 0) && is_empty r then done [] r else read_rounds (nb + 1) nb least 0 [] r)
    else aborts

-- `LOCK(w)` and `UNLOCK(w)` round a call, and the same for `r`. `TRY_LOCK` is `LOCK`: over a mutex
-- both are `pthread_mutex_lock`.
module _ {A : Type 0} where
  pub with_wlock : (Ring → Wait A) → Ring → Wait A
  with_wlock f r =
      if r.wlock
      then blocks r
      else and_then (f (record r { wlock = true })) (λ a r'. done a (record r' { wlock = false }))

  pub with_rlock : (Ring → Wait A) → Ring → Wait A
  with_rlock f r =
      if r.rlock
      then blocks r
      else and_then (f (record r { rlock = true })) (λ a r'. done a (record r' { rlock = false }))

pub swrite : Ptr → Ring → Wait (Unit {0})
swrite value = with_wlock (write value)

pub swrite_bulk : List Ptr → ℕ → ℕ → Ring → Wait ℕ
swrite_bulk values nb least r =
    if (least == 0) && is_full r then done 0 r else with_wlock (write_bulk values nb least) r

pub try_swrite : Ptr → Ring → Wait Bool
try_swrite value r = if is_full r then done false r else with_wlock (try_write value) r

pub try_swrite_bl : Ptr → Ring → Wait Bool
try_swrite_bl value r = if is_full r then done false r else with_wlock (try_write value) r

pub sread : Ring → Wait Ptr
sread = with_rlock read

pub sread_bulk : ℕ → ℕ → Ring → Wait (List Ptr)
sread_bulk nb least r =
    if (least == 0) && is_empty r then done [] r else with_rlock (read_bulk nb least) r

pub try_sread : Ring → Wait (Option Ptr)
try_sread r = if is_empty r then done none r else with_rlock try_read r

pub try_sread_bl : Ring → Wait (Option Ptr)
try_sread_bl r = if is_empty r then done none r else with_rlock try_read r
