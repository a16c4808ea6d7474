-- ===== src/DataStruct/RingBuffer/Locks.antt =====
-- The calls of a ring buffer that take a lock first.
use odp_libtrace.Prelude.{◌≡◌, refl, arith, true, false, Ptr, if◌then◌else◌, some, none}
use odp_libtrace.DataStruct.RingBuffer.State.{Ring, done, blocks}
use odp_libtrace.DataStruct.RingBuffer.{
  put, take_one, is_full, is_empty, write, try_write, read, try_read, wait_for_empty, wait_for_full,
  with_wlock, with_rlock, swrite, try_swrite, try_swrite_bl, sread, try_sread, try_sread_bl,
}

module _ (r : Ring) where
  -- `swrite` waits for the lock, and keeps it while it waits for room; where it returns, the lock is
  -- free again and the value is written.
  pub swrite_lem :
      (value : Ptr)
      → swrite value r ≡ (
          if r.wlock
          then blocks r
          else if is_full r
          then blocks (record r { wlock = true })
          else done tt (put r value))
  unfolding swrite with_wlock write wait_for_empty is_full put
  swrite_lem value = ground arith

  -- `sread` likewise.
  pub sread_lem : sread r ≡ (
      if r.rlock
      then blocks r
      else if is_empty r
      then blocks (record r { rlock = true })
      else done (take_one r).0 (take_one r).1)
  unfolding sread with_rlock read wait_for_full is_empty take_one
  sread_lem = ground arith

  -- `try_swrite` returns at once from a full ring only. Elsewhere it waits for the lock, as
  -- `try_swrite_bl` does.
  pub try_swrite_lem :
      (value : Ptr)
      → (try_swrite value r ≡ (
          if is_full r
          then done false r
          else if r.wlock
          then blocks r
          else done true (put r value)))
        × (try_swrite_bl value r ≡ try_swrite value r)
  unfolding try_swrite try_swrite_bl with_wlock try_write write wait_for_empty is_full put
  try_swrite_lem value = (ground arith, refl)

  -- `try_sread` returns at once from an empty ring only. Elsewhere it waits for the lock, as
  -- `try_sread_bl` does.
  pub try_sread_lem :
      (try_sread r ≡ (
        if is_empty r
        then done none r
        else if r.rlock
        then blocks r
        else done (some (take_one r).0) (take_one r).1))
      × (try_sread_bl r ≡ try_sread r)
  unfolding try_sread try_sread_bl with_rlock try_read read wait_for_full is_empty take_one
  try_sread_lem = (ground arith, refl)
