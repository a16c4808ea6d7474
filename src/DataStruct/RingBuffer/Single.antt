-- ===== src/DataStruct/RingBuffer/Single.antt =====
-- The calls of a ring buffer that move one pointer, against the FIFO of its contents.
use odp_libtrace.Prelude.{◌-◌, ◌<◌, ◌≡◌, arith, [], ◌∷◌, ◌++◌, length, Ptr}
use odp_libtrace.DataStruct.RingBuffer.State.{Ring, Outcome, Returns}
use odp_libtrace.DataStruct.RingBuffer.Fifo
use odp_libtrace.DataStruct.RingBuffer.{
  write, try_write, read, try_read, wait_for_empty, wait_for_full,
}
use odp_libtrace.DataStruct.RingBuffer.Inv.{IsValid, put-IsValid, take_one-IsValid}
use odp_libtrace.DataStruct.RingBuffer.Refine.{
  contents, length-contents, is_full_lem, is_empty_lem, nb_full-lt, contents-put, contents-take_one,
}

module _ {r : Ring} (v : IsValid r) where
  -- `try_write` returns at once, and does what the FIFO with `size - 1` places does.
  pub try_write_refines :
      (value : Ptr)
      → Returns
          (λ done r'.
            IsValid r' × ((done, contents r') ≡ Fifo.push (r.size - 1) (contents r) value))
          (try_write value r)
  unfolding try_write write wait_for_empty Fifo.push
  try_write_refines value = ground (
    arith,
    is_full_lem v,
    nb_full-lt v,
    length-contents r,
    contents-put v value,
    put-IsValid value v,
  )

  -- `try_read` returns at once, and does what the FIFO does.
  pub try_read_refines :
      Returns (λ out r'. IsValid r' × ((out, contents r') ≡ Fifo.pop (contents r))) (try_read r)
  unfolding try_read read wait_for_full Fifo.pop
  try_read_refines = ground (
    arith,
    is_empty_lem v,
    nb_full-lt v,
    length-contents r,
    contents-take_one v,
    take_one-IsValid v,
  )

  -- `write` appends its value, or blocks and changes nothing: this it does exactly when all
  -- `size - 1` places are taken.
  pub write_lem :
      (value : Ptr)
      → Outcome
          (λ _ r'.
            IsValid r'
            × (contents r' ≡ contents r ++ (value ∷ []))
            × (length (contents r) < r.size - 1))
          (λ r'. (r' ≡ r) × (length (contents r) ≡ r.size - 1))
          (write value r)
  unfolding write wait_for_empty
  write_lem value = ground (
    arith,
    is_full_lem v,
    nb_full-lt v,
    length-contents r,
    contents-put v value,
    put-IsValid value v,
  )

  -- `read` takes the oldest value, or blocks and changes nothing: this it does exactly when there
  -- is none.
  pub read_lem :
      Outcome
        (λ value r'. IsValid r' × (contents r ≡ value ∷ contents r'))
        (λ r'. (r' ≡ r) × (contents r ≡ []))
        (read r)
  unfolding read wait_for_full
  read_lem = ground (
    arith,
    is_empty_lem v,
    nb_full-lt v,
    length-contents r,
    contents-take_one v,
    take_one-IsValid v,
  )
