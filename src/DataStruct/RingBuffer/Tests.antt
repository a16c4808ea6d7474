-- ===== src/DataStruct/RingBuffer/Tests.antt =====
-- Runs of a ring buffer, and its theorems at concrete rings.
use odp_libtrace.Prelude.{
  ◌+◌, ◌-◌, ◌≡◌, ◌≤◌, ◌<◌, refl, arith, [], ◌∷◌, ◌++◌, length, true, false, take, min,
}
use odp_libtrace.DataStruct.RingBuffer.State.{Ring, done, blocks, aborts, Outcome, Returns}
use odp_libtrace.DataStruct.RingBuffer.Fifo
use odp_libtrace.DataStruct.RingBuffer.{
  init, nb_full, nb_empty, write, try_write, read, try_read, write_bulk, read_bulk, swrite, sread,
  is_full, is_empty, put, take_one, write_rounds, read_rounds, store_values, load_values,
  wait_for_empty, wait_for_full, try_sread, try_sread_bl,
}
use odp_libtrace.DataStruct.RingBuffer.Inv.{IsValid, init-IsValid, nb_full-add-nb_empty}
use odp_libtrace.DataStruct.RingBuffer.Refine.{contents}
use odp_libtrace.DataStruct.RingBuffer.Single.{
  try_write_refines, try_read_refines, write_lem, read_lem,
}
use odp_libtrace.DataStruct.RingBuffer.BulkWrite.{write_bulk_lem}
use odp_libtrace.DataStruct.RingBuffer.BulkRead.{read_bulk_lem}
use odp_libtrace.DataStruct.RingBuffer.Locks.{try_sread_lem, swrite_lem, sread_lem}

-- Two values round the end of an array of four slots.
abbrev wrapped : Ring
wrapped = record {
  start = 3;
  size = 4;
  mode = 0;
  elements = 6 ∷ 0 ∷ 0 ∷ 5 ∷ [];
  wlock = false;
  rlock = false;
  end = 1;
}

abbrev fresh : Ring
fresh = record wrapped { start = 2; end = 2; elements = 0 ∷ 0 ∷ 0 ∷ 0 ∷ [] }

wrapped-IsValid : IsValid wrapped
wrapped-IsValid = omega arith

fresh-IsValid : IsValid fresh
fresh-IsValid = omega arith

init-IsValid_example :
    IsValid (record fresh { start = 0; end = 0 })
    × (nb_full (record fresh { start = 0; end = 0 }) ≡ 0)
    × (nb_empty (record fresh { start = 0; end = 0 }) ≡ 3)
unfolding init
init-IsValid_example = init-IsValid 3 0 (omega arith) refl

counts : (nb_full wrapped ≡ 2) × (nb_empty wrapped ≡ 1)
unfolding nb_full nb_empty
counts = (refl, refl)

nb_full-add-nb_empty_example : nb_full wrapped + nb_empty wrapped + 1 ≡ 4
nb_full-add-nb_empty_example = nb_full-add-nb_empty wrapped-IsValid

try_write_refines_example :
    Returns
      (λ done r'. IsValid r' × ((done, contents r') ≡ Fifo.push 3 (contents wrapped) 7))
      (try_write 7 wrapped)
try_write_refines_example = try_write_refines wrapped-IsValid 7

try_read_refines_example :
    Returns
      (λ out r'. IsValid r' × ((out, contents r') ≡ Fifo.pop (contents wrapped)))
      (try_read wrapped)
try_read_refines_example = try_read_refines wrapped-IsValid

write_lem_example :
    Outcome
      (λ _ r'.
        IsValid r' × (contents r' ≡ contents wrapped ++ (7 ∷ [])) × (length (contents wrapped) < 3))
      (λ r'. (r' ≡ wrapped) × (length (contents wrapped) ≡ 3))
      (write 7 wrapped)
write_lem_example = write_lem wrapped-IsValid 7

read_lem_example :
    Outcome
      (λ value r'. IsValid r' × (contents wrapped ≡ value ∷ contents r'))
      (λ r'. (r' ≡ wrapped) × (contents wrapped ≡ []))
      (read wrapped)
read_lem_example = read_lem wrapped-IsValid

write_bulk_lem_example :
    let free = 3 - length (contents wrapped) in
    Outcome
      (λ n r'.
        IsValid r'
        × (2 ≤ free)
        × (n ≡ min 3 free)
        × (contents r' ≡ contents wrapped ++ take n (7 ∷ 8 ∷ 9 ∷ [])))
      (λ r'.
        IsValid r' × (free < 2) × (contents r' ≡ contents wrapped ++ take free (7 ∷ 8 ∷ 9 ∷ [])))
      (write_bulk (7 ∷ 8 ∷ 9 ∷ []) 3 2 wrapped)
write_bulk_lem_example =
    write_bulk_lem (7 ∷ 8 ∷ 9 ∷ []) 3 2 wrapped-IsValid (omega arith) (omega arith) (omega arith)

read_bulk_lem_example :
    let stored = length (contents wrapped) in
    Outcome
      (λ values r'.
        IsValid r'
        × (1 ≤ stored)
        × (length values ≡ min 5 stored)
        × (contents wrapped ≡ values ++ contents r'))
      (λ r'. IsValid r' × (stored < 1) × (contents r' ≡ []))
      (read_bulk 5 1 wrapped)
read_bulk_lem_example = read_bulk_lem 5 1 wrapped-IsValid (omega arith) (omega arith)

bulk_runs :
    (write_bulk (7 ∷ 8 ∷ []) 2 0 wrapped ≡ done 1 (put wrapped 7))
    × (read_bulk 5 1 wrapped ≡ done (5 ∷ 6 ∷ []) (record wrapped { start = 1 }))
    × (read_bulk 1 2 wrapped ≡ aborts)
unfolding write_bulk write_rounds wait_for_empty wait_for_full nb_empty nb_full is_full is_empty
    store_values put read_bulk read_rounds load_values take_one
bulk_runs = (refl, refl, refl)

try_sread_lem_example :
    (try_sread (record wrapped { rlock = true }) ≡ blocks (record wrapped { rlock = true }))
    × (try_sread_bl (record wrapped { rlock = true }) ≡ try_sread (record wrapped { rlock = true }))
unfolding is_empty
try_sread_lem_example = try_sread_lem (record wrapped { rlock = true })

swrite_lem_example : swrite 7 wrapped ≡ done tt (put wrapped 7)
unfolding is_full
swrite_lem_example = swrite_lem wrapped 7

sread_lem_example : sread wrapped ≡ done (take_one wrapped).0 (take_one wrapped).1
unfolding is_empty
sread_lem_example = sread_lem wrapped
