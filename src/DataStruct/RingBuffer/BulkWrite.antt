-- ===== src/DataStruct/RingBuffer/BulkWrite.antt =====
-- `libtrace_ringbuffer_write_bulk`: how many pointers it moves, and which.
use native.Mathlib.Numerals.{add-one}
use mathlib.Core.List.{append-nil, append_assoc}
use odp_libtrace.Prelude.{
  ℕ, zero, suc, ◌+◌, ◌-◌, ◌<◌, ◌≤◌, ◌^◌, ◌≡◌, refl, sym, ap, ◌∙◌, arith, List, [], ◌∷◌, ◌++◌,
  length, take, drop, Ptr, true, false, min, take-drop-suc, get_or, null, sub64,
}
use odp_libtrace.DataStruct.RingBuffer.State.{Ring, Wait, blocks, Outcome}
use odp_libtrace.DataStruct.RingBuffer.{
  put, nb_full, nb_empty, is_full, wait_for_empty, store_values, write_rounds, write_bulk,
}
use odp_libtrace.DataStruct.RingBuffer.Inv.{IsValid, put-IsValid, nb_full-add-nb_empty}
use odp_libtrace.DataStruct.RingBuffer.Refine.{
  contents, length-contents, is_full_lem, nb_full-lt, nb_full-put, contents-put,
}

size-put : (r : Ring) (value : Ptr) → (put r value).size ≡ r.size
unfolding put
size-put r value = refl

record Stored (values : List Ptr) (i n : ℕ) (r r' : Ring) : Type 0 where
  valid : IsValid r'
  same_size : r'.size ≡ r.size
  count : nb_full r' ≡ nb_full r + n
  bytes : contents r' ≡ contents r ++ take n (drop i values)

-- One round of the loop, and the rounds behind it.
Stored-put :
    (n : ℕ) (values : List Ptr) (i : ℕ) {r r' : Ring}
    → IsValid r
    → nb_full r + 1 < r.size
    → i < length values
    → Stored values (i + 1) n (put r (get_or values i null)) r'
    → Stored values i (suc n) r r'
Stored-put n values i {r} v room lt rest = record {
  valid = rest.valid;
  same_size = rest.same_size ∙ size-put r x;
  count = omega (arith, rest.count, nb_full-put v x room);
  bytes =
      rest.bytes
      ∙ (ap (λ l. l ++ take n (drop (i + 1) values)) (contents-put v x room)
          ∙ (append_assoc (contents r) (x ∷ []) (take n (drop (i + 1) values))
              ∙ ap (λ l. contents r ++ l) items));
}
  where
    x : Ptr
    x = get_or values i null

    items : x ∷ take n (drop (i + 1) values) ≡ take (suc n) (drop i values)
    items = rw (add-one i) (take-drop-suc n i values null lt)

store_values-Stored :
    (n : ℕ) (values : List Ptr) (i : ℕ) (r : Ring)
    → IsValid r
    → nb_full r + n < r.size
    → i + n ≤ length values
    → Stored values i n r (store_values n values i r)
unfolding store_values
store_values-Stored zero values i r v room le = record {
  valid = v;
  same_size = refl;
  count = omega arith;
  bytes = sym (append-nil (contents r));
}
store_values-Stored (suc n) values i r v room le =
    Stored-put n values i v (omega arith) (omega arith) (
      store_values-Stored n values (i + 1) (put r x) (put-IsValid x v)
        (omega (arith, nb_full-put v x, size-put r x)) (omega arith))
  where
    x : Ptr
    x = get_or values i null

-- On a full ring a further round blocks.
write_rounds-full :
    (fuel : ℕ) (values : List Ptr) (nb least i : ℕ) (r : Ring)
    → is_full r ≡ true
    → write_rounds (suc fuel) values nb least i r ≡ blocks r
unfolding write_rounds wait_for_empty
write_rounds-full fuel values nb least i r e = rw e

abbrev WriteOutcome : List Ptr → ℕ → ℕ → Ring → Wait ℕ → Type 0
WriteOutcome values nb least r =
    let free = r.size - 1 - length (contents r) in
    Outcome
      (λ n r'.
        IsValid r'
        × (least ≤ free)
        × (n ≡ min nb free)
        × (contents r' ≡ contents r ++ take n values))
      (λ r'. IsValid r' × (free < least) × (contents r' ≡ contents r ++ take free values))

module _ (values : List Ptr) (nb least : ℕ) {r : Ring} (v : IsValid r) (le : least ≤ nb)
    (fits : nb ≤ length values) (small : nb < 2 ^ 64) where
  count_stored : ℕ
  count_stored = min (nb_empty r) (sub64 nb 0)

  after : Ring
  after = store_values count_stored values 0 r

  after-Stored : Stored values 0 count_stored r after
  unfolding after count_stored
  after-Stored =
      store_values-Stored (min (nb_empty r) (sub64 nb 0)) values 0 r v
        (omega (arith, nb_full-add-nb_empty v)) (omega arith)

  -- The first round, on a ring with room.
  write_round :
      (fuel : ℕ)
      → least ≤ fuel
      → is_full r ≡ false
      → WriteOutcome values nb least r (write_rounds (suc fuel) values nb least 0 r)
  unfolding write_rounds wait_for_empty after count_stored
  write_round zero enough room =
      rw room (ground (arith, after-Stored, nb_full-add-nb_empty v, length-contents r))
  write_round (suc fuel) enough room = rw room (
      ground (
        arith,
        after-Stored,
        is_full_lem after-Stored.valid,
        nb_full-add-nb_empty v,
        length-contents r,
      ))

-- While no other thread reads, `write_bulk` returns exactly if it has room for the least number
-- asked for. It then has appended as many values as there are or as fit, from the front of
-- `values`, and returns their number; otherwise it blocks behind the values that fit.
pub write_bulk_lem :
    (values : List Ptr) (nb least : ℕ) {r : Ring}
    → IsValid r
    → least ≤ nb
    → nb ≤ length values
    → nb < 2 ^ 64
    → let free = r.size - 1 - length (contents r) in
      Outcome
        (λ n r'.
          IsValid r'
          × (least ≤ free)
          × (n ≡ min nb free)
          × (contents r' ≡ contents r ++ take n values))
        (λ r'. IsValid r' × (free < least) × (contents r' ≡ contents r ++ take free values))
        (write_bulk values nb least r)
unfolding write_bulk
write_bulk_lem values nb least {r} v le fits small = rw (add-one nb) (
    ground (
      arith,
      is_full_lem v,
      nb_full-lt v,
      length-contents r,
      append-nil (contents r),
      write_round values nb least v le fits small nb le,
      write_rounds-full nb values nb least 0 r,
    ))
