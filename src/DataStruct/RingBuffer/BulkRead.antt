-- ===== src/DataStruct/RingBuffer/BulkRead.antt =====
-- `libtrace_ringbuffer_read_bulk`: how many pointers it moves, and which.
use native.Mathlib.Numerals.{add-one}
use odp_libtrace.Prelude.{
  ℕ, zero, suc, ◌+◌, ◌<◌, ◌≤◌, ◌^◌, ◌≡◌, refl, ap, ◌∙◌, arith, List, [], ◌∷◌, ◌++◌, length, Ptr,
  true, false, min, sub64,
}
use odp_libtrace.DataStruct.RingBuffer.State.{Ring, Wait, blocks, Outcome}
use odp_libtrace.DataStruct.RingBuffer.{
  take_one, nb_full, is_empty, wait_for_full, load_values, read_rounds, read_bulk,
}
use odp_libtrace.DataStruct.RingBuffer.Inv.{IsValid, take_one-IsValid}
use odp_libtrace.DataStruct.RingBuffer.Refine.{
  contents, length-contents, is_empty_lem, nb_full-take_one, contents-take_one,
}

record Loaded (n : ℕ) (r : Ring) (out : List Ptr × Ring) : Type 0 where
  valid : IsValid out.1
  amount : length out.0 ≡ n
  left : nb_full out.1 + n ≡ nb_full r
  items : contents r ≡ out.0 ++ contents out.1

nb_full-take_one' : {r : Ring} → IsValid r → 0 < nb_full r → nb_full (take_one r).1 + 1 ≡ nb_full r
nb_full-take_one' v lt = omega (arith, nb_full-take_one v lt)

Loaded-take_one :
    (n : ℕ) {r : Ring} {out : List Ptr × Ring}
    → IsValid r
    → 0 < nb_full r
    → Loaded n (take_one r).1 out
    → Loaded (suc n) r ((take_one r).0 ∷ out.0, out.1)
Loaded-take_one n {r} v lt rest = record {
  valid = rest.valid;
  amount = ap suc rest.amount;
  left = omega (arith, rest.left, nb_full-take_one' v lt);
  items = contents-take_one v lt ∙ ap (λ l. (take_one r).0 ∷ l) rest.items;
}

load_values-Loaded : (n : ℕ) (r : Ring) → IsValid r → n ≤ nb_full r → Loaded n r (load_values n r)
unfolding load_values
load_values-Loaded zero r v le = record {
  valid = v;
  amount = refl;
  left = omega arith;
  items = refl;
}
load_values-Loaded (suc n) r v le = Loaded-take_one n v (omega arith) (
    load_values-Loaded n (take_one r).1 (take_one-IsValid v)
      (omega (arith, nb_full-take_one' v (omega arith))))

-- On an empty ring a further round blocks.
read_rounds-empty :
    (fuel nb least i : ℕ) (got : List Ptr) (r : Ring)
    → is_empty r ≡ true
    → read_rounds (suc fuel) nb least i got r ≡ blocks r
unfolding read_rounds wait_for_full
read_rounds-empty fuel nb least i got r e = rw e

contents-eq-nil : (r : Ring) → nb_full r ≡ 0 → contents r ≡ []
contents-eq-nil r e = rw e

abbrev ReadOutcome : ℕ → ℕ → Ring → Wait (List Ptr) → Type 0
ReadOutcome nb least r =
    let stored = length (contents r) in
    Outcome
      (λ values r'.
        IsValid r'
        × (least ≤ stored)
        × (length values ≡ min nb stored)
        × (contents r ≡ values ++ contents r'))
      (λ r'. IsValid r' × (stored < least) × (contents r' ≡ []))

module _ (nb least : ℕ) {r : Ring} (v : IsValid r) (le : least ≤ nb) (small : nb < 2 ^ 64) where
  count_loaded : ℕ
  count_loaded = min (nb_full r) (sub64 nb 0)

  loaded : List Ptr × Ring
  loaded = load_values count_loaded r

  loaded-Loaded : Loaded count_loaded r loaded
  unfolding loaded count_loaded
  loaded-Loaded = load_values-Loaded (min (nb_full r) (sub64 nb 0)) r v (omega arith)

  -- The first round, on a ring that is not empty.
  read_round :
      (fuel : ℕ)
      → least ≤ fuel
      → is_empty r ≡ false
      → ReadOutcome nb least r (read_rounds (suc fuel) nb least 0 [] r)
  unfolding read_rounds wait_for_full loaded count_loaded
  read_round zero enough some_there =
      rw some_there (ground (arith, loaded-Loaded, length-contents r))
  read_round (suc fuel) enough some_there = rw some_there (
      ground (
        arith,
        loaded-Loaded,
        is_empty_lem loaded-Loaded.valid,
        length-contents r,
        contents-eq-nil loaded.1,
      ))

-- While no other thread writes, `read_bulk` returns exactly if the ring holds the least number asked
-- for. It then hands out the oldest values in order, as many as there are or as were asked for;
-- otherwise it blocks behind the last value.
pub read_bulk_lem :
    (nb least : ℕ) {r : Ring}
    → IsValid r
    → least ≤ nb
    → nb < 2 ^ 64
    → let stored = length (contents r) in
      Outcome
        (λ values r'.
          IsValid r'
          × (least ≤ stored)
          × (length values ≡ min nb stored)
          × (contents r ≡ values ++ contents r'))
        (λ r'. IsValid r' × (stored < least) × (contents r' ≡ []))
        (read_bulk nb least r)
unfolding read_bulk
read_bulk_lem nb least {r} v le small = rw (add-one nb) (
    ground (
      arith,
      is_empty_lem v,
      length-contents r,
      contents-eq-nil r,
      read_round nb least v le small nb le,
      read_rounds-empty nb nb least 0 [] r,
    ))
