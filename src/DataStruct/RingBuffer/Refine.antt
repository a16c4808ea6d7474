-- ===== src/DataStruct/RingBuffer/Refine.antt =====
-- A valid ring holds a bounded FIFO: its contents, oldest first.
use native.Mathlib.Nat.{mod-eq_of_lt, mod_self, add-mod_right}
use native.Mathlib.Numerals.{add-one}
use native.Mathlib.Decide.{dec_lt}
use odp_libtrace.Prelude.{
  ℕ, suc, ◌+◌, ◌-◌, ◌%◌, ◌^◌, ◌<◌, ◌≡◌, sym, ap, ◌∙◌, arith, List, [], ◌∷◌, ◌++◌, get_or, set,
  add64, length, Ptr, null, true, false, ◌⊎◌, inl, inr, ltb, if◌then◌else◌,
}
use odp_libtrace.Prelude.Circular.{span, length-span, span-set_last, span-next}
use odp_libtrace.DataStruct.RingBuffer.State.{Ring}
use odp_libtrace.DataStruct.RingBuffer.{put, take_one, nb_full, is_full, is_empty}
use odp_libtrace.DataStruct.RingBuffer.Inv.{IsValid}

abbrev pub contents : Ring → List Ptr
contents r = span r.elements r.size r.start (nb_full r)

pub length-contents : (r : Ring) → length (contents r) ≡ nb_full r
length-contents r = length-span r.elements r.size r.start (nb_full r)

-- The index behind `i`, going round at `size`.
pub next_cases :
    (i size : ℕ)
    → i < size
    → size < 2 ^ 64
    → ((i + 1 < size) × (add64 i 1 % size ≡ i + 1)) ⊎ ((i + 1 ≡ size) × (add64 i 1 % size ≡ 0))
next_cases i size lt small = elim (dec_lt (i + 1) size) [
  | yes p ↦ inl (p, rw (plain) (mod-eq_of_lt p))
  | no p ↦ inr (omega arith, rw (plain, last p) (mod_self size))
]
  where
    plain : add64 i 1 ≡ i + 1
    plain = omega arith

    last : ¬ (i + 1 < size) → i + 1 ≡ size
    last p = omega arith

module _ {r : Ring} (v : IsValid r) where
  pub is_full_lem : is_full r ≡ (if ltb (nb_full r + 1) r.size then false else true)
  unfolding is_full nb_full
  is_full_lem = ground (arith, next_cases r.end r.size v.end_in v.small)

  pub is_empty_lem : is_empty r ≡ (if ltb 0 (nb_full r) then false else true)
  unfolding is_empty nb_full
  is_empty_lem = ground arith

  pub nb_full-lt : nb_full r < r.size
  unfolding nb_full
  nb_full-lt = ground arith

  pub nb_full-put : (value : Ptr) → nb_full r + 1 < r.size → nb_full (put r value) ≡ nb_full r + 1
  unfolding nb_full put
  nb_full-put value lt = ground (arith, next_cases r.end r.size v.end_in v.small)

  pub nb_full-take_one : 0 < nb_full r → nb_full (take_one r).1 ≡ nb_full r - 1
  unfolding nb_full take_one
  nb_full-take_one lt = ground (arith, next_cases r.start r.size v.start_in v.small)

  -- `end` stands `nb_full` slots behind `start`, round the end of the array or not.
  start-add-nb_full : (r.start + nb_full r ≡ r.end + r.size) ⊎ (r.start + nb_full r ≡ r.end)
  unfolding nb_full
  start-add-nb_full = elim (dec_lt r.end r.start) [
    | yes p ↦ inl (ground arith)
    | no p ↦ inr (ground arith)
  ]

  pub end_lem : r.end ≡ (r.start + nb_full r) % r.size
  end_lem = elim start-add-nb_full [
    | inl e ↦ rw (e, add-mod_right r.end r.size) (sym (mod-eq_of_lt v.end_in))
    | inr e ↦ rw e (sym (mod-eq_of_lt v.end_in))
  ]

  -- A write appends, where there is room.
  pub contents-put :
      (value : Ptr) → nb_full r + 1 < r.size → contents (put r value) ≡ contents r ++ (value ∷ [])
  unfolding put
  contents-put value lt =
      ap (span (set r.elements r.end value) r.size r.start)
        (nb_full-put value lt ∙ add-one (nb_full r))
      ∙ (ap (λ k. span (set r.elements k value) r.size r.start (suc (nb_full r))) end_lem
          ∙ span-set_last r.elements r.size r.start (nb_full r) value (omega arith) (omega arith))

  -- A read takes the oldest item.
  pub contents-take_one : 0 < nb_full r → contents r ≡ (take_one r).0 ∷ contents (take_one r).1
  unfolding take_one
  contents-take_one lt =
      ap (span r.elements r.size r.start) full
      ∙ (span-next r.elements r.size r.start (nb_full r - 1) v.start_in v.small
          ∙ ap
              (λ n.
                get_or r.elements r.start null
                ∷ span r.elements r.size (add64 r.start 1 % r.size) n)
              (sym (nb_full-take_one lt)))
    where
      full : nb_full r ≡ suc (nb_full r - 1)
      full = omega arith
