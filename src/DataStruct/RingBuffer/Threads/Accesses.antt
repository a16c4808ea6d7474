-- ===== src/DataStruct/RingBuffer/Threads/Accesses.antt =====
-- What each access of the writer and the reader does to the contents of the ring.
use native.Mathlib.Numerals.{add-one}
use odp_libtrace.Prelude.{
  ◌+◌, ◌-◌, ◌<◌, ◌≡◌, ◌≢◌, refl, sym, ap, ◌∙◌, arith, [], ◌∷◌, ◌++◌, get_or, set, length-set,
  get_or-set_self, get_or-set_ne, Ptr, null,
}
use odp_libtrace.Prelude.Circular.{span, span-set_behind, span-suc}
use odp_libtrace.DataStruct.RingBuffer.State.{Ring}
use odp_libtrace.DataStruct.RingBuffer.{put, take_one, nb_full}
use odp_libtrace.DataStruct.RingBuffer.Inv.{IsValid, put-IsValid, take_one-IsValid}
use odp_libtrace.DataStruct.RingBuffer.Refine.{
  contents, nb_full-lt, nb_full-put, nb_full-take_one, contents-take_one, end_lem,
}
use odp_libtrace.DataStruct.RingBuffer.Threads.{store, advance_end, advance_start}

module _ {r : Ring} (v : IsValid r) where
  pub store-IsValid : (value : Ptr) → IsValid (store r value)
  unfolding store
  store-IsValid value = ground (arith, length-set r.elements r.end value)

  pub nb_full-store : (value : Ptr) → nb_full (store r value) ≡ nb_full r
  unfolding store nb_full
  nb_full-store value = refl

  -- The slot at `end` is behind the contents.
  pub contents-store : (value : Ptr) → contents (store r value) ≡ contents r
  unfolding store nb_full
  contents-store value =
      ap (λ k. span (set r.elements k value) r.size r.start (nb_full r)) (end_lem v)
      ∙ span-set_behind r.elements r.size r.start (nb_full r) (nb_full r) value (omega arith)
          (nb_full-lt v)

  start_ne_end : 0 < nb_full r → r.end ≢ r.start
  unfolding nb_full
  start_ne_end lt e = ground arith

  pub get_or-store_end :
      (value : Ptr) → get_or (store r value).elements (store r value).end null ≡ value
  unfolding store
  get_or-store_end value = get_or-set_self r.elements r.end value null (omega arith)

  pub get_or-store_start :
      (value : Ptr)
      → 0 < nb_full r
      → get_or (store r value).elements (store r value).start null ≡ get_or r.elements r.start null
  unfolding store
  get_or-store_start value lt = get_or-set_ne r.elements value null (start_ne_end lt)

  pub advance_end-IsValid : IsValid (advance_end r)
  unfolding advance_end put
  advance_end-IsValid = ground (arith, put-IsValid null v)

  pub nb_full-advance_end : nb_full r + 1 < r.size → nb_full (advance_end r) ≡ nb_full r + 1
  unfolding advance_end put nb_full
  nb_full-advance_end lt = nb_full-put v null lt

  pub contents-advance_end :
      {value : Ptr}
      → nb_full r + 1 < r.size
      → get_or r.elements r.end null ≡ value
      → contents (advance_end r) ≡ contents r ++ (value ∷ [])
  unfolding advance_end
  contents-advance_end lt e =
      ap (span r.elements r.size r.start) (nb_full-advance_end lt ∙ add-one (nb_full r))
      ∙ (span-suc r.elements r.size r.start (nb_full r)
          ∙ ap (λ x. contents r ++ (x ∷ []))
              (ap (λ k. get_or r.elements k null) (sym (end_lem v)) ∙ e))

  pub advance_start-IsValid : IsValid (advance_start r)
  unfolding advance_start take_one
  advance_start-IsValid = take_one-IsValid v

  pub nb_full-advance_start : 0 < nb_full r → nb_full (advance_start r) ≡ nb_full r - 1
  unfolding advance_start take_one
  nb_full-advance_start lt = nb_full-take_one v lt

  pub contents-advance_start :
      0 < nb_full r → contents r ≡ get_or r.elements r.start null ∷ contents (advance_start r)
  unfolding advance_start take_one
  contents-advance_start lt = contents-take_one v lt
