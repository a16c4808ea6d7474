-- ===== src/DataStruct/Vector/Lists.antt =====
-- lib/data-struct/vector.c: each call against the list of the elements in use.
use odp_libtrace.Prelude.{
  ℕ, zero, suc, ◌+◌, ◌-◌, ◌*◌, ◌%◌, ◌^◌, if◌then◌else◌, ◌==◌, length-take, ◌⊎◌, inl, inr, ◌≤◌, ◌<◌,
  ◌≡◌, refl, ap, sym, ◌∙◌, arith, List, [], ◌∷◌, ◌++◌, Option, some, take, drop, length, get_elem?,
  length-set, dec_lt,
}
use odp_libtrace.DataStruct.Vector.{
  Vector, realloc, store, push_back, get, remove_front, grow, join, append,
}
use odp_libtrace.DataStruct.Vector.Cells.{
  take-set, take-realloc, length-realloc, length-shift_down, take-get_or, get_elem?-past,
  take-store, length-store, take-shift_down-suc,
}
use mathlib.Core.List.{append-nil}
use odp_libtrace.DataStruct.Vector.Growth.{grow-Grown}

module _ {A : Type 0} where
  -- The elements in use.
  unfoldable pub contents : Vector A → List (Option A)
  contents v = take v.size v.elements

  pub record IsValid (v : Vector A) : Type 0 where
    pub room : 0 < v.max_size
    pub fits : v.size ≤ v.max_size
    pub small : v.max_size < 2 ^ 64
    pub allocated : length v.elements ≡ v.max_size

  -- get returns the element at that place and fails past the end.
  pub get_lem : (v : Vector A) (i : ℕ) → IsValid v → get v i ≡ get_elem? (contents v) i
  unfolding get contents
  get_lem v i ok = ground (
    arith,
    take-get_or v.size i v.elements,
    get_elem?-past v.size i v.elements,
    ok.fits,
    ok.allocated,
  )

  -- push_back adds the element behind the others, and keeps a vector of fewer than 2^63 elements
  -- valid.
  pub push_back_lem :
      (v : Vector A) (d : A)
      → IsValid v
      → v.size < 2 ^ 63
      → IsValid (push_back v d) × (contents (push_back v d) ≡ contents v ++ (some d ∷ []))
  unfolding push_back contents
  push_back_lem v d ok small = elim (dec_lt v.size v.max_size) [
    | yes l ↦ ground (
      arith,
      length-set v.elements v.size (some d),
      take-set v.size v.elements (some d),
      ok.fits,
      ok.allocated,
      ok.room,
      ok.small,
    )
    | no n ↦
        let block = realloc v.elements (v.max_size * 2) in
        let wide : v.max_size * 2 % 2 ^ 64 ≡ v.max_size * 2 = omega (arith, ok.fits) in
        ground (
          arith,
          wide,
          length-set block v.size (some d),
          length-realloc (v.max_size * 2) v.elements,
          take-set v.size block (some d),
          take-realloc v.size (v.max_size * 2) v.elements,
          ok.fits,
          ok.allocated,
          ok.room,
          ok.small,
        )
  ]

  -- remove_front drops the first element.
  pub remove_front_lem :
      (v : Vector A)
      → IsValid v
      → IsValid (remove_front v).1 × (contents (remove_front v).1 ≡ drop 1 (contents v))
  unfolding remove_front contents
  remove_front_lem v ok = ground (
    arith,
    length-shift_down (v.size - 1) 0 v.elements,
    take-shift_down-suc (v.size - 1) v.elements,
    ok.fits,
    ok.allocated,
    ok.room,
    ok.small,
    empty_or_suc,
  )
    where
      at_zero : (n : ℕ) → n ≡ 0 → take n v.elements ≡ []
      at_zero zero e = refl
      at_zero (suc n) e = absurd (omega arith)

      empty_or_suc :
          (take v.size v.elements ≡ [])
          ⊎ (take v.size v.elements ≡ take (suc (v.size - 1)) v.elements)
      empty_or_suc = elim (dec_lt 0 v.size) [
        | yes l ↦
            let e : v.size ≡ suc (v.size - 1) = omega arith in inr (ap (λ k. take k v.elements) e)
        | no n ↦ inl (at_zero v.size (omega arith))
      ]

  -- The branch of append that copies.
  record Joined (dest src : Vector A) (out : Option (Vector A × Vector A)) : Type 0 where
    pub first : Vector A
    pub second : Vector A
    pub returns : out ≡ some (first, second)
    pub moved : contents first ≡ contents dest ++ contents src
    pub emptied : contents second ≡ []
    pub first_valid : IsValid first
    pub second_valid : IsValid second

  joined :
      (dest src : Vector A) (m : ℕ)
      → IsValid dest
      → IsValid src
      → dest.size + src.size ≤ m
      → dest.max_size ≤ m
      → m < 2 ^ 64
      → Joined dest src (join dest src (some m))
  unfolding join contents
  joined dest src m okd oks fits larger word =
      let cells = if dest.max_size == m then dest.elements else realloc dest.elements m in
      let more = take src.size src.elements in
      let measured : length cells ≡ m =
        ground (arith, length-realloc m dest.elements, okd.allocated) in
      let kept : take dest.size cells ≡ take dest.size dest.elements =
        ground (arith, take-realloc dest.size m dest.elements, okd.allocated, okd.fits) in
      let many : length more ≡ src.size =
        omega (arith, length-take src.size src.elements, oks.allocated, oks.fits) in
      record {
        first = record {
          max_size = m;
          size = (dest.size + src.size) % 2 ^ 64;
          elements = store cells dest.size more;
        };
        second = record src { size = 0 };
        returns = refl;
        moved =
            ap (λ k. take k (store cells dest.size more)) (omega (arith, many))
            ∙ take-store dest.size cells more (omega (arith, many, measured))
            ∙ ap (λ l. l ++ more) kept;
        emptied = refl;
        first_valid = record {
          room = omega (arith, okd.room);
          fits = omega arith;
          small = word;
          allocated = length-store dest.size cells more ∙ measured;
        };
        second_valid = record {
          room = oks.room;
          fits = omega arith;
          small = oks.small;
          allocated = oks.allocated;
        };
      }

  take-zero : (n : ℕ) (xs : List (Option A)) → n ≡ 0 → take n xs ≡ []
  take-zero zero xs e = refl
  take-zero (suc n) xs e = absurd (omega arith)

  appended :
      (dest src : Vector A)
      → IsValid dest
      → IsValid src
      → dest.size + src.size ≤ 2 ^ 63
      → Joined dest src (append dest src)
  unfolding append contents
  appended dest src okd oks short = elim (dec_lt 0 src.size) [
    | no n ↦
        let e = take-zero src.size src.elements (omega arith) in
        record {
          first = dest;
          second = src;
          returns = ground arith;
          moved = sym (ap (λ l. contents dest ++ l) e ∙ append-nil (contents dest));
          emptied = e;
          first_valid = okd;
          second_valid = oks;
        }
    | yes l ↦ elim (dec_lt 0 dest.size) [
      | no n ↦
          let e = take-zero dest.size dest.elements (omega arith) in
          record {
            first = src;
            second = dest;
            returns = ground arith;
            moved = sym (ap (λ l. l ++ contents src) e);
            emptied = e;
            first_valid = oks;
            second_valid = okd;
          }
      | yes g ↦
          let w =
            grow-Grown 63 dest.max_size dest.size src.size okd.fits short okd.small
              (omega (arith, okd.room)) in
          let j = joined dest src w.grown okd oks w.room w.larger w.word in
          let plain : append dest src ≡ join dest src (grow 64 dest.max_size dest.size src.size) =
            ground arith in
          record {
            first = j.first;
            second = j.second;
            returns = plain ∙ ap (join dest src) w.returns ∙ j.returns;
            moved = j.moved;
            emptied = j.emptied;
            first_valid = j.first_valid;
            second_valid = j.second_valid;
          }
    ]
  ]

  -- append of valid vectors of at most 2^63 elements together ends, moves the elements of the second
  -- behind those of the first, in order, and leaves the second empty.
  pub append_lem :
      (dest src : Vector A)
      → IsValid dest
      → IsValid src
      → dest.size + src.size ≤ 2 ^ 63
      → (dest' : Vector A) × (src' : Vector A) × (append dest src ≡ some (dest', src'))
        × (contents dest' ≡ contents dest ++ contents src)
        × (contents src' ≡ [])
        × IsValid dest'
        × IsValid src'
  append_lem dest src okd oks short =
      let j = appended dest src okd oks short in
      (j.first, j.second, j.returns, j.moved, j.emptied, j.first_valid, j.second_valid)
