-- ===== src/DataStruct/Vector/Cells.antt =====
-- lib/data-struct/vector.c: the blocks of cells behind a vector, and the loops over them.
use odp_libtrace.Prelude.{
  ℕ, zero, suc, ◌+◌, ◌-◌, ◌≤◌, ◌<◌, ◌≡◌, refl, ap, sym, ◌∙◌, arith, List, [], ◌∷◌, ◌++◌, Option,
  none, some, take, drop, length, set, get_or, get_elem?, replicate, length-append, length-set,
  length-take, length-replicate,
}
use mathlib.Core.List.{append-nil, append_assoc}
use odp_libtrace.DataStruct.Vector.{realloc, store, shift_down}

module _ {A : Type 0} where
  pub take-set :
      (n : ℕ) (xs : List (Option A)) (d : Option A)
      → n < length xs
      → take (suc n) (set xs n d) ≡ take n xs ++ (d ∷ [])
  take-set n [] d h = absurd (omega arith)
  take-set zero (x ∷ xs) d h = refl
  take-set (suc n) (x ∷ xs) d h = ap (λ l. x ∷ l) (take-set n xs d (omega arith))

  pub take-append :
      (n : ℕ) (xs ys : List (Option A)) → n ≤ length xs → take n (xs ++ ys) ≡ take n xs
  take-append zero xs ys h = refl
  take-append (suc n) [] ys h = absurd (omega arith)
  take-append (suc n) (x ∷ xs) ys h = ap (λ l. x ∷ l) (take-append n xs ys (omega arith))

  pub take-length : (n : ℕ) (xs : List (Option A)) → length xs ≤ n → take n xs ≡ xs
  take-length zero [] h = refl
  take-length zero (x ∷ xs) h = absurd (omega arith)
  take-length (suc n) [] h = refl
  take-length (suc n) (x ∷ xs) h = ap (λ l. x ∷ l) (take-length n xs (omega arith))

  -- A block that grows keeps its cells.
  pub take-realloc :
      (n m : ℕ) (xs : List (Option A))
      → n ≤ length xs
      → length xs ≤ m
      → take n (realloc xs m) ≡ take n xs
  unfolding realloc
  take-realloc n m xs h g =
      ap (λ l. take n (l ++ replicate (m - length xs) none)) (take-length m xs g)
      ∙ take-append n xs _ h

  pub length-realloc : (m : ℕ) (xs : List (Option A)) → length (realloc xs m) ≡ m
  unfolding realloc
  length-realloc m xs = omega (
    arith,
    length-append (take m xs) (replicate (m - length xs) none),
    length-take m xs,
    length-replicate {A = Option A} (m - length xs) none,
  )

  -- The loop of remove_front moves every cell down by one.
  pub shift_down-tail :
      (n i : ℕ) (x : Option A) (xs : List (Option A))
      → shift_down n (suc i) (x ∷ xs) ≡ x ∷ shift_down n i xs
  unfolding shift_down
  shift_down-tail zero i x xs = refl
  shift_down-tail (suc n) i x xs = shift_down-tail n (suc i) x (set xs i (get_or xs (suc i) none))

  pub take-shift_down :
      (n : ℕ) (x : Option A) (xs : List (Option A))
      → n ≤ length xs
      → take n (shift_down n 0 (x ∷ xs)) ≡ take n xs
  unfolding shift_down
  take-shift_down zero x xs h = refl
  take-shift_down (suc n) x [] h = absurd (omega arith)
  take-shift_down (suc n) x (y ∷ ys) h =
      ap (take (suc n)) (shift_down-tail n 0 y (y ∷ ys))
      ∙ ap (λ l. y ∷ l) (take-shift_down n y ys (omega arith))

  pub take-shift_down-suc :
      (n : ℕ) (xs : List (Option A))
      → n < length xs
      → take n (shift_down n 0 xs) ≡ drop 1 (take (suc n) xs)
  take-shift_down-suc n [] h = absurd (omega arith)
  take-shift_down-suc n (x ∷ xs) h = take-shift_down n x xs (omega arith)

  pub length-shift_down : (n i : ℕ) (xs : List (Option A)) → length (shift_down n i xs) ≡ length xs
  unfolding shift_down
  length-shift_down zero i xs = refl
  length-shift_down (suc n) i xs =
      length-shift_down n (suc i) (set xs i (get_or xs (suc i) none))
      ∙ length-set xs i (get_or xs (suc i) none)

  pub take-get_or :
      (n i : ℕ) (xs : List (Option A))
      → i < n
      → n ≤ length xs
      → get_elem? (take n xs) i ≡ some (get_or xs i none)
  take-get_or zero i xs h g = absurd (omega arith)
  take-get_or (suc n) i [] h g = absurd (omega arith)
  take-get_or (suc n) zero (x ∷ xs) h g = refl
  take-get_or (suc n) (suc i) (x ∷ xs) h g = take-get_or n i xs (omega arith) (omega arith)

  pub get_elem?-past : (n i : ℕ) (xs : List (Option A)) → n ≤ i → get_elem? (take n xs) i ≡ none
  get_elem?-past zero i xs h = refl
  get_elem?-past (suc n) i [] h = refl
  get_elem?-past (suc n) zero (x ∷ xs) h = absurd (omega arith)
  get_elem?-past (suc n) (suc i) (x ∷ xs) h = get_elem?-past n i xs (omega arith)

  pub take-store :
      (n : ℕ) (xs ds : List (Option A))
      → n + length ds ≤ length xs
      → take (n + length ds) (store xs n ds) ≡ take n xs ++ ds
  unfolding store
  take-store n xs [] h = ap (λ k. take k xs) (omega arith) ∙ sym (append-nil (take n xs))
  take-store n xs (d ∷ ds) h =
      ap (λ k. take k (store (set xs n d) (suc n) ds)) (omega arith)
      ∙ take-store (suc n) (set xs n d) ds (omega (arith, length-set xs n d))
      ∙ ap (λ l. l ++ ds) (take-set n xs d (omega arith))
      ∙ append_assoc (take n xs) (d ∷ []) ds

  pub length-store : (n : ℕ) (xs ds : List (Option A)) → length (store xs n ds) ≡ length xs
  unfolding store
  length-store n xs [] = refl
  length-store n xs (d ∷ ds) = length-store (suc n) (set xs n d) ds ∙ length-set xs n d
