-- ===== src/DataStruct/Vector/Sort.antt =====
-- lib/data-struct/vector.c, libtrace_vector_qsort: which elements are sorted.
use odp_libtrace.Prelude.{
  ℕ, zero, suc, ◌≤◌, ◌≡◌, refl, ap, sym, ◌∙◌, arith, List, [], ◌∷◌, ◌++◌, Option, take, drop,
  length, length-append, length-drop,
}
use odp_libtrace.DataStruct.Vector.{Vector, vector_qsort}
use odp_libtrace.DataStruct.Vector.Lists.{contents, IsValid}

module _ {A : Type 0} where
  take-append-drop_lem :
      (n k : ℕ) (xs ys : List (Option A))
      → length ys ≡ n
      → n ≤ k
      → n ≤ length xs
      → take k (ys ++ drop n xs) ≡ ys ++ drop n (take k xs)
  take-append-drop_lem zero k xs [] e h g = refl
  take-append-drop_lem zero k xs (y ∷ ys) e h g = absurd (omega arith)
  take-append-drop_lem (suc n) k xs [] e h g = absurd (omega arith)
  take-append-drop_lem (suc n) zero xs (y ∷ ys) e h g = absurd (omega arith)
  take-append-drop_lem (suc n) (suc k) [] (y ∷ ys) e h g = absurd (omega arith)
  take-append-drop_lem (suc n) (suc k) (x ∷ xs) (y ∷ ys) e h g =
      ap (λ l. y ∷ l) (take-append-drop_lem n k xs ys (omega arith) (omega arith) (omega arith))

  take-take : (n k : ℕ) (xs : List (Option A)) → n ≤ k → take n (take k xs) ≡ take n xs
  take-take zero k xs h = refl
  take-take (suc n) zero xs h = absurd (omega arith)
  take-take (suc n) (suc k) [] h = refl
  take-take (suc n) (suc k) (x ∷ xs) h = ap (λ l. x ∷ l) (take-take n k xs (omega arith))

  -- The elements in use after a sort that keeps the number of the elements: the first `element_size`
  -- of them sorted, and the others.
  pub contents-vector_qsort :
      (sort : List (Option A) → List (Option A)) (n : ℕ) (v : Vector A)
      → length (sort (take n (contents v))) ≡ n
      → IsValid v
      → n ≤ v.size
      → contents (vector_qsort sort n v) ≡ sort (take n (contents v)) ++ drop n (contents v)
  unfolding vector_qsort contents
  contents-vector_qsort sort n v same ok le =
      let whole = take-take n v.size v.elements le in
      ap (λ l. take v.size (sort l ++ drop n v.elements)) (sym whole)
      ∙ take-append-drop_lem n v.size v.elements (sort (take n (take v.size v.elements))) same le
          (omega (arith, ok.fits, ok.allocated))

  pub vector_qsort-IsValid :
      (sort : List (Option A) → List (Option A)) (n : ℕ) (v : Vector A)
      → length (sort (take n (contents v))) ≡ n
      → IsValid v
      → n ≤ v.size
      → IsValid (vector_qsort sort n v)
  unfolding vector_qsort contents
  vector_qsort-IsValid sort n v same ok le = record {
    room = ok.room;
    fits = ok.fits;
    small = ok.small;
    allocated =
        length-append (sort (take n v.elements)) (drop n v.elements)
        ∙ omega (
          arith,
          ap (λ l. length (sort l)) (take-take n v.size v.elements le),
          same,
          length-drop n v.elements,
          ok.allocated,
          ok.fits,
        );
  }
