-- ===== src/Combiner/Sorted/Tests.antt =====
-- The sorted combiner with an insertion sort for the libc's.
use odp_libtrace.Prelude.{
  ℕ, suc, ◌≡◌, refl, ap, ◌∙◌, arith, Bool, List, [], ◌∷◌, map, Option, none, some, ◌==◌,
  if◌then◌else◌, length, replicate,
}
use odp_libtrace.DataStruct.Vector.{Vector}
use odp_libtrace.Combiner.{Result, packet}
use odp_libtrace.Combiner.Order.{mk, flatten}
use odp_libtrace.Combiner.Ordered.Merge.Order.{count}
use odp_libtrace.Combiner.Sorted.{init_combiner, compare_result, read_final}
use odp_libtrace.Combiner.Sorted.Final.{InOrder, Sorts, Sends}
use odp_libtrace.Combiner.Sorted.Publish.{publish_all, by_thread, publish_all-Sends}

insert : (Result → Result → ℕ) → Result → List Result → List Result
insert cmp r [] = r ∷ []
insert cmp r (x ∷ xs) = let rest = insert cmp r xs in if cmp r x == 1 then x ∷ rest else r ∷ x ∷ xs

insertion_sort : (Result → Result → ℕ) → List Result → List Result
insertion_sort cmp [] = []
insertion_sort cmp (x ∷ xs) = insert cmp x (insertion_sort cmp xs)

written : List (Option Result) → Option (List Result)
written [] = some []
written (none ∷ os) = none
written (some r ∷ os) = elim (written os) [ none ↦ none | some rs ↦ some (r ∷ rs) ]

-- Where an element was never written, nothing is moved.
qsort : (Result → Result → ℕ) → List (Option Result) → List (Option Result)
qsort cmp os = elim (written os) [ none ↦ os | some rs ↦ map some (insertion_sort cmp rs) ]

written-map : (rs : List Result) → written (map some rs) ≡ some rs
unfolding written
written-map [] = refl
written-map (r ∷ rs) = ground (arith, written-map rs)

qsort-map :
    (cmp : Result → Result → ℕ) (rs : List Result)
    → qsort cmp (map some rs) ≡ map some (insertion_sort cmp rs)
unfolding qsort
qsort-map cmp rs = ground (arith, written-map rs)

length-insert :
    (cmp : Result → Result → ℕ) (r : Result) (xs : List Result)
    → length (insert cmp r xs) ≡ suc (length xs)
unfolding insert
length-insert cmp r [] = refl
length-insert cmp r (x ∷ xs) = ground (arith, length-insert cmp r xs)

length-insertion_sort :
    (cmp : Result → Result → ℕ) (xs : List Result) → length (insertion_sort cmp xs) ≡ length xs
unfolding insertion_sort
length-insertion_sort cmp [] = refl
length-insertion_sort cmp (x ∷ xs) =
    length-insert cmp x (insertion_sort cmp xs) ∙ ap suc (length-insertion_sort cmp xs)

count-insert :
    (cmp : Result → Result → ℕ) (p : Result → Bool) (r : Result) (xs : List Result)
    → count p (insert cmp r xs) ≡ count p (r ∷ xs)
unfolding insert count
count-insert cmp p r [] = refl
count-insert cmp p r (x ∷ xs) = ground (arith, count-insert cmp p r xs)

count-insertion_sort :
    (cmp : Result → Result → ℕ) (p : Result → Bool) (xs : List Result)
    → count p (insertion_sort cmp xs) ≡ count p xs
unfolding insertion_sort count
count-insertion_sort cmp p [] = refl
count-insertion_sort cmp p (x ∷ xs) =
    count-insert cmp p x (insertion_sort cmp xs) ∙ omega (arith, count-insertion_sort cmp p xs)

insert-InOrder : (r : Result) (xs : List Result) → InOrder xs → InOrder (insert compare_result r xs)
unfolding insert compare_result
insert-InOrder r [] h = tt
insert-InOrder r (x ∷ []) h = ground arith
insert-InOrder r (x ∷ y ∷ xs) h = ground (arith, insert-InOrder r (y ∷ xs) h.1)

insertion_sort-InOrder : (xs : List Result) → InOrder (insertion_sort compare_result xs)
unfolding insertion_sort
insertion_sort-InOrder [] = tt
insertion_sort-InOrder (x ∷ xs) =
    insert-InOrder x (insertion_sort compare_result xs) (insertion_sort-InOrder xs)

qsort-Sorts : Sorts (qsort compare_result)
qsort-Sorts = record {
  sorted = insertion_sort compare_result;
  agrees = qsort-map compare_result;
  as_many = length-insertion_sort compare_result;
  same = λ rs p. count-insertion_sort compare_result p rs;
  in_order = insertion_sort-InOrder;
}

-- Two threads: the first publishes 24 results, the second one with a smaller key.
abbrev publishes : List (ℕ × Result)
publishes = (1, mk 3 30 packet) ∷ replicate 24 (0, mk 5 50 packet)

publish_all-Sends_example :
    (queues : List (Vector Result)) × (publish_all (init_combiner 2) publishes ≡ some queues)
    × Sends (flatten (by_thread 2 publishes)) (read_final qsort queues)
publish_all-Sends_example =
    publish_all-Sends qsort 2 publishes qsort-Sorts (omega arith) (omega arith) (omega arith)
      (omega arith)
