-- ===== src/Combiner/Ordered/Merge/Order.antt =====
-- Results in the order of their keys, and how many of them there are.
use odp_libtrace.Prelude.{
  ℕ, ◌+◌, ◌≤◌, ◌≡◌, refl, ap, sym, arith, Bool, List, [], ◌∷◌, ◌++◌, if◌then◌else◌, length,
}
use mathlib.Core.Path.{subst}
use odp_libtrace.Combiner.{Result}
use odp_libtrace.Combiner.Order.{results}

-- The keys rise from `k` on, or stay.
abbrev pub Ascending : ℕ → List Result → Type 0
Ascending k [] = Unit
Ascending k (r ∷ rs) = (k ≤ r.key) × Ascending r.key rs

-- The same up to a last bound.
pub data Ascends : ℕ → List Result → ℕ → Type 0 where
  stay : {k : ℕ} → Ascends k [] k
  rise :
      {k last : ℕ} {r : Result} {rs : List Result}
      → k ≤ r.key
      → Ascends r.key rs last
      → Ascends k (r ∷ rs) last

pub Ascending-lower : (j k : ℕ) (rs : List Result) → j ≤ k → Ascending k rs → Ascending j rs
Ascending-lower j k [] le a = tt
Ascending-lower j k (r ∷ rs) le (h, a) = (omega arith, a)

-- How many results a client's test accepts.
unfoldable pub count : (Result → Bool) → List Result → ℕ
count p [] = 0
count p (r ∷ rs) = (if p r then 1 else 0) + count p rs

pub count-append :
    (p : Result → Bool) (xs ys : List Result) → count p (xs ++ ys) ≡ count p xs + count p ys
unfolding count
count-append p [] ys = omega arith
count-append p (r ∷ rs) ys = omega (arith, count-append p rs ys)

pub length-results : (rs : List Result) → length (results rs) ≤ length rs
length-results [] = omega arith
length-results (r ∷ rs) = ground (arith, length-results rs)

-- All queues: their results are in order, and those a test accepts are counted together.
abbrev pub AllAscending : ℕ → List (List Result) → Type 0
AllAscending k [] = Unit
AllAscending k (v ∷ vs) = Ascending k (results v) × AllAscending k vs

abbrev pub count_all : (Result → Bool) → List (List Result) → ℕ
count_all p [] = 0
count_all p (v ∷ vs) = count p (results v) + count_all p vs

-- The same results in each queue.
abbrev pub Alike : List (List Result) → List (List Result) → Type 0
Alike [] [] = Unit
Alike [] (w ∷ ws) = ⊥
Alike (v ∷ vs) [] = ⊥
Alike (v ∷ vs) (w ∷ ws) = (results v ≡ results w) × Alike vs ws

pub Alike-AllAscending :
    (k : ℕ) (vs ws : List (List Result)) → Alike vs ws → AllAscending k ws → AllAscending k vs
Alike-AllAscending k [] [] e a = tt
Alike-AllAscending k [] (w ∷ ws) e a = elim e [ ]
Alike-AllAscending k (v ∷ vs) [] e a = elim e [ ]
Alike-AllAscending k (v ∷ vs) (w ∷ ws) (e, es) (a, as') =
    (subst (Ascending k) (sym e) a, Alike-AllAscending k vs ws es as')

pub Alike-count_all :
    (p : Result → Bool) (vs ws : List (List Result)) → Alike vs ws → count_all p vs ≡ count_all p ws
Alike-count_all p [] [] e = refl
Alike-count_all p [] (w ∷ ws) e = elim e [ ]
Alike-count_all p (v ∷ vs) [] e = elim e [ ]
Alike-count_all p (v ∷ vs) (w ∷ ws) (e, es) =
    omega (arith, ap (count p) e, Alike-count_all p vs ws es)
