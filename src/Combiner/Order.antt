-- ===== src/Combiner/Order.antt =====
-- lib/combiner_*.c: what the reporter gets: the results that are no ticks, and the keys of the ticks.
use odp_libtrace.Prelude.{ℕ, arith, ◌≡◌, refl, ap₂, sym, ◌∙◌, ◌<◌, List, [], ◌∷◌, ◌++◌}
use mathlib.Core.Path.{subst}
use odp_libtrace.Combiner.{ResultType, packet, tick_interval, tick_count, user, Result, Ticks}

-- Keys that climb from one bound to another, each above those before it.
pub data Climb : ℕ → List ℕ → ℕ → Type 0 where
  stay : {k : ℕ} → Climb k [] k
  climb : {k x last : ℕ} {xs : List ℕ} → k < x → Climb x xs last → Climb k (x ∷ xs) last

pub Climb-append : {k l m : ℕ} {xs ys : List ℕ} → Climb k xs l → Climb l ys m → Climb k (xs ++ ys) m
Climb-append stay b = b
Climb-append (climb h a) b = climb h (Climb-append a b)

abbrev pub mk : ℕ → ℕ → ResultType → Result
mk key value type = record { key = key; value = value; type = type }

-- The results that are no ticks.
abbrev pub results : List Result → List Result
results [] = []
results (r ∷ rs) = elim r.type [
  | tick_interval ↦ results rs
  | tick_count ↦ results rs
  | packet ↦ r ∷ results rs
  | user n ↦ r ∷ results rs
]

abbrev pub interval_keys : List Result → List ℕ
interval_keys [] = []
interval_keys (r ∷ rs) = elim r.type [
  | tick_interval ↦ r.key ∷ interval_keys rs
  | _ ↦ interval_keys rs
]

abbrev pub count_keys : List Result → List ℕ
count_keys [] = []
count_keys (r ∷ rs) = elim r.type [ tick_count ↦ r.key ∷ count_keys rs | _ ↦ count_keys rs ]

pub results-append : (xs ys : List Result) → results (xs ++ ys) ≡ results xs ++ results ys
results-append [] ys = refl
results-append (r ∷ rs) ys = ground (arith, results-append rs ys)

pub interval_keys-append :
    (xs ys : List Result) → interval_keys (xs ++ ys) ≡ interval_keys xs ++ interval_keys ys
interval_keys-append [] ys = refl
interval_keys-append (r ∷ rs) ys = ground (arith, interval_keys-append rs ys)

pub count_keys-append :
    (xs ys : List Result) → count_keys (xs ++ ys) ≡ count_keys xs ++ count_keys ys
count_keys-append [] ys = refl
count_keys-append (r ∷ rs) ys = ground (arith, count_keys-append rs ys)

-- The queues, one behind the other.
abbrev pub flatten : List (List Result) → List Result
flatten [] = []
flatten (queue ∷ queues) = queue ++ flatten queues

-- What a call does to a run of results, in the terms of the reporter: the results that are no ticks
-- are all sent, in order, and the ticks that are sent climb from the last seen before to the last
-- seen after it.
pub record Passes (c : Ticks) (queued sent : List Result) (c' : Ticks) : Type 0 where
  pub kept : results sent ≡ results queued
  pub intervals : Climb c.last_ts_tick (interval_keys sent) c'.last_ts_tick
  pub counts : Climb c.last_count_tick (count_keys sent) c'.last_count_tick

pub Passes-none : {c : Ticks} → Passes c [] [] c
Passes-none = record { kept = refl; intervals = stay; counts = stay }

subst-keys : {k l : ℕ} {xs ys : List ℕ} → xs ≡ ys → Climb k ys l → Climb k xs l
subst-keys {k} {l} e a = subst (λ zs. Climb k zs l) (sym e) a

pub Passes-append :
    {c c' c'' : Ticks} {q q' s s' : List Result}
    → Passes c q s c'
    → Passes c' q' s' c''
    → Passes c (q ++ q') (s ++ s') c''
Passes-append {q = q} {q' = q'} {s = s} {s' = s'} a b = record {
  kept = results-append s s' ∙ ap₂ (λ x y. x ++ y) a.kept b.kept ∙ sym (results-append q q');
  intervals = subst-keys (interval_keys-append s s') (Climb-append a.intervals b.intervals);
  counts = subst-keys (count_keys-append s s') (Climb-append a.counts b.counts);
}
