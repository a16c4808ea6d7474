-- ===== src/Combiner/Unordered/Sending.antt =====
-- lib/combiner_unordered.c: which of the queued results are to be sent, described apart from the loop.
use odp_libtrace.Prelude.{
  ℕ, arith, ◌≡◌, refl, ap, ap₂, sym, ◌∙◌, max, leb, if◌then◌else◌, Bool-cases, inl, inr, List, [],
  ◌∷◌, ◌++◌,
}
use odp_libtrace.Combiner.{Result, Ticks}
use odp_libtrace.Combiner.Order.{
  results, interval_keys, count_keys, results-append, interval_keys-append, count_keys-append,
}

-- The keys that are above a bound and above all keys in front of them, and the bound behind them.
abbrev pub new_keys : ℕ → List ℕ → List ℕ
new_keys last [] = []
new_keys last (k ∷ ks) = if leb k last then new_keys last ks else k ∷ new_keys k ks

abbrev pub highest : ℕ → List ℕ → ℕ
highest last [] = last
highest last (k ∷ ks) = highest (max last k) ks

-- A part of a sequence, in its order.
pub data Part : List Result → List Result → Type 0 where
  nothing : Part [] []
  skipped : {r : Result} {xs ys : List Result} → Part xs ys → Part xs (r ∷ ys)
  taken : {r : Result} {xs ys : List Result} → Part xs ys → Part (r ∷ xs) (r ∷ ys)

pub Part-append : {ws xs ys zs : List Result} → Part ws xs → Part ys zs → Part (ws ++ ys) (xs ++ zs)
Part-append nothing q = q
Part-append (skipped p) q = skipped (Part-append p q)
Part-append (taken p) q = taken (Part-append p q)

new_keys-append :
    (last : ℕ) (xs ys : List ℕ)
    → new_keys last (xs ++ ys) ≡ new_keys last xs ++ new_keys (highest last xs) ys
new_keys-append last [] ys = refl
new_keys-append last (x ∷ xs) ys = elim (Bool-cases (leb x last)) [
  | inl old ↦
      let same : max last x ≡ last = ground arith in rw (old, same) (new_keys-append last xs ys)
  | inr new ↦
      let same : max last x ≡ x = ground arith in
      rw (new, same) (ap (λ l. x ∷ l) (new_keys-append x xs ys))
]

highest-append :
    (last : ℕ) (xs ys : List ℕ) → highest last (xs ++ ys) ≡ highest (highest last xs) ys
highest-append last [] ys = refl
highest-append last (x ∷ xs) ys = highest-append (max last x) xs ys

-- What is to be sent of a run of results: all that are no ticks, and of the ticks of either kind
-- those whose key is above that of every tick of the kind before it, as they stand in the run.
pub record Sends (c : Ticks) (queued sent : List Result) (c' : Ticks) : Type 0 where
  pub part : Part sent queued
  pub kept : results sent ≡ results queued
  pub intervals : interval_keys sent ≡ new_keys c.last_ts_tick (interval_keys queued)
  pub counts : count_keys sent ≡ new_keys c.last_count_tick (count_keys queued)
  pub last_interval : c'.last_ts_tick ≡ highest c.last_ts_tick (interval_keys queued)
  pub last_count : c'.last_count_tick ≡ highest c.last_count_tick (count_keys queued)

pub Sends-none : {c : Ticks} → Sends c [] [] c
Sends-none = record {
  part = nothing;
  kept = refl;
  intervals = refl;
  counts = refl;
  last_interval = refl;
  last_count = refl;
}

pub Sends-append :
    {c c' c'' : Ticks} {q q' s s' : List Result}
    → Sends c q s c'
    → Sends c' q' s' c''
    → Sends c (q ++ q') (s ++ s') c''
Sends-append {c} {c' = c'} {q = q} {q' = q'} {s = s} {s' = s'} a b = record {
  part = Part-append a.part b.part;
  kept = results-append s s' ∙ ap₂ (λ x y. x ++ y) a.kept b.kept ∙ sym (results-append q q');
  intervals = rw (
    interval_keys-append s s',
    interval_keys-append q q',
    a.intervals,
    b.intervals,
    a.last_interval,
    new_keys-append c.last_ts_tick (interval_keys q) (interval_keys q'),
  );
  counts = rw (
    count_keys-append s s',
    count_keys-append q q',
    a.counts,
    b.counts,
    a.last_count,
    new_keys-append c.last_count_tick (count_keys q) (count_keys q'),
  );
  last_interval = rw (
    interval_keys-append q q',
    b.last_interval,
    a.last_interval,
    highest-append c.last_ts_tick (interval_keys q) (interval_keys q'),
  );
  last_count = rw (
    count_keys-append q q',
    b.last_count,
    a.last_count,
    highest-append c.last_count_tick (count_keys q) (count_keys q'),
  );
}
