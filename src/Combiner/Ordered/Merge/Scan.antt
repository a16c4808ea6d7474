-- ===== src/Combiner/Ordered/Merge/Scan.antt =====
-- lib/combiner_ordered.c, read_internal: what the first loop finds.
use odp_libtrace.Prelude.{
  ℕ, suc, ◌≤◌, ◌<◌, ◌≡◌, ◌≢◌, refl, ap, ap₂, sym, ◌∙◌, arith, true, false, List, [], ◌∷◌, ◌++◌,
  Option, none, some, length, length-append, ◌⊎◌, inl, inr, dec_lt, ℕ_discrete,
}
use mathlib.Core.Path.{subst}
use mathlib.Core.List.{append-nil, append_assoc}
use odp_libtrace.Combiner.{Result, Ticks}
use odp_libtrace.Combiner.Order.{results, results-append}
use odp_libtrace.Combiner.Ordered.{Peek, peek_queue}
use odp_libtrace.Combiner.Ordered.Front.{Peeks, stops, pops, peek_queue-Peeks}
use odp_libtrace.Combiner.Ordered.Merge.{Slot, Vars, inactive, active, check_one, check, queues_of}
use odp_libtrace.Combiner.Ordered.Merge.Order.{Ascending, AllAscending, Alike}
use odp_libtrace.Combiner.Ordered.Merge.Slots.{
  IsReady, AllReady, Least, Least-append, Least-lower, AllReady-append, IsAt, IsAt-last, Finds,
  get_elem?-append,
}

-- How the least key so far takes in the key of the queue `i`.
data Chooses (i key : ℕ) (s s' : Vars) : Type 0 where
  this : s'.min_key ≡ key → s'.min_queue ≡ some i → (i ≡ 0) ⊎ (key < s.min_key) → Chooses i key s s'
  other :
      s'.min_key ≡ s.min_key
      → s'.min_queue ≡ s.min_queue
      → s.min_key ≤ key
      → i ≢ 0
      → Chooses i key s s'

-- What the first loop notes of a queue that is in order from `k` on.
data Verdict (k i : ℕ) (slot : Slot) (s s' : Vars) : Type 0 where
  off : s'.allactive ≡ false → Verdict k i slot s s'
  on : IsReady k slot → s'.allactive ≡ s.allactive → Chooses i slot.key s s' → Verdict k i slot s s'

record Checks (k i : ℕ) (v : List Result) (s : Vars) (out : (Slot × Vars) × List Result)
    : Type 0 where
  pub same : results out.0.0.queue ≡ results v
  pub ticks_only : results out.1 ≡ []
  pub verdict : Verdict k i out.0.0 s out.0.1

active-Chooses :
    (i key : ℕ) (q : List Result) (c : Ticks) (s : Vars) → Chooses i key s (active i key q c s).1
unfolding active
active-Chooses i key q c s = elim (ℕ_discrete i 0) [
  | yes z ↦ this (ground arith) (ground arith) (inl z)
  | no nz ↦ elim (dec_lt key s.min_key) [
    | yes l ↦ this (ground arith) (ground arith) (inr l)
    | no n ↦ other (ground arith) (ground arith) (omega arith) nz
  ]
]

active-allactive :
    (i key : ℕ) (q : List Result) (c : Ticks) (s : Vars)
    → (active i key q c s).1.allactive ≡ s.allactive
unfolding active
active-allactive i key q c s = ground arith

checked : ℕ → List Result → Vars → Peek → (Slot × Vars) × List Result
checked i v s p = elim p.key [
  | none ↦ (inactive p.queue p.ticks s, p.sent)
  | some peeked ↦ (active i peeked p.queue p.ticks s, p.sent)
]

checked-Checks :
    (k i : ℕ) (r : Result) (rs : List Result) (s : Vars) (p : Peek)
    → Ascending k (results (r ∷ rs))
    → Peeks s.ticks r rs p
    → Checks k i (r ∷ rs) s (checked i (r ∷ rs) s p)
unfolding checked inactive active
checked-Checks k i r rs s p a (stops e) = record {
  same = refl;
  ticks_only = refl;
  verdict =
      on
        record {
          live = refl;
          front = r;
          rest = rs;
          queue = refl;
          plain = e;
          noted = refl;
          ascending = a;
        }
        (active-allactive i r.key (r ∷ rs) s.ticks s) (active-Chooses i r.key (r ∷ rs) s.ticks s);
}
checked-Checks k i r rs s p a (pops {s = out} e pass) = record {
  same = sym (results-append (r ∷ []) rs ∙ ap (λ l. l ++ results rs) e);
  ticks_only = pass.kept ∙ e;
  verdict = off refl;
}

check_one-Checks :
    (k i : ℕ) (v : List Result) (s : Vars)
    → Ascending k (results v)
    → Checks k i v s (check_one true i v s)
unfolding check_one inactive checked
check_one-Checks k i [] s a = record { same = refl; ticks_only = refl; verdict = off refl }
check_one-Checks k i (r ∷ rs) s a =
    checked-Checks k i r rs s (peek_queue true s.ticks r rs) a
      (peek_queue-Peeks s.ticks r.key r.value r.type rs)

-- The queues so far are alive, and the least of their keys is known, once there is a queue.
pub record IsSound (k : ℕ) (slots : List Slot) (s : Vars) : Type 0 where
  pub ready : AllReady k slots
  pub min : (slots ≡ []) ⊎ Finds slots (s.min_key, s.min_queue)

Least-before :
    (k : ℕ) (before : List Slot) (s : Vars) (key : ℕ)
    → IsSound k before s
    → (length before ≡ 0) ⊎ (key < s.min_key)
    → Least key before
Least-before k [] s key ok w = tt
Least-before k (b ∷ before) s key ok (inl e) = absurd (omega arith)
Least-before k (b ∷ before) s key ok (inr lt) = elim ok.min [
  | inl e ↦ absurd (omega (arith, ap length e))
  | inr f ↦ Least-lower key s.min_key (b ∷ before) (omega arith) f.least
]

IsAt-append : (xs ys : List Slot) (m : ℕ) (q : Option ℕ) → IsAt xs m q → IsAt (xs ++ ys) m q
IsAt-append xs ys m q a = record {
  index = a.index;
  slot = a.slot;
  is_index = a.is_index;
  found = get_elem?-append xs ys a.index a.slot a.found;
  key = a.key;
}

IsSound-next :
    (k : ℕ) (before : List Slot) (slot : Slot) (s s' : Vars)
    → IsSound k before s
    → IsReady k slot
    → Chooses (length before) slot.key s s'
    → IsSound k (before ++ (slot ∷ [])) s'
IsSound-next k before slot s s' ok r (this e f w) = record {
  ready = AllReady-append k before (slot ∷ []) ok.ready (r, tt);
  min = inr (
      subst (Finds (before ++ (slot ∷ []))) (ap₂ (λ m q. (m, q)) (sym e) (sym f)) record {
        least =
            Least-append slot.key before (slot ∷ []) (Least-before k before s slot.key ok w)
              (omega arith, tt);
        is_at = IsAt-last before slot [];
      });
}
IsSound-next k before slot s s' ok r (other e f le nz) = elim ok.min [
  | inl z ↦ absurd (nz (ap length z))
  | inr g ↦ record {
    ready = AllReady-append k before (slot ∷ []) ok.ready (r, tt);
    min = inr (
        subst (Finds (before ++ (slot ∷ []))) (ap₂ (λ m q. (m, q)) (sym e) (sym f)) record {
          least = Least-append s.min_key before (slot ∷ []) g.least (le, tt);
          is_at = IsAt-append before (slot ∷ []) s.min_key s.min_queue g.is_at;
        });
  }
]

-- What the first loop leaves.
pub record Scans (k : ℕ) (before : List Slot) (vs : List (List Result))
    (out : (List Slot × Vars) × List Result) : Type 0 where
  pub alike : Alike (queues_of out.0.0) vs
  pub ticks_only : results out.1 ≡ []
  pub sound : (out.0.1.allactive ≡ false) ⊎ IsSound k (before ++ out.0.0) out.0.1

-- As long as `allactive` is not cleared, the queues before are sound.
pub check-Scans :
    (k : ℕ) (before : List Slot) (vs : List (List Result)) (s : Vars)
    → AllAscending k vs
    → (s.allactive ≡ false) ⊎ IsSound k before s
    → Scans k before vs (check true (length before) vs s)
unfolding check
check-Scans k before [] s a ok = record {
  alike = tt;
  ticks_only = refl;
  sound = subst (λ l. (s.allactive ≡ false) ⊎ IsSound k l s) (sym (append-nil before)) ok;
}
check-Scans k before (v ∷ vs) s (a, as') ok =
    let c = check_one-Checks k (length before) v s a in
    let one = check_one true (length before) v s in
    let slot = one.0.0 in
    let more = check-Scans k (before ++ (slot ∷ [])) vs one.0.1 as' (now c.verdict ok) in
    let next : length (before ++ (slot ∷ [])) ≡ suc (length before) =
      omega (arith, length-append before (slot ∷ [])) in
    let m : Scans k (before ++ (slot ∷ [])) vs (check true (suc (length before)) vs one.0.1) =
      subst (λ n. Scans k (before ++ (slot ∷ [])) vs (check true n vs one.0.1)) next more in
    let rest = check true (suc (length before)) vs one.0.1 in
    record {
      alike = (c.same, m.alike);
      ticks_only = results-append one.1 rest.1 ∙ ap₂ (λ x y. x ++ y) c.ticks_only m.ticks_only;
      sound =
          subst (λ l. (rest.0.1.allactive ≡ false) ⊎ IsSound k l rest.0.1)
            (append_assoc before (slot ∷ []) rest.0.0) m.sound;
    }
  where
    now :
        {slot : Slot} {s' : Vars}
        → Verdict k (length before) slot s s'
        → (s.allactive ≡ false) ⊎ IsSound k before s
        → (s'.allactive ≡ false) ⊎ IsSound k (before ++ (slot ∷ [])) s'
    now (off e) p = inl e
    now (on r e ch) (inl d) = inl (e ∙ d)
    now {slot} {s'} (on r e ch) (inr sound) = inr (IsSound-next k before slot s s' sound r ch)
