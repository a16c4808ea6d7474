-- ===== src/Combiner/Ordered/Merge/Loop.antt =====
-- lib/combiner_ordered.c, read: what a call sends while the packet threads run.
use odp_libtrace.Prelude.{
  ℕ, zero, suc, ◌+◌, ◌-◌, ◌≤◌, ◌<◌, ◌^◌, ◌≡◌, refl, ap, sym, ◌∙◌, arith, Bool, true, false, List,
  [], ◌∷◌, ◌++◌, Option, none, some, length, ◌⊎◌, inl, inr, Bool-cases,
}
use mathlib.Core.Path.{subst}
use odp_libtrace.Combiner.{Result, Ticks}
use odp_libtrace.Combiner.Order.{results, results-append}
use odp_libtrace.Combiner.Ordered.Merge.{
  Slot, Vars, check, pop_min, merge, Merged, queues_of, total, read_internal, read,
}
use odp_libtrace.Combiner.Ordered.Merge.Order.{
  Ascends, stay, rise, AllAscending, count, count_all, count-append, length-results, Alike,
  Alike-AllAscending, Alike-count_all,
}
use odp_libtrace.Combiner.Ordered.Merge.Slots.{AllReady, Finds}
use odp_libtrace.Combiner.Ordered.Merge.Scan.{IsSound, check-Scans}
use odp_libtrace.Combiner.Ordered.Merge.Step.{Pops, pop_min-Pops, GoesOn}

-- A call returns; the results that it sends are in order from `k` on, those that it leaves are in
-- order behind them, and nothing is lost.
pub record Delivers (k : ℕ) (queues : List (List Result)) (out : Option Merged) : Type 0 where
  pub merged : Merged
  pub returns : out ≡ some merged
  pub last : ℕ
  pub sent_in_order : Ascends k (results merged.sent) last
  pub left_in_order : AllAscending last merged.queues
  pub nothing_lost :
      (p : Result → Bool)
      → count p (results merged.sent) + count_all p merged.queues ≡ count_all p queues

merge-stop :
    (fuel : ℕ) (slots : List Slot) (s : Vars)
    → s.allactive ≡ false
    → merge (suc fuel) true false slots s
      ≡ some (record { queues = queues_of slots; ticks = s.ticks; sent = [] })
unfolding merge
merge-stop fuel slots s e = ground arith

merge-go :
    (fuel : ℕ) (slots : List Slot) (s : Vars) (out : List Result) (slots' : List Slot) (s' : Vars)
    (m : Merged)
    → s.allactive ≡ true
    → pop_min true slots s ≡ some (out, slots', s')
    → merge fuel true false slots' s' ≡ some m
    → merge (suc fuel) true false slots s ≡ some (record m { sent = out ++ m.sent })
unfolding merge
merge-go fuel slots s out slots' s' m e f g = ground arith

any : Result → Bool
any r = true

stopped :
    (fuel k : ℕ) (slots : List Slot) (s : Vars)
    → AllAscending k (queues_of slots)
    → s.allactive ≡ false
    → Delivers k (queues_of slots) (merge (suc fuel) true false slots s)
unfolding count
stopped fuel k slots s a e = record {
  merged = record { queues = queues_of slots; ticks = s.ticks; sent = [] };
  returns = merge-stop fuel slots s e;
  last = k;
  sent_in_order = stay;
  left_in_order = a;
  nothing_lost = λ p. omega arith;
}

one_counted : (r : Result) → count any (r ∷ []) ≡ 1
unfolding count any
one_counted r = refl

-- A round before the others.
joined :
    (fuel k : ℕ) (slots : List Slot) (s : Vars) (p : Pops k slots s)
    → s.allactive ≡ true
    → Delivers s.min_key (queues_of p.slots') (merge fuel true false p.slots' p.s')
    → Delivers k (queues_of slots) (merge (suc fuel) true false slots s)
joined fuel k slots s p e d =
    let sent : results (p.out ++ d.merged.sent) ≡ p.front ∷ results d.merged.sent =
      results-append p.out d.merged.sent ∙ ap (λ l. l ++ results d.merged.sent) p.sends in
    record {
      merged = record d.merged { sent = p.out ++ d.merged.sent };
      returns = merge-go fuel slots s p.out p.slots' p.s' d.merged e p.returns d.returns;
      last = d.last;
      sent_in_order =
          subst (λ l. Ascends k l d.last) (sym sent)
            (rise (omega (arith, p.above, p.key))
              (subst (λ j. Ascends j (results d.merged.sent) d.last) (sym p.key) d.sent_in_order));
      left_in_order = d.left_in_order;
      nothing_lost = λ t. omega (
        arith,
        ap (count t) sent,
        count-append t (p.front ∷ []) (results d.merged.sent),
        d.nothing_lost t,
        p.nothing_lost t,
      );
    }

merge-Delivers :
    (fuel k : ℕ) (slots : List Slot) (s : Vars)
    → AllAscending k (queues_of slots)
    → (s.allactive ≡ false) ⊎ (AllReady k slots × Finds slots (s.min_key, s.min_queue))
    → count_all any (queues_of slots) < fuel
    → Delivers k (queues_of slots) (merge fuel true false slots s)
unfolding GoesOn
merge-Delivers zero k slots s a ok enough = absurd (omega arith)
merge-Delivers (suc fuel) k slots s a (inl e) enough = stopped fuel k slots s a e
merge-Delivers (suc fuel) k slots s a (inr (ready, finds)) enough = elim (Bool-cases s.allactive) [
  | inr e ↦ stopped fuel k slots s a e
  | inl e ↦
      let p = pop_min-Pops k slots s ready finds in
      joined fuel k slots s p e (
        merge-Delivers fuel s.min_key p.slots' p.s' p.in_order p.goes_on
          (omega (arith, p.nothing_lost any, one_counted p.front)))
]

count-length : (rs : List Result) → count any rs ≡ length rs
unfolding count any
count-length [] = refl
count-length (r ∷ rs) = omega (arith, count-length rs)

count-le : (queues : List (List Result)) → count_all any queues ≤ total queues
count-le [] = omega arith
count-le (v ∷ vs) = omega (arith, count-le vs, length-results v, count-length (results v))

abbrev start : Ticks → Vars
start c = record {
  min_key = 2 ^ 64 - 1;
  min_queue = none;
  live_count = 0;
  allactive = true;
  ticks = c;
}

read-unfold :
    (c : Ticks) (queues : List (List Result)) (m : Merged)
    → let scan = check true 0 queues (start c) in
      merge (suc (total queues)) true false scan.0.0 scan.0.1 ≡ some m
      → read true c queues ≡ some (record m { sent = scan.1 ++ m.sent })
unfolding read read_internal
read-unfold c queues m e = ground (arith, e)

found :
    (k : ℕ) (v : List Result) (vs : List (List Result)) (slots : List Slot) (s : Vars)
    → Alike (queues_of slots) (v ∷ vs)
    → (s.allactive ≡ false) ⊎ IsSound k slots s
    → (s.allactive ≡ false) ⊎ (AllReady k slots × Finds slots (s.min_key, s.min_queue))
found k v vs slots s alike (inl e) = inl e
found k v vs slots s alike (inr sound) = elim sound.min [
  | inl none_there ↦ elim (subst (λ l. Alike (queues_of l) (v ∷ vs)) none_there alike) [ ]
  | inr f ↦ inr (sound.ready, f)
]

-- In a parallel trace, where the results of every queue are in order from `k` on, a call of read
-- returns; the results it sends are in order from `k` on, those it leaves are in order behind
-- them, and each result is sent or left, as often as it was there.
pub read-Delivers :
    (k : ℕ) (c : Ticks) (queues : List (List Result))
    → 0 < length queues
    → AllAscending k queues
    → Delivers k queues (read true c queues)
read-Delivers k c [] some_queue a = absurd (omega arith)
read-Delivers k c (v ∷ vs) some_queue a =
    let queues = v ∷ vs in
    let scan = check true 0 queues (start c) in
    let sc = check-Scans k [] queues (start c) a (inr record { ready = tt; min = inl refl }) in
    let slots = scan.0.0 in
    let same = λ (p : Result → Bool). Alike-count_all p (queues_of slots) queues sc.alike in
    let d =
      merge-Delivers (suc (total queues)) k slots scan.0.1
        (Alike-AllAscending k (queues_of slots) queues sc.alike a)
        (found k v vs slots scan.0.1 sc.alike sc.sound)
        (omega (arith, same any, count-le queues)) in
    let sent : results (scan.1 ++ d.merged.sent) ≡ results d.merged.sent =
      results-append scan.1 d.merged.sent ∙ ap (λ l. l ++ results d.merged.sent) sc.ticks_only in
    record {
      merged = record d.merged { sent = scan.1 ++ d.merged.sent };
      returns = read-unfold c queues d.merged d.returns;
      last = d.last;
      sent_in_order = subst (λ l. Ascends k l d.last) (sym sent) d.sent_in_order;
      left_in_order = d.left_in_order;
      nothing_lost = λ p. omega (arith, ap (count p) sent, d.nothing_lost p, same p);
    }
