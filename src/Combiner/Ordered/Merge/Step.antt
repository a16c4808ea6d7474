-- ===== src/Combiner/Ordered/Merge/Step.antt =====
-- lib/combiner_ordered.c, read_internal: a round of the second loop on queues that are all alive.
use odp_libtrace.Prelude.{
  ℕ, zero, suc, ◌+◌, ◌≤◌, ◌<◌, ◌≡◌, ◌≢◌, refl, ap, ap₂, sym, ◌∙◌, arith, Bool, true, false, List,
  [], ◌∷◌, ◌++◌, some, ◌==◌, if◌then◌else◌, ◌⊎◌, inl, inr, dec_le, ℕ_discrete, get_elem?, set,
}
use mathlib.Core.Path.{subst}
use mathlib.Core.Option.{some-injective}
use odp_libtrace.Combiner.{Result}
use odp_libtrace.Combiner.Order.{results, results-append}
use odp_libtrace.Combiner.Ordered.{Next, next_message}
use odp_libtrace.Combiner.Ordered.Front.{Front, empty, at, next_message-Skips}
use odp_libtrace.Combiner.Ordered.Merge.{Slot, Vars, rescan, keep_min, drop_min, pop_min, queues_of}
use odp_libtrace.Combiner.Ordered.Merge.Order.{
  Ascending, AllAscending, count, count_all, count-append,
}
use odp_libtrace.Combiner.Ordered.Merge.Slots.{
  IsReady, AllReady, Least, Least-lower, IsAt, Finds, rescan-Finds,
}

-- A queue that is alive starts with its front.
results_ready : {k : ℕ} {s : Slot} (r : IsReady k s) → results s.queue ≡ r.front ∷ results r.rest
results_ready r =
    ap results r.queue
    ∙ (results-append (r.front ∷ []) r.rest ∙ ap (λ l. l ++ results r.rest) r.plain)

IsReady-raise : (k m : ℕ) (s : Slot) → IsReady k s → m ≤ s.key → IsReady m s
IsReady-raise k m s r le =
    let (_, tail) = subst (Ascending k) (results_ready r) r.ascending in
    record {
      live = r.live;
      front = r.front;
      rest = r.rest;
      queue = r.queue;
      plain = r.plain;
      noted = r.noted;
      ascending = subst (Ascending m) (sym (results_ready r)) (omega (arith, r.noted), tail);
    }

pub AllReady-raise : (k m : ℕ) (ss : List Slot) → AllReady k ss → Least m ss → AllReady m ss
AllReady-raise k m [] r l = tt
AllReady-raise k m (s ∷ ss) (r, rs) (l, ls) = (IsReady-raise k m s r l, AllReady-raise k m ss rs ls)

AllReady-set :
    (k : ℕ) (ss : List Slot) (i : ℕ) (s' : Slot)
    → AllReady k ss
    → IsReady k s'
    → AllReady k (set ss i s')
AllReady-set k [] i s' rs r = tt
AllReady-set k (s ∷ ss) zero s' (_, rs) r = (r, rs)
AllReady-set k (s ∷ ss) (suc i) s' (q, rs) r = (q, AllReady-set k ss i s' rs r)

pub AllReady-AllAscending : (k : ℕ) (ss : List Slot) → AllReady k ss → AllAscending k (queues_of ss)
AllReady-AllAscending k [] r = tt
AllReady-AllAscending k (s ∷ ss) (r, rs) = (r.ascending, AllReady-AllAscending k ss rs)

AllAscending-set :
    (k : ℕ) (ss : List Slot) (i : ℕ) (s' : Slot)
    → AllAscending k (queues_of ss)
    → Ascending k (results s'.queue)
    → AllAscending k (queues_of (set ss i s'))
AllAscending-set k [] i s' a b = tt
AllAscending-set k (s ∷ ss) zero s' (_, a) b = (b, a)
AllAscending-set k (s ∷ ss) (suc i) s' (c, a) b = (c, AllAscending-set k ss i s' a b)

Least-set :
    (m : ℕ) (ss : List Slot) (i : ℕ) (s' : Slot) → Least m ss → m ≤ s'.key → Least m (set ss i s')
Least-set m [] i s' l h = tt
Least-set m (s ∷ ss) zero s' (_, l) h = (h, l)
Least-set m (s ∷ ss) (suc i) s' (c, l) h = (c, Least-set m ss i s' l h)

found_set :
    (ss : List Slot) (i : ℕ) (s s' : Slot)
    → get_elem? ss i ≡ some s
    → get_elem? (set ss i s') i ≡ some s'
found_set [] i s s' e = cc
found_set (x ∷ ss) zero s s' e = refl
found_set (x ∷ ss) (suc i) s s' e = found_set ss i s s' e

AllReady-at :
    (k : ℕ) (ss : List Slot) (i : ℕ) (s : Slot)
    → AllReady k ss
    → get_elem? ss i ≡ some s
    → IsReady k s
AllReady-at k [] i s r e = cc
AllReady-at k (x ∷ ss) zero s (r, rs) e = subst (IsReady k) (some-injective x s e) r
AllReady-at k (x ∷ ss) (suc i) s (r, rs) e = AllReady-at k ss i s rs e

count_all-set :
    (p : Result → Bool) (ss : List Slot) (i : ℕ) (s s' : Slot)
    → get_elem? ss i ≡ some s
    → count_all p (queues_of (set ss i s')) + count p (results s.queue)
      ≡ count_all p (queues_of ss) + count p (results s'.queue)
count_all-set p [] i s s' e = cc
count_all-set p (x ∷ ss) zero s s' e =
    let f = ap (λ (t : Slot). count p (results t.queue)) (some-injective x s e) in omega (arith, f)
count_all-set p (x ∷ ss) (suc i) s s' e = omega (arith, count_all-set p ss i s s' e)

-- The queues go on: the loop ends, or they are all alive again and the least key is known.
unfoldable pub GoesOn : ℕ → List Slot × Vars → Type 0
GoesOn k out =
    (out.1.allactive ≡ false) ⊎ (AllReady k out.0 × Finds out.0 (out.1.min_key, out.1.min_queue))

abbrev going_on : Slot → Next → Slot
going_on slot n = record slot { queue = n.queue; key = n.key }

keep_min-lower :
    (i : ℕ) (slot : Slot) (n : Next) (slots : List Slot) (s : Vars)
    → n.key ≤ s.min_key
    → keep_min i slot n slots s
      ≡ (set slots i (going_on slot n), record s { ticks = n.ticks; min_key = n.key })
unfolding keep_min
keep_min-lower i slot n slots s le = ground arith

keep_min-higher :
    (i : ℕ) (slot : Slot) (n : Next) (slots : List Slot) (s : Vars)
    → s.min_key < n.key
    → keep_min i slot n slots s ≡ (
      set slots i (going_on slot n),
      record s {
        ticks = n.ticks;
        min_key = (rescan 0 (set slots i (going_on slot n)) n.key (some i)).0;
        min_queue = (rescan 0 (set slots i (going_on slot n)) n.key (some i)).1;
      },
    )
unfolding keep_min
keep_min-higher i slot n slots s lt = ground arith

keep_min-GoesOn :
    (m i : ℕ) (slot : Slot) (n : Next) (slots : List Slot) (s : Vars)
    → AllReady m slots
    → Least s.min_key slots
    → s.min_queue ≡ some i
    → get_elem? slots i ≡ some slot
    → IsReady m (going_on slot n)
    → GoesOn m (keep_min i slot n slots s)
unfolding GoesOn
keep_min-GoesOn m i slot n slots s ready least at_min e r =
    let slots' = set slots i (going_on slot n) in
    let ready' = AllReady-set m slots i (going_on slot n) ready r in
    let here : IsAt slots' n.key (some i) = record {
      index = i;
      slot = going_on slot n;
      is_index = refl;
      found = found_set slots i slot (going_on slot n) e;
      key = refl;
    } in
    elim (dec_le n.key s.min_key) [
      | yes le ↦ subst (GoesOn m) (sym (keep_min-lower i slot n slots s le)) (
          inr (
            ready',
            record {
              least =
                  Least-set n.key slots i (going_on slot n)
                    (Least-lower n.key s.min_key slots le least) (omega arith);
              is_at = subst (IsAt slots' n.key) (sym at_min) here;
            },
          ))
      | no c ↦
          subst (GoesOn m) (sym (keep_min-higher i slot n slots s (omega arith)))
            (inr (ready', rescan-Finds m [] slots' n.key (some i) ready' tt here))
    ]

-- What a round does: the least key is sent, the queues stay in order from there on, and nothing is
-- lost.
pub record Pops (k : ℕ) (slots : List Slot) (s : Vars) : Type 0 where
  pub out : List Result
  pub front : Result
  pub slots' : List Slot
  pub s' : Vars
  pub returns : pop_min true slots s ≡ some (out, slots', s')
  pub sends : results out ≡ front ∷ []
  pub key : front.key ≡ s.min_key
  pub above : k ≤ s.min_key
  pub in_order : AllAscending s.min_key (queues_of slots')
  pub nothing_lost :
      (p : Result → Bool)
      → count_all p (queues_of slots') + count p (front ∷ []) ≡ count_all p (queues_of slots)
  pub goes_on : GoesOn s.min_key (slots', s')

after : ℕ → Slot → Next → List Slot → Vars → List Slot × Vars
after i slot n slots s = if n.key == 0 then drop_min i slot n slots s else keep_min i slot n slots s

pop_min-step :
    (slots : List Slot) (s : Vars) (i : ℕ) (slot : Slot) (r : Result) (rs : List Result)
    → s.min_queue ≡ some i
    → get_elem? slots i ≡ some slot
    → slot.queue ≡ r ∷ rs
    → pop_min true slots s
      ≡ some (
        r ∷ (next_message true s.ticks rs).sent,
        (after i slot (next_message true s.ticks rs) slots s).0,
        (after i slot (next_message true s.ticks rs) slots s).1,
      )
unfolding pop_min after
pop_min-step slots s i slot r rs e f g = ground arith

after-queues :
    (i : ℕ) (slot : Slot) (n : Next) (slots : List Slot) (s : Vars)
    → (s' : Slot) × (s'.queue ≡ n.queue) × ((after i slot n slots s).0 ≡ set slots i s')
unfolding after drop_min keep_min
after-queues i slot n slots s = elim (ℕ_discrete n.key 0) [
  | yes z ↦ (record { queue = n.queue; live = false; key = 0 }, refl, ground arith)
  | no nz ↦ (going_on slot n, refl, ground arith)
]

front-IsReady :
    (m : ℕ) (slot : Slot) (q : List Result) (key : ℕ)
    → Front q key
    → key ≢ 0
    → slot.live ≡ true
    → Ascending m (results q)
    → IsReady m (record slot { queue = q; key = key })
front-IsReady m slot q key empty nz live a = absurd (nz refl)
front-IsReady m slot q key (at {r = r} {rs = rs} plain) nz live a = record {
  live = live;
  front = r;
  rest = rs;
  queue = refl;
  plain = plain;
  noted = refl;
  ascending = a;
}

after-drop :
    (i : ℕ) (slot : Slot) (n : Next) (slots : List Slot) (s : Vars)
    → n.key ≡ 0
    → (after i slot n slots s).1.allactive ≡ false
unfolding after drop_min
after-drop i slot n slots s z = ground arith

after-keep :
    (i : ℕ) (slot : Slot) (n : Next) (slots : List Slot) (s : Vars)
    → n.key ≢ 0
    → after i slot n slots s ≡ keep_min i slot n slots s
unfolding after
after-keep i slot n slots s nz = ground arith

after-GoesOn :
    (m i : ℕ) (slot : Slot) (n : Next) (slots : List Slot) (s : Vars)
    → AllReady m slots
    → Least s.min_key slots
    → s.min_queue ≡ some i
    → get_elem? slots i ≡ some slot
    → slot.live ≡ true
    → Front n.queue n.key
    → Ascending m (results n.queue)
    → GoesOn m (after i slot n slots s)
unfolding GoesOn
after-GoesOn m i slot n slots s ready least at_min e live front a = elim (ℕ_discrete n.key 0) [
  | yes z ↦ inl (after-drop i slot n slots s z)
  | no nz ↦ subst (GoesOn m) (sym (after-keep i slot n slots s nz)) (
      keep_min-GoesOn m i slot n slots s ready least at_min e
        (front-IsReady m slot n.queue n.key front nz live a))
]

pub pop_min-Pops :
    (k : ℕ) (slots : List Slot) (s : Vars)
    → AllReady k slots
    → Finds slots (s.min_key, s.min_queue)
    → Pops k slots s
pop_min-Pops k slots s ready f =
    let m = s.min_key in
    let i = f.is_at.index in
    let slot = f.is_at.slot in
    let raised = AllReady-raise k m slots ready f.least in
    let r = AllReady-at m slots i slot raised f.is_at.found in
    let n = next_message true s.ticks r.rest in
    let skips = next_message-Skips s.ticks r.rest in
    let r0 = AllReady-at k slots i slot ready f.is_at.found in
    let (first, _) = subst (Ascending k) (results_ready r0) r0.ascending in
    let (_, tail) = subst (Ascending m) (results_ready r) r.ascending in
    let key : r.front.key ≡ m = sym r.noted ∙ f.is_at.key in
    let rest : Ascending m (results n.queue) =
      subst (λ l. Ascending m l) (sym skips.kept)
        (subst (λ j. Ascending j (results r.rest)) key tail) in
    let (s1, q, eq) = after-queues i slot n slots s in
    record {
      out = r.front ∷ n.sent;
      front = r.front;
      slots' = (after i slot n slots s).0;
      s' = (after i slot n slots s).1;
      returns = pop_min-step slots s i slot r.front r.rest f.is_at.is_index f.is_at.found r.queue;
      sends = results-append (r.front ∷ []) n.sent ∙ ap₂ (λ x y. x ++ y) r.plain skips.ticks_only;
      key = key;
      above = omega (arith, first, r0.noted, f.is_at.key);
      in_order =
          subst (λ l. AllAscending m (queues_of l)) (sym eq)
            (AllAscending-set m slots i s1 (AllReady-AllAscending m slots raised)
              (subst (λ l. Ascending m (results l)) (sym q) rest));
      nothing_lost = λ p. omega (
        arith,
        ap (λ l. count_all p (queues_of l)) eq,
        count_all-set p slots i slot s1 f.is_at.found,
        ap (count p) (results_ready r),
        count-append p (r.front ∷ []) (results r.rest),
        ap (λ l. count p (results l)) q,
        ap (count p) skips.kept,
      );
      goes_on =
          after-GoesOn m i slot n slots s raised f.least f.is_at.is_index f.is_at.found r.live
            skips.front rest;
    }
