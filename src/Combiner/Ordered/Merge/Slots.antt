-- ===== src/Combiner/Ordered/Merge/Slots.antt =====
-- lib/combiner_ordered.c, read_internal: queues that are all alive, and the least of their keys.
use odp_libtrace.Prelude.{
  ℕ, zero, suc, ◌≤◌, ◌<◌, ◌≡◌, refl, sym, arith, Bool, true, ◌&&◌, List, [], ◌∷◌, ◌++◌, Option,
  some, leb, if◌then◌else◌, get_elem?, length, dec_le, length-append,
}
use mathlib.Core.Path.{subst}
use mathlib.Core.List.{append_assoc}
use odp_libtrace.Combiner.{Result}
use odp_libtrace.Combiner.Order.{results}
use odp_libtrace.Combiner.Ordered.Merge.{Slot, rescan}
use odp_libtrace.Combiner.Ordered.Merge.Order.{Ascending}

-- A queue that is alive: its front is a result whose key is noted, and it is in order from `k` on.
pub record IsReady (k : ℕ) (s : Slot) : Type 0 where
  pub live : s.live ≡ true
  pub front : Result
  pub rest : List Result
  pub queue : s.queue ≡ front ∷ rest
  pub plain : results (front ∷ []) ≡ front ∷ []
  pub noted : s.key ≡ front.key
  pub ascending : Ascending k (results s.queue)

abbrev pub AllReady : ℕ → List Slot → Type 0
AllReady k [] = Unit
AllReady k (s ∷ ss) = IsReady k s × AllReady k ss

abbrev pub Least : ℕ → List Slot → Type 0
Least m [] = Unit
Least m (s ∷ ss) = (m ≤ s.key) × Least m ss

pub Least-lower : (j k : ℕ) (ss : List Slot) → j ≤ k → Least k ss → Least j ss
Least-lower j k [] le l = tt
Least-lower j k (s ∷ ss) le (h, l) = (omega arith, Least-lower j k ss le l)

pub Least-append : (m : ℕ) (xs ys : List Slot) → Least m xs → Least m ys → Least m (xs ++ ys)
Least-append m [] ys a b = b
Least-append m (s ∷ ss) ys (h, a) b = (h, Least-append m ss ys a b)

pub AllReady-append :
    (k : ℕ) (xs ys : List Slot) → AllReady k xs → AllReady k ys → AllReady k (xs ++ ys)
AllReady-append m [] ys a b = b
AllReady-append m (s ∷ ss) ys (h, a) b = (h, AllReady-append m ss ys a b)

-- `min_queue` is the index of a queue with the key `min_key`.
pub record IsAt (slots : List Slot) (min_key : ℕ) (min_queue : Option ℕ) : Type 0 where
  pub index : ℕ
  pub slot : Slot
  pub is_index : min_queue ≡ some index
  pub found : get_elem? slots index ≡ some slot
  pub key : slot.key ≡ min_key

get_elem?-length :
    {A : Type 0} (xs : List A) (y : A) (ys : List A)
    → get_elem? (xs ++ (y ∷ ys)) (length xs) ≡ some y
get_elem?-length [] y ys = refl
get_elem?-length (x ∷ xs) y ys = get_elem?-length xs y ys

pub get_elem?-append :
    {A : Type 0} (xs ys : List A) (i : ℕ) (y : A)
    → get_elem? xs i ≡ some y
    → get_elem? (xs ++ ys) i ≡ some y
get_elem?-append [] ys i y e = cc
get_elem?-append (x ∷ xs) ys zero y e = e
get_elem?-append (x ∷ xs) ys (suc i) y e = get_elem?-append xs ys i y e

pub IsAt-last :
    (before : List Slot) (s : Slot) (rest : List Slot)
    → IsAt (before ++ (s ∷ rest)) s.key (some (length before))
IsAt-last before s rest = record {
  index = length before;
  slot = s;
  is_index = refl;
  found = get_elem?-length before s rest;
  key = refl;
}

-- What a search for the least key finds: the least, and where it is.
pub record Finds (slots : List Slot) (found : ℕ × Option ℕ) : Type 0 where
  pub least : Least found.0 slots
  pub is_at : IsAt slots found.0 found.1

shift :
    (before : List Slot) (s : Slot) (rest : List Slot)
    → (before ++ (s ∷ [])) ++ rest ≡ before ++ (s ∷ rest)
shift before s rest = append_assoc before (s ∷ []) rest

-- One slot is moved from the rest to what was seen.
pub moved :
    (P : List Slot → ℕ → Type 0) (before : List Slot) (s : Slot) (rest : List Slot)
    → P ((before ++ (s ∷ [])) ++ rest) (length (before ++ (s ∷ [])))
    → P (before ++ (s ∷ rest)) (suc (length before))
moved P before s rest p =
    subst (λ l. P l (suc (length before))) (shift before s rest)
      (subst (P ((before ++ (s ∷ [])) ++ rest)) (omega (arith, length-append before (s ∷ []))) p)

taken :
    {A : Type 0} (key min_key : ℕ) (live : Bool) (x y : A)
    → live ≡ true
    → key ≤ min_key
    → (if live && leb key min_key then x else y) ≡ x
taken key min_key live x y e le = ground arith

left :
    {A : Type 0} (key min_key : ℕ) (live : Bool) (x y : A)
    → min_key < key
    → (if live && leb key min_key then x else y) ≡ y
left key min_key live x y lt = ground arith

pub rescan-Finds :
    (k : ℕ) (before rest : List Slot) (min_key : ℕ) (min_queue : Option ℕ)
    → AllReady k rest
    → Least min_key before
    → IsAt (before ++ rest) min_key min_queue
    → Finds (before ++ rest) (rescan (length before) rest min_key min_queue)
unfolding rescan
rescan-Finds k before [] min_key min_queue ready least is_at = record {
  least = Least-append min_key before [] least tt;
  is_at = is_at;
}
rescan-Finds k before (s ∷ rest) min_key min_queue (r, ready) least is_at =
    let whole = before ++ (s ∷ rest) in
    let here = rescan (suc (length before)) rest s.key (some (length before)) in
    let same = rescan (suc (length before)) rest min_key min_queue in
    elim (dec_le s.key min_key) [
      | yes le ↦ subst (Finds whole) (sym (taken s.key min_key s.live here same r.live le)) (
          moved (λ l n. Finds l (rescan n rest s.key (some (length before)))) before s rest
            (rescan-Finds k (before ++ (s ∷ [])) rest s.key (some (length before)) ready
              (Least-append s.key before (s ∷ []) (Least-lower s.key min_key before le least)
                (omega arith, tt))
              (subst (λ l. IsAt l s.key (some (length before))) (sym (shift before s rest))
                (IsAt-last before s rest))))
      | no n ↦ subst (Finds whole) (sym (left s.key min_key s.live here same (omega arith))) (
          moved (λ l n. Finds l (rescan n rest min_key min_queue)) before s rest
            (rescan-Finds k (before ++ (s ∷ [])) rest min_key min_queue ready
              (Least-append min_key before (s ∷ []) least (omega arith, tt))
              (subst (λ l. IsAt l min_key min_queue) (sym (shift before s rest)) is_at)))
    ]
